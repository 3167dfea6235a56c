-- ===== src/Events/History.antt =====
-- OnHistorySyncEvent, as one loop over the messages that can be read.
use quepasa.Prelude.{
  ◌≡◌, refl, ap, ◌∙◌, Bool, true, false, Option, none, some, List, [], ◌∷◌, ◌++◌, if◌then◌else◌,
  is_some, ◌>>=◌,
}
use quepasa.Strings.{Text, codes, same}
use mathlib.Core.Path.{subst}
use quepasa.Whatsapp.Options.{WhatsappOptionsExtended}
use quepasa.Events.{
  WhatsmeowHandlers, MessageEvent, HistoryMessage, Conversation, Effect, World, Outcome, ◌then◌,
}
use quepasa.Events.Messages.{
  message, history_messages, history_conversations, on_history_sync_event,
}
use quepasa.Events.Frame.{Frame, Kept, then-Kept, if-Kept}
use quepasa.Events.Keeping.{nothing-Kept, message-Kept}
use quepasa.Events.Readable.{
  tagged, all_messages, readable, messages_in_turn, go_on, in_turn-history_messages,
}

module _ {ℓ} {C : Type ℓ} where
  module _ (w : World C) (options : WhatsappOptionsExtended) where
    messages_in_turn-Kept :
        (evts : List (MessageEvent C)) (h : WhatsmeowHandlers C)
        → Kept h (messages_in_turn w evts h)
    unfolding messages_in_turn
    messages_in_turn-Kept [] h = nothing-Kept w h []
    messages_in_turn-Kept (evt ∷ evts) h =
        then-Kept h (message w evt (codes "history") h) (messages_in_turn w evts)
          (message-Kept w evt (codes "history") h) (messages_in_turn-Kept evts)

    -- A conversation keeps the options.
    history_messages-Kept :
        (id : Text) (ms : List (HistoryMessage C)) (h : WhatsmeowHandlers C)
        → h.service ≡ options
        → Kept h (go_on (messages_in_turn w (readable w options [])) (history_messages w id ms h))
    history_messages-Kept id ms h s =
        subst (Kept h) (in_turn-history_messages w options id ms [] h s)
          (messages_in_turn-Kept (readable w options (tagged id ms ++ [])) h)

    go_on-eq :
        (f g : WhatsmeowHandlers C → Outcome C) (h : WhatsmeowHandlers C)
        (o : Option (Bool × (WhatsmeowHandlers C × List (Effect C))))
        → h.service ≡ options
        → Kept h (go_on (messages_in_turn w (readable w options [])) o)
        → ((left : WhatsmeowHandlers C) → left.service ≡ options → f left ≡ g left)
        → go_on f o ≡ go_on g o
    unfolding go_on Kept Frame messages_in_turn readable
    go_on-eq f g h none s k same = refl
    go_on-eq f g h (some (false, r)) s k same = refl
    go_on-eq f g h (some (true, (left, effects))) s k same =
        ap (λ o. o >>= (λ r. some (r.0, effects ++ r.1))) (same left (k.0 ∙ s))

    in_turn-history_conversations :
        (cs : List (Conversation C)) (h : WhatsmeowHandlers C)
        → h.service ≡ options
        → messages_in_turn w (readable w options (all_messages cs)) h ≡ history_conversations w cs h
    unfolding history_conversations all_messages go_on messages_in_turn readable
    in_turn-history_conversations [] h s = refl
    in_turn-history_conversations (c ∷ cs) h s =
        in_turn-history_messages w options c.id c.messages (all_messages cs) h s
        ∙ go_on-eq (messages_in_turn w (readable w options (all_messages cs)))
            (history_conversations w cs) h (history_messages w c.id c.messages h) s
            (history_messages-Kept c.id c.messages h s) (in_turn-history_conversations cs)

  pub on_history_sync_event-Kept :
      (w : World C) (conversations : List (Conversation C)) (h : WhatsmeowHandlers C)
      → Kept h (on_history_sync_event w conversations h)
  unfolding on_history_sync_event
  on_history_sync_event-Kept w conversations h =
      if-Kept h _ _ _
        (subst (Kept h) (in_turn-history_conversations w h.service conversations h refl)
          (messages_in_turn-Kept w h.service _ h))
        (nothing-Kept w h [])

  -- A history sync gives the messages of all its conversations to Message in their order, those that
  -- the number of days admits, up to the first whose conversation or content does not parse: there
  -- the whole sync ends. Without a number of days nothing is given.
  pub on_history_sync_event-readable :
      (w : World C) (conversations : List (Conversation C)) (h : WhatsmeowHandlers C)
      → on_history_sync_event w conversations h ≡ (
          if is_some h.service.history_sync
          then messages_in_turn w (readable w h.service (all_messages conversations)) h
          else some (h, []))
  unfolding on_history_sync_event
  on_history_sync_event-readable w conversations h =
      rw (in_turn-history_conversations w h.service conversations h refl) refl
