-- ===== src/Events/Readable.antt =====
-- The messages of a history sync that can be read, and the loop over one conversation.
use quepasa.Prelude.{
  ◌≡◌, refl, sym, ap, ◌∙◌, inl, inr, Bool, true, false, Option, none, some, List, [], ◌∷◌, ◌++◌,
  if◌then◌else◌, Bool-cases, Option-cases, ◌>>=◌,
}
use quepasa.Strings.{Text, codes}
use mathlib.Core.List.{append_assoc}
use quepasa.Whatsapp.Options.{WhatsappOptionsExtended, handle_history}
use quepasa.Events.{
  WhatsmeowHandlers, MessageEvent, HistoryMessage, Conversation, Effect, World, Outcome, ◌then◌,
}
use quepasa.Events.Messages.{message, history_messages}
use quepasa.Contacts.Manager.{Jid}
use quepasa.Events.Frame.{Frame, Kept}
use quepasa.Events.Keeping.{message-Kept}

module _ {ℓ} {C : Type ℓ} where
  -- The messages of a sync, each with the id of its conversation.
  unfoldable pub tagged : Text → List (HistoryMessage C) → List (Text × HistoryMessage C)
  tagged id [] = []
  tagged id (m ∷ ms) = (id, m) ∷ tagged id ms

  unfoldable pub all_messages : List (Conversation C) → List (Text × HistoryMessage C)
  unfolding tagged
  all_messages [] = []
  all_messages (c ∷ cs) = tagged c.id c.messages ++ all_messages cs

  -- Those that the days admit, up to the first that cannot be read.
  unfoldable pub readable :
      World C → WhatsappOptionsExtended → List (Text × HistoryMessage C) → List (MessageEvent C)
  unfolding handle_history
  readable w options [] = []
  readable w options ((id, m) ∷ ms) =
      let rest = readable w options ms in
      elim (w.parse_jid id) [
        | none ↦ []
        | some chat ↦
            if handle_history w.history_limit options m.message_timestamp
            then elim (m.parse chat) [ none ↦ [] | some evt ↦ evt ∷ rest ]
            else rest
      ]

  -- Message for each of them.
  unfoldable pub messages_in_turn :
      World C → List (MessageEvent C) → WhatsmeowHandlers C → Outcome C
  unfolding message
  messages_in_turn w [] h = some (h, [])
  messages_in_turn w (evt ∷ evts) h = message w evt (codes "history") h then messages_in_turn w evts

  -- What follows a conversation: the next ones, when it came to the end.
  unfoldable pub go_on :
      (WhatsmeowHandlers C → Outcome C)
      → Option (Bool × (WhatsmeowHandlers C × List (Effect C)))
      → Outcome C
  go_on f o = o >>= (λ r. if r.0 then some r.1 then f else some r.1)

  prefix : List (Effect C) → Outcome C → Outcome C
  prefix effects o = o >>= (λ r. some (r.0, effects ++ r.1))

  prefix-prefix :
      (a b : List (Effect C)) (o : Outcome C) → prefix a (prefix b o) ≡ prefix (a ++ b) o
  unfolding prefix
  prefix-prefix a b none = refl
  prefix-prefix a b (some (h, c)) = ap (λ x. some (h, x)) (sym (append_assoc a b c))

  prefix-nothing : (o : Outcome C) → prefix [] o ≡ o
  unfolding prefix
  prefix-nothing none = refl
  prefix-nothing (some r) = refl

  prefix-go_on :
      (f : WhatsmeowHandlers C → Outcome C) (effects : List (Effect C))
      (o : Option (Bool × (WhatsmeowHandlers C × List (Effect C))))
      → prefix effects (go_on f o) ≡ go_on f (o >>= (λ r. some (r.0, (r.1.0, effects ++ r.1.1))))
  unfolding prefix go_on
  prefix-go_on f effects none = refl
  prefix-go_on f effects (some (false, (h, more))) = refl
  prefix-go_on f effects (some (true, (h, more))) = prefix-prefix effects more (f h)

  module _ (w : World C) (options : WhatsappOptionsExtended) where
    readable_no_chat :
        (id : Text) (m : HistoryMessage C) (xs : List (Text × HistoryMessage C))
        → w.parse_jid id ≡ none
        → readable w options ((id, m) ∷ xs) ≡ []
    unfolding readable
    readable_no_chat id m xs e = rw (e, readable) refl

    readable_old :
        (id : Text) (m : HistoryMessage C) (xs : List (Text × HistoryMessage C)) (chat : Jid)
        → w.parse_jid id ≡ some chat
        → handle_history w.history_limit options m.message_timestamp ≡ false
        → readable w options ((id, m) ∷ xs) ≡ readable w options xs
    unfolding readable
    readable_old id m xs chat e t = rw (e, t, readable) refl

    readable_no_message :
        (id : Text) (m : HistoryMessage C) (xs : List (Text × HistoryMessage C)) (chat : Jid)
        → w.parse_jid id ≡ some chat
        → handle_history w.history_limit options m.message_timestamp ≡ true
        → m.parse chat ≡ none
        → readable w options ((id, m) ∷ xs) ≡ []
    unfolding readable
    readable_no_message id m xs chat e t q = rw (e, t, q, readable) refl

    readable_message :
        (id : Text) (m : HistoryMessage C) (xs : List (Text × HistoryMessage C)) (chat : Jid)
        (evt : MessageEvent C)
        → w.parse_jid id ≡ some chat
        → handle_history w.history_limit options m.message_timestamp ≡ true
        → m.parse chat ≡ some evt
        → readable w options ((id, m) ∷ xs) ≡ evt ∷ readable w options xs
    unfolding readable
    readable_message id m xs chat evt e t q = rw (e, t, q, readable) refl

    history_no_chat :
        (id : Text) (m : HistoryMessage C) (ms : List (HistoryMessage C)) (h : WhatsmeowHandlers C)
        → w.parse_jid id ≡ none
        → history_messages w id (m ∷ ms) h ≡ some (false, (h, []))
    unfolding history_messages
    history_no_chat id m ms h e = rw (e, history_messages) refl

    -- The test in the loop is that of the handler's options.
    history_old :
        (id : Text) (m : HistoryMessage C) (ms : List (HistoryMessage C)) (h : WhatsmeowHandlers C)
        (chat : Jid)
        → w.parse_jid id ≡ some chat
        → handle_history w.history_limit h.service m.message_timestamp ≡ false
        → history_messages w id (m ∷ ms) h ≡ history_messages w id ms h
    unfolding history_messages
    history_old id m ms h chat e t = rw (e, t, history_messages) refl

    history_no_message :
        (id : Text) (m : HistoryMessage C) (ms : List (HistoryMessage C)) (h : WhatsmeowHandlers C)
        (chat : Jid)
        → w.parse_jid id ≡ some chat
        → handle_history w.history_limit h.service m.message_timestamp ≡ true
        → m.parse chat ≡ none
        → history_messages w id (m ∷ ms) h ≡ some (false, (h, []))
    unfolding history_messages
    history_no_message id m ms h chat e t q = rw (e, t, q, history_messages) refl

    history_message :
        (id : Text) (m : HistoryMessage C) (ms : List (HistoryMessage C)) (h : WhatsmeowHandlers C)
        (chat : Jid) (evt : MessageEvent C)
        → w.parse_jid id ≡ some chat
        → handle_history w.history_limit h.service m.message_timestamp ≡ true
        → m.parse chat ≡ some evt
        → history_messages w id (m ∷ ms) h ≡ (
            message w evt (codes "history") h >>= (λ r.
              history_messages w id ms r.0
              >>= (λ more. some (more.0, (more.1.0, r.1 ++ more.1.1)))))
    unfolding history_messages
    history_message id m ms h chat evt e t q = rw (e, t, q, history_messages) refl

    nothing_first :
        (rest : List (Text × HistoryMessage C)) (h : WhatsmeowHandlers C)
        → messages_in_turn w (readable w options rest) h
          ≡ go_on (messages_in_turn w (readable w options rest)) (some (true, (h, [])))
    unfolding go_on prefix
    nothing_first rest h = sym (prefix-nothing _)

    after_message :
        (id : Text) (ms : List (HistoryMessage C)) (rest : List (Text × HistoryMessage C))
        (h : WhatsmeowHandlers C) (o : Outcome C)
        → Kept h o
        → h.service ≡ options
        → ((left : WhatsmeowHandlers C)
            → left.service ≡ options
            → messages_in_turn w (readable w options (tagged id ms ++ rest)) left
              ≡ go_on
                  (messages_in_turn w (readable w options rest))
                  (history_messages w id ms left))
        → (o then messages_in_turn w (readable w options (tagged id ms ++ rest)))
          ≡ go_on (messages_in_turn w (readable w options rest)) (
              o >>= (λ r.
                history_messages w id ms r.0
                >>= (λ more. some (more.0, (more.1.0, r.1 ++ more.1.1)))))
    unfolding Kept Frame go_on messages_in_turn prefix
    after_message id ms rest h none k s ih = refl
    after_message id ms rest h (some (left, effects)) k s ih =
        ap (prefix effects) (ih left (k.0 ∙ s))
        ∙ prefix-go_on (messages_in_turn w (readable w options rest)) effects
            (history_messages w id ms left)

    h_test :
        (m : HistoryMessage C) (h : WhatsmeowHandlers C)
        → h.service ≡ options
        → handle_history w.history_limit h.service m.message_timestamp
          ≡ handle_history w.history_limit options m.message_timestamp
    h_test m h s = ap (λ o. handle_history w.history_limit o m.message_timestamp) s

    pub in_turn-history_messages :
        (id : Text) (ms : List (HistoryMessage C)) (rest : List (Text × HistoryMessage C))
        (h : WhatsmeowHandlers C)
        → h.service ≡ options
        → messages_in_turn w (readable w options (tagged id ms ++ rest)) h
          ≡ go_on (messages_in_turn w (readable w options rest)) (history_messages w id ms h)
    unfolding messages_in_turn tagged go_on prefix history_messages
    in_turn-history_messages id [] rest h s = nothing_first rest h
    in_turn-history_messages id (m ∷ ms) rest h s = elim (Option-cases (w.parse_jid id)) [
      | inl e ↦
          rw (readable_no_chat id m (tagged id ms ++ rest) e) rw (history_no_chat id m ms h e) refl
      | inr (chat, e) ↦
          elim (Bool-cases (handle_history w.history_limit options m.message_timestamp)) [
            | inl t ↦ elim (Option-cases (m.parse chat)) [
              | inl q ↦
                  rw (readable_no_message id m (tagged id ms ++ rest) chat e t q) rw
                    (history_no_message id m ms h chat e (h_test m h s ∙ t) q) refl
              | inr (evt, q) ↦
                  rw (readable_message id m (tagged id ms ++ rest) chat evt e t q) rw
                    (history_message id m ms h chat evt e (h_test m h s ∙ t) q)
                    (after_message id ms rest h (message w evt (codes "history") h)
                      (message-Kept w evt (codes "history") h) s
                      (in_turn-history_messages id ms rest))
            ]
            | inr t ↦
                rw (readable_old id m (tagged id ms ++ rest) chat e t) rw
                  (history_old id m ms h chat e (h_test m h s ∙ t))
                  (in_turn-history_messages id ms rest h s)
          ]
    ]
