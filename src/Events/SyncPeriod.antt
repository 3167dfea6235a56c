-- ===== src/Events/SyncPeriod.antt =====
-- When a message counts as one of the history.
use quepasa.Prelude.{
  ◌≡◌, refl, sym, ap, ◌∙◌, Bool, true, false, ◌&&◌, ◌||◌, not, none, some, List, [], ◌∷◌, ◌++◌,
  arith, if◌then◌else◌, is_some, All, ◌>>=◌,
}
use quepasa.Strings.{Text, codes, same, before}
use quepasa.Events.{
  WhatsmeowHandlers, Event, message_event, call_offer, call_offer_notice, receipt_event, connected,
  push_name_setting, disconnected, pair_error, logged_out, history_sync, app_state_sync_complete,
  joined_group, contact_event, offline_sync_preview, offline_sync_completed, undecryptable_message,
  other_event, Effect, reset_reconnect_errors, on_connected, World, Outcome, ◌then◌,
}
use quepasa.Contacts.Manager.{Device, no_client, with_client}
use quepasa.Events.Unregistered.{if_false}
use mathlib.Core.Path.{subst}
use quepasa.Events.Messages.{is_history_message}
use quepasa.Events.Dispatcher.{
  dispatch, events_handler, handle_all, on_connected_event, presence, with_pointer,
}
use quepasa.Events.Notices.{
  on_offline_sync_preview, on_offline_sync_completed, send_connection_dispatching,
}
use quepasa.Events.Frame.{Frame, Frame-refl, Kept, if-Kept}
use quepasa.Events.Keeping.{
  nothing-Kept, message-Kept, receipt-Kept, call_message-Kept, joined_group-Kept,
  send_sync_dispatching-Kept, send_connection_dispatching-Kept,
}
use quepasa.Events.Reporting.{report_unhandled-Kept, undecryptable-Kept, on_event_contact-Kept}
use quepasa.Events.History.{on_history_sync_event-Kept}

-- What an event does to the period: a connection and a preview open it, and a completed offline sync
-- closes it.
period_step {ℓ} : {C : Type ℓ} → Bool → Event C → Bool
period_step before connected = true
period_step before (offline_sync_preview counts) = true
period_step before (offline_sync_completed counts) = false
period_step before _ = before

-- The period after a log of events.
unfoldable pub period {ℓ} : {C : Type ℓ} → Bool → List (Event C) → Bool
unfolding period_step
period before [] = before
period before (evt ∷ evts) = period (period_step before evt) evts

abbrev pub is_logged_out {ℓ} : {C : Type ℓ} → Event C → Bool
is_logged_out (logged_out reason) = true
is_logged_out _ = false

module _ {ℓ} {C : Type ℓ} where
  abbrev pub in_period : WhatsmeowHandlers C → Bool
  in_period h = h.offline_sync_started && not h.offline_sync_completed

  -- An outcome, unless it is a panic, is of a registered handler whose period is given.
  Follows : Bool → Outcome C → Type 0
  Follows b none = Unit
  Follows b (some r) = ((r.0).unregister_requested ≡ false) × (in_period (r.0) ≡ b)

  Kept-Follows :
      (h : WhatsmeowHandlers C) (b : Bool) (o : Outcome C)
      → Kept h o
      → h.unregister_requested ≡ false
      → in_period h ≡ b
      → Follows b o
  unfolding Follows Kept Frame
  Kept-Follows h b none k u p = tt
  Kept-Follows h b (some (left, effects)) k u p = (
    k.4 ∙ u,
    ap (λ s. s && not left.offline_sync_completed) k.5
        ∙ ap (λ c. h.offline_sync_started && not c) k.6
        ∙ p,
  )

  prefixed-Follows :
      (c : Bool) (effects : List (Effect C)) (o : Outcome C)
      → Follows c o
      → Follows c (o >>= (λ r. some (r.0, effects ++ r.1)))
  unfolding Follows
  prefixed-Follows c effects none k = tt
  prefixed-Follows c effects (some r) k = k

  then-Follows :
      (b c : Bool) (o : Outcome C) (f : WhatsmeowHandlers C → Outcome C)
      → Follows b o
      → ((left : WhatsmeowHandlers C)
          → left.unregister_requested ≡ false
          → in_period left ≡ b
          → Follows c (f left))
      → Follows c (o then f)
  unfolding Follows
  then-Follows b c none f k n = tt
  then-Follows b c (some (left, effects)) f k n =
      prefixed-Follows c effects (f left) (n left (k.0) (k.1))

  with_pointer-Kept :
      (device : Device) (h : WhatsmeowHandlers C) (effects : List (Effect C))
      → Kept h (with_pointer device h effects)
  unfolding with_pointer Kept
  with_pointer-Kept no_client h effects = tt
  with_pointer-Kept (with_client client) h effects = Frame-refl h

  module _ (w : World C) where
    on_connected-Follows :
        (h : WhatsmeowHandlers C)
        → h.unregister_requested ≡ false
        → Follows true (on_connected_event w h)
    unfolding on_connected_event Follows
    on_connected-Follows h u =
        let h' : WhatsmeowHandlers C = record h {
          offline_sync_started = true;
          offline_sync_completed = false;
        } in
        then-Follows true true
          (some (
            h',
            elim h.client as (λ _. List (Effect C)) [
              | no_client ↦ []
              | with_client client ↦ reset_reconnect_errors ∷ presence w h'
            ],
          )
            then send_connection_dispatching w (codes "connected"))
          (λ left. some (left, if is_some h.wa_handlers then on_connected ∷ [] else []))
          (then-Follows true true (some (h', _)) (send_connection_dispatching w (codes "connected"))
            (u, refl)
            (λ left v p.
              Kept-Follows left true _ (send_connection_dispatching-Kept w (codes "connected") left)
                v p))
          (λ left v p. (v, p))

    dispatch-Follows :
        (evt : Event C) (h : WhatsmeowHandlers C)
        → is_logged_out evt ≡ false
        → h.unregister_requested ≡ false
        → Follows (period_step (in_period h) evt) (dispatch w evt h)
    unfolding dispatch period_step on_offline_sync_preview on_offline_sync_completed
    dispatch-Follows (message_event evt) h n u =
        Kept-Follows h _ _ (message-Kept w evt (codes "live") h) u refl
    dispatch-Follows (call_offer evt) h n u = Kept-Follows h _ _ (call_message-Kept w evt h) u refl
    dispatch-Follows (call_offer_notice evt) h n u =
        Kept-Follows h _ _ (call_message-Kept w evt h) u refl
    dispatch-Follows (receipt_event evt) h n u = Kept-Follows h _ _ (receipt-Kept w evt h) u refl
    dispatch-Follows connected h n u = on_connected-Follows h u
    dispatch-Follows push_name_setting h n u =
        Kept-Follows h _ _ (with_pointer-Kept h.client h (presence w h)) u refl
    dispatch-Follows disconnected h n u = Kept-Follows h _ _ (with_pointer-Kept h.client h _) u refl
    dispatch-Follows (logged_out reason) h n u = absurd (ground (arith, n))
    dispatch-Follows (history_sync conversations) h n u =
        Kept-Follows h _ _
          (if-Kept h _ _ _ (on_history_sync_event-Kept w conversations h) (nothing-Kept w h [])) u
          refl
    dispatch-Follows (app_state_sync_complete critical) h n u =
        Kept-Follows h _ _
          (if-Kept h critical _ _ (with_pointer-Kept h.client h (presence w h))
            (nothing-Kept w h []))
          u refl
    dispatch-Follows (joined_group evt) h n u =
        Kept-Follows h _ _ (joined_group-Kept w evt h) u refl
    dispatch-Follows (contact_event evt) h n u =
        Kept-Follows h _ _ (on_event_contact-Kept w evt h) u refl
    dispatch-Follows pair_error h n u = Kept-Follows h _ _ (nothing-Kept w h _) u refl
    dispatch-Follows (offline_sync_preview counts) h n u =
        let h' : WhatsmeowHandlers C = record h {
          offline_sync_started = true;
          offline_sync_completed = false;
        } in
        Kept-Follows h' true _ (send_sync_dispatching-Kept w (codes "sync_preview") counts h') u
          refl
    dispatch-Follows (offline_sync_completed counts) h n u =
        let h' : WhatsmeowHandlers C = record h {
          offline_sync_started = false;
          offline_sync_completed = true;
        } in
        Kept-Follows h' false _ (send_sync_dispatching-Kept w (codes "sync_completed") counts h') u
          refl
    dispatch-Follows (undecryptable_message evt) h n u =
        Kept-Follows h _ _ (undecryptable-Kept w evt h) u refl
    dispatch-Follows (other_event evt) h n u =
        Kept-Follows h _ _ (report_unhandled-Kept w evt h) u refl

    handle_all-Follows :
        (evts : List (Event C)) (h : WhatsmeowHandlers C)
        → All (λ evt. is_logged_out evt ≡ false) evts
        → h.unregister_requested ≡ false
        → Follows (period (in_period h) evts) (handle_all w evts h)
    unfolding handle_all events_handler period Follows
    handle_all-Follows [] h n u = (u, refl)
    handle_all-Follows (evt ∷ evts) h n u =
        then-Follows (period_step (in_period h) evt) (period (in_period h) (evt ∷ evts))
          (events_handler w evt h) (handle_all w evts)
          (subst (Follows (period_step (in_period h) evt))
            (sym (if_false h.unregister_requested _ _ u)) (dispatch-Follows evt h (n.0) u))
          (λ left v p.
            subst (λ b. Follows (period b evts) (handle_all w evts left)) p
              (handle_all-Follows evts left (n.1) v))

  -- After any events that a registered handler gets, without a panic and without the end of the
  -- session among them, a message counts as one of the history exactly when it comes from a history sync or when the last of the
  -- connections, previews and completed offline syncs among the events is not a completed one; where
  -- there is none among them, when the period was open before.
  pub is_history_message-period :
      (w : World C) (evts : List (Event C)) (h left : WhatsmeowHandlers C)
      (effects : List (Effect C)) (from : Text)
      → h.unregister_requested ≡ false
      → All (λ evt. is_logged_out evt ≡ false) evts
      → handle_all w evts h ≡ some (left, effects)
      → is_history_message from left ≡ (same from (codes "history") || period (in_period h) evts)
  unfolding is_history_message Follows
  is_history_message-period w evts h left effects from u n q =
      ap (λ b. same from (codes "history") || b)
        (subst (Follows (period (in_period h) evts)) q (handle_all-Follows w evts h n u)).1
