-- ===== src/Events/Dispatcher.antt =====
-- EventsHandler and Register: the events in the order in which whatsmeow gives them.
use quepasa.Prelude.{
  ℕ, true, false, Option, none, some, List, [], ◌∷◌, ltb, if◌then◌else◌, is_some, length,
}
use quepasa.Strings.{codes}
use quepasa.Contacts.Manager.{Device, no_client, with_client}
use quepasa.Events.{
  WhatsmeowHandlers, Event, message_event, call_offer, call_offer_notice, receipt_event, connected,
  push_name_setting, disconnected, pair_error, logged_out, history_sync, app_state_sync_complete,
  joined_group, contact_event, offline_sync_preview, offline_sync_completed, undecryptable_message,
  other_event, Effect, remove_event_handler, reset_reconnect_errors, send_presence, on_connected,
  on_disconnected, World, Outcome, ◌then◌,
}
use quepasa.Events.Settings.{get_presence, handles_history_sync}
use quepasa.Events.Messages.{message, on_history_sync_event}
use quepasa.Events.Receipts.{receipt}
use quepasa.Events.Notices.{
  call_message, on_logged_out_event, joined_group_event, send_connection_dispatching,
  on_offline_sync_preview, on_offline_sync_completed,
}
use quepasa.Events.Reports.{report_unhandled, undecryptable}
use quepasa.Events.Cards.{on_event_contact}

module _ {ℓ} {C : Type ℓ} where
  -- SendPresence of whatsmeow/whatsmeow_extensions.go: only with a push name.
  unfoldable pub presence : World C → WhatsmeowHandlers C → List (Effect C)
  unfolding get_presence
  presence w h = if ltb 0 (length w.push_name) then send_presence (get_presence h) ∷ [] else []

  -- The calls that follow a connection; without a client only those of the WAHandlers.
  unfoldable pub on_connected_event : World C → WhatsmeowHandlers C → Outcome C
  unfolding presence send_connection_dispatching
  on_connected_event w h =
      let h' : WhatsmeowHandlers C = record h {
        offline_sync_started = true;
        offline_sync_completed = false;
      } in
      some (
        h',
        elim h.client [
          | no_client ↦ []
          | with_client client ↦ reset_reconnect_errors ∷ presence w h'
        ],
      )
      then send_connection_dispatching w (codes "connected")
      then (λ left. some (left, if is_some h.wa_handlers then on_connected ∷ [] else []))

  -- What a case does that reads the client through its pointer, and panics without one.
  unfoldable pub with_pointer : Device → WhatsmeowHandlers C → List (Effect C) → Outcome C
  with_pointer no_client h effects = none
  with_pointer (with_client client) h effects = some (h, effects)

  -- The switch of EventsHandler.
  unfoldable pub dispatch : World C → Event C → WhatsmeowHandlers C → Outcome C
  unfolding message call_message receipt on_connected_event presence with_pointer
      on_logged_out_event handles_history_sync on_history_sync_event joined_group_event
      on_event_contact on_offline_sync_preview on_offline_sync_completed undecryptable
      report_unhandled
  dispatch w (message_event evt) h = message w evt (codes "live") h
  dispatch w (call_offer evt) h = call_message w evt h
  dispatch w (call_offer_notice evt) h = call_message w evt h
  dispatch w (receipt_event evt) h = receipt w evt h
  dispatch w connected h = on_connected_event w h
  dispatch w push_name_setting h = with_pointer h.client h (presence w h)
  dispatch w disconnected h =
      with_pointer h.client h (if is_some h.wa_handlers then on_disconnected ∷ [] else [])
  dispatch w (logged_out reason) h = on_logged_out_event w reason h
  dispatch w (history_sync conversations) h =
      if handles_history_sync h then on_history_sync_event w conversations h else some (h, [])
  dispatch w (app_state_sync_complete critical_block) h =
      if critical_block then with_pointer h.client h (presence w h) else some (h, [])
  dispatch w (joined_group evt) h = joined_group_event w evt h
  dispatch w (contact_event evt) h = on_event_contact w evt h
  dispatch w pair_error h = some (h, [])
  dispatch w (offline_sync_preview counts) h = on_offline_sync_preview w counts h
  dispatch w (offline_sync_completed counts) h = on_offline_sync_completed w counts h
  dispatch w (undecryptable_message evt) h = undecryptable w evt h
  dispatch w (other_event evt) h = report_unhandled w evt h

  -- The call that takes the handler off its client.
  unfoldable pub removal : WhatsmeowHandlers C → List (Effect C)
  removal h = elim h.client [
    | no_client ↦ []
    | with_client client ↦ remove_event_handler h.event_handler_id ∷ []
  ]

  -- EventsHandler: once UnRegister was called, an event only takes the handler off the client.
  unfoldable pub events_handler : World C → Event C → WhatsmeowHandlers C → Outcome C
  unfolding dispatch removal
  events_handler w evt h = if h.unregister_requested then some (h, removal h) else dispatch w evt h

  -- Register: `none` is its error without a store, and its panic without a client; `id` is the answer
  -- of AddEventHandler.
  unfoldable pub register : ℕ → WhatsmeowHandlers C → Option (WhatsmeowHandlers C)
  register id h = elim h.client [
    | no_client ↦ none
    | with_client client ↦
        if client.has_store
        then some (record h { unregister_requested = false; event_handler_id = id })
        else none
  ]

  -- Events in a row.
  unfoldable pub handle_all : World C → List (Event C) → WhatsmeowHandlers C → Outcome C
  unfolding events_handler
  handle_all w [] h = some (h, [])
  handle_all w (evt ∷ evts) h = events_handler w evt h then handle_all w evts
