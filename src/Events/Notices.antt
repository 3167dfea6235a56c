-- ===== src/Events/Notices.antt =====
-- The messages that the handler makes itself: calls, the end of a session, groups that were joined, the
-- steps of the connection and of the offline sync; and UnRegister.
use quepasa.Prelude.{
  ℕ, true, false, some, List, [], ◌∷◌, ◌++◌, ◌==◌, if◌then◌else◌, is_some, length, ◌>>=◌,
}
use quepasa.Strings.{Text, codes}
use quepasa.Whatsapp.Message.{WhatsappMessage, call, system, group, info_fields, system_chat, blank}
use quepasa.Contacts.Manager.{no_client, with_client}
use quepasa.Events.{
  WhatsmeowHandlers, CallMeta, JoinedGroupEvent, Effect, remove_event_handler, reject_call,
  on_logged_out, World, Outcome, ◌then◌,
}
use quepasa.Events.Settings.{handles_calls, get_timestamp}
use quepasa.Events.Chats.{chat_of}
use quepasa.Events.Messages.{handed, follow}

module _ {ℓ} {C : Type ℓ} where
  unfoldable pub call_message : World C → CallMeta C → WhatsmeowHandlers C → Outcome C
  unfolding chat_of handed handles_calls
  call_message w evt h =
      let (chat, h') = chat_of w evt.from h in
      let message : WhatsappMessage C = record (blank {C = C}) {
        content = some evt.content;
        id = evt.call_id;
        timestamp = evt.timestamp;
        chat = chat;
        type = call;
      } in
      handles_calls h >>= (λ handles. some (
        h',
        handed h message (codes "call")
            ++ (if handles then [] else reject_call evt.from evt.call_id ∷ []),
      ))

  -- UnRegister; without a client only the token is set.
  unfoldable pub unregister : WhatsmeowHandlers C → WhatsmeowHandlers C × List (Effect C)
  unregister h = (
    record h { unregister_requested = true },
    elim h.client [
      | no_client ↦ []
      | with_client client ↦ remove_event_handler h.event_handler_id ∷ []
    ],
  )

  unfoldable pub on_logged_out_event : World C → Text → WhatsmeowHandlers C → Outcome C
  unfolding get_timestamp follow unregister
  on_logged_out_event w reason h =
      let (timestamp, h') = get_timestamp w.now h in
      let message : WhatsappMessage C = record (blank {C = C}) {
        timestamp = timestamp;
        type = system;
        id = w.message_id;
        chat = system_chat;
        text = reason;
      } in
      some (h', if is_some h.wa_handlers then on_logged_out reason ∷ [] else [])
      then follow w message (codes "logout")
      then (λ left. some (unregister left))

  -- `fields` is the GroupJoinInfo of the event.
  unfoldable pub joined_group_event : World C → JoinedGroupEvent C → WhatsmeowHandlers C → Outcome C
  unfolding get_timestamp follow
  joined_group_event w evt h =
      let (timestamp, h') = get_timestamp w.now h in
      follow w
        (record (blank {C = C}) {
          content = some evt.content;
          id = if length evt.create_key == 0 then w.message_id else evt.create_key;
          timestamp = timestamp;
          type = group;
          chat = record { id = w.jid_string evt.jid; lid = []; phone = []; title = evt.name };
          text = codes "joined group";
          info = info_fields evt.fields;
        })
        (codes "group") h'

  -- The system message of sendConnectionDispatching and sendSyncDispatching.
  state_message : World C → List (Text × Text) → ℕ → WhatsappMessage C
  state_message w fields timestamp = record (blank {C = C}) {
    id = w.message_id;
    timestamp = timestamp;
    type = system;
    chat = system_chat;
    text = w.to_json fields;
    info = info_fields fields;
  }

  state_fields : World C → Text → Text → List (Text × Text)
  state_fields w event description =
      (codes "event", event)
      ∷ (codes "phone", w.store_phone)
      ∷ (codes "timestamp", w.now_text)
      ∷ (codes "description", description)
      ∷ []

  unfoldable pub dispatch_state :
      World C → List (Text × Text) → Text → WhatsmeowHandlers C → Outcome C
  unfolding get_timestamp handed state_message
  dispatch_state w fields from h =
      let (timestamp, h') = get_timestamp w.now h in
      if is_some h.wa_handlers
      then some (h', handed h (state_message w fields timestamp) from)
      else some (h, [])

  unfoldable pub send_connection_dispatching : World C → Text → WhatsmeowHandlers C → Outcome C
  unfolding dispatch_state state_fields
  send_connection_dispatching w event =
      dispatch_state w
        (state_fields w event (codes "WhatsApp connection state changed to: " ++ event))
        (codes "connection")

  -- The data of the event has keys of its own.
  unfoldable pub send_sync_dispatching :
      World C → Text → List (Text × Text) → WhatsmeowHandlers C → Outcome C
  unfolding dispatch_state state_fields
  send_sync_dispatching w event data_fields =
      dispatch_state w
        (state_fields w event (codes "History synchronization event: " ++ event) ++ data_fields)
        (codes "sync")

  unfoldable pub on_offline_sync_preview :
      World C → List (Text × Text) → WhatsmeowHandlers C → Outcome C
  unfolding send_sync_dispatching
  on_offline_sync_preview w counts h =
      send_sync_dispatching w (codes "sync_preview") counts
        (record h { offline_sync_started = true; offline_sync_completed = false })

  unfoldable pub on_offline_sync_completed :
      World C → List (Text × Text) → WhatsmeowHandlers C → Outcome C
  unfolding send_sync_dispatching
  on_offline_sync_completed w counts h =
      send_sync_dispatching w (codes "sync_completed") counts
        (record h { offline_sync_started = false; offline_sync_completed = true })
