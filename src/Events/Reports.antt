-- ===== src/Events/Reports.antt =====
-- DispatchUnhandledEvent and UndecryptableMessage: the events that are not handled or not decrypted.
use quepasa.Prelude.{ℕ, Bool, none, some, [], ◌++◌, ltb, if◌then◌else◌, length, drop}
use quepasa.Strings.{Text, codes, same, has_prefix, to_lower}
use quepasa.Whatsapp.Message.{WhatsappMessage, unhandled, view_once, system_chat, blank}
use quepasa.Events.{
  WhatsmeowHandlers, UndecryptableEvent, OtherEvent, EventInfo, World, Outcome, ◌then◌,
}
use quepasa.Events.Settings.{get_timestamp, improve_timestamp}
use quepasa.Events.Chats.{populate_chat_and_participant}
use quepasa.Events.Messages.{follow}

-- strings.EqualFold for ASCII
equal_fold : Text → Text → Bool
unfolding same to_lower
equal_fold s t = same (to_lower s) (to_lower t)

-- strings.TrimPrefix
unfoldable pub trim_prefix : Text → Text → Text
unfolding has_prefix
trim_prefix s prefix = if has_prefix s prefix then drop (length prefix) s else s

module _ {ℓ} {C : Type ℓ} where
  unfoldable pub unhandled_message : World C → OtherEvent C → ℕ → WhatsappMessage C
  unfolding trim_prefix
  unhandled_message w evt timestamp = record (blank {C = C}) {
    content = some evt.content;
    id = codes "event_" ++ w.randomizer ++ codes "_" ++ w.message_id;
    timestamp = timestamp;
    type = unhandled;
    chat = system_chat;
    debug =
        some
          (record { event = trim_prefix evt.type_name (codes "*events."); reason = codes "event" });
  }

  unfoldable pub dispatch_with_info :
      World C → EventInfo → WhatsappMessage C → WhatsmeowHandlers C → Outcome C
  unfolding improve_timestamp populate_chat_and_participant follow
  dispatch_with_info w info message h =
      let (populated, h') =
        populate_chat_and_participant w
          (record message {
            id = codes "event_" ++ w.randomizer ++ codes "_" ++ info.id;
            timestamp = improve_timestamp w.now info.timestamp;
            from_me = info.is_from_me;
          })
          info h in
      follow w populated (codes "debug") h'

  unfoldable pub dispatch_unhandled_event : World C → OtherEvent C → WhatsmeowHandlers C → Outcome C
  unfolding get_timestamp unhandled_message dispatch_with_info follow
  dispatch_unhandled_event w evt h =
      let (timestamp, h') = get_timestamp w.now h in
      let message = unhandled_message w evt timestamp in
      elim evt.info [
        | none ↦ follow w message (codes "debug") h'
        | some info ↦ dispatch_with_info w info message h'
      ]

  unfoldable pub report_unhandled : World C → OtherEvent C → WhatsmeowHandlers C → Outcome C
  unfolding dispatch_unhandled_event
  report_unhandled w evt h =
      if h.service.dispatch_unhandled then dispatch_unhandled_event w evt h else some (h, [])

  -- The message of a view-once item.
  unfoldable pub view_once_message : World C → EventInfo → WhatsappMessage C
  unfolding improve_timestamp
  view_once_message w info = record (blank {C = C}) {
    id = info.id;
    timestamp = improve_timestamp w.now info.timestamp;
    type = view_once;
    from_me = info.is_from_me;
  }

  unfoldable pub follow_view_once : World C → EventInfo → WhatsmeowHandlers C → Outcome C
  unfolding view_once_message populate_chat_and_participant follow
  follow_view_once w info h =
      let message = view_once_message w info in
      let (populated, h') = populate_chat_and_participant w message info h in
      if ltb 0 (length info.id)
      then follow w populated (codes "view_once") h'
      else follow w (record message { chat = system_chat }) (codes "view_once") h

  -- UndecryptableMessage; the event itself has no GetInfo.
  unfoldable pub undecryptable : World C → UndecryptableEvent C → WhatsmeowHandlers C → Outcome C
  unfolding equal_fold follow_view_once report_unhandled
  undecryptable w evt h =
      if equal_fold evt.unavailable_type (codes "view_once")
      then follow_view_once w evt.info h
      else report_unhandled w
          (record { content = evt.content; type_name = evt.type_name; info = none }) h
