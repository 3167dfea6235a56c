-- ===== src/Events/Reporting.antt =====
-- The reports of events that are not handled, and the messages of contacts, keep the options, the
-- registration and the flags.
use quepasa.Prelude.{none, some, [], ◌++◌, ltb, length}
use quepasa.Strings.{Text, codes}
use quepasa.Whatsapp.Message.{WhatsappMessage}
use quepasa.Events.{
  WhatsmeowHandlers, EventInfo, OtherEvent, UndecryptableEvent, ContactEvent, World, Outcome,
}
use quepasa.Events.Settings.{get_timestamp, improve_timestamp}
use quepasa.Events.Chats.{chat_of, populate_chat_and_participant}
use quepasa.Events.Messages.{follow}
use quepasa.Events.Reports.{
  dispatch_unhandled_event, unhandled_message, dispatch_with_info, report_unhandled, undecryptable,
  view_once_message, follow_view_once,
}
use quepasa.Events.Cards.{follow_contact, on_event_contact}
use quepasa.Events.Frame.{Kept, Kept-trans, if-Kept, chat_of-Frame, populate-Frame}
use quepasa.Events.Keeping.{nothing-Kept, follow-Kept, get_timestamp-Frame}

module _ {ℓ} {C : Type ℓ} (w : World C) where
  dispatch_with_info-Kept :
      (info : EventInfo) (m : WhatsappMessage C) (h : WhatsmeowHandlers C)
      → Kept h (dispatch_with_info w info m h)
  unfolding dispatch_with_info
  dispatch_with_info-Kept info m h =
      let start : WhatsappMessage C = record m {
        id = codes "event_" ++ w.randomizer ++ codes "_" ++ info.id;
        timestamp = improve_timestamp w.now info.timestamp;
        from_me = info.is_from_me;
      } in
      let populated = populate_chat_and_participant w start info h in
      Kept-trans h (populated.1) _ (populate-Frame w start info h)
        (follow-Kept w (populated.0) (codes "debug") (populated.1))

  dispatch_unhandled_event-Kept :
      (evt : OtherEvent C) (h : WhatsmeowHandlers C) → Kept h (dispatch_unhandled_event w evt h)
  unfolding dispatch_unhandled_event
  dispatch_unhandled_event-Kept evt h =
      let stamped = get_timestamp w.now h in
      let m = unhandled_message w evt (stamped.0) in
      Kept-trans h (stamped.1) _ (get_timestamp-Frame w h)
        (elim evt.info
          as (λ o. Kept (stamped.1) (elim o as (λ _. Outcome C) [
            | none ↦ follow w m (codes "debug") (stamped.1)
            | some info ↦ dispatch_with_info w info m (stamped.1)
          ])) [
            | none ↦ follow-Kept w m (codes "debug") (stamped.1)
            | some info ↦ dispatch_with_info-Kept info m (stamped.1)
          ])

  pub report_unhandled-Kept :
      (evt : OtherEvent C) (h : WhatsmeowHandlers C) → Kept h (report_unhandled w evt h)
  unfolding report_unhandled
  report_unhandled-Kept evt h =
      if-Kept h _ _ _ (dispatch_unhandled_event-Kept evt h) (nothing-Kept w h [])

  follow_view_once-Kept :
      (info : EventInfo) (h : WhatsmeowHandlers C) → Kept h (follow_view_once w info h)
  unfolding follow_view_once
  follow_view_once-Kept info h =
      let start = view_once_message w info in
      let populated = populate_chat_and_participant w start info h in
      if-Kept h (ltb 0 (length info.id)) _ _
        (Kept-trans h (populated.1) _ (populate-Frame w start info h)
          (follow-Kept w (populated.0) (codes "view_once") (populated.1)))
        (follow-Kept w _ (codes "view_once") h)

  pub undecryptable-Kept :
      (evt : UndecryptableEvent C) (h : WhatsmeowHandlers C) → Kept h (undecryptable w evt h)
  unfolding undecryptable
  undecryptable-Kept evt h = if-Kept h _ _ _ (follow_view_once-Kept evt.info h) (
      report_unhandled-Kept
        (record { content = evt.content; type_name = evt.type_name; info = none }) h)

  follow_contact-Kept :
      (evt : ContactEvent C) (action : Text × Text) (h : WhatsmeowHandlers C)
      → Kept h (follow_contact w evt action h)
  unfolding follow_contact
  follow_contact-Kept evt (title, lid) h =
      Kept-trans h (chat_of w evt.jid h).1 _ (chat_of-Frame w evt.jid h)
        (follow-Kept w _ (codes "vcard") (chat_of w evt.jid h).1)

  pub on_event_contact-Kept :
      (evt : ContactEvent C) (h : WhatsmeowHandlers C) → Kept h (on_event_contact w evt h)
  unfolding on_event_contact
  on_event_contact-Kept evt h =
      elim evt.action
        as (λ o. Kept h (elim o as (λ _. Outcome C) [
          | none ↦ some (h, [])
          | some action ↦ follow_contact w evt action h
        ])) [ none ↦ nothing-Kept w h [] | some action ↦ follow_contact-Kept evt action h ]
