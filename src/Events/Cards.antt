-- ===== src/Events/Cards.antt =====
-- whatsmeow/whatsmeow_handlers_events_contact.go: a contact that was changed becomes a message with a
-- card.
use quepasa.Prelude.{true, Option, none, some, [], ◌∷◌, ◌++◌, ltb, if◌then◌else◌, length}
use quepasa.Strings.{Text, codes}
use quepasa.Whatsapp.Message.{contact, WhatsappAttachment, generate_vcard_attachment, blank}
use quepasa.Whatsapp.Endpoint.{get_phone_if_valid}
use quepasa.Contacts.Manager.{no_client, with_client}
use quepasa.Events.{WhatsmeowHandlers, ContactEvent, World, Outcome, ◌then◌}
use quepasa.Events.Chats.{chat_of}
use quepasa.Events.Messages.{follow}

-- The phone of GetPhone of a chat.
abbrev or_empty : Option Text → Text
or_empty none = []
or_empty (some t) = t

-- fmt.Fprintln
line : Text → Text
line t = t ++ (10 ∷ [])

vcard_text : Text → Text → Text
unfolding line
vcard_text title phone =
    line (codes "BEGIN:VCARD")
    ++ line (codes "VERSION:4.0")
    ++ line (codes "FN:" ++ title)
    ++ (if ltb 0 (length phone) then line (codes "TEL;TYPE=main-number:" ++ phone) else [])
    ++ line (codes "END:VCARD")

-- The first of three texts that is not empty, of which the last is not.
first_text : Text → Text → Text → Text
first_text a b c = if ltb 0 (length a) then a else if ltb 0 (length b) then b else c

module _ {ℓ} {C : Type ℓ} where
  contact_attachment : World C → Text → Text → Text → WhatsappAttachment
  unfolding vcard_text first_text generate_vcard_attachment
  contact_attachment w title id phone =
      let filename = w.library.slug (first_text title id (codes "unknown")) ++ codes ".vcf" in
      let content = vcard_text title phone in
      record (generate_vcard_attachment content filename) { checksum = w.checksum content }

  unfoldable pub follow_contact :
      World C → ContactEvent C → Text × Text → WhatsmeowHandlers C → Outcome C
  unfolding chat_of get_phone_if_valid contact_attachment follow
  follow_contact w evt (title, lid) h =
      let (found, h') = chat_of w evt.jid h in
      let id : Text = elim h.client [ no_client ↦ [] | with_client client ↦ w.message_id ] in
      let chat_id = w.jid_string evt.jid in
      let phone =
        if ltb 0 (length found.phone) then found.phone else or_empty (get_phone_if_valid chat_id) in
      follow w
        (record (blank {C = C}) {
          content = some evt.content;
          from_history = evt.from_full_sync;
          id = id;
          timestamp = evt.timestamp;
          type = contact;
          chat = record { id = chat_id; lid = lid; phone = found.phone; title = title };
          text = title;
          edited = true;
          attachment = some (contact_attachment w title id phone);
        })
        (codes "vcard") h'

  -- OnEventContact: an event without an action is dropped.
  unfoldable pub on_event_contact : World C → ContactEvent C → WhatsmeowHandlers C → Outcome C
  unfolding follow_contact
  on_event_contact w evt h = elim evt.action [
    | none ↦ some (h, [])
    | some action ↦ follow_contact w evt action h
  ]
