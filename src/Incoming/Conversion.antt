-- ===== src/Incoming/Conversion.antt =====
-- HandleContactsArrayMessage and HandleKnowingMessages: the first part of the protocol's message, in
-- the order of the switch, decides how the message is read.
use quepasa.Prelude.{
  ℕ, suc, ◌+◌, Bool, Option, none, some, List, [], ◌∷◌, ◌++◌, ltb, ◌==◌, if◌then◌else◌, length,
}
use quepasa.Strings.{Text, codes}
use quepasa.Whatsapp.Message.{WhatsappMessage, contact, blank, generate_vcard_attachment}
use quepasa.Incoming.{E2eMessage, ContactMessage, Library}
use quepasa.Incoming.Texts.{
  handle_text_message, handle_edit_text_message, as_unhandled, handle_protocol_message,
  handle_extended_text_message, handle_reaction_message, handle_buttons_response_message,
  handle_template_message, handle_template_button_reply_message, handle_list_message,
}
use quepasa.Incoming.Attachments.{
  handle_image_message, handle_sticker_message, handle_video_message, handle_document_message,
  handle_audio_message, handle_location_message, handle_live_location_message,
  handle_contact_message,
}

-- The first value of a list of options, or the default: the cases of a switch in their order.
unfoldable pub first_of {ℓ} : {A : Type ℓ} → A → List (Option A) → A
first_of default [] = default
first_of default (some a ∷ cases) = a
first_of default (none ∷ cases) = first_of default cases

-- A case that is taken when the part is there.
abbrev pub case_of {ℓ κ} : {A : Type ℓ} {B : Type κ} → Option A → (A → B) → Option B
case_of none f = none
case_of (some a) f = some (f a)

-- A case that is taken when the test holds.
abbrev pub case_if {ℓ} : {A : Type ℓ} → Bool → A → Option A
case_if test a = if test then some a else none

-- What a handler leaves: the message, and the further messages that it has given to Follow. A
-- handler that panics leaves `none`.
abbrev pub Converted {ℓ} : Type ℓ → Type ℓ
Converted C = Option (WhatsappMessage C × List (WhatsappMessage C))

module _ {ℓ} {C : Type ℓ} where
  abbrev pub alone : WhatsappMessage C → Converted C
  alone out = some (out, [])

  abbrev pub alone_if : Option (WhatsappMessage C) → Converted C
  alone_if none = none
  alone_if (some out) = alone out

  vcard_name : Library C → WhatsappMessage C → ContactMessage → Text
  vcard_name lib out c =
      lib.slug (if length c.display_name == 0 then out.id else c.display_name) ++ codes ".vcf"

  -- The message of the contact at an index that is not 0.
  unfoldable pub extra_contact :
      Library C → WhatsappMessage C → ℕ → ContactMessage → WhatsappMessage C
  unfolding generate_vcard_attachment vcard_name
  extra_contact lib out idx c = record (blank {C = C}) {
    content = some (lib.contact_content c);
    id = out.id ++ (b'-' ∷ lib.decimal (idx + 1));
    timestamp = out.timestamp;
    from_me = out.from_me;
    type = contact;
    text = c.display_name;
    attachment = some (generate_vcard_attachment c.vcard (vcard_name lib out c));
    chat = out.chat;
  }

  unfoldable pub extra_contacts :
      Library C → WhatsappMessage C → ℕ → List ContactMessage → List (WhatsappMessage C)
  unfolding extra_contact
  extra_contacts lib out idx [] = []
  extra_contacts lib out idx (c ∷ cs) =
      extra_contact lib out idx c ∷ extra_contacts lib out (suc idx) cs

  unfoldable pub handle_contacts_array_message :
      Library C
      → WhatsappMessage C
      → List ContactMessage
      → WhatsappMessage C × List (WhatsappMessage C)
  unfolding extra_contacts generate_vcard_attachment vcard_name
  handle_contacts_array_message lib out [] = (record out { type = contact }, [])
  handle_contacts_array_message lib out (c ∷ cs) = (
    record out {
      type = contact;
      text = c.display_name;
      attachment = some (generate_vcard_attachment c.vcard (vcard_name lib out c));
    },
    extra_contacts lib out 1 cs,
  )

  -- The cases of the switch, in their order.
  unfoldable pub conversions :
      Library C → WhatsappMessage C → E2eMessage → List (Option (Converted C))
  unfolding handle_image_message handle_sticker_message handle_document_message handle_audio_message
      handle_video_message handle_extended_text_message handle_buttons_response_message
      handle_location_message handle_live_location_message handle_contact_message
      handle_reaction_message handle_edit_text_message handle_protocol_message
      handle_template_message handle_template_button_reply_message handle_contacts_array_message
      handle_list_message as_unhandled handle_text_message
  conversions lib out m =
      case_of m.image_message (λ i. alone (handle_image_message out i))
      ∷ case_of m.sticker_message (λ i. alone (handle_sticker_message out i))
      ∷ case_of m.document_message (λ i. alone (handle_document_message out i))
      ∷ case_of m.audio_message (λ i. alone (handle_audio_message out i))
      ∷ case_of m.video_message (λ i. alone (handle_video_message out i))
      ∷ case_of m.extended_text_message (λ i. alone (handle_extended_text_message out i))
      ∷ case_if m.ephemeral_message (alone out)
      ∷ case_of m.buttons_response_message (λ i. alone (handle_buttons_response_message out i))
      ∷ case_of m.location_message (λ i. alone_if (handle_location_message lib.slug out i))
      ∷ case_of m.live_location_message
          (λ i. alone_if (handle_live_location_message lib.slug out i))
      ∷ case_of m.contact_message (λ i. alone (handle_contact_message lib.slug out i))
      ∷ case_of m.reaction_message (λ i. alone (handle_reaction_message out i))
      ∷ case_of m.edited_text (λ i. alone (handle_edit_text_message out i))
      ∷ case_of m.protocol_message (λ i. alone (handle_protocol_message out i))
      ∷ case_of m.template_message (λ i. alone (handle_template_message out i))
      ∷ case_of m.template_button_reply_message
          (λ i. alone (handle_template_button_reply_message lib.decimal out i))
      ∷ case_of m.contacts_array_message (λ i. some (handle_contacts_array_message lib out i))
      ∷ case_of m.list_message (λ i. alone (handle_list_message out i))
      ∷ case_if m.sender_key_distribution_message
          (alone (as_unhandled (codes "SenderKeyDistributionMessage") (codes "discard") out))
      ∷ case_if m.sticker_sync_rmr_message
          (alone (as_unhandled (codes "StickerSyncRmrMessage") (codes "discard") out))
      ∷ case_if (ltb 0 (length m.conversation)) (alone (handle_text_message out m.conversation))
      ∷ []

  unfoldable pub handle_knowing_messages : Library C → WhatsappMessage C → E2eMessage → Converted C
  unfolding first_of conversions as_unhandled
  handle_knowing_messages lib out m =
      first_of (alone (as_unhandled m.event_type (codes "unknown") out)) (conversions lib out m)
