-- ===== src/Incoming/Frame.antt =====
-- What the conversion of a message leaves as it was.
use quepasa.Prelude.{
  ℕ, suc, ◌≡◌, refl, ◌⊎◌, inl, inr, Bool, true, false, Option, none, some, List, [], ◌∷◌, ltb,
  Option-cases, length, All,
}
use quepasa.Strings.{Text, codes}
use quepasa.Whatsapp.Message.{WhatsappMessage}
use quepasa.Incoming.{
  E2eMessage, LocationMessage, ContactMessage, ContextInfo, ProtocolMessage, ProtocolMessageType,
  TemplateMessage, Library, message_edit, history_sync_notification, other_protocol,
}
use quepasa.Incoming.Texts.{
  with_context, with_ads, handle_text_message, handle_edit_text_message, as_unhandled,
  handle_protocol_message, handle_extended_text_message, handle_reaction_message,
  handle_buttons_response_message, handle_template_message, handle_template_button_reply_message,
  handle_list_message,
}
use quepasa.Incoming.Attachments.{
  handle_image_message, handle_sticker_message, handle_video_message, handle_document_message,
  handle_audio_message, handle_location_message, handle_live_location_message,
  handle_contact_message,
}
use quepasa.Incoming.Conversion.{
  first_of, case_of, case_if, Converted, alone, alone_if, extra_contacts,
  handle_contacts_array_message, conversions, handle_knowing_messages,
}

-- A property of the value of a case that is taken.
abbrev pub Taken {ℓ κ} : {A : Type ℓ} → (A → Type κ) → Option A → Type κ
Taken P none = Unit
Taken P (some a) = P a

-- Pairs in a row.
infixr 4 ◌also◌
pub ◌also◌ {ℓ κ} : {A : Type ℓ} {B : Type κ} → A → B → A × B
h also k = (h, k)

module _ {ℓ κ} {A : Type ℓ} (P : A → Type κ) where
  pub first_of-Taken :
      (default : A) (cases : List (Option A))
      → P default
      → All (Taken P) cases
      → P (first_of default cases)
  unfolding first_of
  first_of-Taken default [] d h = d
  first_of-Taken default (none ∷ cases) d h = first_of-Taken default cases d h.1
  first_of-Taken default (some a ∷ cases) d h = h.0

  pub case_of-Taken :
      {B : Type 0} (o : Option B) (f : B → A)
      → ((b : B) → o ≡ some b → P (f b))
      → Taken P (case_of o f)
  case_of-Taken none f h = tt
  case_of-Taken (some b) f h = h b refl

  pub case_if-Taken : (test : Bool) (a : A) → P a → Taken P (case_if test a)
  case_if-Taken true a h = h
  case_if-Taken false a h = tt

module _ {ℓ} {C : Type ℓ} where
  -- The same chat, sender, time and origin.
  unfoldable pub Keeps : WhatsappMessage C → WhatsappMessage C → Type ℓ
  Keeps a b =
      (b.chat ≡ a.chat)
      × (b.participant ≡ a.participant)
      × (b.timestamp ≡ a.timestamp)
      × (b.from_me ≡ a.from_me)
      × (b.from_history ≡ a.from_history)
      × (b.content ≡ a.content)

  -- The same, and the same id.
  unfoldable pub KeepsId : WhatsappMessage C → WhatsappMessage C → Type ℓ
  unfolding Keeps
  KeepsId a b = Keeps a b × (b.id ≡ a.id)

  KeepsId-refl : (a : WhatsappMessage C) → KeepsId a a
  unfolding KeepsId
  KeepsId-refl a = ((refl, refl, refl, refl, refl, refl), refl)

  with_context-KeepsId :
      (i : Option ContextInfo) (a b : WhatsappMessage C)
      → KeepsId a b
      → KeepsId a (with_context i b)
  unfolding with_context KeepsId
  with_context-KeepsId none a b h = h
  with_context-KeepsId (some i) a b h = h

  with_ads-KeepsId :
      (i : Option ContextInfo) (a b : WhatsappMessage C) → KeepsId a b → KeepsId a (with_ads i b)
  unfolding with_ads KeepsId
  with_ads-KeepsId none a b h = h
  with_ads-KeepsId (some i) a b h = elim (Option-cases i.external_ad_reply) [
    | inl e ↦ rw (e, with_ads) h
    | inr (reply, e) ↦ rw (e, with_ads) h
  ]

  handle_template_message-KeepsId :
      (a : WhatsappMessage C) (t : TemplateMessage) → KeepsId a (handle_template_message a t)
  unfolding handle_template_message KeepsId
  handle_template_message-KeepsId a t = elim (Option-cases t.hydrated_content_text) [
    | inl e ↦ rw (e, handle_template_message) (KeepsId-refl a)
    | inr (content, e) ↦
        rw (e, handle_template_message) (with_context-KeepsId t.context_info a a (KeepsId-refl a))
  ]

  -- Of the message that is made of a further contact.
  unfoldable pub SameChat : WhatsappMessage C → WhatsappMessage C → Type 0
  SameChat a b = (b.chat ≡ a.chat) × (b.timestamp ≡ a.timestamp) × (b.from_me ≡ a.from_me)

  extra_contacts-SameChat :
      (lib : Library C) (a : WhatsappMessage C) (idx : ℕ) (cs : List ContactMessage)
      → All (SameChat a) (extra_contacts lib a idx cs)
  unfolding extra_contacts SameChat
  extra_contacts-SameChat lib a idx [] = tt
  extra_contacts-SameChat lib a idx (c ∷ cs) =
      ((refl, refl, refl), extra_contacts-SameChat lib a (suc idx) cs)

  -- The id is the same, or that of the message which a protocol message names.
  unfoldable pub IdFrom : E2eMessage → WhatsappMessage C → WhatsappMessage C → Type 0
  IdFrom m a b =
      (b.id ≡ a.id) ⊎ ((p : ProtocolMessage) × ((m.protocol_message ≡ some p) × (b.id ≡ p.key_id)))

  -- What holds of a conversion.
  unfoldable pub Preserves : E2eMessage → WhatsappMessage C → Converted C → Type ℓ
  unfolding Keeps IdFrom SameChat
  Preserves m a none = Unit
  Preserves m a (some (b, more)) = Keeps a b × IdFrom m a b × All (SameChat a) more

  alone-Preserves :
      (m : E2eMessage) (a b : WhatsappMessage C) → KeepsId a b → Preserves m a (alone b)
  unfolding Preserves KeepsId
  alone-Preserves m a b h = (h.0, inl h.1, tt)

  location-Preserves :
      (m : E2eMessage) (slug : Text → Text) (a : WhatsappMessage C) (l : LocationMessage)
      → Preserves m a (alone_if (handle_location_message slug a l))
  unfolding Preserves handle_location_message
  location-Preserves m slug a l = elim (Option-cases l.degrees_latitude) [
    | inl e ↦ rw (e, handle_location_message) tt
    | inr (lat, e) ↦ elim (Option-cases l.degrees_longitude) [
      | inl q ↦ rw (e, q, handle_location_message) tt
      | inr (lon, q) ↦ rw (e, q, handle_location_message) (alone-Preserves m a a (KeepsId-refl a))
    ]
  ]

  live_location-Preserves :
      (m : E2eMessage) (slug : Text → Text) (a : WhatsappMessage C) (l : LocationMessage)
      → Preserves m a (alone_if (handle_live_location_message slug a l))
  unfolding Preserves handle_live_location_message
  live_location-Preserves m slug a l = elim (Option-cases l.degrees_latitude) [
    | inl e ↦ rw (e, handle_live_location_message) tt
    | inr (lat, e) ↦ elim (Option-cases l.degrees_longitude) [
      | inl q ↦ rw (e, q, handle_live_location_message) tt
      | inr (lon, q) ↦
          rw (e, q, handle_live_location_message) (alone-Preserves m a a (KeepsId-refl a))
    ]
  ]

  protocol_of_type-Preserves :
      (m : E2eMessage) (a : WhatsappMessage C) (p : ProtocolMessage) (t : ProtocolMessageType)
      → m.protocol_message ≡ some p
      → p.type ≡ t
      → Preserves m a (alone (handle_protocol_message a p))
  unfolding Preserves handle_protocol_message
  protocol_of_type-Preserves m a p message_edit h e =
      rw (e, handle_protocol_message) ((refl, refl, refl, refl, refl, refl), inr (p, (h, refl)), tt)
  protocol_of_type-Preserves m a p ProtocolMessageType.revoke h e =
      rw (e, handle_protocol_message) ((refl, refl, refl, refl, refl, refl), inr (p, (h, refl)), tt)
  protocol_of_type-Preserves m a p history_sync_notification h e =
      rw (e, handle_protocol_message) ((refl, refl, refl, refl, refl, refl), inl refl, tt)
  protocol_of_type-Preserves m a p other_protocol h e =
      rw (e, handle_protocol_message) ((refl, refl, refl, refl, refl, refl), inl refl, tt)

  contacts_array-Preserves :
      (m : E2eMessage) (lib : Library C) (a : WhatsappMessage C) (cs : List ContactMessage)
      → Preserves m a (some (handle_contacts_array_message lib a cs))
  unfolding Preserves handle_contacts_array_message
  contacts_array-Preserves m lib a [] = alone-Preserves m a a (KeepsId-refl a)
  contacts_array-Preserves m lib a (c ∷ cs) =
      ((refl, refl, refl, refl, refl, refl), inl refl, extra_contacts-SameChat lib a 1 cs)

  conversions-Preserves :
      (lib : Library C) (a : WhatsappMessage C) (m : E2eMessage)
      → All (Taken (Preserves m a)) (conversions lib a m)
  unfolding conversions KeepsId handle_image_message handle_sticker_message handle_document_message
      handle_audio_message handle_video_message handle_extended_text_message
      handle_buttons_response_message handle_contact_message handle_reaction_message
      handle_edit_text_message handle_template_button_reply_message handle_list_message as_unhandled
      handle_text_message
  conversions-Preserves lib a m =
      let P : Converted C → Type ℓ = Preserves m a in
      let kept : (b : WhatsappMessage C) → KeepsId a b → P (alone b) = alone-Preserves m a in
      let i : KeepsId a a = KeepsId-refl a in
      case_of-Taken P m.image_message _ (λ x h. kept (handle_image_message a x) (
        with_context-KeepsId x.context_info a
          (handle_image_message a (record x { context_info = none })) i))
      also case_of-Taken P m.sticker_message _ (λ x h. kept (handle_sticker_message a x) i)
      also case_of-Taken P m.document_message _ (λ x h. kept (handle_document_message a x) (
          with_context-KeepsId x.context_info a
            (handle_document_message a (record x { context_info = none })) i))
      also case_of-Taken P m.audio_message _ (λ x h. kept (handle_audio_message a x) (
          with_context-KeepsId x.context_info a
            (handle_audio_message a (record x { context_info = none })) i))
      also case_of-Taken P m.video_message _ (λ x h. kept (handle_video_message a x) (
          with_context-KeepsId x.context_info a
            (handle_video_message a (record x { context_info = none })) i))
      also case_of-Taken P m.extended_text_message _ (λ x h.
        kept (handle_extended_text_message a x) (
          with_ads-KeepsId x.context_info a
            (with_context x.context_info
              (handle_extended_text_message a (record x { context_info = none })))
            (with_context-KeepsId x.context_info a
              (handle_extended_text_message a (record x { context_info = none })) i)))
      also case_if-Taken P m.ephemeral_message (alone a) (kept a i)
      also case_of-Taken P m.buttons_response_message _ (λ x h.
        kept (handle_buttons_response_message a x) (
          with_context-KeepsId x.context_info a
            (handle_buttons_response_message a (record x { context_info = none })) i))
      also case_of-Taken P m.location_message _ (λ x h. location-Preserves m lib.slug a x)
      also case_of-Taken P m.live_location_message _ (λ x h. live_location-Preserves m lib.slug a x)
      also case_of-Taken P m.contact_message _ (λ x h. kept (handle_contact_message lib.slug a x) i)
      also case_of-Taken P m.reaction_message _ (λ x h. kept (handle_reaction_message a x) i)
      also case_of-Taken P m.edited_text _ (λ x h. kept (handle_edit_text_message a x) i)
      also case_of-Taken P m.protocol_message _
          (λ x h. protocol_of_type-Preserves m a x x.type h refl)
      also case_of-Taken P m.template_message _
          (λ x h. kept _ (handle_template_message-KeepsId a x))
      also case_of-Taken P m.template_button_reply_message _ (λ x h.
        kept (handle_template_button_reply_message lib.decimal a x) (
          with_context-KeepsId x.context_info a
            (handle_template_button_reply_message lib.decimal a (record x { context_info = none }))
            i))
      also case_of-Taken P m.contacts_array_message _ (λ x h. contacts_array-Preserves m lib a x)
      also case_of-Taken P m.list_message _ (λ x h. kept (handle_list_message a x) (
          with_context-KeepsId x.context_info a
            (handle_list_message a (record x { context_info = none })) i))
      also case_if-Taken P m.sender_key_distribution_message _
          (kept (as_unhandled (codes "SenderKeyDistributionMessage") (codes "discard") a) i)
      also case_if-Taken P m.sticker_sync_rmr_message _
          (kept (as_unhandled (codes "StickerSyncRmrMessage") (codes "discard") a) i)
      also case_if-Taken P (ltb 0 (length m.conversation)) _
          (kept (handle_text_message a m.conversation) i)
      also tt

  -- Whatever the content of a message, its conversion keeps its chat, participant, time, origin and
  -- content. It keeps its id, or takes that which the message's own protocol part names. The further
  -- messages of a list of contacts have its chat, its time and its sender's side.
  pub handle_knowing_messages-Preserves :
      (lib : Library C) (a : WhatsappMessage C) (m : E2eMessage)
      → Preserves m a (handle_knowing_messages lib a m)
  unfolding handle_knowing_messages as_unhandled KeepsId
  handle_knowing_messages-Preserves lib a m =
      first_of-Taken (Preserves m a) _ (conversions lib a m)
        (alone-Preserves m a _ (KeepsId-refl a)) (conversions-Preserves lib a m)
