-- ===== src/Incoming/Refusal.antt =====
-- Which messages the conversion reads without a panic.
use quepasa.Prelude.{
  ◌≡◌, refl, Bool, true, ◌&&◌, some, arith, ltb, Option-cases, is_some, length, All,
}
use quepasa.Strings.{Text}
use quepasa.Whatsapp.Message.{WhatsappMessage}
use quepasa.Incoming.{E2eMessage, LocationMessage, Library}
use quepasa.Incoming.Attachments.{handle_location_message, handle_live_location_message}
use quepasa.Incoming.Conversion.{Converted, alone, alone_if, conversions, handle_knowing_messages}
use quepasa.Incoming.Frame.{Taken, first_of-Taken, case_of-Taken, case_if-Taken, ◌also◌}

abbrev pub has_coordinates : LocationMessage → Bool
has_coordinates l = is_some l.degrees_latitude && is_some l.degrees_longitude

module _ {ℓ} {C : Type ℓ} where
  location-converts :
      (slug : Text → Text) (a : WhatsappMessage C) (l : LocationMessage)
      → has_coordinates l ≡ true
      → is_some (alone_if (handle_location_message slug a l)) ≡ true
  unfolding handle_location_message
  location-converts slug a l h =
      ground (arith, h, Option-cases l.degrees_latitude, Option-cases l.degrees_longitude)

  live_location-converts :
      (slug : Text → Text) (a : WhatsappMessage C) (l : LocationMessage)
      → has_coordinates l ≡ true
      → is_some (alone_if (handle_live_location_message slug a l)) ≡ true
  unfolding handle_live_location_message
  live_location-converts slug a l h =
      ground (arith, h, Option-cases l.degrees_latitude, Option-cases l.degrees_longitude)

  conversions-converts :
      (lib : Library C) (a : WhatsappMessage C) (m : E2eMessage)
      → ((l : LocationMessage) → m.location_message ≡ some l → has_coordinates l ≡ true)
      → ((l : LocationMessage) → m.live_location_message ≡ some l → has_coordinates l ≡ true)
      → All (Taken (λ r. is_some r ≡ true)) (conversions lib a m)
  unfolding conversions
  conversions-converts lib a m h k =
      let P : Converted C → Type 0 = λ r. is_some r ≡ true in
      case_of-Taken P m.image_message _ (λ x e. refl)
      also case_of-Taken P m.sticker_message _ (λ x e. refl)
      also case_of-Taken P m.document_message _ (λ x e. refl)
      also case_of-Taken P m.audio_message _ (λ x e. refl)
      also case_of-Taken P m.video_message _ (λ x e. refl)
      also case_of-Taken P m.extended_text_message _ (λ x e. refl)
      also case_if-Taken P m.ephemeral_message (alone a) refl
      also case_of-Taken P m.buttons_response_message _ (λ x e. refl)
      also case_of-Taken P m.location_message _ (λ x e. location-converts lib.slug a x (h x e))
      also case_of-Taken P m.live_location_message _
          (λ x e. live_location-converts lib.slug a x (k x e))
      also case_of-Taken P m.contact_message _ (λ x e. refl)
      also case_of-Taken P m.reaction_message _ (λ x e. refl)
      also case_of-Taken P m.edited_text _ (λ x e. refl)
      also case_of-Taken P m.protocol_message _ (λ x e. refl)
      also case_of-Taken P m.template_message _ (λ x e. refl)
      also case_of-Taken P m.template_button_reply_message _ (λ x e. refl)
      also case_of-Taken P m.contacts_array_message _ (λ x e. refl)
      also case_of-Taken P m.list_message _ (λ x e. refl)
      also case_if-Taken P m.sender_key_distribution_message _ refl
      also case_if-Taken P m.sticker_sync_rmr_message _ refl
      also case_if-Taken P (ltb 0 (length m.conversation)) _ refl
      also tt

  -- A message is converted without a panic when its location and its live location, if it has one,
  -- carry both coordinates.
  pub handle_knowing_messages-converts :
      (lib : Library C) (a : WhatsappMessage C) (m : E2eMessage)
      → ((l : LocationMessage) → m.location_message ≡ some l → has_coordinates l ≡ true)
      → ((l : LocationMessage) → m.live_location_message ≡ some l → has_coordinates l ≡ true)
      → is_some (handle_knowing_messages lib a m) ≡ true
  unfolding handle_knowing_messages
  handle_knowing_messages-converts lib a m h k =
      first_of-Taken (λ r. is_some r ≡ true) _ (conversions lib a m) refl
        (conversions-converts lib a m h k)
