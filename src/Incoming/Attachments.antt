-- ===== src/Incoming/Attachments.antt =====
-- The handlers of messages with an attachment: media, locations and single contacts. A location
-- without a coordinate is read through a nil pointer: `none` is the panic.
use quepasa.Prelude.{Option, none, some, ◌∷◌, ◌++◌, ◌==◌, if◌then◌else◌, length, ◌>>=◌}
use quepasa.Strings.{Text, codes}
use quepasa.Whatsapp.Message.{
  WhatsappMessage, image, document, audio, video, location, contact, WhatsappAttachment,
  no_attachment, thumbnail_of, generate_vcard_attachment,
}
use quepasa.Incoming.{MediaMessage, LocationMessage, ContactMessage}
use quepasa.Incoming.Texts.{with_context}

media_attachment : MediaMessage → WhatsappAttachment
media_attachment m = record no_attachment { mimetype = m.mimetype; file_length = m.file_length }

-- SetThumbnail of an attachment.
set_thumbnail : Text → WhatsappAttachment → WhatsappAttachment
unfolding thumbnail_of
set_thumbnail bytes attach = elim (thumbnail_of bytes) [
  | none ↦ attach
  | some thumbnail ↦ record attach { thumbnail = some thumbnail }
]

unfoldable pub maps_url : Text → Text → Text
maps_url lat lon =
    codes "https://www.google.com/maps?ll="
    ++ lat
    ++ codes ","
    ++ lon
    ++ codes "&q="
    ++ lat
    ++ codes "+"
    ++ lon

unfoldable pub shortcut : Text → Text
shortcut url = codes "[InternetShortcut]" ++ (10 ∷ codes "URL=") ++ url

location_attachment : Text → Text → LocationMessage → Text → Text → WhatsappAttachment
unfolding maps_url shortcut set_thumbnail
location_attachment mimetype filename m lat lon =
    let content = shortcut (maps_url lat lon) in
    record (set_thumbnail m.thumbnail (record no_attachment {
      mimetype = mimetype;
      latitude = lat;
      longitude = lon;
      url = maps_url lat lon;
      file_name = filename;
      file_length = length content;
    })) { content = some content }

module _ {ℓ} {C : Type ℓ} where
  unfoldable pub handle_image_message : WhatsappMessage C → MediaMessage → WhatsappMessage C
  unfolding media_attachment set_thumbnail with_context
  handle_image_message out m = with_context m.context_info (record out {
    type = image;
    text = m.caption;
    attachment = some (set_thumbnail m.thumbnail (media_attachment m));
  })

  unfoldable pub handle_sticker_message : WhatsappMessage C → MediaMessage → WhatsappMessage C
  unfolding media_attachment set_thumbnail
  handle_sticker_message out m = record out {
    type = if m.is_animated then video else image;
    attachment = some (set_thumbnail m.thumbnail (media_attachment m));
  }

  unfoldable pub handle_video_message : WhatsappMessage C → MediaMessage → WhatsappMessage C
  unfolding media_attachment set_thumbnail with_context
  handle_video_message out m = with_context m.context_info (record out {
    type = video;
    text = m.caption;
    attachment = some (set_thumbnail m.thumbnail (media_attachment m));
  })

  unfoldable pub handle_document_message : WhatsappMessage C → MediaMessage → WhatsappMessage C
  unfolding media_attachment set_thumbnail with_context
  handle_document_message out m = with_context m.context_info (record out {
    type = document;
    text = m.caption;
    attachment =
        some (set_thumbnail m.thumbnail (record (media_attachment m) { file_name = m.file_name }));
  })

  unfoldable pub handle_audio_message : WhatsappMessage C → MediaMessage → WhatsappMessage C
  unfolding media_attachment with_context
  handle_audio_message out m = with_context m.context_info (record out {
    type = audio;
    attachment = some (record (media_attachment m) { seconds = m.seconds });
  })

  unfoldable pub handle_location_message :
      (Text → Text) → WhatsappMessage C → LocationMessage → Option (WhatsappMessage C)
  unfolding location_attachment
  handle_location_message slug out m = do
    lat ← m.degrees_latitude
    lon ← m.degrees_longitude
    let filename = slug (lat ++ codes "_" ++ lon) ++ codes ".url" in
        some (record out {
          type = location;
          attachment = some (location_attachment (codes "text/x-uri; location") filename m lat lon);
        })

  unfoldable pub handle_live_location_message :
      (Text → Text) → WhatsappMessage C → LocationMessage → Option (WhatsappMessage C)
  unfolding location_attachment
  handle_live_location_message slug out m = do
    lat ← m.degrees_latitude
    lon ← m.degrees_longitude
    let name = if length m.caption == 0 then lat ++ codes "_" ++ lon else m.caption in
        let filename = slug name ++ codes ".url" in
        some (record out {
          type = location;
          text = m.caption;
          attachment =
              some
                (record (location_attachment (codes "text/x-uri; live location") filename m lat
                  lon) { sequence = m.sequence_number });
        })

  unfoldable pub handle_contact_message :
      (Text → Text) → WhatsappMessage C → ContactMessage → WhatsappMessage C
  unfolding generate_vcard_attachment
  handle_contact_message slug out c =
      let filename = if length c.display_name == 0 then out.id else c.display_name in
      record out {
        type = contact;
        text = c.display_name;
        attachment = some (generate_vcard_attachment c.vcard (slug filename ++ codes ".vcf"));
      }
