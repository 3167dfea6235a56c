-- ===== src/Incoming.antt =====
-- whatsmeow/whatsmeow_handlers_message_extensions.go, whatsmeow_handlers_message_list.go and
-- whatsmeow_handlers_message_template.go: how a message of the protocol becomes the message that the
-- program passes on. This file has what the code reads of the protocol's message, which a
-- third-party package defines: an optional part is an `Option`, and a getter of a missing part
-- answers its zero value. Coordinates are their texts under `%f`, and what the code renders whole
-- (the JSON of a protocol message, the text of an edit) is the rendered text.
pub mod Texts
pub mod Attachments
pub mod Conversion
pub mod Frame
pub mod Refusal
pub mod Contacts
pub mod Tests
use quepasa.Prelude.{
  ℕ, zero, suc, ◌+◌, ◌-◌, ◌*◌, ◌/◌, ◌%◌, ◌^◌, ◌≤◌, ◌<◌, String, ◌≡◌, refl, sym, ap, ◌∙◌, ◌≢◌, ◌↔◌,
  ◌⊎◌, inl, inr, Bool, true, false, ◌&&◌, ◌||◌, not, Option, none, some, List, [], ◌∷◌, ◌++◌, map,
  arith, ltb, leb, ◌==◌, if◌then◌else◌, ltb→lt, lt→ltb, leb→le, le→leb, ==_iff, not_zero, tests,
  Bool-cases, Option-cases, sum-cases, is_some, length, get_elem?, take, drop, length-append,
  drop-append, length-take-le, All, ℤ, pos, negsuc, int_eq, int_eq_iff, ne_of_int_eq, eq_of_some,
  All-append, ◌>>=◌,
}
use quepasa.Strings.{
  Text, codes, same, contains, has_prefix, has_suffix, contains_text, without, trim_left, trim,
  split, before, is_space, trim_space, to_upper, to_lower, is_digit, upper, lower, trim_space_left,
  trim_space_right,
}

pub record ExternalAdReply : Type 0 where
  pub ctwa_clid : Text
  pub title : Text
  pub source_id : Text
  pub source_url : Text
  pub source_app : Text
  pub source_type : Text
  pub thumbnail : Text

pub record ContextInfo : Type 0 where
  pub forwarding_score : ℕ
  pub stanza_id : Text
  pub mentioned_jid : List Text
  pub external_ad_reply : Option ExternalAdReply

-- ImageMessage, StickerMessage, DocumentMessage, AudioMessage and VideoMessage: each has the parts
-- that the code reads of it.
pub record MediaMessage : Type 0 where
  pub caption : Text
  pub mimetype : Text
  pub file_length : ℕ
  pub file_name : Text
  pub seconds : ℕ
  pub is_animated : Bool
  pub thumbnail : Text
  pub context_info : Option ContextInfo

pub record ExtendedTextMessage : Type 0 where
  pub text : Text
  pub matched_text : Text
  pub title : Text
  pub description : Text
  pub thumbnail : Text
  pub context_info : Option ContextInfo

pub record ButtonsResponseMessage : Type 0 where
  pub selected_button_id : Text
  pub context_info : Option ContextInfo

-- LocationMessage and LiveLocationMessage.
pub record LocationMessage : Type 0 where
  pub degrees_latitude : Option Text
  pub degrees_longitude : Option Text
  pub caption : Text
  pub sequence_number : ℤ
  pub thumbnail : Text

pub record ContactMessage : Type 0 where
  pub display_name : Text
  pub vcard : Text

pub record ReactionMessage : Type 0 where
  pub text : Text
  pub key_id : Text

pub data ProtocolMessageType : Type 0 where
  message_edit revoke history_sync_notification other_protocol : ProtocolMessageType

-- What an edit carries: each part is its text or caption.
pub record EditedMessage : Type 0 where
  pub conversation : Option Text
  pub image_caption : Option Text
  pub video_caption : Option Text
  pub document_caption : Option Text
  pub extended_text : Option Text

pub record ProtocolMessage : Type 0 where
  pub type : ProtocolMessageType
  pub key_id : Text
  pub edited_message : Option EditedMessage
  pub json : Text
  pub history_sync_notification_json : Option Text

-- `hydrated_content_text` is of the hydrated template, where there is one.
pub record TemplateMessage : Type 0 where
  pub hydrated_content_text : Option Text
  pub context_info : Option ContextInfo

pub record TemplateButtonReplyMessage : Type 0 where
  pub selected_index : ℕ
  pub selected_display_text : Text
  pub context_info : Option ContextInfo

pub record ListRow : Type 0 where
  pub row_id : Text
  pub title : Text
  pub description : Text

pub record ListSection : Type 0 where
  pub title : Text
  pub rows : List (Option ListRow)

pub record ListMessage : Type 0 where
  pub title : Text
  pub description : Text
  pub button_text : Text
  pub sections : List (Option ListSection)
  pub footer_text : Text
  pub context_info : Option ContextInfo

-- waE2E.Message; `edited_text` is the text of the whole edited message, and `event_type` the answer
-- of GetMessageEventType, which reads the message by reflection.
pub record E2eMessage : Type 0 where
  pub image_message : Option MediaMessage
  pub sticker_message : Option MediaMessage
  pub document_message : Option MediaMessage
  pub audio_message : Option MediaMessage
  pub video_message : Option MediaMessage
  pub extended_text_message : Option ExtendedTextMessage
  pub ephemeral_message : Bool
  pub buttons_response_message : Option ButtonsResponseMessage
  pub location_message : Option LocationMessage
  pub live_location_message : Option LocationMessage
  pub contact_message : Option ContactMessage
  pub reaction_message : Option ReactionMessage
  pub edited_text : Option Text
  pub protocol_message : Option ProtocolMessage
  pub template_message : Option TemplateMessage
  pub template_button_reply_message : Option TemplateButtonReplyMessage
  pub contacts_array_message : Option (List ContactMessage)
  pub list_message : Option ListMessage
  pub sender_key_distribution_message : Bool
  pub sticker_sync_rmr_message : Bool
  pub conversation : Text
  pub event_type : Text

-- The names that the code takes from elsewhere: slug.Make, `%d`, and a contact as the content of the
-- message that is made of it.
pub record Library {ℓ} (C : Type ℓ) : Type ℓ where
  pub slug : Text → Text
  pub decimal : ℕ → Text
  pub contact_content : ContactMessage → C
