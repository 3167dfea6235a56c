-- ===== src/Whatsapp/Message.antt =====
-- whatsapp/whatsapp_message.go, whatsapp_message_type.go, whatsapp_message_status.go,
-- whatsapp_chat.go, whatsapp_attachment.go: the message that the packages exchange. Of a message the
-- fields that the modelled code reads or writes are kept; the content of the original protocol
-- message is a parameter `C`. A thumbnail is its bytes; a coordinate is its text under `%f`; the
-- fields of a map that the code attaches as information are pairs of texts.
use quepasa.Prelude.{
  ℕ, ℤ, pos, Bool, false, ◌||◌, Option, none, some, List, [], ◌∷◌, ◌++◌, ltb, if◌then◌else◌, length,
}
use quepasa.Strings.{Text, codes, same, has_suffix}
use quepasa.Whatsapp.Endpoint.{group_suffix}

pub data WhatsappMessageType : Type 0 where
  unhandled view_once image document audio video text location contact call system group revoke
        poll :
      WhatsappMessageType

unfoldable pub type_string : WhatsappMessageType → Text
type_string image = codes "image"
type_string document = codes "document"
type_string audio = codes "audio"
type_string video = codes "video"
type_string text = codes "text"
type_string location = codes "location"
type_string contact = codes "contact"
type_string call = codes "call"
type_string system = codes "system"
type_string group = codes "group"
type_string revoke = codes "revoke"
type_string poll = codes "poll"
type_string view_once = codes "view_once"
type_string unhandled = codes "unhandled"

-- A Go string: any text may stand in it.
abbrev pub WhatsappMessageStatus : Type 0
WhatsappMessageStatus = Text

abbrev pub status_unknown : WhatsappMessageStatus
status_unknown = []

abbrev pub status_error : WhatsappMessageStatus
status_error = codes "error"

abbrev pub status_imported : WhatsappMessageStatus
status_imported = codes "imported"

abbrev pub status_delivered : WhatsappMessageStatus
status_delivered = codes "delivered"

abbrev pub status_read : WhatsappMessageStatus
status_read = codes "read"

unfoldable pub status_rank : WhatsappMessageStatus → ℕ
unfolding same
status_rank s =
    if same s status_error
    then 1
    else if same s status_imported
    then 2
    else if same s status_delivered
    then 3
    else if same s status_read
    then 4
    else 0

pub record WhatsappChat : Type 0 where
  pub id : Text
  pub lid : Text
  pub phone : Text
  pub title : Text

pub record WhatsappAttachment : Type 0 where
  pub content : Option Text
  pub mimetype : Text
  pub file_length : ℕ
  pub file_name : Text
  pub thumbnail : Option Text
  pub seconds : ℕ
  pub latitude : Text
  pub longitude : Text
  pub sequence : ℤ
  pub url : Text
  pub checksum : Text

-- The zero value of an attachment.
abbrev pub no_attachment : WhatsappAttachment
no_attachment = record {
  content = none;
  mimetype = [];
  file_length = 0;
  file_name = [];
  thumbnail = none;
  seconds = 0;
  latitude = [];
  longitude = [];
  sequence = pos 0;
  url = [];
  checksum = [];
}

-- What the three SetThumbnail store.
unfoldable pub thumbnail_of : Text → Option Text
thumbnail_of bytes = if ltb 0 (length bytes) then some bytes else none

unfoldable pub generate_vcard_attachment : Text → Text → WhatsappAttachment
generate_vcard_attachment content filename = record no_attachment {
  content = some content;
  mimetype = codes "text/x-vcard";
  file_length = length content;
  file_name = filename;
}

pub record WhatsappMessageUrl : Type 0 where
  pub reference : Text
  pub title : Text
  pub description : Text
  pub thumbnail : Option Text

pub record WhatsappMessageAds : Type 0 where
  pub id : Text
  pub title : Text
  pub source_id : Text
  pub source_url : Text
  pub app : Text
  pub type : Text
  pub thumbnail : Option Text

pub record WhatsappMessageDebug : Type 0 where
  pub event : Text
  pub reason : Text

-- The values of `Info` that the code sets.
pub data MessageInfo : Type 0 where
  no_info : MessageInfo
  info_text : Text → MessageInfo
  info_fields : List (Text × Text) → MessageInfo

pub record WhatsappMessage {ℓ} (C : Type ℓ) : Type ℓ where
  pub content : Option C
  pub id : Text
  pub timestamp : ℕ
  pub type : WhatsappMessageType
  pub chat : WhatsappChat
  pub text : Text
  pub attachment : Option WhatsappAttachment
  pub from_me : Bool
  pub participant : Option WhatsappChat
  pub forwarding_score : ℕ
  pub url : Option WhatsappMessageUrl
  pub ads : Option WhatsappMessageAds
  pub info : MessageInfo
  pub debug : Option WhatsappMessageDebug
  pub from_internal : Bool
  pub from_history : Bool
  pub edited : Bool
  pub in_reaction : Bool
  pub in_reply : Text
  pub synopsis : Text
  pub status : WhatsappMessageStatus
  pub wid : Text
  pub track_id : Text
  pub exceptions : List Text

-- WASYSTEMCHAT
abbrev pub system_chat : WhatsappChat
system_chat = record {
  id = codes "system";
  lid = [];
  phone = [];
  title = codes "Internal System Message";
}

module _ {ℓ} {C : Type ℓ} where
  -- The zero value of a message.
  abbrev pub blank : WhatsappMessage C
  blank = record {
    content = none;
    id = [];
    timestamp = 0;
    type = unhandled;
    chat = record { id = []; lid = []; phone = []; title = [] };
    text = [];
    attachment = none;
    from_me = false;
    participant = none;
    forwarding_score = 0;
    url = none;
    ads = none;
    info = no_info;
    debug = none;
    from_internal = false;
    from_history = false;
    edited = false;
    in_reaction = false;
    in_reply = [];
    synopsis = [];
    status = [];
    wid = [];
    track_id = [];
    exceptions = [];
  }

  unfoldable pub has_attachment : WhatsappMessage C → Bool
  has_attachment m = elim m.attachment [
    | none ↦ false
    | some attach ↦ ltb 0 (length attach.mimetype)
  ]

  unfoldable pub from_group : WhatsappMessage C → Bool
  unfolding has_suffix
  from_group m = has_suffix m.chat.id group_suffix

  unfoldable pub from_broadcast : WhatsappMessage C → Bool
  unfolding has_suffix same
  from_broadcast m =
      same m.chat.id (codes "status")
      || same m.chat.id (codes "status@broadcast")
      || has_suffix m.chat.id (codes "@newsletter")

  unfoldable pub mark_exceptions_with_message : WhatsappMessage C → Text → WhatsappMessage C
  mark_exceptions_with_message m message = record m { exceptions = m.exceptions ++ message ∷ [] }

  unfoldable pub clear_exceptions : WhatsappMessage C → WhatsappMessage C
  clear_exceptions m = record m { exceptions = [] }

  unfoldable pub has_exceptions : WhatsappMessage C → Bool
  has_exceptions m = ltb 0 (length m.exceptions)
