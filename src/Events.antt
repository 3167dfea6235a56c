-- ===== src/Events.antt =====
-- whatsmeow/whatsmeow_handlers.go: what a connection does with the events of whatsmeow. This file has
-- the handler's state, the events and what the code takes from elsewhere. What the code starts in a
-- goroutine is done at once, in the order in which it is started; the calls that leave the modelled
-- code are returned as a list of effects. A panic is `none`. Log lines and metrics are left out.
pub mod Settings
pub mod Chats
pub mod Messages
pub mod Receipts
pub mod Notices
pub mod Reports
pub mod Cards
pub mod Dispatcher
pub mod Frame
mod Keeping
mod Reporting
pub mod Unregistered
pub mod SyncPeriod
pub mod Reading
pub mod Readable
pub mod History
mod Tests
use quepasa.Prelude.{
  ℕ, zero, suc, ◌+◌, ◌-◌, ◌*◌, ◌/◌, ◌%◌, ◌^◌, ◌≤◌, ◌<◌, String, ◌≡◌, refl, sym, ap, ◌∙◌, ◌≢◌, ◌↔◌,
  ◌⊎◌, inl, inr, Bool, true, false, ◌&&◌, ◌||◌, not, Option, none, some, List, [], ◌∷◌, ◌++◌, map,
  arith, ltb, leb, ◌==◌, if◌then◌else◌, ltb→lt, lt→ltb, leb→le, le→leb, ==_iff, not_zero, tests,
  Bool-cases, Option-cases, sum-cases, is_some, length, get_elem?, take, drop, length-append,
  drop-append, length-take-le, All, ℤ, pos, negsuc, int_eq, int_eq_iff, ne_of_int_eq, eq_of_some,
  All-append, ◌>>=◌,
}
use quepasa.Strings.{
  Text, codes, same, contains, has_prefix, has_suffix, contains_text, without, trim_left, trim,
  split, before, is_space, trim_space, to_upper, to_lower, is_digit, upper, lower, trim_space_left,
  trim_space_right,
}
use quepasa.Whatsapp.Options.{WhatsappOptions, WhatsappOptionsExtended}
use quepasa.Whatsapp.Message.{WhatsappMessage}
use quepasa.Messages.{QpWhatsappMessages}
use quepasa.Contacts.Manager.{Jid, Device}
use quepasa.Contacts.Chats.{Directory}
use quepasa.Incoming.{E2eMessage, Library}

-- The handler, with the client of its connection, the messages of the WAHandlers that it calls, where
-- they are set, and the process's directory of chats.
pub record WhatsmeowHandlers {ℓ} (C : Type ℓ) : Type ℓ where
  pub service : WhatsappOptionsExtended
  pub options : Option WhatsappOptions
  pub client : Device
  pub wa_handlers : Option (QpWhatsappMessages C)
  pub directory : Directory
  pub event_handler_id : ℕ
  pub unregister_requested : Bool
  pub counter : ℕ
  pub offline_sync_started : Bool
  pub offline_sync_completed : Bool
  pub event_sequence : ℕ

-- types.MessageInfo
pub record EventInfo : Type 0 where
  pub id : Text
  pub timestamp : ℕ
  pub is_from_me : Bool
  pub is_group : Bool
  pub chat : Jid
  pub sender : Jid

-- events.Message: its message is the content and what the code reads of it.
pub record MessageEvent {ℓ} (C : Type ℓ) : Type ℓ where
  pub info : EventInfo
  pub message : Option (C × E2eMessage)

-- types.BasicCallMeta
pub record CallMeta {ℓ} (C : Type ℓ) : Type ℓ where
  pub content : C
  pub from : Jid
  pub call_id : Text
  pub timestamp : ℕ

pub data ReceiptType : Type 0 where
  delivered retry server_error read played other_receipt : ReceiptType

-- events.Receipt
pub record ReceiptEvent {ℓ} (C : Type ℓ) : Type ℓ where
  pub content : C
  pub chat : Jid
  pub message_ids : List Text
  pub type : ReceiptType
  pub timestamp : ℕ

-- events.JoinedGroup
pub record JoinedGroupEvent {ℓ} (C : Type ℓ) : Type ℓ where
  pub content : C
  pub create_key : Text
  pub jid : Jid
  pub name : Text
  pub fields : List (Text × Text)

-- A message of a conversation of a history sync: its Unix time, a uint64, and ParseWebMessage of it.
pub record HistoryMessage {ℓ} (C : Type ℓ) : Type ℓ where
  pub message_timestamp : ℕ
  pub parse : Jid → Option (MessageEvent C)

pub record Conversation {ℓ} (C : Type ℓ) : Type ℓ where
  pub id : Text
  pub messages : List (HistoryMessage C)

-- events.UndecryptableMessage; an event that is reported as it is has its content and its type's name.
pub record UndecryptableEvent {ℓ} (C : Type ℓ) : Type ℓ where
  pub content : C
  pub type_name : Text
  pub info : EventInfo
  pub unavailable_type : Text

pub record OtherEvent {ℓ} (C : Type ℓ) : Type ℓ where
  pub content : C
  pub type_name : Text
  pub info : Option EventInfo

-- events.Contact: the full name and the LID of its action, where there is one.
pub record ContactEvent {ℓ} (C : Type ℓ) : Type ℓ where
  pub content : C
  pub jid : Jid
  pub timestamp : ℕ
  pub from_full_sync : Bool
  pub action : Option (Text × Text)

-- The events of whatsmeow. `other_event` stands for those that are not implemented and for the default
-- case, which are treated alike. The events of pairing, which the code reads by reflection, are left
-- out.
pub data Event {ℓ} (C : Type ℓ) : Type ℓ where
  message_event : MessageEvent C → Event C
  call_offer call_offer_notice : CallMeta C → Event C
  receipt_event : ReceiptEvent C → Event C
  connected push_name_setting disconnected pair_error : Event C
  logged_out : Text → Event C
  history_sync : List (Conversation C) → Event C
  app_state_sync_complete : Bool → Event C
  joined_group : JoinedGroupEvent C → Event C
  contact_event : ContactEvent C → Event C
  offline_sync_preview offline_sync_completed : List (Text × Text) → Event C
  undecryptable_message : UndecryptableEvent C → Event C
  other_event : OtherEvent C → Event C

-- The calls that leave the code: of the client, and of the WAHandlers.
pub data Effect {ℓ} (C : Type ℓ) : Type ℓ where
  remove_event_handler : ℕ → Effect C
  reset_reconnect_errors : Effect C
  send_presence : Text → Effect C
  mark_read : Text → Jid → Option Jid → Effect C
  reject_call : Jid → Text → Effect C
  handle_message : WhatsappMessage C → Text → Effect C
  handle_receipt : WhatsappMessage C → Effect C
  on_connected on_disconnected : Effect C
  on_logged_out : Text → Effect C

-- What the code takes from elsewhere while it handles an event: the time in nanoseconds, as a number
-- and as the texts that are made of it, ids, JIDs, JSON, the client's phone and push name.
pub record World {ℓ} (C : Type ℓ) : Type ℓ where
  pub now : ℕ
  pub now_text : Text
  pub randomizer : Text
  pub cache_days : ℕ
  pub history_limit : ℕ → ℤ
  pub message_id : Text
  pub parse_jid : Text → Option Jid
  pub jid_string : Jid → Text
  pub to_json : List (Text × Text) → Text
  pub checksum : Text → Text
  pub store_phone : Text
  pub push_name : Text
  pub library : Library C

-- What a handler leaves: its state and the effects, in their order.
abbrev pub Outcome {ℓ} : Type ℓ → Type ℓ
Outcome C = Option (WhatsmeowHandlers C × List (Effect C))

-- One outcome after the other.
infixl 5 ◌then◌
abbrev pub ◌then◌ {ℓ} : {C : Type ℓ} → Outcome C → (WhatsmeowHandlers C → Outcome C) → Outcome C
none then f = none
some (h, effects) then f = f h >>= (λ r. some (r.0, effects ++ r.1))
