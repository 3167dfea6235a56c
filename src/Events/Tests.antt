-- ===== src/Events/Tests.antt =====
-- The events of whatsmeow at fixed inputs.
use quepasa.Prelude.{
  ℕ, ◌≡◌, refl, Bool, true, false, none, some, List, [], ◌∷◌, ◌==◌, if◌then◌else◌, length, pos,
}
use quepasa.Strings.{Text, codes, to_upper}
use quepasa.Cache.{empty, get_any, set_cache_item}
use quepasa.Whatsapp.Booleans.{unset_boolean}
use quepasa.Whatsapp.Options.{WhatsappOptionsExtended}
use quepasa.Whatsapp.Message.{WhatsappMessageStatus}
use quepasa.Messages.{
  QpWhatsappMessages, get_status_by_id, write_status, get_by_id, set_status_by_id,
}
use quepasa.Contacts.{no_contacts}
use quepasa.Contacts.Manager.{user_jid, no_client}
use quepasa.Contacts.Chats.{jid_id, new_whatsapp_chat}
use quepasa.Incoming.Tests.{empty_message, library}
use quepasa.Events.{
  WhatsmeowHandlers, EventInfo, MessageEvent, ReceiptEvent, read, HistoryMessage, Conversation,
  Event, message_event, connected, logged_out, offline_sync_completed, Effect, handle_message,
  World, Outcome,
}
use quepasa.Events.Settings.{handles_read_receipts, get_whatsapp_message_status}
use quepasa.Events.Chats.{replace_all}
use quepasa.Events.Messages.{is_history_message, message, on_history_sync_event}
use quepasa.Events.Receipts.{receipt, statuses_of, is_ignored}
use quepasa.Events.Dispatcher.{events_handler, handle_all}
use quepasa.Events.Unregistered.{removals, handle_all-logged_out}
use quepasa.Events.SyncPeriod.{period, is_history_message-period}
use quepasa.Events.Reading.{Tells, raise_all, receipt-Tells}
use quepasa.Events.Readable.{all_messages, readable, messages_in_turn}
use quepasa.Events.History.{on_history_sync_event-readable}

abbrev options : WhatsappOptionsExtended
options = record {
  groups = unset_boolean;
  broadcasts = unset_boolean;
  read_receipts = pos 1;
  calls = unset_boolean;
  read_update = unset_boolean;
  history_sync = some 0;
  log_level = [];
  presence = [];
  dispatch_unhandled = false;
}

abbrev world : World ℕ
world = record {
  now = 5000000000;
  now_text = codes "now";
  randomizer = codes "00000001";
  cache_days = 0;
  history_limit = λ days. pos 0;
  message_id = codes "GEN";
  parse_jid = λ t. if length t == 0 then none else some (user_jid t);
  jid_string = jid_id;
  to_json = λ fields. codes "{}";
  checksum = λ t. codes "crc";
  store_phone = codes "551";
  push_name = [];
  library = library;
}

abbrev no_messages : QpWhatsappMessages ℕ
no_messages = record { messages = empty; statuses = empty }

-- Registered under 7, without a client.
abbrev handler : WhatsmeowHandlers ℕ
handler = record {
  service = options;
  options = none;
  client = no_client;
  wa_handlers = some no_messages;
  directory = record { maps = no_contacts; group_titles = empty };
  event_handler_id = 7;
  unregister_requested = false;
  counter = 0;
  offline_sync_started = false;
  offline_sync_completed = false;
  event_sequence = 0;
}

abbrev info : EventInfo
info = record {
  id = codes "M1";
  timestamp = 3000000001;
  is_from_me = false;
  is_group = false;
  chat = user_jid (codes "5521999998888");
  sender = user_jid (codes "5521999998888");
}

abbrev hello : MessageEvent ℕ
hello = record {
  info = info;
  message = some (1, record empty_message { conversation = codes "hi" });
}

abbrev nothing_known : MessageEvent ℕ
nothing_known = record { info = info; message = some (1, empty_message) }

-- What is handed on, as its text, its origin and its mark of the history.
handed_on : Outcome ℕ → List (Text × (Text × Bool))
handed_on none = []
handed_on (some (h, effects)) = told effects
  where
    told : List (Effect ℕ) → List (Text × (Text × Bool))
    told [] = []
    told (handle_message m from ∷ rest) = (m.text, (from, m.from_history)) ∷ told rest
    told (_ ∷ rest) = told rest

-- A text that comes live; an unhandled message of a history sync is left out.
live :
    (handed_on (message world hello (codes "live") handler)
      ≡ (codes "hi", (codes "live", false)) ∷ [])
    × (handed_on (message world nothing_known (codes "history") handler) ≡ [])
unfolding message handed_on new_whatsapp_chat
live = (refl, refl)

replaced : replace_all (codes "a @1 b @1") (codes "@1") (codes "@Ann") ≡ codes "a @Ann b @Ann"
unfolding replace_all
replaced = refl

abbrev seen : ReceiptEvent ℕ
seen = record {
  content = 2;
  chat = user_jid (codes "5521999998888");
  message_ids = codes "A" ∷ codes "B" ∷ codes "A" ∷ [];
  type = read;
  timestamp = 9;
}

statuses : List (Text × WhatsappMessageStatus)
statuses =
    statuses_of (get_whatsapp_message_status read) (codes "A" ∷ codes "B" ∷ codes "A" ∷ []) []

-- Two messages were read: each id is passed on once.
receipts : (raise_all 0 5000000000 statuses no_messages).1 ≡ codes "A" ∷ codes "B" ∷ []
unfolding raise_all statuses statuses_of get_whatsapp_message_status get_status_by_id get_any empty
    write_status get_by_id set_status_by_id set_cache_item to_upper
receipts = refl

receipt-Tells_example :
    Tells
      (raise_all 0 5000000000 statuses no_messages).0
      (raise_all 0 5000000000 statuses no_messages).1
      (receipt world seen handler)
unfolding statuses handles_read_receipts is_ignored
receipt-Tells_example = receipt-Tells world seen true no_messages handler refl refl refl

-- A connection without an offline sync: what comes then counts as history.
never_completed :
    is_history_message (codes "live") (record handler { offline_sync_started = true }) ≡ true
unfolding is_history_message
never_completed = refl

abbrev log : List (Event ℕ)
log = connected ∷ message_event hello ∷ offline_sync_completed [] ∷ []

after_log : WhatsmeowHandlers ℕ
after_log = elim (handle_all world log handler) [ none ↦ handler | some r ↦ r.0 ]

effects_of_log : List (Effect ℕ)
effects_of_log = elim (handle_all world log handler) [ none ↦ [] | some r ↦ r.1 ]

is_history_message-period_example : is_history_message (codes "live") after_log ≡ false
unfolding after_log effects_of_log handle_all period is_history_message
is_history_message-period_example =
    is_history_message-period world log handler after_log effects_of_log (codes "live") refl
      (refl, (refl, (refl, tt))) refl

left_after : WhatsmeowHandlers ℕ
left_after = elim (events_handler world (logged_out (codes "gone")) handler) [
  | none ↦ handler
  | some r ↦ r.0
]

effects_of_logout : List (Effect ℕ)
effects_of_logout = elim (events_handler world (logged_out (codes "gone")) handler) [
  | none ↦ []
  | some r ↦ r.1
]

handle_all-logged_out_example :
    handle_all world log left_after ≡ some (left_after, removals left_after log)
unfolding left_after effects_of_logout events_handler
handle_all-logged_out_example =
    handle_all-logged_out world world (codes "gone") log handler left_after effects_of_logout refl

readable_message : HistoryMessage ℕ
readable_message = record { message_timestamp = 10; parse = λ chat. some hello }

broken_message : HistoryMessage ℕ
broken_message = record { message_timestamp = 11; parse = λ chat. none }

abbrev conversations : List (Conversation ℕ)
conversations =
    record {
      id = codes "1@s";
      messages = readable_message ∷ broken_message ∷ readable_message ∷ [];
    }
    ∷ record { id = codes "2@s"; messages = readable_message ∷ [] }
    ∷ []

-- One broken message ends the sync of both conversations.
cut_short :
    handed_on (on_history_sync_event world conversations handler)
    ≡ (codes "hi", (codes "history", true)) ∷ []
unfolding on_history_sync_event handed_on readable_message broken_message
cut_short = refl

on_history_sync_event-readable_example :
    on_history_sync_event world conversations handler
    ≡ messages_in_turn world (readable world options (all_messages conversations)) handler
on_history_sync_event-readable_example = on_history_sync_event-readable world conversations handler
