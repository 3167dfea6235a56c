-- ===== src/Messages/Tests.antt =====
-- Runs of the messages of a server at fixed inputs.
use mathlib.Core.Option
use quepasa.Prelude.{ℕ, ◌≤◌, ◌≡◌, refl, Bool, false, ◌&&◌, none, some, [], ◌∷◌, ltb, if◌then◌else◌}
use quepasa.Strings.{Text, codes, same, to_upper}
use quepasa.Cache.{CacheItem, empty, get_any, set_cache_item}
use quepasa.Whatsapp.Message.{
  no_info, WhatsappMessage, WhatsappMessageType, status_rank, status_read, status_delivered,
}
use quepasa.Messages.{
  QpWhatsappMessages, append, get_by_id, get_status_by_id, get_cache_expiration,
  message_status_update, get_leading, write_status, set_status_by_id,
}
use quepasa.Messages.Lookup.{get_by_id-append}
use quepasa.Messages.Statuses.{
  raises, with_status, message_status_update_lem, message_status_update_mono,
  message_status_update-get_by_id,
}
use quepasa.Messages.Slices.{Leads, get_leading-Leads}

-- A text message with an id and a time.
abbrev message : Text → ℕ → WhatsappMessage ℕ
message id time = record {
  content = none;
  id = id;
  timestamp = time;
  type = WhatsappMessageType.text;
  chat = record { id = codes "1@lid"; lid = []; phone = []; title = [] };
  text = codes "hello";
  attachment = none;
  from_me = false;
  participant = none;
  forwarding_score = 0;
  url = none;
  ads = none;
  info = no_info;
  debug = none;
  from_internal = false;
  from_history = false;
  edited = false;
  in_reaction = false;
  in_reply = [];
  synopsis = [];
  status = [];
  wid = [];
  track_id = [];
  exceptions = [];
}

abbrev none_yet : QpWhatsappMessages ℕ
none_yet = record { messages = empty; statuses = empty }

abbrev keep_old : CacheItem (WhatsappMessage ℕ) → CacheItem (WhatsappMessage ℕ) → Bool
keep_old item previous = false

abbrev one : QpWhatsappMessages ℕ
one = (append keep_old 7 100 none_yet (message (codes "ab1") 90)).0

abbrev delivered : QpWhatsappMessages ℕ
delivered = (message_status_update 7 100 one (codes "AB1") status_delivered).0

message_tests :
    ((get_by_id 200 one (codes "Ab1")).0 ≡ some (message (codes "ab1") 90))
    × ((get_by_id 604800000000100 one (codes "AB1")).0 ≡ none)
    × ((get_status_by_id 200 delivered (codes "aB1")).0 ≡ status_delivered)
    × ((message_status_update 7 200 delivered (codes "ab1") status_delivered).1 ≡ false)
    × (get_leading 95 (message (codes "x") 0 ∷ message (codes "y") 95 ∷ message (codes "z") 40 ∷ [])
        ≡ some (message (codes "z") 40))
unfolding append get_by_id get_status_by_id message_status_update get_leading empty get_any
    set_cache_item to_upper get_cache_expiration status_rank write_status set_status_by_id
message_tests = (refl, refl, refl, refl, refl)

get_by_id-append_run :
    (get_by_id 200 (append keep_old 7 100 none_yet (message (codes "ab1") 90)).0 (codes "Ab1")).0
    ≡ (if same (to_upper (codes "ab1")) (to_upper (codes "Ab1"))
        then (if ltb 200 (get_cache_expiration 7 100)
            then some (message (codes "ab1") 90)
            else none)
        else (get_by_id 200 none_yet (codes "Ab1")).0)
get_by_id-append_run =
    get_by_id-append keep_old 7 100 200 none_yet (message (codes "ab1") 90) (codes "Ab1")

message_status_update_lem_example :
    ((message_status_update 7 100 delivered (codes "ab1") status_read).1
      ≡ raises 100 delivered (codes "ab1") status_read)
    × ((get_status_by_id 100
          (message_status_update 7 100 delivered (codes "ab1") status_read).0
          (codes "AB1")).0
        ≡ (if raises 100 delivered (codes "ab1") status_read
              && same (to_upper (codes "ab1")) (to_upper (codes "AB1"))
            then status_read
            else (get_status_by_id 100 delivered (codes "AB1")).0))
message_status_update_lem_example =
    message_status_update_lem 7 100 delivered (codes "ab1") (codes "AB1") status_read

rank_kept :
    status_rank (get_status_by_id 100 delivered (codes "ab1")).0
    ≤ status_rank
        (get_status_by_id 100
          (message_status_update 7 100 delivered (codes "ab1") status_read).0
          (codes "ab1")).0
rank_kept = message_status_update_mono 7 100 delivered (codes "ab1") (codes "ab1") status_read

message_status_update-get_by_id_run :
    (get_by_id 100 (message_status_update 7 100 one (codes "ab1") status_read).0 (codes "ab1")).0
    ≡ (if raises 100 one (codes "ab1") status_read
        then Option.map (with_status status_read) (get_by_id 100 one (codes "ab1")).0
        else (get_by_id 100 one (codes "ab1")).0)
message_status_update-get_by_id_run =
    message_status_update-get_by_id 7 100 one (codes "ab1") status_read

earliest_of_two :
    Leads 95
      (message (codes "y") 95 ∷ message (codes "z") 40 ∷ [])
      (get_leading 95 (message (codes "y") 95 ∷ message (codes "z") 40 ∷ []))
earliest_of_two = get_leading-Leads 95 (message (codes "y") 95 ∷ message (codes "z") 40 ∷ [])
