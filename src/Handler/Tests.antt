-- ===== src/Handler/Tests.antt =====
-- Runs of the handler of a server at fixed inputs.
use quepasa.Prelude.{
  ℕ, ◌≡◌, refl, inl, true, false, Option, none, some, List, [], ◌∷◌, if◌then◌else◌,
}
use quepasa.Strings.{Text, codes, has_suffix, trim_space, to_upper}
use quepasa.Cache.{empty, set_cache_item, clean_up}
use quepasa.Cache.Sorting.{by_expiration}
use quepasa.Whatsapp.Booleans.{unset_boolean, true_boolean, false_boolean}
use quepasa.Whatsapp.Options.{handle_groups, handle_broadcasts}
use quepasa.Whatsapp.Message.{
  no_info, WhatsappMessage, WhatsappMessageType, from_group, from_broadcast,
}
use quepasa.Messages.{get_by_id, append, get_cache_expiration}
use quepasa.Handler.{
  DispatchingHandler, Settings, World, Effect, signalr, handle_dispatching, handles_groups,
  handles_broadcasts, is_valid_for_dispatch, trigger, append_msg_to_cache, message, is_registered,
  register, unregister, clear, is_attached, local_groups, local_broadcasts,
}
use quepasa.Handler.Flow.{
  Announces, message_dropped, message-Announces, accepted, append_msg_to_cache-accepted,
}
use quepasa.Handler.Registration.{Once, is_registered-operations, operations-Once}

abbrev message_in : Text → Text → WhatsappMessage ℕ
message_in id chat = record {
  content = none;
  id = id;
  timestamp = 90;
  type = WhatsappMessageType.text;
  chat = record { id = chat; lid = []; phone = []; title = codes "T" };
  text = codes "hello";
  attachment = none;
  from_me = false;
  participant = none;
  forwarding_score = 0;
  url = none;
  ads = none;
  info = no_info;
  debug = none;
  from_internal = false;
  from_history = false;
  edited = false;
  in_reaction = false;
  in_reply = [];
  synopsis = [];
  status = [];
  wid = [];
  track_id = [];
  exceptions = [];
}

-- Groups are handled by default and broadcasts are not; unhandled messages are not dispatched.
abbrev settings : Settings
settings = record {
  options = record {
    groups = true_boolean;
    broadcasts = false_boolean;
    read_receipts = unset_boolean;
    calls = unset_boolean;
    read_update = unset_boolean;
    history_sync = none;
    log_level = [];
    presence = [];
    dispatch_unhandled = false;
  };
  dispatch_unhandled = false;
  synopsis_length = 50;
  cache_length = 0;
  cache_days = 7;
}

abbrev world : World ℕ
world = record {
  now = 100;
  uuid = codes "u";
  chat_title = λ id. codes "T";
  render = λ c. codes "c";
  validate = λ item previous. false;
  arrangement = by_expiration;
}

-- A server that handles no groups, with two handlers.
abbrev handler : DispatchingHandler ℕ
handler = record {
  cache = record { messages = empty; statuses = empty };
  server = some (record {
    groups = false_boolean;
    broadcasts = unset_boolean;
    wid = codes "w";
    token = codes "t";
    event_time = none;
    message_time = none;
  });
  aeh = 7 ∷ 8 ∷ [];
}

abbrev greeting : WhatsappMessage ℕ
greeting = message_in (codes "a1") (codes "1@lid")

abbrev sent : WhatsappMessage ℕ
sent = record greeting { wid = codes "w" }

abbrev of_group : WhatsappMessage ℕ
of_group = message_in (codes "a2") (codes "1@g.us")

abbrev after : DispatchingHandler ℕ
after = elim (message settings world handler greeting) [ none ↦ handler | some r ↦ r.0 ]

abbrev effects_of : Option (DispatchingHandler ℕ × List (Effect ℕ)) → Option (List (Effect ℕ))
effects_of none = none
effects_of (some r) = some r.1

greeting_runs :
    message settings world handler greeting
    ≡ some (
      after,
      signalr (codes "t") sent ∷ handle_dispatching 7 sent ∷ handle_dispatching 8 sent ∷ [],
    )
unfolding empty message clean_up append get_by_id set_cache_item to_upper handles_groups
    handles_broadcasts local_groups local_broadcasts handle_groups handle_broadcasts trim_space
    get_cache_expiration from_group from_broadcast has_suffix is_valid_for_dispatch
greeting_runs = refl

handler_tests :
    (effects_of (message settings world after greeting) ≡ some [])
    × (effects_of (message settings world handler (record greeting { text = codes " " })) ≡ some [])
unfolding empty message clean_up append get_by_id set_cache_item to_upper handles_groups
    handles_broadcasts local_groups local_broadcasts handle_groups handle_broadcasts trim_space
    get_cache_expiration from_group from_broadcast has_suffix is_valid_for_dispatch
handler_tests = (refl, refl)

dropped_group : message settings world handler of_group ≡ some (handler, [])
unfolding handles_groups local_groups handle_groups from_group has_suffix
dropped_group = message_dropped settings world handler of_group true (inl (refl, refl))

message-Announces_example :
    Announces settings handler.server handler.aeh
      (signalr (codes "t") sent ∷ handle_dispatching 7 sent ∷ handle_dispatching 8 sent ∷ [])
    × (after.aeh ≡ handler.aeh)
message-Announces_example = message-Announces settings world handler after greeting _ greeting_runs

append_msg_to_cache-accepted_run : (append_msg_to_cache settings world handler greeting).1 ≡ (
    if accepted settings world handler greeting
    then (trigger settings world handler greeting).2
    else [])
append_msg_to_cache-accepted_run = append_msg_to_cache-accepted settings world handler greeting

registers_nine :
    (is_registered 8 (register handler 9).aeh ≡ true)
    × (is_registered 8 (unregister handler 9).aeh ≡ true)
    × (is_registered 8 (clear handler).aeh ≡ false)
    × (is_attached (register handler 9) ≡ true)
    × (is_attached (clear handler) ≡ false)
unfolding is_registered
registers_nine = is_registered-operations handler 9 8

operations-Once_run :
    Once (register handler 8).aeh × Once (unregister handler 8).aeh × Once (clear handler).aeh
unfolding is_registered
operations-Once_run = operations-Once handler 8 (refl, (refl, tt))
