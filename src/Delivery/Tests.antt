-- ===== src/Delivery/Tests.antt =====
-- models/qp_dispatching.go, qp_whatsapp_server_extensions.go: sendings at fixed inputs. The state of the
-- outside is the number of calls so far, which is also its clock.
use quepasa.Prelude.{ℕ, zero, suc, ◌*◌, ◌≡◌, refl, true, false, none, some, [], ◌∷◌, map, length}
use quepasa.Strings.{Text, codes}
use quepasa.Whatsapp.Booleans.{unset_boolean, false_boolean}
use quepasa.Whatsapp.Message.{no_info, WhatsappMessage, WhatsappMessageType}
use quepasa.Routing.{post_to_dispatching}
use quepasa.Delivery.{
  HttpAnswer, no_response, response, Outside, Delivery, Destination, send_rabbitmq, post_all,
}
use quepasa.Delivery.Webhooks.{IsNoted, attempts, send_many, send_many-IsNoted}
use quepasa.Delivery.Loop.{called, called-post_all}

-- The calls of the web hook after the first fail.
abbrev answers : ℕ → HttpAnswer
answers zero = response 200 none
answers (suc zero) = response 500 none
answers (suc (suc n)) = no_response (codes "timeout")

abbrev busy : Outside ℕ ℕ
busy = record {
  now = λ w. 10 * w;
  marshal = λ d w. none;
  new_request = λ k w. none;
  post = λ k w. (suc w, answers w);
  payload = λ d w. w;
  message_id = λ w. w ∷ [];
  body = λ p w. some [];
  broker = λ p w. (suc w, some (codes "blocked"));
  declare_answer = λ w d. none;
  wait = λ limit client w. (w, record client { conn = true; channel = true });
  meanwhile = λ client w. (w, client);
}

abbrev destination : Text → Text → Destination
destination k type = record {
  dispatching = record {
    options = record {
      groups = unset_boolean;
      broadcasts = unset_boolean;
      read_receipts = unset_boolean;
      calls = false_boolean;
      read_update = unset_boolean;
    };
    connection_string = k;
    type = type;
    forward_internal = true;
    track_id = [];
    wid = [];
  };
  failure = none;
  success = none;
}

abbrev start : Delivery ℕ ℕ
start = record { world = 0; clients = []; exceptions = [] }

abbrev hook : Destination
hook = destination (codes "http://a") (codes "webhook")

abbrev queue : Destination
queue = destination (codes "amqp://b") (codes "rabbitmq")

abbrev other : Destination
other = destination (codes "c") (codes "mail")

-- Three sendings: the first succeeds, the others fail.
three_sendings :
    ((send_many busy 3 hook start).0.failure ≡ some 20)
    × ((send_many busy 3 hook start).0.success ≡ some 10)
unfolding send_many
three_sendings = (refl, refl)

send_many-IsNoted_example :
    IsNoted (attempts busy 3 hook.dispatching 0).1 (send_many busy 3 hook start).0
    × ((send_many busy 3 hook start).0.dispatching ≡ hook.dispatching)
    × ((send_many busy 3 hook start).1.world ≡ (attempts busy 3 hook.dispatching 0).0)
send_many-IsNoted_example = send_many-IsNoted busy 3 hook start refl refl

abbrev message : WhatsappMessage ℕ
message = record {
  content = none;
  id = codes "a1";
  timestamp = 90;
  type = WhatsappMessageType.text;
  chat = record { id = codes "1@g.us"; lid = []; phone = []; title = codes "T" };
  text = codes "hello";
  attachment = none;
  from_me = false;
  participant = none;
  forwarding_score = 0;
  url = none;
  ads = none;
  info = no_info;
  debug = none;
  from_internal = false;
  from_history = false;
  edited = false;
  in_reaction = false;
  in_reply = [];
  synopsis = [];
  status = [];
  wid = [];
  track_id = [];
  exceptions = [];
}

-- The broker refuses the message, which is cached, and the sending is noted as a success.
unsent_success :
    ((send_rabbitmq busy message queue start).0.success ≡ some 10)
    × ((send_rabbitmq busy message queue start).2 ≡ none)
    × (map (λ c. length c.1.message_cache) (send_rabbitmq busy message queue start).1.clients
        ≡ 1 ∷ [])
unfolding send_rabbitmq
unsent_success = (refl, refl, refl)

called-post_all_example :
    called (post_all busy message (hook ∷ queue ∷ other ∷ []) start)
    ≡ post_to_dispatching (hook.dispatching ∷ queue.dispatching ∷ other.dispatching ∷ []) message
called-post_all_example = called-post_all busy message (hook ∷ queue ∷ other ∷ []) start
