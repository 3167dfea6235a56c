-- ===== src/RabbitMq.antt =====
-- rabbitmq/rabbitmq_client.go: the client of a queue, with its cache of messages that are not sent
-- yet. The buffered channel `messageCache` is a list, the oldest message first. The package amqp
-- answers a call with an error or none, and the JSON library gives a text or none; both are parameters. Of a
-- connection and a channel the client keeps whether they are there. Log lines and metrics are left out.
pub mod System
mod Drain
mod Setup
mod Tests
use quepasa.Prelude.{
  ℕ, zero, suc, ◌+◌, ◌-◌, ◌*◌, ◌/◌, ◌%◌, ◌^◌, ◌≤◌, ◌<◌, String, ◌≡◌, refl, sym, ap, ◌∙◌, ◌≢◌, ◌↔◌,
  ◌⊎◌, inl, inr, Bool, true, false, ◌&&◌, ◌||◌, not, Option, none, some, List, [], ◌∷◌, ◌++◌, map,
  arith, ltb, leb, ◌==◌, if◌then◌else◌, ltb→lt, lt→ltb, leb→le, le→leb, ==_iff, tests, Bool-cases,
  Option-cases, sum-cases, is_some, length, get_elem?, take, drop, length-append, drop-append,
  length-take-le, All, ℤ, pos, negsuc, int_eq, int_eq_iff, ne_of_int_eq, All-append, ◌>>=◌,
}
use quepasa.Strings.{
  Text, codes, same, contains, has_prefix, has_suffix, contains_text, without, trim_left, trim,
  split, before, is_space, trim_space, to_upper, to_lower, is_digit, upper, lower, trim_space_left,
  trim_space_right,
}

pub record RabbitMqMessage {ℓ} (P : Type ℓ) : Type ℓ where
  pub id : Text
  pub payload : P
  pub timestamp : ℕ
  pub exchange : Text
  pub routing_key : Text

pub record RabbitMqClient {ℓ} (P : Type ℓ) : Type ℓ where
  pub conn : Bool
  pub channel : Bool
  pub message_cache : List (RabbitMqMessage P)
  pub max_cache_size : ℕ
  pub cache_processing : Bool
  pub quepasa_setup_done : Bool

-- The answers of amqp.Dial and of Channel.
pub data Dial : Type 0 where
  no_connection : Text → Dial
  no_channel : Text → Dial
  connected : Dial

-- What becomes of a message that is published.
pub data Fate : Type 0 where
  published cached dropped unmarshalable : Fate

abbrev pub quepasa_exchange_name : Text
quepasa_exchange_name = codes "quepasa.exchange"

module _ {ℓ} {P : Type ℓ} where
  -- NewRabbitMQClient; `none` is the panic of `make` on a size that `int` makes negative.
  unfoldable pub new_rabbitmq_client : ℕ → Option (RabbitMqClient P)
  new_rabbitmq_client max_cache_size =
      let actual = if max_cache_size == 0 then 100000 else max_cache_size in
      if ltb max_cache_size (2 ^ 63)
      then some (record {
        conn = false;
        channel = false;
        message_cache = [];
        max_cache_size = actual;
        cache_processing = false;
        quepasa_setup_done = false;
      })
      else none

  unfoldable pub connect : Dial → RabbitMqClient P → RabbitMqClient P × Option Text
  connect (no_connection e) r = (record r { conn = false }, some e)
  connect (no_channel e) r = (record r { conn = true; channel = false }, some e)
  connect connected r = (
    record r { conn = true; channel = true; quepasa_setup_done = false; cache_processing = true },
    none,
  )

  -- What `monitorConnection` does on a notification that the channel is closed.
  unfoldable pub connection_lost : RabbitMqClient P → RabbitMqClient P
  connection_lost r = record r { channel = false; conn = false }

  unfoldable pub add_to_cache : RabbitMqMessage P → RabbitMqClient P → RabbitMqClient P × Bool
  add_to_cache msg r =
      if ltb (length r.message_cache) r.max_cache_size
      then (record r { message_cache = r.message_cache ++ (msg ∷ []) }, true)
      else (r, false)

  fate_of_caching : RabbitMqClient P × Bool → RabbitMqClient P × Fate
  fate_of_caching (r, true) = (r, cached)
  fate_of_caching (r, false) = (r, dropped)

  -- `body` is what json.Marshal gives, `answer` the error of Publish.
  unfoldable pub publish_message_to_exchange :
      Option Text → Option Text → RabbitMqMessage P → RabbitMqClient P → RabbitMqClient P × Fate
  unfolding add_to_cache fate_of_caching
  publish_message_to_exchange body answer msg r =
      if not r.channel then fate_of_caching (add_to_cache msg r) else elim body [
        | none ↦ (r, unmarshalable)
        | some json ↦ elim answer [
          | none ↦ (r, published)
          | some error ↦ fate_of_caching (add_to_cache msg r)
        ]
      ]

  unfoldable pub publish_quepasa_message :
      Option Text → Option Text → Text → ℕ → Text → P → RabbitMqClient P → RabbitMqClient P × Fate
  unfolding publish_message_to_exchange
  publish_quepasa_message body answer id now routing_key payload r =
      publish_message_to_exchange body answer
        (record {
          id = id;
          payload = payload;
          timestamp = now;
          exchange = quepasa_exchange_name;
          routing_key = routing_key;
        })
        r

  unfoldable pub is_connection_ready : RabbitMqClient P → Bool
  is_connection_ready r = r.channel

-- The declarations of EnsureExchangeAndQueues.
pub data Declaration : Type 0 where
  exchange : Text → Declaration
  queue : Text → Declaration
  bind : Text → Text → Declaration

-- The map of queues, in the order in which it is ranged over.
unfoldable pub queue_declarations : List (Text × Text) → List Declaration
queue_declarations [] = []
queue_declarations ((name, routing_key) ∷ queues) =
    queue name ∷ bind name routing_key ∷ queue_declarations queues

abbrev pub standard_queues : List (Text × Text)
standard_queues =
    (codes "quepasa.production", codes "prod")
    ∷ (codes "quepasa.history", codes "history")
    ∷ (codes "quepasa.other", codes "events")
    ∷ []

-- The declarations up to the first that fails, and its error.
unfoldable pub declare :
    (Declaration → Option Text) → List Declaration → List Declaration × Option Text
declare answer [] = ([], none)
declare answer (d ∷ ds) =
    let (made, error) = declare answer ds in
    elim (answer d) [ none ↦ (d ∷ made, error) | some e ↦ (d ∷ [], some e) ]

module _ {ℓ} {P : Type ℓ} where
  -- EnsureExchangeAndQueues, with the declarations that are sent.
  unfoldable pub ensure_exchange_and_queues :
      (Declaration → Option Text)
      → List (Text × Text)
      → RabbitMqClient P
      → RabbitMqClient P × Option Text × List Declaration
  unfolding declare queue_declarations
  ensure_exchange_and_queues answer queues r =
      let (made, error) =
        declare answer (exchange quepasa_exchange_name ∷ queue_declarations queues) in
      if r.quepasa_setup_done
      then (r, none, [])
      else if not r.channel
      then (r, some (codes "rabbitmq channel not available"), [])
      else if is_some error
      then (r, error, made)
      else (record r { quepasa_setup_done = true }, none, made)
