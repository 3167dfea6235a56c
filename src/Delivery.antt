-- ===== src/Delivery.antt =====
-- models/qp_dispatching.go, qp_whatsapp_server_extensions.go and rabbitmq/rabbitmq_defaults.go: a
-- message on its way to the destinations of a server, with what is noted of each. What lies outside is the
-- record `Outside`, a parameter with a state of its own: the clock, the JSON library, the HTTP client,
-- the broker, and what the goroutines of a queue client do to it meanwhile.
pub mod Webhooks
pub mod Queues
pub mod Loop
mod Tests
use quepasa.Prelude.{
  ℕ, zero, suc, ◌+◌, ◌-◌, ◌*◌, ◌/◌, ◌%◌, ◌^◌, ◌≤◌, ◌<◌, String, ◌≡◌, refl, sym, ap, ◌∙◌, ◌≢◌, ◌↔◌,
  ◌⊎◌, inl, inr, Bool, true, false, ◌&&◌, ◌||◌, not, Option, none, some, List, [], ◌∷◌, ◌++◌, map,
  arith, ltb, leb, ◌==◌, if◌then◌else◌, ltb→lt, lt→ltb, leb→le, le→leb, ==_iff, tests, Bool-cases,
  Option-cases, sum-cases, is_some, length, get_elem?, take, drop, length-append, drop-append,
  length-take-le, All, ℤ, pos, negsuc, int_eq, int_eq_iff, ne_of_int_eq, All-append, ◌>>=◌,
}
use quepasa.Strings.{
  Text, codes, same, contains, has_prefix, has_suffix, contains_text, without, trim_left, trim,
  split, before, is_space, trim_space, to_upper, to_lower, is_digit, upper, lower, trim_space_left,
  trim_space_right,
}
use quepasa.Whatsapp.Message.{WhatsappMessage}
use quepasa.Dispatching.{QpDispatching}
use quepasa.Routing.{
  Transport, post_webhook, publish_rabbitmq, transport, accepts, determine_routing_key,
}
use quepasa.Maps.{lookup, insert}
use quepasa.RabbitMq.{
  RabbitMqClient, RabbitMqMessage, Fate, Declaration, new_rabbitmq_client, publish_quepasa_message,
  is_connection_ready, ensure_exchange_and_queues, standard_queues,
}

-- The answer of the HTTP client: an error, or a status, which an error may come with.
pub data HttpAnswer : Type 0 where
  no_response : Text → HttpAnswer
  response : ℕ → Option Text → HttpAnswer

-- The texts of MarkExceptionsWithMessage, by their parts.
pub data Exception : Type 0 where
  webhook_failed : ℕ → Text → Exception
  rabbitmq_unavailable : Text → Exception
  message_cached : Exception

-- A destination, with the times that its last sendings left.
pub record Destination : Type 0 where
  pub dispatching : QpDispatching
  pub failure : Option ℕ
  pub success : Option ℕ

pub record Outside {ℓ} (P : Type ℓ) (W : Type 0) : Type ℓ where
  pub now : W → ℕ
  pub marshal : QpDispatching → W → Option Text
  pub new_request : Text → W → Option Text
  pub post : Text → W → W × HttpAnswer
  pub payload : QpDispatching → W → P
  pub message_id : W → Text
  pub body : P → W → Option Text
  pub broker : P → W → W × Option Text
  pub declare_answer : W → Declaration → Option Text
  pub wait : ℕ → RabbitMqClient P → W → W × RabbitMqClient P
  pub meanwhile : RabbitMqClient P → W → W × RabbitMqClient P

-- What a message meets: the outside, the clients by connection string, the exceptions of the message.
pub record Delivery {ℓ} (P : Type ℓ) (W : Type 0) : Type ℓ where
  pub world : W
  pub clients : List (Text × RabbitMqClient P)
  pub exceptions : List Exception

-- The error of a sending: that of the client, ErrInvalidResponse, or none.
unfoldable pub answer_error : HttpAnswer → Option Text
answer_error (no_response error) = some error
answer_error (response status error) =
    if status == 200 then error else some (codes "the requested url do not return 200 status code")

pub answer_status : HttpAnswer → ℕ
answer_status (no_response error) = 0
answer_status (response status error) = status

-- `if source.Failure == nil { source.Failure = &currentTime }`
pub first_failure : ℕ → Option ℕ → Option ℕ
first_failure now none = some now
first_failure now (some t) = some t

module _ {ℓ} {P : Type ℓ} {W : Type 0} (out : Outside P W) where
  -- PostWebhook, with its error.
  unfoldable pub send_webhook :
      Destination → Delivery P W → Destination × Delivery P W × Option Text
  unfolding answer_error answer_status first_failure
  send_webhook d s = elim (out.marshal d.dispatching s.world) [
    | some error ↦ (d, s, some error)
    | none ↦ elim (out.new_request d.dispatching.connection_string s.world) [
      | some error ↦ (d, s, some error)
      | none ↦
          let (world, answer) = out.post d.dispatching.connection_string s.world in
          elim (answer_error answer) [
            | some error ↦ (
              record d { failure = first_failure (out.now world) d.failure },
              record s {
                world = world;
                exceptions = s.exceptions ++ (webhook_failed (answer_status answer) error ∷ []);
              },
              some error,
            )
            | none ↦ (
              record d { failure = none; success = some (out.now world) },
              record s { world = world; exceptions = [] },
              none,
            )
          ]
    ]
  ]

  -- EnsureExchangeAndQueues with the standard queues.
  ensure : W → RabbitMqClient P → RabbitMqClient P × Option Text
  unfolding ensure_exchange_and_queues
  ensure w client =
      let (client', error, made) =
        ensure_exchange_and_queues (out.declare_answer w) standard_queues client in
      (client', error)

  -- WaitForConnection, and EnsureExchangeAndQueues where it finds one.
  unfoldable pub wait_and_ensure : ℕ → W → RabbitMqClient P → W × RabbitMqClient P
  unfolding ensure is_connection_ready
  wait_and_ensure limit w client =
      let (w', client') = out.wait limit client w in
      if is_connection_ready client' then (w', (ensure w' client').0) else (w', client')

  unfoldable pub ensure_with_retry : W → RabbitMqClient P → W × RabbitMqClient P
  unfolding ensure wait_and_ensure
  ensure_with_retry w client =
      let (client', error) = ensure w client in
      if is_some error then wait_and_ensure 5 w client' else (w, client')

  -- The client of a connection string that is not empty, which is made where there is none.
  unfoldable pub obtain : Option (RabbitMqClient P) → W → Option (W × RabbitMqClient P)
  unfolding wait_and_ensure new_rabbitmq_client
  obtain (some client) w = some (w, client)
  obtain none w = new_rabbitmq_client 0 >>= (λ client. some (wait_and_ensure 15 w client))

  -- GetRabbitMQClient.
  unfoldable pub get_rabbitmq_client : Text → Delivery P W → Option (W × RabbitMqClient P)
  unfolding obtain lookup
  get_rabbitmq_client key s =
      if length key == 0 then none else obtain (lookup key s.clients) s.world

  -- PublishRabbitMQ from IsConnectionReady on.
  unfoldable pub conclude :
      Destination → Delivery P W → W × RabbitMqClient P → Destination × Delivery P W × Option Text
  unfolding is_connection_ready insert
  conclude d s (w, client) =
      let kept : Delivery P W = record s {
        world = w;
        clients = insert d.dispatching.connection_string client s.clients;
      } in
      if is_connection_ready client
      then (
        record d { failure = none; success = some (out.now w) },
        record kept { exceptions = [] },
        none,
      )
      else (
        record d { failure = some (out.now w); success = none },
        record kept { exceptions = s.exceptions ++ (message_cached ∷ []) },
        some (codes "rabbitmq connection not available, message cached"),
      )

  -- PublishQuePasaMessage.
  unfoldable pub publish_with {κ} :
      {C : Type κ}
      → WhatsappMessage C
      → QpDispatching
      → W × RabbitMqClient P
      → W × RabbitMqClient P × Fate
  unfolding publish_quepasa_message determine_routing_key
  publish_with msg d (w, client) =
      let payload = out.payload d w in
      let (w', answer) = out.broker payload w in
      let (client', fate) =
        publish_quepasa_message (out.body payload w) answer (out.message_id w) (out.now w)
          (determine_routing_key msg) payload client in
      (w', client', fate)

  -- The same, and what the goroutines do until IsConnectionReady.
  unfoldable pub publish_and_go_on {κ} :
      {C : Type κ} → WhatsappMessage C → QpDispatching → W × RabbitMqClient P → W × RabbitMqClient P
  unfolding publish_with
  publish_and_go_on msg d p = let (w, client, fate) = publish_with msg d p in out.meanwhile client w

  -- PublishRabbitMQ, with its error.
  unfoldable pub send_rabbitmq {κ} :
      {C : Type κ}
      → WhatsappMessage C
      → Destination
      → Delivery P W
      → Destination × Delivery P W × Option Text
  unfolding conclude publish_and_go_on ensure_with_retry get_rabbitmq_client first_failure
  send_rabbitmq msg d s = elim (get_rabbitmq_client d.dispatching.connection_string s) [
    | none ↦ (
      record d { failure = first_failure (out.now s.world) d.failure },
      record s {
        exceptions = s.exceptions ++ (rabbitmq_unavailable d.dispatching.connection_string ∷ []);
      },
      some (
          codes "failed to get rabbitmq client for connection: "
          ++ d.dispatching.connection_string),
    )
    | some (w, client) ↦
        conclude d s (publish_and_go_on msg d.dispatching (ensure_with_retry w client))
  ]

  -- Dispatch.
  unfoldable pub dispatch {κ} :
      {C : Type κ}
      → WhatsappMessage C
      → Destination
      → Delivery P W
      → Destination × Delivery P W × Option Text
  unfolding transport send_webhook send_rabbitmq
  dispatch msg d s = elim (transport d.dispatching) [
    | some post_webhook ↦ send_webhook d s
    | some publish_rabbitmq ↦ send_rabbitmq msg d s
    | none ↦ (d, s, some (codes "unsupported dispatching type: " ++ d.dispatching.type))
  ]

  -- The loop of PostToDispatchingFromServer, with the destinations as it leaves them and those
  -- called, each with its error; `none` is a panic of an option.
  unfoldable pub post_all {κ} :
      {C : Type κ}
      → WhatsappMessage C
      → List Destination
      → Delivery P W
      → Option (List Destination × Delivery P W × List (QpDispatching × Option Text))
  unfolding dispatch accepts
  post_all msg [] s = some ([], s, [])
  post_all msg (d ∷ ds) s =
      let (d', s', error) = dispatch msg d s in
      let called = post_all msg ds s' in
      let skipped = post_all msg ds s in
      accepts d.dispatching msg >>= (λ accepted.
        if accepted
        then called >>= (λ (ds', t, calls). some (d' ∷ ds', t, (d.dispatching, error) ∷ calls))
        else skipped >>= (λ (ds', t, calls). some (d ∷ ds', t, calls)))
