-- ===== src/Delivery/Queues.antt =====
-- models/qp_dispatching.go, rabbitmq/rabbitmq_defaults.go: what a sending to a queue leaves.
use quepasa.Prelude.{◌≡◌, ◌≢◌, ◌⊎◌, true, false, Option, none, some, [], ◌∷◌, ◌++◌, is_some}
use quepasa.Strings.{Text}
use quepasa.Maps.{lookup}
use quepasa.RabbitMq.{RabbitMqClient}
use quepasa.Delivery.{Delivery, Destination, message_cached, lookup}

module _ {ℓ} {P : Type ℓ} {W : Type 0} where
  -- What a sending to a queue leaves, by whether its client has a channel afterwards.
  pub record IsSent (d : Destination) (s : Delivery P W) (client : RabbitMqClient P)
      (result : Destination × Delivery P W × Option Text) : Type ℓ where
    pub kept : lookup d.dispatching.connection_string result.1.clients ≡ some client
    pub others :
        (other : Text)
        → d.dispatching.connection_string ≢ other
        → lookup other result.1.clients ≡ lookup other s.clients
    pub outcome :
        ((client.channel ≡ true)
          × (result.2 ≡ none)
          × (result.0.failure ≡ none)
          × (is_some result.0.success ≡ true)
          × (result.1.exceptions ≡ []))
        ⊎ ((client.channel ≡ false)
            × (is_some result.2 ≡ true)
            × (is_some result.0.failure ≡ true)
            × (result.0.success ≡ none)
            × (result.1.exceptions ≡ s.exceptions ++ (message_cached ∷ [])))
