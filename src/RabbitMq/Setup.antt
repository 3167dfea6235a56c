-- ===== src/RabbitMq/Setup.antt =====
-- rabbitmq/rabbitmq_client.go: `EnsureExchangeAndQueues` through the life of a connection.
use quepasa.Prelude.{
  ◌≡◌, refl, ap, ◌∙◌, ◌⊎◌, inl, inr, true, false, Option, none, some, List, [], ◌∷◌, Bool-cases,
  Option-cases, All,
}
use quepasa.Strings.{Text, codes, same}
use quepasa.RabbitMq.{
  RabbitMqClient, Declaration, exchange, declare, queue_declarations, ensure_exchange_and_queues,
  connection_lost, connect, connected, quepasa_exchange_name,
}

-- A call that declares answers for the whole list or stops at an error.
declare_lem :
    (answer : Declaration → Option Text) (ds : List Declaration)
    → (((declare answer ds).1 ≡ none)
        × ((declare answer ds).0 ≡ ds)
        × All (λ d. answer d ≡ none) ds)
      ⊎ ((e : Text) × ((declare answer ds).1 ≡ some e))
unfolding declare
declare_lem answer [] = inl (refl, refl, tt)
declare_lem answer (d ∷ ds) = elim (Option-cases (answer d)) [
  | inr (e, bad) ↦ inr (e, rw (bad, declare) refl)
  | inl ok ↦ elim (declare_lem answer ds) [
    | inl (no_error, made, all) ↦
        inl (rw (ok, declare) no_error, rw (ok, declare) (ap (λ l. d ∷ l) made), (ok, all))
    | inr (e, bad) ↦ inr (e, rw (ok, declare) bad)
  ]
]

module _ {ℓ} {P : Type ℓ} where
  -- The client after a call that succeeds.
  abbrev pub setup : RabbitMqClient P → RabbitMqClient P
  setup r = record r { quepasa_setup_done = true }

  ensure-setup_done :
      (answer : Declaration → Option Text) (queues : List (Text × Text)) (r : RabbitMqClient P)
      → r.quepasa_setup_done ≡ true
      → ensure_exchange_and_queues answer queues r ≡ (r, none, [])
  unfolding ensure_exchange_and_queues
  ensure-setup_done answer queues r h = rw h refl

  ensure-no_channel :
      (answer : Declaration → Option Text) (queues : List (Text × Text)) (r : RabbitMqClient P)
      → r.quepasa_setup_done ≡ false
      → r.channel ≡ false
      → ensure_exchange_and_queues answer queues r
        ≡ (r, some (codes "rabbitmq channel not available"), [])
  unfolding ensure_exchange_and_queues
  ensure-no_channel answer queues r h c = rw (h, c) refl

  ensure-refused :
      (answer : Declaration → Option Text) (queues : List (Text × Text)) (r : RabbitMqClient P)
      {e : Text}
      → r.quepasa_setup_done ≡ false
      → r.channel ≡ true
      → (declare answer (exchange quepasa_exchange_name ∷ queue_declarations queues)).1 ≡ some e
      → ((ensure_exchange_and_queues answer queues r).1 ≡ some e)
        × ((ensure_exchange_and_queues answer queues r).0 ≡ r)
  unfolding ensure_exchange_and_queues
  ensure-refused answer queues r h c bad = (rw (h, c, bad) refl, rw (h, c, bad) refl)

  ensure-declared :
      (answer : Declaration → Option Text) (queues : List (Text × Text)) (r : RabbitMqClient P)
      → r.quepasa_setup_done ≡ false
      → r.channel ≡ true
      → (declare answer (exchange quepasa_exchange_name ∷ queue_declarations queues)).1 ≡ none
      → ensure_exchange_and_queues answer queues r ≡ (
        setup r,
        none,
        (declare answer (exchange quepasa_exchange_name ∷ queue_declarations queues)).0,
      )
  unfolding ensure_exchange_and_queues
  ensure-declared answer queues r h c ok = rw (h, c, ok) refl

  -- A call on a client that is not set up either answers an error and leaves the client as it was,
  -- or there is a channel, it declares the exchange and every queue with its binding, the broker
  -- refuses none of them, and the client is set up: from then on a call declares nothing and answers
  -- no error, also after the connection is lost, until a connection is made, which makes the next
  -- call declare again.
  pub ensure_exchange_and_queues_lem :
      (answer answer' : Declaration → Option Text) (queues queues' : List (Text × Text))
      (r : RabbitMqClient P)
      → r.quepasa_setup_done ≡ false
      → ((e : Text) × ((ensure_exchange_and_queues answer queues r).1 ≡ some e)
          × ((ensure_exchange_and_queues answer queues r).0 ≡ r))
        ⊎ ((r.channel ≡ true)
            × (ensure_exchange_and_queues answer queues r
                ≡ (setup r, none, exchange quepasa_exchange_name ∷ queue_declarations queues))
            × All
                (λ d. answer d ≡ none)
                (exchange quepasa_exchange_name ∷ queue_declarations queues)
            × (ensure_exchange_and_queues answer' queues' (setup r) ≡ (setup r, none, []))
            × (ensure_exchange_and_queues answer' queues' (connection_lost (setup r))
                ≡ (connection_lost (setup r), none, []))
            × ((connect connected (connection_lost (setup r))).0.quepasa_setup_done ≡ false))
  unfolding connection_lost connect
  ensure_exchange_and_queues_lem answer answer' queues queues' r h = elim (Bool-cases r.channel) [
    | inr c ↦ inl (
      _,
      ap (λ p. p.1) (ensure-no_channel answer queues r h c),
      ap (λ p. p.0) (ensure-no_channel answer queues r h c),
    )
    | inl c ↦
        elim (declare_lem answer (exchange quepasa_exchange_name ∷ queue_declarations queues)) [
          | inr (e, bad) ↦
              let (error, same) = ensure-refused answer queues r h c bad in inl (e, error, same)
          | inl (ok, made, all) ↦ inr (
            c,
            ensure-declared answer queues r h c ok ∙ ap (λ l. (setup r, none, l)) made,
            all,
            ensure-setup_done answer' queues' _ refl,
            ensure-setup_done answer' queues' _ refl,
            refl,
          )
        ]
  ]
