-- ===== src/RabbitMq/Tests.antt =====
-- rabbitmq/rabbitmq_client.go: runs of the client on concrete inputs.
use quepasa.Prelude.{
  ℕ, zero, suc, ◌%◌, ◌≡◌, refl, ◌⊎◌, inr, true, false, Option, none, some, List, [], ◌∷◌, ◌++◌,
  ◌==◌, if◌then◌else◌, All,
}
use quepasa.Strings.{Text, codes}
use quepasa.RabbitMq.{
  RabbitMqMessage, RabbitMqClient, connected, no_connection, Declaration, queue_declarations,
  standard_queues, exchange, quepasa_exchange_name, connect, connection_lost,
  ensure_exchange_and_queues,
}
use quepasa.RabbitMq.System.{
  System, initial, offer, dial, receive, lose_connection, draining, exited, publish,
  monitor_connect, monitor_lost, monitor_exit, processor_wake, processor_receive, close, Reach,
  here, next, may_finish_close,
}
use quepasa.RabbitMq.System.Conservation.{IsSound, Reach-IsSound}
use quepasa.RabbitMq.System.Deadlock.{IsDeadlocked, IsDeadlocked-forever}
use quepasa.RabbitMq.Drain.{drain, marshalled, AreTaken, EndsAtRefusal, drain_lem}
use quepasa.RabbitMq.Setup.{setup, ensure_exchange_and_queues_lem}

abbrev fresh : RabbitMqClient ℕ
fresh = record {
  conn = false;
  channel = false;
  message_cache = [];
  max_cache_size = 2;
  cache_processing = false;
  quepasa_setup_done = false;
}

abbrev message : ℕ → RabbitMqMessage ℕ
message n = record {
  id = n ∷ [];
  payload = n;
  timestamp = n;
  exchange = quepasa_exchange_name;
  routing_key = codes "prod";
}

-- Two messages are cached, the first is taken, the connection is lost, the client is closed, the
-- monitor fails to connect, and leaves.
abbrev offered_two : System ℕ
offered_two = offer none none (message 2) (offer none none (message 1) (initial fresh))

abbrev taken : System ℕ
taken = receive (some []) (record (dial connected offered_two) { processor = draining })

abbrev stuck : System ℕ
stuck = record (dial (no_connection []) (record (lose_connection taken) { closed = true })) {
  monitor = exited;
}

Reach-closed : Reach (initial fresh) (record (lose_connection taken) { closed = true })
unfolding offer dial receive lose_connection initial
Reach-closed =
    next
      (next
        (next
          (next
            (next
              (next (next here (publish none none (message 1) refl))
                (publish none none (message 2) refl))
              (monitor_connect connected refl refl refl))
            (processor_wake refl refl refl))
          (processor_receive (some []) refl refl))
        (monitor_lost refl refl))
      (close refl refl)

Reach-stuck : Reach (initial fresh) stuck
unfolding offer dial receive lose_connection initial
Reach-stuck =
    next (next Reach-closed (monitor_connect (no_connection []) refl refl refl))
      (monitor_exit refl (inr refl) refl)

Reach-IsSound_example : IsSound stuck
Reach-IsSound_example = Reach-IsSound fresh refl Reach-stuck

stuck-IsDeadlocked : IsDeadlocked (message 1) stuck
unfolding offer dial receive lose_connection initial
stuck-IsDeadlocked = record { waits = refl; no_channel = refl; nobody = refl; is_closed = refl }

IsDeadlocked-forever_example :
    IsDeadlocked (message 1) (offer none none (message 3) stuck)
    × (may_finish_close (offer none none (message 3) stuck) ≡ false)
IsDeadlocked-forever_example =
    IsDeadlocked-forever (message 1) stuck-IsDeadlocked
      (next here (publish none none (message 3) refl))

-- A broker that takes as many messages as its state says.
abbrev take_some : RabbitMqMessage ℕ → ℕ → ℕ × Option Text
take_some msg zero = (zero, some [])
take_some msg (suc n) = (n, none)

abbrev marshal_odd : RabbitMqMessage ℕ → Option Text
marshal_odd msg = if msg.payload % 2 == 1 then some [] else none

drains :
    (drain marshal_odd take_some (message 1 ∷ message 2 ∷ message 3 ∷ message 5 ∷ []) 1).left
    ≡ message 5 ∷ message 3 ∷ []
unfolding drain
drains = refl

abbrev abc : List (RabbitMqMessage ℕ)
abc = message 1 ∷ message 2 ∷ message 3 ∷ []

drain_lem_example :
    (taken : List (RabbitMqMessage ℕ)) × (rest : List (RabbitMqMessage ℕ)) × (abc ≡ taken ++ rest)
    × AreTaken marshal_odd take_some taken 1
    × ((drain marshal_odd take_some abc 1).sent ≡ marshalled marshal_odd take_some true taken)
    × ((drain marshal_odd take_some abc 1).lost ≡ marshalled marshal_odd take_some false taken)
    × EndsAtRefusal marshal_odd take_some taken rest 1 (drain marshal_odd take_some abc 1)
drain_lem_example = drain_lem marshal_odd take_some abc 1

abbrev ready : RabbitMqClient ℕ
ready = record fresh { conn = true; channel = true }

-- A broker that accepts, and one that refuses, every declaration.
abbrev accepts : Declaration → Option Text
accepts d = none

abbrev refuses : Declaration → Option Text
refuses d = some []

ensure_exchange_and_queues_lem_example :
    ((e : Text) × ((ensure_exchange_and_queues accepts standard_queues ready).1 ≡ some e)
      × ((ensure_exchange_and_queues accepts standard_queues ready).0 ≡ ready))
    ⊎ ((true ≡ true)
        × (ensure_exchange_and_queues accepts standard_queues ready ≡ (
          setup ready,
          none,
          exchange quepasa_exchange_name ∷ queue_declarations standard_queues,
        ))
        × All
            (λ d. accepts d ≡ none)
            (exchange quepasa_exchange_name ∷ queue_declarations standard_queues)
        × (ensure_exchange_and_queues refuses [] (setup ready) ≡ (setup ready, none, []))
        × (ensure_exchange_and_queues refuses [] (connection_lost (setup ready))
            ≡ (connection_lost (setup ready), none, []))
        × ((connect connected (connection_lost (setup ready))).0.quepasa_setup_done ≡ false))
ensure_exchange_and_queues_lem_example =
    ensure_exchange_and_queues_lem accepts refuses standard_queues [] ready refl
