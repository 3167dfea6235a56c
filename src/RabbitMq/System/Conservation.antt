-- ===== src/RabbitMq/System/Conservation.antt =====
-- rabbitmq/rabbitmq_client.go: no message is forgotten or sent twice, and the cache keeps its bound.
use quepasa.Prelude.{
  ℕ, suc, ◌+◌, ◌≤◌, ◌≡◌, refl, Bool, Option, none, some, List, [], ◌∷◌, ◌++◌, arith, if◌then◌else◌,
  length, length-append,
}
use quepasa.Strings.{Text}
use quepasa.RabbitMq.{RabbitMqMessage, RabbitMqClient, Dial, no_connection, no_channel, connected}
use quepasa.RabbitMq.System.{
  receive_from, Processor, unstarted, idle, draining, stopped, holding, System, initial, offer,
  dial, receive, deliver, lose_connection, Step, publish, monitor_connect, monitor_ready,
  monitor_retry, monitor_lost, monitor_exit, processor_wake, processor_receive, processor_deliver,
  processor_exit, close, Reach, here, next, started,
}

module _ {ℓ} {P : Type ℓ} where
  -- How many messages of a list are of a kind.
  unfoldable pub tally : (RabbitMqMessage P → Bool) → List (RabbitMqMessage P) → ℕ
  tally kind [] = 0
  tally kind (m ∷ ms) = let rest = tally kind ms in if kind m then suc rest else rest

  unfoldable pub in_hand : Processor P → List (RabbitMqMessage P)
  in_hand (holding msg) = msg ∷ []
  in_hand _ = []

  -- Every message that was offered is sent, lost, cached or in hand, and as often as it was offered;
  -- the cache is never above its size.
  pub record IsSound (s : System P) : Type ℓ where
    pub bounded : length s.client.message_cache ≤ s.client.max_cache_size
    pub conserved :
        (kind : RabbitMqMessage P → Bool)
        → tally kind s.offered
          ≡ tally kind s.sent
            + tally kind s.lost
            + tally kind s.client.message_cache
            + tally kind (in_hand s.processor)

  tally-append :
      (kind : RabbitMqMessage P → Bool) (xs ys : List (RabbitMqMessage P))
      → tally kind (xs ++ ys) ≡ tally kind xs + tally kind ys
  unfolding tally
  tally-append kind [] ys = omega arith
  tally-append kind (x ∷ xs) ys = ground (arith, tally-append kind xs ys)

  offer-IsSound :
      (body answer : Option Text) (msg : RabbitMqMessage P) (s : System P)
      → IsSound s
      → IsSound (offer body answer msg s)
  unfolding offer
  offer-IsSound body answer msg s v = record {
    bounded = ground (arith, v.bounded, length-append s.client.message_cache (msg ∷ []));
    conserved = λ kind. ground (
      arith,
      v.conserved kind,
      tally-append kind s.offered (msg ∷ []),
      tally-append kind s.sent (msg ∷ []),
      tally-append kind s.lost (msg ∷ []),
      tally-append kind s.client.message_cache (msg ∷ []),
    );
  }

  in_hand-started : (p : Processor P) → in_hand (started p) ≡ in_hand p
  unfolding started in_hand
  in_hand-started unstarted = refl
  in_hand-started idle = refl
  in_hand-started draining = refl
  in_hand-started stopped = refl
  in_hand-started (holding msg) = refl

  dial-IsSound : (answer : Dial) (s : System P) → IsSound s → IsSound (dial answer s)
  unfolding dial in_hand
  dial-IsSound (no_connection error) s v = record { bounded = v.bounded; conserved = v.conserved }
  dial-IsSound (no_channel error) s v = record { bounded = v.bounded; conserved = v.conserved }
  dial-IsSound connected s v = record {
    bounded = v.bounded;
    conserved = λ kind. rw (in_hand-started s.processor) (v.conserved kind);
  }

  receive_from-IsSound :
      (cached : List (RabbitMqMessage P)) (body : Option Text) (s : System P)
      → s.client.message_cache ≡ cached
      → s.processor ≡ draining
      → IsSound s
      → IsSound (receive_from cached body s)
  unfolding receive_from in_hand tally
  receive_from-IsSound [] body s c e v = record {
    bounded = v.bounded;
    conserved = λ kind. ground (arith, v.conserved kind);
  }
  receive_from-IsSound (msg ∷ rest) none s c e v = record {
    bounded = ground (arith, v.bounded);
    conserved = λ kind. ground (arith, v.conserved kind, tally-append kind s.lost (msg ∷ []));
  }
  receive_from-IsSound (msg ∷ rest) (some json) s c e v = record {
    bounded = ground (arith, v.bounded);
    conserved = λ kind. ground (arith, v.conserved kind);
  }

  deliver-IsSound :
      (answer : Option Text) (msg : RabbitMqMessage P) (s : System P)
      → s.processor ≡ holding msg
      → IsSound s
      → IsSound (deliver answer msg s)
  unfolding deliver in_hand tally
  deliver-IsSound answer msg s e v = record {
    bounded = ground (arith, v.bounded, length-append s.client.message_cache (msg ∷ []));
    conserved = λ kind. ground (
      arith,
      e,
      v.conserved kind,
      tally-append kind s.sent (msg ∷ []),
      tally-append kind s.lost (msg ∷ []),
      tally-append kind s.client.message_cache (msg ∷ []),
    );
  }

  lose_connection-IsSound : (s : System P) → IsSound s → IsSound (lose_connection s)
  unfolding lose_connection
  lose_connection-IsSound s v = record { bounded = v.bounded; conserved = v.conserved }

  Step-IsSound : {s t : System P} → Step s t → IsSound s → IsSound t
  unfolding in_hand receive
  Step-IsSound (publish body answer msg e) v = rw e (offer-IsSound body answer msg _ v)
  Step-IsSound (monitor_connect answer m c e) v = rw e (dial-IsSound answer _ v)
  Step-IsSound (monitor_ready m c e) v =
      rw e (record { bounded = v.bounded; conserved = v.conserved })
  Step-IsSound (monitor_retry m e) v =
      rw e (record { bounded = v.bounded; conserved = v.conserved })
  Step-IsSound (monitor_lost m e) v = rw e (lose_connection-IsSound _ v)
  Step-IsSound (monitor_exit c m e) v =
      rw e (record { bounded = v.bounded; conserved = v.conserved })
  Step-IsSound (processor_wake i c e) v =
      rw e (record { bounded = v.bounded; conserved = λ kind. ground (arith, i, v.conserved kind) })
  Step-IsSound {s} (processor_receive body d e) v =
      rw e (receive_from-IsSound s.client.message_cache body s refl d v)
  Step-IsSound (processor_deliver answer msg h c e) v = rw e (deliver-IsSound answer msg _ h v)
  Step-IsSound (processor_exit c i e) v =
      rw e (record { bounded = v.bounded; conserved = λ kind. ground (arith, i, v.conserved kind) })
  Step-IsSound (close c e) v = rw e (record { bounded = v.bounded; conserved = v.conserved })

  -- Whatever the goroutines do and in whatever order, and whatever the broker answers, from a new
  -- client on: every message that was offered is sent, lost, cached or in hand, as often as it was
  -- offered, and the cache is never above its size.
  pub Reach-IsSound :
      (client : RabbitMqClient P) {s : System P}
      → client.message_cache ≡ []
      → Reach (initial client) s
      → IsSound s
  unfolding initial tally in_hand
  Reach-IsSound client e here = record {
    bounded = ground (arith, e);
    conserved = λ kind. ground (arith, e);
  }
  Reach-IsSound client e (next r st) = Step-IsSound st (Reach-IsSound client e r)
