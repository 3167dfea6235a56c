-- ===== src/RabbitMq/System/Deadlock.antt =====
-- rabbitmq/rabbitmq_client.go: `Close` may wait for ever for `processCache`.
use quepasa.Prelude.{◌≡◌, refl, true, false, Option, arith}
use quepasa.Strings.{Text}
use quepasa.RabbitMq.{RabbitMqMessage, RabbitMqClient, publish_message_to_exchange}
use quepasa.RabbitMq.System.{
  holding, exited, System, offer, may_finish_close, Step, publish, monitor_connect, monitor_ready,
  monitor_retry, monitor_lost, monitor_exit, processor_wake, processor_receive, processor_deliver,
  processor_exit, close, Reach, here, next,
}

module _ {ℓ} {P : Type ℓ} where
  -- The client is closed, the processor waits in GetChannel with the given message, there is no
  -- channel, and the monitor has left, so that nobody is left to connect.
  pub record IsDeadlocked (msg : RabbitMqMessage P) (s : System P) : Type ℓ where
    pub waits : s.processor ≡ holding msg
    pub no_channel : s.client.channel ≡ false
    pub nobody : s.monitor ≡ exited
    pub is_closed : s.closed ≡ true

  fate_of_caching-channel :
      (body answer : Option Text) (msg : RabbitMqMessage P) (r : RabbitMqClient P)
      → r.channel ≡ false
      → (publish_message_to_exchange body answer msg r).0.channel ≡ false
  unfolding publish_message_to_exchange
  fate_of_caching-channel body answer msg r h = ground arith

  offer-IsDeadlocked :
      (body answer : Option Text) (held msg : RabbitMqMessage P) (s : System P)
      → IsDeadlocked held s
      → IsDeadlocked held (offer body answer msg s)
  unfolding offer
  offer-IsDeadlocked body answer held msg s d = record {
    waits = ground (arith, d.waits);
    no_channel = ground (arith, d.no_channel);
    nobody = ground (arith, d.nobody);
    is_closed = ground (arith, d.is_closed);
  }

  Step-IsDeadlocked :
      {s t : System P} (held : RabbitMqMessage P)
      → Step s t
      → IsDeadlocked held s
      → IsDeadlocked held t
  Step-IsDeadlocked {s} held (publish body answer msg e) d =
      rw e (offer-IsDeadlocked body answer held msg s d)
  Step-IsDeadlocked held (monitor_connect answer m c e) d = absurd (ground (arith, m, d.nobody))
  Step-IsDeadlocked held (monitor_ready m c e) d = absurd (ground (arith, c, d.no_channel))
  Step-IsDeadlocked held (monitor_retry m e) d = absurd (ground (arith, m, d.nobody))
  Step-IsDeadlocked held (monitor_lost m e) d = absurd (ground (arith, m, d.nobody))
  Step-IsDeadlocked held (monitor_exit c m e) d = rw e (record {
    waits = d.waits;
    no_channel = d.no_channel;
    nobody = refl;
    is_closed = d.is_closed;
  })
  Step-IsDeadlocked held (processor_wake i c e) d = absurd (ground (arith, c, d.no_channel))
  Step-IsDeadlocked held (processor_receive body i e) d = absurd (ground (arith, i, d.waits))
  Step-IsDeadlocked held (processor_deliver answer msg h c e) d =
      absurd (ground (arith, c, d.no_channel))
  Step-IsDeadlocked held (processor_exit c i e) d = absurd (ground (arith, i, d.waits))
  Step-IsDeadlocked held (close c e) d = absurd (ground (arith, c, d.is_closed))

  Reach-IsDeadlocked :
      {s t : System P} (held : RabbitMqMessage P)
      → IsDeadlocked held s
      → Reach s t
      → IsDeadlocked held t
  Reach-IsDeadlocked held d here = d
  Reach-IsDeadlocked held d (next r st) = Step-IsDeadlocked held st (Reach-IsDeadlocked held d r)

  -- Once the client is closed, its processor waits in GetChannel with a message, there is no channel
  -- and the monitor has left, all of this stays so whatever the others do: the processor never lets go
  -- of that message, and `Close` never has both goroutines at their end.
  pub IsDeadlocked-forever :
      {s t : System P} (held : RabbitMqMessage P)
      → IsDeadlocked held s
      → Reach s t
      → IsDeadlocked held t × (may_finish_close t ≡ false)
  unfolding may_finish_close
  IsDeadlocked-forever held d r =
      let after = Reach-IsDeadlocked held d r in (after, rw (after.nobody, after.waits) refl)
