-- ===== src/RabbitMq/System.antt =====
-- rabbitmq/rabbitmq_client.go: the client with its two goroutines, `monitorConnection` and
-- `processCache`, and the calls of the others as steps in any order. Beside the client the system keeps
-- what was offered to it, what the broker took and what is lost. A step is what one goroutine does
-- between two points at which another can be seen: a send, a receive, a look at the channel.
pub mod Conservation
pub mod Deadlock
use quepasa.Prelude.{
  ℕ, zero, suc, ◌+◌, ◌-◌, ◌*◌, ◌/◌, ◌%◌, ◌^◌, ◌≤◌, ◌<◌, String, ◌≡◌, refl, sym, ap, ◌∙◌, ◌≢◌, ◌↔◌,
  ◌⊎◌, inl, inr, Bool, true, false, ◌&&◌, ◌||◌, not, Option, none, some, List, [], ◌∷◌, ◌++◌, map,
  arith, ltb, leb, ◌==◌, if◌then◌else◌, ltb→lt, lt→ltb, leb→le, le→leb, ==_iff, tests, Bool-cases,
  Option-cases, sum-cases, is_some, length, get_elem?, take, drop, length-append, drop-append,
  length-take-le, All, ℤ, pos, negsuc, int_eq, int_eq_iff, ne_of_int_eq, All-append, ◌>>=◌,
}
use quepasa.Strings.{
  Text, codes, same, contains, has_prefix, has_suffix, contains_text, without, trim_left, trim,
  split, before, is_space, trim_space, to_upper, to_lower, is_digit, upper, lower, trim_space_left,
  trim_space_right,
}
use quepasa.RabbitMq.{
  RabbitMqMessage, RabbitMqClient, Dial, Fate, published, cached, dropped, unmarshalable, connect,
  connection_lost, add_to_cache, publish_message_to_exchange,
}

-- Where `processCache` is: waiting for its timer, taking messages, or waiting in GetChannel with one
-- that it took.
pub data Processor {ℓ} (P : Type ℓ) : Type ℓ where
  unstarted idle draining stopped : Processor P
  holding : RabbitMqMessage P → Processor P

-- Where `monitorConnection` is: at the top of its loop, waiting for the connection to close, or for its
-- timer after a failure.
pub data Monitor : Type 0 where
  connecting watching retrying exited : Monitor

pub record System {ℓ} (P : Type ℓ) : Type ℓ where
  pub client : RabbitMqClient P
  pub processor : Processor P
  pub monitor : Monitor
  pub closed : Bool
  pub offered : List (RabbitMqMessage P)
  pub sent : List (RabbitMqMessage P)
  pub lost : List (RabbitMqMessage P)

after_dial : Option Text → Monitor
after_dial none = watching
after_dial (some error) = retrying

fate_of_putting_back : Bool → Fate
fate_of_putting_back true = cached
fate_of_putting_back false = dropped

module _ {ℓ} {P : Type ℓ} where
  unfoldable pub initial : RabbitMqClient P → System P
  initial client = record {
    client = client;
    processor = unstarted;
    monitor = connecting;
    closed = false;
    offered = [];
    sent = [];
    lost = [];
  }

  -- Where a message of the given fate goes.
  unfoldable pub account : RabbitMqMessage P → Fate → System P → System P
  account msg published s = record s { sent = s.sent ++ (msg ∷ []) }
  account msg cached s = s
  account msg dropped s = record s { lost = s.lost ++ (msg ∷ []) }
  account msg unmarshalable s = record s { lost = s.lost ++ (msg ∷ []) }

  unfoldable pub offer : Option Text → Option Text → RabbitMqMessage P → System P → System P
  unfolding account publish_message_to_exchange
  offer body answer msg s =
      let (client, fate) = publish_message_to_exchange body answer msg s.client in
      account msg fate (record s { client = client; offered = s.offered ++ (msg ∷ []) })

  started : Processor P → Processor P
  started unstarted = idle
  started p = p

  start_if : Option Text → Processor P → Processor P
  unfolding started
  start_if none p = started p
  start_if (some error) p = p

  unfoldable pub dial : Dial → System P → System P
  unfolding connect start_if after_dial
  dial answer s =
      let (client, error) = connect answer s.client in
      record s {
        client = client;
        processor = start_if error s.processor;
        monitor = after_dial error;
      }

  pub receive_from : List (RabbitMqMessage P) → Option Text → System P → System P
  receive_from [] body s = record s { processor = idle }
  receive_from (msg ∷ rest) none s = record s {
    client = record s.client { message_cache = rest };
    lost = s.lost ++ (msg ∷ []);
  }
  receive_from (msg ∷ rest) (some json) s = record s {
    client = record s.client { message_cache = rest };
    processor = holding msg;
  }

  -- `msg := <-r.messageCache` and json.Marshal.
  unfoldable pub receive : Option Text → System P → System P
  unfolding receive_from
  receive body s = receive_from s.client.message_cache body s

  -- Publish, with a channel at hand, and `if len(r.messageCache) == 0`.
  unfoldable pub deliver : Option Text → RabbitMqMessage P → System P → System P
  unfolding account add_to_cache fate_of_putting_back
  deliver answer msg s = elim answer [
    | none ↦
        account msg published
          (record s { processor = if length s.client.message_cache == 0 then idle else draining })
    | some error ↦
        let (client, kept) = add_to_cache msg s.client in
        account msg (fate_of_putting_back kept) (record s { client = client; processor = idle })
  ]

  unfoldable pub lose_connection : System P → System P
  unfolding connection_lost
  lose_connection s = record s { client = connection_lost s.client; monitor = connecting }

  -- `Close` waits for both goroutines after it has signalled them.
  unfoldable pub may_finish_close : System P → Bool
  may_finish_close s = elim s.monitor [
    | exited ↦ elim s.processor [ unstarted ↦ true | stopped ↦ true | _ ↦ false ]
    | _ ↦ false
  ]

  pub data Step (s t : System P) : Type ℓ where
    publish :
        (body answer : Option Text) (msg : RabbitMqMessage P)
        → t ≡ offer body answer msg s
        → Step s t
    monitor_connect :
        (answer : Dial)
        → s.monitor ≡ connecting
        → s.client.channel ≡ false
        → t ≡ dial answer s
        → Step s t
    monitor_ready :
        s.monitor ≡ connecting
        → s.client.channel ≡ true
        → t ≡ record s { monitor = watching }
        → Step s t
    monitor_retry : s.monitor ≡ retrying → t ≡ record s { monitor = connecting } → Step s t
    monitor_lost : s.monitor ≡ watching → t ≡ lose_connection s → Step s t
    monitor_exit :
        s.closed ≡ true
        → (s.monitor ≡ watching) ⊎ (s.monitor ≡ retrying)
        → t ≡ record s { monitor = exited }
        → Step s t
    processor_wake :
        s.processor ≡ idle
        → s.client.channel ≡ true
        → t ≡ record s { processor = draining }
        → Step s t
    processor_receive :
        (body : Option Text) → s.processor ≡ draining → t ≡ receive body s → Step s t
    processor_deliver :
        (answer : Option Text) (msg : RabbitMqMessage P)
        → s.processor ≡ holding msg
        → s.client.channel ≡ true
        → t ≡ deliver answer msg s
        → Step s t
    processor_exit :
        s.closed ≡ true → s.processor ≡ idle → t ≡ record s { processor = stopped } → Step s t
    close : s.closed ≡ false → t ≡ record s { closed = true } → Step s t

  pub data Reach (s : System P) : System P → Type ℓ where
    here : Reach s s
    next : {t u : System P} → Reach s t → Step t u → Reach s u
