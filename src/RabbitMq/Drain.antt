-- ===== src/RabbitMq/Drain.antt =====
-- rabbitmq/rabbitmq_client.go: the inner loop of `processCache`, where nothing comes between and the
-- channel stays.
use quepasa.Prelude.{
  ◌≡◌, refl, ap, ◌⊎◌, inl, inr, Bool, true, false, Option, none, some, List, [], ◌∷◌, ◌++◌,
  if◌then◌else◌, Option-cases, is_some,
}
use quepasa.Strings.{Text}
use quepasa.RabbitMq.{RabbitMqMessage}

-- What the loop leaves: the broker, the messages sent and those not marshalled, and the cache.
pub record Drained {ℓ} (P : Type ℓ) (B : Type 0) : Type ℓ where
  pub broker : B
  pub sent : List (RabbitMqMessage P)
  pub lost : List (RabbitMqMessage P)
  pub left : List (RabbitMqMessage P)

module _ {ℓ} {P : Type ℓ} {B : Type 0} (marshal : RabbitMqMessage P → Option Text)
    (publish : RabbitMqMessage P → B → B × Option Text) where
  -- A message that the broker refuses goes back, behind the others: there is room where it stood.
  unfoldable pub drain : List (RabbitMqMessage P) → B → Drained P B
  drain [] b = record { broker = b; sent = []; lost = []; left = [] }
  drain (msg ∷ rest) b =
      let (b', answer) = publish msg b in
      let skipping = drain rest b in
      let going = drain rest b' in
      elim (marshal msg) [
        | none ↦ record skipping { lost = msg ∷ skipping.lost }
        | some json ↦ elim answer [
          | none ↦ record going { sent = msg ∷ going.sent }
          | some error ↦ record { broker = b'; sent = []; lost = []; left = rest ++ (msg ∷ []) }
        ]
      ]

  -- The messages of a list that can be marshalled, and the others, in their order.
  unfoldable pub marshalled : Bool → List (RabbitMqMessage P) → List (RabbitMqMessage P)
  marshalled which [] = []
  marshalled which (msg ∷ rest) =
      let others = marshalled which rest in
      if is_some (marshal msg)
      then (if which then msg ∷ others else others)
      else (if which then others else msg ∷ others)

  drain_skip :
      (msg : RabbitMqMessage P) (cache : List (RabbitMqMessage P)) (b : B)
      → marshal msg ≡ none
      → drain (msg ∷ cache) b ≡ record (drain cache b) { lost = msg ∷ (drain cache b).lost }
  unfolding drain
  drain_skip msg cache b e = rw (e, drain) refl

  drain_send :
      (msg : RabbitMqMessage P) (cache : List (RabbitMqMessage P)) (b : B) {json : Text}
      → marshal msg ≡ some json
      → (publish msg b).1 ≡ none
      → drain (msg ∷ cache) b ≡ record (drain cache (publish msg b).0) {
        sent = msg ∷ (drain cache (publish msg b).0).sent;
      }
  unfolding drain
  drain_send msg cache b e ok = rw (e, ok, drain) refl

  drain_refuse :
      (msg : RabbitMqMessage P) (cache : List (RabbitMqMessage P)) (b : B) {json error : Text}
      → marshal msg ≡ some json
      → (publish msg b).1 ≡ some error
      → drain (msg ∷ cache) b
        ≡ record { broker = (publish msg b).0; sent = []; lost = []; left = cache ++ (msg ∷ []) }
  unfolding drain
  drain_refuse msg cache b e bad = rw (e, bad, drain) refl

  -- The broker behind the messages of a list: those that cannot be marshalled are not published.
  unfoldable pub broker_after : List (RabbitMqMessage P) → B → B
  broker_after [] b = b
  broker_after (msg ∷ msgs) b =
      broker_after msgs (if is_some (marshal msg) then (publish msg b).0 else b)

  -- The broker takes every message of a list that can be marshalled, one after the other.
  abbrev pub AreTaken : List (RabbitMqMessage P) → B → Type 0
  AreTaken [] b = Unit
  AreTaken (msg ∷ msgs) b =
      ((is_some (marshal msg) ≡ false) ⊎ ((publish msg b).1 ≡ none))
      × AreTaken msgs (if is_some (marshal msg) then (publish msg b).0 else b)

  -- How a pass over a cache ends whose first messages are taken: the cache is empty, or the next
  -- message can be marshalled, the broker refuses it, and it stands behind the later ones.
  abbrev pub EndsAtRefusal :
      List (RabbitMqMessage P) → List (RabbitMqMessage P) → B → Drained P B → Type ℓ
  EndsAtRefusal taken rest b result =
      ((rest ≡ []) × (result.left ≡ []) × (result.broker ≡ broker_after taken b))
      ⊎ ((msg : RabbitMqMessage P) × (later : List (RabbitMqMessage P)) × (error : Text) × (rest
            ≡ msg ∷ later)
          × (is_some (marshal msg) ≡ true)
          × ((publish msg (broker_after taken b)).1 ≡ some error)
          × (result.left ≡ later ++ (msg ∷ []))
          × (result.broker ≡ (publish msg (broker_after taken b)).0))

  -- The loop takes the messages in their order up to the first that the broker refuses: the broker
  -- takes each of them that can be marshalled, and these are sent and the others lost. If one is
  -- refused, it stands behind those that came after it, and all of these stay; if none is, the cache
  -- is empty.
  pub drain_lem :
      (cache : List (RabbitMqMessage P)) (b : B)
      → (taken : List (RabbitMqMessage P)) × (rest : List (RabbitMqMessage P)) × (cache
          ≡ taken ++ rest)
        × AreTaken taken b
        × ((drain cache b).sent ≡ marshalled true taken)
        × ((drain cache b).lost ≡ marshalled false taken)
        × EndsAtRefusal taken rest b (drain cache b)
  unfolding marshalled drain broker_after
  drain_lem [] b = ([], [], refl, tt, refl, refl, inl (refl, refl, refl))
  drain_lem (msg ∷ cache) b = elim (Option-cases (marshal msg)) [
    | inl e ↦
        let (taken, rest, whole, took, sent, lost, end) = drain_lem cache b in
        (
          msg ∷ taken,
          rest,
          ap (λ l. msg ∷ l) whole,
          rw e (inl refl, took),
          rw (drain_skip msg cache b e, e) sent,
          rw (drain_skip msg cache b e, e) (ap (λ l. msg ∷ l) lost),
          rw (drain_skip msg cache b e, e) end,
        )
    | inr (json, e) ↦ elim (Option-cases (publish msg b).1) [
      | inl ok ↦
          let (taken, rest, whole, took, sent, lost, end) = drain_lem cache (publish msg b).0 in
          (
            msg ∷ taken,
            rest,
            ap (λ l. msg ∷ l) whole,
            rw e (inr ok, took),
            rw (drain_send msg cache b e ok, e) (ap (λ l. msg ∷ l) sent),
            rw (drain_send msg cache b e ok, e) lost,
            rw (drain_send msg cache b e ok, e) end,
          )
      | inr (error, bad) ↦ (
        [],
        msg ∷ cache,
        refl,
        tt,
        rw (drain_refuse msg cache b e bad) refl,
        rw (drain_refuse msg cache b e bad) refl,
        rw (drain_refuse msg cache b e bad)
            (inr (msg, cache, error, refl, rw e refl, bad, refl, refl)),
      )
    ]
  ]
