-- ===== src/Routing/Choice.antt =====
-- models/qp_whatsapp_server_extensions.go: the destinations that get a message are those that want it.
use quepasa.Prelude.{
  ℕ, ◌≡◌, refl, ◌≢◌, ◌↔◌, ◌⊎◌, inl, inr, Bool, true, false, ◌&&◌, ◌||◌, not, Option, some, List, [],
  ◌∷◌, arith, ◌==◌, if◌then◌else◌, ==_iff, Bool-cases, length, All, int_eq, int_eq_iff,
  ne_of_int_eq,
}
use quepasa.Strings.{Text, same}
use quepasa.Strings.Laws.{same_iff}
use quepasa.Whatsapp.Booleans.{WhatsappBoolean, IsDeclared, false_boolean, boolean}
use quepasa.Whatsapp.Options.Toggles.{AreDeclared}
use quepasa.Whatsapp.Message.{WhatsappMessage, from_group, from_broadcast}
use quepasa.Dispatching.{QpDispatching}
use quepasa.Routing.{refuses, is_call, is_read_receipt, forwards, accepts, post_to_dispatching}

-- What a destination asks for: no kind of message that its options turn off, and of the messages
-- that the server's own API sent only those that it wants forwarded and did not send itself.
pub record Wants {ℓ} {C : Type ℓ} (d : QpDispatching) (msg : WhatsappMessage C) : Type 0 where
  pub receipt : is_read_receipt msg ≡ true → d.options.read_receipts ≢ false_boolean
  pub groups : from_group msg ≡ true → d.options.groups ≢ false_boolean
  pub broadcasts : from_broadcast msg ≡ true → d.options.broadcasts ≢ false_boolean
  pub calls : is_call msg.type ≡ true → d.options.calls ≢ false_boolean
  pub internal :
      msg.from_internal ≡ true
      → (d.forward_internal ≡ true) × ((length d.track_id ≡ 0) ⊎ (d.track_id ≢ msg.track_id))

refuses_declared :
    (b : Bool) (v : WhatsappBoolean)
    → IsDeclared v
    → refuses b v ≡ some (b && int_eq v false_boolean)
unfolding refuses boolean
refuses_declared false v h = refl
refuses_declared true v (inl e) = rw e refl
refuses_declared true v (inr (inl e)) = rw e refl
refuses_declared true v (inr (inr e)) = rw e refl

not_refused :
    (b : Bool) (v : WhatsappBoolean)
    → ((b && int_eq v false_boolean) ≡ false) ↔ (b ≡ true → v ≢ false_boolean)
not_refused false v = (λ h k. absurd cc, λ h. refl)
not_refused true v =
    (λ h k. ne_of_int_eq v false_boolean h, λ h. ground (arith, int_eq_iff v false_boolean, h refl))

chain :
    (a b c e f : Bool)
    → ◌≡◌ {A = Option Bool}
        (if a
          then some false
          else if b
          then some false
          else if c
          then some false
          else if e
          then some false
          else some f)
        (some (not a && not b && not c && not e && f))
chain true b c e f = refl
chain false true c e f = refl
chain false false true e f = refl
chain false false false true f = refl
chain false false false false f = refl

all_five :
    (a b c e f : Bool)
    → ((not a && not b && not c && not e && f) ≡ true)
      ↔ ((a ≡ false) × (b ≡ false) × (c ≡ false) × (e ≡ false) × (f ≡ true))
all_five a b c e f = (λ h. ground arith, λ h. ground arith)

no_echo :
    (internal forward : Bool) (n : ℕ) (mine theirs : Text)
    → ((not internal || (forward && ((n == 0) || not (same mine theirs)))) ≡ true)
      ↔ (internal ≡ true → (forward ≡ true) × ((n ≡ 0) ⊎ (mine ≢ theirs)))
no_echo false forward n mine theirs = (λ h k. absurd cc, λ h. refl)
no_echo true false n mine theirs = (λ h k. absurd cc, λ h. (h refl).0)
no_echo true true n mine theirs = (
  (λ h k. elim (Bool-cases (n == 0)) [
    | inl e ↦ (refl, inl ((==_iff n 0).0 e))
    | inr e ↦ (refl, inr (λ q. ground (arith, h, e, (same_iff mine theirs).1 q)))
  ]),
  λ h. elim (h refl).1 [
    | inl z ↦ rw z refl
    | inr apart ↦ elim (Bool-cases (same mine theirs)) [
      | inl e ↦ absurd (apart ((same_iff mine theirs).0 e))
      | inr e ↦ ground (arith, e)
    ]
  ],
)

module _ {ℓ} {C : Type ℓ} (d : QpDispatching) (msg : WhatsappMessage C) where
  -- The tests, all at once.
  passes : Bool
  passes =
      not (is_read_receipt msg && int_eq d.options.read_receipts false_boolean)
      && not (from_group msg && int_eq d.options.groups false_boolean)
      && not (from_broadcast msg && int_eq d.options.broadcasts false_boolean)
      && not (is_call msg.type && int_eq d.options.calls false_boolean)
      && forwards d msg

  accepts-passes : AreDeclared d.options → accepts d msg ≡ some passes
  unfolding accepts passes
  accepts-passes v =
      rw
        (
          accepts,
          refuses_declared (is_read_receipt msg) _ v.read_receipts,
          refuses_declared (from_group msg) _ v.groups,
          refuses_declared (from_broadcast msg) _ v.broadcasts,
          refuses_declared (is_call msg.type) _ v.calls,
        )
        (chain _ _ _ _ (forwards d msg))

  passes-Wants : (passes ≡ true) ↔ Wants d msg
  unfolding passes forwards
  passes-Wants = (
    (λ h.
        let (receipt, groups, broadcasts, calls, forward) = (all_five _ _ _ _ _).0 h in
        record {
          receipt = (not_refused _ _).0 receipt;
          groups = (not_refused _ _).0 groups;
          broadcasts = (not_refused _ _).0 broadcasts;
          calls = (not_refused _ _).0 calls;
          internal = (no_echo _ _ _ _ _).0 forward;
        }),
    λ w. (all_five _ _ _ _ _).1 (
      (not_refused _ _).1 w.receipt,
      (not_refused _ _).1 w.groups,
      (not_refused _ _).1 w.broadcasts,
      (not_refused _ _).1 w.calls,
      (no_echo _ _ _ _ _).1 w.internal,
    ),
  )

-- The destinations of the first list are those of the second that want the message, in their order.
pub data Chosen {ℓ} {C : Type ℓ} (msg : WhatsappMessage C)
    : List QpDispatching → List QpDispatching → Type 0 where
  nobody : Chosen msg [] []
  called :
      {d : QpDispatching} {calls ds : List QpDispatching}
      → Wants d msg
      → Chosen msg calls ds
      → Chosen msg (d ∷ calls) (d ∷ ds)
  skipped :
      {d : QpDispatching} {calls ds : List QpDispatching}
      → (Wants d msg → ⊥)
      → Chosen msg calls ds
      → Chosen msg calls (d ∷ ds)

-- Where the options of every destination have declared values, a message is handed, without a panic,
-- to exactly the destinations that want it, each once and in their order.
pub post_to_dispatching-Chosen {ℓ} :
    {C : Type ℓ} (ds : List QpDispatching) (msg : WhatsappMessage C)
    → All (λ d. AreDeclared d.options) ds
    → (calls : List QpDispatching) × (post_to_dispatching ds msg ≡ some calls) × Chosen msg calls ds
unfolding post_to_dispatching
post_to_dispatching-Chosen [] msg v = ([], refl, nobody)
post_to_dispatching-Chosen (d ∷ ds) msg v =
    let (calls, sent, chosen) = post_to_dispatching-Chosen ds msg v.1 in
    elim (Bool-cases (passes d msg)) [
      | inl e ↦ (
        d ∷ calls,
        rw (accepts-passes d msg v.0, e, sent) refl,
        called ((passes-Wants d msg).0 e) chosen,
      )
      | inr e ↦ (
        calls,
        rw (accepts-passes d msg v.0, e, sent) refl,
        skipped (λ w. let yes = (passes-Wants d msg).1 w in ground (arith, e, yes)) chosen,
      )
    ]
