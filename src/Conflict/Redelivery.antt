-- ===== src/Conflict/Redelivery.antt =====
-- models/qp_cache_fuck_unoapi.go: a message that comes again with other delays is no new one.
use quepasa.Prelude.{
  ◌≡◌, refl, sym, ◌∙◌, ◌↔◌, ◌⊎◌, inl, inr, true, false, ◌&&◌, Option, none, some, arith, Bool-cases,
  Option-cases, is_some,
}
use quepasa.Strings.{Text, codes, same, has_prefix}
use quepasa.Strings.Laws.{same_iff}
use quepasa.Conflict.{E2E, content, settled, differ, validate_item}

-- What reflect.DeepEqual and the writes of nil promise, with a message taken apart into its delays, its
-- message context and all the rest: it compares these three, a write clears its own part, and
-- a message without a context info has no delays.
pub record AreFields {ℓ} {M : Type ℓ} {D X R : Type 0} (e2e : E2E M) (delays : M → D)
    (context : M → X) (rest : M → R) (no_delays : D) (no_context : X) : Type ℓ where
  pub deep_equal_iff :
      (a b : M)
      → (e2e.deep_equal a b ≡ true)
        ↔ ((delays a ≡ delays b) × (context a ≡ context b) × (rest a ≡ rest b))
  pub clear_delays-fields :
      (m : M)
      → e2e.has_context_info m ≡ true
      → (delays (e2e.clear_delays m) ≡ no_delays)
        × (context (e2e.clear_delays m) ≡ context m)
        × (rest (e2e.clear_delays m) ≡ rest m)
  pub clear_message_context-fields :
      (m : M)
      → (delays (e2e.clear_message_context m) ≡ delays m)
        × (context (e2e.clear_message_context m) ≡ no_context)
        × (rest (e2e.clear_message_context m) ≡ rest m)
  pub no_context_info : (m : M) → e2e.has_context_info m ≡ false → delays m ≡ no_delays

module _ {ℓ} {M : Type ℓ} {D X R : Type 0} (e2e : E2E M) (delays : M → D) (context : M → X)
    (rest : M → R) (no_delays : D) (no_context : X)
    (laws : AreFields e2e delays context rest no_delays no_context) where
  settled-fields :
      (m : M)
      → (delays (settled e2e m) ≡ no_delays)
        × (context (settled e2e m) ≡ no_context)
        × (rest (settled e2e m) ≡ rest m)
  unfolding settled
  settled-fields m = elim (Bool-cases (e2e.has_context_info m)) [
    | inl e ↦
        let (d, c, r) = laws.clear_delays-fields m e in
        let (d', c', r') = laws.clear_message_context-fields (e2e.clear_delays m) in
        rw (e, settled) (d' ∙ d, c', r' ∙ r)
    | inr e ↦
        let (d, c, r) = laws.clear_message_context-fields m in
        rw (e, settled) (d ∙ laws.no_context_info m e, c, r)
  ]

  -- Without the volatile fields two messages are equal exactly where their rests are.
  deep_equal-settled :
      (old new : M)
      → (e2e.deep_equal (settled e2e old) (settled e2e new) ≡ true) ↔ (rest old ≡ rest new)
  deep_equal-settled old new =
      let (d, c, r) = settled-fields old in
      let (d', c', r') = settled-fields new in
      let compared = laws.deep_equal_iff (settled e2e old) (settled e2e new) in
      (λ h. sym r ∙ (compared.0 h).2 ∙ r', λ h. compared.1 (d ∙ sym d', c ∙ sym c', r ∙ h ∙ sym r'))

  -- Two messages with the same content, and the same rest where both have an extended text.
  abbrev pub IsSame : M → M → Type 0
  IsSame new old =
      (content e2e old ≡ content e2e new)
      × (((is_some (e2e.extended_text old) && is_some (e2e.extended_text new)) ≡ false)
          ⊎ (rest old ≡ rest new))

  differ_iff : (new old : M) → (differ e2e new old ≡ false) ↔ IsSame new old
  unfolding differ
  differ_iff new old =
      let texts = is_some (e2e.extended_text old) && is_some (e2e.extended_text new) in
      let contents = same_iff (content e2e old) (content e2e new) in
      let equal = deep_equal-settled old new in
      elim (Bool-cases (same (content e2e old) (content e2e new))) [
        | inr a ↦
            (λ h. absurd (ground (arith, a, h)), λ h. absurd (ground (arith, a, contents.1 h.0)))
        | inl a ↦ elim (Bool-cases texts) [
          | inr b ↦ (λ h. (contents.0 a, inl b), λ h. rw (a, b) refl)
          | inl b ↦ elim (Bool-cases (e2e.deep_equal (settled e2e old) (settled e2e new))) [
            | inl c ↦ (λ h. (contents.0 a, inr (equal.0 c)), λ h. rw (a, b, c) refl)
            | inr c ↦ (
              λ h. absurd (ground (arith, a, b, c, h)),
              λ h. elim h.1 [
                | inl q ↦ absurd (ground (arith, b, q))
                | inr q ↦ absurd (ground (arith, c, equal.1 q))
              ],
            )
          ]
        ]
      ]

module _ {ℓ κ} {M : Type ℓ} {V : Type κ} {D X R : Type 0} (e2e : E2E M) (as_e2e : V → Option M)
    (delays : M → D) (context : M → X) (rest : M → R) (no_delays : D) (no_context : X)
    (laws : AreFields e2e delays context rest no_delays no_context) where
  -- An item repeats the one before, in a cache of messages: both are messages of the protocol, and
  -- they are the same.
  abbrev pub IsRepeat : Text → V → V → Type ℓ
  IsRepeat from item previous =
      (has_prefix from (codes "message") ≡ true)
      × ((new : M) × (old : M) × (as_e2e item ≡ some new)
          × (as_e2e previous ≡ some old)
          × IsSame e2e delays context rest no_delays no_context laws new old)

  validate_messages :
      (from : Text) (item previous : V) (new old : M)
      → has_prefix from (codes "message") ≡ true
      → as_e2e item ≡ some new
      → as_e2e previous ≡ some old
      → validate_item e2e as_e2e from item previous ≡ differ e2e new old
  unfolding validate_item
  validate_messages from item previous new old h a b = rw (validate_item, h, a, b) refl

  validate_others :
      (from : Text) (item previous : V)
      → (has_prefix from (codes "message") ≡ false)
        ⊎ (as_e2e item ≡ none)
        ⊎ (as_e2e previous ≡ none)
      → validate_item e2e as_e2e from item previous ≡ true
  unfolding validate_item
  validate_others from item previous (inl h) = rw (validate_item, h) refl
  validate_others from item previous (inr (inl a)) = ground (arith, a)
  validate_others from item previous (inr (inr b)) = ground (arith, b)

  -- An item is denied exactly where it repeats the one before: the cache is one of messages, both
  -- are messages of the protocol with the same content, and, where both have an extended text, they
  -- differ at most in their delays and their message context. Every other item is taken as new.
  pub validate_item-settled :
      (from : Text) (item previous : V)
      → (validate_item e2e as_e2e from item previous ≡ false) ↔ IsRepeat from item previous
  validate_item-settled from item previous = (
    λ denied. elim (Bool-cases (has_prefix from (codes "message"))) [
      | inr h ↦ absurd (ground (arith, denied, validate_others from item previous (inl h)))
      | inl h ↦ elim (Option-cases (as_e2e item)) [
        | inl a ↦ absurd (ground (arith, denied, validate_others from item previous (inr (inl a))))
        | inr (new, a) ↦ elim (Option-cases (as_e2e previous)) [
          | inl b ↦
              absurd (ground (arith, denied, validate_others from item previous (inr (inr b))))
          | inr (old, b) ↦
              let step = validate_messages from item previous new old h a b in
              let same_iff = differ_iff e2e delays context rest no_delays no_context laws new old in
              (h, (new, old, a, b, same_iff.0 (sym step ∙ denied)))
        ]
      ]
    ],
    λ (h, (new, old, a, b, s)).
        validate_messages from item previous new old h a b
        ∙ (differ_iff e2e delays context rest no_delays no_context laws new old).1 s,
  )
