-- ===== src/Conflict.antt =====
-- models/qp_cache_fuck_unoapi.go: whether a message whose id is in the cache already is new. The
-- message of the package waE2E is a type `M` behind the record `E2E`, a parameter: what is read of it, the
-- writes of nil to its fields, on a clone, and reflect.DeepEqual. `as_e2e` is the two type assertions.
mod Redelivery
mod Tests
use quepasa.Prelude.{
  ℕ, zero, suc, ◌+◌, ◌-◌, ◌*◌, ◌/◌, ◌%◌, ◌^◌, ◌≤◌, ◌<◌, String, ◌≡◌, refl, sym, ap, ◌∙◌, ◌≢◌, ◌↔◌,
  ◌⊎◌, inl, inr, Bool, true, false, ◌&&◌, ◌||◌, not, Option, none, some, List, [], ◌∷◌, ◌++◌, map,
  arith, ltb, leb, ◌==◌, if◌then◌else◌, ltb→lt, lt→ltb, leb→le, le→leb, ==_iff, not_zero, tests,
  Bool-cases, Option-cases, sum-cases, is_some, length, get_elem?, take, drop, length-append,
  drop-append, length-take-le, All, ℤ, pos, negsuc, int_eq, int_eq_iff, ne_of_int_eq, All-append,
  ◌>>=◌,
}
use quepasa.Strings.{
  Text, codes, same, contains, has_prefix, has_suffix, contains_text, without, trim_left, trim,
  split, before, is_space, trim_space, to_upper, to_lower, is_digit, upper, lower, trim_space_left,
  trim_space_right,
}

pub record E2E {ℓ} (M : Type ℓ) : Type ℓ where
  pub extended_text : M → Option Text
  pub conversation : M → Text
  pub to_string : M → Text
  pub has_context_info : M → Bool
  pub clear_delays : M → M
  pub clear_message_context : M → M
  pub deep_equal : M → M → Bool

module _ {ℓ} {M : Type ℓ} (e2e : E2E M) where
  -- prevContent and newContent.
  unfoldable pub content : M → Text
  content m = elim (e2e.extended_text m) [
    | some text ↦ text
    | none ↦ if ltb 0 (length (e2e.conversation m)) then e2e.conversation m else e2e.to_string m
  ]

  -- A clone without the volatile fields.
  unfoldable pub settled : M → M
  settled m = e2e.clear_message_context (if e2e.has_context_info m then e2e.clear_delays m else m)

  -- The answer on two messages, the new one first.
  unfoldable pub differ : M → M → Bool
  unfolding content settled same
  differ new previous =
      if not (same (content previous) (content new))
      then true
      else if is_some (e2e.extended_text previous) && is_some (e2e.extended_text new)
      then not (e2e.deep_equal (settled previous) (settled new))
      else false

module _ {ℓ κ} {M : Type ℓ} {V : Type κ} (e2e : E2E M) (as_e2e : V → Option M) where
  unfoldable pub validate_item : Text → V → V → Bool
  unfolding differ has_prefix
  validate_item from item previous =
      if has_prefix from (codes "message")
      then elim (as_e2e item) [
        | none ↦ true
        | some new ↦ elim (as_e2e previous) [ none ↦ true | some old ↦ differ e2e new old ]
      ]
      else true
