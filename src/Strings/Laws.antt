-- ===== src/Strings/Laws.antt =====
-- The laws of the string functions that the components share.
use quepasa.Prelude.{
  ℕ, ◌-◌, ◌≡◌, refl, ◌↔◌, true, false, [], ◌∷◌, ◌++◌, arith, length, length-append, drop-append,
  All,
}
use quepasa.Strings.{
  Text, same, contains, has_prefix, has_suffix, without, trim_left, split, before, is_space,
  trim_space, to_upper, upper, trim_space_right,
}

eq_of_same : (s t : Text) → same s t ≡ true → s ≡ t
unfolding same
eq_of_same [] [] h = refl
eq_of_same [] (d ∷ t) h = cc
eq_of_same (c ∷ s) [] h = cc
eq_of_same (c ∷ s) (d ∷ t) h = ground (arith, eq_of_same s t)

pub same_refl : (s : Text) → same s s ≡ true
unfolding same
same_refl [] = refl
same_refl (c ∷ s) = ground (arith, same_refl s)

-- Comparing strings decides their equality.
pub same_iff : (s t : Text) → (same s t ≡ true) ↔ (s ≡ t)
same_iff s t = (eq_of_same s t, λ e. rw e (same_refl t))

pub contains-append : (s t : Text) (c : ℕ) → contains t c ≡ true → contains (s ++ t) c ≡ true
unfolding contains
contains-append [] t c h = h
contains-append (d ∷ s) t c h = ground (arith, contains-append s t c)

-- Removing a byte leaves none.
pub contains-without : (c : ℕ) (s : Text) → contains (without c s) c ≡ false
unfolding contains without
contains-without c [] = refl
contains-without c (d ∷ s) = ground (arith, contains-without c s)

-- Removing a byte that is not there changes nothing.
pub without_of_not-contains : (c : ℕ) (s : Text) → contains s c ≡ false → without c s ≡ s
unfolding contains without
without_of_not-contains c [] h = refl
without_of_not-contains c (d ∷ s) h = ground (arith, without_of_not-contains c s)

pub contains-append_eq :
    (s t : Text) (c : ℕ) → contains s c ≡ false → contains t c ≡ false → contains (s ++ t) c ≡ false
unfolding contains
contains-append_eq [] t c h k = k
contains-append_eq (d ∷ s) t c h k = ground (arith, contains-append_eq s t c)

pub contains-trim_left :
    (s : Text) (c d : ℕ) → contains s c ≡ false → contains (trim_left s d) c ≡ false
unfolding contains trim_left
contains-trim_left [] c d h = refl
contains-trim_left (e ∷ s) c d h = ground (arith, contains-trim_left s c d)

pub split_of_not-contains : (t : Text) (c : ℕ) → contains t c ≡ false → split t c ≡ t ∷ []
unfolding contains split
split_of_not-contains [] c h = refl
split_of_not-contains (d ∷ t) c h = ground (arith, split_of_not-contains t c)

-- The first two parts of a text whose first separator stands behind `s`.
pub split-append :
    (s t : Text) (c : ℕ)
    → contains s c ≡ false
    → contains t c ≡ false
    → split (s ++ c ∷ t) c ≡ s ∷ t ∷ []
unfolding contains split
split-append [] t c h k = ground (arith, split_of_not-contains t c)
split-append (d ∷ s) t c h k = ground (arith, split-append s t c)

pub has_suffix-append : (s p : Text) → has_suffix (s ++ p) p ≡ true
unfolding has_suffix
has_suffix-append s p =
    let e : length (s ++ p) - length p ≡ length s = omega (arith, length-append s p) in
    rw (e, drop-append s p) (ground (arith, same_refl p, length-append s p))

pub trim_left_idem : (s : Text) (c : ℕ) → trim_left (trim_left s c) c ≡ trim_left s c
unfolding trim_left
trim_left_idem [] c = refl
trim_left_idem (d ∷ s) c = ground (arith, trim_left_idem s c)

upper_idem : (c : ℕ) → upper (upper c) ≡ upper c
unfolding upper
upper_idem c = ground arith

pub to_upper_idem : (s : Text) → to_upper (to_upper s) ≡ to_upper s
unfolding to_upper
to_upper_idem [] = refl
to_upper_idem (c ∷ s) = cc (upper_idem c, to_upper_idem s)

pub before_of_not-contains : (s : Text) (c : ℕ) → contains s c ≡ false → before s c ≡ s
unfolding contains before
before_of_not-contains [] c h = refl
before_of_not-contains (d ∷ s) c h = ground (arith, before_of_not-contains s c)

pub before-append : (s t : Text) (c : ℕ) → contains s c ≡ false → before (s ++ c ∷ t) c ≡ s
unfolding contains before
before-append [] t c h = ground arith
before-append (d ∷ s) t c h = ground (arith, before-append s t c)

pub has_prefix-append_byte :
    (s t : Text) (c d : ℕ)
    → has_prefix s (c ∷ []) ≡ false
    → has_prefix (d ∷ []) (c ∷ []) ≡ false
    → has_prefix (s ++ d ∷ t) (c ∷ []) ≡ false
unfolding has_prefix
has_prefix-append_byte [] t c d h k = ground arith
has_prefix-append_byte (e ∷ s) t c d h k = ground arith

pub trim_left_of_not-has_prefix :
    (s : Text) (c : ℕ) → has_prefix s (c ∷ []) ≡ false → trim_left s c ≡ s
unfolding trim_left has_prefix
trim_left_of_not-has_prefix [] c h = refl
trim_left_of_not-has_prefix (d ∷ s) c h = ground arith

pub contains-append_false :
    (s t : Text) (c : ℕ)
    → contains (s ++ t) c ≡ false
    → (contains s c ≡ false) × (contains t c ≡ false)
unfolding contains
contains-append_false [] t c h = (refl, h)
contains-append_false (d ∷ s) t c h = ground (arith, contains-append_false s t c)

-- No byte is white space.
abbrev pub NoSpace : Text → Type 0
NoSpace s = All (λ c. is_space c ≡ false) s

trim_space_right_of_NoSpace : (s : Text) → NoSpace s → trim_space_right s ≡ s
unfolding trim_space_right
trim_space_right_of_NoSpace [] h = refl
trim_space_right_of_NoSpace (c ∷ []) h = rw h.0 refl
trim_space_right_of_NoSpace (c ∷ d ∷ s) h = rw (trim_space_right_of_NoSpace (d ∷ s) h.1) refl

-- Text with no white space is trimmed already.
pub trim_space_of_NoSpace : (s : Text) → NoSpace s → trim_space s ≡ s
unfolding trim_space
trim_space_of_NoSpace [] h = refl
trim_space_of_NoSpace (c ∷ s) h = rw h.0 (trim_space_right_of_NoSpace (c ∷ s) h)
