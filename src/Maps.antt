-- ===== src/Maps.antt =====
-- Go's maps with strings as keys, as lists of keys and values: the reads, the writes and `delete` of the
-- modelled files. The order of the list is the order in which a `range` meets the entries.
use quepasa.Prelude.{
  ◌≡◌, refl, sym, ◌∙◌, ◌≢◌, inl, inr, true, false, Option, none, some, List, [], ◌∷◌, arith,
  if◌then◌else◌, Bool-cases, All,
}
use quepasa.Strings.{Text, same}
use quepasa.Strings.Laws.{same_iff, same_refl}

module _ {ℓ} {V : Type ℓ} where
  unfoldable pub lookup : Text → List (Text × V) → Option V
  unfolding same
  lookup key [] = none
  lookup key ((k, v) ∷ m) = let rest = lookup key m in if same k key then some v else rest

  unfoldable pub insert : Text → V → List (Text × V) → List (Text × V)
  unfolding same
  insert key value [] = (key, value) ∷ []
  insert key value ((k, v) ∷ m) =
      let rest = insert key value m in if same k key then (key, value) ∷ m else (k, v) ∷ rest

  unfoldable pub remove : Text → List (Text × V) → List (Text × V)
  unfolding same
  remove key [] = []
  remove key ((k, v) ∷ m) = let rest = remove key m in if same k key then rest else (k, v) ∷ rest

  -- No key stands twice.
  unfoldable pub AreDistinct : List (Text × V) → Type ℓ
  AreDistinct [] = Unit
  AreDistinct ((k, v) ∷ m) = (lookup k m ≡ none) × AreDistinct m

  pub lookup-insert :
      (key : Text) (v : V) (m : List (Text × V)) → lookup key (insert key v m) ≡ some v
  unfolding lookup insert
  lookup-insert key v [] = rw (same_refl key) refl
  lookup-insert key v ((k, w) ∷ m) = ground (arith, lookup-insert key v m, same_refl key)

  pub lookup-insert_other :
      (key other : Text) (v : V) (m : List (Text × V))
      → key ≢ other
      → lookup other (insert key v m) ≡ lookup other m
  unfolding lookup insert
  lookup-insert_other key other v [] h = ground (arith, same_iff key other)
  lookup-insert_other key other v ((k, w) ∷ m) h = ground (
    arith,
    lookup-insert_other key other v m h,
    same_iff key other,
    same_iff k other,
    same_iff k key,
  )

  pub lookup-remove : (key : Text) (m : List (Text × V)) → lookup key (remove key m) ≡ none
  unfolding lookup remove
  lookup-remove key [] = refl
  lookup-remove key ((k, w) ∷ m) = ground (arith, lookup-remove key m)

  pub lookup-remove_other :
      (key other : Text) (m : List (Text × V))
      → key ≢ other
      → lookup other (remove key m) ≡ lookup other m
  unfolding lookup remove
  lookup-remove_other key other [] h = refl
  lookup-remove_other key other ((k, w) ∷ m) h =
      ground (arith, lookup-remove_other key other m h, same_iff k other, same_iff k key)

  pub AreDistinct-insert :
      (key : Text) (v : V) (m : List (Text × V)) → AreDistinct m → AreDistinct (insert key v m)
  unfolding AreDistinct insert lookup
  AreDistinct-insert key v [] d = (refl, tt)
  AreDistinct-insert key v ((k, w) ∷ m) d = elim (Bool-cases (same k key)) [
    | inl e ↦ rw e (rw (← (same_iff k key).0 e) d.0, d.1)
    | inr e ↦ rw e (
      lookup-insert_other key k v m (λ q. ground (arith, e, same_iff k key, q)) ∙ d.0,
      AreDistinct-insert key v m d.1,
    )
  ]

  pub AreDistinct-remove :
      (key : Text) (m : List (Text × V)) → AreDistinct m → AreDistinct (remove key m)
  unfolding AreDistinct remove
  AreDistinct-remove key [] d = tt
  AreDistinct-remove key ((k, w) ∷ m) d = elim (Bool-cases (same k key)) [
    | inl e ↦ rw e (AreDistinct-remove key m d.1)
    | inr e ↦ rw e (
      lookup-remove_other key k m (λ q. ground (arith, e, same_iff k key)) ∙ d.0,
      AreDistinct-remove key m d.1,
    )
  ]

  pub All-insert {κ} :
      (P : Text × V → Type κ) (key : Text) (v : V) (m : List (Text × V))
      → P (key, v)
      → All P m
      → All P (insert key v m)
  unfolding insert
  All-insert P key v [] h a = (h, tt)
  All-insert P key v ((k, w) ∷ m) h a = elim (Bool-cases (same k key)) [
    | inl e ↦ rw e (h, a.1)
    | inr e ↦ rw e (a.0, All-insert P key v m h a.1)
  ]

  pub All-remove {κ} :
      (P : Text × V → Type κ) (key : Text) (m : List (Text × V)) → All P m → All P (remove key m)
  unfolding remove
  All-remove P key [] a = tt
  All-remove P key ((k, w) ∷ m) a = elim (Bool-cases (same k key)) [
    | inl e ↦ rw e (All-remove P key m a.1)
    | inr e ↦ rw e (a.0, All-remove P key m a.1)
  ]

  lookup_head :
      (key k : Text) (w : V) (m : List (Text × V)) {v : V}
      → same k key ≡ true
      → lookup key ((k, w) ∷ m) ≡ some v
      → w ≡ v
  unfolding lookup
  lookup_head key k w m e h = ground (arith, e, h)

  pub All-lookup {κ} :
      (P : Text × V → Type κ) (key : Text) (m : List (Text × V)) {v : V}
      → All P m
      → lookup key m ≡ some v
      → P (key, v)
  unfolding lookup
  All-lookup P key [] a h = absurd (ground (arith, h))
  All-lookup P key ((k, w) ∷ m) a h = elim (Bool-cases (same k key)) [
    | inl e ↦ rw (sym ((same_iff k key).0 e), sym (lookup_head key k w m e h)) a.0
    | inr e ↦ All-lookup P key m a.1 (ground (arith, e, h))
  ]

  -- What is left has another key.
  pub All-remove_other {κ μ} :
      (P : Text × V → Type κ) (Q : Text × V → Type μ) (key : Text) (m : List (Text × V))
      → ((e : Text × V) → same e.0 key ≡ false → P e → Q e)
      → All P m
      → All Q (remove key m)
  unfolding remove
  All-remove_other P Q key [] f a = tt
  All-remove_other P Q key ((k, w) ∷ m) f a = elim (Bool-cases (same k key)) [
    | inl e ↦ rw e (All-remove_other P Q key m f a.1)
    | inr e ↦ rw e (f (k, w) e a.0, All-remove_other P Q key m f a.1)
  ]
