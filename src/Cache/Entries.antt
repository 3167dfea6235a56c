-- ===== src/Cache/Entries.antt =====
-- The map of a cache: what the operations make of each key, and of the order of the items.
use mathlib.Core.List.{Permᴰ}
use mathlib.Core.List.Permᴰ
use quepasa.Prelude.{
  ◌+◌, ◌≡◌, refl, ◌∙◌, inl, inr, Bool, true, false, ◌||◌, none, some, List, [], ◌∷◌, arith,
  if◌then◌else◌, Bool-cases, is_some, length,
}
use quepasa.Strings.{Text, same}
use quepasa.Strings.Laws.{same_iff}
use quepasa.Cache.{CacheItem, load, store, delete}

module _ {ℓ} {V : Type ℓ} where
  unfoldable pub has_key : Text → List (CacheItem V) → Bool
  unfolding same
  has_key k [] = false
  has_key k (x ∷ m) = same x.key k || has_key k m

  pub has_key-load : (k : Text) (m : List (CacheItem V)) → is_some (load k m) ≡ has_key k m
  unfolding has_key load
  has_key-load k [] = refl
  has_key-load k (x ∷ m) = ground (arith, has_key-load k m)

  -- No key occurs twice.
  abbrev pub Distinct : List (CacheItem V) → Type 0
  Distinct [] = Unit
  Distinct (x ∷ m) = (has_key x.key m ≡ false) × Distinct m

  pub load-store :
      (item : CacheItem V) (m : List (CacheItem V)) (k : Text)
      → load k (store item m) ≡ (if same item.key k then some item else load k m)
  unfolding load store
  load-store item [] k = refl
  load-store item (x ∷ m) k =
      ground
        (arith, load-store item m k, same_iff x.key item.key, same_iff x.key k, same_iff item.key k)

  pub load-delete :
      (j : Text) (m : List (CacheItem V)) (k : Text)
      → load k (delete j m) ≡ (if same j k then none else load k m)
  unfolding load delete
  load-delete j [] k = ground arith
  load-delete j (x ∷ m) k =
      ground (arith, load-delete j m k, same_iff x.key j, same_iff x.key k, same_iff j k)

  pub has_key-store :
      (item : CacheItem V) (m : List (CacheItem V)) (k : Text)
      → has_key k (store item m) ≡ (same item.key k || has_key k m)
  has_key-store item m k =
      rw (← has_key-load k (store item m), load-store item m k) (ground (arith, has_key-load k m))

  pub has_key-delete :
      (j : Text) (m : List (CacheItem V)) (k : Text)
      → has_key k (delete j m) ≡ (if same j k then false else has_key k m)
  has_key-delete j m k =
      rw (← has_key-load k (delete j m), load-delete j m k) (ground (arith, has_key-load k m))

  pub store-Distinct :
      (item : CacheItem V) (m : List (CacheItem V)) → Distinct m → Distinct (store item m)
  unfolding store
  store-Distinct item [] d = (unfold has_key in refl, tt)
  store-Distinct item (x ∷ m) d = ground (
    arith,
    store-Distinct item m d.1,
    has_key-store item m x.key,
    same_iff x.key item.key,
    same_iff item.key x.key,
  )

  pub delete-Distinct : (k : Text) (m : List (CacheItem V)) → Distinct m → Distinct (delete k m)
  unfolding delete
  delete-Distinct k [] d = tt
  delete-Distinct k (x ∷ m) d = ground (arith, delete-Distinct k m d.1, has_key-delete k m x.key)

  pub delete_of_not-has_key :
      (k : Text) (m : List (CacheItem V)) → has_key k m ≡ false → delete k m ≡ m
  unfolding delete has_key
  delete_of_not-has_key k [] h = refl
  delete_of_not-has_key k (x ∷ m) h = ground (arith, delete_of_not-has_key k m)

  pub length-store :
      (item : CacheItem V) (m : List (CacheItem V))
      → length (store item m) ≡ (if has_key item.key m then length m else length m + 1)
  unfolding store has_key
  length-store item [] = omega arith
  length-store item (x ∷ m) = ground (arith, length-store item m)

  pub length-delete :
      (k : Text) (m : List (CacheItem V))
      → Distinct m
      → has_key k m ≡ true
      → length m ≡ length (delete k m) + 1
  unfolding delete has_key
  length-delete k [] d h = cc
  length-delete k (x ∷ m) d h =
      ground (arith, length-delete k m d.1, delete_of_not-has_key k m, same_iff x.key k)

  -- Rearranging the items.
  pub length-perm : {l m : List (CacheItem V)} → Permᴰ l m → length l ≡ length m
  length-perm Permᴰ.nil = refl
  length-perm (Permᴰ.cons e p) = omega (arith, length-perm p)
  length-perm (Permᴰ.swap e f) = refl
  length-perm (Permᴰ.trans p q) = length-perm p ∙ length-perm q

  pub has_key-perm : (k : Text) {l m : List (CacheItem V)} → Permᴰ l m → has_key k l ≡ has_key k m
  unfolding has_key
  has_key-perm k Permᴰ.nil = refl
  has_key-perm k (Permᴰ.cons e p) = rw (e, has_key-perm k p) refl
  has_key-perm k (Permᴰ.swap e f) = rw (e, f) (ground arith)
  has_key-perm k (Permᴰ.trans p q) = has_key-perm k p ∙ has_key-perm k q

  pub delete-perm :
      (k : Text) {l m : List (CacheItem V)} → Permᴰ l m → Permᴰ (delete k l) (delete k m)
  unfolding delete
  delete-perm k Permᴰ.nil = Permᴰ.nil
  delete-perm k (Permᴰ.cons {a} {b} e p) = rw (← e) (elim (Bool-cases (same a.key k)) [
    | inl hit ↦ rw hit (delete-perm k p)
    | inr miss ↦ rw miss (Permᴰ.cons refl (delete-perm k p))
  ])
  delete-perm k (Permᴰ.swap {a} {b} {a'} {b'} {l} e f) =
      rw (← e, ← f)
        (elim (Bool-cases (same a.key k)) [
          | inl hit ↦ rw hit (Permᴰ.refl _)
          | inr miss ↦ elim (Bool-cases (same b.key k)) [
            | inl hit ↦ rw (miss, hit) (Permᴰ.refl _)
            | inr miss' ↦ rw (miss, miss') (Permᴰ.swap refl refl)
          ]
        ])
  delete-perm k (Permᴰ.trans p q) = Permᴰ.trans (delete-perm k p) (delete-perm k q)

  swap_heads :
      (a b : CacheItem V) (l : List (CacheItem V)) → Distinct (a ∷ b ∷ l) → Distinct (b ∷ a ∷ l)
  unfolding has_key
  swap_heads a b l d = ground (arith, same_iff a.key b.key, same_iff b.key a.key)

  pub Distinct-perm : {l m : List (CacheItem V)} → Permᴰ l m → Distinct l → Distinct m
  Distinct-perm Permᴰ.nil d = tt
  Distinct-perm (Permᴰ.cons {a} e p) d =
      rw (← e) (rw (← has_key-perm a.key p) d.0, Distinct-perm p d.1)
  Distinct-perm (Permᴰ.swap {a} {b} {a'} {b'} {l} e f) d = rw (← e, ← f) (swap_heads a b l d)
  Distinct-perm (Permᴰ.trans p q) d = Distinct-perm q (Distinct-perm p d)
