-- ===== src/Cache/Eviction.antt =====
-- What a clean-up leaves in a cache.
use Prim.Native.Nat.{min}
use mathlib.Core.List.{Permᴰ}
use quepasa.Prelude.{
  ℕ, zero, suc, ◌+◌, ◌-◌, ◌%◌, ◌^◌, ◌≤◌, ◌<◌, ◌≡◌, refl, ap, ◌∙◌, inl, inr, List, [], ◌∷◌, arith,
  ltb, lt→ltb, Bool-cases, length, take, drop, All,
}
use quepasa.Strings.{Text}
use quepasa.Strings.Laws.{same_refl}
use mathlib.Core.Path.{subst}
use quepasa.Cache.{
  CacheItem, Cache, Arrangement, Ordered, delete, count, delete_by_key, delete_keys, clean_up,
  rounds,
}
use quepasa.Cache.Entries.{
  has_key-load, Distinct, delete_of_not-has_key, delete-perm, length-perm, Distinct-perm,
}
use quepasa.Cache.Invariant.{IsValid}

module _ {ℓ} {V : Type ℓ} where
  length-drop : (n : ℕ) (xs : List (CacheItem V)) → length (drop n xs) ≡ length xs - n
  length-drop zero xs = omega arith
  length-drop (suc n) [] = omega arith
  length-drop (suc n) (x ∷ xs) = omega (arith, length-drop n xs)

  delete_by_key-delete :
      (c : Cache V) (k : Text) → (delete_by_key c k).cache_map ≡ delete k c.cache_map
  unfolding delete_by_key
  delete_by_key-delete c k =
      ground (arith, has_key-load k c.cache_map, delete_of_not-has_key k c.cache_map)

  delete_first :
      (x : CacheItem V) (m : List (CacheItem V)) → Distinct (x ∷ m) → delete x.key (x ∷ m) ≡ m
  unfolding delete
  delete_first x m d = rw (same_refl x.key) (delete_of_not-has_key x.key m d.0)

  -- The loop over the first items of an arrangement leaves the others.
  delete_keys-perm :
      (n : ℕ) (items : List (CacheItem V)) (c : Cache V)
      → Distinct items
      → Permᴰ c.cache_map items
      → Permᴰ (delete_keys (take n items) c).cache_map (drop n items)
  unfolding delete_keys
  delete_keys-perm zero items c d p = p
  delete_keys-perm (suc n) [] c d p = p
  delete_keys-perm (suc n) (x ∷ items) c d p =
      delete_keys-perm n items (delete_by_key c x.key) d.1 (
        rw (delete_by_key-delete c x.key) (
          subst (λ m. Permᴰ (delete x.key c.cache_map) m) (delete_first x items d)
            (delete-perm x.key p)))

  -- The rounds that `CleanUp` makes on a valid cache.
  excess : Cache V → ℕ → ℕ
  excess c max = (c.counter + 2 ^ 64 - max) % 2 ^ 64

  clean_up-delete_keys :
      (a : Arrangement V) (c : Cache V) (max : ℕ)
      → 0 < max
      → clean_up a c max ≡ delete_keys (take (rounds (excess c max)) (a.get_ordered c.cache_map)) c
  unfolding clean_up excess rounds delete_keys
  clean_up-delete_keys a c max h =
      let items = a.get_ordered c.cache_map in
      elim (Bool-cases (ltb 0 (excess c max))) [
        | inl over ↦ rw (lt→ltb 0 max h, over) refl
        | inr under ↦ let done : excess c max ≡ 0 = ground arith in rw (lt→ltb 0 max h, done) refl
      ]

  excess-sub :
      (c : Cache V) (max : ℕ)
      → IsValid c
      → length c.cache_map < 2 ^ 63
      → max ≤ 2 ^ 63
      → 0 < max
      → rounds (excess c max) ≡ length c.cache_map - max
  unfolding excess rounds count
  excess-sub c max v l h p =
      let e : c.counter ≡ length c.cache_map = omega (arith, v.counted) in rw e (ground arith)

  All-drop {κ} :
      (P : CacheItem V → Type κ) (n : ℕ) (items : List (CacheItem V))
      → All P items
      → All P (drop n items)
  All-drop P zero items h = h
  All-drop P (suc n) [] h = tt
  All-drop P (suc n) (x ∷ items) h = All-drop P n items h.1

  -- What stands before a place in an ordered list expires no later than what stands behind.
  Ordered-drop :
      (n : ℕ) (items : List (CacheItem V))
      → Ordered items
      → All (λ x. All (λ y. x.expiration ≤ y.expiration) (drop n items)) (take n items)
  Ordered-drop zero items o = tt
  Ordered-drop (suc n) [] o = tt
  Ordered-drop (suc n) (x ∷ items) o = (All-drop _ n items o.0, Ordered-drop n items o.1)

  -- With a limit `max` from 1 to 2^63, a clean-up of a valid cache with fewer than 2^63 items keeps, of
  -- its items in the order of expiration, the last `max`, or all if there are no more; none that it
  -- evicts expires later than one that it keeps.
  pub clean_up-drop :
      (a : Arrangement V) (c : Cache V) (max : ℕ)
      → IsValid c
      → length c.cache_map < 2 ^ 63
      → 0 < max
      → max ≤ 2 ^ 63
      → Permᴰ
          (clean_up a c max).cache_map
          (drop (length c.cache_map - max) (a.get_ordered c.cache_map))
        × (length (clean_up a c max).cache_map ≡ min (length c.cache_map) max)
        × All
            (λ x.
              All
                (λ y. x.expiration ≤ y.expiration)
                (drop (length c.cache_map - max) (a.get_ordered c.cache_map)))
            (take (length c.cache_map - max) (a.get_ordered c.cache_map))
  clean_up-drop a c max v l p h =
      let items = a.get_ordered c.cache_map in
      let arranged = a.get_ordered-perm c.cache_map in
      let n = length c.cache_map - max in
      let e : clean_up a c max ≡ delete_keys (take n items) c =
        clean_up-delete_keys a c max p
        ∙ ap (λ k. delete_keys (take k items) c) (excess-sub c max v l h p) in
      let kept = delete_keys-perm n items c (Distinct-perm arranged v.distinct) arranged in
      rw e (
        kept,
        omega (arith, length-perm kept, length-drop n items, length-perm arranged),
        Ordered-drop n items (a.get_ordered-Ordered c.cache_map),
      )

  nil_of_length : (m : List (CacheItem V)) → length m ≡ 0 → m ≡ []
  nil_of_length [] h = refl
  nil_of_length (x ∷ m) h = absurd (omega arith)

  excess-huge :
      (c : Cache V) (max : ℕ)
      → IsValid c
      → length c.cache_map + 2 ^ 63 < max
      → max < 2 ^ 64
      → length c.cache_map ≤ rounds (excess c max)
  unfolding excess rounds count
  excess-huge c max v l h =
      let e : c.counter ≡ length c.cache_map = omega (arith, v.counted) in rw e (ground arith)

  -- A limit so large that a signed int cannot hold how far it lies above the number of items makes a
  -- clean-up delete every item, though there is room for all.
  pub clean_up_huge :
      (a : Arrangement V) (c : Cache V) (max : ℕ)
      → IsValid c
      → length c.cache_map + 2 ^ 63 < max
      → max < 2 ^ 64
      → (clean_up a c max).cache_map ≡ []
  clean_up_huge a c max v l h =
      let items = a.get_ordered c.cache_map in
      let arranged = a.get_ordered-perm c.cache_map in
      let n = excess-huge c max v l h in
      let kept =
        delete_keys-perm (rounds (excess c max)) items c (Distinct-perm arranged v.distinct)
          arranged in
      rw (clean_up-delete_keys a c max (omega arith)) (
        nil_of_length _ (
          omega (
            arith,
            n,
            length-perm kept,
            length-drop (rounds (excess c max)) items,
            length-perm arranged,
          )))
