-- ===== src/Cache/Sorting.antt =====
-- library/cache.go, GetOrdered: one way to order the items by expiration, insertion sort.
use mathlib.Core.List.{Permᴰ}
use mathlib.Core.List.Permᴰ
use quepasa.Prelude.{
  ℕ, ◌≤◌, refl, inl, inr, List, [], ◌∷◌, arith, leb, if◌then◌else◌, leb→le, Bool-cases, All,
}
use quepasa.Cache.{CacheItem, Arrangement, Ordered}

module _ {ℓ} {V : Type ℓ} where
  unfoldable pub insert : CacheItem V → List (CacheItem V) → List (CacheItem V)
  insert x [] = x ∷ []
  insert x (y ∷ m) =
      let rest = insert x m in if leb x.expiration y.expiration then x ∷ y ∷ m else y ∷ rest

  unfoldable pub sort : List (CacheItem V) → List (CacheItem V)
  unfolding insert
  sort [] = []
  sort (x ∷ m) = insert x (sort m)

  pub insert-perm : (x : CacheItem V) (m : List (CacheItem V)) → Permᴰ (x ∷ m) (insert x m)
  unfolding insert
  insert-perm x [] = Permᴰ.refl _
  insert-perm x (y ∷ m) = elim (Bool-cases (leb x.expiration y.expiration)) [
    | inl e ↦ rw e (Permᴰ.refl _)
    | inr e ↦ rw e (Permᴰ.trans (Permᴰ.swap refl refl) (Permᴰ.cons refl (insert-perm x m)))
  ]

  pub sort-perm : (m : List (CacheItem V)) → Permᴰ m (sort m)
  unfolding sort
  sort-perm [] = Permᴰ.nil
  sort-perm (x ∷ m) = Permᴰ.trans (Permᴰ.cons refl (sort-perm m)) (insert-perm x (sort m))

  All-insert :
      (P : CacheItem V → Type 0) (x : CacheItem V) (m : List (CacheItem V))
      → P x
      → All P m
      → All P (insert x m)
  unfolding insert
  All-insert P x [] p h = (p, tt)
  All-insert P x (y ∷ m) p h = elim (Bool-cases (leb x.expiration y.expiration)) [
    | inl e ↦ rw e (p, h)
    | inr e ↦ rw e (h.0, All-insert P x m p h.1)
  ]

  All-le :
      (a b : ℕ) (m : List (CacheItem V))
      → a ≤ b
      → All (λ y. b ≤ y.expiration) m
      → All (λ y. a ≤ y.expiration) m
  All-le a b [] h k = tt
  All-le a b (x ∷ m) h k = (omega arith, All-le a b m h k.1)

  pub insert-Ordered : (x : CacheItem V) (m : List (CacheItem V)) → Ordered m → Ordered (insert x m)
  unfolding insert
  insert-Ordered x [] o = (tt, tt)
  insert-Ordered x (y ∷ m) o = elim (Bool-cases (leb x.expiration y.expiration)) [
    | inl e ↦ let h = leb→le _ _ e in rw e ((h, All-le x.expiration y.expiration m h o.0), o)
    | inr e ↦
        let h : y.expiration ≤ x.expiration = ground arith in
        rw e (All-insert (λ z. y.expiration ≤ z.expiration) x m h o.0, insert-Ordered x m o.1)
  ]

  pub sort-Ordered : (m : List (CacheItem V)) → Ordered (sort m)
  unfolding sort
  sort-Ordered [] = tt
  sort-Ordered (x ∷ m) = insert-Ordered x (sort m) (sort-Ordered m)

  abbrev pub by_expiration : Arrangement V
  by_expiration = record {
    get_ordered = sort;
    get_ordered-perm = sort-perm;
    get_ordered-Ordered = sort-Ordered;
  }
