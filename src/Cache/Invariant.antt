-- ===== src/Cache/Invariant.antt =====
-- The counter is the number of items, whatever the operations.
use quepasa.Prelude.{
  ℕ, ◌+◌, ◌-◌, ◌%◌, ◌^◌, ◌≡◌, refl, sym, ap, ◌∙◌, inl, inr, Bool, true, Option, none, some, List,
  [], ◌∷◌, arith, ltb, if◌then◌else◌, Bool-cases, Option-cases, is_some, length, take,
}
use quepasa.Strings.{Text, same}
use quepasa.Strings.Laws.{same_iff}
use mathlib.Core.Option
use quepasa.Cache.{
  update, write_through, CacheItem, Cache, Arrangement, load, empty, count, set_cache_item,
  delete_by_key, get_any, delete_keys, clean_up, rounds,
}
use quepasa.Cache.Entries.{
  has_key, has_key-load, Distinct, store-Distinct, delete-Distinct, length-store, length-delete,
  load-store, load-delete,
}

-- Each key has one item, and the counter counts the items, up to the wrap of a uint64.
pub record IsValid {ℓ} {V : Type ℓ} (c : Cache V) : Type 0 where
  pub distinct : Distinct c.cache_map
  pub counted : count c ≡ length c.cache_map % 2 ^ 64

module _ {ℓ} {V : Type ℓ} where
  pub empty-IsValid : IsValid (empty {V = V})
  unfolding empty count
  empty-IsValid = record { distinct = tt; counted = refl }

  set_cache_item-IsValid :
      (validate : CacheItem V → CacheItem V → Bool) (c : Cache V) (item : CacheItem V)
      → IsValid c
      → IsValid (set_cache_item validate c item).0
  unfolding set_cache_item count
  set_cache_item-IsValid validate c item v = elim (Option-cases (load item.key c.cache_map)) [
    | inl e ↦
        rw (e, set_cache_item)
          (record {
            distinct = store-Distinct item c.cache_map v.distinct;
            counted = ground (
              arith,
              length-store item c.cache_map,
              has_key-load item.key c.cache_map,
              v.counted,
            );
          })
    | inr (previous, e) ↦
        rw (e, set_cache_item)
          (record {
            distinct = store-Distinct item c.cache_map v.distinct;
            counted = ground (
              arith,
              length-store item c.cache_map,
              has_key-load item.key c.cache_map,
              v.counted,
            );
          })
  ]

  pub delete_by_key-IsValid : (c : Cache V) (k : Text) → IsValid c → IsValid (delete_by_key c k)
  unfolding delete_by_key count
  delete_by_key-IsValid c k v = elim (Bool-cases (is_some (load k c.cache_map))) [
    | inl e ↦
        let present : has_key k c.cache_map ≡ true = sym (has_key-load k c.cache_map) ∙ e in
        rw e (record {
          distinct = delete-Distinct k c.cache_map v.distinct;
          counted = omega (arith, length-delete k c.cache_map v.distinct present, v.counted);
        })
    | inr e ↦ rw e v
  ]

  get_any-IsValid : (now : ℕ) (c : Cache V) (k : Text) → IsValid c → IsValid (get_any now c k).1
  unfolding get_any
  get_any-IsValid now c k v = elim (Option-cases (load k c.cache_map)) [
    | inl e ↦ rw (e, get_any) v
    | inr (item, e) ↦ elim (Bool-cases (ltb now item.expiration)) [
      | inl fresh ↦ rw (e, get_any) (rw fresh v)
      | inr old ↦ rw (e, get_any) (rw old (delete_by_key-IsValid c k v))
    ]
  ]

  delete_keys-IsValid :
      (items : List (CacheItem V)) (c : Cache V) → IsValid c → IsValid (delete_keys items c)
  unfolding delete_keys
  delete_keys-IsValid [] c v = v
  delete_keys-IsValid (x ∷ items) c v =
      delete_keys-IsValid items (delete_by_key c x.key) (delete_by_key-IsValid c x.key v)

  clean_up-IsValid :
      (a : Arrangement V) (c : Cache V) (max : ℕ) → IsValid c → IsValid (clean_up a c max)
  unfolding clean_up
  clean_up-IsValid a c max v =
      let amount = (c.counter + 2 ^ 64 - max) % 2 ^ 64 in
      let deleted = delete_keys-IsValid (take (rounds amount) (a.get_ordered c.cache_map)) c v in
      elim (Bool-cases (ltb 0 max)) [
        | inl bounded ↦ elim (Bool-cases (ltb 0 amount)) [
          | inl over ↦ rw (bounded, over) deleted
          | inr under ↦ rw (bounded, under) v
        ]
        | inr unbounded ↦ rw unbounded v
      ]

  -- Every operation keeps one item for each key and the counter equal to the number of items.
  pub operations-IsValid :
      (validate : CacheItem V → CacheItem V → Bool) (a : Arrangement V) (c : Cache V)
      (item : CacheItem V) (k : Text) (now max : ℕ)
      → IsValid c
      → IsValid (set_cache_item validate c item).0
        × IsValid (delete_by_key c k)
        × IsValid (get_any now c k).1
        × IsValid (clean_up a c max)
  operations-IsValid validate a c item k now max v = (
    set_cache_item-IsValid validate c item v,
    delete_by_key-IsValid c k v,
    get_any-IsValid now c k v,
    clean_up-IsValid a c max v,
  )

  -- What a read answers, by the item under its key.
  pub look : ℕ → Option (CacheItem V) → Option V
  look now none = none
  look now (some item) = if ltb now item.expiration then some item.value else none

  pub get_any-look :
      (now : ℕ) (c : Cache V) (k : Text) → (get_any now c k).0 ≡ look now (load k c.cache_map)
  unfolding get_any look
  get_any-look now c k = ground arith

  load-set_cache_item :
      (validate : CacheItem V → CacheItem V → Bool) (c : Cache V) (item : CacheItem V) (k : Text)
      → load k (set_cache_item validate c item).0.cache_map
        ≡ (if same item.key k then some item else load k c.cache_map)
  unfolding set_cache_item
  load-set_cache_item validate c item k = ground (arith, load-store item c.cache_map k)

  -- Reading a key after a write: the item that was written, until it expires, and any other key as
  -- before.
  pub get_any-set_cache_item :
      (validate : CacheItem V → CacheItem V → Bool) (c : Cache V) (item : CacheItem V) (k : Text)
      (now : ℕ)
      → (get_any now (set_cache_item validate c item).0 k).0 ≡ (
          if same item.key k
          then (if ltb now item.expiration then some item.value else none)
          else (get_any now c k).0)
  unfolding look
  get_any-set_cache_item validate c item k now =
      rw
        (
          get_any-look now (set_cache_item validate c item).0 k,
          load-set_cache_item validate c item k,
          get_any-look now c k,
        )
        (ground arith)

  load-delete_by_key :
      (c : Cache V) (j k : Text)
      → load k (delete_by_key c j).cache_map ≡ (if same j k then none else load k c.cache_map)
  unfolding delete_by_key
  load-delete_by_key c j k = ground (arith, load-delete j c.cache_map k, same_iff j k)

  load-get_any :
      (now : ℕ) (c : Cache V) (k j : Text)
      → (get_any now c k).0 ≡ none
      → load j (get_any now c k).1.cache_map ≡ (if same k j then none else load j c.cache_map)
  unfolding get_any
  load-get_any now c k j e = ground (arith, load-delete_by_key c k j, same_iff k j)

  -- A read that finds nothing leaves nothing under its key, also for a clock that has gone back; it
  -- leaves every other key alone.
  pub get_any_expired :
      (c : Cache V) (k j : Text) (now later : ℕ)
      → (get_any now c k).0 ≡ none
      → (get_any later (get_any now c k).1 j).0 ≡ (if same k j then none else (get_any later c j).0)
  unfolding look
  get_any_expired c k j now later e =
      rw
        (get_any-look later (get_any now c k).1 j, load-get_any now c k j e, get_any-look later c j)
        (ground arith)

  missing :
      (c : Cache V) (k j : Text) (now : ℕ)
      → (get_any now c k).0 ≡ none
      → (if same k j then none else (get_any now c j).0) ≡ (get_any now c j).0
  missing c k j now e = elim (Bool-cases (same k j)) [
    | inl h ↦ rw (h, ← (same_iff k j).0 h) (sym e)
    | inr h ↦ rw h refl
  ]

  pub get_any_found :
      (c : Cache V) (k : Text) (now : ℕ) {v : V}
      → (get_any now c k).0 ≡ some v
      → (get_any now c k).1 ≡ c
  unfolding get_any
  get_any_found c k now e = ground arith

  -- Reading a key does not change what a read at the same time finds under any key.
  pub get_any_reread :
      (c : Cache V) (k j : Text) (now : ℕ)
      → (get_any now (get_any now c k).1 j).0 ≡ (get_any now c j).0
  get_any_reread c k j now = elim (Option-cases (get_any now c k).0) [
    | inl e ↦ get_any_expired c k j now now e ∙ missing c k j now e
    | inr (v, e) ↦ ap (λ s. (get_any now s j).0) (get_any_found c k now e)
  ]

  load-update :
      (f : V → V) (k : Text) (m : List (CacheItem V))
      → load k (update f k m)
        ≡ Option.map {A = CacheItem V} (λ x. record x { value = f x.value }) (load k m)
  unfolding load update
  load-update f k [] = refl
  load-update f k (x ∷ m) = ground (arith, load-update f k m)

  look-map :
      (f : V → V) (now : ℕ) (o : Option (CacheItem V))
      → look now (Option.map {A = CacheItem V} (λ x. record x { value = f x.value }) o)
        ≡ Option.map f (look now o)
  unfolding look
  look-map f now none = refl
  look-map f now (some x) = ground arith

  -- A write through the pointer under a key shows in every later read of the key.
  pub get_any-write_through :
      (f : V → V) (c : Cache V) (k : Text) (now : ℕ)
      → (get_any now (write_through f k c) k).0 ≡ Option.map f (get_any now c k).0
  unfolding write_through
  get_any-write_through f c k now =
      rw
        (
          get_any-look now (write_through f k c) k,
          load-update f k c.cache_map,
          look-map f now (load k c.cache_map),
          get_any-look now c k,
        )
        refl
