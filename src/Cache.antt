-- ===== src/Cache.antt =====
-- library/cache.go and models/qp_cache.go, which are the same but for what `SetCacheItem` returns
-- where the key was there before. The `sync.Map` is a list of items, one for each key; the counter
-- is a uint64 and wraps. The order in which a map is ranged over is not fixed, so `GetOrdered` is
-- the parameter `Arrangement`: the items in some order by expiration, as `sort.Sort` leaves them.
-- Times are numbers of nanoseconds, and the clock's reading is the argument `now`.
pub mod Entries
pub mod Invariant
pub mod Eviction
pub mod Sorting
mod Tests
use mathlib.Core.List.{Permᴰ}
use quepasa.Prelude.{
  ℕ, zero, suc, ◌+◌, ◌-◌, ◌*◌, ◌/◌, ◌%◌, ◌^◌, ◌≤◌, ◌<◌, String, ◌≡◌, refl, sym, ap, ◌∙◌, ◌≢◌, ◌↔◌,
  ◌⊎◌, inl, inr, Bool, true, false, ◌&&◌, ◌||◌, not, Option, none, some, List, [], ◌∷◌, ◌++◌, map,
  arith, ltb, leb, ◌==◌, if◌then◌else◌, ltb→lt, lt→ltb, leb→le, le→leb, ==_iff, tests, Bool-cases,
  Option-cases, is_some, length, get_elem?, take, drop, length-append, drop-append, length-take-le,
  All, ℤ, pos, negsuc, int_eq, int_eq_iff, ne_of_int_eq, All-append, ◌>>=◌,
}
use quepasa.Strings.{
  Text, codes, same, contains, has_prefix, has_suffix, contains_text, without, trim_left, trim,
  split, before, is_space, trim_space, to_upper, to_lower, is_digit, upper, lower, trim_space_left,
  trim_space_right,
}

pub record CacheItem {ℓ} (V : Type ℓ) : Type ℓ where
  pub key : Text
  pub value : V
  pub expiration : ℕ

pub record Cache {ℓ} (V : Type ℓ) : Type ℓ where
  pub counter : ℕ
  pub cache_map : List (CacheItem V)

module _ {ℓ} {V : Type ℓ} where
  -- cacheMap.Load
  pub load : Text → List (CacheItem V) → Option (CacheItem V)
  unfolding same
  load k [] = none
  load k (x ∷ m) = if same x.key k then some x else load k m

  -- cacheMap.Swap, the map
  pub store : CacheItem V → List (CacheItem V) → List (CacheItem V)
  unfolding same
  store item [] = item ∷ []
  store item (x ∷ m) = let rest = store item m in if same x.key item.key then item ∷ m else x ∷ rest

  -- cacheMap.LoadAndDelete, the map
  pub delete : Text → List (CacheItem V) → List (CacheItem V)
  unfolding same
  delete k [] = []
  delete k (x ∷ m) = let rest = delete k m in if same x.key k then rest else x ∷ rest

  unfoldable pub empty : Cache V
  empty = record { counter = 0; cache_map = [] }

  unfoldable pub count : Cache V → ℕ
  count source = source.counter

  -- `validate item previous` is the answer where the key was there: false in the package library,
  -- ValidateItemBecauseUNOAPIConflict in models.
  unfoldable pub set_cache_item :
      (CacheItem V → CacheItem V → Bool) → Cache V → CacheItem V → Cache V × Bool
  unfolding load store
  set_cache_item validate source item = elim (load item.key source.cache_map) [
    | none ↦ (
      record { counter = (source.counter + 1) % 2 ^ 64; cache_map = store item source.cache_map },
      true,
    )
    | some previous ↦
        (record source { cache_map = store item source.cache_map }, validate item previous)
  ]

  unfoldable pub set_any : (CacheItem V → CacheItem V → Bool) → ℕ → Cache V → Text → V → ℕ → Cache V
  unfolding set_cache_item
  set_any validate now source k v duration =
      (set_cache_item validate source
        (record { key = k; value = v; expiration = now + duration })).0

  unfoldable pub delete_by_key : Cache V → Text → Cache V
  unfolding load delete
  delete_by_key source k =
      if is_some (load k source.cache_map)
      then record {
        counter = (source.counter + (2 ^ 64 - 1)) % 2 ^ 64;
        cache_map = delete k source.cache_map;
      }
      else source

  unfoldable pub get_any : ℕ → Cache V → Text → Option V × Cache V
  unfolding load delete_by_key
  get_any now source k = elim (load k source.cache_map) [
    | none ↦ (none, source)
    | some item ↦
        if ltb now item.expiration
        then (some item.value, source)
        else (none, delete_by_key source k)
  ]

  -- A write through the pointer that is the value under a key.
  update : (V → V) → Text → List (CacheItem V) → List (CacheItem V)
  unfolding same
  update f k [] = []
  update f k (x ∷ m) =
      let rest = update f k m in
      if same x.key k then record x { value = f x.value } ∷ m else x ∷ rest

  unfoldable pub write_through : (V → V) → Text → Cache V → Cache V
  unfolding update
  write_through f k source = record source { cache_map = update f k source.cache_map }

  -- By expiration, the earliest first.
  abbrev pub Ordered : List (CacheItem V) → Type 0
  Ordered [] = Unit
  Ordered (x ∷ m) = All (λ y. x.expiration ≤ y.expiration) m × Ordered m

  -- The loop of `CleanUp`.
  pub delete_keys : List (CacheItem V) → Cache V → Cache V
  delete_keys [] source = source
  delete_keys (x ∷ items) source = delete_keys items (delete_by_key source x.key)

-- `GetOrdered`, from `Range` and `sort.Sort`: all items, by expiration.
pub record Arrangement {ℓ} (V : Type ℓ) : Type ℓ where
  pub get_ordered : List (CacheItem V) → List (CacheItem V)
  pub get_ordered-perm : (m : List (CacheItem V)) → Permᴰ m (get_ordered m)
  pub get_ordered-Ordered : (m : List (CacheItem V)) → Ordered (get_ordered m)

-- int(amount) as a number of rounds: a negative int gives none.
pub rounds : ℕ → ℕ
rounds amount = if ltb amount (2 ^ 63) then amount else 0

unfoldable pub clean_up {ℓ} : {V : Type ℓ} → Arrangement V → Cache V → ℕ → Cache V
unfolding delete_keys rounds
clean_up a source max =
    if ltb 0 max
    then (let amount = (source.counter + 2 ^ 64 - max) % 2 ^ 64 in
        if ltb 0 amount
        then delete_keys (take (rounds amount) (a.get_ordered source.cache_map)) source
        else source)
    else source
