-- ===== src/Cache/Tests.antt =====
-- Runs of the cache at fixed inputs, with insertion sort for the arrangement by expiration.
use Prim.Native.Nat.{min}
use mathlib.Core.List.{Permᴰ}
use quepasa.Prelude.{
  ℕ, ◌-◌, ◌^◌, ◌≤◌, ◌≡◌, refl, Bool, false, none, some, [], ◌∷◌, arith, ltb, if◌then◌else◌, length,
  take, drop, All,
}
use quepasa.Strings.{Text, codes, same}
use quepasa.Cache.{
  CacheItem, Cache, count, set_cache_item, set_any, delete_by_key, get_any, clean_up,
}
use quepasa.Cache.Sorting.{by_expiration, sort}
use quepasa.Cache.Entries.{has_key}
use quepasa.Cache.Invariant.{IsValid, operations-IsValid, get_any-set_cache_item, get_any_expired}
use quepasa.Cache.Eviction.{clean_up-drop, clean_up_huge}

abbrev item : Text → ℕ → ℕ → CacheItem ℕ
item k v e = record { key = k; value = v; expiration = e }

-- Three items, the second of which expires first.
abbrev three : Cache ℕ
three = record {
  counter = 3;
  cache_map = item (codes "A") 1 30 ∷ item (codes "B") 2 10 ∷ item (codes "C") 3 20 ∷ [];
}

abbrev refuse : CacheItem ℕ → CacheItem ℕ → Bool
refuse new old = false

cache_tests :
    ((set_cache_item refuse three (item (codes "B") 9 90)).1 ≡ false)
    × ((get_any 15 three (codes "B")).0 ≡ none)
    × (count (get_any 15 three (codes "B")).1 ≡ 2)
    × ((clean_up by_expiration three 1).cache_map ≡ item (codes "A") 1 30 ∷ [])
    × (clean_up by_expiration three 7 ≡ three)
    × (set_any refuse 5 three (codes "B") 9 7 ≡ record three {
      cache_map = item (codes "A") 1 30 ∷ item (codes "B") 9 12 ∷ item (codes "C") 3 20 ∷ [];
    })
unfolding set_cache_item get_any count clean_up sort set_any
cache_tests = (refl, refl, refl, refl, refl, refl)

three-IsValid : IsValid three
unfolding has_key same count
three-IsValid = record { distinct = (refl, (refl, (refl, tt))); counted = refl }

operations-IsValid_example :
    IsValid (set_cache_item refuse three (item (codes "D") 4 40)).0
    × IsValid (delete_by_key three (codes "A"))
    × IsValid (get_any 15 three (codes "A")).1
    × IsValid (clean_up by_expiration three 2)
operations-IsValid_example =
    operations-IsValid refuse by_expiration three (item (codes "D") 4 40) (codes "A") 15 2
      three-IsValid

get_any-set_cache_item_run :
    (get_any 15 (set_cache_item refuse three (item (codes "B") 9 90)).0 (codes "B")).0 ≡ (
      if same (codes "B") (codes "B")
      then (if ltb 15 90 then some 9 else none)
      else (get_any 15 three (codes "B")).0)
get_any-set_cache_item_run =
    get_any-set_cache_item refuse three (item (codes "B") 9 90) (codes "B") 15

expired_read :
    (get_any 5 (get_any 15 three (codes "B")).1 (codes "C")).0
    ≡ (if same (codes "B") (codes "C") then none else (get_any 5 three (codes "C")).0)
expired_read = get_any_expired three (codes "B") (codes "C") 15 5 cache_tests.1

clean_up-drop_example :
    Permᴰ (clean_up by_expiration three 1).cache_map (drop 2 (sort three.cache_map))
    × (length (clean_up by_expiration three 1).cache_map ≡ min 3 1)
    × All
        (λ x. All (λ y. x.expiration ≤ y.expiration) (drop 2 (sort three.cache_map)))
        (take 2 (sort three.cache_map))
clean_up-drop_example =
    clean_up-drop by_expiration three 1 three-IsValid (omega arith) (omega arith) (omega arith)

clean_up_huge_example : (clean_up by_expiration three (2 ^ 64 - 1)).cache_map ≡ []
clean_up_huge_example =
    clean_up_huge by_expiration three (2 ^ 64 - 1) three-IsValid (omega arith) (omega arith)
