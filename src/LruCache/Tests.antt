-- ===== src/LruCache/Tests.antt =====
-- The cache on concrete calls, and its theorems at concrete inputs.
use fancy_kit.Common.{ℕ, ◌≡◌, ◌⊎◌, refl, Bool, false, [], ◌∷◌, ◌++◌, none, some, ◌==◌, ==_iff}
use fancy_kit.Common.Int.{pos, ◌+ℤ◌, ◌-ℤ◌}
use fancy_kit.LruCache
use fancy_kit.LruCache.{LruCache, over, set_entry, get, rev_get, clear, lru_cache}
use fancy_kit.Common.Maps.{map_get, map_delete}
use fancy_kit.LruCache.Bounds.{Fits, set_entry-Fits}
use fancy_kit.LruCache.Reads.{get_refreshes, set_evicts_oldest}

program : Unit {0}
unfolding LruCache.lru_cache LruCache.clear LruCache.has LruCache.get LruCache.rev_get
    LruCache.evict_one LruCache.evict LruCache.put LruCache.set_entry ◌+ℤ◌ ◌-ℤ◌
program = tt

abbrev same : ℕ → ℕ → Bool
same a b = a == b

abbrev text_length : ℕ → ℕ
text_length n = n

-- Two entries at most, of which 1 is the oldest.
abbrev two : LruCache ℕ ℕ
two = record {
  cache = (1, 10) ∷ (2, 20) ∷ [];
  rev_cache = [];
  max_cache = 2;
  max_cached_length = 100;
  cached_length = pos 30;
  enable_reversed = false;
}

read_then_set :
    (set_entry same same text_length 3 30 (get same same text_length 1 two).0).cache
    ≡ (1, 10) ∷ (3, 30) ∷ []
unfolding program
read_then_set = refl

-- A value that was overwritten still leads to its key, and comes back.
stale_value :
    let s =
      set_entry same same text_length 1 6
        (set_entry same same text_length 1 5 (lru_cache 9 9 false)) in
    map_get same 1 (rev_get same same text_length 5 s).0.cache ≡ some 5
unfolding program
stale_value = refl

set_entry-Fits_example :
    Fits same same text_length
      (λ n. (==_iff n n).1 refl)
      2
      100
      (set_entry same same text_length 3 30 two)
set_entry-Fits_example = set_entry-Fits same same text_length (λ n. (==_iff n n).1 refl) 3 30 two

get_refreshes_example :
    let (t, result) = get same same text_length 1 two in
    ((map_get same 1 two.cache ≡ none) × (result ≡ none) × (t ≡ two))
    ⊎ ((v : ℕ) × (map_get same 1 two.cache ≡ some v)
        × (result ≡ some v)
        × (t.cache ≡ map_delete same 1 two.cache ++ (1, v) ∷ []))
get_refreshes_example = get_refreshes same same text_length ==_iff 1 two (refl, (refl, tt))

within_limits : over (LruCache.put same same text_length 2 25 two) ≡ false
unfolding program
within_limits = refl

set_evicts_oldest_example :
    (set_entry same same text_length 3 30 two).cache ≡ (2, 20) ∷ (3, 30) ∷ []
unfolding program
set_evicts_oldest_example =
    set_evicts_oldest same same text_length ==_iff 3 1 30 10 ((2, 20) ∷ []) two refl refl refl refl
