-- ===== src/LruCache.antt =====
-- packages/octagonal-wheels/src/memory/LRUCache.ts: `LRUCache`. A `Map` is the list of its entries in
-- the order of insertion, oldest first; its test of keys (SameValueZero) and the length of a value as
-- a string are arguments. The log line of the constructor is left out.
pub mod Bounds
pub mod Reads
mod Tests
use fancy_kit.Common.{
  ℕ, ◌+◌, ◌*◌, Bool, true, false, ◌||◌, ◌&&◌, List, [], ◌∷◌, ◌++◌, Option, none, some, length, ltb,
  leb, ◌==◌, if◌then◌else◌,
}
use fancy_kit.Common.Maps.{map_get, map_delete, map_set, map_refresh}
use fancy_kit.Common.Int.{ℤ, pos, ◌+ℤ◌, ◌-ℤ◌, ltb_ℤ}

pub record LruCache {ℓ} (K V : Type ℓ) : Type ℓ where
  pub cache : List (K × V)
  pub rev_cache : List (V × K)
  pub max_cache : ℕ
  pub max_cached_length : ℕ
  pub cached_length : ℤ
  pub enable_reversed : Bool

abbrev or_default : ℕ → ℕ → ℕ
or_default n d = if n == 0 then d else n

pub lru_cache {ℓ} : {K V : Type ℓ} → ℕ → ℕ → Bool → LruCache K V
lru_cache max_cache max_cache_length forward_only = record {
  cache = [];
  rev_cache = [];
  max_cache = or_default max_cache 200;
  max_cached_length = or_default max_cache_length 1 * 1000000;
  cached_length = pos 0;
  enable_reversed = if forward_only then false else true;
}

module _ {ℓ} {K V : Type ℓ} where
  pub clear : LruCache K V → LruCache K V
  clear s = record s { cache = []; rev_cache = [] }

  -- Whether a limit is exceeded.
  abbrev pub over : LruCache K V → Bool
  over s = ltb s.max_cache (length s.cache) || ltb_ℤ (pos s.max_cached_length) s.cached_length

  module _ (same_key : K → K → Bool) (same_value : V → V → Bool) (text_length : V → ℕ) where
    pub has : K → LruCache K V → Bool
    has key s = elim (map_get same_key key s.cache) [ none ↦ false | some v ↦ true ]

    abbrev pub got : K → LruCache K V → Option V → LruCache K V × Option V
    got key s none = (s, none)
    got key s (some v) = (
      record s {
        cache = map_refresh same_key key v s.cache;
        rev_cache =
            if s.enable_reversed then map_refresh same_value v key s.rev_cache else s.rev_cache;
      },
      some v,
    )

    pub get : K → LruCache K V → LruCache K V × Option V
    get key s = got key s (map_get same_key key s.cache)

    abbrev pub rev_got : V → LruCache K V → Option K → LruCache K V × Option K
    rev_got value s none = (s, none)
    rev_got value s (some key) = (
      record s {
        cache = map_refresh same_key key value s.cache;
        rev_cache = map_refresh same_value value key s.rev_cache;
      },
      some key,
    )

    pub rev_get : V → LruCache K V → LruCache K V × Option K
    rev_get value s = rev_got value s (map_get same_value value s.rev_cache)

    -- The body of the loop in `set`, before its test.
    pub evict_one : K × V → LruCache K V → LruCache K V
    evict_one (key, value) s = record s {
      cache = map_delete same_key key s.cache;
      rev_cache =
          if s.enable_reversed then map_delete same_value value s.rev_cache else s.rev_cache;
      cached_length = s.cached_length -ℤ pos (text_length value);
    }

    -- The loop over the entries that are left.
    pub evict : List (K × V) → LruCache K V → LruCache K V
    evict [] s = s
    evict (entry ∷ rest) s =
        let t = evict_one entry s in let next = evict rest t in if over t then next else t

    pub put : K → V → LruCache K V → LruCache K V
    put key value s = record s {
      cache = map_set same_key key value s.cache;
      rev_cache =
          if s.enable_reversed then map_set same_value value key s.rev_cache else s.rev_cache;
      cached_length = s.cached_length +ℤ pos (text_length value);
    }

    -- `set`.
    pub set_entry : K → V → LruCache K V → LruCache K V
    set_entry key value s = let t = put key value s in if over t then evict t.cache t else t
