-- ===== src/LruCache/Reads.antt =====
-- What `get` and `set` do to the entries and their order.
use fancy_kit.Common.{or_left}
use fancy_kit.Common.{
  ℕ, suc, ◌≡◌, ◌≢◌, ◌↔◌, ◌⊎◌, inl, inr, refl, sym, ap, ◌∙◌, subst, Bool, true, false, ◌||◌, List,
  [], ◌∷◌, ◌++◌, Option, none, some, length, length-append, ltb, if_cases, arith,
}
use fancy_kit.Common.Int.{pos, ◌+ℤ◌, ◌-ℤ◌, ltb_ℤ}
use fancy_kit.LruCache.{LruCache, over, evict_one, evict, put, set_entry, get, got}
use fancy_kit.Common.Maps.{
  map_get, map_delete, Distinct, map_set-new, map_get-set_self, map_get-set_other, refresh_last,
}
use fancy_kit.LruCache.Bounds.{evicted}

ltb_refl : (n m : ℕ) → n ≡ m → ltb m n ≡ false
ltb_refl n m e = ground arith

not_below : (m n : ℕ) → n ≡ suc m → ¬ (ltb m n ≡ false)
not_below m n e h = ground arith

module _ {ℓ} {K V : Type ℓ} (same_key : K → K → Bool) (same_value : V → V → Bool)
    (text_length : V → ℕ) (same_iff : (a b : K) → (same_key a b ≡ true) ↔ (a ≡ b)) where
  -- `get` of a key that is not cached gives `undefined` and changes nothing. Else it gives the key's
  -- value, and the entry becomes the newest; the others keep their order.
  pub get_refreshes :
      (key : K) (s : LruCache K V)
      → Distinct same_key same_iff s.cache
      → let (t, result) = get same_key same_value text_length key s in
        ((map_get same_key key s.cache ≡ none) × (result ≡ none) × (t ≡ s))
        ⊎ ((v : V) × (map_get same_key key s.cache ≡ some v)
            × (result ≡ some v)
            × (t.cache ≡ map_delete same_key key s.cache ++ (key, v) ∷ []))
  unfolding get
  get_refreshes key s d = go (map_get same_key key s.cache) refl
    where
      go :
          (o : Option V)
          → map_get same_key key s.cache ≡ o
          → let (t, result) = got same_key same_value text_length key s o in
            ((map_get same_key key s.cache ≡ none) × (result ≡ none) × (t ≡ s))
            ⊎ ((v : V) × (map_get same_key key s.cache ≡ some v)
                × (result ≡ some v)
                × (t.cache ≡ map_delete same_key key s.cache ++ (key, v) ∷ []))
      go none e = inl (e, refl, refl)
      go (some v) e = inr (v, e, refl, refresh_last same_key same_iff key v s.cache d)

  -- While no limit is exceeded, `set` makes the key's value the new one and leaves the other keys'
  -- values alone.
  pub set_reads :
      (key : K) (value : V) (s : LruCache K V)
      → over (put same_key same_value text_length key value s) ≡ false
      → let t = set_entry same_key same_value text_length key value s in
        (map_get same_key key t.cache ≡ some value)
        × ((other : K)
            → other ≢ key
            → map_get same_key other t.cache ≡ map_get same_key other s.cache)
  unfolding set_entry put
  set_reads key value s h =
      let t = put same_key same_value text_length key value s in
      if_cases
        (λ (t : LruCache K V).
          (map_get same_key key t.cache ≡ some value)
          × ((other : K)
              → other ≢ key
              → map_get same_key other t.cache ≡ map_get same_key other s.cache))
        (over t) (λ e. cc)
        λ _. (
          map_get-set_self same_key same_iff key value s.cache,
          λ other n. map_get-set_other same_key same_iff key other value s.cache n,
        )

  neither : (a b : Bool) → a ≡ false → b ≡ false → (a || b) ≡ false
  neither a b e f = rw (e, f) refl

  -- The loop stops at its first entry if no limit is exceeded without it.
  evict_first :
      (oldest : K) (v : V) (tail : List (K × V)) (s : LruCache K V)
      → s.cache ≡ (oldest, v) ∷ tail
      → over (evict_one same_key same_value text_length (oldest, v) s) ≡ false
      → (evict same_key same_value text_length ((oldest, v) ∷ tail) s).cache ≡ tail
  unfolding evict
  evict_first oldest v tail s e f =
      let u = evict_one same_key same_value text_length (oldest, v) s in
      if_cases (λ (u : LruCache K V). u.cache ≡ tail) (over u) (λ t. cc)
        λ _. evicted same_key same_value text_length (λ k. (same_iff k k).1 refl) oldest v tail s e

  -- On a full cache, `set` of a key that is not cached evicts exactly the oldest entry, if the length
  -- limit is kept without it, and the new entry is the newest.
  pub set_evicts_oldest :
      (key oldest : K) (value v : V) (rest : List (K × V)) (s : LruCache K V)
      → s.cache ≡ (oldest, v) ∷ rest
      → length s.cache ≡ s.max_cache
      → map_get same_key key s.cache ≡ none
      → ltb_ℤ
          (pos s.max_cached_length)
          (s.cached_length +ℤ pos (text_length value) -ℤ pos (text_length v))
        ≡ false
      → (set_entry same_key same_value text_length key value s).cache ≡ rest ++ (key, value) ∷ []
  unfolding set_entry put evict_one
  set_evicts_oldest key oldest value v rest s c full n fits =
      let t = put same_key same_value text_length key value s in
      let stored : t.cache ≡ (oldest, v) ∷ rest ++ (key, value) ∷ [] =
        map_set-new same_key same_iff key value s.cache n ∙ ap (λ l. l ++ (key, value) ∷ []) c in
      let tail = rest ++ (key, value) ∷ [] in
      let u = evict_one same_key same_value text_length (oldest, v) t in
      let gone =
        evicted same_key same_value text_length (λ k. (same_iff k k).1 refl) oldest v tail t
          stored in
      let longer : length tail ≡ s.max_cache =
        omega (arith, length-append rest ((key, value) ∷ []), full, ap length c) in
      if_cases (λ (u : LruCache K V). u.cache ≡ tail) (over t)
        (λ _.
          subst (λ es. (evict same_key same_value text_length es t).cache ≡ tail) (sym stored)
            (evict_first oldest v tail t stored
              (neither _ _ (ltb_refl (length u.cache) s.max_cache (ap length gone ∙ longer)) fits)))
        λ f. absurd (
          not_below s.max_cache (length t.cache) (ap length stored ∙ ap suc longer) (or_left _ _ f))
