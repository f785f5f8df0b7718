-- ===== src/LruCache/Bounds.antt =====
-- The limits of the cache after `set`, and what `clear` leaves behind.
use fancy_kit.Common.{or_left, or_right}
use fancy_kit.Common.{
  ℕ, ◌≤◌, arith, ◌≡◌, ◌⊎◌, inl, inr, refl, ap, ◌∙◌, Bool, true, false, List, [], ◌∷◌, length, ltb,
  if_cases,
}
use fancy_kit.Common.Int.{pos, ◌+ℤ◌, ltb_ℤ}
use fancy_kit.LruCache.{LruCache, over, evict_one, evict, put, set_entry, clear}
use fancy_kit.Common.Maps.{map_delete}

le_of_not_ltb : (m n : ℕ) → ltb m n ≡ false → n ≤ m
le_of_not_ltb m n h = ground arith

module _ {ℓ} {K V : Type ℓ} (same_key : K → K → Bool) (same_value : V → V → Bool)
    (text_length : V → ℕ) (same_self : (k : K) → same_key k k ≡ true) where
  -- At most `most` entries are cached, of at most the length `longest` together, or nothing is.
  abbrev pub Fits : ℕ → ℕ → LruCache K V → Type ℓ
  Fits most longest t =
      ((length t.cache ≤ most) × (ltb_ℤ (pos longest) t.cached_length ≡ false)) ⊎ (t.cache ≡ [])

  not_over : (t : LruCache K V) → over t ≡ false → Fits t.max_cache t.max_cached_length t
  not_over t h =
      let count = or_left (ltb t.max_cache (length t.cache)) _ h in
      inl (le_of_not_ltb t.max_cache (length t.cache) count, or_right _ _ h)

  pub evicted :
      (k : K) (v : V) (rest : List (K × V)) (s : LruCache K V)
      → s.cache ≡ (k, v) ∷ rest
      → (evict_one same_key same_value text_length (k, v) s).cache ≡ rest
  unfolding evict_one
  evicted k v rest s e = ap (map_delete same_key k) e ∙ rw (same_self k) refl

  evict-Fits :
      (entries : List (K × V)) (s : LruCache K V)
      → s.cache ≡ entries
      → Fits s.max_cache s.max_cached_length (evict same_key same_value text_length entries s)
  unfolding evict evict_one
  evict-Fits [] s e = inr e
  evict-Fits ((k, v) ∷ rest) s e =
      let t = evict_one same_key same_value text_length (k, v) s in
      if_cases (Fits s.max_cache s.max_cached_length) (over t)
        (λ _. evict-Fits rest t (evicted k v rest s e)) (not_over t)

  -- After `set`, the cache holds at most as many entries as its `maxCache` allows, and its cached
  -- length is not above its `maxCachedLength`, unless the whole cache was dropped.
  pub set_entry-Fits :
      (key : K) (value : V) (s : LruCache K V)
      → Fits s.max_cache s.max_cached_length (set_entry same_key same_value text_length key value s)
  unfolding set_entry put
  set_entry-Fits key value s =
      let t = put same_key same_value text_length key value s in
      if_cases (Fits s.max_cache s.max_cached_length) (over t) (λ _. evict-Fits _ t refl)
        (not_over t)

  -- `clear` keeps the cached length: where that and the length of the next value exceed the limit,
  -- `set` on the cleared cache drops the value again at once.
  pub clear_drops :
      (key : K) (value : V) (s : LruCache K V)
      → ltb_ℤ (pos s.max_cached_length) (s.cached_length +ℤ pos (text_length value)) ≡ true
      → (set_entry same_key same_value text_length key value (clear s)).cache ≡ []
  unfolding set_entry evict clear put
  clear_drops key value s h =
      let s' = clear s in
      let t = put same_key same_value text_length key value s' in
      let u = evict_one same_key same_value text_length (key, value) t in
      let gone = evicted key value [] t refl in
      if_cases (λ (t : LruCache K V). t.cache ≡ []) (over t)
        (λ _. if_cases (λ (t : LruCache K V). t.cache ≡ []) (over u) (λ _. gone) (λ _. gone))
        λ f. let x = or_right (ltb t.max_cache (length t.cache)) _ f in cc
