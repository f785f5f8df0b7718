-- ===== src/EncodeObject/Decode/Good.antt =====
-- The values that the encoding is meant for.
use fancy_kit.Common.{
  ℕ, ◌≡◌, refl, sym, ap, ◌∙◌, Bool, true, false, not, ◌||◌, List, [], ◌∷◌, some, ◌==◌, or_left,
  or_right, Bool-cases, inl, inr,
}
use fancy_kit.Common.Texts.{same}
use fancy_kit.EncodeObject.{
  Value, Values, Props, undefined_value, null_value, false_value, true_value, num, str, arr, obj,
  nil, cons, end, prop, Platform, array_mark, object_mark, is_decimal, values_undefined,
  props_undefined,
}
use fancy_kit.EncodeObject.Decode.{Decoded, parsed, decode_object, from_entries, set_prop}

-- No text of JSON starts with a mark.
abbrev pub is_unmarked : List ℕ → Bool
is_unmarked [] = true
is_unmarked (c ∷ cs) = not ((c == array_mark) || (c == object_mark))

module _ {N : Type 0} where
  abbrev pub has_key : List ℕ → Props N → Bool
  has_key k end = false
  has_key k (prop k' v ps) = same k' k || has_key k ps

  abbrev pub snoc : Props N → List ℕ → Value N → Props N
  snoc end k v = prop k v end
  snoc (prop k' v' ps) k v = prop k' v' (snoc ps k v)

  -- The keys of the second properties stand neither in the first nor twice.
  abbrev pub Fresh : Props N → Props N → Type 0
  Fresh ps end = Unit
  Fresh ps (prop k v qs) = (has_key k ps ≡ false) × Fresh (snoc ps k v) qs

  abbrev pub flatten : Props N → Values N
  flatten end = nil
  flatten (prop k v ps) = cons (str k) (cons v (flatten ps))

  set_prop-snoc :
      (k : List ℕ) (v : Value N) (ps : Props N)
      → has_key k ps ≡ false
      → set_prop k v ps ≡ snoc ps k v
  set_prop-snoc k v end h = refl
  set_prop-snoc k v (prop k' v' ps) h =
      rw (or_left (same k' k) (has_key k ps) h)
        (ap (prop k' v') (set_prop-snoc k v ps (or_right (same k' k) (has_key k ps) h)))

  abbrev join : Props N → Props N → Props N
  join end qs = qs
  join (prop k v ps) qs = prop k v (join ps qs)

  join-snoc :
      (ps : Props N) (k : List ℕ) (v : Value N) (qs : Props N)
      → join (snoc ps k v) qs ≡ join ps (prop k v qs)
  join-snoc end k v qs = refl
  join-snoc (prop k' v' ps) k v qs = ap (prop k' v') (join-snoc ps k v qs)

  join-end : (ps : Props N) → join ps end ≡ ps
  join-end end = refl
  join-end (prop k v ps) = ap (prop k v) (join-end ps)

module _ {N : Type 0} (platform : Platform N) where
  open platform use {to_string, to_string_36, parse_float, parse_int_36, stringify, parse}

  entries_back :
      (ps qs : Props N) → Fresh ps qs → from_entries platform ps (flatten qs) ≡ join ps qs
  entries_back ps end f = sym (join-end ps)
  entries_back ps (prop k v qs) (h, f) =
      ap (λ x. from_entries platform x (flatten qs)) (set_prop-snoc k v ps h)
      ∙ (entries_back (snoc ps k v) qs f ∙ join-snoc ps k v qs)

  pub from_entries-flatten :
      (ps : Props N) → Fresh end ps → from_entries platform end (flatten ps) ≡ ps
  from_entries-flatten ps f = entries_back end ps f

  -- JSON.parse gives back what JSON.stringify printed.
  abbrev pub Json : Value N → Type 0
  Json v = (parse (stringify v) ≡ some v) × (is_unmarked (stringify v) ≡ true)

  -- Numbers are read back from the text that is chosen for them; objects are given back by JSON, unless
  -- they hold `undefined` directly, and have no key twice.
  unfoldable mutual
    pub Good : Value N → Type 0
    Good undefined_value = Unit
    Good null_value = Unit
    Good false_value = Unit
    Good true_value = Unit
    Good (num n) =
        (is_decimal platform n ≡ true → parse_float (to_string n) ≡ n)
        × (is_decimal platform n ≡ false → parse_int_36 (to_string_36 n) ≡ n)
    Good (str s) = Unit
    Good (arr vs) = (values_undefined vs ≡ false → Json (arr vs)) × AllGood vs
    Good (obj ps) = (props_undefined ps ≡ false → Json (obj ps)) × PropsGood ps × Fresh end ps

    pub AllGood : Values N → Type 0
    AllGood nil = Unit
    AllGood (cons v vs) = Good v × AllGood vs

    pub PropsGood : Props N → Type 0
    PropsGood end = Unit
    PropsGood (prop k v ps) = Good v × PropsGood ps

  pub decode_object-json :
      (again : List ℕ → Decoded N) (t : List ℕ)
      → is_unmarked t ≡ true
      → decode_object platform again t ≡ parsed (parse t)
  decode_object-json again [] h = refl
  decode_object-json again (c ∷ cs) h =
      elim (Bool-cases ((c == array_mark) || (c == object_mark))) [
        | inl y ↦ let x : false ≡ true = rw y at h in absurd (cc)
        | inr n ↦ rw (or_left (c == array_mark) _ n, or_right (c == array_mark) _ n) refl
      ]
