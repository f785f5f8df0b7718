-- ===== src/ValueStore/Validation/Children.antt =====
-- The children that the code reads of an object are the values of its properties, and it reads them
-- exactly if the properties are those that a JSON value may have.
use fancy_kit.Common.{
  and_then, ℕ, zero, suc, ◌<◌, ◌≡◌, refl, sym, ap, ◌∙◌, inl, inr, Bool, true, false, not, ◌&&◌,
  List, [], ◌∷◌, Option, none, some, length, length-replicate, set, replicate, ltb, ltb→lt, ◌==◌,
  if◌then◌else◌, arith, Bool-cases,
}
use fancy_kit.ValueStore.Validation.{
  Value, JsObject, Key, length_key, symbol, index, name, Descriptor, accessor, holds, ChildKey,
  Kind, array_kind, record_kind, position, member, is_symbol, open_descriptor, has, array_values,
  array_entries, record_entries, children_of, read_children,
}
use fancy_kit.ValueStore.Validation.Kinds.{every}
use fancy_kit.ValueStore.Validation.Json.{
  is_text, among, is_data, value_of, passes, record_passes, indices_only, later_or, value_at,
  all_pass, properties_pass, object_passes,
}

and_false : (b : Bool) → (b && false) ≡ false
and_false true = refl
and_false false = refl

text_key : (key : Key) (b : Bool) → is_symbol key ≡ b → is_text key ≡ not b
text_key length_key b e = ap not e
text_key symbol b e = ap not e
text_key (index i) b e = ap not e
text_key (name s) b e = ap not e

pub has-among : (r : ℕ) (xs : List ℕ) → has r xs ≡ among r xs
has-among r [] = refl
has-among r (x ∷ xs) = elim (Bool-cases (x == r)) [
  | inl t ↦ rw t refl
  | inr e ↦ rw e (has-among r xs)
]

-- What a place of the array `values` holds; a hole is `none`.
abbrev at_place : List (Option Value) → ℕ → Option Value
at_place [] i = none
at_place (v ∷ vs) zero = v
at_place (v ∷ vs) (suc i) = at_place vs i

at_place-set :
    (vs : List (Option Value)) (j i : ℕ) (v : Value)
    → j < length vs
    → at_place (set vs j (some v)) i ≡ (if i == j then some v else at_place vs i)
at_place-set [] j i v h = absurd (omega arith)
at_place-set (x ∷ vs) zero zero v h = refl
at_place-set (x ∷ vs) zero (suc i) v h = let e : (suc i == 0) ≡ false = ground arith in rw e refl
at_place-set (x ∷ vs) (suc j) zero v h = let e : (0 == suc j) ≡ false = ground arith in rw e refl
at_place-set (x ∷ vs) (suc j) (suc i) v h =
    let e : (suc i == suc j) ≡ (i == j) = ground arith in
    rw e (at_place-set vs j i v (omega (arith, h)))

at_place-replicate : (n i : ℕ) → at_place (replicate n none) i ≡ none
at_place-replicate zero i = refl
at_place-replicate (suc n) zero = refl
at_place-replicate (suc n) (suc i) = at_place-replicate n i

length-set_same :
    (vs : List (Option Value)) (j : ℕ) (v : Option Value) → length (set vs j v) ≡ length vs
length-set_same [] j v = refl
length-set_same (x ∷ vs) zero v = refl
length-set_same (x ∷ vs) (suc j) v = ap suc (length-set_same vs j v)

later_or-if :
    (a old : Option Value) (b : Bool) (v : Value)
    → later_or a (if b then some v else old)
      ≡ later_or (later_or a (if b then some v else none)) old
later_or-if none old true v = refl
later_or-if none old false v = refl
later_or-if (some x) old b v = refl

later_or-none : (a : Option Value) → later_or a none ≡ a
later_or-none none = refl
later_or-none (some v) = refl

-- What the loop over the keys of an array comes to.
abbrev Fills : ℕ → List (Key × Descriptor) → List (Option Value) → Bool → Type 0
Fills len ps vs false = array_values len ps vs ≡ none
Fills len ps vs true =
    (ws : List (Option Value)) × (array_values len ps vs ≡ some ws)
    × (length ws ≡ len)
    × ((i : ℕ) → at_place ws i ≡ later_or (value_at ps i) (at_place vs i))

module _ (len j : ℕ) (ps : List (Key × Descriptor)) (vs : List (Option Value))
    (same_length : length vs ≡ len) (in_range : ltb j len ≡ true) where
  filled_in :
      (v : Value) (b : Bool)
      → Fills len ps (set vs j (some v)) b
      → Fills len ((index j, holds true v) ∷ ps) vs b
  unfolding array_values
  filled_in v false e = rw in_range e
  filled_in v true (ws, e, l, f) = (
    ws,
    rw in_range e,
    l,
    λ i.
        f i
        ∙ ap (later_or (value_at ps i))
            (at_place-set vs j i v (omega (arith, same_length, ltb→lt j len in_range)))
        ∙ later_or-if (value_at ps i) (at_place vs i) (i == j) v,
  )

  indexed :
      (d : Descriptor) (b : Bool)
      → ((v : Value) → Fills len ps (set vs j (some v)) b)
      → Fills len ((index j, d) ∷ ps) vs (is_data d && b)
  unfolding array_values
  indexed accessor b ih = rw in_range refl
  indexed (holds false v) b ih = rw in_range refl
  indexed (holds true v) b ih = filled_in v b (ih v)

array_values-Fills :
    (len : ℕ) (ps : List (Key × Descriptor)) (vs : List (Option Value))
    → length vs ≡ len
    → Fills len ps vs (indices_only len ps)
unfolding array_values
array_values-Fills len [] vs h = (vs, refl, h, λ i. refl)
array_values-Fills len ((length_key, d) ∷ ps) vs h = array_values-Fills len ps vs h
array_values-Fills len ((symbol, d) ∷ ps) vs h = refl
array_values-Fills len ((name s, d) ∷ ps) vs h = refl
array_values-Fills len ((index j, d) ∷ ps) vs h = elim (Bool-cases (ltb j len)) [
  | inl t ↦
      let ih = λ (v : Value).
        array_values-Fills len ps (set vs j (some v)) (length-set_same vs j (some v) ∙ h) in
      rw t (indexed len j ps vs h t d (indices_only len ps) ih)
  | inr e ↦ rw e (rw e refl)
]

module _ (p : Value → Bool) where
  every_opened :
      (key : ChildKey) (d : Descriptor) (children : Option (List (ChildKey × Value)))
      → every p
          (and_then (open_descriptor d) λ v. and_then children λ entries. some ((key, v) ∷ entries))
        ≡ ((is_data d && passes p (value_of d)) && every p children)
  every_opened key accessor children = refl
  every_opened key (holds false v) children = refl
  every_opened key (holds true v) none = sym (and_false (p v))
  every_opened key (holds true v) (some entries) = refl

  record_entries-passes :
      (ps : List (Key × Descriptor)) → every p (record_entries ps) ≡ record_passes p ps
  unfolding record_entries
  record_entries-passes [] = refl
  record_entries-passes ((key, d) ∷ ps) = elim (Bool-cases (is_symbol key)) [
    | inl t ↦ rw (t, text_key key true t) refl
    | inr e ↦
        rw (e, text_key key false e, sym (record_entries-passes ps))
          (every_opened (member key) d (record_entries ps))
  ]

  array_entries-passes :
      (i : ℕ) (f : ℕ → Option Value) (ws : List (Option Value))
      → ((k : ℕ) → at_place ws k ≡ f k)
      → every p (array_entries i ws) ≡ all_pass p f (length ws)
  array_entries-passes i f [] h = refl
  array_entries-passes i f (none ∷ ws) h = rw (sym (h 0)) refl
  array_entries-passes i f (some v ∷ ws) h =
      rw (sym (h 0), sym (array_entries-passes (suc i) (λ k. f (suc k)) ws λ k. h (suc k)))
        (every_opened (position i) (holds true v) (array_entries (suc i) ws))

  filled-passes :
      (len : ℕ) (ps : List (Key × Descriptor)) (b : Bool)
      → Fills len ps (replicate len none) b
      → every p (and_then (array_values len ps (replicate len none)) (array_entries 0))
        ≡ (b && all_pass p (value_at ps) len)
  filled-passes len ps false e = rw e refl
  filled-passes len ps true (ws, e, l, f) =
      let read = λ (i : ℕ).
        f i
        ∙ ap (later_or (value_at ps i)) (at_place-replicate len i)
        ∙ later_or-none (value_at ps i) in
      rw e (array_entries-passes 0 (value_at ps) ws read ∙ ap (all_pass p (value_at ps)) l)

  children_of-passes :
      (kind : Kind) (o : JsObject) → every p (children_of kind o) ≡ properties_pass p kind o
  children_of-passes record_kind o = record_entries-passes o.properties
  children_of-passes array_kind o = elim (Bool-cases (length o.properties == suc o.array_length)) [
    | inl t ↦ rw t (
        filled-passes o.array_length o.properties (indices_only o.array_length o.properties) (
          array_values-Fills o.array_length o.properties (replicate o.array_length none)
            (length-replicate o.array_length none)))
    | inr e ↦ rw e refl
  ]

  guarded :
      (b c : Bool) (children : Option (List (ChildKey × Value)))
      → every p children ≡ c
      → every p (if b then children else none) ≡ (b && c)
  guarded true c children e = e
  guarded false c children e = refl

  pub read_children-passes :
      (found : Option JsObject) → every p (and_then found read_children) ≡ object_passes p found
  unfolding read_children
  read_children-passes none = refl
  read_children-passes (some o) =
      guarded o.usual_prototype (properties_pass p o.kind o) (children_of o.kind o)
        (children_of-passes o.kind o)
