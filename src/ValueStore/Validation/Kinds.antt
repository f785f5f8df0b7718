-- ===== src/ValueStore/Validation/Kinds.antt =====
-- Paths in the heap, the kinds of the copies, and that an assignment does not throw.
use fancy_kit.Common.{
  and_then, and_then-some, ℕ, zero, suc, ◌≤◌, ◌<◌, ◌≡◌, refl, sym, subst, Bool, true, false, ◌&&◌,
  List, [], ◌∷◌, ◌++◌, Option, none, some, length, get_elem?, set, replicate, ◌==◌, if◌then◌else◌,
  if_cases, arith, Bool-cases, none-ne-some, some-injective, inl, inr, ==_iff, ne_of_test,
}
use fancy_kit.ValueStore.Validation.{
  Value, JsObject, Key, Descriptor, ChildKey, Kind, array_kind, record_kind, position, member,
  read_children, array_entries, record_entries, children_of, open_descriptor, is_symbol,
  array_values, Copy, Target, root, nowhere, child_of, Walk, has, delete, fits, define,
  assign_child, assign,
}

abbrev pub every : (Value → Bool) → Option (List (ChildKey × Value)) → Bool
every p none = false
every p (some []) = true
every p (some ((key, v) ∷ rest)) = p v && every p (some rest)

-- How many places of the heap are not on the path.
abbrev pub missing : ℕ → List ℕ → ℕ
missing zero path = 0
missing (suc n) path = if has n path then missing n path else suc (missing n path)

pub missing_le : (n r : ℕ) (path : List ℕ) → missing n (r ∷ path) ≤ missing n path
missing_le zero r path = omega arith
missing_le (suc n) r path = ground (arith, missing_le n r path)

pub missing_lt :
    (n r : ℕ) (path : List ℕ) → r < n → has r path ≡ false → missing n (r ∷ path) < missing n path
missing_lt zero r path h e = absurd (omega arith)
missing_lt (suc n) r path h e = elim (Bool-cases (r == n)) [
  | inl same ↦
      let free = subst (λ x. has x path ≡ false) ((==_iff r n).0 same) e in
      rw (same, free) (omega (arith, missing_le n r path))
  | inr differ ↦
      let below = missing_lt n r path (omega (arith, ne_of_test r n differ)) e in
      rw differ (
        if_cases
          (λ (m : ℕ). (if has n path then missing n (r ∷ path) else suc (missing n (r ∷ path))) < m)
          (has n path) (λ y. rw y below) λ y. rw y (omega (arith, below)))
]

pub get_elem?-lt {ℓ} :
    {A : Type ℓ} (xs : List A) (i : ℕ) (x : A) → get_elem? xs i ≡ some x → i < length xs
get_elem?-lt [] i x h = absurd (cc)
get_elem?-lt (y ∷ ys) zero x h = omega arith
get_elem?-lt (y ∷ ys) (suc i) x h = omega (arith, get_elem?-lt ys i x h)

abbrev pub kind_of : Option Copy → Option Kind
kind_of none = none
kind_of (some c) = some c.kind

abbrev pub kind_at : Walk → ℕ → Option Kind
kind_at w i = kind_of (get_elem? w.copies i)

-- The kinds of the copies stay.
abbrev pub Grows : Walk → Walk → Type 0
Grows w w' = (i : ℕ) (k : Kind) → kind_at w i ≡ some k → kind_at w' i ≡ some k

-- The assignment of a task does not throw.
abbrev pub Ready : Target → Walk → Type 0
Ready root w = Unit
Ready nowhere w = Unit
Ready (child_of parent key) w = (k : Kind) × (kind_at w parent ≡ some k) × (fits k key ≡ true)

pub Ready-Grows : (t : Target) (w w' : Walk) → Grows w w' → Ready t w → Ready t w'
Ready-Grows root w w' g r = r
Ready-Grows nowhere w w' g r = r
Ready-Grows (child_of parent key) w w' g (k, e, f) = (k, g parent k e, f)

pub kind-set :
    (cs : List Copy) (p i : ℕ) (c : Copy) (key : ChildKey) (v : Value) (k : Kind)
    → get_elem? cs p ≡ some c
    → kind_of (get_elem? cs i) ≡ some k
    → kind_of (get_elem? (set cs p (define key v c)) i) ≡ some k
kind-set [] p i c key v k e h = h
kind-set (x ∷ xs) zero zero c key v k e h = cc
kind-set (x ∷ xs) zero (suc i) c key v k e h = h
kind-set (x ∷ xs) (suc p) zero c key v k e h = h
kind-set (x ∷ xs) (suc p) (suc i) c key v k e h = kind-set xs p i c key v k e h

pub child_assigned :
    (parent : ℕ) (key : ChildKey) (v : Value) (w : Walk) (k : Kind) (o : Option Copy)
    → get_elem? w.copies parent ≡ o
    → kind_of o ≡ some k
    → fits k key ≡ true
    → (w' : Walk) × (assign_child parent key v w o ≡ some w') × (w'.active ≡ w.active) × Grows w w'
child_assigned parent key v w k none at e f = absurd (none-ne-some k e)
child_assigned parent key v w k (some c) at e f =
    let fit : fits c.kind key ≡ true =
      subst (λ x. fits x key ≡ true) (sym (some-injective c.kind k e)) f in
    (
      record w { copies = set w.copies parent (define key v c) },
      rw fit refl,
      refl,
      λ i x h. kind-set w.copies parent i c key v x at h,
    )

pub assigned :
    (t : Target) (v : Value) (w : Walk)
    → Ready t w
    → (w' : Walk) × (assign t v w ≡ some w') × (w'.active ≡ w.active) × Grows w w'
unfolding assign
assigned root v w r = (record w { result = v }, refl, refl, λ i k e. e)
assigned nowhere v w r = (w, refl, refl, λ i k e. e)
assigned (child_of parent key) v w (k, e, f) =
    child_assigned parent key v w k (get_elem? w.copies parent) refl e f

pub kind-append :
    (cs : List Copy) (c : Copy) (i : ℕ) (k : Kind)
    → kind_of (get_elem? cs i) ≡ some k
    → kind_of (get_elem? (cs ++ c ∷ []) i) ≡ some k
kind-append [] c i k h = absurd (none-ne-some k h)
kind-append (x ∷ xs) c zero k h = h
kind-append (x ∷ xs) c (suc i) k h = kind-append xs c i k h

pub kind-last :
    (cs : List Copy) (c : Copy) → kind_of (get_elem? (cs ++ c ∷ []) (length cs)) ≡ some c.kind
kind-last [] c = refl
kind-last (x ∷ xs) c = kind-last xs c

abbrev pub AllFit : Kind → List (ChildKey × Value) → Type 0
AllFit kind [] = Unit
AllFit kind ((key, v) ∷ rest) = (fits kind key ≡ true) × AllFit kind rest

pub array_entries-AllFit :
    (i : ℕ) (vs : List (Option Value)) (cs : List (ChildKey × Value))
    → array_entries i vs ≡ some cs
    → AllFit array_kind cs
array_entries-AllFit i [] cs e = subst (AllFit array_kind) (some-injective [] cs e) tt
array_entries-AllFit i (none ∷ vs) cs e = absurd (none-ne-some cs e)
array_entries-AllFit i (some v ∷ vs) cs e =
    let (entries, h, x) =
      and_then-some (array_entries (suc i) vs) (λ entries. some ((position i, v) ∷ entries)) cs e in
    subst (AllFit array_kind) (some-injective ((position i, v) ∷ entries) cs x)
      (refl, array_entries-AllFit (suc i) vs entries h)

record_entries-AllFit :
    (ps : List (Key × Descriptor)) (cs : List (ChildKey × Value))
    → record_entries ps ≡ some cs
    → AllFit record_kind cs
unfolding record_entries
record_entries-AllFit [] cs e = subst (AllFit record_kind) (some-injective [] cs e) tt
record_entries-AllFit ((key, d) ∷ ps) cs e =
    let (v, h, x) =
      and_then-some (if is_symbol key then none else open_descriptor d)
        (λ v. and_then (record_entries ps) λ entries. some ((member key, v) ∷ entries)) cs e in
    let (entries, y, z) =
      and_then-some (record_entries ps) (λ entries. some ((member key, v) ∷ entries)) cs x in
    subst (AllFit record_kind) (some-injective ((member key, v) ∷ entries) cs z)
      (refl, record_entries-AllFit ps entries y)

pub children_of-AllFit :
    (kind : Kind) (o : JsObject) (cs : List (ChildKey × Value))
    → children_of kind o ≡ some cs
    → AllFit kind cs
children_of-AllFit record_kind o cs e = record_entries-AllFit o.properties cs e
children_of-AllFit array_kind o cs e =
    if_cases (λ (x : Option (List (ChildKey × Value))). x ≡ some cs → AllFit array_kind cs)
      (length o.properties == suc o.array_length)
      (λ t h.
        let (vs, x, y) =
          and_then-some (array_values o.array_length o.properties (replicate o.array_length none))
            (array_entries 0) cs h in
        array_entries-AllFit 0 vs cs y)
      (λ f h. absurd (none-ne-some cs h)) e

pub read_children-AllFit :
    (o : JsObject) (cs : List (ChildKey × Value)) → read_children o ≡ some cs → AllFit o.kind cs
unfolding read_children
read_children-AllFit o cs e =
    if_cases (λ (x : Option (List (ChildKey × Value))). x ≡ some cs → AllFit o.kind cs)
      o.usual_prototype (λ t h. children_of-AllFit o.kind o cs h)
      (λ f h. absurd (none-ne-some cs h)) e

pub delete_first : (r : ℕ) (xs : List ℕ) → delete r (r ∷ xs) ≡ xs
delete_first r xs = rw ((==_iff r r).1 refl) refl
