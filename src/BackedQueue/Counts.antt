-- ===== src/BackedQueue/Counts.antt =====
-- How many keys pass a test, for the measure of the scan over the keys.
use fancy_kit.Common.{
  ℕ, suc, ◌≤◌, ◌<◌, arith, ◌≡◌, refl, ap, ◌∙◌, Bool, true, false, List, [], ◌∷◌, length,
  if◌then◌else◌, if_cases, Bool-cases, inl, inr, ◌⊎◌,
}
use fancy_kit.BackedQueue.Memory.{entry_keys, sort, insert, before}

-- How many keys pass a test.
abbrev pub count : (List ℕ → Bool) → List (List ℕ) → ℕ
count f [] = 0
count f (k ∷ ks) = if f k then suc (count f ks) else count f ks

abbrev pub Among : List ℕ → List (List ℕ) → Type 0
Among k [] = ⊥
Among k (j ∷ js) = (j ≡ k) ⊎ Among k js

pub count_le :
    (f g : List ℕ → Bool) (ks : List (List ℕ))
    → ((k : List ℕ) → f k ≡ true → g k ≡ true)
    → count f ks ≤ count g ks
count_le f g [] h = omega arith
count_le f g (k ∷ ks) h = elim (Bool-cases (f k)) [
  | inl e ↦ rw (e, h k e) omega (arith, count_le f g ks h)
  | inr e ↦ rw e (
      if_cases (λ n. count f ks ≤ n) (g k) (λ _. omega (arith, count_le f g ks h))
        λ _. count_le f g ks h)
]

pub count_lt :
    (f g : List ℕ → Bool) (ks : List (List ℕ)) (l : List ℕ)
    → ((k : List ℕ) → f k ≡ true → g k ≡ true)
    → Among l ks
    → f l ≡ false
    → g l ≡ true
    → count f ks < count g ks
count_lt f g [] l h a n y = elim a [ ]
count_lt f g (k ∷ ks) l h (inl e) n y =
    let fk : f k ≡ false = ap f e ∙ n in
    let gk : g k ≡ true = ap g e ∙ y in rw (fk, gk) omega (arith, count_le f g ks h)
count_lt f g (k ∷ ks) l h (inr a) n y = elim (Bool-cases (f k)) [
  | inl e ↦ rw (e, h k e) omega (arith, count_lt f g ks l h a n y)
  | inr e ↦ rw e (
      if_cases (λ m. count f ks < m) (g k) (λ _. omega (arith, count_lt f g ks l h a n y))
        λ _. count_lt f g ks l h a n y)
]

pub count-length-le : (f : List ℕ → Bool) (ks : List (List ℕ)) → count f ks ≤ length ks
count-length-le f [] = omega arith
count-length-le f (k ∷ ks) =
    if_cases (λ n. n ≤ suc (length ks)) (f k) (λ _. omega (arith, count-length-le f ks))
      λ _. omega (arith, count-length-le f ks)

length-insert : (k : List ℕ) (ks : List (List ℕ)) → length (insert k ks) ≡ suc (length ks)
length-insert k [] = refl
length-insert k (j ∷ js) =
    if_cases (λ (l : List (List ℕ)). length l ≡ suc (suc (length js))) (before j k)
      (λ _. ap suc (length-insert k js)) λ _. refl

pub length-sort : (ks : List (List ℕ)) → length (sort ks) ≡ length ks
length-sort [] = refl
length-sort (k ∷ ks) = length-insert k (sort ks) ∙ ap suc (length-sort ks)

pub length-entry_keys {ℓ} :
    {T : Type ℓ} (es : List (List ℕ × T)) → length (entry_keys es) ≡ length es
length-entry_keys [] = refl
length-entry_keys ((k, v) ∷ rest) = ap suc (length-entry_keys rest)

Among-first :
    (k l j : List ℕ) (js : List (List ℕ)) (b : Bool)
    → Among l (if b then j ∷ insert k js else k ∷ j ∷ js)
    → (Among l (insert k js) → Among l (k ∷ js))
    → Among l (k ∷ j ∷ js)
Among-first k l j js true (inl e) further = inr (inl e)
Among-first k l j js true (inr a) further = elim (further a) [ inl e ↦ inl e | inr b ↦ inr (inr b) ]
Among-first k l j js false a further = a

Among-insert : (k l : List ℕ) (ks : List (List ℕ)) → Among l (insert k ks) → Among l (k ∷ ks)
Among-insert k l [] a = a
Among-insert k l (j ∷ js) a = Among-first k l j js (before j k) a (Among-insert k l js)

pub Among-sort : (l : List ℕ) (ks : List (List ℕ)) → Among l (sort ks) → Among l ks
Among-sort l [] a = a
Among-sort l (k ∷ ks) a = elim (Among-insert k l (sort ks) a) [
  | inl e ↦ inl e
  | inr b ↦ inr (Among-sort l ks b)
]
