-- ===== src/Common/Texts.antt =====
-- Texts as lists of UTF-16 code units, and their equality.
use fancy_kit.Common.{
  ℕ, ◌≡◌, ◌↔◌, refl, ap₂, Bool, true, false, ◌&&◌, List, [], ◌∷◌, ◌++◌, ◌==◌, ==_iff, Bool-cases,
  inl, inr,
}

abbrev pub same : List ℕ → List ℕ → Bool
same [] [] = true
same [] (d ∷ ds) = false
same (c ∷ cs) [] = false
same (c ∷ cs) (d ∷ ds) = (c == d) && same cs ds

same_refl : (s : List ℕ) → same s s ≡ true
same_refl [] = refl
same_refl (c ∷ cs) = rw ((==_iff c c).1 refl) (same_refl cs)

eq_of_same : (s t : List ℕ) → same s t ≡ true → s ≡ t
eq_of_same [] [] h = refl
eq_of_same [] (d ∷ ds) h = cc
eq_of_same (c ∷ cs) [] h = cc
eq_of_same (c ∷ cs) (d ∷ ds) h = elim (Bool-cases (c == d)) [
  | inl e ↦ ap₂ ◌∷◌ ((==_iff c d).0 e) (eq_of_same cs ds (rw e at h))
  | inr e ↦ let x : false ≡ true = rw e at h in cc
]

pub same_iff : (s t : List ℕ) → (same s t ≡ true) ↔ (s ≡ t)
same_iff s t = (eq_of_same s t, λ e. rw e (same_refl t))

tail_eq : (c : ℕ) (xs ys : List ℕ) → c ∷ xs ≡ c ∷ ys → xs ≡ ys
tail_eq c xs ys e = cc

pub append_cancel : (p xs ys : List ℕ) → p ++ xs ≡ p ++ ys → xs ≡ ys
append_cancel [] xs ys e = e
append_cancel (c ∷ p) xs ys e = append_cancel p xs ys (tail_eq c (p ++ xs) (p ++ ys) e)
