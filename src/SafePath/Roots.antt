-- ===== src/SafePath/Roots.antt =====
-- The part of a resolved path that stands before the relative path.
use fancy_kit.Common.{
  ℕ, ◌≡◌, ◌⊎◌, inl, inr, refl, ap, ◌∙◌, true, false, List, [], ◌∷◌, ◌++◌, Bool-cases,
}
use fancy_kit.SafePath.{all, is_separator, strip_separators, root_part}

-- For a root of separators only the base is the root; else it is the root without the separators at
-- its end, and one separator.
abbrev pub BaseOf : List ℕ → List ℕ → List ℕ → Type 0
BaseOf root separator base =
    ((all is_separator root ≡ true) × (base ≡ root))
    ⊎ ((front : List ℕ) × (c : ℕ) × (ending : List ℕ) × (root ≡ (front ++ c ∷ []) ++ ending)
        × (is_separator c ≡ false)
        × (all is_separator ending ≡ true)
        × (base ≡ (front ++ c ∷ []) ++ separator))

-- What `strip_separators` takes off and leaves.
abbrev Stripped : List ℕ → List ℕ → Type 0
Stripped root stripped =
    ((all is_separator root ≡ true) × (stripped ≡ []))
    ⊎ ((front : List ℕ) × (c : ℕ) × (ending : List ℕ) × (root ≡ (front ++ c ∷ []) ++ ending)
        × (is_separator c ≡ false)
        × (all is_separator ending ≡ true)
        × (stripped ≡ front ++ c ∷ []))

kept_last :
    (d : ℕ) (cs stripped : List ℕ)
    → Stripped cs stripped
    → strip_separators cs ≡ stripped
    → Stripped (d ∷ cs) (strip_separators (d ∷ cs))
kept_last d cs stripped (inl (a, e)) h = elim (Bool-cases (is_separator d)) [
  | inl s ↦ inl (rw s a, rw (h ∙ e, s) refl)
  | inr n ↦ inr ([], d, cs, refl, n, a, rw (h ∙ e, n) refl)
]
kept_last d cs stripped (inr ([], c, ending, r, n, a, e)) h =
    inr (d ∷ [], c, ending, ap (◌∷◌ d) r, n, a, rw (h ∙ e) refl)
kept_last d cs stripped (inr (b ∷ bs, c, ending, r, n, a, e)) h =
    inr (d ∷ b ∷ bs, c, ending, ap (◌∷◌ d) r, n, a, rw (h ∙ e) refl)

strip-Stripped : (root : List ℕ) → Stripped root (strip_separators root)
strip-Stripped [] = inl (refl, refl)
strip-Stripped (d ∷ cs) = kept_last d cs (strip_separators cs) (strip-Stripped cs) refl

pub root_part-BaseOf : (root separator : List ℕ) → BaseOf root separator (root_part root separator)
root_part-BaseOf root separator = elim (strip-Stripped root) [
  | inl (a, e) ↦ inl (a, rw e refl)
  | inr ([], c, ending, r, n, a, e) ↦ inr ([], c, ending, r, n, a, rw e refl)
  | inr (b ∷ bs, c, ending, r, n, a, e) ↦ inr (b ∷ bs, c, ending, r, n, a, rw e refl)
]
