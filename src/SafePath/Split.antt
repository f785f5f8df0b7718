-- ===== src/SafePath/Split.antt =====
-- Splitting and joining at separators.
use fancy_kit.Common.{or_left, or_right}
use fancy_kit.Common.{
  ℕ, ◌≡◌, refl, sym, ap, ap₂, ◌∙◌, Bool, true, false, List, [], ◌∷◌, ◌++◌, if_cases,
}
use fancy_kit.SafePath.{any, split, join, cons_head}

module _ (p : ℕ → Bool) where
  pub split_one : (x : List ℕ) → any p x ≡ false → split p x ≡ x ∷ []
  split_one [] h = refl
  split_one (c ∷ x) h = rw (or_left (p c) _ h) (ap (cons_head c) (split_one x (or_right (p c) _ h)))

  split_next :
      (x : List ℕ) (s : ℕ) (rest : List ℕ)
      → any p x ≡ false
      → p s ≡ true
      → split p (x ++ (s ∷ []) ++ rest) ≡ x ∷ split p rest
  split_next [] s rest h e = rw e refl
  split_next (c ∷ x) s rest h e =
      rw (or_left (p c) _ h) (ap (cons_head c) (split_next x s rest (or_right (p c) _ h) e))

  -- No part has a separator.
  abbrev pub Clean : List (List ℕ) → Type 0
  Clean [] = Unit
  Clean (x ∷ xs) = (any p x ≡ false) × Clean xs

  pub split-join :
      (s : ℕ) (x : List ℕ) (xs : List (List ℕ))
      → p s ≡ true
      → any p x ≡ false
      → Clean xs
      → split p (join (s ∷ []) (x ∷ xs)) ≡ x ∷ xs
  split-join s x [] e h c = split_one x h
  split-join s x (y ∷ ys) e h (k, c) =
      split_next x s (join (s ∷ []) (y ∷ ys)) h e ∙ ap (◌∷◌ x) (split-join s y ys e k c)

  pub split_parts : (cs : List ℕ) → (x : List ℕ) × (xs : List (List ℕ)) × (split p cs ≡ x ∷ xs)
  split_parts [] = ([], [], refl)
  split_parts (c ∷ cs) =
      let (x, xs, e) = split_parts cs in
      if_cases (λ (r : List (List ℕ)). (x : List ℕ) × (xs : List (List ℕ)) × (r ≡ x ∷ xs)) (p c)
        (λ _. ([], split p cs, refl)) λ _. (c ∷ x, xs, ap (cons_head c) e)

  join_head :
      (s c : ℕ) (x : List ℕ) (xs : List (List ℕ))
      → join (s ∷ []) ((c ∷ x) ∷ xs) ≡ c ∷ join (s ∷ []) (x ∷ xs)
  join_head s c x [] = refl
  join_head s c x (y ∷ ys) = refl

  -- Joining with the separator undoes the split.
  pub join-split :
      (s : ℕ) (cs : List ℕ) → ((c : ℕ) → p c ≡ true → c ≡ s) → join (s ∷ []) (split p cs) ≡ cs
  join-split s [] h = refl
  join-split s (c ∷ cs) h =
      let (x, xs, e) = split_parts cs in
      let rest = ap (join (s ∷ [])) (sym e) ∙ join-split s cs h in
      if_cases (λ (r : List (List ℕ)). join (s ∷ []) r ≡ c ∷ cs) (p c)
        (λ t. ap (λ r. join (s ∷ []) ([] ∷ r)) e ∙ ap₂ (λ c cs. c ∷ cs) (sym (h c t)) rest)
        λ _. ap (λ r. join (s ∷ []) (cons_head c r)) e ∙ join_head s c x xs ∙ ap (◌∷◌ c) rest
