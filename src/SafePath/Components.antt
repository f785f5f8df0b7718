-- ===== src/SafePath/Components.antt =====
-- The components that the validation lets through, and the walk along them.
use fancy_kit.Common.{or_left, or_right}
use fancy_kit.Common.{
  ℕ, zero, suc, ◌+◌, ◌≡◌, ◌↔◌, refl, ap, ◌∙◌, Bool, true, false, ◌&&◌, ◌||◌, List, [], ◌∷◌, Option,
  none, some, length, ◌==◌, if◌then◌else◌, if_cases, arith,
}
use fancy_kit.SafePath.{
  UnsafePathError, Reason, UnsafePathError, Parsed, safe, unsafe, any, all, is_separator,
  is_invalid, is_empty, is_dots, is_none, unsafe_component_reason, is_safe_path_component,
  refuse_component, first_unsafe, contains_control_character,
}
use fancy_kit.Common.Texts.{same}
use fancy_kit.SafePath.Split.{Clean}

abbrev pub AllSafe : List (List ℕ) → Type 0
AllSafe [] = Unit
AllSafe (c ∷ cs) = (unsafe_component_reason c ≡ none) × AllSafe cs

refuse_safe :
    (path c : List ℕ) (o : Option Reason) (rest : Parsed) (r : List ℕ)
    → refuse_component path c o rest ≡ safe r
    → (o ≡ none) × (rest ≡ safe r)
refuse_safe path c none rest r h = (refl, h)
refuse_safe path c (some x) rest r h = cc

pub first_unsafe_safe :
    (path : List ℕ) (cs : List (List ℕ)) (r : List ℕ)
    → first_unsafe path cs ≡ safe r
    → AllSafe cs × (path ≡ r)
first_unsafe_safe path [] r h = (tt, cc)
first_unsafe_safe path (c ∷ cs) r h =
    let (n, t) = refuse_safe path c (unsafe_component_reason c) (first_unsafe path cs) r h in
    let (s, e) = first_unsafe_safe path cs r t in ((n, s), e)

pub all_pass : (path : List ℕ) (cs : List (List ℕ)) → AllSafe cs → first_unsafe path cs ≡ safe path
all_pass path [] s = refl
all_pass path (c ∷ cs) (n, s) = rw n (all_pass path cs s)

is_none_iff : {A : Type 0} (o : Option A) → (is_none o ≡ true) ↔ (o ≡ none)
is_none_iff none = (λ _. refl, λ _. refl)
is_none_iff (some a) = (λ h. cc, λ h. cc)

and_left : (a b : Bool) → (a && b) ≡ true → a ≡ true
and_left true b h = refl
and_left false b h = cc

and_right : (a b : Bool) → (a && b) ≡ true → b ≡ true
and_right true b h = h
and_right false b h = cc

pub all_safe : (cs : List (List ℕ)) → all is_safe_path_component cs ≡ true → AllSafe cs
unfolding is_safe_path_component
all_safe [] h = tt
all_safe (c ∷ cs) h =
    ((is_none_iff (unsafe_component_reason c)).0 (and_left _ _ h), all_safe cs (and_right _ _ h))

pub safe_all : (cs : List (List ℕ)) → AllSafe cs → all is_safe_path_component cs ≡ true
unfolding is_safe_path_component
safe_all [] s = refl
safe_all (c ∷ cs) (n, s) = rw n (safe_all cs s)

pub empty_iff :
    (b : Bool) (path : List ℕ) (e : UnsafePathError)
    → (b ≡ true) ↔ ((if b then safe path else unsafe e) ≡ safe path)
empty_iff true path e = (λ _. refl, λ _. refl)
empty_iff false path e = (λ h. cc, λ h. cc)

reason-none :
    (c : List ℕ)
    → unsafe_component_reason c ≡ none
    → (is_empty c ≡ false) × (is_dots c ≡ false) × (any is_invalid c ≡ false)
unfolding unsafe_component_reason
reason-none c =
    let Q : Option Reason → Type 0 =
      λ o. o ≡ none → (is_empty c ≡ false) × (is_dots c ≡ false) × (any is_invalid c ≡ false) in
    if_cases Q (is_empty c) (λ _ h. cc)
      λ e.
        if_cases Q (is_dots c) (λ _ h. cc)
          λ d.
            if_cases Q (contains_control_character c) (λ _ h. cc)
              λ _. if_cases Q (any is_invalid c) (λ _ h. cc) λ i h. (e, d, i)

not_separator : (c : ℕ) → is_invalid c ≡ false → is_separator c ≡ false
not_separator c h =
    let r =
      or_right (c == 34) _ (or_right (c == 58) _ (or_right (c == 62) _ (or_right (c == 60) _ h))) in
    rw (or_left (c == 47) _ r, or_left (c == 92) _ (or_right (c == 47) _ r)) refl

invalid_separators : (x : List ℕ) → any is_invalid x ≡ false → any is_separator x ≡ false
invalid_separators [] h = refl
invalid_separators (c ∷ x) h =
    rw (not_separator c (or_left (is_invalid c) _ h))
      (invalid_separators x (or_right (is_invalid c) _ h))

pub AllSafe-Clean : (cs : List (List ℕ)) → AllSafe cs → Clean is_separator cs
AllSafe-Clean [] s = tt
AllSafe-Clean (c ∷ cs) (n, s) =
    let (e, d, i) = reason-none c n in (invalid_separators c i, AllSafe-Clean cs s)

-- Where a walk along the components from a directory at this depth below the root ends; `none` when
-- it leaves the root.
abbrev up : ℕ → Option ℕ
up zero = none
up (suc depth) = some depth

abbrev pub enter : ℕ → List ℕ → Option ℕ
enter depth c =
    if same c (46 ∷ 46 ∷ [])
    then up depth
    else if is_empty c || same c (46 ∷ [])
    then some depth
    else some (suc depth)

abbrev pub then_walk : (ℕ → Option ℕ) → Option ℕ → Option ℕ
then_walk next none = none
then_walk next (some depth) = next depth

abbrev pub walk : List (List ℕ) → ℕ → Option ℕ
walk [] depth = some depth
walk (c ∷ cs) depth = then_walk (walk cs) (enter depth c)

pub walk-AllSafe :
    (cs : List (List ℕ)) (depth : ℕ) → AllSafe cs → walk cs depth ≡ some (length cs + depth)
walk-AllSafe [] depth s = ap some (omega arith)
walk-AllSafe (c ∷ cs) depth (n, s) =
    let (e, d, i) = reason-none c n in
    rw (or_right (same c (46 ∷ [])) _ d, e, or_left (same c (46 ∷ [])) _ d)
      (walk-AllSafe cs (suc depth) s ∙ ap some (omega arith))
