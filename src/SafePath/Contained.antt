-- ===== src/SafePath/Contained.antt =====
-- What the validation lets through: two descriptions agree, and a resolved path stays below its root.
use fancy_kit.Common.{
  ℕ, ◌≡◌, ◌↔◌, ◌⊎◌, inl, inr, refl, sym, ap, ◌∙◌, subst, Bool, true, false, ◌||◌, List, [], ◌∷◌,
  ◌++◌, Option, none, some, length, ==_iff, if◌then◌else◌, if_cases, arith, Bool-cases,
}
use fancy_kit.SafePath.{
  UnsafePathError, UnsafePathError, Parsed, safe, unsafe, is_slash, is_separator, is_empty, split,
  join, is_absolute, parse_safe_relative_path, is_safe_relative_path, Resolved, resolved, root_part,
  resolve_safe, separator_or_slash, resolve_path_within_root,
}
use fancy_kit.Common.Texts.{same, same_iff}
use fancy_kit.SafePath.Roots.{BaseOf, root_part-BaseOf}
use fancy_kit.SafePath.Split.{split-join, join-split, split_parts}
use fancy_kit.SafePath.Components.{
  AllSafe-Clean, all_pass, all_safe, empty_iff, first_unsafe_safe, safe_all, walk-AllSafe, AllSafe,
  walk,
}

parse_safe :
    (allow_empty : Bool) (path r : List ℕ)
    → parse_safe_relative_path allow_empty path ≡ safe r
    → (path ≡ r) × ((is_empty path ≡ true) ⊎ AllSafe (split is_slash path))
unfolding parse_safe_relative_path
parse_safe allow_empty path r =
    let Q : Parsed → Type 0 =
      λ o. o ≡ safe r → (path ≡ r) × ((is_empty path ≡ true) ⊎ AllSafe (split is_slash path)) in
    if_cases Q (is_empty path) (λ e. if_cases Q allow_empty (λ _ h. (cc, inl e)) (λ _ h. cc))
      λ _.
        if_cases Q (is_absolute path) (λ _ h. cc)
          λ _ h. let (s, e) = first_unsafe_safe path (split is_slash path) r h in (e, inr s)

accepts_iff :
    (allow_empty : Bool) (path : List ℕ)
    → (is_safe_relative_path allow_empty path ≡ true)
      ↔ (parse_safe_relative_path allow_empty path ≡ safe path)
unfolding is_safe_relative_path parse_safe_relative_path
accepts_iff allow_empty path = elim (Bool-cases (is_empty path)) [
  | inl e ↦ rw e (empty_iff allow_empty path _)
  | inr e ↦ elim (Bool-cases (is_absolute path)) [
    | inl a ↦ rw (e, a) (λ h. cc, λ h. cc)
    | inr a ↦
        rw (e, a)
          (
            λ h. all_pass path (split is_slash path) (all_safe (split is_slash path) h),
            λ h.
                safe_all (split is_slash path)
                  (first_unsafe_safe path (split is_slash path) path h).0,
          )
  ]
]

refused :
    (allow_empty : Bool) (path : List ℕ) (o : Parsed)
    → parse_safe_relative_path allow_empty path ≡ o
    → is_safe_relative_path allow_empty path ≡ false
    → (e : UnsafePathError) × (o ≡ unsafe e)
refused allow_empty path (unsafe e) h f = (e, refl)
refused allow_empty path (safe r) h f =
    let (same_path, _) = parse_safe allow_empty path r h in
    let t = (accepts_iff allow_empty path).1 (h ∙ ap safe (sym same_path)) in
    absurd (let x : true ≡ false = sym t ∙ f in cc)

-- `isSafeRelativePath` holds exactly of the paths that `parseSafeRelativePath` gives back as they
-- are; on any other path, `parseSafeRelativePath` throws an `UnsafePathError`.
pub is_safe_iff :
    (allow_empty : Bool) (path : List ℕ)
    → ((is_safe_relative_path allow_empty path ≡ true)
        ↔ (parse_safe_relative_path allow_empty path ≡ safe path))
      × (is_safe_relative_path allow_empty path ≡ false
          → (e : UnsafePathError) × (parse_safe_relative_path allow_empty path ≡ unsafe e))
is_safe_iff allow_empty path = (
  accepts_iff allow_empty path,
  refused allow_empty path (parse_safe_relative_path allow_empty path) refl,
)

resolve_safe-safe :
    (root s out : List ℕ) (o : Parsed)
    → resolve_safe root s o ≡ resolved out
    → (r : List ℕ) × (o ≡ safe r)
resolve_safe-safe root s out (safe r) h = (r, refl)
resolve_safe-safe root s out (unsafe e) h = cc

nil_of_empty : (path : List ℕ) → is_empty path ≡ true → path ≡ []
nil_of_empty [] e = refl
nil_of_empty (c ∷ cs) e = cc

rejoined :
    (s : ℕ) (path : List ℕ)
    → is_separator s ≡ true
    → AllSafe (split is_slash path)
    → split is_separator (join (s ∷ []) (split is_slash path)) ≡ split is_slash path
rejoined s path t a =
    let (x, xs, e) = split_parts is_slash path in
    let (c, cs) = AllSafe-Clean (x ∷ xs) (subst AllSafe e a) in
    ap (λ l. split is_separator (join (s ∷ []) l)) e ∙ split-join is_separator s x xs t c cs ∙ sym e

-- The relative part of a resolved path, for either separator.
joined_split :
    (path : List ℕ) (slash : Bool)
    → AllSafe (split is_slash path)
    → split is_separator (if slash then path else join (92 ∷ []) (split is_slash path))
      ≡ split is_slash path
joined_split path true a =
    ap (split is_separator) (sym (join-split is_slash 47 path (λ c h. (==_iff c 47).0 h)))
    ∙ rejoined 47 path refl a
joined_split path false a = rejoined 92 path refl a

-- The separator is the one of the call, or a slash.
abbrev pub Chosen : Option (List ℕ) → List ℕ → Type 0
Chosen none separator = separator ≡ 47 ∷ []
Chosen (some given) separator = separator ≡ given

chosen : (separator : Option (List ℕ)) → Chosen separator (separator_or_slash separator)
chosen none = refl
chosen (some given) = refl

-- What a resolved path is made of.
abbrev pub Parts : List ℕ → List ℕ → List ℕ → List ℕ → Type 0
Parts root path separator out =
    ((path ≡ []) × (out ≡ root))
    ⊎ ((base joined : List ℕ) × BaseOf root separator base
        × ((separator ≡ 47 ∷ []) ⊎ (separator ≡ 92 ∷ []))
        × (out ≡ base ++ joined)
        × (split is_separator joined ≡ split is_slash path)
        × (walk (split is_separator joined) 0 ≡ some (length (split is_slash path))))

separators :
    (s : List ℕ) → (same s (47 ∷ []) || same s (92 ∷ [])) ≡ true → (s ≡ 47 ∷ []) ⊎ (s ≡ 92 ∷ [])
separators s t = elim (Bool-cases (same s (47 ∷ []))) [
  | inl e ↦ inl ((same_iff s (47 ∷ [])).0 e)
  | inr n ↦ inr ((same_iff s (92 ∷ [])).0 (rw n at t))
]

resolve_safe-Parts :
    (root path s out : List ℕ)
    → (is_empty path ≡ true) ⊎ AllSafe (split is_slash path)
    → resolve_safe root s (safe path) ≡ resolved out
    → Parts root path s out
resolve_safe-Parts root path s out either =
    let Q : Resolved → Type 0 = λ o. o ≡ resolved out → Parts root path s out in
    if_cases Q (same s (47 ∷ []) || same s (92 ∷ []))
      (λ t.
        if_cases Q (is_empty path) (λ e h. inl (nil_of_empty path e, cc))
          λ n h. elim either [
            | inl e ↦ absurd (let x : false ≡ true = sym n ∙ e in cc)
            | inr a ↦
                let joined =
                  if same s (47 ∷ []) then path else join (92 ∷ []) (split is_slash path) in
                let j = joined_split path (same s (47 ∷ [])) a in
                inr (
                  root_part root s,
                  joined,
                  root_part-BaseOf root s,
                  separators s t,
                  cc,
                  j,
                  ap (λ l. walk l 0) j
                      ∙ walk-AllSafe (split is_slash path) 0 a
                      ∙ ap some (omega arith),
                )
          ])
      λ _ h. cc

-- A path that `resolvePathWithinRoot` returns is the root itself, for the empty path, or the root
-- with the separators at its end replaced by one, which is the call's, `/` or `\`, or else `/`, and a relative
-- part (a root of separators only stands as it is): read with either separator, that part has exactly
-- the components of the given path, and a walk along them goes down at every step.
pub resolve_contained :
    (root path : List ℕ) (allow_empty : Bool) (separator : Option (List ℕ)) (out : List ℕ)
    → resolve_path_within_root root path allow_empty separator ≡ resolved out
    → (s : List ℕ) × Chosen separator s × Parts root path s out
unfolding resolve_path_within_root
resolve_contained root path allow_empty separator out h =
    let s = separator_or_slash separator in
    let (r, p) = resolve_safe-safe root s out (parse_safe_relative_path allow_empty path) h in
    let (e, either) = parse_safe allow_empty path r p in
    let h' = ap (resolve_safe root s) (sym (p ∙ ap safe (sym e))) ∙ h in
    (s, chosen separator, resolve_safe-Parts root path s out either h')
