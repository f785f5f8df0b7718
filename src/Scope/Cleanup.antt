-- ===== src/Scope/Cleanup.antt =====
-- Every registered cleanup runs once, newest first, and no failure is lost.
use mathlib.Core.List.{reverse, reverse-cons}
use fancy_kit.Common.{
  ℕ, ◌≡◌, ◌↔◌, refl, sym, ap, ap₂, ◌∙◌, List, [], ◌∷◌, ◌++◌, Option, none, some, map, append_assoc,
  append-nil,
}
use fancy_kit.Scope.{
  Failure, running, Release, Scope, Result, returned, threw, Scoped, release_all, failures_of,
  outcome, run_scope, add_failure,
}

abbrev pub thrown_in : Option Failure → List Failure → List Failure
thrown_in none fs = fs
thrown_in (some f) fs = f ∷ fs

-- What the cleanups throw, in the order of the list.
abbrev pub thrown : List Release → List Failure
thrown [] = []
thrown (r ∷ rs) = thrown_in r.throws (thrown rs)

abbrev pub names : List Release → List ℕ
names = map (λ r. r.name)

keep_failure :
    (o : Option Failure) (fs gs : List Failure) → add_failure o fs ++ gs ≡ fs ++ thrown_in o gs
keep_failure none fs gs = refl
keep_failure (some f) fs gs = append_assoc fs (f ∷ []) gs

release_all_lem :
    (rs : List Release) (ran : List ℕ) (fs : List Failure)
    → release_all rs ran fs ≡ (reverse (names rs) ++ ran, fs ++ thrown rs)
unfolding release_all
release_all_lem [] ran fs = ap (λ f. (ran, f)) (sym (append-nil fs))
release_all_lem (r ∷ rs) ran fs =
    release_all_lem rs (r.name ∷ ran) (add_failure r.throws fs)
    ∙ ap₂ (λ t f. (t, f))
        (sym (
          ap (λ l. l ++ ran) (reverse-cons r.name (names rs))
          ∙ append_assoc (reverse (names rs)) (r.name ∷ []) ran))
        (keep_failure r.throws fs (thrown rs))

-- The scope that an operation is given.
abbrev pub opened : Scope → Scope
opened parent = record { phase = running; cleanup = []; ran = parent.ran }

module _ {ℓ} {A : Type ℓ} where
  -- `runScope` runs each cleanup that the operation registered once, the newest first, after the
  -- operation, whether it returned or threw; it leaves the enclosing scope's registrations alone. The
  -- failures that it goes by are that of the operation and then those of the cleanups, in the order
  -- in which they ran.
  pub run_scope_cleans :
      (operation : Scoped A) (parent : Scope)
      → let (s, result) = operation (opened parent) in
        run_scope operation parent ≡ (
          record parent { ran = reverse (names s.cleanup) ++ s.ran },
          outcome result (failures_of result ++ thrown s.cleanup),
        )
  unfolding run_scope
  run_scope_cleans operation parent =
      let (s, result) = operation (opened parent) in
      ap (λ r. (record parent { ran = r.0 }, outcome result r.1))
        (release_all_lem s.cleanup s.ran (failures_of result))

  outcome-returned :
      (r : Result A) (fs : List Failure) (a : A)
      → outcome r (failures_of r ++ fs) ≡ returned a
      → (r ≡ returned a) × (fs ≡ [])
  outcome-returned (returned b) [] a e = (e, refl)
  outcome-returned (returned b) (f ∷ []) a e = cc
  outcome-returned (returned b) (f ∷ g ∷ fs) a e = cc
  outcome-returned (threw f) [] a e = cc
  outcome-returned (threw f) (g ∷ fs) a e = cc

  -- `runScope` returns a value exactly if the operation returns it and no cleanup throws.
  pub run_scope_returns :
      (operation : Scoped A) (parent : Scope) (a : A)
      → let (s, result) = operation (opened parent) in
        ((run_scope operation parent).1 ≡ returned a)
        ↔ ((result ≡ returned a) × (thrown s.cleanup ≡ []))
  run_scope_returns operation parent a =
      let (s, result) = operation (opened parent) in
      let e = ap (λ r. r.1) (run_scope_cleans operation parent) in
      (
        λ h. outcome-returned result (thrown s.cleanup) a (sym e ∙ h),
        λ h. e ∙ ap₂ (λ r fs. outcome r (failures_of r ++ fs)) h.0 h.1,
      )
