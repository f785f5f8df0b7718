-- ===== src/Scope.antt =====
-- packages/octagonal-wheels/src/resource/scope.ts: `runScope`, `withScope` and the pipelines. An
-- operation is a function on the scope that it borrows; a cleanup is a name and how it settles, and
-- `ran` lists the cleanups that have run, newest first. `await` only orders these steps.
pub mod Cleanup
pub mod Pipeline
mod Tests
use fancy_kit.Common.{ℕ, Bool, true, false, List, [], ◌∷◌, ◌++◌, Option, none, some, if◌then◌else◌}

mutual
  -- A thrown value, or an `AggregateError` of several.
  pub data Failure : Type 0 where
    failure : ℕ → Failure
    aggregate_error : Failures → Failure
    scope_closed : Failure

  pub data Failures : Type 0 where
    no_failures : Failures
    and_then : Failure → Failures → Failures

pub data Phase : Type 0 where
  running closing closed : Phase

-- A registered callback: what it throws, if it does.
pub record Release : Type 0 where
  pub name : ℕ
  pub throws : Option Failure

-- The scope of the operation that runs. The array `cleanup` stands here newest first.
pub record Scope : Type 0 where
  pub phase : Phase
  pub cleanup : List Release
  pub ran : List ℕ

module _ {ℓ} where
  pub data Result (A : Type ℓ) : Type ℓ where
    returned : A → Result A
    threw : Failure → Result A

  -- A step of an operation.
  abbrev pub Scoped : Type ℓ → Type ℓ
  Scoped A = Scope → Scope × Result A

-- `Scope.defer`.
pub defer : Release → Scoped (Unit {0})
defer callback s = elim s.phase [
  | running ↦ (record s { cleanup = callback ∷ s.cleanup }, returned tt)
  | _ ↦ (s, threw scope_closed)
]

abbrev add_failure : Option Failure → List Failure → List Failure
add_failure none failures = failures
add_failure (some f) failures = failures ++ f ∷ []

-- The loop over the cleanups: each is run once, and what it throws is kept.
pub release_all : List Release → List ℕ → List Failure → List ℕ × List Failure
release_all [] ran failures = (ran, failures)
release_all (release ∷ rest) ran failures =
    release_all rest (release.name ∷ ran) (add_failure release.throws failures)

pub errors : List Failure → Failures
errors [] = no_failures
errors (f ∷ fs) = and_then f (errors fs)

module _ {ℓ} {A : Type ℓ} where
  abbrev pub failures_of : Result A → List Failure
  failures_of (returned a) = []
  failures_of (threw f) = f ∷ []

  -- What the scope throws or returns, by the failures that were kept.
  abbrev pub outcome : Result A → List Failure → Result A
  outcome r [] = r
  outcome r (f ∷ []) = threw f
  outcome r (f ∷ g ∷ fs) = threw (aggregate_error (errors (f ∷ g ∷ fs)))

  -- The scope of `operation` is its own; the caller's is as before, but for the trace.
  pub run_scope : Scoped A → Scoped A
  run_scope operation parent =
      let (s, result) = operation (record { phase = running; cleanup = []; ran = parent.ran }) in
      let (ran, failures) = release_all s.cleanup s.ran (failures_of result) in
      (record parent { ran = ran }, outcome result failures)

  -- The trace of the whole run, and how it settles.
  pub with_scope : Scoped A → List ℕ × Result A
  unfolding run_scope
  with_scope operation =
      let (s, result) = run_scope operation (record { phase = closed; cleanup = []; ran = [] }) in
      (s.ran, result)

-- A step of a pipeline, whose values are erased to one type at runtime.
pub record PipelineStep {ℓ} (V : Type ℓ) : Type ℓ where
  pub child : Bool
  pub operation : V → Scoped V

module _ {ℓ} {V : Type ℓ} where
  abbrev pub and_next : (V → Scoped V) → Scope × Result V → Scope × Result V
  and_next next (s, returned value) = next value s
  and_next next (s, threw f) = (s, threw f)

  pub run_step : PipelineStep V → V → Scoped V
  run_step step value =
      if step.child then run_scope (step.operation value) else step.operation value

  -- The pipeline with these steps.
  pub execute : List (PipelineStep V) → V → Scoped V
  execute [] value s = (s, returned value)
  execute (step ∷ steps) value s = and_next (execute steps) (run_step step value s)

  pub pipe : (V → Scoped V) → List (PipelineStep V) → List (PipelineStep V)
  pipe operation steps = steps ++ record { child = false; operation = operation } ∷ []

  pub pipe_scoped : (V → Scoped V) → List (PipelineStep V) → List (PipelineStep V)
  pipe_scoped operation steps = steps ++ record { child = true; operation = operation } ∷ []
