-- ===== src/Scope/Tests.antt =====
-- Scopes on concrete operations, and the theorems at concrete inputs.
use mathlib.Core.List.{reverse}
use fancy_kit.Common.{ℕ, ◌≡◌, refl, true, [], ◌∷◌, ◌++◌, none, some}
use fancy_kit.Scope
use fancy_kit.Scope.{
  Failure, failure, aggregate_error, and_then, no_failures, scope_closed, Phase, running, closing,
  closed, Release, Scope, Result, returned, threw, Scoped, PipelineStep, and_next, run_scope,
  with_scope, execute, pipe, pipe_scoped, outcome, failures_of, defer,
}
use fancy_kit.Scope.Cleanup.{opened, names, thrown, run_scope_cleans}

program : Unit {0}
unfolding Scope.defer Scope.release_all Scope.errors Scope.run_scope Scope.with_scope Scope.run_step
    Scope.execute Scope.pipe Scope.pipe_scoped
program = tt

abbrev quiet : ℕ → Release
quiet n = record { name = n; throws = none }

abbrev noisy : ℕ → Release
noisy n = record { name = n; throws = some (failure n) }

-- Registers two cleanups, of which the first throws, and returns 5.
abbrev two_cleanups : Scoped ℕ
two_cleanups s = ((defer (quiet 2) (defer (noisy 1) s).0).0, returned 5)

abbrev outside : Scope
outside = record { phase = running; cleanup = quiet 9 ∷ []; ran = [] }

cleanups_run : with_scope two_cleanups ≡ (1 ∷ 2 ∷ [], threw (failure 1))
unfolding program
cleanups_run = refl

both_throw :
    (with_scope {A = ℕ} (λ s. ((defer (noisy 2) (defer (noisy 1) s).0).0, threw (failure 0)))).1
    ≡ threw (
        aggregate_error
          (and_then (failure 0) (and_then (failure 2) (and_then (failure 1) no_failures))))
unfolding program
both_throw = refl

late_defer :
    (defer (quiet 1) (record { phase = closing; cleanup = []; ran = [] })).1 ≡ threw scope_closed
unfolding program
late_defer = refl

run_scope_cleans_example :
    let (s, result) = two_cleanups (opened outside) in
    run_scope two_cleanups outside ≡ (
      record { phase = running; cleanup = quiet 9 ∷ []; ran = reverse (names s.cleanup) ++ s.ran },
      outcome result (failures_of result ++ thrown s.cleanup),
    )
run_scope_cleans_example = run_scope_cleans two_cleanups outside

abbrev guarded : PipelineStep ℕ
guarded = record { child = true; operation = λ v s. ((defer (quiet v) s).0, returned v) }
