-- ===== src/Deferred/Tests.antt =====
-- The deferred action on concrete calls, and its theorems at concrete inputs.
use fancy_kit.Common.{◌≡◌, refl, true, false, List, [], ◌∷◌}
use fancy_kit.Deferred
use fancy_kit.Deferred.{create, fire, dispose, schedule, nothing, cancels, registers, fails}
use fancy_kit.Deferred.Once.{Call, calls_schedule, fires, Rising, step, run, run_once, dispose_ends}

program : Unit {0}
unfolding Deferred.create Deferred.fire Deferred.cancel Deferred.dispose Deferred.schedule step run
program = tt

-- The second schedule replaces the first; the third is cancelled in the scheduler's call.
abbrev calls : List Call
calls =
    calls_schedule 250 nothing (registers 7)
    ∷ calls_schedule 250 nothing (registers 8)
    ∷ fires 0
    ∷ fires 1
    ∷ fires 1
    ∷ calls_schedule 9 cancels (registers 9)
    ∷ fires 2
    ∷ []

calls_fired : (run (λ _. false) create calls).runs ≡ 1 ∷ []
unfolding program
calls_fired = refl

calls_cancelled : (run (λ _. false) create calls).cancelled ≡ 7 ∷ 9 ∷ []
unfolding program
calls_cancelled = refl

run_once_example : let s = run (λ _. true) create calls in Rising s.runs s.next_id
run_once_example = run_once (λ _. true) calls

dispose_ends_example :
    let s = run (λ _. false) create calls in
    (run (λ _. false) (dispose (λ _. false) s).0 (fires 2 ∷ [])).runs ≡ s.runs
dispose_ends_example = dispose_ends (λ _. false) calls (fires 2 ∷ [])
