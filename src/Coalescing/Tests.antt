-- ===== src/Coalescing/Tests.antt =====
-- The notifier on concrete calls, and its theorems at concrete inputs.
use fancy_kit.Common.{ℕ, ◌≡◌, refl, true, false, List, [], ◌∷◌, none, some}
use fancy_kit.Deferred
use fancy_kit.Coalescing
use fancy_kit.Coalescing.{
  Options, Coalescing, created, create_notifier, update, new, reached, type_error, range_error,
}
use fancy_kit.Coalescing.Kept.{Kept}
use fancy_kit.Coalescing.Run.{Call, calls_update, times_out, step, run, run_loses_nothing}

program : Unit {0}
unfolding Deferred.create Deferred.fire Deferred.cancel Deferred.dispose Deferred.schedule
    Coalescing.create_notifier Coalescing.flush Coalescing.settle_update Coalescing.update
    Coalescing.dispose_notifier Coalescing.timeout step run
program = tt

-- Every third update, and 50 ms at most.
abbrev thirds : Options ℕ
thirds = record { every_count = some 3; max_wait_ms = some 50; get_count = none; leading = false }

-- Three updates, of which the third is delivered; one more that its timer delivers; one that waits.
abbrev calls : List (Call ℕ)
calls =
    calls_update 0 10
    ∷ calls_update 1 11
    ∷ calls_update 2 12
    ∷ calls_update 3 13
    ∷ times_out 0
    ∷ times_out 1
    ∷ calls_update 4 14
    ∷ []

calls_deliver : (run (new thirds) [] calls).0.notified ≡ 13 ∷ 12 ∷ []
unfolding program
calls_deliver = refl

no_limit :
    create_notifier {T = ℕ}
      (record { every_count = none; max_wait_ms = none; get_count = none; leading = true })
    ≡ type_error
unfolding program
no_limit = refl

zero_limit :
    create_notifier {T = ℕ}
      (record { every_count = some 0; max_wait_ms = none; get_count = none; leading = true })
    ≡ range_error
unfolding program
zero_limit = refl

thirds_created : create_notifier thirds ≡ created (new thirds)
unfolding program
thirds_created = refl

run_loses_nothing_example : let (t, us) = run (new thirds) [] calls in Kept t us
run_loses_nothing_example = run_loses_nothing thirds (new thirds) calls thirds_created

abbrev led : Options ℕ
led = record { every_count = some 3; max_wait_ms = none; get_count = none; leading = true }
