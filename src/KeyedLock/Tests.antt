-- ===== src/KeyedLock/Tests.antt =====
-- Keyed locks on concrete calls, and their theorems there. The keys are numbers.
use fancy_kit.Common.{ℕ, arith, ◌≡◌, refl, List, [], ◌∷◌, some, true, false, ◌==◌, ==_iff}
use fancy_kit.KeyedLock.{
  Event, stops, locks, calls, continues, settles, Status, runs, ends, run, task, has_ended,
  no_locks, with_lock, next_task, end_task, release, is_lock_acquired,
}
use fancy_kit.KeyedLock.Programs.{AllUnnested}
use fancy_kit.KeyedLock.Run.{running, run_in_order}
use fancy_kit.KeyedLock.Progress.{CanProceed, run_proceeds}

-- Two calls for a key, whose first operation locks another key for an operation that throws at once; the
-- end of the first and the start of the second.
abbrev two_calls : List (Event ℕ)
two_calls =
    calls 7 (locks 8 (stops true) (stops false))
    ∷ calls 7 (stops false)
    ∷ settles 0
    ∷ continues 2 (stops false)
    ∷ []

unnested : AllUnnested ◌==◌ two_calls
unnested = (((tt, refl), tt, tt), (tt, (tt, (tt, tt))))

first_ended : task 0 (run ◌==◌ two_calls no_locks).tasks ≡ some (7, ends)
unfolding with_lock next_task end_task release
first_ended = refl

second_runs : task 2 (run ◌==◌ two_calls no_locks).tasks ≡ some (7, runs)
unfolding with_lock next_task end_task release
second_runs = refl

-- An operation that throws at once leaves its promise in the map.
stale_promise : (run ◌==◌ (calls 8 (stops true) ∷ []) no_locks).serialized_map ≡ (8, 0) ∷ []
unfolding with_lock next_task end_task release
stale_promise = refl

run_in_order_example : has_ended (task 0 (run ◌==◌ two_calls no_locks).tasks) ≡ true
run_in_order_example =
    run_in_order ◌==◌ ==_iff two_calls 0 2 7 ends runs unnested (omega arith) first_ended
      second_runs running

run_proceeds_example :
    let s = run ◌==◌ two_calls no_locks in
    (is_lock_acquired ◌==◌ 7 s ≡ true → CanProceed ◌==◌ ==_iff 7 s.tasks)
    × ((n : ℕ) (status : Status)
        → task n s.tasks ≡ some (7, status)
        → is_lock_acquired ◌==◌ 7 s ≡ false
        → status ≡ ends)
run_proceeds_example = run_proceeds ◌==◌ ==_iff two_calls 7 unnested
