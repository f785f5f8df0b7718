-- ===== src/Semaphore/Tests.antt =====
-- The semaphore on concrete calls, and its theorems at concrete inputs.
use fancy_kit.Common.{
  ◌≤◌, ◌<◌, ◌≡◌, ◌≢◌, refl, ◌⊎◌, true, false, not, List, [], ◌∷◌, none, some, arith, ◌==◌,
}
use fancy_kit.Semaphore
use fancy_kit.Semaphore.{QueueNotifier, state_none, state_running}
use fancy_kit.Semaphore.Pump.{all_wait, runs, held, waiting, runs_before, too_big}
use fancy_kit.Semaphore.Valid.{Valid, Executed, acquire_in-Executed}
use fancy_kit.Semaphore.Release.{Releases, release-Releases}
use fancy_kit.Semaphore.Run.{Call, acquires, releases, times_out, step, run, run_limit}

program : Unit {0}
unfolding Semaphore.semaphore Semaphore.unfinished Semaphore.clear_timeout Semaphore.turn
    Semaphore.start Semaphore.pump Semaphore.exec_process Semaphore.find Semaphore.mark_done
    Semaphore.released Semaphore.release Semaphore.acquire_in Semaphore.timed_out step run
program = tt

-- Limit 3: call 0 holds 2, call 1 wants 2 and waits, call 2 wants 1 and waits behind it, call 3 too,
-- until a timer; then call 0 ends.
abbrev calls : List Call
calls = acquires 2 0 ∷ acquires 2 0 ∷ acquires 1 0 ∷ acquires 1 50 ∷ times_out 3 ∷ releases 0 ∷ []

calls_notified :
    (run (Semaphore.semaphore 3 true) calls).notified
    ≡ (0, true) ∷ (3, false) ∷ (1, true) ∷ (2, true) ∷ []
unfolding program
calls_notified = refl

second_release : Semaphore.release 0 (run (Semaphore.semaphore 3 true) calls) ≡ none
unfolding program
second_release = refl

abbrev holder : QueueNotifier
holder = record { key = 0; quantity = 2; state = state_running; timer = false }

abbrev waiter : QueueNotifier
waiter = record { key = 1; quantity = 2; state = state_none; timer = false }

abbrev busy : Semaphore.Semaphore
busy = record {
  limit = 3;
  current_processes = 2;
  queue = holder ∷ waiter ∷ [];
  next_key = 2;
  timers = [];
  notified = (0, true) ∷ [];
  on_release = false;
  reports = [];
}

busy-Valid : Valid busy
busy-Valid = record {
  phased = runs refl (omega arith) (all_wait (refl, omega arith, tt));
  counts = refl;
  within = omega arith;
  blocked = runs_before refl (too_big refl (omega arith));
}

acquire_in-Executed_example :
    ((3 < 1) × (Semaphore.acquire_in 1 0 busy ≡ none))
    ⊎ ((1 ≤ 3)
        × ((t : Semaphore.Semaphore) × (Semaphore.acquire_in 1 0 busy ≡ some (t, 2))
            × Executed 3
                ((0, true) ∷ [])
                (holder
                  ∷ waiter
                  ∷ record { key = 2; quantity = 1; state = state_none; timer = not (0 == 0) }
                  ∷ [])
                t))
acquire_in-Executed_example = acquire_in-Executed 1 0 busy busy-Valid

release-Releases_example : Releases 0 busy (Semaphore.release 0 busy)
release-Releases_example = release-Releases 0 busy busy-Valid

run_limit_example :
    let t = run (Semaphore.semaphore 3 true) calls in
    (held t.queue ≡ t.current_processes)
    × (t.current_processes ≤ 3)
    × (waiting t.queue ≢ [] → 0 < t.current_processes)
run_limit_example = run_limit 3 true calls
