-- ===== src/Permits/Tests.antt =====
-- The permits on concrete calls, and the theorems at concrete inputs.
use fancy_kit.Common.{◌+◌, ◌≤◌, ◌≡◌, ◌≢◌, refl, List, [], ◌∷◌, length}
use fancy_kit.Common.Int.{pos, ◌+ℤ◌, ◌-ℤ◌}
use fancy_kit.Permits
use fancy_kit.Permits.{permits, acquire, waits}
use fancy_kit.Permits.Single.{
  Call, acquires, tries, resumes, releases, times_out, step, run, start, run_permits,
}
use fancy_kit.Permits.Leak.{rounds, rounds_leak}

program : Unit {0}
unfolding Permits.permits Permits.acquire Permits.try_acquire Permits.release Permits.resume
    Permits.time_out step run start rounds ◌+ℤ◌ ◌-ℤ◌
program = tt

-- One permit: the second caller waits until the first releases, the third gives up.
abbrev calls : List Call
calls = acquires ∷ acquires ∷ tries ∷ times_out 1 ∷ releases 0 ∷ resumes ∷ releases 0 ∷ resumes ∷ []

calls_end : (run (start 1) calls).permits.counter ≡ pos 0
unfolding program
calls_end = refl

calls_midway : (run (start 1) (acquires ∷ acquires ∷ releases 0 ∷ resumes ∷ [])).holders ≡ 1 ∷ []
unfolding program
calls_midway = refl

run_permits_example :
    let l = run (start 1) calls in
    let n = length l.holders + length l.permits.scheduled in
    (l.permits.counter ≡ pos n) × (n ≤ 1) × (l.permits.queue ≢ [] → n ≡ 1)
run_permits_example = run_permits 1 calls

rounds_leak_example :
    let p = rounds 3 (permits 3) in
    (p.queue ≡ []) × (p.scheduled ≡ []) × ((acquire 1 p).1 ≡ waits 0)
rounds_leak_example = rounds_leak 3 1
