-- ===== src/Semaphore/Run.antt =====
-- Sequences of calls of the semaphore: the limit holds, and nobody waits for nothing.
use fancy_kit.Common.{
  ℕ, ◌+◌, ◌≤◌, ◌<◌, ◌≡◌, ◌≢◌, refl, ap, ◌∙◌, inl, inr, Bool, List, [], ◌∷◌, Option, none, some,
  arith,
}
use fancy_kit.Semaphore.{
  QueueNotifier, Semaphore, semaphore, release, acquire_in, timed_out, refuse, clear_timeout,
  state_none,
}
use fancy_kit.Semaphore.Pump.{
  AllWait, Phased, all_wait, runs, held, waiting, Blocked, none_waits, runs_before, too_big,
  waiting_in,
}
use fancy_kit.Semaphore.Valid.{Valid, acquire_in-Executed}
use fancy_kit.Semaphore.Release.{Releases, missing, ended, withdrawn, release-Releases}

pub data Call : Type 0 where
  acquires : ℕ → ℕ → Call
  releases : ℕ → Call
  times_out : ℕ → Call

abbrev after : Semaphore → Option Semaphore → Semaphore
after s none = s
after s (some t) = t

abbrev after_acquire : Semaphore → Option (Semaphore × ℕ) → Semaphore
after_acquire s none = s
after_acquire s (some (t, key)) = t

-- A call that throws leaves the semaphore as it was.
unfoldable pub step : Semaphore → Call → Semaphore
step s (acquires quantity timeout) = after_acquire s (acquire_in quantity timeout s)
step s (releases key) = after s (release key s)
step s (times_out key) = after s (timed_out key s)

unfoldable pub run : Semaphore → List Call → Semaphore
run s [] = s
run s (c ∷ cs) = run (step s c) cs

-- A valid semaphore with this limit.
abbrev Within : ℕ → Semaphore → Type 0
Within limit s = Valid s × (s.limit ≡ limit)

acquire-Within :
    (limit quantity timeout : ℕ) (s : Semaphore)
    → Within limit s
    → Within limit (after_acquire s (acquire_in quantity timeout s))
acquire-Within limit quantity timeout s (v, l) = elim (acquire_in-Executed quantity timeout s v) [
  | inl (_, n) ↦ rw n (v, l)
  | inr (_, (t, e, x)) ↦ rw e (x.valid, x.limit ∙ l)
]

released-Within :
    (limit key : ℕ) (s : Semaphore) (r : Option Semaphore)
    → Within limit s
    → Releases key s r
    → Within limit (after s r)
released-Within limit key s _ w (missing n) = w
released-Within limit key s _ (v, l) (ended b i a e k r h x) = (x.valid, x.limit ∙ l)
released-Within limit key s _ (v, l) (withdrawn b i a e k r h x) = (x.valid, x.limit ∙ l)

-- The state of a timer that has fired.
fired : ℕ → Semaphore → Semaphore
fired key s = record s { timers = clear_timeout key s.timers }

fired-Valid : (key : ℕ) (s : Semaphore) → Valid s → Valid (fired key s)
unfolding fired
fired-Valid key s v = record {
  phased = v.phased;
  counts = v.counts;
  within = v.within;
  blocked = v.blocked;
}

refused-Within :
    (limit key : ℕ) (s : Semaphore) (r : Option Semaphore)
    → Within limit s
    → Within limit (after (fired key s) r)
    → Within limit (after s (refuse key r))
refused-Within limit key s none w v = w
refused-Within limit key s (some t) w (v, l) =
    (record { phased = v.phased; counts = v.counts; within = v.within; blocked = v.blocked }, l)

step-Within : (limit : ℕ) (s : Semaphore) (c : Call) → Within limit s → Within limit (step s c)
unfolding step timed_out fired
step-Within limit s (acquires q t) w = acquire-Within limit q t s w
step-Within limit s (releases key) w = released-Within limit key s _ w (release-Releases key s w.0)
step-Within limit s (times_out key) w = refused-Within limit key s (release key (fired key s)) w (
    released-Within limit key (fired key s) _ (fired-Valid key s w.0, w.1)
      (release-Releases key (fired key s) (fired-Valid key s w.0)))

run-Within : (limit : ℕ) (s : Semaphore) (cs : List Call) → Within limit s → Within limit (run s cs)
unfolding run
run-Within limit s [] w = w
run-Within limit s (c ∷ cs) w = run-Within limit (step s c) cs (step-Within limit s c w)

Blocked-head :
    {limit current : ℕ} {e : QueueNotifier} {es : List QueueNotifier}
    → Blocked limit current (e ∷ es)
    → e.state ≡ state_none
    → limit < e.quantity + current
Blocked-head (runs_before r b) n = cc
Blocked-head (too_big m big) n = big

-- A waiting item is within the limit, so that it fits unless something is held.
waits_busy :
    (limit current : ℕ) (es : List QueueNotifier)
    → AllWait limit es
    → Blocked limit current es
    → waiting es ≢ []
    → 0 < current
waits_busy limit current [] a b h = absurd (h refl)
waits_busy limit current (e ∷ es) (n, q, a) b h = omega (arith, Blocked-head b n, q)

Blocked-busy :
    {limit current : ℕ} {es : List QueueNotifier}
    → Phased limit es
    → Blocked limit current es
    → waiting es ≢ []
    → 0 < current
Blocked-busy (all_wait a) b h = waits_busy _ _ _ a b h
Blocked-busy (runs {e} {es} r q p) (runs_before r' b) h =
    Blocked-busy p b (λ w. h (ap (λ c. waiting_in c e.key (waiting es)) r ∙ w))
Blocked-busy (runs r q p) (too_big n big) h = cc

-- After any calls of `acquire`, `tryAcquire`, releasers and timers on a new semaphore, the running
-- calls hold together what `current_processes` says, never more than the limit; and while a call
-- waits, some running call holds a quantity, so that a release is still to come.
pub run_limit :
    (limit : ℕ) (on_release : Bool) (cs : List Call)
    → let t = run (semaphore limit on_release) cs in
      (held t.queue ≡ t.current_processes)
      × (t.current_processes ≤ limit)
      × (waiting t.queue ≢ [] → 0 < t.current_processes)
unfolding semaphore
run_limit limit on_release cs =
    let (v, l) = run-Within limit (semaphore limit on_release) cs (
      record { phased = all_wait tt; counts = refl; within = omega arith; blocked = none_waits },
      refl,
    ) in
    (v.counts, omega (arith, v.within, l), Blocked-busy v.phased v.blocked)
