-- ===== src/Coalescing.antt =====
-- packages/octagonal-wheels/src/concurrency/coalescingNotifier.ts: `createCoalescingNotifier`, with its
-- timer a deferred action. The scheduler registers each timeout, under a number that the call takes;
-- no cancellation throws, and `onNotify` returns without calling the notifier.
pub mod Kept
pub mod Run
mod Tests
use fancy_kit.Common.{
  ℕ, suc, ◌+◌, Bool, true, false, not, ◌&&◌, ◌||◌, List, [], ◌∷◌, Option, none, some, leb, ◌==◌,
  if◌then◌else◌,
}
use fancy_kit.Deferred
use fancy_kit.Deferred.{Deferred, nothing, registers, is_current, fire, schedule}

module _ {ℓ} where
  pub record Options (T : Type ℓ) : Type ℓ where
    pub every_count : Option ℕ
    pub max_wait_ms : Option ℕ
    pub get_count : Option (T → ℕ)
    pub leading : Bool

  pub record Coalescing (T : Type ℓ) : Type ℓ where
    pub options : Options T
    pub pending : Option (T × ℕ)
    pub update_count : ℕ
    pub last_notified_count : ℕ
    pub has_notified : Bool
    pub disposed : Bool
    pub timer : Option Deferred
    -- The values that `onNotify` was called with, newest first.
    pub notified : List T

  -- A notifier, or the error that is thrown.
  pub data Created (T : Type ℓ) : Type ℓ where
    created : Coalescing T → Created T
    type_error range_error : Created T

abbrev pub new_timer : Option ℕ → Option Deferred
new_timer none = none
new_timer (some max_wait_ms) = some Deferred.create

abbrev pub cancel_timer : Option Deferred → Option Deferred
cancel_timer none = none
cancel_timer (some d) = some (Deferred.cancel (λ _. false) d).0

abbrev pub dispose_timer : Option Deferred → Option Deferred
dispose_timer none = none
dispose_timer (some d) = some (Deferred.dispose (λ _. false) d).0

abbrev pub schedule_timer : ℕ → ℕ → Option Deferred → Option Deferred
schedule_timer registration max_wait_ms none = none
schedule_timer registration max_wait_ms (some d) =
    some (schedule (λ _. false) max_wait_ms nothing (registers registration) d).0

abbrev pub reached : Option ℕ → ℕ → ℕ → Bool
reached none count last = false
reached (some every_count) count last = leb (last + every_count) count

module _ {ℓ} {T : Type ℓ} where
  abbrev pub new : Options T → Coalescing T
  new options = record {
    options = options;
    pending = none;
    update_count = 0;
    last_notified_count = 0;
    has_notified = false;
    disposed = false;
    timer = new_timer options.max_wait_ms;
    notified = [];
  }

  abbrev pub checked : Option ℕ → Option ℕ → Coalescing T → Created T
  checked none none s = type_error
  checked (some every_count) w s = if every_count == 0 then range_error else created s
  checked none (some w) s = created s

  -- A count and a delay are natural numbers here, so 0 is the only count out of range.
  pub create_notifier : Options T → Created T
  create_notifier options = checked options.every_count options.max_wait_ms (new options)

  abbrev pub flush_in : Option (T × ℕ) → Coalescing T → Coalescing T
  flush_in none s = s
  flush_in (some (value, count)) s = record s {
    pending = none;
    last_notified_count = count;
    has_notified = true;
    timer = cancel_timer s.timer;
    notified = value ∷ s.notified;
  }

  pub flush : Coalescing T → Coalescing T
  flush s = if s.disposed then s else flush_in s.pending s

  abbrev pub wait : ℕ → Option ℕ → Bool → Coalescing T → Coalescing T
  wait registration (some max_wait_ms) false s = record s {
    timer = schedule_timer registration max_wait_ms s.timer;
  }
  wait registration w was_pending s = s

  abbrev pub is_pending : Option (T × ℕ) → Bool
  is_pending none = false
  is_pending (some p) = true

  -- With the value and its count recorded: deliver at once, or see that a timer runs.
  pub settle_update : ℕ → Bool → ℕ → Coalescing T → Coalescing T
  settle_update registration was_pending count s =
      if (s.options.leading && not s.has_notified)
        || reached s.options.every_count count s.last_notified_count
      then flush s
      else wait registration s.options.max_wait_ms was_pending s

  -- The count of an update, and the updates counted from then on.
  abbrev pub counted : Option (T → ℕ) → T → ℕ → ℕ × ℕ
  counted none value update_count = (suc update_count, suc update_count)
  counted (some get_count) value update_count = (get_count value, update_count)

  pub update : ℕ → T → Coalescing T → Coalescing T
  update registration value s =
      if s.disposed
      then s
      else (let (count, update_count) = counted s.options.get_count value s.update_count in
          settle_update registration (is_pending s.pending) count
            (record s { pending = some (value, count); update_count = update_count }))

  pub dispose_notifier : Coalescing T → Coalescing T
  dispose_notifier s =
      if s.disposed
      then s
      else record s { disposed = true; pending = none; timer = dispose_timer s.timer }

  abbrev pub timeout_in : ℕ → Option Deferred → Coalescing T → Coalescing T
  timeout_in id none s = s
  timeout_in id (some d) s =
      if is_current id d.pending then flush (record s { timer = some (fire id d) }) else s

  -- The scheduler's call of the timer's function.
  pub timeout : ℕ → Coalescing T → Coalescing T
  timeout id s = timeout_in id s.timer s
