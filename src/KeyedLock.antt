-- ===== src/KeyedLock.antt =====
-- packages/octagonal-wheels/src/concurrency/lock.scoped.ts. A call of withLock is a task, with its number; the
-- promise that the map holds for a key is that of a task, and fulfilled once the task has ended. The
-- callback of `prev.then` and the settling of an operation are steps of their own.
use fancy_kit.Common.{
  ℕ, zero, suc, ◌+◌, ◌-◌, Bool, true, false, List, [], ◌∷◌, Option, none, some, length, ltb, ◌==◌,
  if◌then◌else◌,
}
use fancy_kit.Common.Maps.{map_get, map_set, map_delete}
pub mod Order
pub mod Changes
pub mod Valid
pub mod Steps
pub mod Calls
pub mod Programs
pub mod Run
pub mod Progress
mod Tests

pub data Status : Type 0 where
  waits : ℕ → Status
  runs ends : Status

-- What an operation does before it first waits: calls of withLock, each with the operation that it is
-- given, until it stops there, throwing or not.
pub data Program (K : Type 0) : Type 0 where
  stops : Bool → Program K
  locks : K → Program K → Program K → Program K

-- The tasks stand newest first, so that a task's number is how many stand behind it.
pub record Locks (K : Type 0) : Type 0 where
  pub serialized_map : List (K × ℕ)
  pub queue_count : List (K × ℕ)
  pub tasks : List (K × Status)

abbrev pub or_zero : Option ℕ → ℕ
or_zero none = 0
or_zero (some n) = n

abbrev pub task : {K : Type 0} → ℕ → List (K × Status) → Option (K × Status)
task n [] = none
task n (t ∷ rest) = if n == length rest then some t else task n rest

abbrev pub set_status : {K : Type 0} → ℕ → Status → List (K × Status) → List (K × Status)
set_status n status [] = []
set_status n status ((key, old) ∷ rest) =
    if n == length rest then (key, status) ∷ rest else (key, old) ∷ set_status n status rest

abbrev pub has_ended : {K : Type 0} → Option (K × Status) → Bool
has_ended none = false
has_ended (some (key, waits m)) = false
has_ended (some (key, runs)) = false
has_ended (some (key, ends)) = true

module _ {K : Type 0} (same : K → K → Bool) where
  -- The `finally` of nextTask.
  unfoldable pub release : K → Locks K → Locks K
  release key s =
      let count = or_zero (map_get same key s.queue_count) - 1 in
      if count == 0
      then record s {
        serialized_map = map_delete same key s.serialized_map;
        queue_count = map_delete same key s.queue_count;
      }
      else record s { queue_count = map_set same key count s.queue_count }

  -- An operation has returned, its promise has settled, or it has thrown.
  unfoldable pub end_task : ℕ → K → Locks K → Locks K
  end_task n key s = release key (record s { tasks = set_status n ends s.tasks })

  -- The synchronous part of `nextTask` for the task n: what the operation does before it first waits,
  -- with whether it throws there.
  abbrev pub begun : ℕ → K → Locks K × Bool → Locks K
  begun n key (s, throws) = if throws then end_task n key s else s

  unfoldable pub next_task : ℕ → K → (Locks K → Locks K × Bool) → Locks K → Locks K
  next_task n key proc s = begun n key (proc (record s { tasks = set_status n runs s.tasks }))

  abbrev pub queued : ℕ → K → (Locks K → Locks K × Bool) → Option ℕ → Locks K → Locks K
  queued n key proc none s =
      let t = next_task n key proc (record s { tasks = (key, runs) ∷ s.tasks }) in
      record t { serialized_map = map_set same key n t.serialized_map }
  queued n key proc (some prev) s = record s {
    tasks = (key, waits prev) ∷ s.tasks;
    serialized_map = map_set same key n s.serialized_map;
  }

  unfoldable pub with_lock : K → (Locks K → Locks K × Bool) → Locks K → Locks K
  with_lock key proc s =
      let count = or_zero (map_get same key s.queue_count) + 1 in
      queued (length s.tasks) key proc (map_get same key s.serialized_map)
        (record s { queue_count = map_set same key count s.queue_count })

  unfoldable pub is_lock_acquired : K → Locks K → Bool
  is_lock_acquired key s = ltb 0 (or_zero (map_get same key s.queue_count))

  -- The synchronous part of an operation, with whether it throws there.
  abbrev pub proceeds : Program K → Locks K → Locks K × Bool
  proceeds (stops throws) s = (s, throws)
  proceeds (locks key inner rest) s = proceeds rest (with_lock key (proceeds inner) s)

  -- The callback of `prev.then`, which runs only once the promise of the task before is fulfilled.
  abbrev pub continued : ℕ → Program K → Option (K × Status) → Locks K → Locks K
  continued n program (some (key, waits prev)) s =
      if has_ended (task prev s.tasks) then next_task n key (proceeds program) s else s
  continued n program (some (key, runs)) s = s
  continued n program (some (key, ends)) s = s
  continued n program none s = s

  abbrev pub settled : ℕ → Option (K × Status) → Locks K → Locks K
  settled n (some (key, runs)) s = end_task n key s
  settled n (some (key, waits prev)) s = s
  settled n (some (key, ends)) s = s
  settled n none s = s

-- A call with what its operation does before it first waits, if it is started; the continuation of a
-- task, with the same; and the settling of an operation.
pub data Event (K : Type 0) : Type 0 where
  calls : K → Program K → Event K
  continues : ℕ → Program K → Event K
  settles : ℕ → Event K

module _ {K : Type 0} (same : K → K → Bool) where
  abbrev pub step : Event K → Locks K → Locks K
  step (calls key program) s = with_lock same key (proceeds same program) s
  step (continues n program) s = continued same n program (task n s.tasks) s
  step (settles n) s = settled same n (task n s.tasks) s

  abbrev pub run : List (Event K) → Locks K → Locks K
  run [] s = s
  run (e ∷ es) s = run es (step e s)

abbrev pub no_locks : {K : Type 0} → Locks K
no_locks = record { serialized_map = []; queue_count = []; tasks = [] }
