-- ===== src/Semaphore.antt =====
-- packages/octagonal-wheels/src/concurrency/semaphore_v1.ts: the queueing `Semaphore`. The keys that
-- `makeUniqueString` draws are taken to be distinct: a call's key is its number. A promise is the key
-- of its notifier, and `notified` lists how each was resolved. The memo, which nothing reads, is left
-- out.
pub mod Pump
pub mod Valid
pub mod Release
pub mod Run
mod Tests
use fancy_kit.Common.{
  ℕ, suc, ◌+◌, ◌-◌, Bool, true, false, not, List, [], ◌∷◌, ◌++◌, Option, none, some, ltb, ◌==◌,
  if◌then◌else◌,
}

pub data State : Type 0 where
  state_none state_running state_done : State

pub record QueueNotifier : Type 0 where
  pub key : ℕ
  pub quantity : ℕ
  pub state : State
  pub timer : Bool

pub record Semaphore : Type 0 where
  pub limit : ℕ
  pub current_processes : ℕ
  pub queue : List QueueNotifier
  pub next_key : ℕ
  -- The timers that are running, by the key of their notifier.
  pub timers : List ℕ
  pub notified : List (ℕ × Bool)
  -- Whether the owner gave `onRelease`, and the queues that it was called with.
  pub on_release : Bool
  pub reports : List (List QueueNotifier)

pub semaphore : ℕ → Bool → Semaphore
semaphore limit on_release = record {
  limit = limit;
  current_processes = 0;
  queue = [];
  next_key = 0;
  timers = [];
  notified = [];
  on_release = on_release;
  reports = [];
}

abbrev is_done : State → Bool
is_done state_done = true
is_done _ = false

-- `queue.filter((e) => e.state != "DONE")`.
pub unfinished : List QueueNotifier → List QueueNotifier
unfinished [] = []
unfinished (e ∷ es) = if is_done e.state then unfinished es else e ∷ unfinished es

pub clear_timeout : ℕ → List ℕ → List ℕ
clear_timeout key [] = []
clear_timeout key (k ∷ ks) = let rest = clear_timeout key ks in if k == key then rest else k ∷ rest

-- The loop's three ways with an item: `continue`, `break`, or to start it.
pub data Turn : Type 0 where
  continues breaks starts : Turn

pub turn : QueueNotifier → Semaphore → Turn
turn e s = elim e.state [
  | state_none ↦ if ltb s.limit (e.quantity + s.current_processes) then breaks else starts
  | _ ↦ continues
]

-- The loop's body for an item that starts, its state apart.
pub start : QueueNotifier → Semaphore → Semaphore
unfolding clear_timeout
start e s = record s {
  current_processes = s.current_processes + e.quantity;
  timers = if e.timer then clear_timeout e.key s.timers else s.timers;
  notified = s.notified ++ (e.key, true) ∷ [];
}

-- The loop over the items that are left, and what becomes of them.
pub pump : List QueueNotifier → Semaphore → Semaphore × List QueueNotifier
pump [] s = (s, [])
pump (e ∷ es) s = elim (turn e s) [
  | continues ↦ let (t, rest) = pump es s in (t, e ∷ rest)
  | breaks ↦ (s, e ∷ es)
  | starts ↦ let (t, rest) = pump es (start e s) in (t, record e { state = state_running } ∷ rest)
]

pub exec_process : Semaphore → Semaphore
exec_process s = let (t, queue) = pump (unfinished s.queue) s in record t { queue = queue }

pub find : ℕ → List QueueNotifier → Option QueueNotifier
find key [] = none
find key (e ∷ es) = let rest = find key es in if e.key == key then some e else rest

-- The state of the item that `find` gives, set to DONE in the queue.
pub mark_done : ℕ → List QueueNotifier → List QueueNotifier
mark_done key [] = []
mark_done key (e ∷ es) =
    let rest = mark_done key es in
    if e.key == key then record e { state = state_done } ∷ es else e ∷ rest

-- Only a running item gives its quantity back.
abbrev pub give_back : State → ℕ → ℕ → ℕ
give_back state_running quantity current = current - quantity
give_back _ quantity current = current

pub released : ℕ → QueueNotifier → Semaphore → Semaphore
released key finished_task s =
    let queue = mark_done key s.queue in
    record s {
      current_processes = give_back finished_task.state finished_task.quantity s.current_processes;
      queue = queue;
      reports = if s.on_release then s.reports ++ unfinished queue ∷ [] else s.reports;
    }

-- `none` is the error "Missing locked semaphore!".
pub release : ℕ → Semaphore → Option Semaphore
release key s = elim (find key s.queue) [
  | none ↦ none
  | some finished_task ↦ some (exec_process (released key finished_task s))
]

pub set_limit : ℕ → Semaphore → Semaphore
set_limit limit s = record s { limit = limit }

-- `none` is the error "Too big quantity"; else the new state and the key of the promise.
pub acquire_in : ℕ → ℕ → Semaphore → Option (Semaphore × ℕ)
acquire_in quantity timeout s =
    if ltb s.limit quantity
    then none
    else (let key = s.next_key in
        let timer = not (timeout == 0) in
        some (
          exec_process (record s {
            next_key = suc key;
            timers = if timer then key ∷ s.timers else s.timers;
            queue =
                s.queue
                ++ record { key = key; quantity = quantity; state = state_none; timer = timer }
                  ∷ [];
          }),
          key,
        ))

pub acquire : ℕ → Semaphore → Option (Semaphore × ℕ)
acquire quantity s = acquire_in quantity 0 s

pub try_acquire : ℕ → ℕ → Semaphore → Option (Semaphore × ℕ)
try_acquire quantity timeout s = acquire_in quantity timeout s

abbrev pub refuse : ℕ → Option Semaphore → Option Semaphore
refuse key none = none
refuse key (some s) = some (record s { notified = s.notified ++ (key, false) ∷ [] })

-- The callback of the timer, which is no longer running then. `none` is an error thrown out of it.
pub timed_out : ℕ → Semaphore → Option Semaphore
timed_out key s = refuse key (release key (record s { timers = clear_timeout key s.timers }))
