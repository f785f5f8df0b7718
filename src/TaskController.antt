-- ===== src/TaskController.antt =====
-- packages/octagonal-wheels/src/concurrency/lock_v2.ts: the class ConcurrentTaskController. A releaser
-- is a number. The calls that wait for the promise `onFree` stand in it; those whose promise is
-- resolved stand in `woken` until their continuation runs.
pub mod Places
pub mod Limits
mod Tests
use fancy_kit.Common.{
  ℕ, suc, Bool, true, false, List, [], ◌∷◌, ◌++◌, Option, none, some, length, leb, ◌==◌, ◌||◌,
  if◌then◌else◌,
}
use fancy_kit.Common.Int.{ℤ, pos, ◌+ℤ◌, ◌-ℤ◌, ltb_ℤ}

-- A call of `__acquire` that will hand out a releaser, or one of `waitForAllReleased`.
pub data Waiter : Type 0 where
  acquirer : ℕ → Waiter
  watcher : ℕ → Waiter

pub record ConcurrentTaskController : Type 0 where
  pub max_concurrency : ℕ
  pub on_free : Option (List Waiter)
  pub running_tasks : List ℕ
  pub total_on_process : ℤ
  pub woken : List Waiter
  -- The calls of `waitForAllReleased` that have returned.
  pub released : List ℕ

pub controller : ℕ → ConcurrentTaskController
controller max_concurrency = record {
  max_concurrency = max_concurrency;
  on_free = none;
  running_tasks = [];
  total_on_process = pos 0;
  woken = [];
  released = [];
}

abbrev pub current_pressure : ConcurrentTaskController → ℤ
current_pressure s = s.total_on_process

abbrev pub current_concurrency : ConcurrentTaskController → ℕ
current_concurrency s = length s.running_tasks

abbrev pub has : ℕ → List ℕ → Bool
has id [] = false
has id (x ∷ xs) = (x == id) || has id xs

abbrev pub remove : ℕ → List ℕ → List ℕ
remove id [] = []
remove id (x ∷ xs) = if x == id then xs else x ∷ remove id xs

abbrev pub waiters : Option (List Waiter) → List Waiter
waiters none = []
waiters (some ws) = ws

-- `onFree` is created if it is not there, and waited for.
abbrev pub wait : Waiter → ConcurrentTaskController → ConcurrentTaskController
wait w s = record s { on_free = some (waiters s.on_free ++ w ∷ []) }

-- The loop of `__acquire` from its test to the next `await` or the return.
pub acquire_round : ℕ → ConcurrentTaskController → ConcurrentTaskController
acquire_round id s =
    if leb s.max_concurrency (length s.running_tasks)
    then wait (acquirer id) s
    else record s { running_tasks = s.running_tasks ++ id ∷ [] }

pub acquire : ℕ → ConcurrentTaskController → ConcurrentTaskController
acquire id s = acquire_round id (record s { total_on_process = s.total_on_process +ℤ pos 1 })

-- A releaser that is not in the set is not taken out, but counts and wakes all the same.
pub release : ℕ → ConcurrentTaskController → ConcurrentTaskController
release id s = record s {
  running_tasks = if has id s.running_tasks then remove id s.running_tasks else s.running_tasks;
  on_free = none;
  woken = s.woken ++ waiters s.on_free;
  total_on_process = s.total_on_process -ℤ pos 1;
}

-- The loop of `waitForAllReleased` from its test to the next `await` or the return.
pub wait_for_all_released : ℕ → ConcurrentTaskController → ConcurrentTaskController
wait_for_all_released id s =
    if ltb_ℤ (pos 0) s.total_on_process
    then wait (watcher id) s
    else record s { released = s.released ++ id ∷ [] }

abbrev pub resume_in : ConcurrentTaskController → List Waiter → ConcurrentTaskController
resume_in s [] = s
resume_in s (acquirer id ∷ rest) = acquire_round id (record s { woken = rest })
resume_in s (watcher id ∷ rest) = wait_for_all_released id (record s { woken = rest })

-- The continuation of the call that was woken first.
pub resume : ConcurrentTaskController → ConcurrentTaskController
resume s = resume_in s s.woken

-- `run` as the steps between which others run: it acquires, and when its task has ended in any way
-- it calls the releaser that it was given, once.
pub data Step : Type 0 where
  starts : ℕ → Step
  ends : ℕ → Step
  watches : ℕ → Step
  resumes : Step

pub step : ConcurrentTaskController → Step → ConcurrentTaskController
step s (starts id) = acquire id s
step s (ends id) = if has id s.running_tasks then release id s else s
step s (watches id) = wait_for_all_released id s
step s resumes = resume s

unfoldable pub run : ConcurrentTaskController → List Step → ConcurrentTaskController
run s [] = s
run s (x ∷ xs) = run (step s x) xs
