-- ===== src/TaskController/Tests.antt =====
-- The controller on concrete steps, and its theorem at concrete steps.
use fancy_kit.Common.{◌+◌, ◌≤◌, ◌<◌, ◌≡◌, refl, List, [], ◌∷◌}
use fancy_kit.Common.Int.{pos, negsuc, ◌+ℤ◌, ◌-ℤ◌}
use fancy_kit.TaskController
use fancy_kit.TaskController.{
  ConcurrentTaskController, controller, acquire, release, waiters, Step, starts, ends, watches,
  resumes, run, current_pressure, current_concurrency,
}
use fancy_kit.TaskController.Places.{acquirers}
use fancy_kit.TaskController.Limits.{run_limited}

program : Unit {0}
unfolding TaskController.controller TaskController.acquire TaskController.acquire_round
    TaskController.release TaskController.wait_for_all_released TaskController.resume
    TaskController.step TaskController.run ◌+ℤ◌ ◌-ℤ◌
program = tt

-- One place: the second call waits, is woken, and loses the place to a third.
abbrev overtaken : List Step
overtaken = starts 1 ∷ starts 2 ∷ ends 1 ∷ starts 3 ∷ resumes ∷ []

third_runs : (run (controller 1) overtaken).running_tasks ≡ 3 ∷ []
unfolding program
third_runs = refl

-- A call of `waitForAllReleased` returns after the last task.
all_released : (run (controller 2) (starts 1 ∷ watches 7 ∷ ends 1 ∷ resumes ∷ [])).released ≡ 7 ∷ []
unfolding program
all_released = refl

-- A releaser of `__acquire` that is called twice counts twice.
double_release : (release 1 (release 1 (acquire 1 (controller 1)))).total_on_process ≡ negsuc 0
unfolding program
double_release = refl

run_limited_example :
    let s = run (controller 1) overtaken in
    let waiting = acquirers (waiters s.on_free) in
    (current_concurrency s ≤ 1)
    × (0 < waiting → current_concurrency s ≡ 1)
    × (current_pressure s ≡ pos (current_concurrency s + waiting + acquirers s.woken))
run_limited_example = run_limited 1 overtaken
