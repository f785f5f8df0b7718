-- ===== src/TaskPool/Tests.antt =====
-- The task generators on three tasks, and their theorems there.
use fancy_kit.Common.{ℕ, ◌≡◌, refl, arith, List, [], ◌∷◌, none, some}
use fancy_kit.TaskPool.{
  TaskResult, ok, err, start_tasks, take_tasks, rounds, generator_rounds, process_all_tasks,
  map_all_tasks, process_all_generator_tasks,
}
use fancy_kit.TaskPool.Order.{map_all_tasks_in_order}
use fancy_kit.TaskPool.Hangs.{process_all_generator_tasks_hangs}

abbrev three_tasks : List (TaskResult ℕ)
three_tasks = ok 5 ∷ err 1 ∷ ok 7 ∷ []

-- The newer of the running tasks wins each race.
abbrev newest : ℕ → ℕ
newest round = 1

two_at_a_time :
    process_all_tasks 2 newest 4 three_tasks ≡ some ((2, err 1) ∷ (3, ok 7) ∷ (1, ok 5) ∷ [])
unfolding process_all_tasks rounds start_tasks
two_at_a_time = refl

generator_two_at_a_time :
    process_all_generator_tasks 2 newest 4 three_tasks
    ≡ some ((2, err 1) ∷ (3, ok 7) ∷ (1, ok 5) ∷ [])
unfolding process_all_generator_tasks generator_rounds take_tasks
generator_two_at_a_time = refl

-- With the limit 0 nothing is started.
nothing_starts : process_all_tasks 0 newest 9 three_tasks ≡ none
unfolding process_all_tasks rounds start_tasks
nothing_starts = refl

map_all_tasks_in_order_example :
    map_all_tasks 2 newest 4 three_tasks ≡ some ((1, ok 5) ∷ (2, err 1) ∷ (3, ok 7) ∷ [])
map_all_tasks_in_order_example =
    map_all_tasks_in_order 2 newest (omega arith) 4 three_tasks (omega arith)

process_all_generator_tasks_hangs_example :
    process_all_generator_tasks 1 newest 9 three_tasks ≡ none
process_all_generator_tasks_hangs_example = process_all_generator_tasks_hangs newest 9 three_tasks
