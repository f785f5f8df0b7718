-- ===== src/TaskPool/Hangs.antt =====
-- The generator of a generator's tasks with the limit 1.
use fancy_kit.Common.{ℕ, zero, suc, ◌≡◌, refl, List, [], ◌∷◌, none, false}
use fancy_kit.TaskPool.{race, TaskResult, take_tasks, generator_rounds, process_all_generator_tasks}

module _ {A : Type 0} (choice : ℕ → ℕ) where
  race_alone : (i : ℕ) (p : ℕ × TaskResult A) → race i p [] ≡ (p, [])
  race_alone zero p = refl
  race_alone (suc i) p = refl

  rounds_hang :
      (fuel idx : ℕ) (tasks : List (TaskResult A))
      → generator_rounds 1 choice fuel false idx tasks [] ≡ none
  unfolding generator_rounds take_tasks
  rounds_hang zero idx tasks = refl
  rounds_hang (suc fuel) idx [] = refl
  rounds_hang (suc fuel) idx (task ∷ []) =
      rw (race_alone (choice fuel) (suc idx, task), rounds_hang fuel (suc idx) []) refl
  rounds_hang (suc fuel) idx (task ∷ next ∷ rest) =
      rw (race_alone (choice fuel) (suc idx, task), rounds_hang fuel (suc idx) (next ∷ rest)) refl

  -- With the limit 1, `processAllGeneratorTasksWithConcurrencyLimit` never ends, whatever the tasks are:
  -- no number of rounds is enough.
  pub process_all_generator_tasks_hangs :
      (fuel : ℕ) (tasks : List (TaskResult A))
      → process_all_generator_tasks 1 choice fuel tasks ≡ none
  unfolding process_all_generator_tasks
  process_all_generator_tasks_hangs fuel tasks = rounds_hang fuel 0 tasks
