-- ===== src/TaskPool.antt =====
-- packages/octagonal-wheels/src/concurrency/task.ts: the generators that run tasks under a limit. A task is what
-- its promise settles with; which running task wins a race is an argument, one choice for each round.
use fancy_kit.Common.{
  ℕ, zero, suc, Bool, true, false, List, [], ◌∷◌, ◌++◌, Option, none, some, length, ltb, leb, ◌==◌,
  if◌then◌else◌,
}
use fancy_kit.Common.Maps.{map_set}
pub mod Yields
pub mod Order
pub mod Hangs
mod Tests

-- What `wrapEachProcess` makes of a settled promise, less the key. An Error is a number.
pub data TaskResult (A : Type 0) : Type 0 where
  ok : A → TaskResult A
  err : ℕ → TaskResult A

module _ {A : Type 0} where
  -- The inner loop: tasks are started, under the next keys, while fewer than the limit run.
  unfoldable pub start_tasks :
      ℕ
      → ℕ
      → List (TaskResult A)
      → List (ℕ × TaskResult A)
      → ℕ × List (TaskResult A) × List (ℕ × TaskResult A)
  start_tasks limit idx [] now_processing = (idx, [], now_processing)
  start_tasks limit idx (task ∷ pending) now_processing =
      if ltb (length now_processing) limit
      then start_tasks limit (suc idx) pending (now_processing ++ (suc idx, task) ∷ [])
      else (idx, task ∷ pending, now_processing)

  -- The promise at a place settles first; its entry is deleted from the map.
  abbrev pub race :
      ℕ → ℕ × TaskResult A → List (ℕ × TaskResult A) → (ℕ × TaskResult A) × List (ℕ × TaskResult A)
  race zero p ps = (p, ps)
  race (suc i) p [] = (p, [])
  race (suc i) p (q ∷ qs) = let (winner, rest) = race i q qs in (winner, p ∷ rest)

  abbrev pub yielded :
      ℕ × TaskResult A → Option (List (ℕ × TaskResult A)) → Option (List (ℕ × TaskResult A))
  yielded p none = none
  yielded p (some ps) = some (p ∷ ps)

  -- A round after its tasks are started: the winner is yielded, and the loop goes on. A race of no
  -- promises never settles.
  abbrev pub raced :
      (ℕ → List (TaskResult A) → List (ℕ × TaskResult A) → Option (List (ℕ × TaskResult A)))
      → ℕ
      → ℕ × List (TaskResult A) × List (ℕ × TaskResult A)
      → Option (List (ℕ × TaskResult A))
  raced more i (idx, pending, []) = none
  raced more i (idx, pending, p ∷ ps) =
      let (winner, rest) = race i p ps in yielded winner (more idx pending rest)

  module _ (limit : ℕ) (choice : ℕ → ℕ) where
    -- The rounds of the outer loop; `none` if it has not ended within the fuel.
    unfoldable pub rounds :
        ℕ → ℕ → List (TaskResult A) → List (ℕ × TaskResult A) → Option (List (ℕ × TaskResult A))
    rounds zero idx pending now_processing = none
    rounds (suc fuel) idx [] [] = some []
    rounds (suc fuel) idx [] (p ∷ ps) =
        raced (rounds fuel) (choice fuel) (start_tasks limit idx [] (p ∷ ps))
    rounds (suc fuel) idx (task ∷ pending) now_processing =
        raced (rounds fuel) (choice fuel) (start_tasks limit idx (task ∷ pending) now_processing)

    unfoldable pub process_all_tasks : ℕ → List (TaskResult A) → Option (List (ℕ × TaskResult A))
    process_all_tasks fuel tasks = rounds fuel 0 tasks []

  -- `results.set(v.key, v)` for each result.
  abbrev pub set_results :
      List (ℕ × (ℕ × TaskResult A)) → List (ℕ × TaskResult A) → List (ℕ × (ℕ × TaskResult A))
  set_results results [] = results
  set_results results ((key, v) ∷ vs) = set_results (map_set ◌==◌ key (key, v) results) vs

  abbrev pub insert_entry :
      ℕ × (ℕ × TaskResult A) → List (ℕ × (ℕ × TaskResult A)) → List (ℕ × (ℕ × TaskResult A))
  insert_entry a [] = a ∷ []
  insert_entry a (b ∷ rest) = if leb a.0 b.0 then a ∷ b ∷ rest else b ∷ insert_entry a rest

  abbrev pub sort_entries : List (ℕ × (ℕ × TaskResult A)) → List (ℕ × (ℕ × TaskResult A))
  sort_entries [] = []
  sort_entries (a ∷ rest) = insert_entry a (sort_entries rest)

  abbrev pub values : List (ℕ × (ℕ × TaskResult A)) → List (ℕ × TaskResult A)
  values [] = []
  values (e ∷ rest) = e.1 ∷ values rest

  abbrev pub in_order : Option (List (ℕ × TaskResult A)) → Option (List (ℕ × TaskResult A))
  in_order none = none
  in_order (some vs) = some (values (sort_entries (set_results [] vs)))

  unfoldable pub map_all_tasks :
      ℕ → (ℕ → ℕ) → ℕ → List (TaskResult A) → Option (List (ℕ × TaskResult A))
  map_all_tasks limit choice fuel tasks = in_order (process_all_tasks limit choice fuel tasks)

  -- The inner loop over a generator, with whether the generator is done.
  unfoldable pub take_tasks :
      ℕ
      → ℕ
      → List (TaskResult A)
      → List (ℕ × TaskResult A)
      → Bool × ℕ × List (TaskResult A) × List (ℕ × TaskResult A)
  take_tasks limit idx [] now_processing =
      (ltb (length now_processing) limit, idx, [], now_processing)
  take_tasks limit idx (task ∷ rest) now_processing =
      if ltb (length now_processing) limit
      then take_tasks limit (suc idx) rest (now_processing ++ (suc idx, task) ∷ [])
      else (false, idx, task ∷ rest, now_processing)

  module _ (limit : ℕ) (choice : ℕ → ℕ) where
    unfoldable pub generator_rounds :
        ℕ
        → Bool
        → ℕ
        → List (TaskResult A)
        → List (ℕ × TaskResult A)
        → Option (List (ℕ × TaskResult A))
    generator_rounds zero generator_done idx tasks now_processing = none
    generator_rounds (suc fuel) true idx tasks [] = some []
    generator_rounds (suc fuel) true idx tasks (p ∷ ps) =
        raced (generator_rounds fuel true) (choice fuel) (idx, tasks, p ∷ ps)
    generator_rounds (suc fuel) false idx tasks now_processing =
        let (generator_done, idx', rest, now) = take_tasks limit idx tasks now_processing in
        raced (generator_rounds fuel generator_done) (choice fuel) (idx', rest, now)

    unfoldable pub process_all_generator_tasks :
        ℕ → List (TaskResult A) → Option (List (ℕ × TaskResult A))
    process_all_generator_tasks fuel tasks = generator_rounds fuel false 0 tasks []

-- The tasks under their keys.
abbrev pub numbered {ℓ} : {A : Type ℓ} → ℕ → List A → List (ℕ × A)
numbered idx [] = []
numbered idx (task ∷ rest) = (suc idx, task) ∷ numbered (suc idx) rest
