-- ===== src/TaskPool/Yields.antt =====
-- The rounds of the generator over a list of tasks.
use fancy_kit.Common.{
  ℕ, zero, suc, ◌+◌, ◌<◌, arith, ◌≡◌, refl, sym, ap, ◌∙◌, subst, true, false, List, [], ◌∷◌, ◌++◌,
  Option, some, length, length-append, append_assoc, ltb, lt→ltb, if_cases,
}
use mathlib.Core.List.{Permᴰ}
use mathlib.Core.List.Permᴰ
use fancy_kit.TaskPool.{TaskResult, start_tasks, race, raced, rounds, process_all_tasks, numbered}

module _ {ℓ} {A : Type ℓ} where
  length-numbered : (idx : ℕ) (ts : List A) → length (numbered idx ts) ≡ length ts
  length-numbered idx [] = refl
  length-numbered idx (t ∷ ts) = ap suc (length-numbered (suc idx) ts)

module _ {A : Type 0} where
  -- The started tasks with the pending ones are those before; none runs only if there were none.
  abbrev Fills :
      ℕ
      → List (TaskResult A)
      → List (ℕ × TaskResult A)
      → ℕ × List (TaskResult A) × List (ℕ × TaskResult A)
      → Type 0
  Fills idx pending now (idx', pending', []) = (now ++ numbered idx pending) ≡ []
  Fills idx pending now (idx', pending', p ∷ ps) =
      (p ∷ ps) ++ numbered idx' pending' ≡ now ++ numbered idx pending

  start_fewer :
      (idx : ℕ) (t : TaskResult A) (pending : List (TaskResult A)) (now : List (ℕ × TaskResult A))
      (r : ℕ × List (TaskResult A) × List (ℕ × TaskResult A))
      → Fills (suc idx) pending (now ++ (suc idx, t) ∷ []) r
      → Fills idx (t ∷ pending) now r
  start_fewer idx t pending now (i, pending', []) f =
      sym (append_assoc now ((suc idx, t) ∷ []) (numbered (suc idx) pending)) ∙ f
  start_fewer idx t pending now (i, pending', p ∷ ps) f =
      f ∙ append_assoc now ((suc idx, t) ∷ []) (numbered (suc idx) pending)

  full :
      (limit idx : ℕ) (pending : List (TaskResult A)) (now : List (ℕ × TaskResult A))
      → 0 < limit
      → ltb (length now) limit ≡ false
      → Fills idx pending now (idx, pending, now)
  full limit idx pending [] l h = absurd (let x : true ≡ false = sym (lt→ltb 0 limit l) ∙ h in cc)
  full limit idx pending (p ∷ ps) l h = refl

  no_pending : (idx : ℕ) (now : List (ℕ × TaskResult A)) → Fills idx [] now (idx, [], now)
  no_pending idx [] = refl
  no_pending idx (p ∷ ps) = refl

  start_tasks-Fills :
      (limit idx : ℕ) (pending : List (TaskResult A)) (now : List (ℕ × TaskResult A))
      → 0 < limit
      → Fills idx pending now (start_tasks limit idx pending now)
  unfolding start_tasks
  start_tasks-Fills limit idx [] now l = no_pending idx now
  start_tasks-Fills limit idx (t ∷ pending) now l =
      if_cases (Fills idx (t ∷ pending) now) (ltb (length now) limit)
        (λ _.
          start_fewer idx t pending now
            (start_tasks limit (suc idx) pending (now ++ (suc idx, t) ∷ []))
            (start_tasks-Fills limit (suc idx) pending (now ++ (suc idx, t) ∷ []) l))
        λ h. full limit idx (t ∷ pending) now l h

  race_perm :
      (i : ℕ) (p : ℕ × TaskResult A) (ps later : List (ℕ × TaskResult A))
      → let (winner, rest) = race i p ps in Permᴰ (winner ∷ rest ++ later) ((p ∷ ps) ++ later)
  race_perm zero p ps later = Permᴰ.refl ((p ∷ ps) ++ later)
  race_perm (suc i) p [] later = Permᴰ.refl (p ∷ later)
  race_perm (suc i) p (q ∷ qs) later =
      Permᴰ.trans (Permᴰ.swap refl refl) (Permᴰ.cons refl (race_perm i q qs later))

  length-race :
      (i : ℕ) (p : ℕ × TaskResult A) (ps : List (ℕ × TaskResult A))
      → length (race i p ps).1 ≡ length ps
  length-race zero p ps = refl
  length-race (suc i) p [] = refl
  length-race (suc i) p (q ∷ qs) = ap suc (length-race i q qs)

  abbrev pub Ends : Option (List (ℕ × TaskResult A)) → List (ℕ × TaskResult A) → Type 0
  Ends o expected = (ys : List (ℕ × TaskResult A)) × (o ≡ some ys) × Permᴰ ys expected

  Permᴰ-of-eq : (xs ys : List (ℕ × TaskResult A)) → xs ≡ ys → Permᴰ xs ys
  Permᴰ-of-eq xs ys e = subst (Permᴰ xs) e (Permᴰ.refl xs)

  raced_ends :
      (more : ℕ → List (TaskResult A) → List (ℕ × TaskResult A) → Option (List (ℕ × TaskResult A)))
      (i size idx : ℕ) (pending : List (TaskResult A)) (now : List (ℕ × TaskResult A))
      (r : ℕ × List (TaskResult A) × List (ℕ × TaskResult A))
      → Fills idx pending now r
      → length now + length pending ≡ suc size
      → ((idx : ℕ) (pending : List (TaskResult A)) (now : List (ℕ × TaskResult A))
          → length now + length pending ≡ size
          → Ends (more idx pending now) (now ++ numbered idx pending))
      → Ends (raced more i r) (now ++ numbered idx pending)
  raced_ends more i size idx pending now (idx', pending', []) f l further = absurd (
      omega (
        arith,
        ap length f,
        length-append now (numbered idx pending),
        length-numbered idx pending,
        l,
      ))
  raced_ends more i size idx pending now (idx', pending', p ∷ ps) f l further =
      let (winner, rest) = race i p ps in
      let (ys, e, perm) = further idx' pending' rest (
        omega (
          arith,
          ap length f,
          length-append now (numbered idx pending),
          length-numbered idx pending,
          l,
          length-append ps (numbered idx' pending'),
          length-numbered idx' pending',
          length-race i p ps,
        )) in
      (
        winner ∷ ys,
        rw e refl,
        Permᴰ.trans (Permᴰ.cons refl perm) (
            Permᴰ.trans (race_perm i p ps (numbered idx' pending'))
              (Permᴰ-of-eq ((p ∷ ps) ++ numbered idx' pending') (now ++ numbered idx pending) f)),
      )

  module _ (limit : ℕ) (choice : ℕ → ℕ) (allowed : 0 < limit) where
    rounds_end :
        (fuel idx : ℕ) (pending : List (TaskResult A)) (now : List (ℕ × TaskResult A))
        → length now + length pending < fuel
        → Ends (rounds limit choice fuel idx pending now) (now ++ numbered idx pending)
    unfolding rounds
    rounds_end zero idx pending now h = absurd (omega (arith, h))
    rounds_end (suc fuel) idx [] [] h = ([], refl, Permᴰ.nil)
    rounds_end (suc fuel) idx [] (p ∷ ps) h =
        raced_ends (rounds limit choice fuel) (choice fuel) (length ps) idx [] (p ∷ ps)
          (start_tasks limit idx [] (p ∷ ps)) (start_tasks-Fills limit idx [] (p ∷ ps) allowed)
          (omega arith) λ i pending now e. rounds_end fuel i pending now (omega (arith, e, h))
    rounds_end (suc fuel) idx (t ∷ ts) now h =
        raced_ends (rounds limit choice fuel) (choice fuel) (length now + length ts) idx (t ∷ ts)
          now (start_tasks limit idx (t ∷ ts) now)
          (start_tasks-Fills limit idx (t ∷ ts) now allowed) (omega arith)
          λ i pending now e. rounds_end fuel i pending now (omega (arith, e, h))

    -- With a limit that is not 0, `processAllTasksWithConcurrencyLimit` ends after one more round than
    -- there are tasks, whichever task wins each race, and what it yields is a rearrangement of the
    -- results of all tasks under their keys, which count the tasks from 1.
    pub process_all_tasks_yields :
        (fuel : ℕ) (tasks : List (TaskResult A))
        → length tasks < fuel
        → Ends (process_all_tasks limit choice fuel tasks) (numbered 0 tasks)
    unfolding process_all_tasks
    process_all_tasks_yields fuel tasks h = rounds_end fuel 0 tasks [] (omega (arith, h))
