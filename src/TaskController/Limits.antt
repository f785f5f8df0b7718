-- ===== src/TaskController/Limits.antt =====
-- The running tasks stay within the limit, every call is counted, and no wake-up is lost.
use fancy_kit.Common.{
  ℕ, suc, ◌+◌, ◌-◌, ◌≤◌, ◌<◌, ◌≡◌, refl, sym, ap, ◌∙◌, subst, true, false, List, [], ◌∷◌, length,
  leb, if_cases, arith,
}
use fancy_kit.Common.Int.{ℤ, pos, ◌+ℤ◌, ◌-ℤ◌, ltb_ℤ}
use fancy_kit.TaskController.{
  Waiter, acquirer, watcher, ConcurrentTaskController, controller, has, waiters, acquire_round,
  acquire, release, wait_for_all_released, resume_in, resume, Step, starts, ends, watches, resumes,
  step, run, current_pressure, current_concurrency,
}
use fancy_kit.TaskController.Places.{
  acquirers, Limited, acquire_round-Limited, wait-Limited, release-Limited,
}

more : (t : ℤ) (total : ℕ) → t ≡ pos total → t +ℤ pos 1 ≡ pos (suc total)
unfolding ◌+ℤ◌
more t total e = rw e (ground arith)

fewer : (t : ℤ) (total : ℕ) → t ≡ pos (suc total) → t -ℤ pos 1 ≡ pos total
unfolding ◌-ℤ◌
fewer t total e = rw e (ground arith)

-- `totalOnProcess` is the number of the calls that run or wait to run.
Valid : ℕ → ConcurrentTaskController → Type 0
Valid n s = (total : ℕ) × Limited n s total × (s.total_on_process ≡ pos total)

acquire_round-total :
    (id : ℕ) (s : ConcurrentTaskController)
    → (acquire_round id s).total_on_process ≡ s.total_on_process
unfolding acquire_round
acquire_round-total id s =
    if_cases (λ (t : ConcurrentTaskController). t.total_on_process ≡ s.total_on_process)
      (leb s.max_concurrency (length s.running_tasks)) (λ h. refl) λ h. refl

wait-total :
    (id : ℕ) (s : ConcurrentTaskController)
    → (wait_for_all_released id s).total_on_process ≡ s.total_on_process
unfolding wait_for_all_released
wait-total id s =
    if_cases (λ (t : ConcurrentTaskController). t.total_on_process ≡ s.total_on_process)
      (ltb_ℤ (pos 0) s.total_on_process) (λ h. refl) λ h. refl

acquire-Valid : (n id : ℕ) (s : ConcurrentTaskController) → Valid n s → Valid n (acquire id s)
unfolding acquire Valid
acquire-Valid n id s (total, v, e) =
    let t : ConcurrentTaskController = record s {
      total_on_process = s.total_on_process +ℤ pos 1;
    } in
    (
      suc total,
      acquire_round-Limited n id t total
          (record { limit = v.limit; within = v.within; full = v.full; counted = v.counted }),
      acquire_round-total id t ∙ more s.total_on_process total e,
    )

wait-Valid :
    (n id : ℕ) (s : ConcurrentTaskController) → Valid n s → Valid n (wait_for_all_released id s)
unfolding Valid
wait-Valid n id s (total, v, e) = (total, wait-Limited n id s total v, wait-total id s ∙ e)

resume-Valid :
    (n : ℕ) (s : ConcurrentTaskController) (ws : List Waiter)
    → s.woken ≡ ws
    → Valid n s
    → Valid n (resume_in s ws)
unfolding Valid
resume-Valid n s [] w v = v
resume-Valid n s (acquirer id ∷ rest) w (total, v, e) =
    let t : ConcurrentTaskController = record s { woken = rest } in
    let c = v.counted in
    let a = ap acquirers w in
    let known : suc (total - 1) ≡ total = omega (arith, c, a) in
    (
      total,
      subst (Limited n (acquire_round id t)) known (
          acquire_round-Limited n id t (total - 1) (record {
            limit = v.limit;
            within = v.within;
            full = v.full;
            counted = omega (arith, c, a);
          })),
      acquire_round-total id t ∙ e,
    )
resume-Valid n s (watcher id ∷ rest) w (total, v, e) =
    let t : ConcurrentTaskController = record s { woken = rest } in
    let c = v.counted in
    (
      total,
      wait-Limited n id t total (record {
        limit = v.limit;
        within = v.within;
        full = v.full;
        counted = omega (arith, c, ap acquirers w);
      }),
      wait-total id t ∙ e,
    )

has-some : (id : ℕ) (xs : List ℕ) → has id xs ≡ true → 0 < length xs
has-some id [] h = absurd (let x : false ≡ true = h in cc)
has-some id (x ∷ xs) h = omega arith

release-Valid :
    (n id : ℕ) (s : ConcurrentTaskController)
    → has id s.running_tasks ≡ true
    → Valid n s
    → Valid n (release id s)
unfolding Valid release
release-Valid n id s h (total, v, e) =
    let some_run = has-some id s.running_tasks h in
    let c = v.counted in
    let known : total ≡ suc (total - 1) = omega (arith, c, some_run) in
    (
      total - 1,
      release-Limited n id s (total - 1) h (subst (Limited n s) known v),
      fewer s.total_on_process (total - 1) (e ∙ ap pos known),
    )

ends-Valid : (n id : ℕ) (s : ConcurrentTaskController) → Valid n s → Valid n (step s (ends id))
unfolding step Valid
ends-Valid n id s v =
    if_cases (λ (t : ConcurrentTaskController). Valid n t) (has id s.running_tasks)
      (λ h. release-Valid n id s h v) λ h. v

step-Valid : (n : ℕ) (s : ConcurrentTaskController) (x : Step) → Valid n s → Valid n (step s x)
unfolding step resume
step-Valid n s (starts id) v = acquire-Valid n id s v
step-Valid n s (ends id) v = ends-Valid n id s v
step-Valid n s (watches id) v = wait-Valid n id s v
step-Valid n s resumes v = resume-Valid n s s.woken refl v

run-Valid : (n : ℕ) (s : ConcurrentTaskController) (xs : List Step) → Valid n s → Valid n (run s xs)
unfolding run
run-Valid n s [] v = v
run-Valid n s (x ∷ xs) v = run-Valid n (step s x) xs (step-Valid n s x v)

controller-Valid : (n : ℕ) → Valid n (controller n)
unfolding Valid controller
controller-Valid n = (
  0,
  record {
    limit = refl;
    within = omega arith;
    full = λ w. absurd (omega (arith, w));
    counted = refl;
  },
  refl,
)

-- In every order of starts, ends and continuations, at most `max_concurrency` tasks run; while a call
-- waits for a place and has not been woken, all places are taken; and the pressure is the number of
-- the calls that run, wait or are woken, which is never negative.
pub run_limited :
    (n : ℕ) (xs : List Step)
    → let s = run (controller n) xs in
      let waiting = acquirers (waiters s.on_free) in
      (current_concurrency s ≤ n)
      × (0 < waiting → current_concurrency s ≡ n)
      × (current_pressure s ≡ pos (current_concurrency s + waiting + acquirers s.woken))
unfolding Valid
run_limited n xs =
    let (total, v, e) = run-Valid n (controller n) xs (controller-Valid n) in
    (v.within, v.full, e ∙ ap pos (sym v.counted))
