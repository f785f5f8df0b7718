-- ===== src/TaskController/Places.antt =====
-- What each operation does to the places and to the calls that are counted.
use fancy_kit.Common.{
  ℕ, suc, ◌+◌, ◌≤◌, ◌<◌, ◌≡◌, refl, ap, subst, Bool, true, false, List, [], ◌∷◌, ◌++◌, length,
  length-append, leb, ◌==◌, ◌||◌, if_cases, arith, Bool-cases, inl, inr,
}
use fancy_kit.Common.Int.{pos, ltb_ℤ}
use fancy_kit.TaskController.{
  Waiter, acquirer, watcher, ConcurrentTaskController, has, remove, waiters, acquire_round, release,
  wait_for_all_released,
}

-- How many of the waiting calls are calls of `__acquire`.
abbrev pub acquirers : List Waiter → ℕ
acquirers [] = 0
acquirers (acquirer id ∷ ws) = suc (acquirers ws)
acquirers (watcher id ∷ ws) = acquirers ws

pub record Limited (n : ℕ) (s : ConcurrentTaskController) (total : ℕ) : Type 0 where
  pub limit : s.max_concurrency ≡ n
  pub within : length s.running_tasks ≤ n
  pub full : 0 < acquirers (waiters s.on_free) → length s.running_tasks ≡ n
  pub counted : length s.running_tasks + acquirers (waiters s.on_free) + acquirers s.woken ≡ total

pub acquirers-append : (ws vs : List Waiter) → acquirers (ws ++ vs) ≡ acquirers ws + acquirers vs
acquirers-append [] vs = omega arith
acquirers-append (acquirer id ∷ ws) vs = omega (arith, acquirers-append ws vs)
acquirers-append (watcher id ∷ ws) vs = acquirers-append ws vs

length-remove : (id : ℕ) (xs : List ℕ) → has id xs ≡ true → suc (length (remove id xs)) ≡ length xs
length-remove id [] h = absurd (let x : false ≡ true = h in cc)
length-remove id (x ∷ xs) h =
    let found : Bool → Type 0 = λ b. (b || has id xs) ≡ true in
    elim (Bool-cases (x == id)) [
      | inl t ↦ rw t refl
      | inr e ↦ rw e (ap suc (length-remove id xs (subst found e h)))
    ]

reached : (m n : ℕ) → leb m n ≡ true → m ≤ n
reached m n h = ground arith

below : (m n : ℕ) → leb m n ≡ false → n < m
below m n h = ground arith

-- A call that has just been counted or woken, and is in no list yet.
pub acquire_round-Limited :
    (n id : ℕ) (s : ConcurrentTaskController) (total : ℕ)
    → Limited n s total
    → Limited n (acquire_round id s) (suc total)
unfolding acquire_round
acquire_round-Limited n id s total v =
    let ws = acquirers-append (waiters s.on_free) (acquirer id ∷ []) in
    let more = length-append s.running_tasks (id ∷ []) in
    let b = v.limit in
    let l = v.within in
    let c = v.counted in
    if_cases (λ (t : ConcurrentTaskController). Limited n t (suc total))
      (leb s.max_concurrency (length s.running_tasks))
      (λ h.
        let r = reached s.max_concurrency (length s.running_tasks) h in
        record {
          limit = b;
          within = l;
          full = λ _. omega (arith, r, b, l);
          counted = omega (arith, ws, c);
        })
      λ h.
        let r = below s.max_concurrency (length s.running_tasks) h in
        record {
          limit = b;
          within = omega (arith, r, b, more);
          full = λ w. let f = v.full w in absurd (omega (arith, r, b, f));
          counted = omega (arith, more, c);
        }

pub wait-Limited :
    (n id : ℕ) (s : ConcurrentTaskController) (total : ℕ)
    → Limited n s total
    → Limited n (wait_for_all_released id s) total
unfolding wait_for_all_released
wait-Limited n id s total v =
    let ws = acquirers-append (waiters s.on_free) (watcher id ∷ []) in
    let c = v.counted in
    if_cases (λ (t : ConcurrentTaskController). Limited n t total)
      (ltb_ℤ (pos 0) s.total_on_process)
      (λ h. record {
        limit = v.limit;
        within = v.within;
        full = λ w. v.full (omega (arith, w, ws));
        counted = omega (arith, ws, c);
      })
      λ h. record { limit = v.limit; within = v.within; full = v.full; counted = c }

pub release-Limited :
    (n id : ℕ) (s : ConcurrentTaskController) (total : ℕ)
    → has id s.running_tasks ≡ true
    → Limited n s (suc total)
    → Limited n (release id s) total
unfolding release
release-Limited n id s total h v =
    let gone = length-remove id s.running_tasks h in
    let ws = acquirers-append s.woken (waiters s.on_free) in
    let l = v.within in
    let c = v.counted in
    record {
      limit = v.limit;
      within = rw h (omega (arith, gone, l));
      full = λ w. absurd (omega (arith, w));
      counted = rw h (omega (arith, gone, ws, c));
    }
