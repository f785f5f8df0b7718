-- ===== src/Semaphore/Valid.antt =====
-- What every operation of the semaphore keeps, and whom it starts.
use fancy_kit.Common.{
  ℕ, length, ◌+◌, ◌≤◌, ◌<◌, ◌≡◌, refl, sym, ap, ◌∙◌, subst, ◌⊎◌, inl, inr, Bool, true, false, not,
  List, [], ◌∷◌, ◌++◌, none, some, ltb, ltb→lt, ◌==◌, arith, Bool-cases, map,
}
use fancy_kit.Semaphore.{
  state_none, QueueNotifier, Semaphore, unfinished, pump, exec_process, acquire_in, is_done,
}
use fancy_kit.Semaphore.Pump.{
  AllWait, Phased, all_wait, runs, held, waiting, begin_first, Blocked, pump_lem,
}

-- Running items stand first and hold what `current_processes` says, which is within the limit; the
-- oldest waiting item does not fit.
pub record Valid (s : Semaphore) : Type 0 where
  pub phased : Phased s.limit s.queue
  pub counts : held s.queue ≡ s.current_processes
  pub within : s.current_processes ≤ s.limit
  pub blocked : Blocked s.limit s.current_processes s.queue

-- A valid state after a pass over the queue `es`: the waiting items that it started are the oldest
-- ones, in order, the queue has no other change, and exactly their promises were resolved with true.
pub record Executed (bound : ℕ) (before : List (ℕ × Bool)) (es : List QueueNotifier) (t : Semaphore)
    : Type 0 where
  pub valid : Valid t
  pub limit : t.limit ≡ bound
  pub started : List ℕ
  pub notified : t.notified ≡ before ++ map (λ k. (k, true)) started
  pub order : waiting es ≡ started ++ waiting t.queue
  pub queue : t.queue ≡ begin_first (length started) es

pub exec_process-Executed :
    (s : Semaphore) (es : List QueueNotifier)
    → unfinished s.queue ≡ es
    → Phased s.limit es
    → held es ≡ s.current_processes
    → s.current_processes ≤ s.limit
    → Executed s.limit s.notified es (exec_process s)
unfolding exec_process
exec_process-Executed s es e p c w =
    let v = pump_lem s es p w in
    rw e (record {
      valid = record {
        phased = subst (λ l. Phased l (pump es s).1) (sym v.limit) v.phased;
        counts = omega (arith, v.counts, c);
        within = omega (arith, v.within, v.limit);
        blocked =
            subst (λ l. Blocked l (pump es s).0.current_processes (pump es s).1) (sym v.limit)
              v.blocked;
      };
      limit = v.limit;
      started = v.started;
      notified = v.notified;
      order = v.order;
      queue = v.queue;
    })

-- No item is done.
abbrev pub Undone : List QueueNotifier → Type 0
Undone [] = Unit
Undone (e ∷ es) = (is_done e.state ≡ false) × Undone es

AllWait-Undone : (limit : ℕ) (es : List QueueNotifier) → AllWait limit es → Undone es
AllWait-Undone limit [] a = tt
AllWait-Undone limit (e ∷ es) (n, q, a) = (rw n refl, AllWait-Undone limit es a)

pub Phased-Undone : {limit : ℕ} {es : List QueueNotifier} → Phased limit es → Undone es
Phased-Undone (all_wait {es} a) = AllWait-Undone _ es a
Phased-Undone (runs r q p) = (rw r refl, Phased-Undone p)

pub unfinished_lem : (es : List QueueNotifier) → Undone es → unfinished es ≡ es
unfolding unfinished
unfinished_lem [] u = refl
unfinished_lem (e ∷ es) (n, u) = rw n (ap (◌∷◌ e) (unfinished_lem es u))

AllWait-post :
    {limit : ℕ} (e : QueueNotifier) (es : List QueueNotifier)
    → e.state ≡ state_none
    → e.quantity ≤ limit
    → AllWait limit es
    → AllWait limit (es ++ e ∷ [])
AllWait-post e [] n q a = (n, q, tt)
AllWait-post e (x ∷ xs) n q (m, r, a) = (m, r, AllWait-post e xs n q a)

Phased-post :
    {limit : ℕ} {es : List QueueNotifier} (e : QueueNotifier)
    → e.state ≡ state_none
    → e.quantity ≤ limit
    → Phased limit es
    → Phased limit (es ++ e ∷ [])
Phased-post e n q (all_wait {es} a) = all_wait (AllWait-post e es n q a)
Phased-post e n q (runs r w p) = runs r w (Phased-post e n q p)

pub held-append : (es fs : List QueueNotifier) → held (es ++ fs) ≡ held es + held fs
held-append [] fs = omega arith
held-append (e ∷ es) fs = omega (arith, held-append es fs)

pub waiting-append : (es fs : List QueueNotifier) → waiting (es ++ fs) ≡ waiting es ++ waiting fs
waiting-append [] fs = refl
waiting-append (e ∷ es) fs = ground (arith, waiting-append es fs)

-- On a valid semaphore `_acquire`, which `acquire` and `tryAcquire` call, throws for a quantity over
-- the limit. Else the call's item joins the
-- queue last, the oldest waiting items that fit are started in order, and the semaphore is valid
-- again.
pub acquire_in-Executed :
    (quantity timeout : ℕ) (s : Semaphore)
    → Valid s
    → ((s.limit < quantity) × (acquire_in quantity timeout s ≡ none))
      ⊎ ((quantity ≤ s.limit)
          × ((t : Semaphore) × (acquire_in quantity timeout s ≡ some (t, s.next_key))
              × Executed s.limit s.notified
                  (s.queue
                    ++ record {
                      key = s.next_key;
                      quantity = quantity;
                      state = state_none;
                      timer = not (timeout == 0);
                    }
                      ∷ [])
                  t))
unfolding acquire_in
acquire_in-Executed quantity timeout s v = elim (Bool-cases (ltb s.limit quantity)) [
  | inl big ↦ inl (ltb→lt _ _ big, rw big refl)
  | inr fits ↦
      let small : quantity ≤ s.limit = ground (arith, fits) in
      let e : QueueNotifier = record {
        key = s.next_key;
        quantity = quantity;
        state = state_none;
        timer = not (timeout == 0);
      } in
      let p : Phased s.limit (s.queue ++ e ∷ []) = Phased-post e refl small v.phased in
      rw fits (
        inr (
          small,
          (
            _,
            refl,
            exec_process-Executed _ (s.queue ++ e ∷ [])
                (unfinished_lem (s.queue ++ e ∷ []) (Phased-Undone p)) p
                (held-append s.queue (e ∷ []) ∙ omega (arith, v.counts)) v.within,
          ),
        ))
]
