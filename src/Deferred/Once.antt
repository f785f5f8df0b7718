-- ===== src/Deferred/Once.antt =====
-- A scheduled callback runs once at most, and never after it was replaced, cancelled or disposed.
use fancy_kit.Common.{
  ℕ, ◌≤◌, ◌<◌, ◌≡◌, refl, sym, ap, ◌∙◌, subst, Bool, true, false, List, [], ◌∷◌, Option, none, some,
  ==_iff, if_cases, none-ne-some, arith,
}
use fancy_kit.Deferred.{
  Pending, Deferred, Outcome, returned, threw, Interrupt, nothing, cancels, disposes, Registration,
  registers, fails, create, is_current, fire, cancel_registration, cancel_pending, cancel, dispose,
  interrupted, registered, scheduled, schedule,
}

pub data Call : Type 0 where
  calls_schedule : ℕ → Interrupt → Registration → Call
  calls_cancel calls_dispose : Call
  fires : ℕ → Call

-- Newest first, each newer than the one before, and all older than the bound.
abbrev pub Rising : List ℕ → ℕ → Type 0
Rising [] bound = Unit
Rising (r ∷ rs) bound = (r < bound) × Rising rs r

abbrev Order : Option Pending → List ℕ → ℕ → Type 0
Order none runs next = Rising runs next
Order (some p) runs next = (p.id < next) × Rising runs p.id

Rising-later : (rs : List ℕ) (m n : ℕ) → m ≤ n → Rising rs m → Rising rs n
Rising-later [] m n h r = tt
Rising-later (x ∷ xs) m n h (l, r) = (omega arith, r)

Order-none : (p : Option Pending) (rs : List ℕ) (n : ℕ) → Order p rs n → Rising rs n
Order-none none rs n o = o
Order-none (some p) rs n (l, o) = Rising-later rs p.id n (omega arith) o

pub record Valid (s : Deferred) : Type 0 where
  pub order : Order s.pending s.runs s.next_id
  pub quiet : s.disposed ≡ true → s.pending ≡ none

-- The same runs, and no callback pending.
pub record Cleared (s t : Deferred) : Type 0 where
  pub pending : t.pending ≡ none
  pub runs : t.runs ≡ s.runs
  pub next_id : t.next_id ≡ s.next_id

module _ (refuses : ℕ → Bool) where
  cancel_registration-Cleared :
      (r : Option ℕ) (s : Deferred)
      → s.pending ≡ none
      → Cleared s (cancel_registration refuses r s).0
  cancel_registration-Cleared none s e = record { pending = e; runs = refl; next_id = refl }
  cancel_registration-Cleared (some r) s e = record { pending = e; runs = refl; next_id = refl }

  cancel_pending-Cleared :
      (p : Option Pending) (s : Deferred)
      → s.pending ≡ none
      → Cleared s (cancel_pending refuses p s).0
  cancel_pending-Cleared none s e = record { pending = e; runs = refl; next_id = refl }
  cancel_pending-Cleared (some p) s e = cancel_registration-Cleared p.cancel s e

  Cleared-Valid : (s t : Deferred) → Valid s → Cleared s t → Valid t
  Cleared-Valid s t v c = record {
    order =
        subst (λ p. Order p t.runs t.next_id) (sym c.pending)
          (rw (c.runs, c.next_id) (Order-none s.pending s.runs s.next_id v.order));
    quiet = λ _. c.pending;
  }

  pub cancel-Cleared : (s : Deferred) → Cleared s (cancel refuses s).0
  unfolding cancel
  cancel-Cleared s =
      let c = cancel_pending-Cleared s.pending (record s { pending = none }) refl in
      record { pending = c.pending; runs = c.runs; next_id = c.next_id }

  dispose-Valid : (s : Deferred) → Valid s → Valid (dispose refuses s).0
  unfolding dispose
  dispose-Valid s v =
      if_cases (λ (r : Deferred × Outcome). Valid r.0) s.disposed (λ _. v)
        λ _.
          let c = cancel-Cleared (record s { disposed = true }) in
          Cleared-Valid s _ v (record { pending = c.pending; runs = c.runs; next_id = c.next_id })

  interrupted-Valid : (i : Interrupt) (s : Deferred) → Valid s → Valid (interrupted refuses i s)
  interrupted-Valid nothing s v = v
  interrupted-Valid cancels s v = Cleared-Valid s _ v (cancel-Cleared s)
  interrupted-Valid disposes s v = dispose-Valid s v

  current_pending :
      (id : ℕ) (p : Option Pending)
      → is_current id p ≡ true
      → (q : Pending) × (p ≡ some q) × (q.id ≡ id)
  current_pending id none e = cc
  current_pending id (some q) e = (q, refl, (==_iff q.id id).0 e)

  registered-Valid :
      (id : ℕ) (r : Registration) (s : Deferred) → Valid s → Valid (registered refuses id r s).0
  registered-Valid id (registers r) s v =
      if_cases (λ (x : Deferred × Outcome). Valid x.0) (is_current id s.pending)
        (λ e.
          let (q, p, i) = current_pending id s.pending e in
          let (l, o) = subst (λ p. Order p s.runs s.next_id) p v.order in
          record {
            order = (omega (arith, l, i), subst (Rising s.runs) i o);
            quiet = λ d. absurd (none-ne-some _ (sym (v.quiet d) ∙ p));
          })
        λ _. record { order = v.order; quiet = v.quiet }
  registered-Valid id fails s v =
      if_cases (λ (x : Deferred). Valid x) (is_current id s.pending)
        (λ _. record { order = Order-none s.pending s.runs s.next_id v.order; quiet = λ _. refl })
        λ _. v

  scheduled-Valid :
      (delay : ℕ) (i : Interrupt) (r : Registration) (x : Deferred × Outcome)
      → Valid x.0
      → x.0.disposed ≡ false
      → Valid (scheduled refuses delay i r x).0
  scheduled-Valid delay i r (s, threw) v d = v
  scheduled-Valid delay i r (s, returned) v d = registered-Valid s.next_id r _ (
      interrupted-Valid i _ (record {
        order = (omega arith, Order-none s.pending s.runs s.next_id v.order);
        quiet = λ e. cc;
      }))

  cancel_registration-disposed :
      (r : Option ℕ) (s : Deferred) → (cancel_registration refuses r s).0.disposed ≡ s.disposed
  cancel_registration-disposed none s = refl
  cancel_registration-disposed (some r) s = refl

  cancel_pending-disposed :
      (p : Option Pending) (s : Deferred) → (cancel_pending refuses p s).0.disposed ≡ s.disposed
  cancel_pending-disposed none s = refl
  cancel_pending-disposed (some p) s = cancel_registration-disposed p.cancel s

  pub cancel-disposed : (s : Deferred) → (cancel refuses s).0.disposed ≡ s.disposed
  unfolding cancel
  cancel-disposed s = cancel_pending-disposed s.pending (record s { pending = none })

  schedule-Valid :
      (delay : ℕ) (i : Interrupt) (r : Registration) (s : Deferred)
      → Valid s
      → Valid (schedule refuses delay i r s).0
  unfolding schedule
  schedule-Valid delay i r s v =
      if_cases (λ (x : Deferred × Outcome). Valid x.0) s.disposed (λ _. v)
        λ d.
          scheduled-Valid delay i r (cancel refuses s) (Cleared-Valid s _ v (cancel-Cleared s))
            (cancel-disposed s ∙ d)

  fire-Valid : (id : ℕ) (s : Deferred) → Valid s → Valid (fire id s)
  unfolding fire
  fire-Valid id s v =
      if_cases (λ (x : Deferred). Valid x) (is_current id s.pending)
        (λ e.
          let (q, p, i) = current_pending id s.pending e in
          let (l, o) = subst (λ p. Order p s.runs s.next_id) p v.order in
          record { order = (omega (arith, l, i), subst (Rising s.runs) i o); quiet = λ _. refl })
        λ _. v

  unfoldable pub step : Deferred → Call → Deferred
  step s (calls_schedule delay i r) = (schedule refuses delay i r s).0
  step s calls_cancel = (cancel refuses s).0
  step s calls_dispose = (dispose refuses s).0
  step s (fires id) = fire id s

  unfoldable pub run : Deferred → List Call → Deferred
  run s [] = s
  run s (c ∷ cs) = run (step s c) cs

  step-Valid : (s : Deferred) (c : Call) → Valid s → Valid (step s c)
  unfolding step
  step-Valid s (calls_schedule delay i r) v = schedule-Valid delay i r s v
  step-Valid s calls_cancel v = Cleared-Valid s _ v (cancel-Cleared s)
  step-Valid s calls_dispose v = dispose-Valid s v
  step-Valid s (fires id) v = fire-Valid id s v

  run-Valid : (s : Deferred) (cs : List Call) → Valid s → Valid (run s cs)
  unfolding run
  run-Valid s [] v = v
  run-Valid s (c ∷ cs) v = run-Valid (step s c) cs (step-Valid s c v)

  -- Over any calls on a new action, whatever the scheduler does in its calls and however often it
  -- invokes the callbacks, each schedule's callback runs once at most, and no callback runs after
  -- that of a later schedule.
  pub run_once : (cs : List Call) → let s = run create cs in Rising s.runs s.next_id
  unfolding create
  run_once cs =
      let v = run-Valid create cs (record { order = tt; quiet = λ _. refl }) in
      Order-none _ _ _ v.order

  -- No call makes the callback run again once the action is disposed of.
  dispose_step :
      (s : Deferred) (c : Call)
      → Valid s
      → s.disposed ≡ true
      → ((step s c).runs ≡ s.runs) × ((step s c).disposed ≡ true)
  unfolding step schedule dispose fire
  dispose_step s (calls_schedule delay i r) v d = rw (d, schedule) (refl, refl)
  dispose_step s calls_cancel v d = (let c = cancel-Cleared s in (c.runs, cancel-disposed s ∙ d))
  dispose_step s calls_dispose v d = rw (d, dispose) (refl, refl)
  dispose_step s (fires id) v d =
      let n : is_current id s.pending ≡ false = ap (is_current id) (v.quiet d) in rw n (refl, d)

  disposed_runs :
      (s : Deferred) (cs : List Call) → Valid s → s.disposed ≡ true → (run s cs).runs ≡ s.runs
  unfolding run
  disposed_runs s [] v d = refl
  disposed_runs s (c ∷ cs) v d =
      let (r, e) = dispose_step s c v d in disposed_runs (step s c) cs (step-Valid s c v) e ∙ r

  dispose-disposed :
      (s : Deferred)
      → ((dispose refuses s).0.disposed ≡ true) × ((dispose refuses s).0.runs ≡ s.runs)
  unfolding dispose
  dispose-disposed s =
      if_cases (λ (x : Deferred × Outcome). (x.0.disposed ≡ true) × (x.0.runs ≡ s.runs)) s.disposed
        (λ d. (d, refl))
        λ _.
          let t : Deferred = record s { disposed = true } in
          let c = cancel-Cleared t in (cancel-disposed t, c.runs)

  -- Whatever was called before and is called after it, and whether or not it throws, `dispose` is
  -- the end: no callback runs after it.
  pub dispose_ends :
      (cs ds : List Call) → let s = run create cs in (run (dispose refuses s).0 ds).runs ≡ s.runs
  unfolding create
  dispose_ends cs ds =
      let s = run create cs in
      let v = run-Valid create cs (record { order = tt; quiet = λ _. refl }) in
      let (d, r) = dispose-disposed s in
      disposed_runs (dispose refuses s).0 ds (dispose-Valid s v) d ∙ r
