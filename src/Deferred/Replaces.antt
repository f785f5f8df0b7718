-- ===== src/Deferred/Replaces.antt =====
-- What `schedule` does when the scheduler registers and cancels without throwing.
use fancy_kit.Common.{
  ℕ, ◌≡◌, refl, sym, ap, ◌∙◌, subst, true, false, ◌∷◌, Option, none, some, ◌==◌, ==_iff, if_cases,
  ◌≢◌, arith,
}
use fancy_kit.Deferred.{
  Pending, Deferred, Outcome, returned, threw, nothing, registers, is_current, fire,
  cancel_registration, cancel_pending, cancel, scheduled, schedule,
}
use fancy_kit.Deferred.Once.{cancel-Cleared}

self_test : (n : ℕ) → (n == n) ≡ true
self_test n = (==_iff n n).1 refl

other_test : (m n : ℕ) → m ≢ n → (m == n) ≡ false
other_test m n h = ground arith

cancel_returns :
    (p : Option Pending) (s : Deferred) → (cancel_pending (λ _. false) p s).1 ≡ returned
cancel_returns none s = refl
cancel_returns (some p) s = go p.cancel
  where
    go : (r : Option ℕ) → (cancel_registration (λ _. false) r s).1 ≡ returned
    go none = refl
    go (some r) = refl

pub cancelled : (s : Deferred) → (cancel (λ _. false) s).1 ≡ returned
unfolding cancel
cancelled s = cancel_returns s.pending (record s { pending = none })

pub scheduled_pending :
    (delay r : ℕ) (x : Deferred × Outcome)
    → x.1 ≡ returned
    → let t = (scheduled (λ _. false) delay nothing (registers r) x).0 in
      (t.pending ≡ some (record { id = x.0.next_id; cancel = some r })) × (t.runs ≡ x.0.runs)
scheduled_pending delay r (u, threw) e = cc
scheduled_pending delay r (u, returned) e = rw (self_test u.next_id) (refl, refl)

pub scheduled-disposed :
    (delay r : ℕ) (x : Deferred × Outcome)
    → x.1 ≡ returned
    → (scheduled (λ _. false) delay nothing (registers r) x).0.disposed ≡ x.0.disposed
scheduled-disposed delay r (u, threw) e = cc
scheduled-disposed delay r (u, returned) e = rw (self_test u.next_id) refl

fire_current :
    (t : Deferred) (p : Pending) → t.pending ≡ some p → (fire p.id t).runs ≡ p.id ∷ t.runs
unfolding fire
fire_current t p e =
    let current : is_current p.id t.pending ≡ true = ap (is_current p.id) e ∙ self_test p.id in
    rw current refl

fire_other : (t : Deferred) (p : Pending) (id : ℕ) → t.pending ≡ some p → p.id ≢ id → fire id t ≡ t
unfolding fire
fire_other t p id e h =
    let other : is_current id t.pending ≡ false = ap (is_current id) e ∙ other_test p.id id h in
    rw other refl

-- With a scheduler that registers and whose cancellations do not throw, `schedule` on an action that
-- was not disposed of replaces what was pending: the scheduler's call of the new callback runs it,
-- and its call of any other one does nothing.
pub schedule_replaces :
    (delay r : ℕ) (s : Deferred) (other : ℕ)
    → s.disposed ≡ false
    → other ≢ s.next_id
    → let t = (schedule (λ _. false) delay nothing (registers r) s).0 in
      ((fire s.next_id t).runs ≡ s.next_id ∷ s.runs) × (fire other t ≡ t)
unfolding schedule
schedule_replaces delay r s other d h =
    let c = cancel-Cleared (λ _. false) s in
    let x = cancel (λ _. false) s in
    let t = (scheduled (λ _. false) delay nothing (registers r) x).0 in
    let (p, k) = scheduled_pending delay r x (cancelled s) in
    if_cases
      (λ (x : Deferred × Outcome).
        ((fire s.next_id x.0).runs ≡ s.next_id ∷ s.runs) × (fire other x.0 ≡ x.0))
      s.disposed (λ e. cc)
      λ _. (
        subst (λ n. (fire n t).runs ≡ n ∷ s.runs) c.next_id
            (fire_current t _ p ∙ ap (◌∷◌ x.0.next_id) (k ∙ c.runs)),
        fire_other t _ other p (λ e. h (sym e ∙ c.next_id)),
      )
