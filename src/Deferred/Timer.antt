-- ===== src/Deferred/Timer.antt =====
-- The deferred action as a timer, over a scheduler that registers and cancels.
use fancy_kit.Common.{ℕ, ◌≡◌, refl, ◌∙◌, true, false, none, some, if_cases}
use fancy_kit.Deferred.{
  Deferred, create, Pending, Outcome, nothing, registers, is_current, fire, cancel, schedule,
}
use fancy_kit.Deferred.Once.{cancel-Cleared, cancel-disposed}
use fancy_kit.Deferred.Replaces.{scheduled_pending, scheduled-disposed, cancelled}

pub create-idle : (create.disposed ≡ false) × (create.pending ≡ none)
unfolding create
create-idle = (refl, refl)

pub cancel-idle :
    (d : Deferred)
    → d.disposed ≡ false
    → ((cancel (λ _. false) d).0.disposed ≡ false) × ((cancel (λ _. false) d).0.pending ≡ none)
cancel-idle d l =
    (cancel-disposed (λ _. false) d ∙ l, let c = cancel-Cleared (λ _. false) d in c.pending)

pub schedule-waits :
    (delay r : ℕ) (d : Deferred)
    → d.disposed ≡ false
    → let t = (schedule (λ _. false) delay nothing (registers r) d).0 in
      (t.disposed ≡ false) × ((p : Pending) × (t.pending ≡ some p))
unfolding schedule
schedule-waits delay r d l =
    let x = cancel (λ _. false) d in
    if_cases
      (λ (x : Deferred × Outcome).
        (x.0.disposed ≡ false) × ((p : Pending) × (x.0.pending ≡ some p)))
      d.disposed (λ e. cc)
      λ _. (
        scheduled-disposed delay r x (cancelled d) ∙ cancel-disposed (λ _. false) d ∙ l,
        (_, (scheduled_pending delay r x (cancelled d)).0),
      )

pub fire-idle :
    (id : ℕ) (d : Deferred)
    → d.disposed ≡ false
    → is_current id d.pending ≡ true
    → ((fire id d).disposed ≡ false) × ((fire id d).pending ≡ none)
unfolding fire
fire-idle id d l e =
    if_cases (λ (x : Deferred). (x.disposed ≡ false) × (x.pending ≡ none)) (is_current id d.pending)
      (λ _. (l, refl)) (λ n. cc)
