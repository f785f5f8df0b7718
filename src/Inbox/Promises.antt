-- ===== src/Inbox/Promises.antt =====
-- Which promise a call that waits is waiting for: the one that the inbox holds.
use fancy_kit.Common.{
  ℕ, suc, ◌≡◌, ◌≢◌, sym, ap, ◌∙◌, inl, inr, Bool, false, List, some, if_cases, arith,
}
use fancy_kit.Inbox.{Inbox, Round, returned, thrown, waits, again, Picked}
use fancy_kit.Inbox.Rounds.{post, pick, post_round}
use fancy_kit.Inbox.Locks.{Live, PickRounds, took, slept, post_round-Live, pick_round-Live}

module _ {ℓ} {R : Type ℓ} where
  -- The promise of a round that waits, and another number of any other round.
  promise_of : Round R → ℕ → ℕ
  promise_of (waits p) other = p
  promise_of (returned _) other = other
  promise_of thrown other = other
  promise_of again other = other

  waits-injective : {p q : ℕ} → ◌≡◌ {A = Round R} (waits p) (waits q) → p ≡ q
  unfolding promise_of
  waits-injective e = ap (λ r. promise_of r 0) e

  returned-ne-waits : {x : R} {p : ℕ} → returned x ≢ waits p
  unfolding promise_of
  returned-ne-waits {p = p} e = absurd (omega (arith, ap (λ r. promise_of r (suc p)) e))

  thrown-ne-waits : {p : ℕ} → ◌≢◌ {A = Round R} thrown (waits p)
  unfolding promise_of
  thrown-ne-waits {p} e = absurd (omega (arith, ap (λ r. promise_of r (suc p)) e))

module _ {ℓ} {A : Type ℓ} where
  waits_for :
      (x : A) (s : Inbox A) (xs : List A) (p : ℕ)
      → Live s xs
      → (post_round false x s).1 ≡ waits p
      → (post_round false x s).0.lock_full ≡ some p
  waits_for x s xs p v e = elim (post_round-Live x s xs v) [
    | inl (_, r, _) ↦ absurd (returned-ne-waits (sym r ∙ e))
    | inr (_, _, (q, r, f)) ↦ f ∙ ap some (waits-injective (sym r ∙ e))
  ]

  pub post-locks :
      (cancelled : Bool) (x : A) (s : Inbox A) (xs : List A) (p : ℕ)
      → Live s xs
      → (post cancelled x s).1 ≡ waits p
      → (post cancelled x s).0.lock_full ≡ some p
  unfolding post
  post-locks cancelled x s xs p v =
      if_cases (λ (r : Inbox A × Round Bool). r.1 ≡ waits p → r.0.lock_full ≡ some p) s.is_disposed
        (λ _ e. absurd (thrown-ne-waits e))
        λ _.
          if_cases (λ (r : Inbox A × Round Bool). r.1 ≡ waits p → r.0.lock_full ≡ some p) cancelled
            (λ _ e. absurd (returned-ne-waits e)) λ _ e. waits_for x s xs p v e

  slept_on :
      (s : Inbox A) (xs : List A) (p : ℕ) (r : Inbox A × Round (Picked A))
      → PickRounds s xs r
      → r.1 ≡ waits p
      → r.0.lock_ready ≡ some p
  slept_on s _ p _ (took w) e = absurd (returned-ne-waits e)
  slept_on s _ p _ (slept w f) e = f ∙ ap some (waits-injective e)

  pub pick-locks :
      (cancelled : Bool) (s : Inbox A) (xs : List A) (p : ℕ)
      → Live s xs
      → (pick cancelled s).1 ≡ waits p
      → (pick cancelled s).0.lock_ready ≡ some p
  unfolding pick
  pick-locks cancelled s xs p v =
      if_cases (λ (r : Inbox A × Round (Picked A)). r.1 ≡ waits p → r.0.lock_ready ≡ some p)
        s.is_disposed (λ _ e. absurd (thrown-ne-waits e))
        λ _.
          if_cases (λ (r : Inbox A × Round (Picked A)). r.1 ≡ waits p → r.0.lock_ready ≡ some p)
            cancelled (λ _ e. absurd (returned-ne-waits e))
            λ _ e. slept_on s xs p _ (pick_round-Live s xs v) e
