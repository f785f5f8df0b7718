-- ===== src/Inbox/Wakes.antt =====
-- Sequences of the asynchronous calls: no caller waits in vain, unless a post is cancelled.
use fancy_kit.Common.{
  ℕ, ◌⊎◌, ◌-◌, ◌<◌, ◌≡◌, ◌≢◌, refl, sym, ap, ◌∙◌, subst, inl, inr, Bool, false, List, [], ◌∷◌, ◌++◌,
  Option, none, some, length, arith, Bool-cases, if_cases, ◌==◌, none-ne-some, some-injective,
  length-append,
}
use fancy_kit.Common.Int.{pos, ◌-ℤ◌, ltb_ℤ, eqb_ℤ}
use fancy_kit.Inbox.{
  Inbox, inbox, Signal, Round, waits, Picked, free, size, try_cancel_post, size, fix_idx, size,
  dispose, new_inbox,
}
use fancy_kit.Inbox.Holding.{size-Holding}
use fancy_kit.Inbox.Lifetime.{new_inbox-Bounded, dispose-Bounded}
use fancy_kit.Inbox.Bounded.{Bounded, Cancels, none_posted, cancels, try_cancel_post-Bounded}
use fancy_kit.Inbox.Rounds.{post, pick}
use fancy_kit.Inbox.Promises.{post-locks, pick-locks}
use fancy_kit.Inbox.Since.{Settled, Later, Later-refl, Later-trans}
use fancy_kit.Inbox.Signals.{post-Later, pick-Later, dispose-Later}
use fancy_kit.Inbox.Locks.{Live, PickRounds, took, slept, post_round-Live, pick_round-Live}

pub data Call {ℓ} (A : Type ℓ) : Type ℓ where
  posts : Bool → A → Call A
  takes : Bool → Call A
  disposes : Call A

module _ {ℓ} {A : Type ℓ} where
  unfoldable pub step : Inbox A → Call A → Inbox A
  step s (posts cancelled x) = (post cancelled x s).0
  step s (takes cancelled) = (pick cancelled s).0
  step s disposes = dispose s

  unfoldable pub run : Inbox A → List (Call A) → Inbox A
  run s [] = s
  run s (c ∷ cs) = run (step s c) cs

  post-Live :
      (cancelled : Bool) (x : A) (s : Inbox A) (xs : List A)
      → Live s xs
      → (ys : List A) × Live (post cancelled x s).0 ys
  unfolding post
  post-Live cancelled x s xs v =
      if_cases (λ (r : Inbox A × Round Bool). (ys : List A) × Live r.0 ys) s.is_disposed
        (λ _. (xs, v))
        λ _.
          if_cases (λ (r : Inbox A × Round Bool). (ys : List A) × Live r.0 ys) cancelled
            (λ _. (xs, v))
            λ _. elim (post_round-Live x s xs v) [
              | inl (_, _, w) ↦ (xs ++ x ∷ [], w)
              | inr (_, w, _) ↦ (xs, w)
            ]

  picked-Live :
      (s : Inbox A) (xs : List A) (r : Inbox A × Round (Picked A))
      → PickRounds s xs r
      → (ys : List A) × Live r.0 ys
  picked-Live s _ _ (took {xs} w) = (xs, w)
  picked-Live s _ _ (slept w e) = ([], w)

  pick-Live :
      (cancelled : Bool) (s : Inbox A) (xs : List A)
      → Live s xs
      → (ys : List A) × Live (pick cancelled s).0 ys
  unfolding pick
  pick-Live cancelled s xs v =
      if_cases (λ (r : Inbox A × Round (Picked A)). (ys : List A) × Live r.0 ys) s.is_disposed
        (λ _. (xs, v))
        λ _.
          if_cases (λ (r : Inbox A × Round (Picked A)). (ys : List A) × Live r.0 ys) cancelled
            (λ _. (xs, v)) λ _. picked-Live s xs _ (pick_round-Live s xs v)

  dispose-Live : (s : Inbox A) (xs : List A) → Live s xs → Live (dispose s) []
  unfolding dispose
  dispose-Live s xs v = record {
    class = rw (v.class, dispose) v.class;
    bounded = (dispose-Bounded s v.bounded.plain).0;
    lock_full = λ h. absurd (h (rw (v.class, dispose)));
    lock_ready = λ _. refl;
  }

  step-Live :
      (s : Inbox A) (c : Call A) (xs : List A) → Live s xs → (ys : List A) × Live (step s c) ys
  unfolding step
  step-Live s (posts cancelled x) xs v = post-Live cancelled x s xs v
  step-Live s (takes cancelled) xs v = pick-Live cancelled s xs v
  step-Live s disposes xs v = ([], dispose-Live s xs v)

  run-Live :
      (s : Inbox A) (cs : List (Call A)) (xs : List A)
      → Live s xs
      → (ys : List A) × Live (run s cs) ys
  unfolding run
  run-Live s [] xs v = (xs, v)
  run-Live s (c ∷ cs) xs v = let (ys, w) = step-Live s c xs v in run-Live (step s c) cs ys w

  new_inbox-locks :
      (capacity : ℕ) (s : Inbox A)
      → new_inbox inbox capacity ≡ some s
      → (s.class ≡ inbox) × (s.lock_full ≡ none) × (s.lock_ready ≡ none)
  unfolding new_inbox
  new_inbox-locks capacity s =
      if_cases
        (λ (r : Option (Inbox A)).
          r ≡ some s → (s.class ≡ inbox) × (s.lock_full ≡ none) × (s.lock_ready ≡ none))
        (capacity == 0) (λ _ e. absurd (none-ne-some _ e))
        λ _ e.
          let made = some-injective _ _ e in
          (
            sym (ap (λ t. t.class) made),
            sym (ap (λ t. t.lock_full) made),
            sym (ap (λ t. t.lock_ready) made),
          )

  new_inbox-Live : (capacity : ℕ) (s : Inbox A) → new_inbox inbox capacity ≡ some s → Live s []
  new_inbox-Live capacity s e = elim (new_inbox-Bounded {A = A} inbox capacity (λ d. cc)) [
    | inl (_, n) ↦ absurd (none-ne-some _ (sym n ∙ e))
    | inr (t, n, b, _) ↦
        let (c, f, r) = new_inbox-locks capacity s e in
        record {
          class = c;
          bounded = subst (λ t. Bounded t []) (some-injective _ _ (sym n ∙ e)) b;
          lock_full = λ h. absurd (h f);
          lock_ready = λ _. refl;
        }
  ]

  free-Holding : (s : Inbox A) (xs : List A) → Bounded s xs → free s ≡ pos (s.capacity - length xs)
  unfolding free ◌-ℤ◌
  free-Holding s xs b = rw (size-Holding s b.read xs b.ring) (ground (arith, b.ring.fits))

  run_locks :
      (s : Inbox A) (cs : List (Call A)) (xs : List A)
      → Live s xs
      → let t = run s cs in
        (t.lock_full ≢ none → free t ≡ pos 0) × (t.lock_ready ≢ none → size t ≡ pos 0)
  run_locks s cs xs w =
      let (ys, v) = run-Live s cs xs w in
      let r = v.bounded.ring in
      (
        λ h. free-Holding (run s cs) ys v.bounded ∙ ap pos (omega (arith, v.lock_full h)),
        λ h. size-Holding (run s cs) v.bounded.read ys r ∙ ap pos (ap length (v.lock_ready h)),
      )

  step-Later : (s : Inbox A) (c : Call A) → s.class ≡ inbox → Later s (step s c)
  unfolding step
  step-Later s (posts cancelled x) e = post-Later cancelled x s e
  step-Later s (takes cancelled) e = pick-Later cancelled s e
  step-Later s disposes e = dispose-Later s e

  run-Later : (s : Inbox A) (cs : List (Call A)) (xs : List A) → Live s xs → Later s (run s cs)
  unfolding run
  run-Later s [] xs v = Later-refl s
  run-Later s (c ∷ cs) xs v =
      let (ys, w) = step-Live s c xs v in
      Later-trans s (step s c) (run (step s c) cs) (step-Later s c v.class)
        (run-Later (step s c) cs ys w)

  -- The call waits for the promise.
  pub data Sleeps (s : Inbox A) : Call A → ℕ → Type ℓ where
    posting :
        {cancelled : Bool} {x : A} {p : ℕ}
        → (post cancelled x s).1 ≡ waits p
        → Sleeps s (posts cancelled x) p
    picking :
        {cancelled : Bool} {p : ℕ} → (pick cancelled s).1 ≡ waits p → Sleeps s (takes cancelled) p

  -- What keeps the call waiting: the inbox holds the promise, and there is no place or no item.
  abbrev pub Blocked : Inbox A → Call A → ℕ → Type 0
  Blocked s (posts _ _) p = (s.lock_full ≡ some p) × (free s ≡ pos 0)
  Blocked s (takes _) p = (s.lock_ready ≡ some p) × (size s ≡ pos 0)
  Blocked s disposes p = ⊥

  -- The promise was settled since the state `s`.
  abbrev pub SettledSince : Inbox A → Inbox A → ℕ → Type 0
  SettledSince s t p = (more : List (ℕ × Signal)) × (t.settled ≡ s.settled ++ more) × Settled p more

  -- No wake-up is lost: whatever calls of `post`, `pick` and `dispose` on a new `Inbox` come before and
  -- after a call that waits, either the promise it waits for has been resolved or rejected since, or the
  -- inbox still holds that promise and there is no free place for the `post`, or no item for the `pick`.
  pub run_wakes :
      (capacity : ℕ) (s : Inbox A) (before : List (Call A)) (c : Call A) (p : ℕ)
      (after : List (Call A))
      → new_inbox inbox capacity ≡ some s
      → Sleeps (run s before) c p
      → let t = step (run s before) c in let u = run t after in SettledSince t u p ⊎ Blocked u c p
  unfolding step
  run_wakes capacity s before _ _ after e (posting {cancelled} {x} {p} asleep) =
      let (xs, v) = run-Live s before [] (new_inbox-Live capacity s e) in
      let (ys, w) = post-Live cancelled x (run s before) xs v in
      let t = (post cancelled x (run s before)).0 in
      let since = run-Later t after ys w in
      elim (since.full p (post-locks cancelled x (run s before) xs p v asleep)) [
        | inl held ↦ inr (held, (run_locks t after ys w).0 (λ n. none-ne-some p (sym n ∙ held)))
        | inr done ↦ inl (since.more, since.order, done)
      ]
  run_wakes capacity s before _ _ after e (picking {cancelled} {p} asleep) =
      let (xs, v) = run-Live s before [] (new_inbox-Live capacity s e) in
      let (ys, w) = pick-Live cancelled (run s before) xs v in
      let t = (pick cancelled (run s before)).0 in
      let since = run-Later t after ys w in
      elim (since.ready p (pick-locks cancelled (run s before) xs p v asleep)) [
        | inl held ↦ inr (held, (run_locks t after ys w).1 (λ n. none-ne-some p (sym n ∙ held)))
        | inr done ↦ inl (since.more, since.order, done)
      ]

  try_cancel_post-locks :
      (s : Inbox A)
      → eqb_ℤ (size s) (pos 0) ≡ false
      → let t = (try_cancel_post s).0 in (t.lock_full ≡ s.lock_full) × (t.settled ≡ s.settled)
  unfolding try_cancel_post fix_idx
  try_cancel_post-locks s more =
      rw more (elim (Bool-cases (ltb_ℤ (pos s.wrap_around_count) s.read_idx)) [
        | inl t ↦ rw t (refl, refl)
        | inr t ↦ rw t (refl, refl)
      ])

  cancelled_room :
      (s : Inbox A) (xs : List A) (r : Inbox A × Picked A)
      → length xs ≡ s.capacity
      → 0 < s.capacity
      → Cancels s xs r
      → free r.0 ≡ pos 1
  cancelled_room s _ _ full h none_posted = absurd (omega (arith, full, h))
  cancelled_room s _ _ full h (cancels {x} {xs} {s'} (b, e)) =
      free-Holding s' xs b ∙ ap pos (omega (arith, e, full, h, length-append xs (x ∷ [])))

  -- `try_cancel_post` frees a place and wakes nobody: if a caller of `post` waits on the full inbox,
  -- the lock is still there and no promise has been resolved, although a place is free.
  pub try_cancel_post_strands :
      (s : Inbox A) (xs : List A) (p : ℕ)
      → Live s xs
      → 0 < s.capacity
      → s.lock_full ≡ some p
      → let t = (try_cancel_post s).0 in
        (t.lock_full ≡ some p) × (t.settled ≡ s.settled) × (free t ≡ pos 1)
  try_cancel_post_strands s xs p v h e =
      let full = v.lock_full (λ n. none-ne-some _ (sym n ∙ e)) in
      let more : eqb_ℤ (size s) (pos 0) ≡ false =
        rw (size-Holding s v.bounded.read xs v.bounded.ring) (ground (arith, full, h)) in
      let (f, d) = try_cancel_post-locks s more in
      (
        f ∙ e,
        d,
        cancelled_room s xs (try_cancel_post s) full h (try_cancel_post-Bounded s xs v.bounded),
      )
