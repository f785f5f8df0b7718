-- ===== src/Inbox/Signals.antt =====
-- How the calls of an `Inbox` treat the promises that its callers wait for.
use fancy_kit.Common.{
  ℕ, suc, ◌<◌, ◌≡◌, refl, sym, ap, ◌∙◌, ◌⊎◌, inl, inr, Bool, true, false, List, [], ◌∷◌, ◌++◌,
  Option, none, some, none-ne-some, length, arith, if_cases, ◌==◌, if◌then◌else◌, append_assoc,
  append-nil,
}
use fancy_kit.Common.Int.{pos, eqb_ℤ}
use fancy_kit.Inbox.{
  Inbox, inbox, ready_signal, dispose_error, Round, returned, waits, Picked, item, not_available,
  free, notify_free, on_picked, try_post, try_pick, wait_for_free, wait_for_ready, is_full,
  is_running_out, dispose, settle_lock,
}
use fancy_kit.Inbox.Holding.{is_running_out-Holding}
use fancy_kit.Inbox.Rounds.{post, pick, post_round, pick_round, pick_result, waiting}
use fancy_kit.Inbox.Locks.{Live, fix_idx-locks, post_round-Live}
use fancy_kit.Inbox.Since.{
  Later, Later-refl, Later-trans, same_locks, fix_idx-settled, on_posted-Later, on_picked-Later,
  on_picked_opened, Kept-trans, released, settle_lock-append,
}

module _ {ℓ} {A : Type ℓ} where
  try_post-Later : (x : A) (s : Inbox A) → s.class ≡ inbox → Later s (try_post x s).0
  unfolding try_post
  try_post-Later x s e =
      if_cases (λ (r : Inbox A × Bool). Later s r.0) (is_full s) (λ _. Later-refl s)
        λ _. Later-trans s _ _ (same_locks s _ refl refl refl) (on_posted-Later _ e)

  try_pick-Later : (s : Inbox A) → s.class ≡ inbox → Later s (try_pick s).0
  unfolding try_pick
  try_pick-Later s e =
      if_cases (λ (r : Inbox A × Picked A). Later s r.0) (is_running_out s) (λ _. Later-refl s)
        λ _. Later-trans s _ _ (same_locks s _ refl refl refl) (on_picked-Later _ e)

  lock_full-Later :
      (s : Inbox A) (o : Option ℕ)
      → s.lock_full ≡ o
      → let taken : Inbox A × Option ℕ = elim o [
        | some lock ↦ (s, some lock)
        | none ↦ (
          record s { lock_full = some s.next_lock; next_lock = suc s.next_lock },
          some s.next_lock,
        )
      ] in
        Later s taken.0
  lock_full-Later s (some lock) e = Later-refl s
  lock_full-Later s none e = record {
    more = [];
    order = sym (append-nil s.settled);
    full = λ p h. absurd (none-ne-some p (sym e ∙ h));
    ready = λ p h. inl h;
  }

  wait_for_free-Later : (s : Inbox A) → Later s (wait_for_free s).0
  unfolding wait_for_free
  wait_for_free-Later s =
      if_cases (λ (r : Inbox A × Option ℕ). Later s r.0) (eqb_ℤ (free s) (pos 0))
        (λ _. lock_full-Later s s.lock_full refl) λ _. Later-refl s

  lock_ready-Later :
      (s : Inbox A) (o : Option ℕ)
      → s.lock_ready ≡ o
      → let taken : Inbox A × Option ℕ = elim o [
        | some lock ↦ (s, some lock)
        | none ↦ (
          record s { lock_ready = some s.next_lock; next_lock = suc s.next_lock },
          some s.next_lock,
        )
      ] in
        Later s taken.0
  lock_ready-Later s (some lock) e = Later-refl s
  lock_ready-Later s none e = record {
    more = [];
    order = sym (append-nil s.settled);
    full = λ p h. inl h;
    ready = λ p h. absurd (none-ne-some p (sym e ∙ h));
  }

  wait_for_ready-Later : (s : Inbox A) → Later s (wait_for_ready s).0
  unfolding wait_for_ready
  wait_for_ready-Later s =
      if_cases (λ (r : Inbox A × Option ℕ). Later s r.0) (is_running_out s)
        (λ _. lock_ready-Later s s.lock_ready refl) λ _. Later-refl s

  posted-Later :
      (s : Inbox A) (r : Inbox A × Bool)
      → Later s r.0
      → let after : Inbox A × Round Bool =
          if r.1
          then (r.0, returned true)
          else (let (w, p) = wait_for_free r.0 in (w, waiting p)) in
        Later s after.0
  posted-Later s (t, true) v = v
  posted-Later s (t, false) v = Later-trans s t (wait_for_free t).0 v (wait_for_free-Later t)

  pub post-Later :
      (cancelled : Bool) (x : A) (s : Inbox A) → s.class ≡ inbox → Later s (post cancelled x s).0
  unfolding post post_round
  post-Later cancelled x s e =
      if_cases (λ (r : Inbox A × Round Bool). Later s r.0) s.is_disposed (λ _. Later-refl s)
        λ _.
          if_cases (λ (r : Inbox A × Round Bool). Later s r.0) cancelled (λ _. Later-refl s)
            λ _. posted-Later s (try_post x s) (try_post-Later x s e)

  picked-Later : (s : Inbox A) (r : Inbox A × Picked A) → Later s r.0 → Later s (pick_result r).0
  picked-Later s (t, item x) v = v
  picked-Later s (t, not_available) v =
      Later-trans s t (wait_for_ready t).0 v (wait_for_ready-Later t)

  pub pick-Later : (cancelled : Bool) (s : Inbox A) → s.class ≡ inbox → Later s (pick cancelled s).0
  unfolding pick pick_round
  pick-Later cancelled s e =
      if_cases (λ (r : Inbox A × Round (Picked A)). Later s r.0) s.is_disposed (λ _. Later-refl s)
        λ _.
          if_cases (λ (r : Inbox A × Round (Picked A)). Later s r.0) cancelled (λ _. Later-refl s)
            λ _. picked-Later s (try_pick s) (try_pick-Later s e)

  pub dispose-Later : (s : Inbox A) → s.class ≡ inbox → Later s (dispose s)
  unfolding dispose
  dispose-Later s e =
      let xs = settle_lock dispose_error s.lock_full [] in
      let ys = settle_lock dispose_error s.lock_ready [] in
      rw (e, dispose)
        (record {
          more = xs ++ ys;
          order =
              settle_lock-append s.lock_ready dispose_error
                (settle_lock dispose_error s.lock_full s.settled)
              ∙ ap (λ l. l ++ ys) (settle_lock-append s.lock_full dispose_error s.settled)
              ∙ append_assoc s.settled xs ys;
          full =
              Kept-trans s.lock_full none none xs ys (released s.lock_full dispose_error)
                λ p h. inl h;
          ready =
              Kept-trans s.lock_ready s.lock_ready none xs ys (λ p h. inl h)
                (released s.lock_ready dispose_error);
        })

  on_picked-settled :
      (s : Inbox A)
      → s.class ≡ inbox
      → (on_picked s).settled ≡ settle_lock ready_signal s.lock_full s.settled
  unfolding notify_free
  on_picked-settled s e =
      ap (λ t. t.settled) (on_picked_opened s e)
      ∙ rw (fix_idx-settled s, (fix_idx-locks s e).0) refl

  pick_resolves :
      (s : Inbox A) (xs : List A) (p : ℕ)
      → Live s xs
      → 0 < length xs
      → s.lock_full ≡ some p
      → (pick_round false s).0.settled ≡ s.settled ++ (p, ready_signal) ∷ []
  unfolding pick_round try_pick
  pick_resolves s xs p v some_left e =
      let more : (length xs == 0) ≡ false = ground arith in
      rw (is_running_out-Holding s v.bounded.read xs v.bounded.ring ∙ more)
        (on_picked-settled _ v.class ∙ rw e refl)

  -- A round of `post` on an inbox of a positive capacity that no cancellation stops: with room for it
  -- the item is stored and the call returns true; without, nothing is stored and the call waits for a
  -- promise, which a pick that follows resolves, and no other. It never goes round at once.
  pub post_round-waits :
      (x : A) (s : Inbox A) (xs : List A)
      → Live s xs
      → 0 < s.capacity
      → let (t, r) = post_round false x s in
        ((length xs < s.capacity) × (r ≡ returned true) × Live t (xs ++ x ∷ []))
        ⊎ ((length xs ≡ s.capacity)
            × Live t xs
            × ((p : ℕ) × (r ≡ waits p)
                × (t.lock_full ≡ some p)
                × ((pick_round false t).0.settled ≡ t.settled ++ (p, ready_signal) ∷ [])))
  post_round-waits x s xs v h = elim (post_round-Live x s xs v) [
    | inl stored ↦ inl stored
    | inr (full, w, (p, r, e)) ↦
        inr (full, w, (p, r, e, pick_resolves _ xs p w (omega (arith, full, h)) e))
  ]
