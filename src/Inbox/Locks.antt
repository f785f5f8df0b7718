-- ===== src/Inbox/Locks.antt =====
-- The waiting callers of `Inbox`: who waits, and who is woken.
use fancy_kit.Common.{
  ℕ, suc, ◌<◌, ◌≡◌, ◌≢◌, refl, sym, ap, ◌∙◌, ◌⊎◌, inl, inr, true, false, List, [], ◌∷◌, ◌++◌, none,
  some, length, arith, Bool-cases, ◌==◌, test_of_lt, Option-cases, ==_iff,
}
use fancy_kit.Common.Int.{pos, ltb_ℤ, eqb_ℤ}
use fancy_kit.Inbox.{
  Inbox, inbox, Round, returned, waits, Picked, item, free, is_full, try_post, try_pick,
  wait_for_free, wait_for_ready, on_posted, on_picked, on_progress, fix_idx, notify_free,
  notify_ready, is_running_out,
}
use fancy_kit.Inbox.Holding.{is_full-Holding, is_running_out-Holding}
use fancy_kit.Inbox.Bounded.{
  Bounded, Picks, none_left, picks, try_post-Bounded, try_pick-Bounded, same_ring,
}
use fancy_kit.Inbox.Rounds.{waiting, pick_result, post_round, pick_round}

module _ {ℓ} {A : Type ℓ} where
  -- A caller of `post` waits only on a full inbox, a caller of `pick` only on an empty one.
  pub record Live (s : Inbox A) (xs : List A) : Type ℓ where
    pub class : s.class ≡ inbox
    pub bounded : Bounded s xs
    pub lock_full : s.lock_full ≢ none → length xs ≡ s.capacity
    pub lock_ready : s.lock_ready ≢ none → xs ≡ []

  module _ (s : Inbox A) (e : s.class ≡ inbox) where
    pub fix_idx-locks :
        ((fix_idx s).lock_full ≡ s.lock_full)
        × ((fix_idx s).lock_ready ≡ s.lock_ready)
        × ((fix_idx s).class ≡ inbox)
    unfolding fix_idx
    fix_idx-locks = elim (Bool-cases (ltb_ℤ (pos s.wrap_around_count) s.read_idx)) [
      | inl t ↦ rw t (refl, refl, e)
      | inr t ↦ rw t (refl, refl, e)
    ]

    on_posted-locks :
        ((on_posted s).lock_full ≡ s.lock_full)
        × ((on_posted s).lock_ready ≡ none)
        × ((on_posted s).class ≡ inbox)
    unfolding on_posted on_progress notify_ready
    on_posted-locks =
        rw (e, on_posted) (rw (e, on_progress) (fix_idx-locks.0, refl, fix_idx-locks.2))

    on_picked-locks :
        ((on_picked s).lock_full ≡ none)
        × ((on_picked s).lock_ready ≡ s.lock_ready)
        × ((on_picked s).class ≡ inbox)
    unfolding on_picked on_progress notify_free
    on_picked-locks =
        rw (e, on_picked) (rw (e, on_progress) (refl, fix_idx-locks.1, fix_idx-locks.2))

  try_post-locks :
      (x : A) (s : Inbox A)
      → s.class ≡ inbox
      → is_full s ≡ false
      → let t = (try_post x s).0 in
        (t.lock_full ≡ s.lock_full) × (t.lock_ready ≡ none) × (t.class ≡ inbox)
  unfolding try_post
  try_post-locks x s e room = rw room (on_posted-locks _ e)

  try_pick-locks :
      (s : Inbox A)
      → s.class ≡ inbox
      → is_running_out s ≡ false
      → let t = (try_pick s).0 in
        (t.lock_full ≡ none) × (t.lock_ready ≡ s.lock_ready) × (t.class ≡ inbox)
  unfolding try_pick
  try_pick-locks s e more = rw more (on_picked-locks _ e)

  relock :
      (s t : Inbox A) (xs : List A)
      → Bounded s xs
      → t.class ≡ s.class
      → t.capacity ≡ s.capacity
      → t.buffer ≡ s.buffer
      → t.write_idx ≡ s.write_idx
      → t.read_idx ≡ s.read_idx
      → t.wrap_around_count ≡ s.wrap_around_count
      → Bounded t xs
  relock s t xs b e c f w r m = record {
    plain = λ d. b.plain (sym e ∙ d);
    read = b.read;
    wrapped = omega (arith, b.wrapped, m);
    ring = same_ring s t b.read xs c f w r m b.ring;
  }

  no_room :
      (s : Inbox A) (xs : List A)
      → Bounded s xs
      → length xs ≡ s.capacity
      → eqb_ℤ (free s) (pos 0) ≡ true
  unfolding is_full
  no_room s xs b full = is_full-Holding s b.read xs b.ring ∙ (==_iff _ _).1 full

  wait_for_free-Live :
      (s : Inbox A) (xs : List A)
      → Live s xs
      → length xs ≡ s.capacity
      → let (t, lock) = wait_for_free s in
        Live t xs × ((p : ℕ) × (lock ≡ some p) × (t.lock_full ≡ some p))
  unfolding wait_for_free
  wait_for_free-Live s xs v full =
      rw (no_room s xs v.bounded full) (elim (Option-cases s.lock_full) [
        | inl e ↦
            rw (e, wait_for_free)
              (
                record {
                  class = v.class;
                  bounded = relock s _ xs v.bounded refl refl refl refl refl refl;
                  lock_full = λ _. full;
                  lock_ready = v.lock_ready;
                },
                (s.next_lock, refl, refl),
              )
        | inr (p, e) ↦ rw (e, wait_for_free) (v, (p, refl, e))
      ])

  wait_for_ready-Live :
      (s : Inbox A)
      → Live s []
      → let (t, lock) = wait_for_ready s in
        Live t [] × ((p : ℕ) × (lock ≡ some p) × (t.lock_ready ≡ some p))
  unfolding wait_for_ready
  wait_for_ready-Live s v =
      rw (is_running_out-Holding s v.bounded.read [] v.bounded.ring)
        (elim (Option-cases s.lock_ready) [
          | inl e ↦
              rw (e, wait_for_ready)
                (
                  record {
                    class = v.class;
                    bounded = relock s _ [] v.bounded refl refl refl refl refl refl;
                    lock_full = v.lock_full;
                    lock_ready = λ _. refl;
                  },
                  (s.next_lock, refl, refl),
                )
          | inr (p, e) ↦ rw (e, wait_for_ready) (v, (p, refl, e))
        ])

  -- A round of `post` that no cancellation stops: with room for it the item is stored and the call
  -- returns true; without, nothing is stored and the call waits for the promise that the inbox holds.
  pub post_round-Live :
      (x : A) (s : Inbox A) (xs : List A)
      → Live s xs
      → let (t, r) = post_round false x s in
        ((length xs < s.capacity) × (r ≡ returned true) × Live t (xs ++ x ∷ []))
        ⊎ ((length xs ≡ s.capacity)
            × Live t xs
            × ((p : ℕ) × (r ≡ waits p) × (t.lock_full ≡ some p)))
  unfolding post_round
  post_round-Live x s xs v = elim (try_post-Bounded x s xs v.bounded) [
    | inl (room, posted, becomes) ↦
        let room' : is_full s ≡ false =
          is_full-Holding s v.bounded.read xs v.bounded.ring ∙ test_of_lt _ _ room in
        let (f, r, c) = try_post-locks x s v.class room' in
        rw posted (
          inl (
            room,
            refl,
            record {
              class = c;
              bounded = becomes.0;
              lock_full = λ h. absurd (omega (arith, v.lock_full (λ n. h (f ∙ n))));
              lock_ready = λ h. absurd (h r);
            },
          ))
    | inr (full, refused, same) ↦
        let (w, (p, e, f)) = wait_for_free-Live s xs v full in
        rw (refused, same) (inr (full, w, (p, ap waiting e, f)))
  ]

  pub data PickRounds (s : Inbox A) : List A → Inbox A × Round (Picked A) → Type ℓ where
    took :
        {x : A} {xs : List A} {t : Inbox A}
        → Live t xs
        → PickRounds s (x ∷ xs) (t, returned (item (some x)))
    slept : {t : Inbox A} {p : ℕ} → Live t [] → t.lock_ready ≡ some p → PickRounds s [] (t, waits p)

  pick_found :
      (s : Inbox A) (xs : List A) (r : Inbox A × Picked A)
      → Live s xs
      → try_pick s ≡ r
      → Picks s xs r
      → PickRounds s xs (pick_result r)
  pick_found s _ _ v e none_left = let (w, (p, l, f)) = wait_for_ready-Live s v in rw l (slept w f)
  pick_found s _ _ v e (picks {x} {xs} b) =
      let (f, r, c) = try_pick-locks s v.class (
        is_running_out-Holding s v.bounded.read (x ∷ xs) v.bounded.ring
        ∙ (let t : (suc (length xs) == 0) ≡ false = ground arith in t)) in
      took (record {
        class = ap (λ t. t.0.class) (sym e) ∙ c;
        bounded = b.0;
        lock_full = λ h. absurd (h (ap (λ t. t.0.lock_full) (sym e) ∙ f));
        lock_ready = λ h. cc (v.lock_ready (λ n. h (ap (λ t. t.0.lock_ready) (sym e) ∙ r ∙ n)));
      })

  -- A round of `pick` that no cancellation stops: on an inbox with items it returns the oldest; on
  -- an empty one the call waits for the promise that the inbox holds.
  pub pick_round-Live :
      (s : Inbox A) (xs : List A) → Live s xs → PickRounds s xs (pick_round false s)
  unfolding pick_round
  pick_round-Live s xs v = pick_found s xs (try_pick s) v refl (try_pick-Bounded s xs v.bounded)
