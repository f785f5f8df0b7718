-- ===== src/Inbox/Bounded.antt =====
-- `SyncInbox` is a bounded queue, for as long as its indices are wrapped.
use fancy_kit.Common.{
  ℕ, suc, ◌+◌, ◌≤◌, ◌<◌, ◌≡◌, ◌≢◌, refl, sym, ◌∙◌, subst, ◌⊎◌, inl, inr, true, false, List, [], ◌∷◌,
  ◌++◌, some, ◌==◌, ==_iff, length, length-append, arith, Bool-cases, ne_of_test, last_cases,
}
use fancy_kit.Common.Int.{pos, ltb_ℤ}
use fancy_kit.Inbox.{
  Inbox, Class, sync_inbox, inbox, inbox_with_event, Picked, not_available, item, fix_idx, try_post,
  try_pick, try_cancel_post, on_posted, on_picked, on_progress, notify_free, notify_ready,
}
use fancy_kit.Inbox.Holding.{
  Holding, size-Holding, is_full-Holding, is_running_out-Holding, posted-Holding, fix_idx-Holding,
  picked-Holding, cancelled-Holding,
}

module _ {ℓ} {A : Type ℓ} where
  pub same_ring :
      (s t : Inbox A) (read : ℕ) (xs : List A)
      → t.capacity ≡ s.capacity
      → t.buffer ≡ s.buffer
      → t.write_idx ≡ s.write_idx
      → t.read_idx ≡ s.read_idx
      → t.wrap_around_count ≡ s.wrap_around_count
      → Holding s read xs
      → Holding t read xs
  same_ring s t read xs c b w r m v = record {
    bits = v.bits;
    mask = rw m v.mask;
    capacity = rw (m, c) v.capacity;
    fits = rw c v.fits;
    read_idx = rw r v.read_idx;
    write_idx = rw w v.write_idx;
    items = rw b v.items;
  }

  -- A `SyncInbox` or an `Inbox` with these items, oldest first, and its read index within the mask.
  pub record Bounded (s : Inbox A) (xs : List A) : Type ℓ where
    pub plain : s.class ≢ inbox_with_event
    pub read : ℕ
    pub wrapped : read ≤ s.wrap_around_count
    pub ring : Holding s read xs

  -- A bounded inbox again, with these items and the same capacity.
  abbrev pub Becomes : Inbox A → List A → Inbox A → Type ℓ
  Becomes s xs s' = Bounded s' xs × (s'.capacity ≡ s.capacity)

  notify_free-Becomes :
      (s t : Inbox A) (xs : List A) → Becomes s xs t → Becomes s xs (notify_free t)
  unfolding notify_free
  notify_free-Becomes s t xs (b, e) = (
    record {
      plain = b.plain;
      read = b.read;
      wrapped = b.wrapped;
      ring = same_ring t (notify_free t) b.read xs refl refl refl refl refl b.ring;
    },
    e,
  )

  notify_ready-Becomes :
      (s t : Inbox A) (xs : List A) → Becomes s xs t → Becomes s xs (notify_ready t)
  unfolding notify_ready
  notify_ready-Becomes s t xs (b, e) = (
    record {
      plain = b.plain;
      read = b.read;
      wrapped = b.wrapped;
      ring = same_ring t (notify_ready t) b.read xs refl refl refl refl refl b.ring;
    },
    e,
  )

  module _ (s : Inbox A) (read : ℕ) (xs : List A) (v : Holding s read xs)
      (near : read ≤ s.wrap_around_count + 1) where
    fix_idx-keeps :
        ((fix_idx s).class ≡ s.class)
        × ((fix_idx s).capacity ≡ s.capacity)
        × ((fix_idx s).wrap_around_count ≡ s.wrap_around_count)
    unfolding fix_idx
    fix_idx-keeps = elim (Bool-cases (ltb_ℤ (pos s.wrap_around_count) s.read_idx)) [
      | inl e ↦ rw e (refl, refl, refl)
      | inr e ↦ rw e (refl, refl, refl)
    ]

    fix_idx-Becomes : s.class ≢ inbox_with_event → Becomes s xs (fix_idx s)
    fix_idx-Becomes plain =
        let (r, wrapped, ring) = fix_idx-Holding s read xs v near in
        let (class, capacity, mask) = fix_idx-keeps in
        (
          record {
            plain = λ e. plain (sym class ∙ e);
            read = r;
            wrapped = omega (arith, mask);
            ring = ring;
          },
          capacity,
        )

    on_posted-Becomes :
        (c : Class) → s.class ≡ c → s.class ≢ inbox_with_event → Becomes s xs (on_posted s)
    unfolding on_posted
    on_posted-Becomes sync_inbox e plain =
        rw (e, on_posted) (rw (e, on_progress) (fix_idx-Becomes plain))
    on_posted-Becomes inbox e plain =
        rw (e, on_posted)
          (notify_ready-Becomes s (on_progress s) xs (rw (e, on_progress) (fix_idx-Becomes plain)))
    on_posted-Becomes inbox_with_event e plain = absurd (plain e)

    on_picked-Becomes :
        (c : Class) → s.class ≡ c → s.class ≢ inbox_with_event → Becomes s xs (on_picked s)
    unfolding on_picked
    on_picked-Becomes sync_inbox e plain =
        rw (e, on_picked) (rw (e, on_progress) (fix_idx-Becomes plain))
    on_picked-Becomes inbox e plain =
        rw (e, on_picked)
          (notify_free-Becomes s (on_progress s) xs (rw (e, on_progress) (fix_idx-Becomes plain)))
    on_picked-Becomes inbox_with_event e plain = absurd (plain e)

  -- An inbox that is not an `InboxWithEvent` posts like a queue of bounded length: if there is room,
  -- `try_post` returns true and the item stands last; if the queue is full, it returns false and
  -- changes nothing. The capacity stays.
  pub try_post-Bounded :
      (x : A) (s : Inbox A) (xs : List A)
      → Bounded s xs
      → let (s', posted) = try_post x s in
        ((length xs < s.capacity) × (posted ≡ true) × Becomes s (xs ++ x ∷ []) s')
        ⊎ ((length xs ≡ s.capacity) × (posted ≡ false) × (s' ≡ s))
  unfolding try_post
  try_post-Bounded x s xs b = elim (Bool-cases (length xs == s.capacity)) [
    | inl full ↦
        rw (is_full-Holding s b.read xs b.ring ∙ full) (inr ((==_iff _ _).0 full, refl, refl))
    | inr room ↦
        let fits : length xs < s.capacity = omega (arith, ne_of_test _ _ room, b.ring.fits) in
        rw (is_full-Holding s b.read xs b.ring ∙ room) (
          inl (
            fits,
            refl,
            on_posted-Becomes _ b.read (xs ++ x ∷ []) (posted-Holding s b.read xs b.ring x fits)
                (omega (arith, b.wrapped)) s.class refl b.plain,
          ))
  ]

  pub data Picks (s : Inbox A) : List A → Inbox A × Picked A → Type ℓ where
    none_left : Picks s [] (s, not_available)
    picks :
        {x : A} {xs : List A} {s' : Inbox A}
        → Becomes s xs s'
        → Picks s (x ∷ xs) (s', item (some x))

  -- `try_pick` of such an inbox takes out the oldest item. On an empty one it reports that nothing is
  -- available and changes nothing. The capacity stays.
  pub try_pick-Bounded : (s : Inbox A) (xs : List A) → Bounded s xs → Picks s xs (try_pick s)
  unfolding try_pick
  try_pick-Bounded s [] b = rw (is_running_out-Holding s b.read [] b.ring) none_left
  try_pick-Bounded s (x ∷ xs) b =
      let (ring, found) = picked-Holding s b.read x xs b.ring in
      let more : (suc (length xs) == 0) ≡ false = ground arith in
      rw (is_running_out-Holding s b.read (x ∷ xs) b.ring ∙ more) (
        rw found (
          picks (
            on_picked-Becomes _ (suc b.read) xs ring (omega (arith, b.wrapped)) s.class refl
              b.plain)))

  pub data Cancels (s : Inbox A) : List A → Inbox A × Picked A → Type ℓ where
    none_posted : Cancels s [] (s, not_available)
    cancels :
        {x : A} {xs : List A} {s' : Inbox A}
        → Becomes s xs s'
        → Cancels s (xs ++ x ∷ []) (s', item (some x))

  cancel_empty : (s : Inbox A) → Bounded s [] → Cancels s [] (try_cancel_post s)
  unfolding try_cancel_post
  cancel_empty s b = rw (size-Holding s b.read [] b.ring) none_posted

  cancel_last :
      (s : Inbox A) (xs : List A) (x : A)
      → Bounded s (xs ++ x ∷ [])
      → Cancels s (xs ++ x ∷ []) (try_cancel_post s)
  unfolding try_cancel_post
  cancel_last s xs x b =
      let (ring, found) = cancelled-Holding s b.read x xs b.ring in
      let n = length (xs ++ x ∷ []) in
      let more : (n + 0 == 0 + 0) ≡ false = ground (arith, length-append xs (x ∷ [])) in
      rw (size-Holding s b.read (xs ++ x ∷ []) b.ring) (
        rw more (
          rw found (cancels (fix_idx-Becomes _ b.read xs ring (omega (arith, b.wrapped)) b.plain))))

  -- `try_cancel_post` of such an inbox takes out the newest item. On an empty one it reports that
  -- nothing is available and changes nothing. The capacity stays.
  pub try_cancel_post-Bounded :
      (s : Inbox A) (xs : List A) → Bounded s xs → Cancels s xs (try_cancel_post s)
  try_cancel_post-Bounded s xs b = elim (last_cases xs) [
    | inl e ↦
        subst (λ l. Cancels s l (try_cancel_post s)) (sym e)
          (cancel_empty s (subst (Bounded s) e b))
    | inr (ys, y, e) ↦
        subst (λ l. Cancels s l (try_cancel_post s)) (sym e)
          (cancel_last s ys y (subst (Bounded s) e b))
  ]
