-- ===== src/Inbox/Event.antt =====
-- `InboxWithEvent`: its progress report takes the place of the inherited index wrapping.
use fancy_kit.Common.{
  ℕ, suc, ◌+◌, ◌%◌, ◌^◌, ◌<◌, ◌≡◌, refl, ap, ◌∙◌, subst, ◌⊎◌, inl, inr, true, false, List, [], ◌∷◌,
  ◌++◌, some, length, arith, Bool-cases, ◌==◌, ==_iff, ne_of_test,
}
use fancy_kit.Common.Int.{pos, ◌-ℤ◌, ltb_ℤ, eqb_ℤ}
use fancy_kit.Inbox.{
  Inbox, inbox_with_event, Picked, item, not_available, size, masked, write, try_post, try_pick,
  try_cancel_post, on_posted, on_picked, on_progress, fix_idx,
}
use fancy_kit.Inbox.Holding.{
  Holding, is_full-Holding, is_running_out-Holding, posted-Holding, picked-Holding, masked_pos,
  size-Holding, write_idx_pred,
}
use fancy_kit.Inbox.{notify_free, notify_ready}
use fancy_kit.Inbox.Bounded.{same_ring}

negative : (a b : ℕ) → a < b → ltb_ℤ (pos a -ℤ pos b) (pos 0) ≡ true
unfolding ◌-ℤ◌
negative a b h = ground (arith, h)

module _ {ℓ} {A : Type ℓ} where
  module _ (s : Inbox A) (read : ℕ) (xs : List A) (e : s.class ≡ inbox_with_event)
      (v : Holding s read xs) where
    on_posted-Event : Holding (on_posted s) read xs
    unfolding on_posted notify_ready
    on_posted-Event =
        rw (e, on_posted) (rw (e, on_progress) (same_ring s _ read xs refl refl refl refl refl v))

    on_picked-Event : Holding (on_picked s) read xs
    unfolding on_picked notify_free
    on_picked-Event =
        rw (e, on_picked) (rw (e, on_progress) (same_ring s _ read xs refl refl refl refl refl v))

  -- A post to an `InboxWithEvent` with room stores the item last, and leaves the read index as it
  -- is, past the mask too; a full one refuses it and stays as it is.
  pub try_post-Event :
      (x : A) (s : Inbox A) (read : ℕ) (xs : List A)
      → s.class ≡ inbox_with_event
      → Holding s read xs
      → let (t, posted) = try_post x s in
        ((length xs < s.capacity) × (posted ≡ true) × Holding t read (xs ++ x ∷ []))
        ⊎ ((length xs ≡ s.capacity) × (posted ≡ false) × (t ≡ s))
  unfolding try_post
  try_post-Event x s read xs e v = elim (Bool-cases (length xs == s.capacity)) [
    | inl full ↦ rw (is_full-Holding s read xs v ∙ full) (inr ((==_iff _ _).0 full, refl, refl))
    | inr room ↦
        let fits : length xs < s.capacity = omega (arith, ne_of_test _ _ room, v.fits) in
        rw (is_full-Holding s read xs v ∙ room) (
          inl (
            fits,
            refl,
            on_posted-Event _ read (xs ++ x ∷ []) e (posted-Holding s read xs v x fits),
          ))
  ]

  pub data EventPicks (s : Inbox A) (read : ℕ) : List A → Inbox A × Picked A → Type ℓ where
    event_none : EventPicks s read [] (s, not_available)
    event_picks :
        {x : A} {xs : List A} {t : Inbox A}
        → Holding t (suc read) xs
        → EventPicks s read (x ∷ xs) (t, item (some x))

  -- A pick from an `InboxWithEvent` takes out the oldest item and moves the read index on by one,
  -- past the mask too; an empty one reports that nothing is available and stays as it is.
  pub try_pick-Event :
      (s : Inbox A) (read : ℕ) (xs : List A)
      → s.class ≡ inbox_with_event
      → Holding s read xs
      → EventPicks s read xs (try_pick s)
  unfolding try_pick
  try_pick-Event s read [] e v = rw (is_running_out-Holding s read [] v) event_none
  try_pick-Event s read (x ∷ xs) e v =
      let (ring, found) = picked-Holding s read x xs v in
      let more : (suc (length xs) == 0) ≡ false = ground arith in
      rw (is_running_out-Holding s read (x ∷ xs) v ∙ more)
        (rw found (event_picks (on_picked-Event _ (suc read) xs e ring)))

  wrapped_apart :
      (s : Inbox A) (read write k : ℕ)
      → s.read_idx ≡ pos read
      → s.write_idx ≡ pos write
      → s.wrap_around_count + 1 ≡ 2 ^ k
      → s.wrap_around_count < read
      → write % 2 ^ k < read % 2 ^ k
      → ltb_ℤ (size (fix_idx s)) (pos 0) ≡ true
  unfolding fix_idx size
  wrapped_apart s read write k r w m far across =
      let past : ltb_ℤ (pos s.wrap_around_count) s.read_idx ≡ true = rw r (ground (arith, far)) in
      let read' =
        ap (λ z. masked z s.wrap_around_count) r ∙ masked_pos read k s.wrap_around_count m in
      let write' =
        ap (λ z. masked z s.wrap_around_count) w ∙ masked_pos write k s.wrap_around_count m in
      rw past (rw (read', write') (negative _ _ across))

  -- On an inbox with items whose read index has grown past the mask: if the write index without the
  -- newest item stands in a later turn of the buffer than the read index, at a smaller remainder,
  -- `try_cancel_post` wraps the two indices apart, and the size that it leaves is negative.
  pub try_cancel_post_negative :
      (s : Inbox A) (read n : ℕ) (xs : List A)
      → Holding s read xs
      → length xs ≡ suc n
      → s.wrap_around_count < read
      → (read + n) % (s.wrap_around_count + 1) < read % (s.wrap_around_count + 1)
      → ltb_ℤ (size (try_cancel_post s).0) (pos 0) ≡ true
  unfolding try_cancel_post
  try_cancel_post_negative s read n xs v e far across =
      let more : eqb_ℤ (size s) (pos 0) ≡ false = rw (size-Holding s read xs v, e) (ground arith) in
      let less =
        write_idx_pred s read (read + length xs) (read + n) v.write_idx (omega (arith, e)) in
      let turned : (read + n) % 2 ^ v.bits < read % 2 ^ v.bits =
        subst (λ t. (read + n) % t < read % t) v.mask across in
      rw more (wrapped_apart _ read (read + n) v.bits v.read_idx less v.mask far turned)
