-- ===== src/Inbox/Holding.antt =====
-- What stands in the circular buffer of an inbox, and how the writes of its methods change it.
use Prim.Native.Nat.{bit_and}
use native.Mathlib.Nat.{mod-eq_of_lt, pow-suc, mod_self, add-mod_left}
use fancy_kit.Common.{
  ℕ, zero, suc, ◌+◌, ◌-◌, ◌%◌, ◌^◌, ◌≤◌, ◌<◌, ◌≡◌, ◌≢◌, refl, sym, ap, ◌∙◌, subst, inl, inr, true,
  false, List, [], ◌∷◌, ◌++◌, Option, none, some, ltb, ◌==◌, ==_iff, length, length-append, arith,
  Bool-cases,
}
use fancy_kit.Common.Int.{ℤ, pos, ◌+ℤ◌, ◌-ℤ◌, ltb_ℤ}
use fancy_kit.Common.Ring.{
  Holds, Holds-mod, Holds-write_after, Holds-write_behind, Holds-last, mod_shift,
  Holds-write_before,
}
use fancy_kit.Common.Mask.{bit_and_mask, pow_pos}
use fancy_kit.Inbox.{Inbox, size, free, is_full, is_running_out, masked, write, fix_idx, widen}

le_of_ltb-false : (a b : ℕ) → ltb a b ≡ false → b ≤ a
le_of_ltb-false a b h = ground arith

-- The constructor's loop ends by its test, at a power of two, within `capacity` rounds.
pub widen_from :
    (fuel k capacity : ℕ)
    → capacity + 1 ≤ 2 ^ k + fuel
    → (j : ℕ) × (widen fuel (2 ^ k) capacity ≡ 2 ^ j) × (capacity + 1 ≤ 2 ^ j)
unfolding widen
widen_from zero k capacity h = (k, refl, omega arith)
widen_from (suc fuel) k capacity h = elim (Bool-cases (ltb (2 ^ k) (capacity + 1))) [
  | inl more ↦ rw more (
      rw (← pow-suc 2 k) (widen_from fuel (suc k) capacity (omega (arith, pow-suc 2 k, pow_pos k))))
  | inr stop ↦ rw stop (k, refl, le_of_ltb-false _ _ stop)
]

past-lt : (w r : ℕ) (z : ℤ) → ltb_ℤ (pos w) z ≡ true → z ≡ pos r → w < r
past-lt w r z h e = ground arith

not_past : (w r : ℕ) (z : ℤ) → ltb_ℤ (pos w) z ≡ false → z ≡ pos r → r ≤ w
not_past w r z h e = ground arith

pub masked_pos : (n k mask : ℕ) → mask + 1 ≡ 2 ^ k → masked (pos n) mask ≡ n % 2 ^ k
unfolding masked
masked_pos n k mask e = ap (bit_and n) {x = mask} {y = 2 ^ k - 1} (omega arith) ∙ bit_and_mask n k

module _ {ℓ} {A : Type ℓ} (f : ℕ → Option A) (i : ℕ) (v : Option A) where
  write_ne : (j : ℕ) → j ≢ i → write f i v j ≡ f j
  unfolding write
  write_ne j h = elim (Bool-cases (j == i)) [ inl e ↦ absurd (h ((==_iff j i).0 e)) | inr e ↦ rw e ]

  write_self : write f i v i ≡ v
  unfolding write
  write_self = rw ((==_iff i i).1 refl)

module _ {ℓ} {A : Type ℓ} where
  -- `read` is the index of the last item that was picked, and the mask has as many values as the
  -- buffer has places.
  pub record Holding (s : Inbox A) (read : ℕ) (xs : List A) : Type ℓ where
    pub bits : ℕ
    pub mask : s.wrap_around_count + 1 ≡ 2 ^ bits
    pub capacity : s.capacity ≤ s.wrap_around_count
    pub fits : length xs ≤ s.capacity
    pub read_idx : s.read_idx ≡ pos read
    pub write_idx : s.write_idx ≡ pos (read + length xs)
    pub items : Holds s.buffer (2 ^ bits) (suc read) xs

  module _ (s : Inbox A) (read : ℕ) (xs : List A) (v : Holding s read xs) where
    pub size-Holding : size s ≡ pos (length xs)
    unfolding size ◌-ℤ◌
    size-Holding = rw (v.read_idx, v.write_idx) (ground arith)

    pub is_full-Holding : is_full s ≡ (length xs == s.capacity)
    unfolding is_full free ◌-ℤ◌
    is_full-Holding = rw size-Holding (ground (arith, v.fits))

    pub is_running_out-Holding : is_running_out s ≡ (length xs == 0)
    unfolding is_running_out
    is_running_out-Holding = rw (v.read_idx, v.write_idx) (ground arith)

    write_idx_suc : s.write_idx +ℤ pos 1 ≡ pos (suc read + length xs)
    unfolding ◌+ℤ◌
    write_idx_suc = rw v.write_idx (ground arith)

    -- `try_post` up to the call of the hook.
    pub posted-Holding :
        (x : A)
        → length xs < s.capacity
        → let w = s.write_idx +ℤ pos 1 in
          Holding
            (record s {
              write_idx = w;
              buffer = write s.buffer (masked w s.wrap_around_count) (some x);
            })
            read
            (xs ++ x ∷ [])
    posted-Holding x room = record {
      bits = v.bits;
      mask = v.mask;
      capacity = v.capacity;
      fits = omega (arith, length-append xs (x ∷ []));
      read_idx = v.read_idx;
      write_idx = write_idx_suc ∙ ap pos (omega (arith, length-append xs (x ∷ [])));
      items =
          rw (write_idx_suc, masked_pos (suc read + length xs) v.bits s.wrap_around_count v.mask)
            (Holds-write_after s.buffer _ (2 ^ v.bits) (suc read) xs x
              (omega (arith, v.mask, v.capacity))
              (write_ne s.buffer ((suc read + length xs) % 2 ^ v.bits) (some x))
              (write_self s.buffer ((suc read + length xs) % 2 ^ v.bits) (some x)) v.items);
    }

    module _ (near : read ≤ s.wrap_around_count + 1)
        (past : ltb_ℤ (pos s.wrap_around_count) s.read_idx ≡ true) where
      turn : read ≡ 2 ^ v.bits
      turn = omega (arith, v.mask, past-lt s.wrap_around_count read s.read_idx past v.read_idx)

      read_wraps : read % 2 ^ v.bits ≡ 0
      read_wraps = ap (λ t. t % 2 ^ v.bits) turn ∙ mod_self (2 ^ v.bits)

      write_wraps : (read + length xs) % 2 ^ v.bits ≡ 0 + length xs
      write_wraps =
          ap (λ t. (t + length xs) % 2 ^ v.bits) turn
          ∙ add-mod_left (2 ^ v.bits) (length xs)
          ∙ mod-eq_of_lt (omega (arith, v.mask, v.capacity, v.fits))
          ∙ omega arith

      wrapped-Holding :
          Holding
            (record s {
              read_idx = pos (masked s.read_idx s.wrap_around_count);
              write_idx = pos (masked s.write_idx s.wrap_around_count);
            })
            0
            xs
      wrapped-Holding = record {
        bits = v.bits;
        mask = v.mask;
        capacity = v.capacity;
        fits = v.fits;
        read_idx =
            rw (v.read_idx, masked_pos read v.bits s.wrap_around_count v.mask) (ap pos read_wraps);
        write_idx =
            rw (v.write_idx, masked_pos (read + length xs) v.bits s.wrap_around_count v.mask)
              (ap pos write_wraps);
        items =
            Holds-mod s.buffer (2 ^ v.bits) (suc read) 1 xs
              (mod_shift (2 ^ v.bits) read 0 (read_wraps ∙ sym (mod-eq_of_lt (pow_pos v.bits))))
              v.items;
      }

    -- The wrap of the two indices keeps their distance: the read index is past the mask by one at
    -- most, and then the write index lies within the next turn.
    pub fix_idx-Holding :
        read ≤ s.wrap_around_count + 1
        → (r : ℕ) × (r ≤ s.wrap_around_count) × Holding (fix_idx s) r xs
    unfolding fix_idx
    fix_idx-Holding near = elim (Bool-cases (ltb_ℤ (pos s.wrap_around_count) s.read_idx)) [
      | inl past ↦ rw past (0, omega arith, wrapped-Holding near past)
      | inr within ↦
          rw within (read, not_past s.wrap_around_count read s.read_idx within v.read_idx, v)
    ]

  module _ (s : Inbox A) (read : ℕ) where
    read_idx_suc : s.read_idx ≡ pos read → s.read_idx +ℤ pos 1 ≡ pos (suc read)
    unfolding ◌+ℤ◌
    read_idx_suc e = rw e (ground arith)

    -- `try_pick` up to the call of the hook.
    pub picked-Holding :
        (x : A) (xs : List A)
        → Holding s read (x ∷ xs)
        → let r = s.read_idx +ℤ pos 1 in
          let place = masked r s.wrap_around_count in
          Holding (record s { read_idx = r; buffer = write s.buffer place none }) (suc read) xs
          × (s.buffer place ≡ some x)
    picked-Holding x xs v =
        rw (read_idx_suc v.read_idx, masked_pos (suc read) v.bits s.wrap_around_count v.mask)
          (
            record {
              bits = v.bits;
              mask = v.mask;
              capacity = v.capacity;
              fits = omega (arith, v.fits);
              read_idx = refl;
              write_idx = v.write_idx ∙ ap pos (omega arith);
              items =
                  Holds-write_before s.buffer _ (2 ^ v.bits) (suc read) xs
                    (omega (arith, v.mask, v.capacity, v.fits))
                    (write_ne s.buffer (suc read % 2 ^ v.bits) none) v.items.1;
            },
            v.items.0,
          )

    pub write_idx_pred : (m n : ℕ) → s.write_idx ≡ pos m → m ≡ suc n → s.write_idx -ℤ pos 1 ≡ pos n
    unfolding ◌-ℤ◌
    write_idx_pred m n e f = rw e (ground arith)

    -- `try_cancel_post` up to the wrap of the indices.
    pub cancelled-Holding :
        (x : A) (xs : List A)
        → Holding s read (xs ++ x ∷ [])
        → let place = masked s.write_idx s.wrap_around_count in
          Holding
            (record s { write_idx = s.write_idx -ℤ pos 1; buffer = write s.buffer place none })
            read
            xs
          × (s.buffer place ≡ some x)
    cancelled-Holding x xs v =
        let m = suc read + length xs in
        let e : s.write_idx ≡ pos m =
          v.write_idx ∙ ap pos (omega (arith, length-append xs (x ∷ []))) in
        let (kept, last) = Holds-last s.buffer (2 ^ v.bits) (suc read) xs x v.items in
        let less = write_idx_pred m (read + length xs) e (omega arith) in
        let place : masked s.write_idx s.wrap_around_count ≡ m % 2 ^ v.bits =
          ap (λ z. masked z s.wrap_around_count) e
          ∙ masked_pos m v.bits s.wrap_around_count v.mask in
        (
          record {
            bits = v.bits;
            mask = v.mask;
            capacity = v.capacity;
            fits = omega (arith, v.fits, length-append xs (x ∷ []));
            read_idx = v.read_idx;
            write_idx = less;
            items =
                subst (λ p. Holds (write s.buffer p none) (2 ^ v.bits) (suc read) xs) (sym place)
                  (Holds-write_behind s.buffer _ (2 ^ v.bits) (suc read) xs
                    (omega (arith, v.mask, v.capacity, v.fits, length-append xs (x ∷ [])))
                    (write_ne s.buffer (m % 2 ^ v.bits) none) kept);
          },
          ap s.buffer place ∙ last,
        )
