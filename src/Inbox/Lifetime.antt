-- ===== src/Inbox/Lifetime.antt =====
-- An inbox at its construction and after its disposal.
use fancy_kit.Common.{
  ℕ, zero, suc, ◌≡◌, ◌≢◌, refl, ◌⊎◌, inl, inr, false, [], none, some, ◌==◌, arith,
}
use fancy_kit.Inbox.{Inbox, Class, sync_inbox, inbox, inbox_with_event, new_inbox, dispose}
use fancy_kit.Inbox.Holding.{widen_from}
use fancy_kit.Inbox.Bounded.{Bounded}

module _ {ℓ} {A : Type ℓ} where
  -- The constructor throws for capacity 0. Otherwise it makes an empty inbox of that capacity, with
  -- a mask of low ones that reaches the capacity.
  pub new_inbox-Bounded :
      (c : Class) (capacity : ℕ)
      → c ≢ inbox_with_event
      → ((capacity ≡ 0) × (new_inbox {A = A} c capacity ≡ none))
        ⊎ ((s : Inbox A) × (new_inbox c capacity ≡ some s) × Bounded s [] × (s.capacity ≡ capacity))
  unfolding new_inbox
  new_inbox-Bounded c zero plain = inl (refl, refl)
  new_inbox-Bounded c (suc n) plain =
      let (j, e, long) = widen_from (suc n) 8 (suc n) (omega arith) in
      let made : (suc n == 0) ≡ false = ground arith in
      rw (made, e)
        (inr (
          _,
          refl,
          record {
            plain = plain;
            read = 0;
            wrapped = omega arith;
            ring = record {
              bits = j;
              mask = omega arith;
              capacity = omega arith;
              fits = omega arith;
              read_idx = refl;
              write_idx = refl;
              items = tt;
            };
          },
          refl,
        ))

  disposed-Bounded :
      (c : Class) (s : Inbox A)
      → s.class ≡ c
      → s.class ≢ inbox_with_event
      → Bounded (dispose s) [] × ((dispose s).capacity ≡ 0)
  unfolding dispose
  disposed-Bounded sync_inbox s e p =
      rw (e, dispose)
        (
          record {
            plain = p;
            read = 0;
            wrapped = omega arith;
            ring = record {
              bits = 1;
              mask = refl;
              capacity = omega arith;
              fits = omega arith;
              read_idx = refl;
              write_idx = refl;
              items = tt;
            };
          },
          refl,
        )
  disposed-Bounded inbox s e p =
      rw (e, dispose)
        (
          record {
            plain = p;
            read = 0;
            wrapped = omega arith;
            ring = record {
              bits = 1;
              mask = refl;
              capacity = omega arith;
              fits = omega arith;
              read_idx = refl;
              write_idx = refl;
              items = tt;
            };
          },
          refl,
        )
  disposed-Bounded inbox_with_event s e p = absurd (p e)

  -- After `dispose` an inbox, `InboxWithEvent` apart, is an empty one of capacity 0.
  pub dispose-Bounded :
      (s : Inbox A)
      → s.class ≢ inbox_with_event
      → Bounded (dispose s) [] × ((dispose s).capacity ≡ 0)
  dispose-Bounded s p = disposed-Bounded s.class s refl p
