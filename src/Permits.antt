-- ===== src/Permits.antt =====
-- packages/octagonal-wheels/src/concurrency/semaphore.internal.ts: the `Semaphore` that semaphore_v2.ts
-- exports. A waiting call of `acquire` is a waiter with the quantity that its continuation knows; the
-- waiters whose promise a scheduled microtask will resolve stand in `scheduled`.
pub mod Counted
pub mod Single
pub mod Leak
mod Tests
use fancy_kit.Common.{
  ℕ, suc, ◌+◌, Bool, true, false, List, [], ◌∷◌, ◌++◌, Option, none, some, ◌==◌, if◌then◌else◌, map,
}
use fancy_kit.Common.Int.{ℤ, pos, ◌+ℤ◌, ◌-ℤ◌, ltb_ℤ}

pub record Waiter : Type 0 where
  pub id : ℕ
  pub quantity : ℕ
  -- A `tryAcquire` whose timeout has passed.
  pub timed_out : Bool

pub record Permits : Type 0 where
  pub limit : ℕ
  pub counter : ℤ
  pub queue : List Waiter
  pub scheduled : List Waiter
  pub next_id : ℕ

-- A releaser, by the quantity that it will release, or a promise.
pub data Acquired : Type 0 where
  releaser : ℕ → Acquired
  waits : ℕ → Acquired

pub permits : ℕ → Permits
permits limit = record { limit = limit; counter = pos 0; queue = []; scheduled = []; next_id = 0 }

-- The first branch returns `() => this.release()`, with the default quantity 1.
pub acquire : ℕ → Permits → Permits × Acquired
acquire quantity s =
    if ltb_ℤ s.counter (pos s.limit)
    then (record s { counter = s.counter +ℤ pos quantity }, releaser 1)
    else (
      record s {
        queue = s.queue ++ record { id = s.next_id; quantity = quantity; timed_out = false } ∷ [];
        next_id = suc s.next_id;
      },
      waits s.next_id,
    )

pub try_acquire : ℕ → Permits → Permits × Acquired
try_acquire quantity s =
    if ltb_ℤ s.counter (pos s.limit)
    then (record s { counter = s.counter +ℤ pos quantity }, releaser quantity)
    else acquire quantity s

abbrev pub release_in : ℕ → Permits → List Waiter → Permits
release_in quantity s (next ∷ rest) = record s {
  queue = rest;
  scheduled = s.scheduled ++ next ∷ [];
}
release_in quantity s [] =
    if ltb_ℤ (pos 0) s.counter then record s { counter = s.counter -ℤ pos quantity } else s

pub release : ℕ → Permits → Permits
release quantity s = release_in quantity s s.queue

abbrev pub resume_in : Permits → List Waiter → Permits × Option ℕ
resume_in s [] = (s, none)
resume_in s (w ∷ rest) =
    let t : Permits = record s { scheduled = rest } in
    if w.timed_out then (release w.quantity t, none) else (t, some w.quantity)

-- The oldest scheduled microtask: the waiter's continuation returns its releaser, or, where
-- `tryAcquire` has returned false, releases at once.
pub resume : Permits → Permits × Option ℕ
resume s = resume_in s s.scheduled

abbrev pub give_up_in : ℕ → List Waiter → List Waiter
give_up_in id ws = map (λ w. if w.id == id then record w { timed_out = true } else w) ws

-- The timeout of the `tryAcquire` that waits under this identity.
pub time_out : ℕ → Permits → Permits
time_out id s = record s { queue = give_up_in id s.queue; scheduled = give_up_in id s.scheduled }
