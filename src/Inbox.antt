-- ===== src/Inbox.antt =====
-- packages/octagonal-wheels/src/bureau/Inbox.ts: `SyncInbox`, `Inbox` and `InboxWithEvent`. One record
-- holds the fields of the three; `class` says which methods a call dispatches to. A lock is the
-- number of a promise, and `settled` lists the locks that were resolved or rejected, oldest first.
pub mod Holding
pub mod Bounded
pub mod Lifetime
pub mod Rounds
pub mod Locks
pub mod Since
pub mod Signals
pub mod Promises
pub mod Wakes
pub mod Event
mod Tests
use Prim.Native.Nat.{bit_and}
use fancy_kit.Common.{
  ℕ, zero, suc, ◌+◌, ◌-◌, ◌*◌, Bool, true, false, not, List, [], ◌∷◌, ◌++◌, Option, none, some, ltb,
  ◌==◌, if◌then◌else◌,
}
use fancy_kit.Common.Int.{ℤ, pos, negsuc, ◌+ℤ◌, ◌-ℤ◌, ltb_ℤ, eqb_ℤ}

pub data Class : Type 0 where
  sync_inbox inbox inbox_with_event : Class

-- `READY_POST_SIGNAL` or `READY_PICK_SIGNAL`, and the rejection with `DISPOSE_ERROR`.
pub data Signal : Type 0 where
  ready_signal dispose_error : Signal

pub record StateDetail : Type 0 where
  pub processed : ℤ
  pub size : ℤ
  pub free : ℤ
  pub is_full : Bool
  pub is_running_out : Bool
  pub is_ready : Bool

module _ {ℓ} where
  pub record Inbox (A : Type ℓ) : Type ℓ where
    pub class : Class
    pub capacity : ℕ
    -- A JavaScript array: a place that was never written, or that holds `undefined`, is `none`.
    pub buffer : ℕ → Option A
    pub write_idx : ℤ
    pub read_idx : ℤ
    pub wrap_around_count : ℕ
    pub is_disposed : Bool
    pub lock_full : Option ℕ
    pub lock_ready : Option ℕ
    pub next_lock : ℕ
    pub settled : List (ℕ × Signal)
    pub processed : ℕ
    pub reports : List StateDetail

  pub data Picked (A : Type ℓ) : Type ℓ where
    not_available : Picked A
    item : Option A → Picked A

  -- How a round of `post` or `pick` ends: with the method's result, with an error, or waiting for a
  -- lock beside the timeout and the cancellations.
  pub data Round (R : Type ℓ) : Type ℓ where
    returned : R → Round R
    thrown : Round R
    waits : ℕ → Round R
    again : Round R

-- The loop of the constructor, `while (i < capacity + 1) i *= 2`.
pub widen : ℕ → ℕ → ℕ → ℕ
widen zero i capacity = i
widen (suc fuel) i capacity =
    let wider = widen fuel (i * 2) capacity in if ltb i (capacity + 1) then wider else i

-- `none` is the thrown error.
pub new_inbox {ℓ} : {A : Type ℓ} → Class → ℕ → Option (Inbox A)
unfolding widen
new_inbox class capacity =
    if capacity == 0
    then none
    else some (record {
      class = class;
      capacity = capacity;
      buffer = λ _. none;
      write_idx = pos 0;
      read_idx = pos 0;
      wrap_around_count = widen capacity 256 capacity - 1;
      is_disposed = false;
      lock_full = none;
      lock_ready = none;
      next_lock = 0;
      settled = [];
      processed = 0;
      reports = [];
    })

-- `index & mask`, for an index that may be negative (two's complement).
pub masked : ℤ → ℕ → ℕ
masked (pos n) mask = bit_and n mask
masked (negsuc n) mask = mask - bit_and n mask

abbrev pub settle_lock : Signal → Option ℕ → List (ℕ × Signal) → List (ℕ × Signal)
settle_lock signal none settled = settled
settle_lock signal (some lock) settled = settled ++ (lock, signal) ∷ []

module _ {ℓ} {A : Type ℓ} where
  pub size : Inbox A → ℤ
  size s = s.write_idx -ℤ s.read_idx

  pub free : Inbox A → ℤ
  unfolding size
  free s = pos s.capacity -ℤ size s

  pub is_running_out : Inbox A → Bool
  is_running_out s = eqb_ℤ s.write_idx s.read_idx

  pub is_full : Inbox A → Bool
  unfolding free
  is_full s = eqb_ℤ (free s) (pos 0)

  pub is_ready : Inbox A → Bool
  unfolding free
  is_ready s = ltb_ℤ (pos 0) (free s)

  pub state : Inbox A → StateDetail
  unfolding size free is_full is_running_out is_ready
  state s = record {
    processed = s.write_idx;
    size = size s;
    free = free s;
    is_full = is_full s;
    is_running_out = is_running_out s;
    is_ready = is_ready s;
  }

  pub fix_idx : Inbox A → Inbox A
  unfolding masked
  fix_idx s =
      if ltb_ℤ (pos s.wrap_around_count) s.read_idx
      then record s {
        read_idx = pos (masked s.read_idx s.wrap_around_count);
        write_idx = pos (masked s.write_idx s.wrap_around_count);
      }
      else s

  pub notify_free : Inbox A → Inbox A
  notify_free s = record s {
    settled = settle_lock ready_signal s.lock_full s.settled;
    lock_full = none;
  }

  pub notify_ready : Inbox A → Inbox A
  notify_ready s = record s {
    settled = settle_lock ready_signal s.lock_ready s.settled;
    lock_ready = none;
  }

  -- `InboxWithEvent` reports the state, and does not call the inherited method.
  pub on_progress : Inbox A → Inbox A
  unfolding fix_idx state
  on_progress s = elim s.class [
    | inbox_with_event ↦ record s {
      processed = s.processed + 1;
      reports = s.reports ++ state s ∷ [];
    }
    | _ ↦ fix_idx s
  ]

  pub on_posted : Inbox A → Inbox A
  unfolding on_progress notify_ready
  on_posted s = elim s.class [ sync_inbox ↦ on_progress s | _ ↦ notify_ready (on_progress s) ]

  pub on_picked : Inbox A → Inbox A
  unfolding on_progress notify_free
  on_picked s = elim s.class [ sync_inbox ↦ on_progress s | _ ↦ notify_free (on_progress s) ]

  pub dispose_sync : Inbox A → Inbox A
  dispose_sync s = record s {
    read_idx = pos 0;
    write_idx = pos 0;
    capacity = 0;
    buffer = λ _. none;
    wrap_around_count = 1;
    is_disposed = true;
  }

  pub dispose : Inbox A → Inbox A
  unfolding dispose_sync
  dispose s =
      let d = dispose_sync s in
      elim s.class [
        | sync_inbox ↦ d
        | _ ↦ record d {
          settled =
              settle_lock dispose_error s.lock_ready
                (settle_lock dispose_error s.lock_full s.settled);
          lock_full = none;
          lock_ready = none;
        }
      ]

  -- `buffer[index] = value`.
  pub write : (ℕ → Option A) → ℕ → Option A → ℕ → Option A
  write buffer index v j = if j == index then v else buffer j

  pub try_post : A → Inbox A → Inbox A × Bool
  try_post x s =
      if is_full s
      then (s, false)
      else (let write_idx = s.write_idx +ℤ pos 1 in
          (
            on_posted (record s {
              write_idx = write_idx;
              buffer = write s.buffer (masked write_idx s.wrap_around_count) (some x);
            }),
            true,
          ))

  pub try_cancel_post : Inbox A → Inbox A × Picked A
  try_cancel_post s =
      if eqb_ℤ (size s) (pos 0)
      then (s, not_available)
      else (let pointing_idx = masked s.write_idx s.wrap_around_count in
          (
            fix_idx (record s {
              buffer = write s.buffer pointing_idx none;
              write_idx = s.write_idx -ℤ pos 1;
            }),
            item (s.buffer pointing_idx),
          ))

  pub try_pick : Inbox A → Inbox A × Picked A
  try_pick s =
      if is_running_out s
      then (s, not_available)
      else (let read_idx = s.read_idx +ℤ pos 1 in
          let pointing_idx = masked read_idx s.wrap_around_count in
          (
            on_picked (record s { read_idx = read_idx; buffer = write s.buffer pointing_idx none }),
            item (s.buffer pointing_idx),
          ))

  -- `none` is the ready signal, given at once; else the lock to wait for.
  pub wait_for_free : Inbox A → Inbox A × Option ℕ
  wait_for_free s =
      if eqb_ℤ (free s) (pos 0)
      then elim s.lock_full [
        | some lock ↦ (s, some lock)
        | none ↦ (
          record s { lock_full = some s.next_lock; next_lock = suc s.next_lock },
          some s.next_lock,
        )
      ]
      else (s, none)

  pub wait_for_ready : Inbox A → Inbox A × Option ℕ
  wait_for_ready s =
      if is_running_out s
      then elim s.lock_ready [
        | some lock ↦ (s, some lock)
        | none ↦ (
          record s { lock_ready = some s.next_lock; next_lock = suc s.next_lock },
          some s.next_lock,
        )
      ]
      else (s, none)
