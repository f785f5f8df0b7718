-- ===== src/Deferred.antt =====
-- packages/octagonal-wheels/src/concurrency/deferredAction.ts: `createDeferredAction`. The callback
-- belongs to the owner: `runs` lists the schedules whose callback was invoked, newest first. The
-- scheduler is an argument: `schedule` takes what it does in this call, `refuses` says which
-- registrations throw when they are cancelled, and `fire` is the scheduler's call of a callback.
pub mod Once
pub mod Replaces
pub mod Timer
mod Tests
use fancy_kit.Common.{
  ℕ, suc, Bool, true, false, List, [], ◌∷◌, ◌++◌, Option, none, some, ◌==◌, if◌then◌else◌,
}

-- The object `{ cancel?: () => void }`: its identity, and the registration that `cancel` releases.
pub record Pending : Type 0 where
  pub id : ℕ
  pub cancel : Option ℕ

pub record Deferred : Type 0 where
  pub pending : Option Pending
  pub disposed : Bool
  pub next_id : ℕ
  -- The registrations whose cancellation was called, oldest first.
  pub cancelled : List ℕ
  pub runs : List ℕ
  -- The delays that the scheduler was called with, oldest first.
  pub delays : List ℕ

-- Whether a call returned or threw.
pub data Outcome : Type 0 where
  returned threw : Outcome

-- What the scheduler does in its call: it may cancel or dispose the action, and then registers under
-- a number or throws.
pub data Interrupt : Type 0 where
  nothing cancels disposes : Interrupt

pub data Registration : Type 0 where
  registers : ℕ → Registration
  fails : Registration

unfoldable pub create : Deferred
create = record {
  pending = none;
  disposed = false;
  next_id = 0;
  cancelled = [];
  runs = [];
  delays = [];
}

abbrev pub is_current : ℕ → Option Pending → Bool
is_current id none = false
is_current id (some p) = p.id == id

-- The scheduler's call of the function that `schedule` gave it for this object.
unfoldable pub fire : ℕ → Deferred → Deferred
fire id s = if is_current id s.pending then record s { pending = none; runs = id ∷ s.runs } else s

module _ (refuses : ℕ → Bool) where
  abbrev pub cancel_registration : Option ℕ → Deferred → Deferred × Outcome
  cancel_registration none s = (s, returned)
  cancel_registration (some r) s =
      (record s { cancelled = s.cancelled ++ r ∷ [] }, if refuses r then threw else returned)

  abbrev pub cancel_pending : Option Pending → Deferred → Deferred × Outcome
  cancel_pending none s = (s, returned)
  cancel_pending (some p) s = cancel_registration p.cancel s

  unfoldable pub cancel : Deferred → Deferred × Outcome
  cancel s = cancel_pending s.pending (record s { pending = none })

  unfoldable pub dispose : Deferred → Deferred × Outcome
  dispose s = if s.disposed then (s, returned) else cancel (record s { disposed = true })

  abbrev pub interrupted : Interrupt → Deferred → Deferred
  interrupted nothing s = s
  interrupted cancels s = (cancel s).0
  interrupted disposes s = (dispose s).0

  -- The `try` block after the scheduler's call, and its `catch`.
  abbrev pub registered : ℕ → Registration → Deferred → Deferred × Outcome
  registered id (registers r) s =
      if is_current id s.pending
      then (record s { pending = some (record { id = id; cancel = some r }) }, returned)
      else cancel_registration (some r) s
  registered id fails s =
      (if is_current id s.pending then record s { pending = none } else s, threw)

  abbrev pub scheduled : ℕ → Interrupt → Registration → Deferred × Outcome → Deferred × Outcome
  scheduled delay i r (s, threw) = (s, threw)
  scheduled delay i r (s, returned) = registered s.next_id r (
      interrupted i (record s {
        pending = some (record { id = s.next_id; cancel = none });
        next_id = suc s.next_id;
        delays = s.delays ++ delay ∷ [];
      }))

  unfoldable pub schedule : ℕ → Interrupt → Registration → Deferred → Deferred × Outcome
  schedule delay i r s = if s.disposed then (s, returned) else scheduled delay i r (cancel s)
