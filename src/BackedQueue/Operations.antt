-- ===== src/BackedQueue/Operations.antt =====
-- packages/octagonal-wheels/src/BackedQueue/BackedQueue.ts over the in-memory backend. Calls of the backend
-- that BackedQueue awaits are steps; two of them in a row without another caller's call in between are
-- composed. `none` is a throw, and in `next_transaction` the end of the fuel too.
use fancy_kit.Common.{
  ℕ, Bool, true, false, List, [], ◌∷◌, Option, none, some, if◌then◌else◌, length, ltb,
}
use fancy_kit.BackedQueue.Memory.{
  Backend, Below, processing_prefix, get_queued_item, set_queue_item, delete_queue_item,
  get_processing_item, set_processing_item, delete_processing_item, atomic, keys,
  issue_new_queue_key, get_next_queue_key, behind,
}

-- Which of RequeuePosition's values is `DANGER_KEEP_ORIGINAL` and which is another.
pub data Position : Type 0 where
  last keep_original : Position

-- The calls that the callback of `process` makes through its context.
pub data Action : Type 0 where
  commits revokes : List ℕ → Action
  requeues : List ℕ → Position → Action

-- How a call of `process` goes on: it ends, throws, or waits for the next item to be queued.
pub data Outcome : Type 0 where
  processed thrown waits : Outcome

-- `shouldHandle` is cleared by every call of the context.
abbrev pub should_handle : List Action → Bool
should_handle [] = true
should_handle (a ∷ rest) = false

-- Whether a key was found, where the scan came to its end.
abbrev pub emptiness : Option (Option (List ℕ)) → Option Bool
emptiness none = none
emptiness (some none) = some true
emptiness (some (some key)) = some false

module _ {T : Type 0} where
  -- MemoryBackedQueue.ts: a new queue of a name, whose base prefix is "bq-m".
  abbrev pub memory_backed_queue : List ℕ → ℕ → ℕ → Backend T
  memory_backed_queue name now random = record {
    name = name;
    base_prefix = 98 ∷ 113 ∷ 45 ∷ 109 ∷ [];
    queue_map = [];
    startup_time = now;
    session_random = random;
    incremental_id = 0;
  }

  abbrev pub done : Backend T → Backend T × Option (Unit {0})
  done s = (s, some tt)

  unfoldable pub commit : List ℕ → Backend T → Backend T × Option (Unit {0})
  commit key = atomic λ tx. done (delete_processing_item key tx)

  unfoldable pub revoke : List ℕ → Backend T → Backend T × Option (Unit {0})
  revoke key = atomic λ tx. done (delete_processing_item key (delete_queue_item key tx))

  abbrev pub requeued : List ℕ → Position → T → Backend T → Backend T
  requeued key last item tx =
      let (tx', new_key) = issue_new_queue_key tx in
      delete_processing_item key (set_queue_item new_key item tx')
  requeued key keep_original item tx = delete_processing_item key (set_queue_item key item tx)

  -- `if (item)`: an item that is falsy is not requeued.
  abbrev pub requeue_found : (T → Bool) → List ℕ → Position → Option T → Backend T → Backend T
  requeue_found truthy key position none tx = tx
  requeue_found truthy key position (some item) tx =
      if truthy item then requeued key position item tx else tx

  unfoldable pub requeue :
      (T → Bool) → List ℕ → Position → Backend T → Backend T × Option (Unit {0})
  requeue truthy key position = atomic λ tx. done (
      delete_processing_item key
        (requeue_found truthy key position (get_processing_item key tx) tx))

  abbrev pub moved : List ℕ → Option T → Option T → Backend T → Backend T × Option (Unit {0})
  moved key none processing tx = (tx, none)
  moved key (some item) (some other) tx = (tx, none)
  moved key (some item) none tx = done (delete_queue_item key (set_processing_item key item tx))

  unfoldable pub queue_to_processing : List ℕ → Backend T → Backend T × Option (Unit {0})
  queue_to_processing key tx = moved key (get_queued_item key tx) (get_processing_item key tx) tx

  abbrev pub restored : List ℕ → Option T → Backend T → Backend T × Option (Unit {0})
  restored key none tx = (tx, none)
  restored key (some item) tx = done (delete_processing_item key (set_queue_item key item tx))

  unfoldable pub restore_to_queue : List ℕ → Backend T → Backend T × Option (Unit {0})
  restore_to_queue key = atomic λ tx. restored key (get_processing_item key tx) tx

  unfoldable pub on_dead_letter : List ℕ → Backend T → Backend T × Option (Unit {0})
  on_dead_letter key s = revoke key s

  -- The item is stored; the waiters for it are woken after that.
  unfoldable pub enqueue : T → Backend T → Backend T × List ℕ
  enqueue item s = let (s', key) = issue_new_queue_key s in (set_queue_item key item s', key)

  module _ (truthy : T → Bool) where
    unfoldable pub act : Action → Backend T → Backend T
    act (commits key) s = (commit key s).0
    act (revokes key) s = (revoke key s).0
    act (requeues key position) s = (requeue truthy key position s).0

    unfoldable pub act_all : List Action → Backend T → Backend T
    act_all [] s = s
    act_all (a ∷ rest) s = act_all rest (act a s)

    -- `process` of an item that is dequeued, whose callback makes some calls and then throws, or does
    -- not; the error is thrown again.
    unfoldable pub process_item : List ℕ → List Action → Bool → Backend T → Backend T × Outcome
    process_item key actions throws s =
        let t = act_all actions s in
        if throws
        then (if should_handle actions then (on_dead_letter key t).0 else t, thrown)
        else (if should_handle actions then (commit key t).0 else t, processed)

  module _ (truthy : T → Bool) (callback : List ℕ → T → List Action × Bool) where
    abbrev pub on_item : List ℕ → Option T → Backend T → Backend T × Outcome
    on_item key none t = (t, thrown)
    on_item key (some item) t =
        let (actions, throws) = callback key item in process_item truthy key actions throws t

    abbrev pub on_round : Backend T × Option (Option (List ℕ)) → Backend T × Outcome
    on_round (t, none) = (t, thrown)
    on_round (t, some none) = (t, waits)
    on_round (t, some (some key)) = on_item key (get_processing_item key t) t

  module _ (below : Below) (bypass : List ℕ → Bool) where
    abbrev pub answered :
        List ℕ → Backend T × Option (Unit {0}) → Backend T × Option (Option (List ℕ))
    answered key (tx, none) = (tx, none)
    answered key (tx, some x) = (tx, some (some key))

    -- `if (!nextKey)`: the empty key is none.
    abbrev pub take_key : Option (List ℕ) → Backend T → Backend T × Option (Option (List ℕ))
    take_key none tx = (tx, some none)
    take_key (some []) tx = (tx, some none)
    take_key (some (c ∷ cs)) tx = answered (c ∷ cs) (queue_to_processing (c ∷ cs) tx)

    abbrev pub on_key : Option (Option (List ℕ)) → Backend T → Backend T × Option (Option (List ℕ))
    on_key none tx = (tx, none)
    on_key (some key) tx = take_key key tx

    -- The transaction of one round of `waitForNext`, with the key that it takes.
    unfoldable pub next_transaction : ℕ → Backend T → Backend T × Option (Option (List ℕ))
    next_transaction fuel tx = on_key (get_next_queue_key below bypass fuel tx) tx

    unfoldable pub wait_for_next_round : ℕ → Backend T → Backend T × Option (Option (List ℕ))
    wait_for_next_round fuel = atomic (next_transaction fuel)

    unfoldable pub is_any_in_flight : Backend T → Bool
    is_any_in_flight s = ltb 0 (
        length (
          keys below (some (processing_prefix s)) (some (behind (processing_prefix s))) (some 1) s))

    module _ (truthy : T → Bool) (callback : List ℕ → T → List Action × Bool) where
      -- `process` up to the first wait for an item, with the callback's calls and whether it throws.
      unfoldable pub process : ℕ → Backend T → Backend T × Outcome
      process fuel s = on_round truthy callback (wait_for_next_round fuel s)

    unfoldable pub is_queue_empty : ℕ → Backend T → Option Bool
    is_queue_empty fuel s = emptiness (get_next_queue_key below bypass fuel s)
