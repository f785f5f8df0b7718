-- ===== src/BackedQueue/Lost.antt =====
-- What becomes of an item that is enqueued while a transaction of the in-memory backend is open.
use fancy_kit.Common.{ℕ, ◌≡◌, refl, List, none, some, Bool}
use fancy_kit.BackedQueue.Memory.{
  Backend, Below, finish_atomic, issue_new_queue_key, get_next_queue_key, set_queue_item, prefix,
}
use fancy_kit.BackedQueue.Operations.{enqueue, next_transaction}

module _ {T : Type 0} (below : Below) (bypass : List ℕ → Bool) (fuel : ℕ) where
  -- An item that is enqueued while the transaction of `waitForNext` on an empty queue is open is lost at
  -- its end: the backend is as it was before, and the next item gets the key that was returned for it.
  pub enqueue_lost :
      (s : Backend T) (item later : T)
      → get_next_queue_key below bypass fuel s ≡ some none
      → let t = finish_atomic (next_transaction below bypass fuel s).0 (enqueue item s).0 in
        (t ≡ s) × ((enqueue later t).1 ≡ (enqueue item s).1)
  unfolding finish_atomic next_transaction enqueue issue_new_queue_key set_queue_item prefix
  enqueue_lost s item later h = rw h (refl, refl)
