-- ===== src/BackedQueue/Moves.antt =====
-- What the calls of a queue's callback and the transactions of BackedQueue.ts write.
use fancy_kit.Common.{
  ℕ, ◌≡◌, refl, Bool, List, [], ◌∷◌, Option, none, some, if◌then◌else◌, Bool-cases, inl, inr,
}
use fancy_kit.BackedQueue.Memory.{
  Backend, prefix, processing_prefix, set_queue_item, delete_queue_item, get_processing_item,
  delete_processing_item, finish_atomic, atomic, issue_new_queue_key,
}
use fancy_kit.BackedQueue.Operations.{
  Position, last, keep_original, Action, commits, revokes, requeues, commit, revoke, requeue, act,
  requeued, requeue_found,
}
use fancy_kit.BackedQueue.Places.{Place, queued, processing, read, put, clear, IsMap}
use fancy_kit.BackedQueue.Views.{
  view, Writes, Writes-finish_atomic, Writes-nothing, Writes-put, Writes-clear, Writes-clear_again,
}

module _ {T : Type 0} where
  -- The key under which an item is queued again.
  abbrev pub target : List ℕ → Position → Backend T → List ℕ
  target key last s = (issue_new_queue_key s).1
  target key keep_original s = key

  abbrev pub requeue_writes : (T → Bool) → List ℕ → List ℕ → Option T → List (Place × Option T)
  requeue_writes truthy key new_key none = (processing key, none) ∷ []
  requeue_writes truthy key new_key (some item) =
      if truthy item
      then (processing key, none) ∷ (queued new_key, some item) ∷ []
      else (processing key, none) ∷ []

  -- The writes of a call, the latest first.
  abbrev pub writes : (T → Bool) → Action → Backend T → List (Place × Option T)
  writes truthy (commits key) s = (processing key, none) ∷ []
  writes truthy (revokes key) s = (processing key, none) ∷ (queued key, none) ∷ []
  writes truthy (requeues key position) s =
      requeue_writes truthy key (target key position s) (view s (processing key))

module _ {T : Type 0} where
  pub issue_keeps : (s : Backend T) (q : Place) → read q (issue_new_queue_key s).0 ≡ view s q
  unfolding prefix processing_prefix issue_new_queue_key
  issue_keeps s (queued key) = refl
  issue_keeps s (processing key) = refl

module _ {T : Type 0} (truthy : T → Bool) where
  requeued-Writes :
      (key : List ℕ) (position : Position) (item : T) (s : Backend T)
      → IsMap s
      → Writes
          ((processing key, none) ∷ (queued (target key position s), some item) ∷ [])
          s
          (requeued key position item s)
  unfolding prefix processing_prefix set_queue_item delete_processing_item issue_new_queue_key
  requeued-Writes key last item s m =
      let t = (issue_new_queue_key s).0 in
      let new_key = (issue_new_queue_key s).1 in
      Writes-clear ((queued new_key, some item) ∷ []) s (put (queued new_key) item t)
        (processing key) (Writes-put [] s t (queued new_key) item (m, (refl, refl), issue_keeps s))
  requeued-Writes key keep_original item s m =
      Writes-clear ((queued key, some item) ∷ []) s (put (queued key) item s) (processing key)
        (Writes-put [] s s (queued key) item (Writes-nothing s m))

  requeue_found-Writes :
      (key : List ℕ) (position : Position) (found : Option T) (s : Backend T)
      → IsMap s
      → Writes
          (requeue_writes truthy key (target key position s) found)
          s
          (delete_processing_item key (requeue_found truthy key position found s))
  unfolding prefix processing_prefix delete_processing_item
  requeue_found-Writes key position none s m =
      Writes-clear [] s s (processing key) (Writes-nothing s m)
  requeue_found-Writes key position (some item) s m = elim (Bool-cases (truthy item)) [
    | inl t ↦ rw t (
        Writes-clear_again ((queued (target key position s), some item) ∷ []) s
          (clear (processing key) (requeued key position item s)) (processing key)
          (Writes-clear ((processing key, none) ∷ (queued (target key position s), some item) ∷ [])
            s (requeued key position item s) (processing key)
            (requeued-Writes key position item s m)))
    | inr e ↦ rw e (Writes-clear [] s s (processing key) (Writes-nothing s m))
  ]

  -- What a call of the callback's context writes, on a map that has no key twice.
  pub act_writes :
      (action : Action) (s : Backend T)
      → IsMap s
      → Writes (writes truthy action s) s (act truthy action s)
  unfolding prefix processing_prefix delete_queue_item delete_processing_item get_processing_item
      atomic commit revoke requeue act finish_atomic
  act_writes (commits key) s m = Writes-clear [] s s (processing key) (Writes-nothing s m)
  act_writes (revokes key) s m =
      Writes-clear ((queued key, none) ∷ []) s (clear (queued key) s) (processing key)
        (Writes-clear [] s s (queued key) (Writes-nothing s m))
  act_writes (requeues key position) s m =
      Writes-finish_atomic (writes truthy (requeues key position) s) s
        (delete_processing_item key (requeue_found truthy key position (view s (processing key)) s))
        (requeue_found-Writes key position (view s (processing key)) s m)
