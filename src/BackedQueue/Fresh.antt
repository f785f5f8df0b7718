-- ===== src/BackedQueue/Fresh.antt =====
-- The keys that a queue issues differ, so that an item that is queued again under a new key takes the
-- place of no item that was queued under an issued one.
use fancy_kit.Common.{
  ℕ, suc, ◌-◌, ◌<◌, ◌≡◌, ◌≢◌, refl, sym, ap, ◌∙◌, Bool, true, false, List, [], ◌∷◌, ◌++◌, Option,
  none, some, length, Bool-cases, inl, inr, arith,
}
use fancy_kit.Common.Texts.{append_cancel}
use fancy_kit.EncodeObject.Base36.{to_base36, digits_from, digits_from-padded}
use fancy_kit.BackedQueue.Memory.{
  Backend, prefix, pad_start, processing_prefix, set_queue_item, delete_queue_item,
  get_processing_item, delete_processing_item, finish_atomic, atomic, issue_new_queue_key,
}
use fancy_kit.BackedQueue.Operations.{
  Position, last, keep_original, Action, commits, revokes, requeues, commit, revoke, requeue, act,
  requeued, requeue_found,
}
use fancy_kit.BackedQueue.Places.{processing, IsMap}
use fancy_kit.BackedQueue.Views.{view, Writes}
use fancy_kit.BackedQueue.Moves.{writes, act_writes}

padded_injective : (a b : ℕ) → pad_start 5 (to_base36 a) ≡ pad_start 5 (to_base36 b) → a ≡ b
padded_injective a b e =
    sym (digits_from-padded (5 - length (to_base36 a)) a)
    ∙ ap (digits_from 0) e
    ∙ digits_from-padded (5 - length (to_base36 b)) b

module _ {T : Type 0} where
  -- The key that the backend issues with this count.
  abbrev pub issued : ℕ → Backend T → List ℕ
  issued n s = (issue_new_queue_key (record s { incremental_id = n })).1

  issued_injective : (s : Backend T) (a b : ℕ) → issued a s ≡ issued b s → a ≡ b
  unfolding issue_new_queue_key prefix
  issued_injective s a b e =
      let start = pad_start 8 (to_base36 s.startup_time) in
      let random = pad_start 2 (to_base36 s.session_random) in
      let x = pad_start 5 (to_base36 a) in
      let y = pad_start 5 (to_base36 b) in
      let dashed = append_cancel start (45 ∷ (random ++ 45 ∷ x)) (45 ∷ (random ++ 45 ∷ y)) (
        append_cancel (prefix s) (start ++ (45 ∷ (random ++ 45 ∷ x)))
          (start ++ (45 ∷ (random ++ 45 ∷ y))) e) in
      let counted =
        append_cancel random (45 ∷ x) (45 ∷ y)
          (append_cancel (45 ∷ []) (random ++ 45 ∷ x) (random ++ 45 ∷ y) dashed) in
      padded_injective a b (append_cancel (45 ∷ []) x y counted)

  -- No key that was issued before is this one, and it counts as issued afterwards.
  abbrev pub New : List ℕ → Backend T → Backend T → Type 0
  New key s t =
      ((n : ℕ) → n < s.incremental_id → issued n s ≢ key)
      × ((n : ℕ) × (n < t.incremental_id) × (issued n t ≡ key))

  abbrev pub NewIf : Bool → List ℕ → Backend T → Backend T → Type 0
  NewIf true key s t = New key s t
  NewIf false key s t = t.incremental_id ≡ s.incremental_id

  abbrev pub requeues_newly : (T → Bool) → Position → Option T → Bool
  requeues_newly truthy last none = false
  requeues_newly truthy last (some item) = truthy item
  requeues_newly truthy keep_original found = false

  -- Whether a call queues an item under a key that it has to issue.
  abbrev pub issues : (T → Bool) → Action → Backend T → Bool
  issues truthy (commits key) s = false
  issues truthy (revokes key) s = false
  issues truthy (requeues key position) s = requeues_newly truthy position (view s (processing key))

module _ {T : Type 0} (truthy : T → Bool) where
  issued-New :
      (s t : Backend T)
      → t.incremental_id ≡ suc s.incremental_id
      → issued s.incremental_id t ≡ issued s.incremental_id s
      → New (issued s.incremental_id s) s t
  issued-New s t e k = (
    λ n below same. absurd (omega (arith, below, issued_injective s n s.incremental_id same)),
    (s.incremental_id, omega (arith, e), k),
  )

  requeue_found-New :
      (key : List ℕ) (position : Position) (found : Option T) (s : Backend T)
      → NewIf
          (requeues_newly truthy position found)
          (issue_new_queue_key s).1
          s
          (finish_atomic (delete_processing_item key (requeue_found truthy key position found s)) s)
  unfolding finish_atomic delete_processing_item set_queue_item issue_new_queue_key prefix
  requeue_found-New key last none s = refl
  requeue_found-New key keep_original none s = refl
  requeue_found-New key keep_original (some item) s = elim (Bool-cases (truthy item)) [
    | inl t ↦ rw t refl
    | inr e ↦ rw e refl
  ]
  requeue_found-New key last (some item) s = elim (Bool-cases (truthy item)) [
    | inl t ↦ rw t (
        issued-New s (finish_atomic (delete_processing_item key (requeued key last item s)) s) refl
          refl)
    | inr e ↦ rw e refl
  ]

  act-New :
      (action : Action) (s : Backend T)
      → NewIf (issues truthy action s) (issue_new_queue_key s).1 s (act truthy action s)
  unfolding act commit revoke requeue atomic finish_atomic delete_processing_item delete_queue_item
      get_processing_item processing_prefix
  act-New (commits key) s = refl
  act-New (revokes key) s = refl
  act-New (requeues key position) s = requeue_found-New key position (view s (processing key)) s

  -- On a map that has no key twice, a call of the callback's context changes exactly these places: a
  -- commit empties the key's place in processing, a revoke its place in the queue too, and a requeue
  -- moves the item to a newly issued key or, if told so, to its own, but drops it if it is falsy. The new
  -- key differs from every key that the queue has issued, and counts as issued afterwards; no other
  -- call uses up a key.
  pub act_moves :
      (action : Action) (s : Backend T)
      → IsMap s
      → Writes (writes truthy action s) s (act truthy action s)
        × NewIf (issues truthy action s) (issue_new_queue_key s).1 s (act truthy action s)
  act_moves action s m = (act_writes truthy action s m, act-New action s)
