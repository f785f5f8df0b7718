-- ===== src/BackedQueue/Settled.antt =====
-- The round of `waitForNext` and `process` of BackedQueue.ts from the first queued item to its end.
use fancy_kit.Common.{
  ℕ, ◌≡◌, refl, ◌∙◌, Bool, true, false, List, [], ◌∷◌, Option, none, some, if◌then◌else◌,
  Bool-cases, inl, inr,
}
use fancy_kit.Common.Texts.{same_iff}
use fancy_kit.BackedQueue.Memory.{
  Backend, Below, prefix, processing_prefix, get_queued_item, delete_queue_item,
  get_processing_item, set_processing_item, delete_processing_item, finish_atomic, atomic,
  get_next_queue_key,
}
use fancy_kit.BackedQueue.Operations.{
  Action, Outcome, processed, thrown, commit, revoke, on_dead_letter, queue_to_processing,
  next_transaction, wait_for_next_round, act_all, process_item, on_round, process,
}
use fancy_kit.BackedQueue.Places.{Place, queued, processing, put, clear, IsMap}
use fancy_kit.BackedQueue.Views.{
  view, same_place, Writes, Writes-nothing, Writes-put, Writes-clear, Writes-same,
  Writes-finish_atomic,
}

module _ {T : Type 0} where
  -- An operation ends with the value, and the backend has the writes.
  abbrev pub Ends {ℓ} :
      {U : Type ℓ} → List (Place × Option T) → Backend T → U → Backend T × U → Type ℓ
  Ends ws s value (t, result) = (result ≡ value) × Writes ws s t

  moved-Writes :
      (key : List ℕ) (item : T) (s : Backend T)
      → IsMap s
      → Writes
          ((queued key, none) ∷ (processing key, some item) ∷ [])
          s
          (delete_queue_item key (set_processing_item key item s))
  unfolding prefix processing_prefix delete_queue_item set_processing_item
  moved-Writes key item s m =
      Writes-clear ((processing key, some item) ∷ []) s (put (processing key) item s) (queued key)
        (Writes-put [] s s (processing key) item (Writes-nothing s m))

  -- The place that a key is taken from and the place that it is kept in are empty.
  abbrev pub settled_writes : List ℕ → List (Place × Option T)
  settled_writes key = (processing key, none) ∷ (queued key, none) ∷ []

  processing_again :
      (b d : Bool) (item : T) (x : Option T)
      → (if b then none else if d then none else if b then some item else x)
        ≡ (if b then none else if d then none else x)
  processing_again true d item x = refl
  processing_again false d item x = refl

  queued_again :
      (b d : Bool) (item : T) (x : Option T)
      → (if b then none else if d then none else if d then none else if b then some item else x)
        ≡ (if b then none else if d then none else x)
  queued_again true d item x = refl
  queued_again false true item x = refl
  queued_again false false item x = refl

abbrev pub outcome_of : Bool → Outcome
outcome_of throws = if throws then thrown else processed

module _ {T : Type 0} (below : Below) (bypass : List ℕ → Bool) (fuel : ℕ) (s : Backend T)
    (m : IsMap s) (c : ℕ) (cs : List ℕ)
    (next : get_next_queue_key below bypass fuel s ≡ some (some (c ∷ cs))) (item : T)
    (there : view s (queued (c ∷ cs)) ≡ some item)
    (free : view s (processing (c ∷ cs)) ≡ none) where
  round_eq : wait_for_next_round below bypass fuel s ≡ (
    finish_atomic (delete_queue_item (c ∷ cs) (set_processing_item (c ∷ cs) item s)) s,
    some (some (c ∷ cs)),
  )
  unfolding wait_for_next_round atomic next_transaction queue_to_processing get_queued_item
      get_processing_item prefix processing_prefix
  round_eq = rw (next, there, free) refl

  took : Backend T
  took = finish_atomic (delete_queue_item (c ∷ cs) (set_processing_item (c ∷ cs) item s)) s

  took-Writes : Writes ((queued (c ∷ cs), none) ∷ (processing (c ∷ cs), some item) ∷ []) s took
  unfolding took
  took-Writes =
      Writes-finish_atomic ((queued (c ∷ cs), none) ∷ (processing (c ∷ cs), some item) ∷ []) s
        (delete_queue_item (c ∷ cs) (set_processing_item (c ∷ cs) item s))
        (moved-Writes (c ∷ cs) item s m)

  took_item : get_processing_item (c ∷ cs) took ≡ some item
  unfolding get_processing_item processing_prefix
  took_item = took-Writes.2 (processing (c ∷ cs)) ∙ rw ((same_iff (c ∷ cs) (c ∷ cs)).1 refl) refl

  committed-Writes : Writes (settled_writes (c ∷ cs)) s (commit (c ∷ cs) took).0
  unfolding commit atomic finish_atomic delete_processing_item processing_prefix prefix
  committed-Writes =
      Writes-same
        ((processing (c ∷ cs), none)
          ∷ (queued (c ∷ cs), none)
          ∷ (processing (c ∷ cs), some item)
          ∷ [])
        (settled_writes (c ∷ cs)) s (clear (processing (c ∷ cs)) took)
        (Writes-clear ((queued (c ∷ cs), none) ∷ (processing (c ∷ cs), some item) ∷ []) s took
          (processing (c ∷ cs)) took-Writes)
        λ q.
          processing_again (same_place (processing (c ∷ cs)) q) (same_place (queued (c ∷ cs)) q)
            item (view s q)

  revoked-Writes : Writes (settled_writes (c ∷ cs)) s (on_dead_letter (c ∷ cs) took).0
  unfolding on_dead_letter revoke atomic finish_atomic delete_processing_item delete_queue_item
      processing_prefix prefix
  revoked-Writes =
      Writes-same
        ((processing (c ∷ cs), none)
          ∷ (queued (c ∷ cs), none)
          ∷ (queued (c ∷ cs), none)
          ∷ (processing (c ∷ cs), some item)
          ∷ [])
        (settled_writes (c ∷ cs)) s (clear (processing (c ∷ cs)) (clear (queued (c ∷ cs)) took))
        (Writes-clear
          ((queued (c ∷ cs), none)
            ∷ (queued (c ∷ cs), none)
            ∷ (processing (c ∷ cs), some item)
            ∷ [])
          s (clear (queued (c ∷ cs)) took) (processing (c ∷ cs))
          (Writes-clear ((queued (c ∷ cs), none) ∷ (processing (c ∷ cs), some item) ∷ []) s took
            (queued (c ∷ cs)) took-Writes))
        λ q.
          queued_again (same_place (processing (c ∷ cs)) q) (same_place (queued (c ∷ cs)) q) item
            (view s q)

  module _ (truthy : T → Bool) (callback : List ℕ → T → List Action × Bool)
      (calls_nothing : (callback (c ∷ cs) item).0 ≡ []) where
    on_taken :
        Ends
          (settled_writes (c ∷ cs))
          s
          (outcome_of (callback (c ∷ cs) item).1)
          (on_round truthy callback (took, some (some (c ∷ cs))))
    unfolding process_item act_all
    on_taken =
        rw (took_item, calls_nothing)
          elim (Bool-cases (callback (c ∷ cs) item).1) [
            | inl e ↦ rw e (refl, revoked-Writes)
            | inr e ↦ rw e (refl, committed-Writes)
          ]

    -- On a map that has no key twice: if the scan gives a key that is not empty, whose item is queued and not in processing, and the
    -- callback makes no call of its context, then `process` takes the item out of both places and changes
    -- no other, whether the callback throws or not, and throws exactly if it does.
    pub process_settles :
        Ends
          (settled_writes (c ∷ cs))
          s
          (outcome_of (callback (c ∷ cs) item).1)
          (process below bypass truthy callback fuel s)
    unfolding process took
    process_settles = rw round_eq on_taken
