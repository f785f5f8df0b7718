-- ===== src/BackedQueue/Tests.antt =====
-- The backed queue on a concrete backend, and its theorems there.
use fancy_kit.Common.{
  ℕ, suc, ◌≡◌, refl, List, [], ◌∷◌, none, some, Bool, true, false, not, ltb, ◌==◌, length, lt→ltb,
  ltb→lt, arith,
}
use fancy_kit.EncodeObject.Base36.{to_base36, to_base36_fuel}
use fancy_kit.BackedQueue.Memory.{
  next_page, keys, processing_prefix, Backend, Below, before, behind, prefix, finish_atomic,
  get_next_queue_key, issue_new_queue_key,
}
use fancy_kit.BackedQueue.Operations.{
  Action, requeues, last, act, enqueue, process, next_transaction,
}
use fancy_kit.BackedQueue.Views.{Writes}
use fancy_kit.BackedQueue.Scan.{Answers, get_next_queue_key_total}
use fancy_kit.BackedQueue.Moves.{writes}
use fancy_kit.BackedQueue.Fresh.{NewIf, issues, act_moves}
use fancy_kit.BackedQueue.Settled.{Ends, settled_writes, outcome_of, process_settles}
use fancy_kit.BackedQueue.Lost.{enqueue_lost}

abbrev empty_queue : Backend ℕ
empty_queue = record {
  name = 113 ∷ [];
  base_prefix = 98 ∷ [];
  queue_map = [];
  startup_time = 70;
  session_random = 5;
  incremental_id = 0;
}

-- The place of the key "k" in the queue.
abbrev queued_k : List ℕ
queued_k = 98 ∷ 119 ∷ 45 ∷ 113 ∷ 45 ∷ 107 ∷ []

abbrev processing_k : List ℕ
processing_k = 98 ∷ 114 ∷ 45 ∷ 113 ∷ 45 ∷ 107 ∷ []

abbrev key_k : List ℕ
key_k = 107 ∷ []

abbrev one_item : Backend ℕ
one_item = record empty_queue { queue_map = (queued_k, 7) ∷ [] }

abbrev in_flight : Backend ℕ
in_flight = record empty_queue { queue_map = (processing_k, 7) ∷ [] }

abbrev nobody : List ℕ → Bool
nobody k = false

abbrev non_zero : ℕ → Bool
non_zero n = not (n == 0)

not_less : (a b c : ℕ) → ltb a b ≡ false → ltb b c ≡ false → ltb a c ≡ false
not_less a b c h g = ground arith

not_both : (a b : ℕ) → ltb a b ≡ true → ltb b a ≡ false
not_both a b h = ground arith

-- The order by length.
abbrev shorter : Below
shorter a b = ltb (length a) (length b)

abbrev throws_for : List ℕ → ℕ → List Action × Bool
throws_for key item = ([], item == 7)

next_is_k : get_next_queue_key before nobody 2 one_item ≡ some (some key_k)
unfolding get_next_queue_key next_page keys prefix
next_is_k = refl

next_is_none : get_next_queue_key before nobody 1 empty_queue ≡ some none
unfolding get_next_queue_key next_page keys
next_is_none = refl

-- A key is issued with the prefix of the queued places, which the place of the item has once more.
issued :
    (enqueue 3 empty_queue).1
    ≡ 98
      ∷ 119
      ∷ 45
      ∷ 113
      ∷ 45
      ∷ (48 ∷ 48 ∷ 48 ∷ 48 ∷ 48 ∷ 48 ∷ 49 ∷ 121 ∷ 45 ∷ 48 ∷ 53 ∷ 45 ∷ 48 ∷ 48 ∷ 48 ∷ 48 ∷ 48 ∷ [])
unfolding enqueue issue_new_queue_key prefix to_base36 to_base36_fuel
issued = refl

act_moves_example :
    let t = act non_zero (requeues key_k last) in_flight in
    Writes (writes non_zero (requeues key_k last) in_flight) in_flight t
    × NewIf
        (issues non_zero (requeues key_k last) in_flight)
        (issue_new_queue_key in_flight).1
        in_flight
        t
act_moves_example = act_moves non_zero (requeues key_k last) in_flight (refl, tt)

process_settles_example :
    Ends
      (settled_writes key_k)
      one_item
      (outcome_of true)
      (process before nobody non_zero throws_for 2 one_item)
unfolding prefix processing_prefix
process_settles_example =
    process_settles before nobody 2 one_item (refl, tt) 107 [] next_is_k 7 refl refl non_zero
      throws_for refl

shorter-transitive :
    (a b c : List ℕ) → shorter a b ≡ false → shorter b c ≡ false → shorter a c ≡ false
shorter-transitive a b c h g = not_less (length a) (length b) (length c) h g

shorter-asymmetric : (a b : List ℕ) → shorter a b ≡ true → shorter b a ≡ false
shorter-asymmetric a b h = not_both (length a) (length b) h

shorter-behind : (k : List ℕ) → shorter k (behind k) ≡ true
shorter-behind [] = refl
shorter-behind (c ∷ cs) =
    lt→ltb (suc (length cs)) (suc (length (behind cs)))
      (omega (arith, ltb→lt (length cs) (length (behind cs)) (shorter-behind cs)))

get_next_queue_key_total_example :
    Answers one_item nobody (get_next_queue_key shorter nobody 2 one_item)
get_next_queue_key_total_example =
    get_next_queue_key_total one_item shorter nobody shorter-transitive shorter-asymmetric
      shorter-behind 2 (omega arith)

enqueue_lost_example :
    let t =
      finish_atomic (next_transaction before nobody 1 empty_queue).0 (enqueue 3 empty_queue).0 in
    (t ≡ empty_queue) × ((enqueue 4 t).1 ≡ (enqueue 3 empty_queue).1)
enqueue_lost_example = enqueue_lost before nobody 1 empty_queue 3 4 next_is_none
