-- ===== src/KeyedLock/Steps.antt =====
-- The start and the end of a task, the maps and the tasks.
use fancy_kit.Common.{
  ℕ, ◌-◌, ◌<◌, arith, ◌≡◌, ==_iff, ◌↔◌, refl, ap, Bool, true, false, List, [], ◌∷◌, Option, none,
  some, length, ◌==◌, if◌then◌else◌, if_cases, Bool-cases, inl, inr, none-ne-some, some-injective,
}
use fancy_kit.Common.Maps.{map_get}
use fancy_kit.KeyedLock.{
  Locks, Status, waits, runs, ends, task, set_status, has_ended, or_zero, release, end_task,
  settled,
}
use fancy_kit.KeyedLock.Order.{
  length-set_status, not_last, task_below, earlier, last_of_below, task-earlier, Fine-earlier,
  Good-earlier,
}
use fancy_kit.KeyedLock.Changes.{all_ended, unfinished-set_status, Good-set_status}
use fancy_kit.KeyedLock.Valid.{ValidOn, Valid, Tracked-set_status, end_task-ValidOn}

module _ {K : Type 0} where
  pub task-set_status :
      (n : ℕ) (k : K) (old status : Status) (ts : List (K × Status))
      → task n ts ≡ some (k, old)
      → task n (set_status n status ts) ≡ some (k, status)
  task-set_status n k old status [] h = absurd (none-ne-some (k, old) h)
  task-set_status n k old status ((key, now) ∷ rest) h = elim (Bool-cases (n == length rest)) [
    | inl e ↦
        let x : some (key, now) ≡ some (k, old) = rw e at h in
        rw e (rw e (ap (λ t. some (t.0, status)) (some-injective (key, now) (k, old) x)))
    | inr e ↦
        rw e (
          rw (length-set_status n status rest, e) (task-set_status n k old status rest (rw e at h)))
  ]

  pub task_later :
      (n : ℕ) (t u : K × Status) (rest : List (K × Status))
      → task n rest ≡ some t
      → task n (u ∷ rest) ≡ some t
  task_later n t u rest h = rw (not_last n (length rest) (task_below n t rest h)) h

  pub task-set_status_other :
      (n m : ℕ) (status : Status) (t : K × Status) (ts : List (K × Status))
      → m < n
      → task m ts ≡ some t
      → task m (set_status n status ts) ≡ some t
  task-set_status_other n m status t [] l h = h
  task-set_status_other n m status t ((key, now) ∷ rest) l h =
      elim (Bool-cases (n == length rest)) [
        | inl e ↦
            let below : (m == length rest) ≡ false =
              not_last m (length rest) (omega (arith, (==_iff n (length rest)).0 e, l)) in
            let h' : task m rest ≡ some t = rw below at h in rw e (rw below h')
        | inr e ↦ elim (Bool-cases (m == length rest)) [
          | inl x ↦
              let h' : some (key, now) ≡ some t = rw x at h in
              rw e (rw (length-set_status n status rest, x) h')
          | inr x ↦
              let h' : task m rest ≡ some t = rw x at h in
              rw e (
                rw (length-set_status n status rest, x)
                  (task-set_status_other n m status t rest l h'))
        ]
      ]

module _ {K : Type 0} (same : K → K → Bool)
    (same_iff : (a b : K) → (same a b ≡ true) ↔ (a ≡ b)) where
  pub begun-ValidOn :
      (P : K → Type 0) (n : ℕ) (k : K) (throws : Bool) (s : Locks K)
      → ValidOn same same_iff P s
      → task n s.tasks ≡ some (k, runs)
      → ValidOn same same_iff P (if throws then end_task same n k s else s)
  begun-ValidOn P n k throws s v h =
      if_cases (ValidOn same same_iff P) throws (λ _. end_task-ValidOn same same_iff P n k s v h)
        λ _. v

  pub started-Valid :
      (n : ℕ) (k : K) (prev : ℕ) (s : Locks K)
      → Valid same same_iff s
      → task n s.tasks ≡ some (k, waits prev)
      → has_ended (task prev s.tasks) ≡ true
      → Valid same same_iff (record s { tasks = set_status n runs s.tasks })
  started-Valid n k prev s v h e =
      let f = Fine-earlier same n k (waits prev) s.tasks v.good h in
      let below = last_of_below same k prev (earlier n s.tasks) f in
      let ended : has_ended (task prev (earlier n s.tasks)) ≡ true =
        rw (task-earlier prev n s.tasks below) at e in
      let free =
        all_ended same same_iff k prev (earlier n s.tasks) (Good-earlier same n s.tasks v.good) f
          ended in
      record {
        distinct_map = v.distinct_map;
        distinct_count = v.distinct_count;
        tracked = λ j p.
            Tracked-set_status same same_iff j n k (waits prev) runs s.tasks
              (map_get same j s.serialized_map) h (omega arith) (v.tracked j p);
        counted = λ j. omega (
          arith,
          v.counted j,
          unfinished-set_status same same_iff j n k (waits prev) runs s.tasks h,
        );
        good =
            Good-set_status same same_iff n k (waits prev) runs s.tasks h free (omega arith) v.good;
      }

  pub end_task-tasks :
      (n : ℕ) (k : K) (s : Locks K) → (end_task same n k s).tasks ≡ set_status n ends s.tasks
  unfolding end_task release
  end_task-tasks n k s =
      if_cases (λ (t : Locks K). t.tasks ≡ set_status n ends s.tasks)
        ((or_zero (map_get same k s.queue_count) - 1) == 0) (λ _. refl) λ _. refl

  pub settled-Valid :
      (n : ℕ) (t : Option (K × Status)) (s : Locks K)
      → Valid same same_iff s
      → task n s.tasks ≡ t
      → Valid same same_iff (settled same n t s)
  settled-Valid n none s v h = v
  settled-Valid n (some (k, runs)) s v h = end_task-ValidOn same same_iff (λ j. Unit) n k s v h
  settled-Valid n (some (k, ends)) s v h = v
  settled-Valid n (some (k, waits prev)) s v h = v
