-- ===== src/KeyedLock/Calls.antt =====
-- A call of withLock, the maps and the tasks.
use fancy_kit.Common.{
  ℕ, ◌+◌, ◌<◌, sym, arith, ◌≡◌, ◌↔◌, refl, ◌∙◌, subst, Bool, true, false, List, ◌∷◌, Option, none,
  some, length, ==_iff, if◌then◌else◌, if_cases, Bool-cases, Option-cases, inl, inr,
}
use fancy_kit.Common.Maps.{map_get, map_set, map_get-set_self, map_get-set_other, Distinct-map_set}
use fancy_kit.KeyedLock.{
  Locks, Status, waits, runs, ends, task, set_status, or_zero, begun, end_task, next_task,
  with_lock,
}
use fancy_kit.KeyedLock.Order.{open_of, last_of, unfinished, Fine, last_of-set_status, task_below}
use fancy_kit.KeyedLock.Valid.{Tracked, ValidOn, Without, other}
use fancy_kit.KeyedLock.Steps.{begun-ValidOn, end_task-tasks, task_later, task-set_status_other}

module _ {K : Type 0} (same : K → K → Bool)
    (same_iff : (a b : K) → (same a b ≡ true) ↔ (a ≡ b)) where
  -- The state of a call before its operation begins.
  abbrev called : K → Status → Locks K → Locks K
  called k status s = record s {
    queue_count = map_set same k (or_zero (map_get same k s.queue_count) + 1) s.queue_count;
    tasks = (k, status) ∷ s.tasks;
  }

  pushed-Tracked :
      (k j : K) (status : Status) (ts : List (K × Status)) (o : Option ℕ)
      → same k j ≡ false
      → Tracked same j ts o
      → Tracked same j ((k, status) ∷ ts) o
  pushed-Tracked k j status ts none e t = rw e t
  pushed-Tracked k j status ts (some m) e t = rw e t

  called_count :
      (P : K → Type 0) (k j : K) (status : Status) (s : Locks K)
      → ValidOn same same_iff P s
      → open_of status ≡ 1
      → or_zero (map_get same j (called k status s).queue_count)
        ≡ unfinished same j ((k, status) ∷ s.tasks)
  called_count P k j status s v o =
      let c = or_zero (map_get same k s.queue_count) + 1 in
      elim (Bool-cases (same k j)) [
        | inl t ↦
            subst
              (λ i.
                or_zero (map_get same i (map_set same k c s.queue_count))
                ≡ unfinished same i ((k, status) ∷ s.tasks))
              ((same_iff k j).0 t)
              (rw (map_get-set_self same same_iff k c s.queue_count, (same_iff k k).1 refl, o)
                (omega (arith, v.counted k)))
        | inr e ↦
            rw (map_get-set_other same same_iff k j c s.queue_count (other same same_iff k j e), e)
              (v.counted j)
      ]

  called-ValidOn :
      (P : K → Type 0) (k : K) (status : Status) (s : Locks K)
      → ValidOn same same_iff P s
      → open_of status ≡ 1
      → Fine same k status s.tasks
      → ValidOn same same_iff (Without same k P) (called k status s)
  called-ValidOn P k status s v o f = record {
    distinct_map = v.distinct_map;
    distinct_count =
        Distinct-map_set same same_iff k (or_zero (map_get same k s.queue_count) + 1) s.queue_count
          v.distinct_count;
    tracked = λ j (p, e).
        pushed-Tracked k j status s.tasks (map_get same j s.serialized_map) e (v.tracked j p);
    counted = λ j. called_count P k j status s v o;
    good = (f, v.good);
  }

  newest-ValidOn :
      (P : K → Type 0) (k : K) (n : ℕ) (t : Locks K)
      → ValidOn same same_iff (Without same k P) t
      → last_of same k t.tasks ≡ some n
      → ValidOn same same_iff P (record t { serialized_map = map_set same k n t.serialized_map })
  newest-ValidOn P k n t v h = record {
    distinct_map = Distinct-map_set same same_iff k n t.serialized_map v.distinct_map;
    distinct_count = v.distinct_count;
    tracked = λ j p. elim (Bool-cases (same k j)) [
      | inl e ↦
          subst (λ i. Tracked same i t.tasks (map_get same i (map_set same k n t.serialized_map)))
            ((same_iff k j).0 e) (rw (map_get-set_self same same_iff k n t.serialized_map) h)
      | inr e ↦
          rw (map_get-set_other same same_iff k j n t.serialized_map (other same same_iff k j e))
            (v.tracked j (p, e))
    ];
    counted = v.counted;
    good = v.good;
  }

  last_pushed :
      (k : K) (status : Status) (ts : List (K × Status))
      → last_of same k ((k, status) ∷ ts) ≡ some (length ts)
  last_pushed k status ts = rw ((same_iff k k).1 refl) refl

  pub task_pushed : (t : K × Status) (ts : List (K × Status)) → task (length ts) (t ∷ ts) ≡ some t
  task_pushed t ts = rw ((==_iff (length ts) (length ts)).1 refl) refl

  pub set_pushed :
      (k : K) (ts : List (K × Status))
      → set_status (length ts) runs ((k, runs) ∷ ts) ≡ (k, runs) ∷ ts
  set_pushed k ts = rw ((==_iff (length ts) (length ts)).1 refl) refl

  last_begun :
      (j k : K) (throws : Bool) (t : Locks K) (n : ℕ)
      → last_of same j (if throws then end_task same n k t else t).tasks ≡ last_of same j t.tasks
  last_begun j k throws t n =
      if_cases (λ (u : Locks K). last_of same j u.tasks ≡ last_of same j t.tasks) throws
        (λ _. rw (end_task-tasks same same_iff n k t) (last_of-set_status same j n ends t.tasks))
        λ _. refl

  begun_stays :
      (m n : ℕ) (k : K) (throws : Bool) (t : Locks K) (x : K × Status)
      → m < n
      → task m t.tasks ≡ some x
      → task m (if throws then end_task same n k t else t).tasks ≡ some x
  begun_stays m n k throws t x l h =
      if_cases (λ (u : Locks K). task m u.tasks ≡ some x) throws
        (λ _.
          rw (end_task-tasks same same_iff n k t) (task-set_status_other n m ends x t.tasks l h))
        λ _. h

  -- The state is valid on the keys, and against an earlier state no task has changed and the keys
  -- that are not trusted have no task more.
  pub record Keeps (P : K → Type 0) (s t : Locks K) : Type 0 where
    pub valid : ValidOn same same_iff P t
    pub stays : (n : ℕ) (x : K × Status) → task n s.tasks ≡ some x → task n t.tasks ≡ some x
    pub last : (j : K) → ¬ P j → last_of same j t.tasks ≡ last_of same j s.tasks

  module _ (P : K → Type 0) (k : K) (s : Locks K) (p : P k) where
    apart : (j : K) → ¬ P j → same k j ≡ false
    apart j d = elim (Bool-cases (same k j)) [
      | inl t ↦ absurd (d (subst P ((same_iff k j).0 t) p))
      | inr e ↦ e
    ]

    own : ¬ Without same k P k
    own (q, e) = let t : true ≡ false = sym ((same_iff k k).1 refl) ∙ e in cc

    finished-Keeps :
        (r : Locks K × Bool)
        → Keeps (Without same k P) (called k runs s) r.0
        → let t = begun same (length s.tasks) k r in
          Keeps P s (record t { serialized_map = map_set same k (length s.tasks) t.serialized_map })
    finished-Keeps (u, throws) kept =
        let n = length s.tasks in
        let t = if throws then end_task same n k u else u in
        let newest = last_begun k k throws u n ∙ kept.last k own ∙ last_pushed k runs s.tasks in
        record {
          valid =
              newest-ValidOn P k n t
                (begun-ValidOn same same_iff (Without same k P) n k throws u kept.valid
                  (kept.stays n (k, runs) (task_pushed (k, runs) s.tasks)))
                newest;
          stays = λ m x h.
              begun_stays m n k throws u x (task_below m x s.tasks h)
                (kept.stays m x (task_later m x (k, runs) s.tasks h));
          last =
              λ j d. last_begun j k throws u n ∙ kept.last j (λ (q, e). d q) ∙ rw (apart j d) refl;
        }

    waiting-Keeps :
        (m : ℕ)
        → ValidOn same same_iff P s
        → last_of same k s.tasks ≡ some m
        → let t = called k (waits m) s in
          Keeps P s (record t { serialized_map = map_set same k (length s.tasks) t.serialized_map })
    waiting-Keeps m v h = record {
      valid =
          newest-ValidOn P k (length s.tasks) (called k (waits m) s)
            (called-ValidOn P k (waits m) s v refl h) (last_pushed k (waits m) s.tasks);
      stays = λ n x e. task_later n x (k, waits m) s.tasks e;
      last = λ j d. rw (apart j d) refl;
    }

    -- A call of withLock keeps the locks, if the operation, started at once, does.
    pub with_lock-Keeps :
        (proc : Locks K → Locks K × Bool)
        → ValidOn same same_iff P s
        → ((u : Locks K)
            → ValidOn same same_iff (Without same k P) u
            → Keeps (Without same k P) u (proc u).0)
        → Keeps P s (with_lock same k proc s)
    unfolding with_lock next_task
    with_lock-Keeps proc v keeps = elim (Option-cases (map_get same k s.serialized_map)) [
      | inl e ↦
          let free : unfinished same k s.tasks ≡ 0 = rw e at (v.tracked k p) in
          let t = called k runs s in
          rw (e, set_pushed k s.tasks)
            (finished-Keeps (proc t) (keeps t (called-ValidOn P k runs s v refl free)))
      | inr (m, e) ↦
          let last : last_of same k s.tasks ≡ some m = rw e at (v.tracked k p) in
          rw e (waiting-Keeps m v last)
    ]
