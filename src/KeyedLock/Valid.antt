-- ===== src/KeyedLock/Valid.antt =====
-- What every state of the locks has: its two maps agree with its tasks.
use fancy_kit.Common.{
  ℕ, ◌+◌, ◌-◌, ◌≤◌, arith, ◌≡◌, ◌≢◌, ◌↔◌, refl, sym, ap, ◌∙◌, subst, Bool, true, false, List,
  Option, none, some, ◌==◌, ==_iff, if◌then◌else◌, Bool-cases, inl, inr,
}
use fancy_kit.Common.Maps.{
  map_get, map_set, map_delete, Distinct, map_get-set_self, map_get-set_other, deleted_key,
  map_get-map_delete_other, Distinct-map_set, Distinct-map_delete,
}
use fancy_kit.KeyedLock.{Locks, Status, runs, ends, task, set_status, or_zero, release, end_task}
use fancy_kit.KeyedLock.Order.{open_of, last_of, unfinished, Good, last_of-set_status, Fine-earlier}
use fancy_kit.KeyedLock.Changes.{
  mark, unfinished-set_status, unfinished-set_status-le, Good-set_status,
}

module _ {K : Type 0} (same : K → K → Bool) where
  -- The map names the newest task of a key, and a key that it lacks has no open task.
  abbrev pub Tracked : K → List (K × Status) → Option ℕ → Type 0
  Tracked k ts none = unfinished same k ts ≡ 0
  Tracked k ts (some m) = last_of same k ts ≡ some m

  -- Those of the keys that are not this one.
  abbrev pub Without : K → (K → Type 0) → K → Type 0
  Without key P j = P j × (same key j ≡ false)

module _ {K : Type 0} (same : K → K → Bool)
    (same_iff : (a b : K) → (same a b ≡ true) ↔ (a ≡ b)) where
  -- The state is valid, but the map is trusted only on some keys.
  pub record ValidOn (P : K → Type 0) (s : Locks K) : Type 0 where
    pub distinct_map : Distinct same same_iff s.serialized_map
    pub distinct_count : Distinct same same_iff s.queue_count
    pub tracked : (k : K) → P k → Tracked same k s.tasks (map_get same k s.serialized_map)
    pub counted : (k : K) → or_zero (map_get same k s.queue_count) ≡ unfinished same k s.tasks
    pub good : Good same s.tasks

  abbrev pub Valid : Locks K → Type 0
  Valid s = ValidOn (λ k. Unit) s

  zero_mark : (b : Bool) → ◌≡◌ {A = ℕ} (if b then 0 else 0) 0
  zero_mark true = refl
  zero_mark false = refl

  pub other : (k j : K) → same k j ≡ false → j ≢ k
  other k j h e = let x : true ≡ false = sym ((same_iff k j).1 (sym e)) ∙ h in cc

  pub Tracked-set_status :
      (j : K) (n : ℕ) (k : K) (old status : Status) (ts : List (K × Status)) (o : Option ℕ)
      → task n ts ≡ some (k, old)
      → open_of status ≤ open_of old
      → Tracked same j ts o
      → Tracked same j (set_status n status ts) o
  Tracked-set_status j n k old status ts none h le t =
      omega (arith, t, unfinished-set_status-le same same_iff j n k old status ts h le)
  Tracked-set_status j n k old status ts (some m) h le t = last_of-set_status same j n status ts ∙ t

  module _ (P : K → Type 0) (n : ℕ) (k : K) (s : Locks K) (v : ValidOn P s)
      (h : task n s.tasks ≡ some (k, runs)) where
    one_less :
        (j : K)
        → unfinished same j s.tasks
          ≡ mark same same_iff k j 1 + unfinished same j (set_status n ends s.tasks)
    one_less j =
        omega (
          arith,
          unfinished-set_status same same_iff j n k runs ends s.tasks h,
          zero_mark (same k j),
        )

    count_less :
        or_zero (map_get same k s.queue_count) ≡ 1 + unfinished same k (set_status n ends s.tasks)
    count_less =
        let e : unfinished same k s.tasks ≡ 1 + unfinished same k (set_status n ends s.tasks) =
          rw ((same_iff k k).1 refl) at (one_less k) in
        v.counted k ∙ e

    same_count :
        (j : K)
        → same k j ≡ false
        → or_zero (map_get same j s.queue_count) ≡ unfinished same j (set_status n ends s.tasks)
    same_count j f =
        let e : unfinished same j s.tasks ≡ 0 + unfinished same j (set_status n ends s.tasks) =
          rw f at (one_less j) in
        omega (arith, v.counted j, e)

    none_left :
        ((or_zero (map_get same k s.queue_count) - 1) == 0) ≡ true
        → unfinished same k (set_status n ends s.tasks) ≡ 0
    none_left z =
        omega (arith, count_less, (==_iff (or_zero (map_get same k s.queue_count) - 1) 0).0 z)

    counted_deleted :
        ((or_zero (map_get same k s.queue_count) - 1) == 0) ≡ true
        → (j : K)
        → or_zero (map_get same j (map_delete same k s.queue_count))
          ≡ unfinished same j (set_status n ends s.tasks)
    counted_deleted z j = elim (Bool-cases (same k j)) [
      | inl t ↦
          subst
            (λ i.
              or_zero (map_get same i (map_delete same k s.queue_count))
              ≡ unfinished same i (set_status n ends s.tasks))
            ((same_iff k j).0 t)
            (ap or_zero (deleted_key same same_iff k s.queue_count v.distinct_count)
              ∙ sym (none_left z))
      | inr f ↦
          ap or_zero (map_get-map_delete_other same same_iff k j s.queue_count (other k j f))
          ∙ same_count j f
    ]

    counted_set :
        (j : K)
        → or_zero (
            map_get same j
              (map_set same k (or_zero (map_get same k s.queue_count) - 1) s.queue_count))
          ≡ unfinished same j (set_status n ends s.tasks)
    counted_set j =
        let c = or_zero (map_get same k s.queue_count) - 1 in
        elim (Bool-cases (same k j)) [
          | inl t ↦
              subst
                (λ i.
                  or_zero (map_get same i (map_set same k c s.queue_count))
                  ≡ unfinished same i (set_status n ends s.tasks))
                ((same_iff k j).0 t)
                (ap or_zero (map_get-set_self same same_iff k c s.queue_count)
                  ∙ omega (arith, count_less))
          | inr f ↦
              ap or_zero (map_get-set_other same same_iff k j c s.queue_count (other k j f))
              ∙ same_count j f
        ]

    Tracked-kept :
        (j : K) → P j → Tracked same j (set_status n ends s.tasks) (map_get same j s.serialized_map)
    Tracked-kept j p =
        Tracked-set_status j n k runs ends s.tasks (map_get same j s.serialized_map) h (omega arith)
          (v.tracked j p)

    Tracked-deleted :
        ((or_zero (map_get same k s.queue_count) - 1) == 0) ≡ true
        → (j : K) → P j
        → Tracked same j
            (set_status n ends s.tasks)
            (map_get same j (map_delete same k s.serialized_map))
    Tracked-deleted z j p = elim (Bool-cases (same k j)) [
      | inl t ↦
          subst
            (λ i.
              Tracked same i (set_status n ends s.tasks)
                (map_get same i (map_delete same k s.serialized_map)))
            ((same_iff k j).0 t)
            (rw (deleted_key same same_iff k s.serialized_map v.distinct_map) (none_left z))
      | inr f ↦
          rw (map_get-map_delete_other same same_iff k j s.serialized_map (other k j f))
            (Tracked-kept j p)
    ]

    pub end_task-ValidOn : ValidOn P (end_task same n k s)
    unfolding end_task release
    end_task-ValidOn =
        let good =
          Good-set_status same same_iff n k runs ends s.tasks h
            (Fine-earlier same n k runs s.tasks v.good h) (omega arith) v.good in
        elim (Bool-cases ((or_zero (map_get same k s.queue_count) - 1) == 0)) [
          | inl z ↦ rw z record {
            distinct_map = Distinct-map_delete same same_iff k s.serialized_map v.distinct_map;
            distinct_count = Distinct-map_delete same same_iff k s.queue_count v.distinct_count;
            tracked = Tracked-deleted z;
            counted = counted_deleted z;
            good = good;
          }
          | inr z ↦ rw z record {
            distinct_map = v.distinct_map;
            distinct_count =
                Distinct-map_set same same_iff k (or_zero (map_get same k s.queue_count) - 1)
                  s.queue_count v.distinct_count;
            tracked = Tracked-kept;
            counted = counted_set;
            good = good;
          }
        ]
