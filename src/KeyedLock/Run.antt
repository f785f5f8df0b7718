-- ===== src/KeyedLock/Run.antt =====
-- What holds after any calls, continuations and settled operations in any order.
use fancy_kit.Common.{
  ℕ, ◌+◌, ◌<◌, arith, ◌≡◌, ◌↔◌, refl, sym, ap, ◌∙◌, subst, Bool, true, false, List, [], ◌∷◌, none,
  some, length, ltb, ◌==◌, ==_iff, if◌then◌else◌, Bool-cases, inl, inr, none-ne-some,
  some-injective,
}
use fancy_kit.Common.Maps.{map_get}
use fancy_kit.KeyedLock.{
  with_lock, proceeds, stops, locks, next_task, Locks, Status, waits, runs, ends, task, has_ended,
  Event, calls, continues, settles, step, run, no_locks,
}
use fancy_kit.KeyedLock.Order.{task-earlier, open_of, unfinished, earlier, Fine, Fine-earlier}
use fancy_kit.KeyedLock.Valid.{Valid}
use fancy_kit.KeyedLock.Steps.{settled-Valid}
use fancy_kit.KeyedLock.Programs.{Unnested, AllUnnested, with_lock-Valid, continued-Valid}
use fancy_kit.KeyedLock.Calls.{set_pushed}

-- An operation that was started, and perhaps has ended.
pub data Started : Status → Type 0 where
  running : Started runs
  ended : Started ends

module _ {K : Type 0} (same : K → K → Bool)
    (same_iff : (a b : K) → (same a b ≡ true) ↔ (a ≡ b)) where
  step-Valid :
      (e : Event K) (s : Locks K)
      → Unnested same e
      → Valid same same_iff s
      → Valid same same_iff (step same e s)
  step-Valid (calls k program) s a v = with_lock-Valid same same_iff k program s a v
  step-Valid (continues n program) s a v =
      continued-Valid same same_iff n program (task n s.tasks) s a v refl
  step-Valid (settles n) s a v = settled-Valid same same_iff n (task n s.tasks) s v refl

  run-Valid_from :
      (es : List (Event K)) (s : Locks K)
      → AllUnnested same es
      → Valid same same_iff s
      → Valid same same_iff (run same es s)
  run-Valid_from [] s a v = v
  run-Valid_from (e ∷ es) s (a, later) v =
      run-Valid_from es (step same e s) later (step-Valid e s a v)

  pub run-Valid :
      (es : List (Event K)) → AllUnnested same es → Valid same same_iff (run same es no_locks)
  run-Valid es a = run-Valid_from es no_locks a record {
    distinct_map = tt;
    distinct_count = tt;
    tracked = λ k p. refl;
    counted = λ k. refl;
    good = tt;
  }

pub none_of_test : (n : ℕ) → ltb 0 n ≡ false → n ≡ 0
none_of_test n h = ground arith

pub open_none : (status : Status) → open_of status ≡ 0 → status ≡ ends
open_none (waits m) h = absurd (omega (arith, h))
open_none runs h = absurd (omega (arith, h))
open_none ends h = refl

module _ {K : Type 0} where
  length-earlier :
      (n : ℕ) (t : K × Status) (ts : List (K × Status))
      → task n ts ≡ some t
      → length (earlier n ts) ≡ n
  length-earlier n t [] h = absurd (none-ne-some t h)
  length-earlier n t (u ∷ rest) h = elim (Bool-cases (n == length rest)) [
    | inl e ↦ rw e (sym ((==_iff n (length rest)).0 e))
    | inr e ↦ rw e (length-earlier n t rest (rw e at h))
  ]

module _ {K : Type 0} (same : K → K → Bool)
    (same_iff : (a b : K) → (same a b ≡ true) ↔ (a ≡ b)) where
  none_behind : (b : Bool) (x u : ℕ) → (if b then x + u else u) ≡ 0 → u ≡ 0
  none_behind true x u h = omega (arith, h)
  none_behind false x u h = h

  pub ended_of_none :
      (m : ℕ) (k : K) (status : Status) (ts : List (K × Status))
      → unfinished same k ts ≡ 0
      → task m ts ≡ some (k, status)
      → status ≡ ends
  ended_of_none m k status [] u h = absurd (none-ne-some (k, status) h)
  ended_of_none m k status ((key, now) ∷ rest) u h = elim (Bool-cases (m == length rest)) [
    | inl e ↦
        let p =
          some-injective (key, now) (k, status)
            (let x : some (key, now) ≡ some (k, status) = rw e at h in x) in
        let u' : unfinished same k ((k, status) ∷ rest) ≡ 0 =
          subst (λ t. unfinished same k ((t.0, t.1) ∷ rest) ≡ 0) p u in
        let w : open_of status + unfinished same k rest ≡ 0 = rw ((same_iff k k).1 refl) at u' in
        open_none status (omega (arith, w))
    | inr e ↦
        ended_of_none m k status rest
          (none_behind (same key k) (open_of now) (unfinished same k rest) u) (rw e at h)
  ]

  -- After any events in which no operation, before it first waits, calls withLock with the key of a call
  -- of withLock that is starting it, directly or within other calls: an operation has started only if every earlier call's operation for its key
  -- has ended. So operations of a key never overlap, and run in the order of the calls.
  pub run_in_order :
      (es : List (Event K)) (m n : ℕ) (k : K) (earlier_status status : Status)
      → AllUnnested same es
      → m < n
      → task m (run same es no_locks).tasks ≡ some (k, earlier_status)
      → task n (run same es no_locks).tasks ≡ some (k, status)
      → Started status
      → has_ended (task m (run same es no_locks).tasks) ≡ true
  run_in_order es m n k earlier_status status unnested lt hm hn started =
      let ts = (run same es no_locks).tasks in
      let none_open =
        started_first k status (earlier n ts) started
          (Fine-earlier same n k status ts (run-Valid same same_iff es unnested).good hn) in
      let len = length-earlier n (k, status) ts hn in
      let e =
        ended_of_none m k earlier_status (earlier n ts) none_open
          (sym (task-earlier m n ts (omega (arith, lt, len))) ∙ hm) in
      subst (λ t. has_ended t ≡ true) (sym hm) (ap (λ x. has_ended (some (k, x))) e)
    where
      started_first :
          (k : K) (status : Status) (rest : List (K × Status))
          → Started status
          → Fine same k status rest
          → unfinished same k rest ≡ 0
      started_first k (waits m) rest started f = elim started [ ]
      started_first k runs rest running f = f
      started_first k ends rest ended f = f

  -- An operation that calls withLock with its own key before it first waits, when the map has no promise
  -- for the key: the inner operation runs at once, beside the outer one.
  pub nested_runs :
      (k : K) (s : Locks K)
      → map_get same k s.serialized_map ≡ none
      → (with_lock same k (proceeds same (locks k (stops false) (stops false))) s).tasks
        ≡ (k, runs) ∷ (k, runs) ∷ s.tasks
  unfolding with_lock next_task
  nested_runs k s h =
      rw
        (h, set_pushed same same_iff k s.tasks, h, set_pushed same same_iff k ((k, runs) ∷ s.tasks))
        refl
