-- ===== src/KeyedLock/Progress.antt =====
-- How a key that is locked goes on.
use fancy_kit.Common.{
  ℕ, ◌+◌, ◌<◌, arith, ◌≡◌, ◌⊎◌, ◌↔◌, refl, sym, ◌∙◌, subst, Bool, true, false, List, [], ◌∷◌, some,
  length, ltb, ltb→lt, Bool-cases, Option-cases, inl, inr, none-ne-some, some-injective,
}
use fancy_kit.Common.Maps.{map_get}
use fancy_kit.KeyedLock.{
  Status, waits, runs, ends, task, has_ended, or_zero, is_lock_acquired, Event, run, no_locks,
}
use fancy_kit.KeyedLock.Order.{open_of, last_of, unfinished, Fine, Good}
use fancy_kit.KeyedLock.Run.{run-Valid, open_none, none_of_test, ended_of_none}
use fancy_kit.KeyedLock.Steps.{task_later}
use fancy_kit.KeyedLock.Programs.{AllUnnested}
use fancy_kit.KeyedLock.Calls.{task_pushed}

module _ {K : Type 0} (same : K → K → Bool)
    (same_iff : (a b : K) → (same a b ≡ true) ↔ (a ≡ b)) where
  -- A task of the key that runs, or waits for one that has ended.
  abbrev pub CanProceed : K → List (K × Status) → Type 0
  CanProceed k ts =
      (n : ℕ) × ((task n ts ≡ some (k, runs))
        ⊎ ((m : ℕ) × (task n ts ≡ some (k, waits m)) × (has_ended (task m ts) ≡ true)))

  ended_later :
      (m : ℕ) (u : K × Status) (rest : List (K × Status))
      → has_ended (task m rest) ≡ true
      → has_ended (task m (u ∷ rest)) ≡ true
  ended_later m u rest e = elim (Option-cases (task m rest)) [
    | inl n ↦ let x : false ≡ true = rw n at e in cc
    | inr (t, h) ↦ subst (λ o. has_ended o ≡ true) (h ∙ sym (task_later m t u rest h)) e
  ]

  proceeds_later :
      (k : K) (u : K × Status) (rest : List (K × Status))
      → CanProceed k rest
      → CanProceed k (u ∷ rest)
  proceeds_later k u rest (n, inl h) = (n, inl (task_later n (k, runs) u rest h))
  proceeds_later k u rest (n, inr (m, h, e)) =
      (n, inr (m, task_later n (k, waits m) u rest h, ended_later m u rest e))

  last_ended :
      (k : K) (m : ℕ) (ts : List (K × Status))
      → last_of same k ts ≡ some m
      → unfinished same k ts ≡ 0
      → has_ended (task m ts) ≡ true
  last_ended k m [] h u = absurd (none-ne-some m h)
  last_ended k m ((key, now) ∷ rest) h u = elim (Bool-cases (same key k)) [
    | inl t ↦
        let e =
          some-injective (length rest) m (let x : some (length rest) ≡ some m = rw t at h in x) in
        let w : open_of now + unfinished same k rest ≡ 0 = rw t at u in
        subst (λ i. has_ended (task i ((key, now) ∷ rest)) ≡ true) e
          (rw (task_pushed same same_iff (key, now) rest, open_none now (omega (arith, w))) refl)
    | inr t ↦ ended_later m (key, now) rest (last_ended k m rest (rw t at h) (rw t at u))
  ]

  proceeds_first :
      (k : K) (now : Status) (rest : List (K × Status))
      → Fine same k now rest
      → 0 < open_of now + unfinished same k rest
      → (0 < unfinished same k rest → CanProceed k rest)
      → CanProceed k ((k, now) ∷ rest)
  proceeds_first k runs rest f h further =
      (length rest, inl (task_pushed same same_iff (k, runs) rest))
  proceeds_first k ends rest f h further = absurd (omega (arith, f, h))
  proceeds_first k (waits m) rest f h further = elim (Bool-cases (ltb 0 (unfinished same k rest))) [
    | inl l ↦ proceeds_later k (k, waits m) rest (further (ltb→lt 0 (unfinished same k rest) l))
    | inr l ↦ (
      length rest,
      inr (
        m,
        task_pushed same same_iff (k, waits m) rest,
        ended_later m (k, waits m) rest
            (last_ended k m rest f (none_of_test (unfinished same k rest) l)),
      ),
    )
  ]

  proceeds_in :
      (k : K) (ts : List (K × Status)) → Good same ts → 0 < unfinished same k ts → CanProceed k ts
  proceeds_in k [] g h = absurd (omega (arith, h))
  proceeds_in k ((key, now) ∷ rest) (f, g) h = elim (Bool-cases (same key k)) [
    | inl t ↦
        let e = (same_iff key k).0 t in
        let h' : 0 < open_of now + unfinished same k rest = rw t at h in
        subst (λ j. CanProceed k ((j, now) ∷ rest)) (sym e)
          (proceeds_first k now rest (subst (λ j. Fine same j now rest) e f) h'
            (proceeds_in k rest g))
    | inr t ↦ proceeds_later k (key, now) rest (proceeds_in k rest g (rw t at h))
  ]

  -- After any events in which no operation, before it first waits, calls withLock with the key of a call
  -- of withLock that is starting it, directly or within other calls: if `isLockAcquired` holds of a key, some operation of the key runs or can be
  -- started, since the one that it waits for has ended; if it does not hold, all operations of the key
  -- have ended.
  pub run_proceeds :
      (es : List (Event K)) (k : K)
      → AllUnnested same es
      → let s = run same es no_locks in
        (is_lock_acquired same k s ≡ true → CanProceed k s.tasks)
        × ((n : ℕ) (status : Status)
            → task n s.tasks ≡ some (k, status)
            → is_lock_acquired same k s ≡ false
            → status ≡ ends)
  unfolding is_lock_acquired
  run_proceeds es k unnested =
      let s = run same es no_locks in
      let v = run-Valid same same_iff es unnested in
      (
        λ h. proceeds_in k s.tasks v.good (
            subst (λ n. 0 < n) (v.counted k) (ltb→lt 0 (or_zero (map_get same k s.queue_count)) h)),
        λ n status h f.
            ended_of_none same same_iff n k status s.tasks
              (sym (v.counted k) ∙ none_of_test (or_zero (map_get same k s.queue_count)) f) h,
      )
