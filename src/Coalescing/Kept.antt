-- ===== src/Coalescing/Kept.antt =====
-- No update is lost, and none waits without a timer.
use fancy_kit.Common.{or_right}
use fancy_kit.Common.{
  ℕ, ◌+◌, ◌<◌, ◌≡◌, refl, sym, ap, ◌∙◌, subst, false, not, ◌&&◌, ◌||◌, List, [], ◌∷◌, Option, none,
  some, if_cases, arith, none-ne-some, some-injective,
}
use fancy_kit.Deferred
use fancy_kit.Deferred.{Deferred, Pending, nothing, registers, is_current, fire, schedule}
use fancy_kit.Deferred.Timer.{cancel-idle, schedule-waits, fire-idle}
use fancy_kit.Coalescing.{
  Coalescing, cancel_timer, schedule_timer, flush_in, flush, reached, wait, is_pending,
  settle_update, update, timeout_in, timeout,
}

-- A timer in use, with nothing pending or with something.
abbrev pub Idle : Option Deferred → Type 0
Idle t = (d : Deferred) × (t ≡ some d) × (d.disposed ≡ false) × (d.pending ≡ none)

abbrev pub Waits : Option Deferred → Type 0
Waits t =
    (d : Deferred) × (t ≡ some d) × (d.disposed ≡ false) × ((p : Pending) × (d.pending ≡ some p))

abbrev pub first {ℓ} : {T : Type ℓ} → List T → Option T
first [] = none
first (x ∷ xs) = some x

module _ {ℓ} {T : Type ℓ} where
  -- With a waiting limit, a timer runs exactly when a value is pending.
  abbrev pub Timed : Option ℕ → Option (T × ℕ) → Option Deferred → Type 0
  Timed none p t = t ≡ none
  Timed (some w) none t = Idle t
  Timed (some w) (some p) t = Waits t

  -- The newest update is pending, or it was the last to be delivered.
  abbrev pub Latest : Option (T × ℕ) → List T → List T → Type ℓ
  Latest none notified updates = first updates ≡ first notified
  Latest (some (value, count)) notified updates = first updates ≡ some value

  -- A pending count is below the threshold.
  abbrev pub Below : Option ℕ → Option (T × ℕ) → ℕ → Type 0
  Below (some every_count) (some (value, count)) last = count < last + every_count
  Below _ _ last = Unit

  -- A notifier that is not disposed of, after these updates, newest first.
  pub record Kept (s : Coalescing T) (updates : List T) : Type ℓ where
    pub live : s.disposed ≡ false
    pub timed : Timed s.options.max_wait_ms s.pending s.timer
    pub latest : Latest s.pending s.notified updates
    pub below : Below s.options.every_count s.pending s.last_notified_count

  cancel_timer-Idle :
      (w : Option ℕ) (p : Option (T × ℕ)) (t : Option Deferred)
      → Timed w p t
      → Timed w none (cancel_timer t)
  cancel_timer-Idle none p t e = ap cancel_timer e
  cancel_timer-Idle (some w) none t (d, e, l, n) =
      let (k, i) = cancel-idle d l in ((Deferred.cancel (λ _. false) d).0, ap cancel_timer e, k, i)
  cancel_timer-Idle (some w) (some p) t (d, e, l, n) =
      let (k, i) = cancel-idle d l in ((Deferred.cancel (λ _. false) d).0, ap cancel_timer e, k, i)

  pub Below-none : (s : Coalescing T) (e : Option ℕ) (n : ℕ) → Below e none n
  Below-none s none n = tt
  Below-none s (some e) n = tt

  -- `flush` of a state whose timer may be about to be started.
  flush_in-Kept :
      (s : Coalescing T) (updates : List T) (p : Option (T × ℕ)) (q : Option (T × ℕ))
      → s.pending ≡ p
      → s.disposed ≡ false
      → Timed s.options.max_wait_ms q s.timer
      → (p ≡ none → Timed s.options.max_wait_ms none s.timer)
      → Latest p s.notified updates
      → Kept (flush_in p s) updates
  flush_in-Kept s us none q e l t n a = record {
    live = l;
    timed = subst (λ p. Timed s.options.max_wait_ms p s.timer) (sym e) (n refl);
    latest = subst (λ p. Latest p s.notified us) (sym e) a;
    below =
        subst (λ p. Below s.options.every_count p s.last_notified_count) (sym e)
          (Below-none s s.options.every_count _);
  }
  flush_in-Kept s us (some (v, c)) q e l t n a = record {
    live = l;
    timed = cancel_timer-Idle s.options.max_wait_ms q s.timer t;
    latest = a;
    below = Below-none s s.options.every_count _;
  }

  reached-Below : (e : Option ℕ) (x : T) (c n : ℕ) → reached e c n ≡ false → Below e (some (x, c)) n
  reached-Below none x c n h = tt
  reached-Below (some e) x c n h = ground arith

  Kept-of :
      (w : Option ℕ) (x : T) (c : ℕ) (s : Coalescing T) (updates : List T)
      → s.options.max_wait_ms ≡ w
      → s.pending ≡ some (x, c)
      → s.disposed ≡ false
      → Timed w (some (x, c)) s.timer
      → Below s.options.every_count (some (x, c)) s.last_notified_count
      → Kept s (x ∷ updates)
  Kept-of w x c s us m p l t b = record {
    live = l;
    timed =
        subst (λ w. Timed w s.pending s.timer) (sym m) (subst (λ p. Timed w p s.timer) (sym p) t);
    latest = subst (λ p. Latest p s.notified (x ∷ us)) (sym p) refl;
    below = subst (λ p. Below s.options.every_count p s.last_notified_count) (sym p) b;
  }

  wait-Kept :
      (r : ℕ) (w : Option ℕ) (old : Option (T × ℕ)) (x : T) (c : ℕ) (s : Coalescing T)
      (updates : List T)
      → s.options.max_wait_ms ≡ w
      → s.pending ≡ some (x, c)
      → s.disposed ≡ false
      → Timed w old s.timer
      → Below s.options.every_count (some (x, c)) s.last_notified_count
      → Kept (wait r w (is_pending old) s) (x ∷ updates)
  wait-Kept r none none x c s us m p l t b = Kept-of none x c s us m p l t b
  wait-Kept r none (some q) x c s us m p l t b = Kept-of none x c s us m p l t b
  wait-Kept r (some w) (some q) x c s us m p l t b = Kept-of (some w) x c s us m p l t b
  wait-Kept r (some w) none x c s us m p l (d, e, i, n) b =
      let (k, f) = schedule-waits w r d i in
      Kept-of (some w) x c _ us m p l
        ((schedule (λ _. false) w nothing (registers r) d).0, ap (schedule_timer r w) e, k, f) b

  settle-Kept :
      (r : ℕ) (old : Option (T × ℕ)) (x : T) (c : ℕ) (s : Coalescing T) (updates : List T)
      → s.pending ≡ some (x, c)
      → s.disposed ≡ false
      → Timed s.options.max_wait_ms old s.timer
      → Kept (settle_update r (is_pending old) c s) (x ∷ updates)
  unfolding settle_update flush
  settle-Kept r old x c s us p l t =
      if_cases (λ (z : Coalescing T). Kept z (x ∷ us))
        ((s.options.leading && not s.has_notified)
          || reached s.options.every_count c s.last_notified_count)
        (λ _.
          if_cases (λ (z : Coalescing T). Kept z (x ∷ us)) s.disposed (λ e. cc)
            (λ _.
              flush_in-Kept s (x ∷ us) s.pending old refl l t
                (λ n. absurd (none-ne-some _ (sym n ∙ p)))
                (subst (λ p. Latest p s.notified (x ∷ us)) (sym p) refl)))
        λ n.
          wait-Kept r s.options.max_wait_ms old x c s us refl p l t
            (reached-Below s.options.every_count x c s.last_notified_count (or_right _ _ n))

  pub update-Kept :
      (r : ℕ) (value : T) (s : Coalescing T) (updates : List T)
      → Kept s updates
      → Kept (update r value s) (value ∷ updates)
  unfolding update
  update-Kept r value s us k =
      if_cases (λ (z : Coalescing T). Kept z (value ∷ us)) s.disposed
        (λ e. absurd (let l = k.live in cc))
        λ _. settle-Kept r s.pending value _ _ us refl k.live k.timed

  pub flush-Kept : (s : Coalescing T) (updates : List T) → Kept s updates → Kept (flush s) updates
  unfolding flush
  flush-Kept s us k =
      if_cases (λ (z : Coalescing T). Kept z us) s.disposed (λ _. k)
        λ _.
          flush_in-Kept s us s.pending s.pending refl k.live k.timed
            (λ e. subst (λ p. Timed s.options.max_wait_ms p s.timer) e k.timed) k.latest

  timer_live :
      (w : ℕ) (p : Option (T × ℕ)) (t : Option Deferred) (d : Deferred)
      → Timed (some w) p t
      → t ≡ some d
      → d.disposed ≡ false
  timer_live w none t d (d', e', l, n) e =
      ap (λ d. d.disposed) (sym (some-injective _ _ (sym e' ∙ e))) ∙ l
  timer_live w (some p) t d (d', e', l, n) e =
      ap (λ d. d.disposed) (sym (some-injective _ _ (sym e' ∙ e))) ∙ l

  timeout_in-Kept :
      (id : ℕ) (w : Option ℕ) (t : Option Deferred) (s : Coalescing T) (updates : List T)
      → s.options.max_wait_ms ≡ w
      → s.timer ≡ t
      → Kept s updates
      → Kept (timeout_in id t s) updates
  unfolding flush
  timeout_in-Kept id w none s us m e k = k
  timeout_in-Kept id none (some d) s us m e k =
      absurd (none-ne-some _ (sym (subst (λ w. Timed w s.pending s.timer) m k.timed) ∙ e))
  timeout_in-Kept id (some w) (some d) s us m e k =
      let l =
        timer_live w s.pending s.timer d (subst (λ w. Timed w s.pending s.timer) m k.timed) e in
      if_cases (λ (z : Coalescing T). Kept z us) (is_current id d.pending)
        (λ c.
          let (f, g) = fire-idle id d l c in
          let idle = subst (λ w. Timed w none (some (fire id d))) (sym m) (fire id d, refl, f, g) in
          if_cases (λ (z : Coalescing T). Kept z us) s.disposed (λ e. absurd (let l = k.live in cc))
            λ _.
              flush_in-Kept (record s { timer = some (fire id d) }) us s.pending none refl k.live
                idle (λ _. idle) k.latest)
        λ _. k

  pub timeout-Kept :
      (id : ℕ) (s : Coalescing T) (updates : List T) → Kept s updates → Kept (timeout id s) updates
  unfolding timeout
  timeout-Kept id s us k = timeout_in-Kept id s.options.max_wait_ms s.timer s us refl refl k
