-- ===== src/Coalescing/Run.antt =====
-- Sequences of calls of the notifier.
use fancy_kit.Common.{
  ℕ, ◌≡◌, refl, subst, true, false, not, ◌&&◌, ◌||◌, List, [], ◌∷◌, Option, none, some, if_cases,
  ◌==◌,
}
use fancy_kit.Deferred
use fancy_kit.Deferred.{Deferred, Pending, nothing, registers, is_current, fire, schedule}
use fancy_kit.Deferred.Timer.{create-idle}
use fancy_kit.Coalescing.{
  Options, Coalescing, Created, created, create_notifier, new, new_timer, checked, flush, reached,
  settle_update, counted, update, timeout,
}
use fancy_kit.Coalescing.Kept.{Timed, Kept, update-Kept, flush-Kept, timeout-Kept, Below-none}

pub data Call {ℓ} (T : Type ℓ) : Type ℓ where
  -- The number of the registration that a new timer would get.
  calls_update : ℕ → T → Call T
  flushes : Call T
  times_out : ℕ → Call T

module _ {ℓ} {T : Type ℓ} where
  unfoldable pub step : Coalescing T → Call T → Coalescing T
  step s (calls_update r value) = update r value s
  step s flushes = flush s
  step s (times_out id) = timeout id s

  abbrev pub recorded : List T → Call T → List T
  recorded us (calls_update r value) = value ∷ us
  recorded us flushes = us
  recorded us (times_out id) = us

  -- The notifier after the calls, and the updates among them, newest first.
  unfoldable pub run : Coalescing T → List T → List (Call T) → Coalescing T × List T
  run s us [] = (s, us)
  run s us (c ∷ cs) = run (step s c) (recorded us c) cs

  step-Kept :
      (s : Coalescing T) (us : List T) (c : Call T) → Kept s us → Kept (step s c) (recorded us c)
  unfolding step
  step-Kept s us (calls_update r value) k = update-Kept r value s us k
  step-Kept s us flushes k = flush-Kept s us k
  step-Kept s us (times_out id) k = timeout-Kept id s us k

  run-Kept :
      (s : Coalescing T) (us : List T) (cs : List (Call T))
      → Kept s us
      → let (t, vs) = run s us cs in Kept t vs
  unfolding run
  run-Kept s us [] k = k
  run-Kept s us (c ∷ cs) k = run-Kept (step s c) (recorded us c) cs (step-Kept s us c k)

  new_timer-Timed : (w : Option ℕ) (s : Coalescing T) → Timed {T = T} w none (new_timer w)
  new_timer-Timed none s = refl
  new_timer-Timed (some w) s = (Deferred.create, refl, create-idle.0, create-idle.1)

  new-Kept : (options : Options T) → Kept (new options) []
  new-Kept options = record {
    live = refl;
    timed = new_timer-Timed options.max_wait_ms (new options);
    latest = refl;
    below = Below-none (new options) options.every_count 0;
  }

  checked-created : (e w : Option ℕ) (s t : Coalescing T) → checked e w s ≡ created t → s ≡ t
  checked-created none none s t h = cc
  checked-created none (some w) s t h = cc
  checked-created (some e) w s t h =
      if_cases (λ (z : Created T). z ≡ created t → s ≡ t) (e == 0) (λ _ h. cc) (λ _ h. cc) h

  -- A notifier that the constructor accepts, after any updates, flushes and timeouts: the newest
  -- update is pending or was the last to be delivered; with a waiting limit a timer runs exactly
  -- when an update is pending; and with a count limit a pending count has not reached it.
  pub run_loses_nothing :
      (options : Options T) (s : Coalescing T) (cs : List (Call T))
      → create_notifier options ≡ created s
      → let (t, us) = run s [] cs in Kept t us
  unfolding create_notifier
  run_loses_nothing options s cs e = run-Kept s [] cs (
      subst (λ z. Kept z [])
        (checked-created options.every_count options.max_wait_ms (new options) s e)
        (new-Kept options))

  -- On a notifier that is not disposed of, an update whose count is at least the count limit above
  -- that of the last delivery, and the first update of a leading notifier, is delivered at once and
  -- becomes the next baseline; nothing is pending then.
  pub update_delivers :
      (r : ℕ) (value : T) (s : Coalescing T)
      → s.disposed ≡ false
      → let count = (counted s.options.get_count value s.update_count).0 in
        let t = update r value s in
        ((s.options.leading && not s.has_notified)
            || reached s.options.every_count count s.last_notified_count)
          ≡ true
        → (t.notified ≡ value ∷ s.notified)
          × (t.last_notified_count ≡ count)
          × (t.pending ≡ none)
          × (t.has_notified ≡ true)
  unfolding update settle_update flush
  update_delivers r value s l h = rw (l, h) (refl, refl, refl, refl)
