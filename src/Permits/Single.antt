-- ===== src/Permits/Single.antt =====
-- Callers that take one permit each: the limit holds, and permits are not lost.
use fancy_kit.Common.{
  ℕ, zero, suc, ◌+◌, ◌≤◌, ◌≡◌, ◌≢◌, refl, sym, ap, subst, ◌∙◌, inl, inr, List, [], ◌∷◌, ◌++◌, arith,
  if_cases, length, length-append, length-map, ◌==◌,
}
use fancy_kit.Common.Int.{pos}
use fancy_kit.Permits.{give_up_in}
use fancy_kit.Permits.{
  Waiter, Permits, Acquired, permits, acquire, try_acquire, release, resume, time_out,
}
use fancy_kit.Permits.Counted.{
  hand_out, hand_over, Ones, Singles, Counted, Handed, acquire-Handed, try_acquire-Handed,
  release-Counted, resume_in-Counted,
}

-- The semaphore with the releasers that have been handed out and not called, by their quantities.
pub record Log : Type 0 where
  pub permits : Permits
  pub holders : List ℕ

pub data Call : Type 0 where
  acquires tries resumes : Call
  -- The holder at this place calls its releaser.
  releases : ℕ → Call
  times_out : ℕ → Call

abbrev call_at : ℕ → List ℕ → List ℕ → Permits → Log
call_at i seen [] p = record { permits = p; holders = seen }
call_at zero seen (q ∷ qs) p = record { permits = release q p; holders = seen ++ qs }
call_at (suc i) seen (q ∷ qs) p = call_at i (seen ++ q ∷ []) qs p

-- Every call asks for one permit.
unfoldable pub step : Log → Call → Log
step l acquires =
    let (p, r) = acquire 1 l.permits in record { permits = p; holders = hand_out l.holders r }
step l tries =
    let (p, r) = try_acquire 1 l.permits in record { permits = p; holders = hand_out l.holders r }
step l resumes =
    let (p, r) = resume l.permits in record { permits = p; holders = hand_over l.holders r }
step l (releases i) = call_at i [] l.holders l.permits
step l (times_out id) = record { permits = time_out id l.permits; holders = l.holders }

unfoldable pub run : Log → List Call → Log
run l [] = l
run l (c ∷ cs) = run (step l c) cs

-- A log whose holders have one permit each, and are counted.
abbrev Fine : ℕ → Log → Type 0
Fine limit l = Ones l.holders × Counted limit l.permits (length l.holders)

Handed-Fine :
    (limit : ℕ) (holders : List ℕ) (r : Permits × Acquired)
    → Ones holders
    → Handed limit (length holders) r
    → Fine limit (record { permits = r.0; holders = hand_out holders r.1 })
Handed-Fine limit holders (p, r) o (inl (e, v)) = rw e ((refl, o), v)
Handed-Fine limit holders (p, r) o (inr ((id, e), v)) = rw e (o, v)

Ones-append : (seen qs : List ℕ) → Ones seen → Ones qs → Ones (seen ++ qs)
Ones-append [] qs s o = o
Ones-append (x ∷ xs) qs (e, s) o = (e, Ones-append xs qs s o)

call_at-Fine :
    (limit i : ℕ) (seen qs : List ℕ) (p : Permits)
    → Ones seen
    → Ones qs
    → Counted limit p (length seen + length qs)
    → Fine limit (call_at i seen qs p)
call_at-Fine limit i seen [] p s o v = (s, subst (Counted limit p) (omega arith) v)
call_at-Fine limit zero seen (q ∷ qs) p s (e, o) v = (
  Ones-append seen qs s o,
  subst (λ n. Counted limit (release q p) n) (sym (length-append seen qs))
      (subst (λ q. Counted limit (release q p) (length seen + length qs)) (sym e)
        (release-Counted limit _ p (subst (Counted limit p) (omega arith) v))),
)
call_at-Fine limit (suc i) seen (q ∷ qs) p s (e, o) v =
    call_at-Fine limit i (seen ++ q ∷ []) qs p (Ones-append seen (q ∷ []) s (e, tt)) o
      (subst (Counted limit p) (omega (arith, length-append seen (q ∷ []))) v)

give_up-Singles : (id : ℕ) (ws : List Waiter) → Singles ws → Singles (give_up_in id ws)
give_up-Singles id [] s = tt
give_up-Singles id (w ∷ ws) (q, s) = (
  if_cases (λ (x : Waiter). x.quantity ≡ 1) (w.id == id) (λ _. q) (λ _. q),
  give_up-Singles id ws s,
)

give_up_nil : (id : ℕ) (ws : List Waiter) → give_up_in id ws ≢ [] → ws ≢ []
give_up_nil id ws h e = h (ap (give_up_in id) e)

time_out-Counted :
    (limit n id : ℕ) (p : Permits) → Counted limit p n → Counted limit (time_out id p) n
unfolding time_out
time_out-Counted limit n id p v =
    let same : length (give_up_in id p.scheduled) ≡ length p.scheduled = length-map p.scheduled _ in
    record {
      bound = v.bound;
      counter = v.counter ∙ ap (λ k. pos (n + k)) (sym same);
      within = omega (arith, same, v.within);
      full = λ h. omega (arith, same, v.full (give_up_nil id p.queue h));
      queued = give_up-Singles id p.queue v.queued;
      scheduled = give_up-Singles id p.scheduled v.scheduled;
    }

step-Fine : (limit : ℕ) (l : Log) (c : Call) → Fine limit l → Fine limit (step l c)
unfolding step resume
step-Fine limit l acquires (o, v) =
    Handed-Fine limit l.holders _ o (acquire-Handed limit _ l.permits v)
step-Fine limit l tries (o, v) =
    Handed-Fine limit l.holders _ o (try_acquire-Handed limit _ l.permits v)
step-Fine limit l resumes (o, v) =
    resume_in-Counted limit l.holders l.permits l.permits.scheduled refl o v
step-Fine limit l (releases i) (o, v) =
    call_at-Fine limit i [] l.holders l.permits tt o
      (subst (Counted limit l.permits) (omega arith) v)
step-Fine limit l (times_out id) (o, v) = (o, time_out-Counted limit _ id l.permits v)

run-Fine : (limit : ℕ) (l : Log) (cs : List Call) → Fine limit l → Fine limit (run l cs)
unfolding run
run-Fine limit l [] v = v
run-Fine limit l (c ∷ cs) v = run-Fine limit (step l c) cs (step-Fine limit l c v)

unfoldable pub start : ℕ → Log
start limit = record { permits = permits limit; holders = [] }

-- After any calls for one permit each on a new semaphore, every releaser called once at most, the
-- counter is the number of the holders and of the waiters about to become holders, never more than
-- the limit; and as long as a caller waits in the queue, all permits are in use.
pub run_permits :
    (limit : ℕ) (cs : List Call)
    → let l = run (start limit) cs in
      let n = length l.holders + length l.permits.scheduled in
      (l.permits.counter ≡ pos n) × (n ≤ limit) × (l.permits.queue ≢ [] → n ≡ limit)
unfolding start permits
run_permits limit cs =
    let (o, v) = run-Fine limit (start limit) cs (
      tt,
      record {
        bound = refl;
        counter = refl;
        within = omega arith;
        full = λ h. absurd (h refl);
        queued = tt;
        scheduled = tt;
      },
    ) in
    (v.counter, v.within, v.full)
