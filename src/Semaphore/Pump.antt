-- ===== src/Semaphore/Pump.antt =====
-- The processing pump: which items one pass over the queue starts.
use fancy_kit.Common.{
  ℕ, zero, suc, length, ◌+◌, ◌≤◌, ◌<◌, ◌≡◌, refl, sym, ap, ◌∙◌, ◌⊎◌, inl, inr, true, List, [], ◌∷◌,
  ◌++◌, ltb, ltb→lt, arith, Bool-cases, map, append_assoc, append-nil,
}
use fancy_kit.Semaphore.{
  State, state_none, state_running, state_done, QueueNotifier, Semaphore, continues, breaks, starts,
  turn, start, pump,
}

-- The items that wait, in a queue whose running items stand first.
abbrev pub AllWait : ℕ → List QueueNotifier → Type 0
AllWait limit [] = Unit
AllWait limit (e ∷ es) = (e.state ≡ state_none) × (e.quantity ≤ limit) × AllWait limit es

-- Running items first, then waiting ones, each of a quantity within the limit.
pub data Phased (limit : ℕ) : List QueueNotifier → Type 0 where
  all_wait : {es : List QueueNotifier} → AllWait limit es → Phased limit es
  runs :
      {e : QueueNotifier} {es : List QueueNotifier}
      → e.state ≡ state_running
      → e.quantity ≤ limit
      → Phased limit es
      → Phased limit (e ∷ es)

-- The quantity that an item holds.
abbrev pub held_in : State → ℕ → ℕ
held_in state_running quantity = quantity
held_in _ quantity = 0

abbrev pub held : List QueueNotifier → ℕ
held [] = 0
held (e ∷ es) = held_in e.state e.quantity + held es

abbrev pub waiting_in : State → ℕ → List ℕ → List ℕ
waiting_in state_none key keys = key ∷ keys
waiting_in _ key keys = keys

-- The keys of the waiting items, oldest first.
abbrev pub waiting : List QueueNotifier → List ℕ
waiting [] = []
waiting (e ∷ es) = waiting_in e.state e.key (waiting es)

-- The oldest waiting item, if there is one, does not fit.
pub data Blocked (limit current : ℕ) : List QueueNotifier → Type 0 where
  none_waits : Blocked limit current []
  runs_before :
      {e : QueueNotifier} {es : List QueueNotifier}
      → e.state ≡ state_running
      → Blocked limit current es
      → Blocked limit current (e ∷ es)
  too_big :
      {e : QueueNotifier} {es : List QueueNotifier}
      → e.state ≡ state_none
      → limit < e.quantity + current
      → Blocked limit current (e ∷ es)

-- The queue with its first waiting items running, as many as are asked for.
abbrev pub begin_at : State → QueueNotifier → (ℕ → List QueueNotifier) → ℕ → List QueueNotifier
begin_at state_none e rest n = record e { state = state_running } ∷ rest n
begin_at state_running e rest n = e ∷ rest (suc n)
begin_at state_done e rest n = e ∷ rest (suc n)

abbrev pub begin_first : ℕ → List QueueNotifier → List QueueNotifier
begin_first zero es = es
begin_first (suc n) [] = []
begin_first (suc n) (e ∷ es) = begin_at e.state e (λ m. begin_first m es) n

-- What a pass over the items `es` of a semaphore in the state `s` comes to.
pub record Pumped (es : List QueueNotifier) (s : Semaphore) (r : Semaphore × List QueueNotifier)
    : Type 0 where
  pub limit : r.0.limit ≡ s.limit
  pub phased : Phased s.limit r.1
  pub counts : held r.1 + s.current_processes ≡ held es + r.0.current_processes
  pub within : r.0.current_processes ≤ s.limit
  pub blocked : Blocked s.limit r.0.current_processes r.1
  pub started : List ℕ
  pub notified : r.0.notified ≡ s.notified ++ map (λ k. (k, true)) started
  pub order : waiting es ≡ started ++ waiting r.1
  pub queue : r.1 ≡ begin_first (length started) es

turn_none :
    (e : QueueNotifier) (s : Semaphore)
    → e.state ≡ state_none
    → ((s.limit < e.quantity + s.current_processes) × (turn e s ≡ breaks))
      ⊎ ((e.quantity + s.current_processes ≤ s.limit) × (turn e s ≡ starts))
unfolding turn
turn_none e s n = elim (Bool-cases (ltb s.limit (e.quantity + s.current_processes))) [
  | inl big ↦ inl (ltb→lt _ _ big, rw (n, turn) (rw big))
  | inr fits ↦ inr (ground (arith, fits), rw (n, turn) (rw fits))
]

turn_running : (e : QueueNotifier) (s : Semaphore) → e.state ≡ state_running → turn e s ≡ continues
unfolding turn
turn_running e s r = rw (r, turn)

-- The pass goes on behind an item that it starts.
behind_started :
    (e : QueueNotifier) (es : List QueueNotifier) (s : Semaphore)
    (r : Semaphore × List QueueNotifier)
    → e.state ≡ state_none
    → e.quantity ≤ s.limit
    → Pumped es (start e s) r
    → Pumped (e ∷ es) s (r.0, record e { state = state_running } ∷ r.1)
unfolding start
behind_started e es s r n q v = record {
  limit = v.limit;
  phased = runs refl q v.phased;
  counts = rw (n, held_in) (omega (arith, v.counts));
  within = v.within;
  blocked = runs_before refl v.blocked;
  started = e.key ∷ v.started;
  notified =
      v.notified ∙ append_assoc s.notified ((e.key, true) ∷ []) (map (λ k. (k, true)) v.started);
  order = rw (n, waiting_in) (ap (◌∷◌ e.key) v.order);
  queue = rw n (ap (◌∷◌ (record e { state = state_running })) v.queue);
}

pump_waiting :
    (es : List QueueNotifier) (s : Semaphore)
    → AllWait s.limit es
    → s.current_processes ≤ s.limit
    → Pumped es s (pump es s)
unfolding pump start
pump_waiting [] s _ w = record {
  limit = refl;
  phased = all_wait tt;
  counts = refl;
  within = w;
  blocked = none_waits;
  started = [];
  notified = sym (append-nil s.notified);
  order = refl;
  queue = refl;
}
pump_waiting (e ∷ es) s (n, q, a) w = elim (turn_none e s n) [
  | inl (big, t) ↦
      rw (t, pump)
        (record {
          limit = refl;
          phased = all_wait (n, q, a);
          counts = refl;
          within = w;
          blocked = too_big n big;
          started = [];
          notified = sym (append-nil s.notified);
          order = refl;
          queue = refl;
        })
  | inr (fits, t) ↦
      rw (t, pump)
        (behind_started e es s _ n q (pump_waiting es (start e s) a (omega (arith, fits))))
]

running_first :
    (e : QueueNotifier) (es : List QueueNotifier) (n : ℕ)
    → e.state ≡ state_running
    → begin_first n (e ∷ es) ≡ e ∷ begin_first n es
running_first e es zero r = refl
running_first e es (suc n) r = rw r refl

pub pump_lem :
    (s : Semaphore) (es : List QueueNotifier)
    → Phased s.limit es
    → s.current_processes ≤ s.limit
    → Pumped es s (pump es s)
unfolding pump
pump_lem s es (all_wait a) w = pump_waiting es s a w
pump_lem s (e ∷ es) (runs r q p) w =
    let v = pump_lem s es p w in
    rw (turn_running e s r, pump)
      (record {
        limit = v.limit;
        phased = runs r q v.phased;
        counts = omega (arith, v.counts);
        within = v.within;
        blocked = runs_before r v.blocked;
        started = v.started;
        notified = v.notified;
        order = rw (r, waiting_in) v.order;
        queue = ap (◌∷◌ e) v.queue ∙ sym (running_first e es (length v.started) r);
      })
