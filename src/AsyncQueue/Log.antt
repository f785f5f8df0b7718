-- ===== src/AsyncQueue/Log.antt =====
-- Sequences of calls of the queue, with the event loop's continuations among them, and what the
-- channel holds back at each point.
use fancy_kit.Common.{
  ℕ, ◌≡◌, refl, List, [], ◌∷◌, ◌++◌, append-nil, append_assoc, Bool, true, false, Option, none,
  some,
}
use fancy_kit.AsyncQueue
use fancy_kit.AsyncQueue.{Queue, IteratorResult, value, done, Reading, rejected, ready, pending}
use fancy_kit.AsyncQueue.Channel
use fancy_kit.AsyncQueue.Channel.{pushed, Channel, Read, idle, waiting, answered}

module _ {ℓ} where
  pub data Call (A : Type ℓ) : Type ℓ where
    enqueues : A → Call A
    finishes disposes nexts settles : Call A

  -- The items that `enqueue` took, and those that the consumer was handed, oldest first.
  pub record Log (A : Type ℓ) : Type ℓ where
    pub queue : Queue A
    pub accepted : List A
    pub delivered : List A

module _ {ℓ} {A : Type ℓ} where
  abbrev pub values : IteratorResult A → List A
  values (value x) = x ∷ []
  values done = []

  abbrev pub read_values : Reading A → List A
  read_values (ready x) = values x
  read_values rejected = []
  read_values (pending r) = []

  abbrev pub settled_values : Option (IteratorResult A) → List A
  settled_values none = []
  settled_values (some x) = values x

  -- A call of `enqueue` that throws leaves the queue as it was.
  abbrev pub after_enqueue : Log A → A → Option (Queue A) → Log A
  after_enqueue l x none = l
  after_enqueue l x (some q) = record l { queue = q; accepted = l.accepted ++ x ∷ [] }

  unfoldable pub step : Log A → Call A → Log A
  step l (enqueues x) = after_enqueue l x (AsyncQueue.enqueue x l.queue)
  step l finishes = record l { queue = AsyncQueue.finish l.queue }
  step l disposes = record l { queue = AsyncQueue.dispose l.queue }
  step l nexts =
      let (q, r) = AsyncQueue.next l.queue in
      record l { queue = q; delivered = l.delivered ++ read_values r }
  step l settles =
      let (q, r) = AsyncQueue.settle l.queue in
      record l { queue = q; delivered = l.delivered ++ settled_values r }

  unfoldable pub run : Log A → List (Call A) → Log A
  run l [] = l
  run l (c ∷ cs) = run (step l c) cs

  unfoldable pub start : Log A
  start = record { queue = AsyncQueue.create; accepted = []; delivered = [] }

  -- The item on its way to a reader that has been answered.
  abbrev pub in_flight : Read A → List A
  in_flight idle = []
  in_flight (waiting r) = []
  in_flight (answered r x) = values x

  -- What has been accepted and not delivered: the item on its way, those queued, those dropped.
  abbrev pub held : Channel A → List A → List A
  held c dropped = in_flight c.read ++ (c.items ++ dropped)

  module _ (items : List A) (dropped : List A) where
    pub held-finish :
        (closed : Bool) (read : Read A)
        → let c : Channel A = record { items = items; closed = closed; read = read } in
          held (Channel.finish c) dropped ≡ held c dropped
    unfolding Channel.finish
    held-finish true read = refl
    held-finish false idle = refl
    held-finish false (waiting r) = refl
    held-finish false (answered r x) = refl

    pub held-dispose :
        (closed : Bool) (read : Read A)
        → let c : Channel A = record { items = items; closed = closed; read = read } in
          held (Channel.dispose c) (items ++ dropped) ≡ held c dropped
    unfolding Channel.dispose
    held-dispose closed idle = refl
    held-dispose closed (waiting r) = refl
    held-dispose closed (answered r x) = refl

    pub held-settle :
        (closed : Bool) (read : Read A)
        → let c : Channel A = record { items = items; closed = closed; read = read } in
          let (c', r) = Channel.settle c in settled_values r ++ held c' dropped ≡ held c dropped
    unfolding Channel.settle
    held-settle closed idle = refl
    held-settle closed (waiting r) = refl
    held-settle closed (answered r x) = refl

  pub held-pushed :
      (x : A) (items : List A) (closed : Bool) (read : Read A)
      → ((r : ℕ) → read ≡ waiting r → items ≡ [])
      → let c : Channel A = record { items = items; closed = closed; read = read } in
        held (pushed x c) [] ≡ held c [] ++ x ∷ []
  held-pushed x items closed idle still = simp append-nil
  held-pushed x items closed (waiting r) still = rw (still r refl)
  held-pushed x items closed (answered r y) still = simp (append-nil, append_assoc)

  pub held-next :
      (s : ℕ) (dropped items : List A) (closed : Bool) (read : Read A)
      → let c : Channel A = record { items = items; closed = closed; read = read } in
        let (c', r) = Channel.next s c in read_values r ++ held c' dropped ≡ held c dropped
  unfolding Channel.next
  held-next s dropped items closed (waiting r) = refl
  held-next s dropped items closed (answered r x) = refl
  held-next s dropped (x ∷ items) closed idle = refl
  held-next s dropped [] true idle = refl
  held-next s dropped [] false idle = refl
