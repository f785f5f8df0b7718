-- ===== src/AsyncQueue/Refine.antt =====
-- Each operation of the queue but `enqueue` (Growth) does to the circular buffer and the flags what the
-- channel says.
use fancy_kit.Common.{
  suc, ◌+◌, ◌-◌, ◌%◌, ◌≤◌, ◌<◌, ◌≡◌, refl, ◌⊎◌, inr, List, [], ◌∷◌, Bool, true, false, Option, none,
  some, length, length-set, set, ◌==◌, if◌then◌else◌, arith,
}
use native.Mathlib.Nat.{mod-lt}
use fancy_kit.AsyncQueue
use fancy_kit.AsyncQueue.{
  Queue, IteratorResult, value, done, Reading, create, grow_buffer, take_value, wake_reader, taken,
  copy_from,
}
use fancy_kit.AsyncQueue.Channel
use fancy_kit.AsyncQueue.Channel.{Channel, Read, idle, waiting, answered}
use fancy_kit.AsyncQueue.Buffer.{Contains, slots_head, Contains-take}

module _ {ℓ} {A : Type ℓ} where
  -- The flags, the reader object and the resolved promises that stand for a read. A reader waits
  -- only on an empty, open queue.
  abbrev pub Reads : Queue A → Channel A → Read A → Type ℓ
  Reads q c idle = (q.read_in_flight ≡ false) × (q.waiting_reader ≡ none) × (q.resolved ≡ [])
  Reads q c (waiting r) =
      (q.read_in_flight ≡ true)
      × (q.waiting_reader ≡ some r)
      × (q.resolved ≡ [])
      × (c.items ≡ [])
      × (c.closed ≡ false)
  Reads q c (answered r x) =
      (q.read_in_flight ≡ true) × (q.waiting_reader ≡ none) × (q.resolved ≡ (r, x) ∷ [])

  -- The queue object stands for this channel.
  pub record Refines (q : Queue A) (c : Channel A) : Type ℓ where
    pub finished : q.finished ≡ c.closed
    pub disposed : q.disposed ≡ true → (q.finished ≡ true) × (c.items ≡ [])
    pub size : q.size ≡ length c.items
    pub fits : q.size ≤ length q.buffer
    pub head : (q.head < length q.buffer) ⊎ (q.head ≡ 0)
    pub contents : Contains q.buffer q.head c.items
    pub read : Reads q c c.read

  abbrev pub empty : Channel A
  empty = record { items = []; closed = false; read = idle }

  pub create-Refines : Refines create empty
  unfolding create
  create-Refines = record {
    finished = refl;
    disposed = λ e. cc;
    size = refl;
    fits = omega arith;
    head = inr refl;
    contents = tt;
    read = (refl, refl, refl);
  }

  pub finish-Refines :
      (q : Queue A) (c : Channel A) → Refines q c → Refines (AsyncQueue.finish q) (Channel.finish c)
  unfolding AsyncQueue.finish Channel.finish
  finish-Refines q c v = ground arith

  pub dispose-Refines :
      (q : Queue A) (c : Channel A)
      → Refines q c
      → Refines (AsyncQueue.dispose q) (Channel.dispose c)
  unfolding AsyncQueue.dispose Channel.dispose
  dispose-Refines q c v = ground arith

  pub settle-Refines :
      (q : Queue A) (c : Channel A)
      → Refines q c
      → Refines (AsyncQueue.settle q).0 (Channel.settle c).0
        × ((AsyncQueue.settle q).1 ≡ (Channel.settle c).1)
  unfolding AsyncQueue.settle Channel.settle
  settle-Refines q c v = ground arith

  take_contents :
      (q : Queue A) (x : A) (xs : List A)
      → q.size ≡ suc (length xs)
      → q.size ≤ length q.buffer
      → q.head < length q.buffer
      → Contains q.buffer q.head (x ∷ xs)
      → Contains
          (set q.buffer q.head none)
          (if q.size - 1 == 0 then 0 else (q.head + 1) % length q.buffer)
          xs
  take_contents q x [] size room here h = tt
  take_contents q x (y ∷ ys) size room here h =
      let more : ((q.size - 1) == 0) ≡ false = ground arith in
      rw more (Contains-take q.buffer q.head x (y ∷ ys) here (omega arith) h)

  -- Taking the oldest item out of a queue that nobody reads from.
  take_value-Refines :
      (q : Queue A) (x : A) (xs : List A) (closed : Bool)
      → Refines q (record { items = x ∷ xs; closed = closed; read = idle })
      → Refines (take_value q).0 (record { items = xs; closed = closed; read = idle })
        × ((take_value q).1 ≡ some x)
  unfolding take_value
  take_value-Refines q x xs closed v =
      let here : q.head < length q.buffer = omega arith in
      let same = length-set q.buffer q.head (let u : Option A = none in u) in
      (
        record {
          finished = v.finished;
          disposed = λ e. cc ((v.disposed e).1);
          size = omega arith;
          fits = omega (arith, same);
          head = ground (arith, same, mod-lt (q.head + 1) {m = length q.buffer} (omega arith));
          contents = take_contents q x xs v.size v.fits here v.contents;
          read = v.read;
        },
        slots_head q.buffer q.head x xs here v.contents,
      )

  next_cases :
      (q : Queue A) (items : List A) (closed : Bool) (read : Read A)
      → Refines q (record { items = items; closed = closed; read = read })
      → let c : Channel A = record { items = items; closed = closed; read = read } in
        Refines (AsyncQueue.next q).0 (Channel.next q.next_reader c).0
        × ((AsyncQueue.next q).1 ≡ (Channel.next q.next_reader c).1)
  unfolding AsyncQueue.next Channel.next
  next_cases q items closed (waiting r) v = ground arith
  next_cases q items closed (answered r y) v = ground arith
  next_cases q [] closed idle v = ground arith
  next_cases q (x ∷ xs) closed idle v = ground (arith, take_value-Refines q x xs closed v)

  -- `next` on a queue that stands for a channel returns what the channel's `next` returns, and leaves
  -- a queue that stands for the channel that is left.
  pub next-Refines :
      (q : Queue A) (c : Channel A)
      → Refines q c
      → Refines (AsyncQueue.next q).0 (Channel.next q.next_reader c).0
        × ((AsyncQueue.next q).1 ≡ (Channel.next q.next_reader c).1)
  next-Refines q c v = next_cases q c.items c.closed c.read v

  -- Both throw, or both return and the results correspond.
  pub data RefinesOption : Option (Queue A) → Option (Channel A) → Type ℓ where
    both_throw : RefinesOption none none
    both_return : {q : Queue A} {c : Channel A} → Refines q c → RefinesOption (some q) (some c)
