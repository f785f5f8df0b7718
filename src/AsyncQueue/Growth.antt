-- ===== src/AsyncQueue/Growth.antt =====
-- `enqueue` does what the channel says, and the ring that it grows keeps its items.
use fancy_kit.Common.{
  ℕ, ◌+◌, ◌*◌, ◌%◌, ◌<◌, ◌≡◌, refl, ap, ◌≢◌, inl, inr, max, List, [], ◌∷◌, ◌++◌, Bool, true, false,
  ◌||◌, Option, none, some, length, length-append, length-set, length-replicate, set, replicate,
  ◌==◌, Bool-cases, ne_of_test, ==_iff, if◌then◌else◌, arith,
}
use fancy_kit.AsyncQueue
use fancy_kit.AsyncQueue.{
  Queue, IteratorResult, value, done, Reading, create, grow_buffer, take_value, wake_reader, taken,
  copy_from,
}
use fancy_kit.AsyncQueue.Channel
use fancy_kit.AsyncQueue.Channel.{Channel, Read, idle, waiting, answered}
use fancy_kit.AsyncQueue.Buffer.{
  Contains, Contains-set_after, Contains-mod, copy_from-Contains, length-copy_from, replicate_room,
}
use fancy_kit.AsyncQueue.Refine.{Reads, Refines, RefinesOption, both_throw, both_return}

module _ {ℓ} {A : Type ℓ} where
  grow_contents :
      (q : Queue A) (c : Channel A)
      → Refines q c
      → Contains
          (copy_from q.buffer q.head 0 q.size (replicate (max (length q.buffer * 2) 8) none))
          0
          c.items
  grow_contents q c v = rw v.size (
      copy_from-Contains q.buffer q.head 0 c.items [] (replicate (max (length q.buffer * 2) 8) none)
        refl
        (omega
          (arith, length-replicate (max (length q.buffer * 2) 8) (let u : Option A = none in u)))
        (Contains-mod q.buffer q.head (q.head + 0) c.items
          (ap (λ n. n % length q.buffer) {x = q.head} {y = q.head + 0} (omega arith)) v.contents)
        tt)

  grow_buffer-Refines :
      (q : Queue A) (c : Channel A)
      → q.size ≡ length q.buffer
      → Refines q c
      → Refines (grow_buffer q) c × (q.size < length (grow_buffer q).buffer)
  unfolding grow_buffer
  grow_buffer-Refines q c full v =
      let room = replicate_room q.buffer q.size none full in
      let long =
        length-copy_from q.buffer q.head 0 q.size (replicate (max (length q.buffer * 2) 8) none) in
      (
        record {
          finished = v.finished;
          disposed = v.disposed;
          size = v.size;
          fits = omega arith;
          head = inl (omega arith);
          contents = grow_contents q c v;
          read = v.read;
        },
        omega arith,
      )

  push_read :
      (g g' : Queue A) (xs ys : List A) (closed : Bool) (read : Read A)
      → ((r : ℕ) → read ≢ waiting r)
      → Reads g (record { items = xs; closed = closed; read = read }) read
      → g'.read_in_flight ≡ g.read_in_flight
      → g'.waiting_reader ≡ g.waiting_reader
      → g'.resolved ≡ g.resolved
      → Reads g' (record { items = ys; closed = closed; read = read }) read
  push_read g g' xs ys closed idle still v a b c = ground arith
  push_read g g' xs ys closed (waiting r) still v a b c = absurd (still r refl)
  push_read g g' xs ys closed (answered r x) still v a b c = ground arith

  push-Refines :
      (g : Queue A) (x : A) (xs : List A) (closed : Bool) (read : Read A)
      → g.size < length g.buffer
      → closed ≡ false
      → ((r : ℕ) → read ≢ waiting r)
      → Refines g (record { items = xs; closed = closed; read = read })
      → Refines
          (record g {
            buffer = set g.buffer ((g.head + g.size) % length g.buffer) (some x);
            size = g.size + 1;
          })
          (record { items = xs ++ x ∷ []; closed = closed; read = read })
  push-Refines g x xs closed read room opened still v =
      let pushed : Queue A = record g {
        buffer = set g.buffer ((g.head + g.size) % length g.buffer) (some x);
        size = g.size + 1;
      } in
      let same = length-set g.buffer ((g.head + g.size) % length g.buffer) (some x) in
      record {
        finished = v.finished;
        disposed = λ e. cc (v.finished, (v.disposed e).0);
        size = omega (arith, length-append xs (x ∷ []));
        fits = omega (arith, same);
        head = ground (arith, same);
        contents = rw v.size (Contains-set_after g.buffer g.head xs x (omega arith) v.contents);
        read = push_read g pushed xs (xs ++ x ∷ []) closed read still v.read refl refl refl;
      }

  make_room-Refines :
      (q : Queue A) (c : Channel A)
      → Refines q c
      → let g = if q.size == length q.buffer then grow_buffer q else q in
        Refines g c × (g.size < length g.buffer)
  unfolding grow_buffer
  make_room-Refines q c v = elim (Bool-cases (q.size == length q.buffer)) [
    | inl full ↦ rw full (grow_buffer-Refines q c ((==_iff _ _).0 full) v)
    | inr room ↦ rw room (v, omega (arith, ne_of_test _ _ room))
  ]

  push_cases :
      (x : A) (q : Queue A) (items : List A) (read : Read A)
      → Refines q (record { items = items; closed = false; read = read })
      → q.waiting_reader ≡ none
      → ((r : ℕ) → read ≢ waiting r)
      → RefinesOption
          (AsyncQueue.enqueue x q)
          (some (record { items = items ++ x ∷ []; closed = false; read = read }))
  unfolding AsyncQueue.enqueue
  push_cases x q items read v nobody still =
      let opened : (q.finished || q.disposed) ≡ false = ground arith in
      let (w, room) = make_room-Refines q _ v in
      rw (opened, nobody) (both_return (push-Refines _ x items false read room refl still w))

  enqueue_cases :
      (x : A) (q : Queue A) (items : List A) (closed : Bool) (read : Read A)
      → Refines q (record { items = items; closed = closed; read = read })
      → RefinesOption
          (AsyncQueue.enqueue x q)
          (Channel.enqueue x (record { items = items; closed = closed; read = read }))
  unfolding AsyncQueue.enqueue Channel.enqueue
  enqueue_cases x q items true read v = rw v.finished both_throw
  enqueue_cases x q items false idle v = push_cases x q items idle v v.read.1 (λ r e. cc)
  enqueue_cases x q items false (waiting r) v =
      let opened : (q.finished || q.disposed) ≡ false = ground arith in
      rw (opened, v.read.1) (both_return (ground arith))
  enqueue_cases x q items false (answered r y) v =
      push_cases x q items (answered r y) v v.read.1 (λ s e. cc)

  -- `enqueue` on a queue that stands for a channel throws when the channel's `enqueue` does, and else
  -- leaves a queue that stands for the channel that is left: the ring is grown when it is full, and
  -- a waiting reader gets the item at once.
  pub enqueue-Refines :
      (x : A) (q : Queue A) (c : Channel A)
      → Refines q c
      → RefinesOption (AsyncQueue.enqueue x q) (Channel.enqueue x c)
  enqueue-Refines x q c v = enqueue_cases x q c.items c.closed c.read v
