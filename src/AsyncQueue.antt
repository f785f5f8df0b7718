-- ===== src/AsyncQueue.antt =====
-- packages/octagonal-wheels/src/iterable/asyncQueue.ts: the queue behind `createAsyncQueue`.
-- A promise is the number of its reader. A resolved promise waits in `resolved` until its
-- continuation, the callback of `pending.then`, runs (`settle`); the event loop runs them in order.
pub mod Channel
pub mod Buffer
pub mod Refine
pub mod Growth
pub mod Log
pub mod Run
mod Tests
use fancy_kit.Common.{
  ℕ, zero, suc, ◌+◌, ◌-◌, ◌*◌, ◌%◌, max, Bool, true, false, ◌||◌, List, [], ◌∷◌, ◌++◌, Option, none,
  some, length, get_or, set, replicate, ltb, ◌==◌, if◌then◌else◌,
}

module _ {ℓ} where
  pub data IteratorResult (A : Type ℓ) : Type ℓ where
    value : A → IteratorResult A
    done : IteratorResult A

  pub record Queue (A : Type ℓ) : Type ℓ where
    pub buffer : List (Option A)
    pub head : ℕ
    pub size : ℕ
    pub finished : Bool
    pub disposed : Bool
    pub iterator_acquired : Bool
    pub read_in_flight : Bool
    pub waiting_reader : Option ℕ
    -- The identity that the next reader object gets.
    pub next_reader : ℕ
    -- Promises that are resolved and whose continuation has not run.
    pub resolved : List (ℕ × IteratorResult A)

  -- What a call of `next` returns.
  pub data Reading (A : Type ℓ) : Type ℓ where
    rejected : Reading A
    ready : IteratorResult A → Reading A
    pending : ℕ → Reading A

  pub create : {A : Type ℓ} → Queue A
  create = record {
    buffer = [];
    head = 0;
    size = 0;
    finished = false;
    disposed = false;
    iterator_acquired = false;
    read_in_flight = false;
    waiting_reader = none;
    next_reader = 0;
    resolved = [];
  }

module _ {ℓ} {A : Type ℓ} where
  -- The loop of `growBuffer`: `left` rounds are to go, from `index` on.
  pub copy_from : List (Option A) → ℕ → ℕ → ℕ → List (Option A) → List (Option A)
  copy_from buffer head index zero next_buffer = next_buffer
  copy_from buffer head index (suc left) next_buffer =
      copy_from buffer head (index + 1) left
        (set next_buffer index (get_or buffer ((head + index) % length buffer) none))

  pub grow_buffer : Queue A → Queue A
  grow_buffer q = record q {
    buffer = copy_from q.buffer q.head 0 q.size (replicate (max (length q.buffer * 2) 8) none);
    head = 0;
  }

  pub take_value : Queue A → Queue A × Option A
  take_value q =
      let value = get_or q.buffer q.head none in
      let size = q.size - 1 in
      let head = (q.head + 1) % length q.buffer in
      (
        record q {
          buffer = set q.buffer q.head none;
          head = if size == 0 then 0 else head;
          size = size;
        },
        value,
      )

  pub wake_reader : IteratorResult A → Queue A → Queue A
  wake_reader result q = elim q.waiting_reader [
    | none ↦ q
    | some reader ↦ record q {
      waiting_reader = none;
      resolved = q.resolved ++ (reader, result) ∷ [];
    }
  ]

  pub dispose : Queue A → Queue A
  unfolding wake_reader
  dispose q =
      if q.disposed
      then q
      else wake_reader done
          (record q { disposed = true; finished = true; buffer = []; head = 0; size = 0 })

  pub finish : Queue A → Queue A
  unfolding wake_reader
  finish q =
      if q.finished || q.disposed
      then q
      else (let q' = record q { finished = true } in
          if q.size == 0 then wake_reader done q' else q')

  -- A slot that was never written reads as `undefined`, which stands as `done` here only to have a
  -- value; the invariant excludes it.
  abbrev pub taken : Queue A × Option A → Queue A × Reading A
  taken (q, none) = (q, ready done)
  taken (q, some x) = (q, ready (value x))

  pub next : Queue A → Queue A × Reading A
  next q =
      if q.read_in_flight
      then (q, rejected)
      else if ltb 0 q.size
      then taken (take_value q)
      else if q.finished || q.disposed
      then (q, ready done)
      else (
        record q {
          read_in_flight = true;
          waiting_reader = some q.next_reader;
          next_reader = suc q.next_reader;
        },
        pending q.next_reader,
      )

  -- The end of a read: the continuation of the oldest resolved promise.
  pub settle : Queue A → Queue A × Option (IteratorResult A)
  settle q = elim q.resolved [
    | [] ↦ (q, none)
    | (reader, result) ∷ rest ↦ (
      record q {
        read_in_flight = false;
        waiting_reader = elim q.waiting_reader [
          | none ↦ none
          | some r ↦ if r == reader then none else some r
        ];
        resolved = rest;
      },
      some result,
    )
  ]

  -- `none` is the thrown error.
  pub enqueue : A → Queue A → Option (Queue A)
  unfolding wake_reader
  enqueue item q = if q.finished || q.disposed then none else elim q.waiting_reader [
    | some _ ↦ some (wake_reader (value item) q)
    | none ↦
        let g = if q.size == length q.buffer then grow_buffer q else q in
        some (record g {
          buffer = set g.buffer ((g.head + g.size) % length g.buffer) (some item);
          size = g.size + 1;
        })
  ]

  -- `none` is the thrown error.
  pub async_iterator : Queue A → Option (Queue A)
  async_iterator q =
      if q.iterator_acquired then none else some (record q { iterator_acquired = true })

  -- The iterator's `return`.
  pub iterator_return : Queue A → Queue A × IteratorResult A
  unfolding dispose
  iterator_return q = (dispose q, done)
