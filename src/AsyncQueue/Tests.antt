-- ===== src/AsyncQueue/Tests.antt =====
-- The queue on concrete calls, and its theorems at concrete inputs.
use fancy_kit.Common.{ℕ, ◌≡◌, refl, List, [], ◌∷◌, ◌++◌, true, false, none, some, inl, arith}
use fancy_kit.AsyncQueue
use fancy_kit.AsyncQueue.{Queue, IteratorResult, value, done, Reading, rejected, ready, pending}
use fancy_kit.AsyncQueue.Channel
use fancy_kit.AsyncQueue.Channel.{Channel, idle}
use fancy_kit.AsyncQueue.Refine.{Refines, RefinesOption, next-Refines}
use fancy_kit.AsyncQueue.Growth.{enqueue-Refines}
use fancy_kit.AsyncQueue.Log.{Call, enqueues, finishes, nexts, settles, step, run, start}
use fancy_kit.AsyncQueue.Run.{run_fifo, run_waits}

program : Unit {0}
unfolding AsyncQueue.create AsyncQueue.enqueue AsyncQueue.next AsyncQueue.take_value
    AsyncQueue.grow_buffer AsyncQueue.copy_from AsyncQueue.finish AsyncQueue.dispose
    AsyncQueue.settle AsyncQueue.wake_reader AsyncQueue.async_iterator AsyncQueue.iterator_return
    run step start
program = tt

-- A reader that waits, an item for it, two more, and the end.
abbrev calls : List (Call ℕ)
calls =
    nexts
    ∷ enqueues 1
    ∷ enqueues 2
    ∷ settles
    ∷ nexts
    ∷ enqueues 3
    ∷ finishes
    ∷ enqueues 4
    ∷ nexts
    ∷ nexts
    ∷ []

calls_deliver : (run start calls).delivered ≡ 1 ∷ 2 ∷ 3 ∷ []
unfolding program
calls_deliver = refl

calls_accept : (run start calls).accepted ≡ 1 ∷ 2 ∷ 3 ∷ []
unfolding program
calls_accept = refl

abbrev one : Queue ℕ
one = record {
  buffer = none ∷ none ∷ some 7 ∷ none ∷ [];
  head = 2;
  size = 1;
  finished = false;
  disposed = false;
  iterator_acquired = true;
  read_in_flight = false;
  waiting_reader = none;
  next_reader = 0;
  resolved = [];
}

one-Refines : Refines one (record { items = 7 ∷ []; closed = false; read = idle })
one-Refines = record {
  finished = refl;
  disposed = λ e. cc;
  size = refl;
  fits = omega arith;
  head = inl (omega arith);
  contents = (refl, tt);
  read = (refl, refl, refl);
}

enqueue-Refines_example :
    RefinesOption
      (AsyncQueue.enqueue 5 one)
      (Channel.enqueue 5 (record { items = 7 ∷ []; closed = false; read = idle }))
enqueue-Refines_example = enqueue-Refines 5 one _ one-Refines

next-Refines_example :
    Refines (AsyncQueue.next one).0 (record { items = []; closed = false; read = idle })
    × ((AsyncQueue.next one).1 ≡ ready (value 7))
unfolding Channel.next
next-Refines_example =
    next-Refines one (record { items = 7 ∷ []; closed = false; read = idle }) one-Refines

run_fifo_example :
    let l = run start calls in
    (rest : List ℕ) × (l.accepted ≡ l.delivered ++ rest)
    × (l.queue.disposed ≡ false → l.queue.size ≡ 0 → l.queue.resolved ≡ [] → rest ≡ [])
run_fifo_example = run_fifo calls

abbrev two_reads : List (Call ℕ)
two_reads = enqueues 1 ∷ nexts ∷ nexts ∷ []

run_waits_example :
    let q = (run start two_reads).queue in
    (q.size ≡ 0)
    × (q.finished ≡ false)
    × (q.disposed ≡ false)
    × (q.resolved ≡ [])
    × (q.read_in_flight ≡ true)
unfolding program
run_waits_example = run_waits two_reads 0 refl
