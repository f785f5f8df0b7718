-- ===== src/AsyncQueue/Run.antt =====
-- What any sequence of calls keeps: order, no loss, and no reader left waiting.
use fancy_kit.Common.{
  ℕ, ◌≡◌, refl, sym, ap, ◌∙◌, ◌⊎◌, inl, inr, List, [], ◌∷◌, ◌++◌, append_assoc, true, false, Option,
  some, length, arith,
}
use fancy_kit.AsyncQueue
use fancy_kit.AsyncQueue.{Queue, IteratorResult, value, done, Reading, rejected, ready, pending}
use fancy_kit.AsyncQueue.Channel
use fancy_kit.AsyncQueue.Channel.{pushed, Channel, Read, idle, waiting, answered}
use fancy_kit.AsyncQueue.Refine.{
  Refines, Reads, RefinesOption, both_throw, both_return, empty, create-Refines, finish-Refines,
  dispose-Refines, next-Refines, settle-Refines,
}
use fancy_kit.AsyncQueue.Growth.{enqueue-Refines}
use fancy_kit.AsyncQueue.Log.{
  Call, enqueues, finishes, disposes, nexts, settles, Log, after_enqueue, step, run, start,
  in_flight, held, held-finish, held-dispose, held-settle, held-pushed, held-next,
}

module _ {ℓ} {A : Type ℓ} where
  -- What was accepted is what was delivered and what is still held, in this order. Only a
  -- disposed queue has dropped items.
  pub record Accounts (l : Log A) (c : Channel A) (dropped : List A) : Type ℓ where
    pub refines : Refines l.queue c
    pub order : l.accepted ≡ l.delivered ++ held c dropped
    pub lost : (dropped ≡ []) ⊎ (l.queue.disposed ≡ true)

  next-disposed : (q : Queue A) → (AsyncQueue.next q).0.disposed ≡ q.disposed
  unfolding AsyncQueue.next AsyncQueue.take_value
  next-disposed q = ground arith

  settle-disposed : (q : Queue A) → (AsyncQueue.settle q).0.disposed ≡ q.disposed
  unfolding AsyncQueue.settle
  settle-disposed q = ground arith

  finish-disposed : (q : Queue A) → (AsyncQueue.finish q).disposed ≡ q.disposed
  unfolding AsyncQueue.finish
  finish-disposed q = ground arith

  dispose-disposed : (q : Queue A) → (AsyncQueue.dispose q).disposed ≡ true
  unfolding AsyncQueue.dispose
  dispose-disposed q = ground arith

  -- A reader waits on an empty queue only.
  waiting-empty :
      (q : Queue A) (c : Channel A) (read : Read A) (r : ℕ)
      → Reads q c read
      → read ≡ waiting r
      → c.items ≡ []
  waiting-empty q c (waiting s) r h e = h.3
  waiting-empty q c idle r h e = cc
  waiting-empty q c (answered s x) r h e = cc

  enqueue-eq-some :
      (x : A) (c c' : Channel A)
      → Channel.enqueue x c ≡ some c'
      → (c.closed ≡ false) × (c' ≡ pushed x c)
  unfolding Channel.enqueue
  enqueue-eq-some x c c' e = ground arith

  enqueue-Accounts :
      (l : Log A) (x : A) (c : Channel A) (dropped : List A) (r : Option (Queue A))
      (s : Option (Channel A))
      → Accounts l c dropped
      → RefinesOption r s
      → Channel.enqueue x c ≡ s
      → (c' : Channel A) × Accounts (after_enqueue l x r) c' dropped
  enqueue-Accounts l x c dropped _ _ a both_throw e = (c, a)
  enqueue-Accounts l x c dropped _ _ a (both_return {c = c'} v) e =
      let (opened, same) = enqueue-eq-some x c c' e in
      let kept : dropped ≡ [] = ground arith in
      (
        c',
        record {
          refines = v;
          order =
              rw (kept, same)
                (rw (a.order, kept, append_assoc)
                  (ap (◌++◌ l.delivered) (
                    sym (
                      held-pushed x c.items c.closed c.read
                        (λ r. waiting-empty l.queue c c.read r a.refines.read)))));
          lost = inl kept;
        },
      )

  deliver :
      (l : Log A) (xs rest held : List A)
      → l.accepted ≡ l.delivered ++ held
      → xs ++ rest ≡ held
      → l.accepted ≡ (l.delivered ++ xs) ++ rest
  deliver l xs rest held e f =
      e ∙ ap (◌++◌ l.delivered) (sym f) ∙ sym (append_assoc l.delivered xs rest)

  step-Accounts :
      (l : Log A) (call : Call A) (c : Channel A) (dropped : List A)
      → Accounts l c dropped
      → (c' : Channel A) × (d : List A) × Accounts (step l call) c' d
  unfolding step
  step-Accounts l (enqueues x) c dropped a =
      let (c', b) =
        enqueue-Accounts l x c dropped _ _ a (enqueue-Refines x l.queue c a.refines) refl in
      (c', dropped, b)
  step-Accounts l finishes c dropped a = (
    Channel.finish c,
    dropped,
    record {
      refines = finish-Refines l.queue c a.refines;
      order = a.order ∙ ap (◌++◌ l.delivered) (sym (held-finish c.items dropped c.closed c.read));
      lost = rw finish-disposed a.lost;
    },
  )
  step-Accounts l disposes c dropped a = (
    Channel.dispose c,
    c.items ++ dropped,
    record {
      refines = dispose-Refines l.queue c a.refines;
      order = a.order ∙ ap (◌++◌ l.delivered) (sym (held-dispose c.items dropped c.closed c.read));
      lost = inr (dispose-disposed l.queue);
    },
  )
  step-Accounts l nexts c dropped a = (
    (Channel.next l.queue.next_reader c).0,
    dropped,
    record {
      refines = (next-Refines l.queue c a.refines).0;
      order =
          rw ((next-Refines l.queue c a.refines).1) (
            deliver l _ _ _ a.order
              (held-next l.queue.next_reader dropped c.items c.closed c.read));
      lost = rw next-disposed a.lost;
    },
  )
  step-Accounts l settles c dropped a = (
    (Channel.settle c).0,
    dropped,
    record {
      refines = (settle-Refines l.queue c a.refines).0;
      order =
          rw ((settle-Refines l.queue c a.refines).1)
            (deliver l _ _ _ a.order (held-settle c.items dropped c.closed c.read));
      lost = rw settle-disposed a.lost;
    },
  )

  run-Accounts :
      (l : Log A) (calls : List (Call A)) (c : Channel A) (dropped : List A)
      → Accounts l c dropped
      → (c' : Channel A) × (d : List A) × Accounts (run l calls) c' d
  unfolding run
  run-Accounts l [] c dropped a = (c, dropped, a)
  run-Accounts l (call ∷ calls) c dropped a =
      let (c', d, b) = step-Accounts l call c dropped a in run-Accounts (step l call) calls c' d b

  start-Accounts : Accounts start empty []
  unfolding start
  start-Accounts = record { refines = create-Refines; order = refl; lost = inl refl }

  length-eq-zero : (xs : List A) → length xs ≡ 0 → xs ≡ []
  length-eq-zero [] e = refl
  length-eq-zero (x ∷ xs) e = absurd (omega arith)

  nothing_held :
      (q : Queue A) (c : Channel A) (items dropped : List A) (read : Read A)
      → Reads q c read
      → items ≡ []
      → q.resolved ≡ []
      → dropped ≡ []
      → in_flight read ++ (items ++ dropped) ≡ []
  nothing_held q c items dropped idle h e f g = rw (e, g)
  nothing_held q c items dropped (waiting r) h e f g = rw (e, g)
  nothing_held q c items dropped (answered r x) h e f g = cc (h.2)

  waits :
      (q : Queue A) (c : Channel A) (read : Read A) (r : ℕ)
      → Refines q c
      → Reads q c read
      → q.waiting_reader ≡ some r
      → (q.size ≡ 0)
        × (q.finished ≡ false)
        × (q.disposed ≡ false)
        × (q.resolved ≡ [])
        × (q.read_in_flight ≡ true)
  waits q c (waiting s) r v h e =
      (omega (arith, v.size, ap length h.3), v.finished ∙ h.4, ground arith, h.2, h.0)
  waits q c idle r v h e = cc (h.1)
  waits q c (answered s x) r v h e = cc (h.1)

  -- After any calls from a new queue on, the delivered items are the first of the accepted ones, in
  -- the order of acceptance, each once. If in addition the queue holds nothing (size 0), no promise
  -- is resolved with its continuation outstanding, and the queue was not disposed, then every
  -- accepted item has been delivered.
  pub run_fifo :
      (calls : List (Call A))
      → let l = run start calls in
        (rest : List A) × (l.accepted ≡ l.delivered ++ rest)
        × (l.queue.disposed ≡ false → l.queue.size ≡ 0 → l.queue.resolved ≡ [] → rest ≡ [])
  run_fifo calls =
      let (c, dropped, a) = run-Accounts start calls empty [] start-Accounts in
      (
        held c dropped,
        a.order,
        λ alive drained settled.
            nothing_held (run start calls).queue c c.items dropped c.read a.refines.read
              (length-eq-zero c.items (sym a.refines.size ∙ drained)) settled (ground arith),
      )

  -- After any calls from a new queue on, a reader waits only while the queue is empty and neither
  -- finished nor disposed, and with no answer outstanding; and then a read is in flight.
  pub run_waits :
      (calls : List (Call A)) (r : ℕ)
      → let q = (run start calls).queue in
        q.waiting_reader ≡ some r
        → (q.size ≡ 0)
          × (q.finished ≡ false)
          × (q.disposed ≡ false)
          × (q.resolved ≡ [])
          × (q.read_in_flight ≡ true)
  run_waits calls r e =
      let (c, dropped, a) = run-Accounts start calls empty [] start-Accounts in
      waits (run start calls).queue c c.read r a.refines a.refines.read e
