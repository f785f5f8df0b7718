-- ===== src/Semaphore/Release.antt =====
-- The release of a permit, by its holder or by the timer of a waiting call.
use fancy_kit.Common.{
  ℕ, ◌+◌, ◌≤◌, ◌≡◌, ◌≢◌, none-ne-some, ne_of_test, refl, sym, ap, ◌∙◌, subst, ◌⊎◌, inl, inr, true,
  false, List, [], ◌∷◌, ◌++◌, Option, none, some, ◌==◌, ==_iff, arith, Bool-cases,
}
use fancy_kit.Semaphore.{
  State, state_none, state_running, state_done, QueueNotifier, Semaphore, unfinished, exec_process,
  find, mark_done, released, release, is_done, give_back,
}
use fancy_kit.Semaphore.Pump.{held_in, AllWait, Phased, all_wait, runs, held}
use fancy_kit.Semaphore.Valid.{
  Valid, Executed, exec_process-Executed, Undone, Phased-Undone, unfinished_lem, held-append,
}

-- Where `find` finds the item of a key.
record Found (key : ℕ) (es : List QueueNotifier) : Type 0 where
  item : QueueNotifier
  before : List QueueNotifier
  after : List QueueNotifier
  finds : find key es ≡ some item
  same_key : item.key ≡ key
  splits : es ≡ before ++ item ∷ after
  marks : mark_done key es ≡ before ++ record item { state = state_done } ∷ after

find-Found : (key : ℕ) (es : List QueueNotifier) → (find key es ≡ none) ⊎ Found key es
unfolding find mark_done
find-Found key [] = inl refl
find-Found key (e ∷ es) = elim (Bool-cases (e.key == key)) [
  | inl same ↦ inr (record {
    item = e;
    before = [];
    after = es;
    finds = rw same refl;
    same_key = (==_iff _ _).0 same;
    splits = refl;
    marks = rw same refl;
  })
  | inr other ↦ elim (find-Found key es) [
    | inl n ↦ inl (rw (other, n) refl)
    | inr f ↦ inr (record {
      item = f.item;
      before = e ∷ f.before;
      after = f.after;
      finds = rw other f.finds;
      same_key = f.same_key;
      splits = ap (◌∷◌ e) f.splits;
      marks = rw other (ap (◌∷◌ e) f.marks);
    })
  ]
]

Undone-without :
    (xs : List QueueNotifier) (e : QueueNotifier) (ys : List QueueNotifier)
    → Undone (xs ++ e ∷ ys)
    → Undone (xs ++ ys)
Undone-without [] e ys (d, u) = u
Undone-without (x ∷ xs) e ys (d, u) = (d, Undone-without xs e ys u)

unfinished-marked :
    (xs : List QueueNotifier) (e : QueueNotifier) (ys : List QueueNotifier)
    → is_done e.state ≡ true
    → Undone (xs ++ ys)
    → unfinished (xs ++ e ∷ ys) ≡ xs ++ ys
unfolding unfinished
unfinished-marked [] e ys d u = rw d (unfinished_lem ys u)
unfinished-marked (x ∷ xs) e ys d (n, u) = rw n (ap (◌∷◌ x) (unfinished-marked xs e ys d u))

AllWait-without :
    (limit : ℕ) (xs : List QueueNotifier) (e : QueueNotifier) (ys : List QueueNotifier)
    → AllWait limit (xs ++ e ∷ ys)
    → AllWait limit (xs ++ ys)
AllWait-without limit [] e ys (n, q, a) = a
AllWait-without limit (x ∷ xs) e ys (n, q, a) = (n, q, AllWait-without limit xs e ys a)

Phased-tail :
    {limit : ℕ} {e : QueueNotifier} {ys : List QueueNotifier}
    → Phased limit (e ∷ ys)
    → Phased limit ys
Phased-tail (all_wait (n, q, a)) = all_wait a
Phased-tail (runs r q p) = p

Phased-without :
    {limit : ℕ} (xs : List QueueNotifier) (e : QueueNotifier) (ys : List QueueNotifier)
    → Phased limit (xs ++ e ∷ ys)
    → Phased limit (xs ++ ys)
Phased-without [] e ys p = Phased-tail p
Phased-without (x ∷ xs) e ys (all_wait a) = all_wait (AllWait-without _ (x ∷ xs) e ys a)
Phased-without (x ∷ xs) e ys (runs r q p) = runs r q (Phased-without xs e ys p)

-- No item has the key.
abbrev pub Lacks : ℕ → List QueueNotifier → Type 0
Lacks key [] = Unit
Lacks key (e ∷ es) = (e.key ≢ key) × Lacks key es

Lacks-of_none : (key : ℕ) (es : List QueueNotifier) → find key es ≡ none → Lacks key es
unfolding find
Lacks-of_none key [] h = tt
Lacks-of_none key (e ∷ es) h = elim (Bool-cases (e.key == key)) [
  | inl t ↦ absurd (none-ne-some e (sym (rw t at h)))
  | inr f ↦ (ne_of_test e.key key f, Lacks-of_none key es (rw f at h))
]

-- What `release` of a key does: it throws if no item has the key; a running item leaves the queue, and
-- its quantity is held no more; a waiting item leaves the queue. Then the oldest waiting items that fit
-- are started.
pub data Releases (key : ℕ) (s : Semaphore) : Option Semaphore → Type 0 where
  missing : Lacks key s.queue → Releases key s none
  ended :
      {t : Semaphore} (before : List QueueNotifier) (item : QueueNotifier)
      (after : List QueueNotifier)
      → s.queue ≡ before ++ item ∷ after
      → item.key ≡ key
      → item.state ≡ state_running
      → held s.queue ≡ item.quantity + held (before ++ after)
      → Executed s.limit s.notified (before ++ after) t
      → Releases key s (some t)
  withdrawn :
      {t : Semaphore} (before : List QueueNotifier) (item : QueueNotifier)
      (after : List QueueNotifier)
      → s.queue ≡ before ++ item ∷ after
      → item.key ≡ key
      → item.state ≡ state_none
      → held s.queue ≡ held (before ++ after)
      → Executed s.limit s.notified (before ++ after) t
      → Releases key s (some t)

-- The state of an item of a valid queue.
state_cases : (c : State) → is_done c ≡ false → (c ≡ state_running) ⊎ (c ≡ state_none)
state_cases state_running d = inl refl
state_cases state_none d = inr refl
state_cases state_done d = cc

Undone-at :
    (xs : List QueueNotifier) (e : QueueNotifier) (ys : List QueueNotifier)
    → Undone (xs ++ e ∷ ys)
    → is_done e.state ≡ false
Undone-at [] e ys (d, u) = d
Undone-at (x ∷ xs) e ys (d, u) = Undone-at xs e ys u

module _ (key : ℕ) (s : Semaphore) (v : Valid s) (f : Found key s.queue) where
  rest : List QueueNotifier
  rest = f.before ++ f.after

  split-Undone : Undone (f.before ++ f.item ∷ f.after)
  split-Undone = subst Undone f.splits (Phased-Undone v.phased)

  held-split : held s.queue ≡ held f.before + held (f.item ∷ f.after)
  held-split = ap held f.splits ∙ held-append f.before (f.item ∷ f.after)

  held-rest : held rest ≡ held f.before + held f.after
  unfolding rest
  held-rest = held-append f.before f.after

  executed :
      (released key f.item s).current_processes ≡ held rest
      → held rest ≤ held s.queue
      → Executed s.limit s.notified rest (exec_process (released key f.item s))
  unfolding released rest
  executed e less =
      exec_process-Executed (released key f.item s) rest
        (ap unfinished f.marks
          ∙ unfinished-marked f.before (record f.item { state = state_done }) f.after refl
              (Undone-without f.before f.item f.after split-Undone))
        (Phased-without f.before f.item f.after (subst (Phased s.limit) f.splits v.phased)) (sym e)
        (omega (arith, e, less, v.counts, v.within))

  found-Releases :
      (f.item.state ≡ state_running) ⊎ (f.item.state ≡ state_none)
      → Releases key s (some (exec_process (released key f.item s)))
  unfolding released rest
  found-Releases (inl r) =
      let h : held (f.item ∷ f.after) ≡ f.item.quantity + held f.after =
        ap (λ c. held_in c f.item.quantity + held f.after) r in
      ended f.before f.item f.after f.splits f.same_key r (omega (arith, h, held-split, held-rest))
        (executed
          (ap (λ c. give_back c f.item.quantity s.current_processes) r
            ∙ omega (arith, h, held-split, held-rest, v.counts))
          (omega (arith, h, held-split, held-rest)))
  found-Releases (inr n) =
      let h : held (f.item ∷ f.after) ≡ held f.after =
        ap (λ c. held_in c f.item.quantity + held f.after) n ∙ omega arith in
      withdrawn f.before f.item f.after f.splits f.same_key n
        (omega (arith, h, held-split, held-rest))
        (executed
          (ap (λ c. give_back c f.item.quantity s.current_processes) n
            ∙ omega (arith, h, held-split, held-rest, v.counts))
          (omega (arith, h, held-split, held-rest)))

-- On a valid semaphore `release` of a key that no item has throws. The release of a running item takes
-- it out of the queue, so that its quantity is held no more, and that of a waiting item takes it out;
-- then the oldest waiting items that fit are started, in order, the rest of the queue stays as it was,
-- and the semaphore is valid again, with its count of the quantity that the queue holds.
pub release-Releases : (key : ℕ) (s : Semaphore) → Valid s → Releases key s (release key s)
unfolding release released
release-Releases key s v = elim (find-Found key s.queue) [
  | inl n ↦ rw (n, release) (missing (Lacks-of_none key s.queue n))
  | inr f ↦
      rw (f.finds, release)
        (found-Releases key s v f
          (state_cases f.item.state (Undone-at f.before f.item f.after (split-Undone key s v f))))
]
