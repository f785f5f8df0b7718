-- ===== src/AsyncQueue/Channel.antt =====
-- What `createAsyncQueue` promises, with the circular buffer, the reader objects and the flags gone:
-- a list of items, whether it is closed, and the one read that may be in progress.
use fancy_kit.Common.{ℕ, Bool, true, false, List, [], ◌∷◌, ◌++◌, Option, none, some, if◌then◌else◌}
use fancy_kit.AsyncQueue.{IteratorResult, value, done, Reading, rejected, ready, pending}

module _ {ℓ} where
  pub data Read (A : Type ℓ) : Type ℓ where
    idle : Read A
    waiting : ℕ → Read A
    answered : ℕ → IteratorResult A → Read A

  pub record Channel (A : Type ℓ) : Type ℓ where
    pub items : List A
    pub closed : Bool
    pub read : Read A

module _ {ℓ} {A : Type ℓ} where
  abbrev pub answer : IteratorResult A → Read A → Read A
  answer result idle = idle
  answer result (waiting r) = answered r result
  answer result (answered r x) = answered r x

  abbrev pub push : A → List A → Read A → List A × Read A
  push x items idle = (items ++ x ∷ [], idle)
  push x items (waiting r) = (items, answered r (value x))
  push x items (answered r y) = (items ++ x ∷ [], answered r y)

  abbrev pub pushed : A → Channel A → Channel A
  pushed x c = let (items, read) = push x c.items c.read in record c { items = items; read = read }

  unfoldable pub enqueue : A → Channel A → Option (Channel A)
  enqueue x c = if c.closed then none else some (pushed x c)

  unfoldable pub finish : Channel A → Channel A
  finish c = if c.closed then c else record c { closed = true; read = answer done c.read }

  unfoldable pub dispose : Channel A → Channel A
  dispose c = record { items = []; closed = true; read = answer done c.read }

  abbrev pull : ℕ → Bool → List A → Read A → List A × Read A × Reading A
  pull r closed items (waiting s) = (items, waiting s, rejected)
  pull r closed items (answered s x) = (items, answered s x, rejected)
  pull r closed (x ∷ items) idle = (items, idle, ready (value x))
  pull r true [] idle = ([], idle, ready done)
  pull r false [] idle = ([], waiting r, pending r)

  -- `r` is the identity of the reader that may have to wait.
  unfoldable pub next : ℕ → Channel A → Channel A × Reading A
  next r c =
      let (items, read, result) = pull r c.closed c.items c.read in
      (record c { items = items; read = read }, result)

  abbrev after_read : Read A → Read A × Option (IteratorResult A)
  after_read idle = (idle, none)
  after_read (waiting r) = (waiting r, none)
  after_read (answered r x) = (idle, some x)

  unfoldable pub settle : Channel A → Channel A × Option (IteratorResult A)
  settle c = let (read, result) = after_read c.read in (record c { read = read }, result)
