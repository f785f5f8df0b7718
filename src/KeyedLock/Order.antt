-- ===== src/KeyedLock/Order.antt =====
-- The order of the tasks of a key: what the tasks that stand behind a task tell about it.
use fancy_kit.Common.{
  ℕ, suc, ◌+◌, ◌≤◌, ◌<◌, arith, ◌≡◌, refl, ap, subst, Bool, false, List, [], ◌∷◌, Option, none,
  some, length, ◌==◌, ==_iff, if◌then◌else◌, if_cases, Bool-cases, inl, inr, none-ne-some,
  some-injective,
}
use fancy_kit.KeyedLock.{Status, waits, runs, ends, task, set_status}

abbrev pub open_of : Status → ℕ
open_of (waits m) = 1
open_of runs = 1
open_of ends = 0

-- The tasks that stand behind a task.
abbrev pub earlier : {K : Type 0} → ℕ → List (K × Status) → List (K × Status)
earlier n [] = []
earlier n (t ∷ rest) = if n == length rest then rest else earlier n rest

module _ {K : Type 0} (same : K → K → Bool) where
  -- The number of the newest task of a key.
  abbrev pub last_of : K → List (K × Status) → Option ℕ
  last_of k [] = none
  last_of k ((key, status) ∷ rest) = if same key k then some (length rest) else last_of k rest

  -- How many tasks of a key have not ended.
  abbrev pub unfinished : K → List (K × Status) → ℕ
  unfinished k [] = 0
  unfinished k ((key, status) ∷ rest) =
      if same key k then open_of status + unfinished k rest else unfinished k rest

  -- A task waits for the one before it of its key, and has started only if all before it have ended.
  abbrev pub Fine : K → Status → List (K × Status) → Type 0
  Fine k (waits m) rest = last_of k rest ≡ some m
  Fine k runs rest = unfinished k rest ≡ 0
  Fine k ends rest = unfinished k rest ≡ 0

  abbrev pub Good : List (K × Status) → Type 0
  Good [] = Unit
  Good ((k, status) ∷ rest) = Fine k status rest × Good rest

pub not_last : (m n : ℕ) → m < n → (m == n) ≡ false
not_last m n h = ground arith

module _ {K : Type 0} where
  pub length-set_status :
      (n : ℕ) (status : Status) (ts : List (K × Status))
      → length (set_status n status ts) ≡ length ts
  length-set_status n status [] = refl
  length-set_status n status ((k, old) ∷ rest) =
      if_cases (λ (l : List (K × Status)). length l ≡ suc (length rest)) (n == length rest)
        (λ _. refl) λ _. ap suc (length-set_status n status rest)

  pub task_below :
      (n : ℕ) (t : K × Status) (ts : List (K × Status)) → task n ts ≡ some t → n < length ts
  task_below n t [] h = absurd (none-ne-some t h)
  task_below n t (u ∷ rest) h = elim (Bool-cases (n == length rest)) [
    | inl e ↦ omega (arith, (==_iff n (length rest)).0 e)
    | inr e ↦ omega (arith, task_below n t rest (rw e at h))
  ]

  pub task-earlier :
      (m n : ℕ) (ts : List (K × Status))
      → m < length (earlier n ts)
      → task m ts ≡ task m (earlier n ts)
  task-earlier m n [] h = refl
  task-earlier m n (t ∷ rest) h = elim (Bool-cases (n == length rest)) [
    | inl e ↦ let b : m < length rest = rw e at h in rw (e, not_last m (length rest) b) refl
    | inr e ↦
        let b : m < length (earlier n rest) = rw e at h in
        rw (e, not_last m (length rest) (omega (arith, b, earlier_shorter n rest)))
          (task-earlier m n rest b)
  ]
    where
      earlier_shorter : (n : ℕ) (ts : List (K × Status)) → length (earlier n ts) ≤ length ts
      earlier_shorter n [] = omega arith
      earlier_shorter n (t ∷ rest) =
          if_cases (λ (l : List (K × Status)). length l ≤ suc (length rest)) (n == length rest)
            (λ _. omega arith) λ _. omega (arith, earlier_shorter n rest)

module _ {K : Type 0} (same : K → K → Bool) where
  pub last_of-set_status :
      (k : K) (n : ℕ) (status : Status) (ts : List (K × Status))
      → last_of same k (set_status n status ts) ≡ last_of same k ts
  last_of-set_status k n status [] = refl
  last_of-set_status k n status ((key, old) ∷ rest) =
      if_cases (λ (l : List (K × Status)). last_of same k l ≡ last_of same k ((key, old) ∷ rest))
        (n == length rest) (λ _. refl)
        λ _. rw (length-set_status n status rest, last_of-set_status k n status rest) refl

  pub last_of_below :
      (k : K) (m : ℕ) (ts : List (K × Status)) → last_of same k ts ≡ some m → m < length ts
  last_of_below k m [] h = absurd (none-ne-some m h)
  last_of_below k m ((key, status) ∷ rest) h = elim (Bool-cases (same key k)) [
    | inl e ↦
        let x : some (length rest) ≡ some m = rw e at h in
        omega (arith, some-injective (length rest) m x)
    | inr e ↦ omega (arith, last_of_below k m rest (rw e at h))
  ]

  pub Fine-earlier :
      (n : ℕ) (k : K) (status : Status) (ts : List (K × Status))
      → Good same ts
      → task n ts ≡ some (k, status)
      → Fine same k status (earlier n ts)
  Fine-earlier n k status [] g h = absurd (none-ne-some (k, status) h)
  Fine-earlier n k status ((key, old) ∷ rest) (f, g) h = elim (Bool-cases (n == length rest)) [
    | inl e ↦ rw e (
        subst (λ t. Fine same t.0 t.1 rest)
          (some-injective (key, old) (k, status)
            (let x : some (key, old) ≡ some (k, status) = rw e at h in x))
          f)
    | inr e ↦ rw e (Fine-earlier n k status rest g (rw e at h))
  ]

  pub Good-earlier : (n : ℕ) (ts : List (K × Status)) → Good same ts → Good same (earlier n ts)
  Good-earlier n [] g = g
  Good-earlier n ((key, old) ∷ rest) (f, g) =
      if_cases (Good same) (n == length rest) (λ _. g) λ _. Good-earlier n rest g
