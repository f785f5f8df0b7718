-- ===== src/Memo/Shared.antt =====
-- The cache of a memo stays within its length, and what a rejected promise changes.
use fancy_kit.Common.{
  ℕ, suc, ◌≤◌, ◌≡◌, ◌≢◌, ◌↔◌, refl, sym, ◌∙◌, Bool, true, false, List, [], ◌∷◌, Option, none, some,
  length, ltb, ◌==◌, if_cases, arith,
}
use fancy_kit.Common.Maps.{
  map_get, map_delete, map_set, length-map_set-le, length-map_delete-le, length-map_delete,
  Distinct, deleted_key,
}
use fancy_kit.Memo.{Memo, drop_oldest, recall, call, is_current, rejected}

within : (m n : ℕ) → ltb m n ≡ false → n ≤ m
within m n h = ground arith

eq_true : (n m : ℕ) → n ≡ m → (n == m) ≡ true
eq_true n m h = ground arith

pub eq_false : (n m : ℕ) → n ≢ m → (n == m) ≡ false
eq_false n m h = ground arith

pub data Call {ℓ} (K : Type ℓ) : Type ℓ where
  calls : K → Call K
  rejects : K → ℕ → Call K

module _ {ℓ} {K : Type ℓ} (same : K → K → Bool) where
  unfoldable pub step : Memo K → Call K → Memo K
  step s (calls key) = (call same key s).0
  step s (rejects key promise) = rejected same key promise s

  unfoldable pub run : Memo K → List (Call K) → Memo K
  run s [] = s
  run s (c ∷ cs) = run (step s c) cs

module _ {ℓ} {K : Type ℓ} (same : K → K → Bool)
    (same_iff : (a b : K) → (same a b ≡ true) ↔ (a ≡ b)) where
  abbrev Small : ℕ → Memo K → Type 0
  Small n s = (s.buffer_length ≡ n) × (length s.cache ≤ n)

  drop_oldest-length :
      (es : List (K × ℕ)) (n : ℕ) → length es ≤ suc n → length (drop_oldest same es) ≤ n
  drop_oldest-length [] n h = omega arith
  drop_oldest-length ((k, p) ∷ rest) n h =
      if_cases (λ (l : List (K × ℕ)). length l ≤ n) (same k k) (λ _. omega (arith, h))
        λ e. absurd (let t = (same_iff k k).1 refl in let x : true ≡ false = sym t ∙ e in cc)

  recall-Small :
      (n : ℕ) (key : K) (s : Memo K) (o : Option ℕ)
      → map_get same key s.cache ≡ o
      → Small n s
      → Small n (recall same key s o).0
  recall-Small n key s (some p) e (b, l) = (
    b,
    omega (
      arith,
      l,
      length-map_delete same key p s.cache e,
      length-map_set-le same key p (map_delete same key s.cache),
    ),
  )
  recall-Small n key s none e (b, l) =
      let cache = map_set same key s.called s.cache in
      let more = length-map_set-le same key s.called s.cache in
      (
        b,
        if_cases (λ (c : List (K × ℕ)). length c ≤ n) (ltb s.buffer_length (length cache))
            (λ _. drop_oldest-length cache n (omega (arith, more, l)))
            λ f. omega (arith, within s.buffer_length (length cache) f, b),
      )

  step-Small : (n : ℕ) (s : Memo K) (c : Call K) → Small n s → Small n (step same s c)
  unfolding step call rejected
  step-Small n s (calls key) v = recall-Small n key s (map_get same key s.cache) refl v
  step-Small n s (rejects key p) (b, l) =
      if_cases (λ (t : Memo K). Small n t) (is_current same (map_get same key s.cache) p)
        (λ _. (b, omega (arith, l, length-map_delete-le same key s.cache))) λ _. (b, l)

  run-Small : (n : ℕ) (s : Memo K) (cs : List (Call K)) → Small n s → Small n (run same s cs)
  unfolding run
  run-Small n s [] v = v
  run-Small n s (c ∷ cs) v = run-Small n (step same s c) cs (step-Small n s c v)

  -- However a memo is called, and whatever promises are rejected, it keeps at most as many promises
  -- as its buffer length, if it kept no more at the start.
  pub run_within :
      (s : Memo K) (cs : List (Call K))
      → length s.cache ≤ s.buffer_length
      → length (run same s cs).cache ≤ s.buffer_length
  run_within s cs h = let (b, l) = run-Small s.buffer_length s cs (refl, h) in l

  pub hit :
      (key : K) (t : Memo K) (promise : ℕ)
      → map_get same key t.cache ≡ some promise
      → let (u, again) = call same key t in (again ≡ promise) × (u.called ≡ t.called)
  unfolding call
  hit key t promise e = rw e (refl, refl)

  -- In a cache where no key stands twice, the rejection of the promise that is cached for a key makes
  -- the next call with the key call `fn` again; the rejection of another promise changes nothing.
  pub rejected_retries :
      (key : K) (current promise : ℕ) (s : Memo K)
      → Distinct same same_iff s.cache
      → map_get same key s.cache ≡ some current
      → ((current ≡ promise)
          → let (t, again) = call same key (rejected same key promise s) in
            (again ≡ s.called) × (t.called ≡ suc s.called))
        × (current ≢ promise → rejected same key promise s ≡ s)
  unfolding call rejected
  rejected_retries key current promise s d e = (
    λ x.
        rw (e, eq_true current promise x)
          (rw (deleted_key same same_iff key s.cache d) (refl, refl)),
    λ x. rw (e, eq_false current promise x) refl,
  )
