-- ===== src/KeyedLock/Changes.antt =====
-- What a change of one task's status keeps of the order of the tasks.
use fancy_kit.Common.{
  ℕ, ◌+◌, ◌≤◌, arith, ◌≡◌, ◌↔◌, refl, sym, ap, ◌∙◌, subst, Bool, true, false, List, [], ◌∷◌, some,
  length, ◌==◌, ==_iff, if◌then◌else◌, Bool-cases, inl, inr, none-ne-some, some-injective,
}
use fancy_kit.KeyedLock.{Status, waits, runs, ends, task, set_status, has_ended}
use fancy_kit.KeyedLock.Order.{
  open_of, earlier, last_of, unfinished, Fine, Good, last_of-set_status, not_last, last_of_below,
}

module _ {K : Type 0} (same : K → K → Bool)
    (same_iff : (a b : K) → (same a b ≡ true) ↔ (a ≡ b)) where
  ended_first :
      (key : K) (status : Status) (rest : List (K × Status))
      → has_ended (some (key, status)) ≡ true
      → Fine same key status rest
      → open_of status + unfinished same key rest ≡ 0
  ended_first key (waits m) rest h f = cc
  ended_first key runs rest h f = cc
  ended_first key ends rest h f = omega (arith, f)

  -- The newest task of a key has ended only if all have.
  pub all_ended :
      (k : K) (m : ℕ) (ts : List (K × Status))
      → Good same ts
      → last_of same k ts ≡ some m
      → has_ended (task m ts) ≡ true
      → unfinished same k ts ≡ 0
  all_ended k m [] g h e = refl
  all_ended k m ((key, status) ∷ rest) (f, g) h e = elim (Bool-cases (same key k)) [
    | inl t ↦
        let m_eq : m ≡ length rest =
          sym (
            some-injective (length rest) m
              (let x : some (length rest) ≡ some m = rw t at h in x)) in
        let first : has_ended (some (key, status)) ≡ true =
          rw ((==_iff m (length rest)).1 m_eq) at e in
        rw t (
          subst (λ j. open_of status + unfinished same j rest ≡ 0) ((same_iff key k).0 t)
            (ended_first key status rest first f))
    | inr t ↦
        let l : last_of same k rest ≡ some m = rw t at h in
        let n = not_last m (length rest) (last_of_below same k m rest l) in
        rw t (all_ended k m rest g l (rw n at e))
  ]

  -- The number of a key's open tasks after a change of one task.
  abbrev pub mark : K → K → ℕ → ℕ
  mark k j n = if same k j then n else 0

  shift :
      (b : Bool) (x y z : ℕ)
      → (if b then x else 0) + (if b then y + z else z)
        ≡ (if b then y else 0) + (if b then x + z else z)
  shift true x y z = omega arith
  shift false x y z = omega arith

  skip :
      (b : Bool) (u x y m n : ℕ)
      → x + m ≡ y + n
      → x + (if b then u + m else m) ≡ y + (if b then u + n else n)
  skip true u x y m n h = omega (arith, h)
  skip false u x y m n h = h

  pub unfinished-set_status :
      (j : K) (n : ℕ) (k : K) (old status : Status) (ts : List (K × Status))
      → task n ts ≡ some (k, old)
      → mark k j (open_of status) + unfinished same j ts
        ≡ mark k j (open_of old) + unfinished same j (set_status n status ts)
  unfinished-set_status j n k old status [] h = absurd (none-ne-some (k, old) h)
  unfinished-set_status j n k old status ((key, now) ∷ rest) h =
      elim (Bool-cases (n == length rest)) [
        | inl e ↦
            let x : some (key, now) ≡ some (k, old) = rw e at h in
            rw e (
              subst
                (λ t.
                  mark t.0 j (open_of status) + unfinished same j ((key, now) ∷ rest)
                  ≡ mark t.0 j (open_of t.1) + unfinished same j ((key, status) ∷ rest))
                (some-injective (key, now) (k, old) x)
                (shift (same key j) (open_of status) (open_of now) (unfinished same j rest)))
        | inr e ↦ rw e (
            skip (same key j) (open_of now) (mark k j (open_of status)) (mark k j (open_of old))
              (unfinished same j rest) (unfinished same j (set_status n status rest))
              (unfinished-set_status j n k old status rest (rw e at h)))
      ]

  pub unfinished-set_status-le :
      (j : K) (n : ℕ) (k : K) (old status : Status) (ts : List (K × Status))
      → task n ts ≡ some (k, old)
      → open_of status ≤ open_of old
      → unfinished same j (set_status n status ts) ≤ unfinished same j ts
  unfinished-set_status-le j n k old status ts h o = elim (Bool-cases (same k j)) [
    | inl t ↦
        let e : open_of status + unfinished same j ts
            ≡ open_of old + unfinished same j (set_status n status ts) =
          rw t at (unfinished-set_status j n k old status ts h) in
        omega (arith, e, o)
    | inr t ↦
        let e : 0 + unfinished same j ts ≡ 0 + unfinished same j (set_status n status ts) =
          rw t at (unfinished-set_status j n k old status ts h) in
        omega (arith, e)
  ]

  pub Fine-set_status :
      (j : K) (now : Status) (n : ℕ) (k : K) (old status : Status) (ts : List (K × Status))
      → task n ts ≡ some (k, old)
      → open_of status ≤ open_of old
      → Fine same j now ts
      → Fine same j now (set_status n status ts)
  Fine-set_status j (waits m) n k old status ts h o f = last_of-set_status same j n status ts ∙ f
  Fine-set_status j runs n k old status ts h o f =
      omega (arith, f, unfinished-set_status-le j n k old status ts h o)
  Fine-set_status j ends n k old status ts h o f =
      omega (arith, f, unfinished-set_status-le j n k old status ts h o)

  pub Good-set_status :
      (n : ℕ) (k : K) (old status : Status) (ts : List (K × Status))
      → task n ts ≡ some (k, old)
      → Fine same k status (earlier n ts)
      → open_of status ≤ open_of old
      → Good same ts
      → Good same (set_status n status ts)
  Good-set_status n k old status [] h f o g = g
  Good-set_status n k old status ((key, now) ∷ rest) h f o (f', g) =
      elim (Bool-cases (n == length rest)) [
        | inl e ↦
            let x : some (key, now) ≡ some (k, old) = rw e at h in
            rw e (
              subst (λ j. Fine same j status rest)
                  (sym (ap (λ t. t.0) (some-injective (key, now) (k, old) x))) (rw e at f),
              g,
            )
        | inr e ↦ rw e (
          Fine-set_status key now n k old status rest (rw e at h) o f',
          Good-set_status n k old status rest (rw e at h) (rw e at f) o g,
        )
      ]
