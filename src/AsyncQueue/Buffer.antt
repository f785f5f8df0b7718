-- ===== src/AsyncQueue/Buffer.antt =====
-- The list behind the circular buffer, and the loop of `growBuffer`.
use fancy_kit.Common.{
  ℕ, zero, suc, ◌+◌, ◌*◌, ◌%◌, ◌≤◌, ◌<◌, ◌≡◌, refl, sym, ap, subst, append-nil, append_assoc,
  length-append, max, ◌∙◌, ◌≢◌, List, [], ◌∷◌, ◌++◌, Option, none, some, length, get_or, set,
  replicate, length-set, length-replicate, arith,
}
use fancy_kit.Common.Ring.{Holds, Holds-mod, Holds-write_after, Holds-write_before}
use native.Mathlib.Nat.{mod-lt, mod-eq_of_lt, mod-mod}
use fancy_kit.AsyncQueue.{copy_from}

module _ {ℓ} {A : Type ℓ} where
  abbrev pub slots : List (Option A) → ℕ → Option A
  slots b i = get_or b i none

  get_or-set_ne :
      (b : List (Option A)) (i j : ℕ) (v : Option A) → j ≢ i → slots (set b i v) j ≡ slots b j
  get_or-set_ne [] i j v h = refl
  get_or-set_ne (x ∷ b) zero zero v h = absurd (h refl)
  get_or-set_ne (x ∷ b) zero (suc j) v h = refl
  get_or-set_ne (x ∷ b) (suc i) zero v h = refl
  get_or-set_ne (x ∷ b) (suc i) (suc j) v h = get_or-set_ne b i j v (λ e. h (ap suc e))

  get_or-set_self :
      (b : List (Option A)) (i : ℕ) (v : Option A) → i < length b → slots (set b i v) i ≡ v
  get_or-set_self [] i v h = elim h [ ]
  get_or-set_self (x ∷ b) zero v h = refl
  get_or-set_self (x ∷ b) (suc i) v h = get_or-set_self b i v (omega arith)

  -- The items from `i` on, in a buffer read modulo its own length.
  abbrev pub Contains : List (Option A) → ℕ → List A → Type ℓ
  Contains b i xs = Holds (slots b) (length b) i xs

  pub Contains-set_after :
      (b : List (Option A)) (i : ℕ) (xs : List A) (y : A)
      → length xs < length b
      → Contains b i xs
      → Contains (set b ((i + length xs) % length b) (some y)) i (xs ++ y ∷ [])
  Contains-set_after b i xs y room h = rw (length-set b ((i + length xs) % length b) (some y)) (
      Holds-write_after (slots b) _ (length b) i xs y room (λ j e. get_or-set_ne b _ j (some y) e)
        (get_or-set_self b _ (some y) (mod-lt (i + length xs) (omega arith))) h)

  pub Contains-set_before :
      (b : List (Option A)) (i : ℕ) (xs : List A)
      → i < length b
      → length xs < length b
      → Contains b (suc i) xs
      → Contains (set b i none) (suc i) xs
  Contains-set_before b i xs here room h =
      let v : Option A = none in
      rw (length-set b i v) (
        Holds-write_before (slots b) _ (length b) i xs room
          (λ j e. get_or-set_ne b i j none (λ f. e (f ∙ sym (mod-eq_of_lt here)))) h)

  pub Contains-mod :
      (b : List (Option A)) (i j : ℕ) (xs : List A)
      → i % length b ≡ j % length b
      → Contains b i xs
      → Contains b j xs
  Contains-mod b i j xs = Holds-mod (slots b) (length b) i j xs

  pub length-copy_from :
      (b : List (Option A)) (head index left : ℕ) (t : List (Option A))
      → length (copy_from b head index left t) ≡ length t
  unfolding copy_from
  length-copy_from b head index zero t = refl
  length-copy_from b head index (suc left) t =
      length-copy_from b head (index + 1) left (set t index _) ∙ length-set t index _

  -- The loop of `growBuffer` lays the items out from the index 0 on.
  pub copy_from-Contains :
      (b : List (Option A)) (head index : ℕ) (xs done : List A) (t : List (Option A))
      → index ≡ length done
      → index + length xs ≤ length t
      → Contains b (head + index) xs
      → Contains t 0 done
      → Contains (copy_from b head index (length xs) t) 0 (done ++ xs)
  unfolding copy_from
  copy_from-Contains b head index [] done t e room h k = rw append-nil k
  copy_from-Contains b head index (x ∷ xs) done t e room h k =
      subst
        (λ v.
          Contains (copy_from b head (index + 1) (length xs) (set t index v)) 0 (done ++ x ∷ xs))
        (sym h.0)
        (rw (← append_assoc done (x ∷ []) xs) (
          copy_from-Contains b head (index + 1) xs (done ++ x ∷ []) (set t index (some x))
            (omega (arith, length-append done (x ∷ [])))
            (omega (arith, length-set t index (some x)))
            (Contains-mod b (suc (head + index)) (head + (index + 1)) xs
              (ap (λ n. n % length b) {x = suc (head + index)} {y = head + (index + 1)}
                (omega arith))
              h.1)
            (subst (λ n. Contains (set t n (some x)) 0 (done ++ x ∷ [])) place
              (Contains-set_after t 0 done x (omega arith) k))))
    where
      place : (0 + length done) % length t ≡ index
      place = mod-eq_of_lt {n = 0 + length done} (omega arith) ∙ omega arith

  module _ (b : List (Option A)) (i : ℕ) (x : A) (xs : List A) (here : i < length b) where
    -- The oldest item stands at the head.
    pub slots_head : Contains b i (x ∷ xs) → slots b i ≡ some x
    slots_head h = ap (slots b) (sym (mod-eq_of_lt here)) ∙ h.0

    -- When it is taken out, the others follow from the next place.
    pub Contains-take :
        length (x ∷ xs) ≤ length b
        → Contains b i (x ∷ xs)
        → Contains (set b i none) ((i + 1) % length b) xs
    Contains-take room h =
        let v : Option A = none in
        Contains-mod (set b i none) (suc i) ((i + 1) % length b) xs
          (rw (length-set b i v) (
            ap (λ n. n % length b) {x = suc i} {y = i + 1} (omega arith)
            ∙ sym (mod-mod (i + 1) (length b))))
          (Contains-set_before b i xs here (omega arith) h.1)

  pub replicate_room :
      (b : List (Option A)) (n : ℕ) (v : Option A)
      → n ≡ length b
      → n < length (replicate (max (length b * 2) 8) v)
  replicate_room b n v e = omega (arith, length-replicate (max (length b * 2) 8) v)
