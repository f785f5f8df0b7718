-- ===== src/Common/Ring.antt =====
-- Circular buffers: an array read through running indices that are reduced by a modulus.
use fancy_kit.Common.{
  ℕ, suc, ◌+◌, ◌-◌, ◌%◌, ◌<◌, ◌≡◌, sym, ap, ◌∙◌, ◌≢◌, List, [], ◌∷◌, ◌++◌, Option, some, length,
  arith,
}
use native.Mathlib.Nat.{mod-lt, mod-eq_of_lt, mod-add-mod, mod-eq-sub-mod}
use native.Mathlib.Decide.{dec_lt}

pub mod_shift : (n a b : ℕ) → a % n ≡ b % n → suc a % n ≡ suc b % n
mod_shift n a b e = cc (
  mod-add-mod a n 1,
  mod-add-mod b n 1,
  (let p : a + 1 ≡ suc a = omega arith in p),
  (let p : b + 1 ≡ suc b = omega arith in p),
)

-- Two running indices less than the modulus apart fall on different places.
pub mod_apart : (n a d : ℕ) → 0 < d → d < n → (a + d) % n ≢ a % n
mod_apart n a d p q e = elim (dec_lt (a % n + d) n) [
  | yes h ↦ omega (arith, mod-add-mod a n d, mod-eq_of_lt h)
  | no h ↦ omega (
    arith,
    mod-add-mod a n d,
    mod-lt a {m = n} (omega arith),
    mod-eq-sub-mod {n = a % n + d} {m = n} (omega arith),
    mod-eq_of_lt {n = a % n + d - n} {m = n} (omega (arith, mod-lt a {m = n} (omega arith))),
  )
]

module _ {ℓ} {A : Type ℓ} where
  -- From the running index `i` on, the array holds exactly these items.
  abbrev pub Holds : (ℕ → Option A) → ℕ → ℕ → List A → Type ℓ
  Holds f n i [] = Unit
  Holds f n i (x ∷ xs) = (f (i % n) ≡ some x) × Holds f n (suc i) xs

  pub Holds-mod :
      (f : ℕ → Option A) (n i j : ℕ) (xs : List A) → i % n ≡ j % n → Holds f n i xs → Holds f n j xs
  Holds-mod f n i j [] e h = tt
  Holds-mod f n i j (x ∷ xs) e h =
      (ap f (sym e) ∙ h.0, Holds-mod f n (suc i) (suc j) xs (mod_shift n i j e) h.1)

  -- A write to a place that none of the items stands in.
  pub Holds-avoid :
      (f g : ℕ → Option A) (n i w : ℕ) (xs : List A)
      → ((j : ℕ) → j ≢ w → g j ≡ f j)
      → ((k : ℕ) → k < length xs → (i + k) % n ≢ w)
      → Holds f n i xs
      → Holds g n i xs
  Holds-avoid f g n i w [] same away h = tt
  Holds-avoid f g n i w (x ∷ xs) same away h = (
    same (i % n) (λ e. away 0 (omega arith) (ap (λ t. t % n) {x = i + 0} {y = i} (omega arith) ∙ e))
        ∙ h.0,
    Holds-avoid f g n (suc i) w xs same
        (λ k p e.
          away (suc k) (omega arith)
            (ap (λ t. t % n) {x = i + suc k} {y = suc i + k} (omega arith) ∙ e))
        h.1,
  )

  pub Holds-append :
      (f : ℕ → Option A) (n i : ℕ) (xs : List A) (y : A)
      → f ((i + length xs) % n) ≡ some y
      → Holds f n i xs
      → Holds f n i (xs ++ y ∷ [])
  Holds-append f n i [] y e h = (ap (λ t. f (t % n)) {x = i} {y = i + 0} (omega arith) ∙ e, tt)
  Holds-append f n i (x ∷ xs) y e h = (
    h.0,
    Holds-append f n (suc i) xs y
        (ap (λ t. f (t % n)) {x = suc i + length xs} {y = i + suc (length xs)} (omega arith) ∙ e)
        h.1,
  )

  -- The last item, and those before it.
  pub Holds-last :
      (f : ℕ → Option A) (n i : ℕ) (xs : List A) (y : A)
      → Holds f n i (xs ++ y ∷ [])
      → Holds f n i xs × (f ((i + length xs) % n) ≡ some y)
  Holds-last f n i [] y h = (tt, ap (λ t. f (t % n)) {x = i + 0} {y = i} (omega arith) ∙ h.0)
  Holds-last f n i (x ∷ xs) y h =
      let (before, last) = Holds-last f n (suc i) xs y h.1 in
      (
        (h.0, before),
        ap (λ t. f (t % n)) {x = i + suc (length xs)} {y = suc i + length xs} (omega arith) ∙ last,
      )

  -- A write behind the items leaves them.
  pub Holds-write_behind :
      (f g : ℕ → Option A) (n i : ℕ) (xs : List A)
      → length xs < n
      → ((j : ℕ) → j ≢ (i + length xs) % n → g j ≡ f j)
      → Holds f n i xs
      → Holds g n i xs
  Holds-write_behind f g n i xs room same h =
      Holds-avoid f g n i ((i + length xs) % n) xs same
        (λ k p e.
          mod_apart n (i + k) (length xs - k) (omega arith) (omega arith) (
            ap (λ t. t % n) {x = i + k + (length xs - k)} {y = i + length xs} (omega arith)
            ∙ sym e))
        h

  -- If it writes an item, that adds one.
  pub Holds-write_after :
      (f g : ℕ → Option A) (n i : ℕ) (xs : List A) (y : A)
      → length xs < n
      → ((j : ℕ) → j ≢ (i + length xs) % n → g j ≡ f j)
      → g ((i + length xs) % n) ≡ some y
      → Holds f n i xs
      → Holds g n i (xs ++ y ∷ [])
  Holds-write_after f g n i xs y room same written h =
      Holds-append g n i xs y written (Holds-write_behind f g n i xs room same h)

  -- A write before the items leaves them.
  pub Holds-write_before :
      (f g : ℕ → Option A) (n i : ℕ) (xs : List A)
      → length xs < n
      → ((j : ℕ) → j ≢ i % n → g j ≡ f j)
      → Holds f n (suc i) xs
      → Holds g n (suc i) xs
  Holds-write_before f g n i xs room same h =
      Holds-avoid f g n (suc i) (i % n) xs same
        (λ k p e.
          mod_apart n i (suc k) (omega arith) (omega arith)
            (ap (λ t. t % n) {x = i + suc k} {y = suc i + k} (omega arith) ∙ e))
        h
