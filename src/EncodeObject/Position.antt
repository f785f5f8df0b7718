-- ===== src/EncodeObject/Position.antt =====
-- Indexing a text, and String.prototype.substring, at positions that may be negative.
use fancy_kit.Common.{
  ℕ, ◌+◌, ◌-◌, ◌≡◌, refl, ap, List, [], ◌∷◌, ◌++◌, Option, none, some, length, length-append,
  get_elem?, take, drop, min, max, arith,
}
use fancy_kit.Common.Int.{ℤ, pos, negsuc, pos_part}

abbrev pub char_at : List ℕ → ℤ → Option ℕ
char_at s (pos i) = get_elem? s i
char_at s (negsuc i) = none

-- Both ends are clamped, and swapped if they are out of order.
pub substring : List ℕ → ℤ → ℤ → List ℕ
substring s from to =
    let a = min (pos_part from) (length s) in
    let b = min (pos_part to) (length s) in take (max a b - min a b) (drop (min a b) s)

pub char_at-append :
    (before rest : List ℕ) (c : ℕ) → char_at (before ++ c ∷ rest) (pos (length before)) ≡ some c
char_at-append [] rest c = refl
char_at-append (x ∷ xs) rest c = char_at-append xs rest c

drop-length : (xs ys : List ℕ) → drop (length xs) (xs ++ ys) ≡ ys
drop-length [] ys = refl
drop-length (x ∷ xs) ys = drop-length xs ys

take-length : (xs ys : List ℕ) → take (length xs) (xs ++ ys) ≡ xs
take-length [] ys = refl
take-length (x ∷ xs) ys = ap (◌∷◌ x) (take-length xs ys)

pub substring-append :
    (before s rest : List ℕ)
    → substring (before ++ (s ++ rest)) (pos (length before)) (pos (length before + length s)) ≡ s
unfolding substring
substring-append before s rest =
    let whole = before ++ (s ++ rest) in
    let total = length-append before (s ++ rest) in
    let inner = length-append s rest in
    let a : min (length before) (length whole) ≡ length before = omega (arith, total) in
    let b : min (length before + length s) (length whole) ≡ length before + length s =
      omega (arith, total, inner) in
    let width : max (length before) (length before + length s)
          - min (length before) (length before + length s)
        ≡ length s =
      omega arith in
    let low : min (length before) (length before + length s) ≡ length before = omega arith in
    rw (a, b, width, low, drop-length before (s ++ rest)) (take-length s rest)
