-- ===== src/EncodeObject/Base36.antt =====
-- Number.prototype.toString(36) of a natural number and parseInt(…, 36), which the encoding uses for
-- lengths.
use fancy_kit.Common.{
  ℕ, zero, suc, ◌+◌, ◌-◌, ◌*◌, ◌/◌, ◌%◌, ◌≤◌, ◌<◌, ◌≡◌, refl, sym, ap, ◌∙◌, Bool, false, ◌&&◌, ◌||◌,
  List, [], ◌∷◌, ◌++◌, Option, none, some, length, length-append, ltb, leb, ◌==◌, if◌then◌else◌,
  if_cases, arith, ltb→lt, replicate,
}
use fancy_kit.Common.Int.{ℤ, pos, negsuc}

abbrev pub digit : ℕ → ℕ
digit d = if ltb d 10 then 48 + d else 87 + d

unfoldable pub to_base36_fuel : ℕ → ℕ → List ℕ
to_base36_fuel zero n = digit n ∷ []
to_base36_fuel (suc fuel) n =
    let front = to_base36_fuel fuel (n / 36) in
    if ltb n 36 then digit n ∷ [] else front ++ digit (n % 36) ∷ []

unfoldable pub to_base36 : ℕ → List ℕ
to_base36 n = to_base36_fuel n n

-- A digit of either case.
abbrev pub digit_value : ℕ → Option ℕ
digit_value c =
    if leb 48 c && leb c 57
    then some (c - 48)
    else if leb 97 c && leb c 122
    then some (c - 87)
    else if leb 65 c && leb c 90
    then some (c - 55)
    else none

-- The digits up to the first unit that is none, after some whose value is known.
abbrev pub go_on : ℕ → (ℕ → ℕ) → Option ℕ → ℕ
go_on acc more none = acc
go_on acc more (some d) = more d

unfoldable pub digits_from : ℕ → List ℕ → ℕ
digits_from acc [] = acc
digits_from acc (c ∷ cs) = go_on acc (λ d. digits_from (acc * 36 + d) cs) (digit_value c)

abbrev pub started : List ℕ → Option ℕ → Option ℕ
started cs none = none
started cs (some d) = some (digits_from d cs)

-- NaN, `none`, without a digit.
abbrev pub unsigned : List ℕ → Option ℕ
unsigned [] = none
unsigned (c ∷ cs) = started cs (digit_value c)

abbrev pub negated : Option ℕ → Option ℤ
negated none = none
negated (some zero) = some (pos 0)
negated (some (suc n)) = some (negsuc n)

abbrev pub as_positive : Option ℕ → Option ℤ
as_positive none = none
as_positive (some n) = some (pos n)

abbrev pub signed : List ℕ → Option ℤ
signed [] = none
signed (c ∷ cs) =
    if c == 45
    then negated (unsigned cs)
    else if c == 43
    then as_positive (unsigned cs)
    else as_positive (unsigned (c ∷ cs))

-- White space and line terminators, which are skipped in front.
abbrev pub is_space : ℕ → Bool
is_space c =
    (leb 9 c && leb c 13)
    || ((c == 32)
        || ((c == 160)
            || ((c == 5760)
                || ((leb 8192 c && leb c 8202)
                    || ((c == 8232)
                        || ((c == 8233)
                            || ((c == 8239)
                                || ((c == 8287) || ((c == 12288) || (c == 65279))))))))))

abbrev pub trim_start : List ℕ → List ℕ
trim_start [] = []
trim_start (c ∷ cs) = if is_space c then trim_start cs else c ∷ cs

unfoldable pub parse_int : List ℕ → Option ℤ
parse_int s = signed (trim_start s)

not_below : (n m : ℕ) → ltb n m ≡ false → m ≤ n
not_below n m h = ground arith

rounds : (fuel n : ℕ) → n ≤ suc fuel → 36 ≤ n → n / 36 ≤ fuel
rounds fuel n h k = omega arith

digit_value-digit : (d : ℕ) → d < 36 → digit_value (digit d) ≡ some d
digit_value-digit d h = ground arith

digit-ne-space : (d : ℕ) → d < 36 → is_space (digit d) ≡ false
digit-ne-space d h = ground arith

digit-ne-sign : (d : ℕ) → d < 36 → ((digit d == 45) ≡ false) × ((digit d == 43) ≡ false)
digit-ne-sign d h = (ground arith, ground arith)

abbrev Digits : List ℕ → Type 0
Digits [] = Unit
Digits (c ∷ cs) = ((d : ℕ) × (d < 36) × (c ≡ digit d)) × Digits cs

Digits-append : (xs : List ℕ) (d : ℕ) → d < 36 → Digits xs → Digits (xs ++ digit d ∷ [])
Digits-append [] d h ds = ((d, h, refl), tt)
Digits-append (c ∷ cs) d h (x, ds) = (x, Digits-append cs d h ds)

digits_from-cons :
    (acc d : ℕ) (cs : List ℕ)
    → d < 36
    → digits_from acc (digit d ∷ cs) ≡ digits_from (acc * 36 + d) cs
unfolding digits_from
digits_from-cons acc d cs h =
    ap (go_on acc (λ d. digits_from (acc * 36 + d) cs)) (digit_value-digit d h)

digits_from-append :
    (acc d : ℕ) (cs : List ℕ)
    → d < 36
    → Digits cs
    → digits_from acc (cs ++ digit d ∷ []) ≡ digits_from acc cs * 36 + d
unfolding digits_from
digits_from-append acc d [] h ds = digits_from-cons acc d [] h
digits_from-append acc d (c ∷ cs) h ((e, k, x), ds) = rw x (
    digits_from-cons acc e (cs ++ digit d ∷ []) k
    ∙ digits_from-append (acc * 36 + e) d cs h ds
    ∙ ap (λ n. n * 36 + d) (sym (digits_from-cons acc e cs k)))

to_base36_fuel-Digits : (fuel n : ℕ) → n ≤ fuel → Digits (to_base36_fuel fuel n)
unfolding to_base36_fuel
to_base36_fuel-Digits zero n h = ((n, omega arith, refl), tt)
to_base36_fuel-Digits (suc fuel) n h =
    if_cases Digits (ltb n 36) (λ e. ((n, ltb→lt n 36 e, refl), tt))
      λ e.
        Digits-append (to_base36_fuel fuel (n / 36)) (n % 36) (omega arith)
          (to_base36_fuel-Digits fuel (n / 36) (rounds fuel n h (not_below n 36 e)))

digits_from-to_base36_fuel : (fuel n : ℕ) → n ≤ fuel → digits_from 0 (to_base36_fuel fuel n) ≡ n
unfolding to_base36_fuel digits_from
digits_from-to_base36_fuel zero n h = digits_from-cons 0 n [] (omega arith) ∙ omega arith
digits_from-to_base36_fuel (suc fuel) n h =
    if_cases (λ (s : List ℕ). digits_from 0 s ≡ n) (ltb n 36)
      (λ e. digits_from-cons 0 n [] (ltb→lt n 36 e) ∙ omega arith)
      λ e.
        let few = rounds fuel n h (not_below n 36 e) in
        digits_from-append 0 (n % 36) (to_base36_fuel fuel (n / 36)) (omega arith)
          (to_base36_fuel-Digits fuel (n / 36) few)
        ∙ omega (arith, digits_from-to_base36_fuel fuel (n / 36) few)

parse_int-Digits :
    (s : List ℕ) → Digits s → 1 ≤ length s → parse_int s ≡ some (pos (digits_from 0 s))
unfolding parse_int
parse_int-Digits [] ds h = absurd (omega arith)
parse_int-Digits (c ∷ cs) ((d, k, x), ds) h =
    let (minus, plus) = digit-ne-sign d k in
    let whole = digit d ∷ cs in
    rw x (
      ap (λ b. signed (if b then trim_start cs else whole)) (digit-ne-space d k)
      ∙ ap
          (λ b.
            if b
            then negated (unsigned cs)
            else if digit d == 43
            then as_positive (unsigned cs)
            else as_positive (unsigned whole))
          minus
      ∙ ap (λ b. if b then as_positive (unsigned cs) else as_positive (unsigned whole)) plus
      ∙ ap (λ o. as_positive (started cs o)) (digit_value-digit d k)
      ∙ ap (λ n. some (pos (digits_from n cs))) {x = d} {y = 0 * 36 + d} (omega arith)
      ∙ ap (λ n. some (pos n)) (sym (digits_from-cons 0 d cs k)))

length-to_base36_fuel : (fuel n : ℕ) → 1 ≤ length (to_base36_fuel fuel n)
unfolding to_base36_fuel
length-to_base36_fuel zero n = omega arith
length-to_base36_fuel (suc fuel) n =
    if_cases (λ (s : List ℕ). 1 ≤ length s) (ltb n 36) (λ e. omega arith)
      λ e. omega (arith, length-append (to_base36_fuel fuel (n / 36)) (digit (n % 36) ∷ []))

pub length-to_base36 : (n : ℕ) → 1 ≤ length (to_base36 n)
unfolding to_base36
length-to_base36 n = length-to_base36_fuel n n

-- A number is read back from its digits.
pub parse_int-to_base36 : (n : ℕ) → parse_int (to_base36 n) ≡ some (pos n)
unfolding to_base36
parse_int-to_base36 n =
    parse_int-Digits (to_base36_fuel n n) (to_base36_fuel-Digits n n (omega arith))
      (length-to_base36_fuel n n)
    ∙ ap (λ m. some (pos m)) (digits_from-to_base36_fuel n n (omega arith))

-- Zeros in front of a number's digits change nothing.
pub digits_from-padded : (k n : ℕ) → digits_from 0 (replicate k 48 ++ to_base36 n) ≡ n
unfolding to_base36
digits_from-padded zero n = digits_from-to_base36_fuel n n (omega arith)
digits_from-padded (suc k) n =
    digits_from-cons 0 0 (replicate k 48 ++ to_base36_fuel n n) (omega arith)
    ∙ digits_from-padded k n
