-- ===== src/EncodeObject/Decode/Steps.antt =====
-- One round of the decoder at a marker.
use fancy_kit.Common.{
  ℕ, suc, ◌+◌, ◌-◌, ◌≤◌, ◌≡◌, sym, ap, ap₂, ◌∙◌, true, false, List, ◌∷◌, ◌++◌, append_assoc, Option,
  some, length, length-append, ltb, if◌then◌else◌, arith, lt→ltb, if_cases, some-injective,
  none-ne-some,
}
use fancy_kit.Common.Int.{pos, ◌+ℤ◌}
use fancy_kit.EncodeObject.{
  nil, Platform, framed, is_valid_length, string_marker, object_marker, decimal_marker,
  base36_marker,
}
use fancy_kit.EncodeObject.Base36.{to_base36, parse_int, length-to_base36, parse_int-to_base36}
use fancy_kit.EncodeObject.Position.{char_at, substring, char_at-append, substring-append}
use fancy_kit.EncodeObject.Decode.{
  decoded, number_of, object_of, find_marker, text_from, framed_text, by_marker, at_char,
  decode_from,
}

at_most_five : (n : ℕ) → is_valid_length n ≡ true → n ≤ 5
at_most_five n h = ground arith

pub pos_add : (n m : ℕ) → pos n +ℤ pos m ≡ pos (n + m)
unfolding ◌+ℤ◌
pos_add n m = ground arith

text_read :
    (before s rest : List ℕ)
    → text_from (before ++ (s ++ rest)) (pos (length before)) (some (pos (length s)))
      ≡ (s, some (pos (length before + length s)))
text_read before s rest =
    rw (pos_add (length before) (length s))
      (ap (λ t. (t, some (pos (length before + length s)))) (substring-append before s rest))

pub framed_read :
    (before digits s rest : List ℕ)
    → parse_int digits ≡ some (pos (length s))
    → framed_text (before ++ (digits ++ (s ++ rest))) (pos (length before)) (length digits)
      ≡ (s, some (pos (length before + length digits + length s)))
unfolding framed_text
framed_read before digits s rest h =
    let w = before ++ (digits ++ (s ++ rest)) in
    let b = length before in
    let d = length digits in
    let split = sym (append_assoc before digits (s ++ rest)) in
    let sum = sym (length-append before digits) in
    ap (λ j. text_from w j (parse_int (substring w (pos b) j))) (pos_add b d)
    ∙ ap (λ t. text_from w (pos (b + d)) (parse_int t)) (substring-append before digits (s ++ rest))
    ∙ ap (text_from w (pos (b + d))) h
    ∙ ap₂ (λ t n. text_from t (pos n) (some (pos (length s)))) split sum
    ∙ text_read (before ++ digits) s rest
    ∙ ap (λ n. (s, some (pos (n + length s)))) (sym sum)

module _ {N : Type 0} (platform : Platform N) where
  pub round_at :
      (fuel : ℕ) (before rest : List ℕ) (c : ℕ)
      → let w = before ++ c ∷ rest in
        decode_from platform (suc fuel) w (some (pos (length before)))
        ≡ by_marker platform (decode_from platform fuel) w (pos (length before)) (find_marker c)
  unfolding decode_from
  round_at fuel before rest c =
      let w = before ++ c ∷ rest in
      let again = decode_from platform fuel in
      let inside : ltb (length before + 0) (length w + 0) ≡ true =
        lt→ltb _ _ (omega (arith, length-append before (c ∷ rest))) in
      ap
        (λ b.
          if b
          then at_char platform again w (pos (length before)) (char_at w (pos (length before)))
          else decoded nil)
        inside
      ∙ ap (at_char platform again w (pos (length before))) (char_at-append before rest c)

module _ {N : Type 0} where
  pub string_found :
      (k : ℕ) → 1 ≤ k → k ≤ 5 → find_marker {N = N} (string_marker + (k - 1)) ≡ object_of true k
  unfolding find_marker
  string_found k a b = ground arith

  pub object_found :
      (k : ℕ) → 1 ≤ k → k ≤ 5 → find_marker {N = N} (object_marker + (k - 1)) ≡ object_of false k
  unfolding find_marker
  object_found k a b = ground arith

  pub decimal_found :
      (k : ℕ) → 1 ≤ k → k ≤ 5 → find_marker {N = N} (decimal_marker + (k - 1)) ≡ number_of false k
  unfolding find_marker
  decimal_found k a b = ground arith

  pub base36_found :
      (k : ℕ) → 1 ≤ k → k ≤ 5 → find_marker {N = N} (base36_marker + (k - 1)) ≡ number_of true k
  unfolding find_marker
  base36_found k a b = ground arith

-- A framed text is read back from the place after its marker.
pub record Frame (marker : ℕ) (s e : List ℕ) : Type 0 where
  pub digits : List ℕ
  pub few : length digits ≤ 5
  pub some_digits : 1 ≤ length digits
  pub shape : e ≡ (marker + (length digits - 1)) ∷ (digits ++ s)
  pub reads : parse_int digits ≡ some (pos (length s))

pub framed-Frame : (marker : ℕ) (s e : List ℕ) → framed marker s ≡ some e → Frame marker s e
unfolding framed
framed-Frame marker s e h =
    let digits = to_base36 (length s) in
    if_cases (λ (o : Option (List ℕ)). o ≡ some e → Frame marker s e)
      (is_valid_length (length digits))
      (λ valid x. record {
        digits = digits;
        few = at_most_five (length digits) valid;
        some_digits = length-to_base36 (length s);
        shape = sym (some-injective _ e x);
        reads = parse_int-to_base36 (length s);
      })
      (λ _ x. absurd (none-ne-some e x)) h
