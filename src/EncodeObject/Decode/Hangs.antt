-- ===== src/EncodeObject/Decode/Hangs.antt =====
-- A length with a minus sign takes the decoder back to the start.
use fancy_kit.Common.{ℕ, zero, suc, ◌≡◌, refl, ap, ◌∙◌, List, [], ◌∷◌, Option, some}
use fancy_kit.Common.Int.{ℤ, pos, negsuc, ◌+ℤ◌}
use fancy_kit.EncodeObject.{Platform, str}
use fancy_kit.EncodeObject.Base36.{parse_int, digits_from}
use fancy_kit.EncodeObject.Position.{substring, substring-append}
use fancy_kit.EncodeObject.Decode.{
  find_marker, text_from, framed_text, push, decode_from, decode_any_array, out_of_fuel,
}
use fancy_kit.EncodeObject.Decode.Steps.{round_at}

-- `W-3` and what follows.
abbrev pub backwards : List ℕ → List ℕ
backwards rest = 87 ∷ 45 ∷ 51 ∷ rest

minus_three : parse_int (45 ∷ 51 ∷ []) ≡ some (negsuc 2)
unfolding parse_int digits_from
minus_three = refl

back_to_start :
    (rest : List ℕ)
    → framed_text (backwards rest) (pos 0 +ℤ pos 1) 2
      ≡ (substring (backwards rest) (pos 3) (pos 0), some (pos 0))
unfolding framed_text ◌+ℤ◌
back_to_start rest =
    ap (λ t. text_from (backwards rest) (pos 3) (parse_int t))
      (substring-append (87 ∷ []) (45 ∷ 51 ∷ []) rest)
    ∙ ap (text_from (backwards rest) (pos 3)) minus_three

module _ {N : Type 0} (platform : Platform N) where
  again :
      (fuel : ℕ) (rest : List ℕ)
      → decode_from platform (suc fuel) (backwards rest) (some (pos 0))
        ≡ push
            (str (substring (backwards rest) (pos 3) (pos 0)))
            (decode_from platform fuel (backwards rest) (some (pos 0)))
  unfolding find_marker
  again fuel rest =
      round_at platform fuel [] (45 ∷ 51 ∷ rest) 87
      ∙ ap
          (λ (p : List ℕ × Option ℤ).
            push (str p.0) (decode_from platform fuel (backwards rest) p.1))
          (back_to_start rest)

  -- `decodeAnyArray` of a text that starts with `W-3` never returns and never throws: no number of rounds
  -- is enough.
  pub decode_any_array_hangs :
      (rest : List ℕ) (fuel : ℕ) → decode_any_array platform fuel (backwards rest) ≡ out_of_fuel
  unfolding decode_any_array decode_from
  decode_any_array_hangs rest zero = refl
  decode_any_array_hangs rest (suc fuel) =
      again fuel rest
      ∙ ap (push (str (substring (backwards rest) (pos 3) (pos 0))))
          (decode_any_array_hangs rest fuel)
