-- ===== src/EncodeObject/Tests.antt =====
-- The encoding on concrete values, and its theorems at concrete inputs.
use fancy_kit.Common.{ℕ, ◌≡◌, refl, true, false, List, [], ◌∷◌, some, arith}
use fancy_kit.EncodeObject
use fancy_kit.EncodeObject.{
  Value, Values, undefined_value, true_value, num, str, arr, nil, cons, Platform, encode_any_array,
}
use fancy_kit.EncodeObject.Base36.{to_base36, to_base36_fuel, digits_from}
use fancy_kit.EncodeObject.Decode.{decode_any_array, decoded, out_of_fuel}
use fancy_kit.EncodeObject.Decode.Good.{Good, AllGood}
use fancy_kit.EncodeObject.Decode.RoundTrip.{decode_any_array-encode_any_array}
use fancy_kit.EncodeObject.Decode.Hangs.{backwards, decode_any_array_hangs}

program : Unit {0}
unfolding to_base36 to_base36_fuel digits_from EncodeObject.framed EncodeObject.encode_number
    EncodeObject.encode_value EncodeObject.encode_any_array EncodeObject.encode_entries
program = tt

-- `[11]`, which is all that this platform's JSON knows.
abbrev eleven : Value ℕ
eleven = arr (cons (num 11) nil)

-- Its numbers are natural, and print in base 36 whatever the base.
abbrev naturals : Platform ℕ
naturals = record {
  is_integer = λ n. true;
  to_string = to_base36;
  to_string_36 = to_base36;
  parse_float = digits_from 0;
  parse_int_36 = digits_from 0;
  stringify = λ v. 91 ∷ 49 ∷ 49 ∷ 93 ∷ [];
  parse = λ s. some eleven;
  key_text = λ v. [];
}

-- `[true, 40, "hi", [11], [undefined]]`.
abbrev values : Values ℕ
values = cons true_value (
    cons (num 40)
      (cons (str (104 ∷ 105 ∷ [])) (cons eleven (cons (arr (cons undefined_value nil)) nil))))

-- `tA214V2hiv4[11]v2_u`, where `_A1b` would be no shorter than `[11]`.
abbrev encoded : List ℕ
encoded =
    116 ∷ 65 ∷ 50 ∷ 49 ∷ 52 ∷ 86 ∷ 50 ∷ 104 ∷ 105 ∷ 118 ∷ 52 ∷ 91 ∷ 49 ∷ 49 ∷ 93 ∷ 118 ∷ 50 ∷ 95
    ∷ 117 ∷ []

values-encoded : encode_any_array naturals false values ≡ some encoded
unfolding program
values-encoded = refl

values-AllGood : AllGood naturals values
unfolding program Good
values-AllGood = (
  tt,
  (
    (λ _. refl, λ _. refl),
    (
      tt,
      (
        (λ _. (refl, refl), ((λ _. refl, λ _. refl), tt)),
        ((λ h. let x : true ≡ false = h in absurd (cc), (tt, tt)), tt),
      ),
    ),
  ),
)

decode_any_array-encode_any_array_example : decode_any_array naturals 20 encoded ≡ decoded values
decode_any_array-encode_any_array_example =
    decode_any_array-encode_any_array naturals false values encoded 20 values-AllGood values-encoded
      (omega arith)

decode_any_array_hangs_example : decode_any_array naturals 1000 (backwards (116 ∷ [])) ≡ out_of_fuel
decode_any_array_hangs_example = decode_any_array_hangs naturals (116 ∷ []) 1000
