-- ===== src/EncodeObject.antt =====
-- packages/octagonal-wheels/src/encoding/encodeobject.ts. A text is the list of its UTF-16 code units. The
-- numbers of JavaScript are a parameter `N`, with what prints and parses them; so are JSON.stringify and
-- JSON.parse. An object is the list of its own enumerable properties in JavaScript's order.
pub mod Base36
pub mod Position
pub mod Decode
mod Tests
use fancy_kit.Common.{
  ℕ, zero, suc, ◌+◌, ◌-◌, ◌≤◌, Bool, true, false, not, ◌&&◌, ◌||◌, List, [], ◌∷◌, ◌++◌, Option,
  none, some, length, ltb, leb, ◌==◌, if◌then◌else◌, and_then,
}
use fancy_kit.Common.Int.{ℤ, pos, ◌+ℤ◌, ltb_ℤ}
use fancy_kit.Common.Texts.{same}
use fancy_kit.EncodeObject.Base36.{to_base36, parse_int}
use fancy_kit.EncodeObject.Position.{char_at, substring}

mutual
  pub data Value (N : Type 0) : Type 0 where
    undefined_value null_value false_value true_value : Value N
    num : N → Value N
    str : List ℕ → Value N
    arr : Values N → Value N
    obj : Props N → Value N

  pub data Values (N : Type 0) : Type 0 where
    nil : Values N
    cons : Value N → Values N → Values N

  pub data Props (N : Type 0) : Type 0 where
    end : Props N
    prop : List ℕ → Value N → Props N → Props N

-- What the platform does: Number.isInteger, toString and toString(36), parseFloat and parseInt of base
-- 36 for values, JSON.stringify, JSON.parse, which may throw, and the key that a value is coerced to.
pub record Platform (N : Type 0) : Type 0 where
  pub is_integer : N → Bool
  pub to_string : N → List ℕ
  pub to_string_36 : N → List ℕ
  pub parse_float : List ℕ → N
  pub parse_int_36 : List ℕ → N
  pub stringify : Value N → List ℕ
  pub parse : List ℕ → Option (Value N)
  pub key_text : Value N → List ℕ

abbrev pub is_valid_length : ℕ → Bool
is_valid_length len = leb 1 len && leb len 5

-- The marker of a length of one digit: `V` for strings, `v` for objects, `a` for decimal numbers and `A`
-- for numbers of base 36. The markers of longer lengths follow it.
abbrev pub string_marker : ℕ
string_marker = 86

abbrev pub object_marker : ℕ
object_marker = 118

abbrev pub decimal_marker : ℕ
decimal_marker = 97

abbrev pub base36_marker : ℕ
base36_marker = 65

-- A marker, the length of the text and the text. `none` is a throw.
pub framed : ℕ → List ℕ → Option (List ℕ)
framed marker text =
    let len = to_base36 (length text) in
    if is_valid_length (length len)
    then some ((marker + (length len - 1)) ∷ (len ++ text))
    else none

module _ {N : Type 0} where
  abbrev pub is_undefined : Value N → Bool
  is_undefined undefined_value = true
  is_undefined null_value = false
  is_undefined false_value = false
  is_undefined true_value = false
  is_undefined (num n) = false
  is_undefined (str s) = false
  is_undefined (arr vs) = false
  is_undefined (obj ps) = false

  -- `Object.values(v).indexOf(undefined) !== -1`.
  abbrev pub values_undefined : Values N → Bool
  values_undefined nil = false
  values_undefined (cons v vs) = is_undefined v || values_undefined vs

  abbrev pub props_undefined : Props N → Bool
  props_undefined end = false
  props_undefined (prop k v ps) = is_undefined v || props_undefined ps

-- The text of an object: the shorter one of JSON's and the array encoding, which is made unless `safer`
-- keeps JSON's, or the array encoding where JSON would leave something out.
abbrev pub shorter : Bool → List ℕ → List ℕ → List ℕ
shorter contains json e = if contains || ltb (length e) (length json) then e else json

abbrev pub object_text : Bool → Bool → List ℕ → Option (List ℕ) → Option (List ℕ)
object_text safer contains json encoded =
    if not safer || contains
    then and_then encoded (λ e. some (shorter contains json e))
    else some json

abbrev pub joined : Option (List ℕ) → Option (List ℕ) → Option (List ℕ)
joined a b = and_then a λ x. and_then b λ y. some (x ++ y)

-- `_` and `^`.
abbrev pub array_mark : ℕ
array_mark = 95

abbrev pub object_mark : ℕ
object_mark = 94

abbrev pub marked : ℕ → Option (List ℕ) → Option (List ℕ)
marked c encoded = and_then encoded λ e. some (c ∷ e)

module _ {N : Type 0} (platform : Platform N) where
  open platform use {
    is_integer, to_string, to_string_36, parse_float, parse_int_36, stringify, parse, key_text,
  }

  -- Base 36 for an integer whose decimal text is not shorter.
  abbrev pub is_decimal : N → Bool
  is_decimal n = not (is_integer n) || ltb (length (to_string n)) (length (to_string_36 n))

  pub encode_number : N → Option (List ℕ)
  encode_number n =
      if is_decimal n
      then framed decimal_marker (to_string n)
      else framed base36_marker (to_string_36 n)

  mutual
    pub encode_value : Bool → Value N → Option (List ℕ)
    encode_value safer undefined_value = some (117 ∷ [])
    encode_value safer null_value = some (110 ∷ [])
    encode_value safer false_value = some (102 ∷ [])
    encode_value safer true_value = some (116 ∷ [])
    encode_value safer (num n) = encode_number n
    encode_value safer (str s) = framed string_marker s
    encode_value safer (arr vs) =
        and_then
          (object_text safer (values_undefined vs) (stringify (arr vs))
            (marked array_mark (encode_any_array true vs)))
          (framed object_marker)
    encode_value safer (obj ps) =
        and_then
          (object_text safer (props_undefined ps) (stringify (obj ps))
            (marked object_mark (encode_entries ps)))
          (framed object_marker)

    pub encode_any_array : Bool → Values N → Option (List ℕ)
    encode_any_array safer nil = some []
    encode_any_array safer (cons v vs) = joined (encode_value safer v) (encode_any_array safer vs)

    -- `encodeAnyArray` of the entries, flattened.
    pub encode_entries : Props N → Option (List ℕ)
    encode_entries end = some []
    encode_entries (prop k v ps) =
        joined (framed string_marker k) (joined (encode_value true v) (encode_entries ps))
