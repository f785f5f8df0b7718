-- ===== src/EncodeObject/Decode.antt =====
-- packages/octagonal-wheels/src/encoding/encodeobject.ts: `decodeAnyArray` and `decodeObjectFromArray`.
pub mod Steps
pub mod Frames
pub mod Good
pub mod Reads
pub mod RoundTrip
pub mod Hangs
use fancy_kit.Common.{
  ℕ, zero, suc, ◌+◌, ◌-◌, Bool, true, false, ◌&&◌, List, [], ◌∷◌, Option, none, some, length, leb,
  ◌==◌, if◌then◌else◌,
}
use fancy_kit.Common.Int.{ℤ, pos, ◌+ℤ◌, ltb_ℤ}
use fancy_kit.Common.Texts.{same}
use fancy_kit.EncodeObject.{
  Value, Values, Props, undefined_value, null_value, false_value, true_value, num, str, arr, obj,
  nil, cons, end, prop, Platform, array_mark, object_mark,
}
use fancy_kit.EncodeObject.Base36.{parse_int}
use fancy_kit.EncodeObject.Position.{char_at, substring}

-- What a character of the encoding says: a constant, a number and whether it is of base 36, a string or
-- an object and which, each with the number of digits of its length, or none of these.
pub data Marker (N : Type 0) : Type 0 where
  constant : Value N → Marker N
  number_of object_of : Bool → ℕ → Marker N
  invalid : Marker N

pub data Decoded (N : Type 0) : Type 0 where
  out_of_fuel threw : Decoded N
  decoded : Values N → Decoded N

pub data Single (N : Type 0) : Type 0 where
  no_fuel failed : Single N
  single : Value N → Single N

abbrev pub between : ℕ → ℕ → ℕ → Bool
between low c high = leb low c && leb c high

module _ {N : Type 0} where
  pub find_marker : ℕ → Marker N
  find_marker c =
      if c == 117
      then constant undefined_value
      else if c == 110
      then constant null_value
      else if c == 102
      then constant false_value
      else if c == 116
      then constant true_value
      else if between 97 c 101
      then number_of false (c - 96)
      else if between 65 c 69
      then number_of true (c - 64)
      else if between 86 c 90
      then object_of true (c - 85)
      else if between 118 c 122
      then object_of false (c - 117)
      else invalid

  abbrev pub push : Value N → Decoded N → Decoded N
  push v out_of_fuel = out_of_fuel
  push v threw = threw
  push v (decoded vs) = decoded (cons v vs)

  abbrev pub push_object : Single N → Decoded N → Decoded N
  push_object no_fuel rest = out_of_fuel
  push_object failed rest = threw
  push_object (single v) rest = push v rest

  abbrev pub as_array : Decoded N → Single N
  as_array out_of_fuel = no_fuel
  as_array threw = failed
  as_array (decoded vs) = single (arr vs)

  abbrev pub parsed : Option (Value N) → Single N
  parsed none = failed
  parsed (some v) = single v

  -- A property that is there keeps its place.
  abbrev pub set_prop : List ℕ → Value N → Props N → Props N
  set_prop k v end = prop k v end
  set_prop k v (prop k' v' ps) = if same k' k then prop k' v ps else prop k' v' (set_prop k v ps)

-- The text whose length has `len` digits from `i` on, and the position after it. Without a digit the
-- length is NaN: the text is what stands in front of it, and the position is NaN, `none`.
abbrev pub text_from : List ℕ → ℤ → Option ℤ → List ℕ × Option ℤ
text_from w i none = (substring w i (pos 0), none)
text_from w i (some len) = (substring w i (i +ℤ len), some (i +ℤ len))

pub framed_text : List ℕ → ℤ → ℕ → List ℕ × Option ℤ
framed_text w i len = let j = i +ℤ pos len in text_from w j (parse_int (substring w i j))

module _ {N : Type 0} (platform : Platform N) where
  open platform use {parse_float, parse_int_36, parse, key_text}

  abbrev pub text_of : Value N → List ℕ
  text_of (str k) = k
  text_of undefined_value = key_text undefined_value
  text_of null_value = key_text null_value
  text_of false_value = key_text false_value
  text_of true_value = key_text true_value
  text_of (num n) = key_text (num n)
  text_of (arr vs) = key_text (arr vs)
  text_of (obj ps) = key_text (obj ps)

  -- `Object.fromEntries` of the pairs, onto some properties.
  abbrev pub from_entries : Props N → Values N → Props N
  from_entries ps nil = ps
  from_entries ps (cons k nil) = set_prop (text_of k) undefined_value ps
  from_entries ps (cons k (cons v rest)) = from_entries (set_prop (text_of k) v ps) rest

  abbrev pub as_object : Decoded N → Single N
  as_object out_of_fuel = no_fuel
  as_object threw = failed
  as_object (decoded vs) = single (obj (from_entries end vs))

  abbrev pub decode_object : (List ℕ → Decoded N) → List ℕ → Single N
  decode_object again [] = parsed (parse [])
  decode_object again (c ∷ cs) =
      if c == array_mark
      then as_array (again cs)
      else if c == object_mark
      then as_object (again cs)
      else parsed (parse (c ∷ cs))

  -- The rounds of the loop that follow are `again`.
  abbrev pub by_marker : (List ℕ → Option ℤ → Decoded N) → List ℕ → ℤ → Marker N → Decoded N
  by_marker again w i (constant v) = push v (again w (some (i +ℤ pos 1)))
  by_marker again w i (number_of base36 len) =
      let (text, next) = framed_text w (i +ℤ pos 1) len in
      push (num (if base36 then parse_int_36 text else parse_float text)) (again w next)
  by_marker again w i (object_of true len) =
      let (text, next) = framed_text w (i +ℤ pos 1) len in push (str text) (again w next)
  by_marker again w i (object_of false len) =
      let (text, next) = framed_text w (i +ℤ pos 1) len in
      push_object (decode_object (λ s. again s (some (pos 0))) text) (again w next)
  by_marker again w i invalid = threw

  abbrev pub at_char : (List ℕ → Option ℤ → Decoded N) → List ℕ → ℤ → Option ℕ → Decoded N
  at_char again w i none = threw
  at_char again w i (some c) = by_marker again w i (find_marker c)

  pub decode_from : ℕ → List ℕ → Option ℤ → Decoded N
  decode_from zero w i = out_of_fuel
  decode_from (suc fuel) w none = decoded nil
  decode_from (suc fuel) w (some i) =
      let item = at_char (decode_from fuel) w i (char_at w i) in
      if ltb_ℤ i (pos (length w)) then item else decoded nil

  pub decode_any_array : ℕ → List ℕ → Decoded N
  decode_any_array fuel w = decode_from fuel w (some (pos 0))
