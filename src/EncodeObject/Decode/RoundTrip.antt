-- ===== src/EncodeObject/Decode/RoundTrip.antt =====
-- What was encoded decodes back.
use fancy_kit.Common.{
  ℕ, ◌≤◌, ◌<◌, ◌≡◌, refl, subst, Bool, true, List, [], ◌∷◌, some, length, arith, some-injective,
  and_then-some,
}
use fancy_kit.EncodeObject.{
  Value, Values, Props, undefined_value, null_value, false_value, true_value, num, str, arr, obj,
  nil, cons, end, prop, Platform, framed, string_marker, object_marker, array_mark, object_mark,
  encode_value, encode_any_array, encode_entries, joined, marked, object_text, values_undefined,
  props_undefined,
}
use fancy_kit.EncodeObject.Decode.{find_marker, decode_any_array, decoded}
use fancy_kit.EncodeObject.Decode.Good.{Good, AllGood, PropsGood, flatten}
use fancy_kit.EncodeObject.Decode.Reads.{
  framed_pos, joined-some, Reads, ReadsAll, constant_Reads, string_Reads, number_Reads,
  encode_number_pos, object_Reads, nil_ReadsAll, cons_ReadsAll, text_Inner, array_Inner,
  entries_Inner,
}

module _ {N : Type 0} (platform : Platform N) where
  open platform use {
    is_integer, to_string, to_string_36, parse_float, parse_int_36, stringify, parse,
  }

  mutual
    unfolding encode_value encode_any_array encode_entries Good find_marker

    value_Reads :
        (safer : Bool) (v : Value N) (e : List ℕ)
        → encode_value platform safer v ≡ some e
        → Good platform v
        → (1 ≤ length e) × Reads platform v e
    value_Reads safer undefined_value e h g =
        subst (λ e. (1 ≤ length e) × Reads platform undefined_value e)
          (some-injective (117 ∷ []) e h)
          (omega arith, constant_Reads platform undefined_value 117 refl)
    value_Reads safer null_value e h g =
        subst (λ e. (1 ≤ length e) × Reads platform null_value e) (some-injective (110 ∷ []) e h)
          (omega arith, constant_Reads platform null_value 110 refl)
    value_Reads safer false_value e h g =
        subst (λ e. (1 ≤ length e) × Reads platform false_value e) (some-injective (102 ∷ []) e h)
          (omega arith, constant_Reads platform false_value 102 refl)
    value_Reads safer true_value e h g =
        subst (λ e. (1 ≤ length e) × Reads platform true_value e) (some-injective (116 ∷ []) e h)
          (omega arith, constant_Reads platform true_value 116 refl)
    value_Reads safer (num n) e h g =
        (encode_number_pos platform n e h, number_Reads platform n e g h)
    value_Reads safer (str s) e h g = (framed_pos string_marker s e h, string_Reads platform s e h)
    value_Reads safer (arr vs) e h (json, g) =
        let (t, a, b) =
          and_then-some
            (object_text safer (values_undefined vs) (stringify (arr vs))
              (marked array_mark (encode_any_array platform true vs)))
            (framed object_marker) e h in
        (
          framed_pos object_marker t e b,
          object_Reads platform (arr vs) t e b (
              text_Inner platform (arr vs) array_mark safer (values_undefined vs)
                (encode_any_array platform true vs) t json
                (λ x y. array_Inner platform vs x (values_Reads true vs x y g)) a),
        )
    value_Reads safer (obj ps) e h (json, g, f) =
        let (t, a, b) =
          and_then-some
            (object_text safer (props_undefined ps) (stringify (obj ps))
              (marked object_mark (encode_entries platform ps)))
            (framed object_marker) e h in
        (
          framed_pos object_marker t e b,
          object_Reads platform (obj ps) t e b (
              text_Inner platform (obj ps) object_mark safer (props_undefined ps)
                (encode_entries platform ps) t json
                (λ x y. entries_Inner platform ps x f (entries_Reads ps x y g)) a),
        )

    values_Reads :
        (safer : Bool) (vs : Values N) (e : List ℕ)
        → encode_any_array platform safer vs ≡ some e
        → AllGood platform vs
        → ReadsAll platform vs e
    values_Reads safer nil e h g =
        subst (ReadsAll platform nil) (some-injective [] e h) (nil_ReadsAll platform)
    values_Reads safer (cons v vs) e h (g, gs) =
        let (x, y, a, b, c) =
          joined-some (encode_value platform safer v) (encode_any_array platform safer vs) e h in
        let (m, r) = value_Reads safer v x a g in
        subst (ReadsAll platform (cons v vs)) c
          (cons_ReadsAll platform v vs x y m r (values_Reads safer vs y b gs))

    entries_Reads :
        (ps : Props N) (e : List ℕ)
        → encode_entries platform ps ≡ some e
        → PropsGood platform ps
        → ReadsAll platform (flatten ps) e
    entries_Reads end e h g =
        subst (ReadsAll platform nil) (some-injective [] e h) (nil_ReadsAll platform)
    entries_Reads (prop k v ps) e h (g, gs) =
        let (x, y, a, b, c) =
          joined-some (framed string_marker k)
            (joined (encode_value platform true v) (encode_entries platform ps)) e h in
        let (x', y', a', b', c') =
          joined-some (encode_value platform true v) (encode_entries platform ps) y b in
        let (m, r) = value_Reads true v x' a' g in
        subst (ReadsAll platform (flatten (prop k v ps))) c (
          cons_ReadsAll platform (str k) (cons v (flatten ps)) x y (framed_pos string_marker k x a)
            (string_Reads platform k x a)
            (subst (ReadsAll platform (cons v (flatten ps))) c'
              (cons_ReadsAll platform v (flatten ps) x' y' m r (entries_Reads ps y' b' gs))))

  -- What `encodeAnyArray` makes of good values, `decodeAnyArray` turns back into them, whether `safer` is
  -- set or not: numbers are read back from their chosen text, and objects without `undefined` among their
  -- own values are given back by JSON.
  pub decode_any_array-encode_any_array :
      (safer : Bool) (vs : Values N) (e : List ℕ) (fuel : ℕ)
      → AllGood platform vs
      → encode_any_array platform safer vs ≡ some e
      → length e < fuel
      → decode_any_array platform fuel e ≡ decoded vs
  unfolding decode_any_array
  decode_any_array-encode_any_array safer vs e fuel g h l = values_Reads safer vs e h g fuel [] l
