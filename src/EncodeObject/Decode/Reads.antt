-- ===== src/EncodeObject/Decode/Reads.antt =====
-- The encoding of a value is decoded in one round, and the text of an object on its own.
use fancy_kit.Common.{
  ℕ, zero, suc, ◌+◌, ◌≤◌, ◌<◌, ◌≡◌, refl, sym, ap, ap₂, ◌∙◌, subst, Bool, true, false, not, ◌||◌,
  List, [], ◌∷◌, ◌++◌, append_assoc, append-nil, Option, some, length, length-append, ltb, arith,
  if_cases, some-injective, or_left, or_right, and_then, and_then-some,
}
use fancy_kit.Common.Int.{ℤ, pos}
use fancy_kit.EncodeObject.{
  Value, Values, Props, num, str, arr, obj, nil, cons, end, Platform, framed, string_marker,
  object_marker, decimal_marker, base36_marker, array_mark, object_mark, is_decimal, encode_number,
  joined, marked, object_text, shorter,
}
use fancy_kit.EncodeObject.Decode.{
  constant, number_of, object_of, find_marker, by_marker, decode_from, decode_object, Decoded,
  decoded, push, push_object, single, parsed, as_array, as_object,
}
use fancy_kit.EncodeObject.Decode.Steps.{
  pos_add, round_at, object_found, decimal_found, base36_found, framed-Frame,
}
use fancy_kit.EncodeObject.Decode.Frames.{at_frame, string_round}
use fancy_kit.EncodeObject.Decode.Good.{
  Json, Good, Fresh, flatten, from_entries-flatten, decode_object-json,
}

pub not_less : (a b : ℕ) → b ≤ a → ltb a b ≡ false
not_less a b h = ground arith

pub framed_pos : (marker : ℕ) (s e : List ℕ) → framed marker s ≡ some e → 1 ≤ length e
framed_pos marker s e h =
    let f = framed-Frame marker s e h in subst (λ e. 1 ≤ length e) (sym f.shape) (omega arith)

pub joined-some :
    (a b : Option (List ℕ)) (e : List ℕ)
    → joined a b ≡ some e
    → (x : List ℕ) × (y : List ℕ) × (a ≡ some x) × (b ≡ some y) × (x ++ y ≡ e)
joined-some a b e h =
    let (x, p, q) = and_then-some a (λ x. and_then b λ y. some (x ++ y)) e h in
    let (y, r, s) = and_then-some b (λ y. some (x ++ y)) e q in
    (x, y, p, r, some-injective (x ++ y) e s)

module _ {N : Type 0} (platform : Platform N) where
  open platform use {
    is_integer, to_string, to_string_36, parse_float, parse_int_36, stringify, parse,
  }

  abbrev pub dec : ℕ → List ℕ → Option ℤ → Decoded N
  dec = decode_from platform

  -- The encoding `e` of a value is decoded in one round, wherever it stands.
  abbrev pub Reads : Value N → List ℕ → Type 0
  Reads v e =
      (fuel : ℕ) (before post : List ℕ)
      → length e ≤ fuel
      → dec (suc fuel) (before ++ (e ++ post)) (some (pos (length before)))
        ≡ push v (dec fuel (before ++ (e ++ post)) (some (pos (length before + length e))))

  -- The encoding of some values at the end is decoded.
  abbrev pub ReadsAll : Values N → List ℕ → Type 0
  ReadsAll vs e =
      (fuel : ℕ) (before : List ℕ)
      → length e < fuel
      → dec fuel (before ++ e) (some (pos (length before))) ≡ decoded vs

  pub constant_Reads : (v : Value N) (c : ℕ) → find_marker c ≡ constant v → Reads v (c ∷ [])
  constant_Reads v c h fuel before post l =
      round_at platform fuel before post c
      ∙ ap (by_marker platform (dec fuel) (before ++ c ∷ post) (pos (length before))) h
      ∙ ap (λ i. push v (dec fuel (before ++ c ∷ post) (some i))) (pos_add (length before) 1)

  pub string_Reads : (s e : List ℕ) → framed string_marker s ≡ some e → Reads (str s) e
  string_Reads s e h fuel before post l = string_round platform fuel before post s e h

  pub number_Reads :
      (n : N) (e : List ℕ)
      → Good platform (num n)
      → encode_number platform n ≡ some e
      → Reads (num n) e
  unfolding encode_number Good
  number_Reads n e (d, b) h =
      if_cases (λ (o : Option (List ℕ)). o ≡ some e → Reads (num n) e) (is_decimal platform n)
        (λ y x fuel before post l.
          let w = before ++ (e ++ post) in
          let (k, r, t, m) =
            at_frame platform fuel decimal_marker before post (to_string n) e (number_of false)
              decimal_found x in
          r
          ∙ ap (λ (p : List ℕ × Option ℤ). push (num (parse_float p.0)) (dec fuel w p.1)) t
          ∙ ap (λ x. push (num x) (dec fuel w (some (pos (length before + length e))))) (d y))
        (λ y x fuel before post l.
          let w = before ++ (e ++ post) in
          let (k, r, t, m) =
            at_frame platform fuel base36_marker before post (to_string_36 n) e (number_of true)
              base36_found x in
          r
          ∙ ap (λ (p : List ℕ × Option ℤ). push (num (parse_int_36 p.0)) (dec fuel w p.1)) t
          ∙ ap (λ x. push (num x) (dec fuel w (some (pos (length before + length e))))) (b y))
        h

  pub encode_number_pos : (n : N) (e : List ℕ) → encode_number platform n ≡ some e → 1 ≤ length e
  unfolding encode_number
  encode_number_pos n e h =
      if_cases (λ (o : Option (List ℕ)). o ≡ some e → 1 ≤ length e) (is_decimal platform n)
        (λ _. framed_pos decimal_marker (to_string n) e)
        (λ _. framed_pos base36_marker (to_string_36 n) e) h

  -- A framed text of an object, which is decoded on its own.
  pub object_Reads :
      (v : Value N) (t e : List ℕ)
      → framed object_marker t ≡ some e
      → ((fuel : ℕ)
          → length t < fuel
          → decode_object platform (λ s. dec fuel s (some (pos 0))) t ≡ single v)
      → Reads v e
  object_Reads v t e h inner fuel before post l =
      let w = before ++ (e ++ post) in
      let (k, r, x, m) =
        at_frame platform fuel object_marker before post t e (object_of false) object_found h in
      r
      ∙ ap
          (λ (p : List ℕ × Option ℤ).
            push_object (decode_object platform (λ s. dec fuel s (some (pos 0))) p.0)
              (dec fuel w p.1))
          x
      ∙ ap (λ o. push_object o (dec fuel w (some (pos (length before + length e)))))
          (inner fuel (omega (arith, l, m)))

  pub nil_ReadsAll : ReadsAll nil []
  unfolding decode_from
  nil_ReadsAll zero before l = absurd (omega arith)
  nil_ReadsAll (suc fuel) before l =
      rw
        (not_less (length before + 0) (length (before ++ []) + 0)
          (omega (arith, ap length (append-nil before))))
        refl

  pub cons_ReadsAll :
      (v : Value N) (vs : Values N) (e es : List ℕ)
      → 1 ≤ length e
      → Reads v e
      → ReadsAll vs es
      → ReadsAll (cons v vs) (e ++ es)
  cons_ReadsAll v vs e es some_text r rs zero before l = absurd (omega arith)
  cons_ReadsAll v vs e es some_text r rs (suc fuel) before l =
      let whole = length-append e es in
      r fuel before es (omega (arith, l, whole))
      ∙ ap₂ (λ w n. push v (dec fuel w (some (pos n)))) (sym (append_assoc before e es))
          (sym (length-append before e))
      ∙ ap (push v) (rs fuel (before ++ e) (omega (arith, l, whole, some_text)))

  -- The text of an object decodes to it.
  abbrev pub Inner : Value N → List ℕ → Type 0
  Inner v t =
      (fuel : ℕ)
      → length t < fuel
      → decode_object platform (λ s. dec fuel s (some (pos 0))) t ≡ single v

  pub Json-Inner : (v : Value N) → Json platform v → Inner v (stringify v)
  Json-Inner v (back, unmarked) fuel l =
      decode_object-json platform (λ s. dec fuel s (some (pos 0))) (stringify v) unmarked
      ∙ ap parsed back

  pub text_Inner :
      (v : Value N) (mark : ℕ) (safer contains : Bool) (encoded : Option (List ℕ)) (t : List ℕ)
      → (contains ≡ false → Json platform v)
      → ((e : List ℕ) → encoded ≡ some e → Inner v (mark ∷ e))
      → object_text safer contains (stringify v) (marked mark encoded) ≡ some t
      → Inner v t
  text_Inner v mark safer contains encoded t json array h =
      if_cases (λ (o : Option (List ℕ)). o ≡ some t → Inner v t) (not safer || contains)
        (λ y x.
          let (m, a, b) =
            and_then-some (marked mark encoded) (λ m. some (shorter contains (stringify v) m)) t
              x in
          let (e, c, d) = and_then-some encoded (λ e. some (mark ∷ e)) m a in
          subst (Inner v) (some-injective (shorter contains (stringify v) m) t b) (
            if_cases (Inner v) (contains || ltb (length m) (length (stringify v)))
              (λ y. subst (Inner v) (some-injective (mark ∷ e) m d) (array e c))
              λ n. Json-Inner v (json (or_left contains _ n))))
        (λ n x.
          subst (Inner v) (some-injective (stringify v) t x)
            (Json-Inner v (json (or_right (not safer) contains n))))
        h

  pub array_Inner : (vs : Values N) (e : List ℕ) → ReadsAll vs e → Inner (arr vs) (array_mark ∷ e)
  array_Inner vs e r fuel l = ap as_array (r fuel [] (omega (arith, l)))

  pub entries_Inner :
      (ps : Props N) (e : List ℕ)
      → Fresh end ps
      → ReadsAll (flatten ps) e
      → Inner (obj ps) (object_mark ∷ e)
  entries_Inner ps e f r fuel l =
      ap (as_object platform) (r fuel [] (omega (arith, l)))
      ∙ ap (λ ps. single (obj ps)) (from_entries-flatten platform ps f)
