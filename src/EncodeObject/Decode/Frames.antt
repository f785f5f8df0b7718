-- ===== src/EncodeObject/Decode/Frames.antt =====
-- One round of the decoder at a text with its length in front.
use fancy_kit.Common.{
  ℕ, suc, ◌+◌, ◌-◌, ◌≤◌, ◌<◌, ◌≡◌, sym, ap, ap₂, ◌∙◌, subst, true, List, [], ◌∷◌, ◌++◌,
  append_assoc, Option, some, length, length-append, arith,
}
use fancy_kit.Common.Int.{ℤ, pos, ◌+ℤ◌}
use fancy_kit.EncodeObject.{str, Platform, framed, string_marker}
use fancy_kit.EncodeObject.Base36.{parse_int}
use fancy_kit.EncodeObject.Decode.{
  Marker, object_of, find_marker, framed_text, by_marker, decode_from, Decoded, push,
}
use fancy_kit.EncodeObject.Decode.Steps.{pos_add, framed_read, round_at, string_found, framed-Frame}

frame_text :
    (before post digits s : List ℕ) (c : ℕ)
    → parse_int digits ≡ some (pos (length s))
    → framed_text
        (before ++ ((c ∷ (digits ++ s)) ++ post))
        (pos (length before) +ℤ pos 1)
        (length digits)
      ≡ (s, some (pos (length before + length (c ∷ (digits ++ s)))))
frame_text before post digits s c h =
    let k = length digits in
    let b = length before in
    let w = before ++ ((c ∷ (digits ++ s)) ++ post) in
    let moved : w ≡ (before ++ c ∷ []) ++ (digits ++ (s ++ post)) =
      ap (λ t. before ++ c ∷ t) (append_assoc digits s post)
      ∙ sym (append_assoc before (c ∷ []) (digits ++ (s ++ post))) in
    let next : b + 1 ≡ length (before ++ c ∷ []) = omega (arith, length-append before (c ∷ [])) in
    ap (λ i. framed_text w i k) (pos_add b 1)
    ∙ ap₂ (λ t n. framed_text t (pos n) k) moved next
    ∙ framed_read (before ++ c ∷ []) digits s post h
    ∙ ap (λ n. (s, some (pos n))) {x = length (before ++ c ∷ []) + k + length s}
        {y = b + length (c ∷ (digits ++ s))} (omega (arith, next, length-append digits s))

module _ {N : Type 0} (platform : Platform N) where
  abbrev pub dec : ℕ → List ℕ → Option ℤ → Decoded N
  dec = decode_from platform

  -- A round at a frame whose marker is found.
  pub at_frame :
      (fuel marker : ℕ) (before post s e : List ℕ) (found : ℕ → Marker N)
      → ((k : ℕ) → 1 ≤ k → k ≤ 5 → find_marker (marker + (k - 1)) ≡ found k)
      → framed marker s ≡ some e
      → (k : ℕ) × (dec (suc fuel) (before ++ (e ++ post)) (some (pos (length before)))
          ≡ by_marker platform (dec fuel) (before ++ (e ++ post)) (pos (length before)) (found k))
        × (framed_text (before ++ (e ++ post)) (pos (length before) +ℤ pos 1) k
            ≡ (s, some (pos (length before + length e))))
        × (suc (length s) < length e)
  at_frame fuel marker before post s e found is_found h =
      let f = framed-Frame marker s e h in
      let k = length f.digits in
      let c = marker + (k - 1) in
      subst
        (λ e.
          (k : ℕ) × (dec (suc fuel) (before ++ (e ++ post)) (some (pos (length before)))
            ≡ by_marker platform (dec fuel) (before ++ (e ++ post)) (pos (length before)) (found k))
          × (framed_text (before ++ (e ++ post)) (pos (length before) +ℤ pos 1) k
              ≡ (s, some (pos (length before + length e))))
          × (suc (length s) < length e))
        (sym f.shape)
        (
          k,
          round_at platform fuel before ((f.digits ++ s) ++ post) c
              ∙ ap
                  (by_marker platform (dec fuel) (before ++ ((c ∷ (f.digits ++ s)) ++ post))
                    (pos (length before)))
                  (is_found k f.some_digits f.few),
          frame_text before post f.digits s c f.reads,
          omega (arith, length-append f.digits s, f.some_digits),
        )

  pub string_round :
      (fuel : ℕ) (before post s e : List ℕ)
      → framed string_marker s ≡ some e
      → dec (suc fuel) (before ++ (e ++ post)) (some (pos (length before)))
        ≡ push (str s) (dec fuel (before ++ (e ++ post)) (some (pos (length before + length e))))
  string_round fuel before post s e h =
      let w = before ++ (e ++ post) in
      let (k, r, t, l) =
        at_frame fuel string_marker before post s e (object_of true) string_found h in
      r ∙ ap (λ (p : List ℕ × Option ℤ). push (str p.0) (dec fuel w p.1)) t
