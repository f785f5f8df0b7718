-- ===== src/Memo/Between.antt =====
-- How long a promise stays cached: the calls and the rejections between two calls with a key.
use fancy_kit.Common.{
  ℕ, suc, ◌+◌, ◌≤◌, ◌<◌, ◌≡◌, ◌≢◌, ◌↔◌, refl, sym, ap, ◌∙◌, subst, Bool, true, false, List, [], ◌∷◌,
  ◌++◌, Option, none, some, none-ne-some, length, length-append, ltb, ltb→lt, if◌then◌else◌,
  if_cases, arith, Bool-cases, inl, inr, append_assoc,
}
use fancy_kit.Common.Maps.{
  map_get, map_delete, map_set, map_refresh, map_set-new, refresh_last, Distinct, Distinct-map_set,
  Distinct-map_delete, other_key, length-map_delete-le,
}
use fancy_kit.Memo.{Memo, drop_oldest, recall, call, is_current, rejected}
use fancy_kit.Memo.Shared.{Call, calls, rejects, step, run, hit, eq_false}

-- How many of the calls have another key.
abbrev pub others {ℓ} : {K : Type ℓ} → (K → K → Bool) → K → List (Call K) → ℕ
others same key [] = 0
others same key (calls k ∷ cs) = if same k key then others same key cs else suc (others same key cs)
others same key (rejects k q ∷ cs) = others same key cs

-- The promise is not rejected.
abbrev pub Unrejected {ℓ} : {K : Type ℓ} → ℕ → List (Call K) → Type 0
Unrejected promise [] = Unit
Unrejected promise (calls k ∷ cs) = Unrejected promise cs
Unrejected promise (rejects k q ∷ cs) = (q ≢ promise) × Unrejected promise cs

module _ {ℓ} {K : Type ℓ} (same : K → K → Bool)
    (same_iff : (a b : K) → (same a b ≡ true) ↔ (a ≡ b)) where
  -- The promise of the key is cached, with at most so many newer ones.
  Kept : K → ℕ → ℕ → List (K × ℕ) → Type ℓ
  Kept key promise n es =
      (before after : List (K × ℕ)) × (es ≡ before ++ (key, promise) ∷ after) × (length after ≤ n)

  module _ (key : K) (promise : ℕ) where
    delete_split :
        (k : K) (before after : List (K × ℕ))
        → k ≢ key
        → Kept key promise (length after) (map_delete same k (before ++ (key, promise) ∷ after))
    unfolding Kept
    delete_split k [] after n =
        rw (other_key same same_iff key k n)
          ([], map_delete same k after, refl, length-map_delete-le same k after)
    delete_split k ((j, q) ∷ before) after n =
        let (b, a, e, h) = delete_split k before after n in
        if_cases (Kept key promise (length after)) (same j k)
          (λ _. (before, after, refl, omega arith)) λ _. ((j, q) ∷ b, a, ap (◌∷◌ (j, q)) e, h)

    Kept-delete :
        (k : K) (n : ℕ) (es : List (K × ℕ))
        → k ≢ key
        → Kept key promise n es
        → Kept key promise n (map_delete same k es)
    unfolding Kept
    Kept-delete k n es d (before, after, e, h) =
        let (b, a, e', h') = delete_split k before after d in
        (b, a, ap (map_delete same k) e ∙ e', omega (arith, h, h'))

    Kept-append :
        (n : ℕ) (es : List (K × ℕ)) (x : K × ℕ)
        → Kept key promise n es
        → Kept key promise (suc n) (es ++ x ∷ [])
    unfolding Kept
    Kept-append n es x (before, after, e, h) = (
      before,
      after ++ x ∷ [],
      ap (λ l. l ++ x ∷ []) e ∙ append_assoc before ((key, promise) ∷ after) (x ∷ []),
      omega (arith, h, length-append after (x ∷ [])),
    )

    -- Dropping the oldest promise leaves one that has few enough newer ones.
    Kept-drop :
        (b n : ℕ) (es : List (K × ℕ))
        → n < b
        → Kept key promise n es
        → Kept key promise n (if ltb b (length es) then drop_oldest same es else es)
    unfolding Kept
    Kept-drop b n es l ([], after, e, h) =
        if_cases (Kept key promise n) (ltb b (length es))
          (λ t. absurd (omega (arith, ltb→lt b (length es) t, ap length e, h, l)))
          λ _. ([], after, e, h)
    Kept-drop b n es l ((j, q) ∷ before, after, e, h) =
        if_cases (Kept key promise n) (ltb b (length es))
          (λ _. (before, after, ap (drop_oldest same) e ∙ rw ((same_iff j j).1 refl) refl, h))
          λ _. ((j, q) ∷ before, after, e, h)

    Kept-get :
        (n : ℕ) (es : List (K × ℕ))
        → Distinct same same_iff es
        → Kept key promise n es
        → map_get same key es ≡ some promise
    unfolding Kept
    Kept-get n es d (before, after, e, h) =
        ap (map_get same key) e ∙ found before after (subst (Distinct same same_iff) e d)
      where
        found :
            (before after : List (K × ℕ))
            → Distinct same same_iff (before ++ (key, promise) ∷ after)
            → map_get same key (before ++ (key, promise) ∷ after) ≡ some promise
        found [] after d = rw ((same_iff key key).1 refl) refl
        found ((j, q) ∷ before) after (x, d) = elim (Bool-cases (same j key)) [
          | inl t ↦
              let e = (same_iff j key).0 t in
              absurd (
                none-ne-some promise (
                  sym (subst (λ k. map_get same k (before ++ (key, promise) ∷ after) ≡ none) e x)
                  ∙ found before after d))
          | inr f ↦ rw f (found before after d)
        ]

    drop-Distinct :
        (b : ℕ) (es : List (K × ℕ))
        → Distinct same same_iff es
        → Distinct same same_iff (if ltb b (length es) then drop_oldest same es else es)
    drop-Distinct b [] d = if_cases (Distinct same same_iff) (ltb b 0) (λ _. d) λ _. d
    drop-Distinct b ((j, q) ∷ es) d =
        if_cases (Distinct same same_iff) (ltb b (length ((j, q) ∷ es)))
          (λ _. Distinct-map_delete same same_iff j ((j, q) ∷ es) d) λ _. d

    -- The promise is cached with at most `n` newer ones, in a memo of the buffer length `b`.
    Live : ℕ → ℕ → Memo K → Type ℓ
    Live b n s = (s.buffer_length ≡ b) × Distinct same same_iff s.cache × Kept key promise n s.cache

    refreshed :
        (k : K) (q n : ℕ) (es : List (K × ℕ))
        → Distinct same same_iff es
        → Kept key promise n (map_delete same k es ++ (k, q) ∷ [])
        → Distinct same same_iff (map_refresh same k q es)
          × Kept key promise n (map_refresh same k q es)
    refreshed k q n es d h = (
      Distinct-map_set same same_iff k q (map_delete same k es)
          (Distinct-map_delete same same_iff k es d),
      subst (Kept key promise n) (sym (refresh_last same same_iff k q es d)) h,
    )

    added :
        (k : K) (q b n : ℕ) (es : List (K × ℕ))
        → n < b
        → map_get same k es ≡ none
        → Distinct same same_iff es
        → Kept key promise n (es ++ (k, q) ∷ [])
        → let c = map_set same k q es in
          let kept = if ltb b (length c) then drop_oldest same c else c in
          Distinct same same_iff kept × Kept key promise n kept
    added k q b n es l e d h =
        let c = map_set same k q es in
        (
          drop-Distinct b c (Distinct-map_set same same_iff k q es d),
          Kept-drop b n c l
              (subst (Kept key promise n) (sym (map_set-new same same_iff k q es e)) h),
        )

    recall_other :
        (b n : ℕ) (k : K) (s : Memo K) (o : Option ℕ)
        → map_get same k s.cache ≡ o
        → k ≢ key
        → suc n < b
        → Live b n s
        → Live b (suc n) (recall same k s o).0
    unfolding Live
    recall_other b n k s (some q) e d l (at, distinct, kept) =
        let (d', h) =
          refreshed k q (suc n) s.cache distinct
            (Kept-append n (map_delete same k s.cache) (k, q) (Kept-delete k n s.cache d kept)) in
        (at, d', h)
    recall_other b n k s none e d l (at, distinct, kept) =
        let (d', h) =
          added k s.called s.buffer_length (suc n) s.cache (omega (arith, at, l)) e distinct
            (Kept-append n s.cache (k, s.called) kept) in
        (at, d', h)

    newest : (n : ℕ) (es : List (K × ℕ)) → Kept key promise n (es ++ (key, promise) ∷ [])
    unfolding Kept
    newest n es = (es, [], refl, omega arith)

    recall-same :
        (b n : ℕ) (s : Memo K) (o : Option ℕ)
        → map_get same key s.cache ≡ o
        → (recall same key s o).1 ≡ promise
        → n < b
        → s.buffer_length ≡ b
        → Distinct same same_iff s.cache
        → Live b n (recall same key s o).0
    unfolding Live
    recall-same b n s (some q) e r l at distinct =
        let (d', h) = refreshed key q n s.cache distinct (
          subst (λ q. Kept key promise n (map_delete same key s.cache ++ (key, q) ∷ [])) (sym r)
            (newest n (map_delete same key s.cache))) in
        (at, d', h)
    recall-same b n s none e r l at distinct =
        let (d', h) =
          added key s.called s.buffer_length n s.cache (omega (arith, at, l)) e distinct (
            subst (λ q. Kept key promise n (s.cache ++ (key, q) ∷ [])) (sym r)
              (newest n s.cache)) in
        (at, d', h)

    rejected-Live :
        (b n : ℕ) (k : K) (q : ℕ) (s : Memo K)
        → q ≢ promise
        → Live b n s
        → Live b n (rejected same k q s)
    unfolding Live rejected
    rejected-Live b n k q s d (at, distinct, kept) = elim (Bool-cases (same k key)) [
      | inl t ↦
          let e = (same_iff k key).0 t in
          let here : map_get same k s.cache ≡ some promise =
            subst (λ j. map_get same j s.cache ≡ some promise) (sym e)
              (Kept-get n s.cache distinct kept) in
          rw (here, eq_false promise q (λ x. d (sym x))) (at, distinct, kept)
      | inr f ↦
          let apart : k ≢ key = λ e. let x : true ≡ false = sym ((same_iff k key).1 e) ∙ f in cc in
          if_cases (Live b n) (is_current same (map_get same k s.cache) q)
            (λ _. (
              at,
              Distinct-map_delete same same_iff k s.cache distinct,
              Kept-delete k n s.cache apart kept,
            ))
            λ _. (at, distinct, kept)
    ]

    run-Live :
        (b n : ℕ) (s : Memo K) (cs : List (Call K))
        → n + others same key cs < b
        → Unrejected promise cs
        → Live b n s
        → (m : ℕ) × Live b m (run same s cs)
    unfolding run step call Live
    run-Live b n s [] l u v = (n, v)
    run-Live b n s (rejects k q ∷ cs) l (d, u) v =
        run-Live b n (rejected same k q s) cs l u (rejected-Live b n k q s d v)
    run-Live b n s (calls k ∷ cs) l u v = elim (Bool-cases (same k key)) [
      | inl t ↦
          let (at, distinct, kept) = v in
          let same_promise : (recall same key s (map_get same key s.cache)).1 ≡ promise =
            rw (Kept-get n s.cache distinct kept) refl in
          subst (λ j. (m : ℕ) × Live b m (run same (recall same j s (map_get same j s.cache)).0 cs))
            (sym ((same_iff k key).0 t))
            (run-Live b n (recall same key s (map_get same key s.cache)).0 cs (rw t at l) u (
              recall-same b n s (map_get same key s.cache) refl same_promise (omega (arith, l)) at
                distinct))
      | inr f ↦
          let apart : k ≢ key = λ e. let x : true ≡ false = sym ((same_iff k key).1 e) ∙ f in cc in
          let l' : n + suc (others same key cs) < b = rw f at l in
          run-Live b (suc n) (recall same k s (map_get same k s.cache)).0 cs (omega (arith, l')) u
            (recall_other b n k s (map_get same k s.cache) refl apart (omega (arith, l')) v)
    ]

  -- In a cache where no key stands twice: a later call with the same key shares the promise of the first
  -- and does not call `fn` again, if in between the promise is not rejected and fewer calls than the
  -- buffer length have another key; calls with the key itself and other rejections do not matter.
  pub call_shares :
      (key : K) (s : Memo K) (cs : List (Call K))
      → Distinct same same_iff s.cache
      → others same key cs < s.buffer_length
      → Unrejected (call same key s).1 cs
      → let (t, promise) = call same key s in
        let u = run same t cs in
        let (v, again) = call same key u in (again ≡ promise) × (v.called ≡ u.called)
  unfolding call Live
  call_shares key s cs d l unrejected =
      let (t, promise) = recall same key s (map_get same key s.cache) in
      let first =
        recall-same key promise s.buffer_length 0 s (map_get same key s.cache) refl refl
          (omega (arith, l)) refl d in
      let (m, (at, distinct, kept)) =
        run-Live key promise s.buffer_length 0 t cs (omega (arith, l)) unrejected first in
      hit same same_iff key (run same t cs) promise
        (Kept-get key promise m (run same t cs).cache distinct kept)
