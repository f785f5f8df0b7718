-- ===== src/BackedQueue/Scan.antt =====
-- The scan of getNextQueueKey, page by page, and why it ends.
use fancy_kit.Common.{
  ℕ, zero, suc, ◌-◌, ◌≤◌, ◌<◌, arith, ◌≡◌, refl, sym, ap, ◌∙◌, subst, Bool, true, false, not, ◌||◌,
  List, [], ◌∷◌, ◌++◌, Option, none, some, length, leb, ltb, drop, if◌then◌else◌, if_cases,
  Bool-cases, inl, inr, Option-cases, none-ne-some, some-injective, or_left,
}
use fancy_kit.BackedQueue.Memory.{
  Backend, Below, prefix, keys, push_keys, after_push, below_bound, above_bound, last_key,
  first_key, behind, next_page, get_next_queue_key, entry_keys, sort,
}
use fancy_kit.BackedQueue.Counts.{
  count, Among, count_lt, count-length-le, Among-sort, length-sort, length-entry_keys,
}

false_of_not : {b : Bool} → not b ≡ true → b ≡ false
false_of_not {b = true} h = sym h
false_of_not {b = false} h = refl

-- Every key passes the bound and is one of the keys.
abbrev Within : Below → List ℕ → List (List ℕ) → List (List ℕ) → Type 0
Within below from ks [] = Unit
Within below from ks (k ∷ page) = (below k from ≡ false) × Among k ks × Within below from ks page

module _ (below : Below) where
  last-Within :
      (from : List ℕ) (ks : List (List ℕ)) (d : List ℕ) (page : List (List ℕ))
      → Within below from ks (d ∷ page)
      → (below (last_key d page) from ≡ false) × Among (last_key d page) ks
  last-Within from ks d [] (h, a, w) = (h, a)
  last-Within from ks d (k ∷ page) (h, a, w) = last-Within from ks k page w

  Within-more :
      (from k : List ℕ) (ks page : List (List ℕ))
      → Within below from ks page
      → Within below from (k ∷ ks) page
  Within-more from k ks [] w = tt
  Within-more from k ks (j ∷ page) (h, a, w) = (h, inr a, Within-more from k ks page w)

  after_push-Within :
      (from : List ℕ) (ks : List (List ℕ)) (room : Option ℕ) (more : Option ℕ → List (List ℕ))
      → ((n : Option ℕ) → Within below from ks (more n))
      → Within below from ks (after_push room more)
  after_push-Within from ks none more h = h none
  after_push-Within from ks (some n) more h =
      if_cases (Within below from ks) (leb n 1) (λ _. tt) λ _. h (some (n - 1))

  -- The bound is not the empty text, which bounds nothing.
  abbrev Bounds : List ℕ → Type 0
  Bounds from = (k : List ℕ) → below_bound below k (some from) ≡ below k from

  Bounds-behind : (k : List ℕ) → Bounds (behind k)
  Bounds-behind [] k = refl
  Bounds-behind (c ∷ cs) k = refl

  Bounds-append : (xs : List ℕ) (c : ℕ) (cs : List ℕ) → Bounds (xs ++ c ∷ cs)
  Bounds-append [] c cs k = refl
  Bounds-append (x ∷ xs) c cs k = refl

  push_keys-Within :
      (from : List ℕ) (b : Bounds from) (to : Option (List ℕ)) (room : Option ℕ)
      (ks : List (List ℕ))
      → Within below from ks (push_keys below (some from) to room ks)
  push_keys-Within from b to room [] = tt
  push_keys-Within from b to room (k ∷ ks) =
      let more = λ (n : Option ℕ).
        Within-more from k ks (push_keys below (some from) to n ks)
          (push_keys-Within from b to n ks) in
      if_cases (Within below from (k ∷ ks))
        (below_bound below k (some from) || above_bound below k to) (λ _. more room)
        λ e. (
          sym (b k) ∙ or_left (below_bound below k (some from)) (above_bound below k to) e,
          inl refl,
          after_push-Within from (k ∷ ks) room (λ n. push_keys below (some from) to n ks) more,
        )

first_key-Within :
    (below : Below) (bypass : List ℕ → Bool) (from k : List ℕ) (ks page : List (List ℕ))
    → Within below from ks page
    → first_key bypass page ≡ some k
    → Among k ks × (bypass k ≡ false)
first_key-Within below bypass from k ks [] w e = absurd (none-ne-some k e)
first_key-Within below bypass from k ks (j ∷ page) (h, a, w) e = elim (Bool-cases (bypass j)) [
  | inl t ↦ first_key-Within below bypass from k ks page w (rw t at e)
  | inr f ↦ subst (λ x. Among x ks × (bypass x ≡ false)) (some-injective j k (rw f at e)) (a, f)
]

module _ {T : Type 0} (s : Backend T) where
  Bounds-prefix : (below : Below) → Bounds below (prefix s)
  unfolding prefix
  Bounds-prefix below k = Bounds-append below s.base_prefix 119 (45 ∷ (s.name ++ 45 ∷ [])) k

  -- A key that is answered is the rest of an entry's key that is not bypassed.
  abbrev pub Answer : (List ℕ → Bool) → Option (List ℕ) → Type 0
  Answer bypass none = Unit
  Answer bypass (some key) =
      (k : List ℕ) × Among k (entry_keys s.queue_map)
      × (bypass k ≡ false)
      × (key ≡ drop (length (prefix s)) k)

  -- The scan ends, with the answer.
  abbrev pub Answers : (List ℕ → Bool) → Option (Option (List ℕ)) → Type 0
  Answers bypass o = (r : Option (List ℕ)) × (o ≡ some r) × Answer bypass r

module _ {T : Type 0} (s : Backend T) (below : Below) (bypass : List ℕ → Bool)
    (negative_transitive : (a b c : List ℕ)
      → below a b ≡ false
      → below b c ≡ false
      → below a c ≡ false)
    (asymmetric : (a b : List ℕ) → below a b ≡ true → below b a ≡ false)
    (below_behind : (k : List ℕ) → below k (behind k) ≡ true) where
  ks : List (List ℕ)
  ks = sort (entry_keys s.queue_map)

  left : List ℕ → ℕ
  left from = count (λ k. not (below k from)) ks

  left-le : (from : List ℕ) → left from ≤ length s.queue_map
  unfolding left ks
  left-le from = omega (
    arith,
    count-length-le (λ k. not (below k from)) (sort (entry_keys s.queue_map)),
    length-sort (entry_keys s.queue_map),
    length-entry_keys s.queue_map,
  )

  kept_earlier :
      (from l : List ℕ)
      → below l from ≡ false
      → (k : List ℕ) → not (below k (behind l)) ≡ true
      → not (below k from) ≡ true
  kept_earlier from l h k n =
      let past =
        negative_transitive k (behind l) l (false_of_not n)
          (asymmetric l (behind l) (below_behind l)) in
      ap not (negative_transitive k l from past h)

  less_left : (from l : List ℕ) → below l from ≡ false → Among l ks → left (behind l) < left from
  unfolding left
  less_left from l h a =
      count_lt (λ k. not (below k (behind l))) (λ k. not (below k from)) ks l
        (kept_earlier from l h) a (ap not (below_behind l)) (ap not h)

  more_total :
      (fuel : ℕ) (from : List ℕ) (page : List (List ℕ))
      → Within below from ks page
      → left from < suc fuel
      → ((to : List ℕ)
          → Bounds below to
          → left to < fuel
          → Answers s bypass (next_page below bypass fuel to s))
      → Answers s bypass (
          if ltb (length page) 10
          then some none
          else next_page below bypass fuel (behind (last_key [] page)) s)
  more_total fuel from [] w n further = (none, refl, tt)
  more_total fuel from (d ∷ page) w n further =
      let (h, a) = last-Within below from ks d page w in
      if_cases (Answers s bypass) (ltb (length (d ∷ page)) 10) (λ _. (none, refl, tt))
        λ _.
          further (behind (last_key d page)) (Bounds-behind below (last_key d page))
            (omega (arith, less_left from (last_key d page) h a))

  next_page_total :
      (fuel : ℕ) (from : List ℕ)
      → Bounds below from
      → left from < fuel
      → Answers s bypass (next_page below bypass fuel from s)
  unfolding keys ks next_page
  next_page_total zero from b n = absurd (omega (arith, n))
  next_page_total (suc fuel) from b n =
      let page = push_keys below (some from) (some (behind (prefix s))) (some 10) ks in
      let w = push_keys-Within below from b (some (behind (prefix s))) (some 10) ks in
      elim (Option-cases (first_key bypass page)) [
        | inr (k, e) ↦
            let (a, f) = first_key-Within below bypass from k ks page w e in
            (
              some (drop (length (prefix s)) k),
              rw e refl,
              (k, Among-sort k (entry_keys s.queue_map) a, f, refl),
            )
        | inl e ↦ rw e (more_total fuel from page w n (next_page_total fuel))
      ]

  -- If localeCompare is a strict weak order in which a text lies below itself with U+FFFF behind it,
  -- `getNextQueueKey` ends: more rounds than there are entries are enough. The key that it gives, if any,
  -- is what follows the prefix's length in the key of an entry that is not bypassed.
  pub get_next_queue_key_total :
      (fuel : ℕ)
      → length s.queue_map < fuel
      → Answers s bypass (get_next_queue_key below bypass fuel s)
  unfolding get_next_queue_key
  get_next_queue_key_total fuel h =
      next_page_total fuel (prefix s) (Bounds-prefix s below) (omega (arith, h, left-le (prefix s)))
