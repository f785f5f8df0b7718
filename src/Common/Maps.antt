-- ===== src/Common/Maps.antt =====
-- A JavaScript `Map` as the list of its entries in the order of insertion, oldest first. The test of
-- keys is an argument.
use fancy_kit.Common.{
  suc, ◌≤◌, ◌≡◌, ◌≢◌, ◌↔◌, refl, sym, ap, ◌∙◌, subst, Bool, true, false, List, [], ◌∷◌, ◌++◌,
  Option, none, some, none-ne-some, length, if◌then◌else◌, if_cases, arith, Bool-cases, inl, inr,
}

module _ {ℓ κ} {K : Type ℓ} {V : Type κ} (same : K → K → Bool) where
  abbrev pub map_get : K → List (K × V) → Option V
  map_get k [] = none
  map_get k ((key, value) ∷ rest) = if same key k then some value else map_get k rest

  abbrev pub map_delete : K → List (K × V) → List (K × V)
  map_delete k [] = []
  map_delete k ((key, value) ∷ rest) = if same key k then rest else (key, value) ∷ map_delete k rest

  -- `Map.set` leaves a known key where it is.
  abbrev pub map_set : K → V → List (K × V) → List (K × V)
  map_set k v [] = (k, v) ∷ []
  map_set k v ((key, value) ∷ rest) =
      if same key k then (key, v) ∷ rest else (key, value) ∷ map_set k v rest

  -- An entry taken out and set again stands last.
  abbrev pub map_refresh : K → V → List (K × V) → List (K × V)
  map_refresh k v entries = map_set k v (map_delete k entries)

module _ {ℓ} {K : Type ℓ} (same : K → K → Bool)
    (same_iff : (a b : K) → (same a b ≡ true) ↔ (a ≡ b)) where
  self : (k : K) → same k k ≡ true
  self k = (same_iff k k).1 refl

  pub other_key : (k other : K) → other ≢ k → same k other ≡ false
  other_key k other h = elim (Bool-cases (same k other)) [
    | inl t ↦ absurd (h (sym ((same_iff k other).0 t)))
    | inr e ↦ e
  ]

module _ {ℓ κ} {K : Type ℓ} {V : Type κ} (same : K → K → Bool)
    (same_iff : (a b : K) → (same a b ≡ true) ↔ (a ≡ b)) where
  -- No key stands twice.
  abbrev pub Distinct : List (K × V) → Type κ
  Distinct [] = Unit
  Distinct ((k, v) ∷ rest) = (map_get same k rest ≡ none) × Distinct rest

  pub map_set-new :
      (k : K) (v : V) (es : List (K × V))
      → map_get same k es ≡ none
      → map_set same k v es ≡ es ++ (k, v) ∷ []
  map_set-new k v [] h = refl
  map_set-new k v ((k', v') ∷ rest) h =
      let read : Bool → Type κ = λ b. (if b then some v' else map_get same k rest) ≡ none in
      elim (Bool-cases (same k' k)) [
        | inl t ↦ absurd (none-ne-some v' (sym (subst read t h)))
        | inr e ↦ rw e (ap (◌∷◌ (k', v')) (map_set-new k v rest (subst read e h)))
      ]

  pub deleted_key :
      (k : K) (es : List (K × V)) → Distinct es → map_get same k (map_delete same k es) ≡ none
  deleted_key k [] d = refl
  deleted_key k ((k', v') ∷ rest) (n, d) = elim (Bool-cases (same k' k)) [
    | inl t ↦ rw t (subst (λ k. map_get same k rest ≡ none) ((same_iff k' k).0 t) n)
    | inr e ↦ rw e (rw e (deleted_key k rest d))
  ]

  pub map_get-set_self :
      (k : K) (v : V) (es : List (K × V)) → map_get same k (map_set same k v es) ≡ some v
  map_get-set_self k v [] = rw (self same same_iff k) refl
  map_get-set_self k v ((k', v') ∷ rest) = elim (Bool-cases (same k' k)) [
    | inl t ↦ rw t (rw t refl)
    | inr e ↦ rw e (rw e (map_get-set_self k v rest))
  ]

  pub map_get-set_other :
      (k other : K) (v : V) (es : List (K × V))
      → other ≢ k
      → map_get same other (map_set same k v es) ≡ map_get same other es
  map_get-set_other k other v [] h = rw (other_key same same_iff k other h) refl
  map_get-set_other k other v ((k', v') ∷ rest) h = elim (Bool-cases (same k' k)) [
    | inl t ↦
        let e = (same_iff k' k).0 t in
        let n = other_key same same_iff k' other (λ x. h (x ∙ e)) in rw t (rw n refl)
    | inr e ↦
        rw e (ap (λ o. if same k' other then some v' else o) (map_get-set_other k other v rest h))
  ]

  map_delete_keeps :
      (k other : K) (es : List (K × V))
      → map_get same other es ≡ none
      → map_get same other (map_delete same k es) ≡ none
  map_delete_keeps k other [] h = refl
  map_delete_keeps k other ((k', v') ∷ rest) h =
      let read : Bool → Type κ = λ b. (if b then some v' else map_get same other rest) ≡ none in
      elim (Bool-cases (same k' other)) [
        | inl t ↦ absurd (none-ne-some v' (sym (subst read t h)))
        | inr e ↦
            if_cases (λ (l : List (K × V)). map_get same other l ≡ none) (same k' k)
              (λ _. subst read e h) λ _. rw e (map_delete_keeps k other rest (subst read e h))
      ]

  pub Distinct-map_delete :
      (k : K) (es : List (K × V)) → Distinct es → Distinct (map_delete same k es)
  Distinct-map_delete k [] d = d
  Distinct-map_delete k ((k', v') ∷ rest) (n, d) =
      if_cases Distinct (same k' k) (λ _. d)
        λ _. (map_delete_keeps k k' rest n, Distinct-map_delete k rest d)

  pub Distinct-map_set :
      (k : K) (v : V) (es : List (K × V)) → Distinct es → Distinct (map_set same k v es)
  Distinct-map_set k v [] d = (refl, tt)
  Distinct-map_set k v ((k', v') ∷ rest) (n, d) = elim (Bool-cases (same k' k)) [
    | inl t ↦ rw t (n, d)
    | inr e ↦
        let apart : k' ≢ k =
          λ x. absurd (let same_keys : true ≡ false = sym ((same_iff k' k).1 x) ∙ e in cc) in
        rw e (map_get-set_other k k' v rest apart ∙ n, Distinct-map_set k v rest d)
  ]

  pub map_get-map_delete_other :
      (k other : K) (es : List (K × V))
      → other ≢ k
      → map_get same other (map_delete same k es) ≡ map_get same other es
  map_get-map_delete_other k other [] h = refl
  map_get-map_delete_other k other ((k', v') ∷ rest) h = elim (Bool-cases (same k' k)) [
    | inl t ↦
        let e = (same_iff k' k).0 t in
        let n = other_key same same_iff k' other (λ x. h (x ∙ e)) in rw (t, n) refl
    | inr e ↦
        rw e
          (ap (λ o. if same k' other then some v' else o) (map_get-map_delete_other k other rest h))
  ]

  pub refresh_last :
      (k : K) (v : V) (es : List (K × V))
      → Distinct es
      → map_refresh same k v es ≡ map_delete same k es ++ (k, v) ∷ []
  refresh_last k v es d = map_set-new k v (map_delete same k es) (deleted_key k es d)

module _ {ℓ κ} {K : Type ℓ} {V : Type κ} (same : K → K → Bool) where
  pub length-map_set-le :
      (k : K) (v : V) (es : List (K × V)) → length (map_set same k v es) ≤ suc (length es)
  length-map_set-le k v [] = omega arith
  length-map_set-le k v ((k', v') ∷ rest) =
      if_cases (λ (l : List (K × V)). length l ≤ suc (suc (length rest))) (same k' k)
        (λ _. omega arith) λ _. omega (arith, length-map_set-le k v rest)

  pub length-map_delete-le : (k : K) (es : List (K × V)) → length (map_delete same k es) ≤ length es
  length-map_delete-le k [] = omega arith
  length-map_delete-le k ((k', v') ∷ rest) =
      if_cases (λ (l : List (K × V)). length l ≤ suc (length rest)) (same k' k) (λ _. omega arith)
        λ _. omega (arith, length-map_delete-le k rest)

  -- An entry that is found is taken out.
  pub length-map_delete :
      (k : K) (v : V) (es : List (K × V))
      → map_get same k es ≡ some v
      → suc (length (map_delete same k es)) ≡ length es
  length-map_delete k v [] h = absurd (none-ne-some v h)
  length-map_delete k v ((k', v') ∷ rest) h =
      let read : Bool → Type κ = λ b. (if b then some v' else map_get same k rest) ≡ some v in
      elim (Bool-cases (same k' k)) [
        | inl t ↦ rw t refl
        | inr e ↦ rw e (ap suc (length-map_delete k v rest (subst read e h)))
      ]

  pub map_get-append :
      (k : K) (es fs : List (K × V))
      → map_get same k es ≡ none
      → map_get same k (es ++ fs) ≡ map_get same k fs
  map_get-append k [] fs h = refl
  map_get-append k ((k', v') ∷ rest) fs h =
      let read : Bool → Type κ = λ b. (if b then some v' else map_get same k rest) ≡ none in
      elim (Bool-cases (same k' k)) [
        | inl t ↦ absurd (none-ne-some v' (sym (subst read t h)))
        | inr e ↦ rw e (map_get-append k rest fs (subst read e h))
      ]
