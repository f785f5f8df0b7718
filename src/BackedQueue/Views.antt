-- ===== src/BackedQueue/Views.antt =====
-- The backend as a function of the places, and what the operations of the queue write to it.
use fancy_kit.Common.{
  ◌≡◌, ◌≢◌, refl, ap, ap₂, sym, ◌++◌, ◌∙◌, subst, Bool, true, false, List, [], ◌∷◌, Option, none,
  some, if◌then◌else◌, Bool-cases, inl, inr,
}
use fancy_kit.Common.Texts.{same, same_iff}
use fancy_kit.Common.Maps.{map_get}
use fancy_kit.BackedQueue.Memory.{Backend, prefix, processing_prefix, finish_atomic}
use fancy_kit.BackedQueue.Places.{
  Place, queued, processing, read, address, put, clear, IsMap, put_self, put_other, clear_self,
  clear_other, put-IsMap, clear-IsMap,
}

abbrev pub same_place : Place → Place → Bool
same_place (queued k) (queued j) = same k j
same_place (queued k) (processing j) = false
same_place (processing k) (queued j) = false
same_place (processing k) (processing j) = same k j

eq_of_same_place : (p q : Place) → same_place p q ≡ true → p ≡ q
eq_of_same_place (queued k) (queued j) h = ap queued ((same_iff k j).0 h)
eq_of_same_place (queued k) (processing j) h = cc
eq_of_same_place (processing k) (queued j) h = cc
eq_of_same_place (processing k) (processing j) h = ap processing ((same_iff k j).0 h)

same_place_refl : (p : Place) → same_place p p ≡ true
same_place_refl (queued k) = (same_iff k k).1 refl
same_place_refl (processing k) = (same_iff k k).1 refl

ne_of_same_place : (p q : Place) → same_place p q ≡ false → q ≢ p
ne_of_same_place p q h e =
    let x : same_place p p ≡ false = subst (λ r. same_place p r ≡ false) e h in
    let y = same_place_refl p in cc

if_again {ℓ} :
    {U : Type ℓ} (b : Bool) (x : Option U)
    → (if b then none else if b then none else x) ≡ (if b then none else x)
if_again true x = refl
if_again false x = refl

module _ {T : Type 0} where
  -- Writes to a view, the latest first; `none` deletes.
  abbrev pub written : List (Place × Option T) → (Place → Option T) → Place → Option T
  written [] view q = view q
  written ((p, item) ∷ earlier) view q = if same_place p q then item else written earlier view q

  abbrev pub view : Backend T → Place → Option T
  view s p = read p s

  -- The two backends stand for the same queue.
  abbrev pub SameQueue : Backend T → Backend T → Type 0
  SameQueue s t = (t.name ≡ s.name) × (t.base_prefix ≡ s.base_prefix)

  -- The second backend is a map and reads as the first after the writes.
  abbrev pub Writes : List (Place × Option T) → Backend T → Backend T → Type 0
  Writes ws s t = IsMap t × SameQueue s t × ((q : Place) → read q t ≡ written ws (view s) q)

  pub Writes-nothing : (s : Backend T) → IsMap s → Writes [] s s
  Writes-nothing s m = (m, (refl, refl), λ q. refl)

  pub Writes-put :
      (ws : List (Place × Option T)) (s t : Backend T) (p : Place) (item : T)
      → Writes ws s t
      → Writes ((p, some item) ∷ ws) s (put p item t)
  Writes-put ws s t p item (m, n, h) = (
    put-IsMap t p item m,
    n,
    λ q. elim (Bool-cases (same_place p q)) [
      | inl e ↦ rw e (
          subst (λ r. read r (put p item t) ≡ some item) (eq_of_same_place p q e)
            (put_self t p item))
      | inr e ↦ rw e (put_other t p q item (ne_of_same_place p q e) ∙ h q)
    ],
  )

  pub Writes-clear :
      (ws : List (Place × Option T)) (s t : Backend T) (p : Place)
      → Writes ws s t
      → Writes ((p, none) ∷ ws) s (clear p t)
  Writes-clear ws s t p (m, n, h) = (
    clear-IsMap t p m,
    n,
    λ q. elim (Bool-cases (same_place p q)) [
      | inl e ↦
          rw e (subst (λ r. read r (clear p t) ≡ none) (eq_of_same_place p q e) (clear_self t p m))
      | inr e ↦ rw e (clear_other t p q (ne_of_same_place p q e) ∙ h q)
    ],
  )

  -- A place that is cleared twice in a row.
  pub Writes-clear_again :
      (ws : List (Place × Option T)) (s t : Backend T) (p : Place)
      → Writes ((p, none) ∷ (p, none) ∷ ws) s t
      → Writes ((p, none) ∷ ws) s t
  Writes-clear_again ws s t p (m, n, h) =
      (m, n, λ q. h q ∙ if_again (same_place p q) (written ws (view s) q))

  address_eq : (p : Place) (s t : Backend T) → SameQueue s t → address t p ≡ address s p
  unfolding prefix processing_prefix
  address_eq (queued key) s t (n, b) = ap₂ (λ x y. (y ++ (119 ∷ 45 ∷ (x ++ 45 ∷ []))) ++ key) n b
  address_eq (processing key) s t (n, b) =
      ap₂ (λ x y. (y ++ (114 ∷ 45 ∷ (x ++ 45 ∷ []))) ++ key) n b

  pub Writes-finish_atomic :
      (ws : List (Place × Option T)) (s t : Backend T)
      → Writes ws s t
      → Writes ws s (finish_atomic t s)
  unfolding finish_atomic prefix processing_prefix
  Writes-finish_atomic ws s t (m, n, h) =
      (m, (refl, refl), λ q. ap (λ a. map_get same a t.queue_map) (sym (address_eq q s t n)) ∙ h q)

  -- Writes that read the same.
  pub Writes-same :
      (ws vs : List (Place × Option T)) (s t : Backend T)
      → Writes ws s t
      → ((q : Place) → written ws (view s) q ≡ written vs (view s) q)
      → Writes vs s t
  Writes-same ws vs s t (m, n, h) e = (m, n, λ q. h q ∙ e q)
