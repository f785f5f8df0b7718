-- ===== src/BackedQueue/Places.antt =====
-- The places of the backend, queued or in processing, and what a write or a deletion does to them.
use fancy_kit.Common.{
  ℕ, arith, ◌≡◌, ◌≢◌, sym, ap, ◌∙◌, List, [], ◌∷◌, ◌++◌, append_assoc, Option, none, some,
}
use fancy_kit.Common.Maps.{
  map_get, map_set, map_delete, Distinct, map_get-set_self, map_get-set_other, deleted_key,
  map_get-map_delete_other, Distinct-map_set, Distinct-map_delete,
}
use fancy_kit.Common.Texts.{same, same_iff, append_cancel}
use fancy_kit.BackedQueue.Memory.{Backend, prefix, processing_prefix}

pub data Place : Type 0 where
  queued processing : List ℕ → Place

module _ {T : Type 0} where
  abbrev pub address : Backend T → Place → List ℕ
  address s (queued key) = prefix s ++ key
  address s (processing key) = processing_prefix s ++ key

  abbrev pub read : Place → Backend T → Option T
  read p s = map_get same (address s p) s.queue_map

  abbrev pub put : Place → T → Backend T → Backend T
  put p item s = record s { queue_map = map_set same (address s p) item s.queue_map }

  abbrev pub clear : Place → Backend T → Backend T
  clear p s = record s { queue_map = map_delete same (address s p) s.queue_map }

  -- A `Map` has no key twice.
  abbrev pub IsMap : Backend T → Type 0
  IsMap s = Distinct same same_iff s.queue_map

abbrev head_of : List ℕ → ℕ
head_of [] = 0
head_of (c ∷ cs) = c

w_ne_r : (xs ys : List ℕ) → (119 ∷ xs) ≢ (114 ∷ ys)
w_ne_r xs ys e = omega (arith, ap head_of e)

module _ {T : Type 0} (s : Backend T) where
  prefixes_differ : (xs ys : List ℕ) → prefix s ++ xs ≢ processing_prefix s ++ ys
  unfolding prefix processing_prefix
  prefixes_differ xs ys e =
      w_ne_r (45 ∷ (s.name ++ 45 ∷ []) ++ xs) (45 ∷ (s.name ++ 45 ∷ []) ++ ys) (
        append_cancel s.base_prefix _ _ (
          sym (append_assoc s.base_prefix (119 ∷ 45 ∷ (s.name ++ 45 ∷ [])) xs)
          ∙ e
          ∙ append_assoc s.base_prefix (114 ∷ 45 ∷ (s.name ++ 45 ∷ [])) ys))

  apart : (p q : Place) → q ≢ p → address s q ≢ address s p
  apart (queued k) (queued j) n e = n (ap queued (append_cancel (prefix s) j k e))
  apart (processing k) (processing j) n e =
      n (ap processing (append_cancel (processing_prefix s) j k e))
  apart (queued k) (processing j) n e = prefixes_differ k j (sym e)
  apart (processing k) (queued j) n e = prefixes_differ j k e

  pub put_self : (p : Place) (item : T) → read p (put p item s) ≡ some item
  unfolding prefix processing_prefix
  put_self p item = map_get-set_self same same_iff (address s p) item s.queue_map

  pub put_other : (p q : Place) (item : T) → q ≢ p → read q (put p item s) ≡ read q s
  unfolding prefix processing_prefix
  put_other p q item n =
      map_get-set_other same same_iff (address s p) (address s q) item s.queue_map (apart p q n)

  pub clear_self : (p : Place) → IsMap s → read p (clear p s) ≡ none
  unfolding prefix processing_prefix
  clear_self p m = deleted_key same same_iff (address s p) s.queue_map m

  pub clear_other : (p q : Place) → q ≢ p → read q (clear p s) ≡ read q s
  unfolding prefix processing_prefix
  clear_other p q n =
      map_get-map_delete_other same same_iff (address s p) (address s q) s.queue_map (apart p q n)

  pub put-IsMap : (p : Place) (item : T) → IsMap s → IsMap (put p item s)
  put-IsMap p item m = Distinct-map_set same same_iff (address s p) item s.queue_map m

  pub clear-IsMap : (p : Place) → IsMap s → IsMap (clear p s)
  clear-IsMap p m = Distinct-map_delete same same_iff (address s p) s.queue_map m
