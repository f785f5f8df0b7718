-- ===== src/BackedQueue/Memory.antt =====
-- packages/octagonal-wheels/src/BackedQueue/QueueBackendMemory.ts. Keys are texts, as lists of UTF-16 code
-- units; String.prototype.localeCompare and the test of keys that are bypassed are arguments.
use fancy_kit.Common.{
  ℕ, zero, suc, ◌-◌, Bool, true, false, ◌&&◌, ◌||◌, List, [], ◌∷◌, ◌++◌, Option, none, some, length,
  drop, ltb, leb, ◌==◌, if◌then◌else◌, replicate,
}
use fancy_kit.Common.Maps.{map_get, map_set, map_delete}
use fancy_kit.Common.Texts.{same}
use fancy_kit.EncodeObject.Base36.{to_base36}

pub record Backend (T : Type 0) : Type 0 where
  pub name : List ℕ
  pub base_prefix : List ℕ
  pub queue_map : List (List ℕ × T)
  pub startup_time : ℕ
  pub session_random : ℕ
  pub incremental_id : ℕ

-- `padStart(width, "0")`.
abbrev pub pad_start : ℕ → List ℕ → List ℕ
pad_start width s = replicate (width - length s) 48 ++ s

-- The order of code units, by which Array.prototype.sort compares texts.
abbrev pub before : List ℕ → List ℕ → Bool
before [] [] = false
before [] (d ∷ ds) = true
before (c ∷ cs) [] = false
before (c ∷ cs) (d ∷ ds) = ltb c d || ((c == d) && before cs ds)

abbrev pub insert : List ℕ → List (List ℕ) → List (List ℕ)
insert k [] = k ∷ []
insert k (j ∷ js) = if before j k then j ∷ insert k js else k ∷ j ∷ js

abbrev pub sort : List (List ℕ) → List (List ℕ)
sort [] = []
sort (k ∷ ks) = insert k (sort ks)

abbrev pub entry_keys {ℓ} : {T : Type ℓ} → List (List ℕ × T) → List (List ℕ)
entry_keys [] = []
entry_keys ((k, v) ∷ rest) = k ∷ entry_keys rest

-- The order of localeCompare, as whether the first text is below the second.
abbrev pub Below : Type 0
Below = List ℕ → List ℕ → Bool

-- A bound of undefined or the empty text bounds nothing.
abbrev pub below_bound : Below → List ℕ → Option (List ℕ) → Bool
below_bound below key none = false
below_bound below key (some []) = false
below_bound below key (some (c ∷ cs)) = below key (c ∷ cs)

abbrev pub above_bound : Below → List ℕ → Option (List ℕ) → Bool
above_bound below key none = false
above_bound below key (some []) = false
above_bound below key (some (c ∷ cs)) = below (c ∷ cs) key

-- After a key is pushed: the room that is left is tested, so that the limit 0 lets one key through.
abbrev pub after_push : Option ℕ → (Option ℕ → List (List ℕ)) → List (List ℕ)
after_push none more = more none
after_push (some n) more = if leb n 1 then [] else more (some (n - 1))

-- The loop of `keys`, with the room that is left.
abbrev pub push_keys :
    Below → Option (List ℕ) → Option (List ℕ) → Option ℕ → List (List ℕ) → List (List ℕ)
push_keys below from to room [] = []
push_keys below from to room (key ∷ rest) =
    let more = λ (n : Option ℕ). push_keys below from to n rest in
    if below_bound below key from || above_bound below key to
    then more room
    else key ∷ after_push room more

-- The first key of a page that is not bypassed.
abbrev pub first_key : (List ℕ → Bool) → List (List ℕ) → Option (List ℕ)
first_key bypass [] = none
first_key bypass (key ∷ rest) = if bypass key then first_key bypass rest else some key

abbrev pub last_key : List ℕ → List (List ℕ) → List ℕ
last_key key [] = key
last_key key (k ∷ ks) = last_key k ks

-- U+FFFF follows a key to stand behind it.
abbrev pub behind : List ℕ → List ℕ
behind key = key ++ 65535 ∷ []

module _ {T : Type 0} where
  -- "w-", "r-" and "-".
  unfoldable pub prefix : Backend T → List ℕ
  prefix s = s.base_prefix ++ (119 ∷ 45 ∷ (s.name ++ 45 ∷ []))

  unfoldable pub processing_prefix : Backend T → List ℕ
  processing_prefix s = s.base_prefix ++ (114 ∷ 45 ∷ (s.name ++ 45 ∷ []))

  unfoldable pub get_queued_item : List ℕ → Backend T → Option T
  get_queued_item key s = map_get same (prefix s ++ key) s.queue_map

  unfoldable pub set_queue_item : List ℕ → T → Backend T → Backend T
  set_queue_item key item s = record s {
    queue_map = map_set same (prefix s ++ key) item s.queue_map;
  }

  unfoldable pub delete_queue_item : List ℕ → Backend T → Backend T
  delete_queue_item key s = record s { queue_map = map_delete same (prefix s ++ key) s.queue_map }

  unfoldable pub get_processing_item : List ℕ → Backend T → Option T
  get_processing_item key s = map_get same (processing_prefix s ++ key) s.queue_map

  unfoldable pub set_processing_item : List ℕ → T → Backend T → Backend T
  set_processing_item key item s = record s {
    queue_map = map_set same (processing_prefix s ++ key) item s.queue_map;
  }

  unfoldable pub delete_processing_item : List ℕ → Backend T → Backend T
  delete_processing_item key s = record s {
    queue_map = map_delete same (processing_prefix s ++ key) s.queue_map;
  }

  -- What `atomic` does when its callback has returned: the map and the counter are those of the
  -- transaction, which was a copy of the backend when `atomic` was called.
  unfoldable pub finish_atomic : Backend T → Backend T → Backend T
  finish_atomic tx s = record s { queue_map = tx.queue_map; incremental_id = tx.incremental_id }

  abbrev pub finished {ℓ} : {U : Type ℓ} → Backend T → Backend T × Option U → Backend T × Option U
  finished s (tx, none) = (s, none)
  finished s (tx, some u) = (finish_atomic tx s, some u)

  -- A transaction without another call in between; `none` is a throw.
  unfoldable pub atomic {ℓ} :
      {U : Type ℓ} → (Backend T → Backend T × Option U) → Backend T → Backend T × Option U
  atomic callback s = finished s (callback s)

  unfoldable pub keys :
      Below → Option (List ℕ) → Option (List ℕ) → Option ℕ → Backend T → List (List ℕ)
  keys below from to count s = push_keys below from to count (sort (entry_keys s.queue_map))

  unfoldable pub issue_new_queue_key : Backend T → Backend T × List ℕ
  issue_new_queue_key s = (
    record s { incremental_id = suc s.incremental_id },
    prefix s
        ++ (pad_start 8 (to_base36 s.startup_time)
            ++ (45
                ∷ (pad_start 2 (to_base36 s.session_random)
                    ++ (45 ∷ pad_start 5 (to_base36 s.incremental_id))))),
  )

  module _ (below : Below) (bypass : List ℕ → Bool) where
    abbrev pub found :
        Backend T → Option (List ℕ) → Option (Option (List ℕ)) → Option (Option (List ℕ))
    found s none more = more
    found s (some key) more = some (some (drop (length (prefix s)) key))

    -- The loop over the pages of ten keys from `current` on. The outer `none` means that the fuel ran out.
    unfoldable pub next_page : ℕ → List ℕ → Backend T → Option (Option (List ℕ))
    next_page zero current s = none
    next_page (suc fuel) current s =
        let page = keys below (some current) (some (behind (prefix s))) (some 10) s in
        let more = next_page fuel (behind (last_key [] page)) s in
        found s (first_key bypass page) (if ltb (length page) 10 then some none else more)

    unfoldable pub get_next_queue_key : ℕ → Backend T → Option (Option (List ℕ))
    get_next_queue_key fuel s = next_page fuel (prefix s) s
