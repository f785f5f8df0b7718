-- ===== src/ValueStore/Tests.antt =====
-- The stores on concrete values, and their theorems at concrete inputs.
use fancy_kit.Common.{ℕ, ◌≡◌, ◌≢◌, refl, List, [], ◌∷◌, ◌++◌, Option, none, some}
use fancy_kit.Common.Maps.{map_get}
use fancy_kit.Common.Texts.{same}
use fancy_kit.ValueStore.Errors.{
  returns, access_denied, named, security_error, sanitise_value_store_error,
}
use fancy_kit.ValueStore.Validation.{text}
use fancy_kit.ValueStore.Capture.{validate_value_string, Serializer, replied, ValueStore}
use fancy_kit.ValueStore.Store.{get_value, set_value}
use fancy_kit.ValueStore.Store.Effects.{as_value, set_value-get_value}
use fancy_kit.ValueStore.Memory.{Entries, memory_store, memory_store-Remembers}
use fancy_kit.ValueStore.WebStorage.{prefixed}
use fancy_kit.ValueStore.WebStorage.Prefixes.{prefixes_apart}

-- A serializer that puts a mark in front.
abbrev unmark : List ℕ → List ℕ
unmark [] = []
unmark (c ∷ cs) = cs

abbrev marked : Serializer
marked = record {
  serialize = λ key value. replied (text (33 ∷ value));
  deserialize = λ key stored. replied (text (unmark stored));
}

abbrev marked_store : ValueStore Entries
marked_store = memory_store (some marked)

abbrev key_1 : List ℕ
key_1 = 1 ∷ []

abbrev key_2 : List ℕ
key_2 = 2 ∷ []

set_value-get_value_example :
    let (s', written) = set_value marked_store (text key_1) (text key_2) [] in
    (written ≡ returns tt)
    × ((d : Option (List ℕ))
        → get_value marked_store.reader (text key_1) (as_value d) s' ≡ (s', returns (some key_2)))
    × ((j : List ℕ) (d : Option (List ℕ))
        → j ≢ key_1
        → (get_value marked_store.reader (text j) (as_value d) s').1
          ≡ (get_value marked_store.reader (text j) (as_value d) []).1)
unfolding validate_value_string
set_value-get_value_example =
    set_value-get_value marked_store (λ entries key. map_get same key entries)
      (memory_store-Remembers (some marked)) key_1 key_2 (33 ∷ key_2) [] refl refl

items_differ : (key_2 ++ key_1) ≢ (key_1 ++ key_1)
items_differ e = cc

prefixes_apart_example :
    let (s', written) =
      set_value (prefixed (memory_store none) key_1 none) (text key_1) (text key_2) [] in
    (get_value (prefixed (memory_store none) key_2 none).reader (text key_1) none s').1
    ≡ (get_value (prefixed (memory_store none) key_2 none).reader (text key_1) none []).1
prefixes_apart_example =
    prefixes_apart (memory_store none) (λ entries key. map_get same key entries)
      (memory_store-Remembers none) key_1 key_2 key_1 key_1 key_2 key_2 none none none [] refl
      λ e. items_differ e

-- A failing backend is reported by the name of what it throws.
denied : sanitise_value_store_error (named security_error) ≡ access_denied
unfolding sanitise_value_store_error
denied = refl
