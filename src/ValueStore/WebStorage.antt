-- ===== src/ValueStore/WebStorage.antt =====
-- packages/value-store/src/web-storage.ts: the store over Web Storage, whose state is a parameter.
pub mod Prefixes
use fancy_kit.Common.{
  ℕ, ◌≡◌, ◌≢◌, refl, ap, ◌∙◌, Bool, true, false, List, [], ◌∷◌, ◌++◌, Option, none, some,
}
use fancy_kit.ValueStore.Errors.{
  Result, returns, throws, ◌>>=◌, Failure, value_store_error, sanitise_value_store_error,
  invalid_value, invalid_data, unavailable,
}
use fancy_kit.ValueStore.Validation.{Value, text, null_value}
use fancy_kit.ValueStore.Capture.{
  Reply, replied, failed, Serializer, Supplied, Property, Options, method, ValueStore,
  DeletableValueStore, create_deletable_value_store, capture_method,
}
use fancy_kit.ValueStore.Store.{get_value, set_value, serialized}
use fancy_kit.ValueStore.Store.Effects.{Remembers, found, as_value, read_back, written}

-- The option `prefix`: options that are no object, a getter that throws, or a value.
pub data PrefixOption : Type 0 where
  malformed : PrefixOption
  prefix_fails : Failure → PrefixOption
  prefix_value : Value → PrefixOption

pub capture_prefix : PrefixOption → Result (List ℕ)
capture_prefix malformed = throws invalid_value
capture_prefix (prefix_fails f) = throws (sanitise_value_store_error f)
capture_prefix (prefix_value (text s)) = returns s
capture_prefix (prefix_value unexpected) = throws invalid_value

-- The error that the backend throws in place of the storage's.
abbrev pub rethrown : Failure → Failure
rethrown f = value_store_error (some (sanitise_value_store_error f))

abbrev pub checked_item : Reply → Reply
checked_item (failed f) = failed (rethrown f)
checked_item (replied null_value) = replied null_value
checked_item (replied (text s)) = replied (text s)
checked_item (replied unexpected) = failed (value_store_error (some invalid_data))

abbrev pub checked_call : Option Failure → Option Failure
checked_call none = none
checked_call (some f) = some (rethrown f)

module _ {S : Type 0} where
  pub storage_get : (List ℕ → S → S × Reply) → List ℕ → List ℕ → S → S × Reply
  storage_get get_item prefix key s =
      let (s', reply) = get_item (prefix ++ key) s in (s', checked_item reply)

  pub storage_set :
      (List ℕ → List ℕ → S → S × Option Failure) → List ℕ → List ℕ → List ℕ → S → S × Option Failure
  storage_set set_item prefix key value s =
      let (s', thrown) = set_item (prefix ++ key) value s in (s', checked_call thrown)

  pub storage_delete : (List ℕ → S → S × Option Failure) → List ℕ → List ℕ → S → S × Option Failure
  storage_delete remove_item prefix key s =
      let (s', thrown) = remove_item (prefix ++ key) s in (s', checked_call thrown)

module _ (S : Type 0) where
  -- `is_object` is false for null, undefined and any other value that is no object.
  pub create_web_storage_value_store :
      Supplied S → PrefixOption → Options → Result (DeletableValueStore S)
  create_web_storage_value_store storage prefix options = capture_prefix prefix >>= λ p.
      capture_method storage.is_object storage.get >>= λ get_item.
      capture_method storage.is_object storage.set >>= λ set_item.
      capture_method storage.is_object storage.remove >>= λ remove_item.
      create_deletable_value_store S
        (record {
          is_object = true;
          get = method (storage_get get_item p);
          set = method (storage_set set_item p);
          remove = method (storage_delete remove_item p);
        })
        options

module _ {S : Type 0} (raw : ValueStore S) where
  -- The store that is created with a prefix over the item methods that `raw` holds.
  abbrev pub prefixed : List ℕ → Option Serializer → ValueStore S
  prefixed p z = record {
    reader = record { get = storage_get raw.reader.get p; serializer = z };
    set = storage_set raw.set p;
  }
