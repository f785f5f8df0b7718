-- ===== src/ValueStore/Store.antt =====
-- packages/value-store/src/store.ts: reads, writes and deletions. JSON.stringify and JSON.parse of the
-- platform are arguments.
pub mod Effects
use fancy_kit.Common.{ℕ, Bool, true, false, List, Option, none, some, if◌then◌else◌}
use fancy_kit.ValueStore.Errors.{
  ValueStoreErrorCode, invalid_key, invalid_value, invalid_data, unavailable, Failure,
  sanitise_value_store_error, Result, returns, throws, ◌>>=◌,
}
use fancy_kit.ValueStore.Capture.{
  Reply, Serializer, Property, Options, Given, Snapshot, Encoded, validate_value_key,
  validate_value_string, capture_method, capture_pair, capture_serializer, or_throw, sanitised,
  Supplied, Reader, ValueStore, DeletableValueStore, create_value_reader, create_value_store,
  create_deletable_value_store, replied, failed, no_encoding, not_text, encoded,
}
use fancy_kit.ValueStore.Validation.{
  JsObject, Value, text, null_value, Copy, validate_object_value, clone_object_value,
  snapshot_object_value,
}

abbrev pub decoded : Reply → Result (Option (List ℕ))
decoded (failed f) = throws (sanitise_value_store_error f)
decoded (replied logical) = validate_value_string invalid_data logical >>= λ s. returns (some s)

abbrev pub deserialized : Option Serializer → List ℕ → List ℕ → Result (Option (List ℕ))
deserialized none key stored = returns (some stored)
deserialized (some z) key stored = decoded (z.deserialize key stored)

-- What the logical reader makes of the backend's reply; absence is `none`.
abbrev pub read_reply : Option Serializer → List ℕ → Reply → Result (Option (List ℕ))
read_reply z key (failed f) = throws (sanitise_value_store_error f)
read_reply z key (replied null_value) = returns none
read_reply z key (replied (text stored)) = deserialized z key stored
read_reply z key (replied unexpected) = throws invalid_data

abbrev pub encoded_by : Reply → Result (List ℕ)
encoded_by (failed f) = throws (sanitise_value_store_error f)
encoded_by (replied value) = validate_value_string invalid_value value

abbrev pub serialized : Option Serializer → List ℕ → List ℕ → Result (List ℕ)
serialized none key value = returns value
serialized (some z) key value = encoded_by (z.serialize key value)

-- An effect of the backend after checks that may throw.
abbrev pub checked {ℓ} :
    {S : Type 0} {A B : Type ℓ} → S → Result A → (A → S × Result B) → S × Result B
checked s (throws code) f = (s, throws code)
checked s (returns a) f = f a

abbrev pub valid_default : Option Value → Result (Option (List ℕ))
valid_default none = returns none
valid_default (some v) = validate_value_string invalid_value v >>= λ d. returns (some d)

abbrev pub or_default {ℓ} : {A : Type ℓ} → Option A → Option A → Option A
or_default none d = d
or_default (some a) d = some a

-- A default that is given is copied before the read.
abbrev pub default_snapshot : Option Given → Result (Option Snapshot)
default_snapshot none = returns none
default_snapshot (some g) =
    or_throw invalid_value (clone_object_value g.heap g.value) >>= λ c. returns (some c)

-- JSON.parse throws where `parse` gives nothing.
abbrev pub parsed : Option Given → Result Snapshot
parsed none = throws invalid_data
parsed (some g) =
    if validate_object_value g.heap g.value
    then or_throw invalid_value (clone_object_value g.heap g.value)
    else throws invalid_data

abbrev pub parsed_text :
    (List ℕ → Option Given) → Option Snapshot → Option (List ℕ) → Result (Option Snapshot)
parsed_text parse d none = returns d
parsed_text parse d (some s) = parsed (parse s) >>= λ c. returns (some c)

abbrev pub json_text : Encoded → Result (List ℕ)
json_text no_encoding = throws invalid_value
json_text not_text = throws invalid_value
json_text (encoded s) = returns s

module _ {S : Type 0} where
  pub read_logical_value : Reader S → List ℕ → S → S × Result (Option (List ℕ))
  read_logical_value r key s =
      let (s', reply) = r.get key s in (s', read_reply r.serializer key reply)

  -- `none` is null.
  pub get_value : Reader S → Value → Option Value → S → S × Result (Option (List ℕ))
  get_value r key default s =
      checked s (validate_value_key key >>= λ k. valid_default default >>= λ d. returns (k, d))
        λ (k, d).
          let (s', value) = read_logical_value r k s in
          (s', value >>= λ v. returns (or_default v d))

  abbrev pub write_stored : ValueStore S → List ℕ → S → List ℕ → S × Result (Unit {0})
  write_stored st key s stored = let (s', thrown) = st.set key stored s in (s', sanitised thrown)

  pub write_logical_value : ValueStore S → Value → Value → S → S × Result (Unit {0})
  write_logical_value st key value s =
      checked s
        (validate_value_key key >>= λ k. validate_value_string invalid_value value >>= λ v.
          serialized st.reader.serializer k v >>= λ stored. returns (k, stored))
        λ (k, stored). write_stored st k s stored

  pub set_value : ValueStore S → Value → Value → S → S × Result (Unit {0})
  set_value = write_logical_value

  pub delete_logical_value : DeletableValueStore S → Value → S → S × Result (Unit {0})
  delete_logical_value st key s =
      checked s (validate_value_key key)
        λ k. let (s', thrown) = st.remove k s in (s', sanitised thrown)

  module _ (parse : List ℕ → Option Given) where
    pub read_object : Reader S → List ℕ → Option Snapshot → S → S × Result (Option Snapshot)
    read_object r key d s =
        let (s', value) = read_logical_value r key s in (s', value >>= parsed_text parse d)

    pub get_object : Reader S → Value → Option Given → S → S × Result (Option Snapshot)
    get_object r key default s =
        checked s (validate_value_key key >>= λ k. default_snapshot default >>= λ d. returns (k, d))
          λ (k, d). read_object r k d s

  module _ (stringify : Snapshot → Encoded) where
    pub set_object : ValueStore S → Value → Given → S → S × Result (Unit {0})
    set_object st key g s =
        checked s
          (validate_value_key key >>= λ k.
            or_throw invalid_value (snapshot_object_value g.heap g.value) >>= λ c.
            json_text (stringify c))
          λ t. write_logical_value st key (text t) s
