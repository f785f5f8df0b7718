-- ===== src/ValueStore/Capture.antt =====
-- packages/value-store/src/store.ts: the facades, whose methods and serializer are captured once. The
-- state of a backend is a parameter `S`.
use fancy_kit.Common.{ℕ, Bool, true, false, List, Option, none, some}
use fancy_kit.ValueStore.Errors.{
  ValueStoreErrorCode, invalid_key, invalid_value, unavailable, Failure, sanitise_value_store_error,
  Result, returns, throws, ◌>>=◌,
}
use fancy_kit.ValueStore.Validation.{JsObject, Value, text, Copy}

-- What a call of a method of the caller's comes to.
pub data Reply : Type 0 where
  replied : Value → Reply
  failed : Failure → Reply

pub record Serializer : Type 0 where
  pub serialize : List ℕ → List ℕ → Reply
  pub deserialize : List ℕ → List ℕ → Reply

-- What Reflect.get finds: a getter that throws, a value that is no function, or a method.
pub data Property {ℓ} (M : Type ℓ) : Type ℓ where
  getter_fails : Failure → Property M
  not_function : Property M
  method : M → Property M

pub data Options : Type 0 where
  no_options malformed_options no_serializer malformed_serializer : Options
  serializer_fails : Failure → Options
  with_serializer :
      Property (List ℕ → List ℕ → Reply) → Property (List ℕ → List ℕ → Reply) → Options

-- A value with the objects that it reaches.
pub record Given : Type 0 where
  pub heap : List JsObject
  pub value : Value

-- A copy with its objects.
abbrev pub Snapshot : Type 0
Snapshot = List Copy × Value

-- JSON.stringify throws, or gives something else than a text.
pub data Encoded : Type 0 where
  no_encoding not_text : Encoded
  encoded : List ℕ → Encoded

-- A key that is a text.
unfoldable pub validate_value_key : Value → Result (List ℕ)
validate_value_key (text key) = returns key
validate_value_key key = throws invalid_key

unfoldable pub validate_value_string : ValueStoreErrorCode → Value → Result (List ℕ)
validate_value_string code (text s) = returns s
validate_value_string code value = throws code

unfoldable pub capture_method {ℓ} : {M : Type ℓ} → Bool → Property M → Result M
capture_method false p = throws unavailable
capture_method true (getter_fails f) = throws (sanitise_value_store_error f)
capture_method true not_function = throws unavailable
capture_method true (method m) = returns m

abbrev pub capture_pair :
    Property (List ℕ → List ℕ → Reply)
    → Property (List ℕ → List ℕ → Reply)
    → Result (Option Serializer)
capture_pair (getter_fails f) d = throws (sanitise_value_store_error f)
capture_pair not_function (getter_fails f) = throws (sanitise_value_store_error f)
capture_pair not_function not_function = throws invalid_value
capture_pair not_function (method d) = throws invalid_value
capture_pair (method s) (getter_fails f) = throws (sanitise_value_store_error f)
capture_pair (method s) not_function = throws invalid_value
capture_pair (method s) (method d) = returns (some (record { serialize = s; deserialize = d }))

unfoldable pub capture_serializer : Options → Result (Option Serializer)
capture_serializer no_options = returns none
capture_serializer malformed_options = throws invalid_value
capture_serializer (serializer_fails f) = throws (sanitise_value_store_error f)
capture_serializer no_serializer = returns none
capture_serializer malformed_serializer = throws invalid_value
capture_serializer (with_serializer s d) = capture_pair s d

abbrev pub or_throw {ℓ} : {A : Type ℓ} → ValueStoreErrorCode → Option A → Result A
or_throw code none = throws code
or_throw code (some a) = returns a

abbrev pub sanitised : Option Failure → Result (Unit {0})
sanitised none = returns tt
sanitised (some f) = throws (sanitise_value_store_error f)

module _ (S : Type 0) where
  -- The raw backend as it is supplied, with whether it is an object or a function at all.
  pub record Supplied : Type 0 where
    pub is_object : Bool
    pub get : Property (List ℕ → S → S × Reply)
    pub set : Property (List ℕ → List ℕ → S → S × Option Failure)
    pub remove : Property (List ℕ → S → S × Option Failure)

  pub record Reader : Type 0 where
    pub get : List ℕ → S → S × Reply
    pub serializer : Option Serializer

  pub record ValueStore : Type 0 where
    pub reader : Reader
    pub set : List ℕ → List ℕ → S → S × Option Failure

  pub record DeletableValueStore : Type 0 where
    pub store : ValueStore
    pub remove : List ℕ → S → S × Option Failure

  pub create_value_reader : Supplied → Options → Result Reader
  create_value_reader backend options = capture_method backend.is_object backend.get >>= λ get.
      capture_serializer options >>= λ serializer.
      returns (record { get = get; serializer = serializer })

  pub create_value_store : Supplied → Options → Result ValueStore
  create_value_store backend options = capture_method backend.is_object backend.get >>= λ get.
      capture_method backend.is_object backend.set >>= λ set.
      capture_serializer options >>= λ serializer.
      returns (record { reader = record { get = get; serializer = serializer }; set = set })

  pub create_deletable_value_store : Supplied → Options → Result DeletableValueStore
  create_deletable_value_store backend options = create_value_store backend options >>= λ store.
      capture_method backend.is_object backend.remove >>= λ remove.
      returns (record { store = store; remove = remove })
