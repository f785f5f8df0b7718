-- ===== src/ValueStore/Errors.antt =====
-- packages/value-store/src/errors.ts. A message is fixed by its code, so an error is its code.
use fancy_kit.Common.{ℕ, List, [], ◌∷◌, Option, none, some, if◌then◌else◌}
use fancy_kit.Common.Texts.{same}

pub data ValueStoreErrorCode : Type 0 where
  invalid_key invalid_name invalid_value unavailable access_denied quota_exceeded :
      ValueStoreErrorCode
  decryption_failed invalid_data operation_failed : ValueStoreErrorCode

-- Whatever a backend, a serializer or a getter throws.
pub data Failure : Type 0 where
  -- A direct ValueStoreError, with the code that its own data property holds, if that is one.
  value_store_error : Option ValueStoreErrorCode → Failure
  -- A proxy that throws when its prototype or property is inspected.
  hostile : Failure
  -- Another object or function by its name, one whose `name` throws, and any other value.
  named : List ℕ → Failure
  hostile_name nameless : Failure

-- "SecurityError" and "QuotaExceededError".
abbrev pub security_error : List ℕ
security_error = 83 ∷ 101 ∷ 99 ∷ 117 ∷ 114 ∷ 105 ∷ 116 ∷ 121 ∷ 69 ∷ 114 ∷ 114 ∷ 111 ∷ 114 ∷ []

abbrev pub quota_exceeded_error : List ℕ
quota_exceeded_error =
    81 ∷ 117 ∷ 111 ∷ 116 ∷ 97 ∷ 69 ∷ 120 ∷ 99 ∷ 101 ∷ 101 ∷ 100 ∷ 101 ∷ 100 ∷ 69 ∷ 114 ∷ 114 ∷ 111
    ∷ 114 ∷ []

unfoldable pub sanitise_value_store_error : Failure → ValueStoreErrorCode
sanitise_value_store_error (value_store_error (some code)) = code
sanitise_value_store_error (value_store_error none) = operation_failed
sanitise_value_store_error hostile = operation_failed
sanitise_value_store_error hostile_name = operation_failed
sanitise_value_store_error nameless = operation_failed
sanitise_value_store_error (named name) =
    if same name security_error
    then access_denied
    else if same name quota_exceeded_error
    then quota_exceeded
    else operation_failed

-- A promise that is rejected with a ValueStoreError, or a throw of one.
pub data Result {ℓ} (A : Type ℓ) : Type ℓ where
  returns : A → Result A
  throws : ValueStoreErrorCode → Result A

infixl 5 ◌>>=◌
abbrev pub ◌>>=◌ {ℓ κ} : {A : Type ℓ} {B : Type κ} → Result A → (A → Result B) → Result B
returns a >>= f = f a
throws code >>= f = throws code
