-- ===== src/ValueStore/Validation/Json.antt =====
-- What a JSON value in the heap is, by its objects' own properties.
use fancy_kit.Common.{
  ℕ, zero, suc, Bool, true, false, ◌&&◌, List, [], ◌∷◌, Option, none, some, length, get_elem?, ltb,
  ◌==◌, if◌then◌else◌,
}
use fancy_kit.ValueStore.Validation.{
  negative_zero, not_finite, finite, Value, null_value, other, text, boolean, number, object,
  JsObject, Key, length_key, symbol, index, name, Descriptor, accessor, holds, Kind, array_kind,
  record_kind,
}

-- A property that is enumerable and holds a value, not an accessor.
abbrev pub is_data : Descriptor → Bool
is_data accessor = false
is_data (holds enumerable v) = enumerable

abbrev pub value_of : Descriptor → Option Value
value_of accessor = none
value_of (holds enumerable v) = some v

abbrev pub passes : (Value → Bool) → Option Value → Bool
passes p none = false
passes p (some v) = p v

abbrev pub is_text : Key → Bool
is_text length_key = true
is_text symbol = false
is_text (index i) = true
is_text (name s) = true

-- A record has no symbol among its keys, and each property is data whose value passes the test.
abbrev pub record_passes : (Value → Bool) → List (Key × Descriptor) → Bool
record_passes p [] = true
record_passes p ((key, d) ∷ rest) =
    is_text key && (is_data d && passes p (value_of d)) && record_passes p rest

-- The keys are `length` and indices below the length, and what stands at an index is data.
abbrev pub indices_only : ℕ → List (Key × Descriptor) → Bool
indices_only len [] = true
indices_only len ((length_key, d) ∷ rest) = indices_only len rest
indices_only len ((symbol, d) ∷ rest) = false
indices_only len ((name s, d) ∷ rest) = false
indices_only len ((index i, d) ∷ rest) = (ltb i len && is_data d) && indices_only len rest

abbrev pub later_or : Option Value → Option Value → Option Value
later_or none here = here
later_or (some v) here = some v

-- The value of the property with this index.
abbrev pub value_at : List (Key × Descriptor) → ℕ → Option Value
value_at [] i = none
value_at ((length_key, d) ∷ rest) i = value_at rest i
value_at ((symbol, d) ∷ rest) i = value_at rest i
value_at ((name s, d) ∷ rest) i = value_at rest i
value_at ((index j, d) ∷ rest) i = later_or (value_at rest i) (if i == j then value_of d else none)

-- The first values are there and pass the test.
abbrev pub all_pass : (Value → Bool) → (ℕ → Option Value) → ℕ → Bool
all_pass p f zero = true
all_pass p f (suc n) = passes p (f 0) && all_pass p (λ i. f (suc i)) n

abbrev pub properties_pass : (Value → Bool) → Kind → JsObject → Bool
properties_pass p record_kind o = record_passes p o.properties
properties_pass p array_kind o =
    if length o.properties == suc o.array_length
    then indices_only o.array_length o.properties
      && all_pass p (value_at o.properties) o.array_length
    else false

-- An array has its length and one property for each index below it, and nothing else; a record has
-- text keys only; either has its usual prototype, and no property is hidden or an accessor.
abbrev pub object_passes : (Value → Bool) → Option JsObject → Bool
object_passes p none = false
object_passes p (some o) = o.usual_prototype && properties_pass p o.kind o

abbrev pub among : ℕ → List ℕ → Bool
among r [] = false
among r (x ∷ xs) = if x == r then true else among r xs

-- A JSON value: null, text, a Boolean, a finite number, or an object that does not stand on the path
-- to it, and whose own properties are such data with JSON values.
unfoldable pub is_json : List JsObject → ℕ → List ℕ → Value → Bool
is_json heap depth path null_value = true
is_json heap depth path other = false
is_json heap depth path (text s) = true
is_json heap depth path (boolean b) = true
is_json heap depth path (number not_finite) = false
is_json heap depth path (number negative_zero) = true
is_json heap depth path (number (finite n)) = true
is_json heap zero path (object r) = false
is_json heap (suc depth) path (object r) =
    let inside = object_passes (is_json heap depth (r ∷ path)) (get_elem? heap r) in
    if among r path then false else inside
