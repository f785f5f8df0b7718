-- ===== src/ValueStore/Validation/Tests.antt =====
-- The inspection of concrete heaps.
use fancy_kit.Common.{◌≡◌, refl, true, false, List, [], ◌∷◌, some}
use fancy_kit.ValueStore.Validation
use fancy_kit.ValueStore.Validation.{
  JsObject, Value, object, number, finite, negative_zero, text, boolean, null_value, index, name,
  length_key, holds, accessor, array_kind, record_kind, Inspected, inspected, threw, Walk,
  inspect_object_value, validate_object_value, snapshot_object_value, position, member,
}
use fancy_kit.ValueStore.Validation.Json.{is_json}
use fancy_kit.ValueStore.Validation.Accepts.{inspect_accepts}

program : Unit {0}
unfolding Validation.array_values Validation.record_entries Validation.read_children
    Validation.assign Validation.round Validation.cost Validation.loop
    Validation.inspect_object_value Validation.validate_object_value
    Validation.snapshot_object_value is_json
program = tt

-- `[-0, {"b": []}]`, whose record holds the array at 2.
abbrev nested : List JsObject
nested =
    record {
      kind = array_kind;
      usual_prototype = true;
      array_length = 2;
      properties =
          (index 0, holds true (number negative_zero))
          ∷ (index 1, holds true (object 1))
          ∷ (length_key, holds false (number (finite 2)))
          ∷ [];
    }
    ∷ record {
      kind = record_kind;
      usual_prototype = true;
      array_length = 0;
      properties = (name (98 ∷ []), holds true (object 2)) ∷ [];
    }
    ∷ record {
      kind = array_kind;
      usual_prototype = true;
      array_length = 0;
      properties = (length_key, holds false (number (finite 0))) ∷ [];
    }
    ∷ []

-- An object that holds itself.
abbrev cycle : List JsObject
cycle =
    record {
      kind = record_kind;
      usual_prototype = true;
      array_length = 0;
      properties = (name (97 ∷ []), holds true (object 0)) ∷ [];
    }
    ∷ []

nested_snapshot :
    snapshot_object_value nested (object 0)
    ≡ some (
      record {
        kind = array_kind;
        ordinary_prototype = false;
        entries = (position 0, number (finite 0)) ∷ (position 1, object 1) ∷ [];
      }
          ∷ record {
            kind = record_kind;
            ordinary_prototype = false;
            entries = (member (name (98 ∷ [])), object 2) ∷ [];
          }
          ∷ record { kind = array_kind; ordinary_prototype = false; entries = [] }
          ∷ [],
      object 0,
    )
unfolding program
nested_snapshot = refl

cycle_refused : validate_object_value cycle (object 0) ≡ false
unfolding program
cycle_refused = refl

inspect_accepts_example :
    (is_json nested 3 [] (object 0) ≡ true
      → (w : Walk) × (inspect_object_value nested true true (object 0) ≡ inspected w)
        × (w.active ≡ []))
    × (is_json nested 3 [] (object 0) ≡ false
        → inspect_object_value nested true true (object 0) ≡ threw)
inspect_accepts_example = inspect_accepts nested true true (object 0)
