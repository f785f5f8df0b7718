-- ===== src/SafePath/Tests.antt =====
-- The path contract on concrete paths, and its theorems at concrete inputs.
use fancy_kit.Common.{ℕ, ◌≡◌, ◌↔◌, refl, true, false, List, [], ◌∷◌, none, some}
use fancy_kit.SafePath
use fancy_kit.SafePath.{
  UnsafePathError, Parsed, safe, unsafe, Resolved, resolved, unsafe_component_reason, reserved_name,
  dot_component, trailing_dot_or_space, parse_safe_relative_path, is_safe_relative_path,
  resolve_path_within_root, find_path_components_exceeding_utf8_limit,
}
use fancy_kit.SafePath.Contained.{Parts, Chosen, is_safe_iff, resolve_contained}
use fancy_kit.Common.{length}

program : Unit {0}
unfolding SafePath.after_prefix SafePath.is_reserved SafePath.contains_control_character
    SafePath.unsafe_component_reason SafePath.is_safe_path_component SafePath.is_absolute
    SafePath.parse_safe_relative_path SafePath.is_safe_relative_path
    SafePath.resolve_path_within_root SafePath.find_path_components_exceeding_utf8_limit
program = tt

-- `a/b`, `a/../b`, `x\` and `COM1.txt`.
abbrev a_b : List ℕ
a_b = 97 ∷ 47 ∷ 98 ∷ []

abbrev climbing : List ℕ
climbing = 97 ∷ 47 ∷ 46 ∷ 46 ∷ 47 ∷ 98 ∷ []

abbrev root_x : List ℕ
root_x = 120 ∷ 92 ∷ []

abbrev com1_txt : List ℕ
com1_txt = 67 ∷ 79 ∷ 77 ∷ 49 ∷ 46 ∷ 116 ∷ 120 ∷ 116 ∷ []

device_reserved : unsafe_component_reason com1_txt ≡ some reserved_name
unfolding program
device_reserved = refl

dot_trails : unsafe_component_reason (97 ∷ 46 ∷ []) ≡ some trailing_dot_or_space
unfolding program
dot_trails = refl

climbing_refused : is_safe_relative_path false climbing ≡ false
unfolding program
climbing_refused = refl

drive_refused : is_safe_relative_path false (67 ∷ 58 ∷ 97 ∷ []) ≡ false
unfolding program
drive_refused = refl

resolved_slash :
    resolve_path_within_root root_x a_b false none ≡ resolved (120 ∷ 47 ∷ 97 ∷ 47 ∷ 98 ∷ [])
unfolding program
resolved_slash = refl

resolved_backslash :
    resolve_path_within_root root_x a_b false (some (92 ∷ []))
    ≡ resolved (120 ∷ 92 ∷ 97 ∷ 92 ∷ 98 ∷ [])
unfolding program
resolved_backslash = refl

long_component :
    find_path_components_exceeding_utf8_limit length (47 ∷ 97 ∷ 97 ∷ 47 ∷ 98 ∷ []) 1
    ≡ (97 ∷ 97 ∷ [], 2) ∷ []
unfolding program
long_component = refl

is_safe_iff_example :
    ((is_safe_relative_path false climbing ≡ true)
      ↔ (parse_safe_relative_path false climbing ≡ safe climbing))
    × (is_safe_relative_path false climbing ≡ false
        → (e : UnsafePathError) × (parse_safe_relative_path false climbing ≡ unsafe e))
is_safe_iff_example = is_safe_iff false climbing

resolve_contained_example :
    (s : List ℕ) × Chosen (some (92 ∷ [])) s × Parts root_x a_b s (120 ∷ 92 ∷ 97 ∷ 92 ∷ 98 ∷ [])
resolve_contained_example =
    resolve_contained root_x a_b false (some (92 ∷ [])) (120 ∷ 92 ∷ 97 ∷ 92 ∷ 98 ∷ [])
      resolved_backslash
