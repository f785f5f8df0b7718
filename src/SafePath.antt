-- ===== src/SafePath.antt =====
-- packages/octagonal-wheels/src/path.ts: the path-safety contract. A string is the list of its UTF-16
-- code units, and a character of a regular expression the code unit that it matches. `TextEncoder` is
-- the platform's, an argument of the one function that calls it.
pub mod Split
pub mod Roots
pub mod Components
pub mod Contained
mod Tests
use fancy_kit.Common.{
  ℕ, zero, suc, ◌+◌, Bool, true, false, ◌&&◌, ◌||◌, List, [], ◌∷◌, ◌++◌, map, Option, none, some,
  ltb, leb, ◌==◌, if◌then◌else◌,
}
use fancy_kit.Common.Texts.{same}

pub data Reason : Type 0 where
  empty_path absolute_path empty_component dot_component control_character invalid_character :
      Reason
  trailing_dot_or_space reserved_name : Reason

abbrev pub any {ℓ} : {A : Type ℓ} → (A → Bool) → List A → Bool
any p [] = false
any p (x ∷ xs) = p x || any p xs

abbrev pub all {ℓ} : {A : Type ℓ} → (A → Bool) → List A → Bool
all p [] = true
all p (x ∷ xs) = p x && all p xs

-- `/` and `\`.
abbrev pub is_slash : ℕ → Bool
is_slash c = c == 47

abbrev pub is_separator : ℕ → Bool
is_separator c = (c == 47) || (c == 92)

-- `[<>:"/\\|?*]`.
abbrev pub is_invalid : ℕ → Bool
is_invalid c =
    (c == 60)
    || ((c == 62)
        || ((c == 58)
            || ((c == 34)
                || ((c == 47) || ((c == 92) || ((c == 124) || ((c == 63) || (c == 42))))))))

abbrev is_control : ℕ → Bool
is_control c = leb c 31 || (leb 127 c && leb c 159)

-- The case folding of the `iu` flags, for the letters that the pattern has: U+212A is a `k`.
abbrev fold : ℕ → ℕ
fold c = if leb 65 c && leb c 90 then c + 32 else if c == 8490 then 107 else c

-- The pattern `con|prn|aux|nul|clock\$|conin\$|conout\$`, and the stems `com` and `lpt`.
abbrev reserved_names : List (List ℕ)
reserved_names =
    (99 ∷ 111 ∷ 110 ∷ [])
    ∷ (112 ∷ 114 ∷ 110 ∷ [])
    ∷ (97 ∷ 117 ∷ 120 ∷ [])
    ∷ (110 ∷ 117 ∷ 108 ∷ [])
    ∷ (99 ∷ 108 ∷ 111 ∷ 99 ∷ 107 ∷ 36 ∷ [])
    ∷ (99 ∷ 111 ∷ 110 ∷ 105 ∷ 110 ∷ 36 ∷ [])
    ∷ (99 ∷ 111 ∷ 110 ∷ 111 ∷ 117 ∷ 116 ∷ 36 ∷ [])
    ∷ []

abbrev numbered_stems : List (List ℕ)
numbered_stems = (99 ∷ 111 ∷ 109 ∷ []) ∷ (108 ∷ 112 ∷ 116 ∷ []) ∷ []

-- What follows a prefix, if the text starts with it.
pub after_prefix : List ℕ → List ℕ → Option (List ℕ)
after_prefix [] text = some text
after_prefix (p ∷ ps) [] = none
after_prefix (p ∷ ps) (c ∷ cs) = let rest = after_prefix ps cs in if p == c then rest else none

-- `(?:\.|$)`.
abbrev ends : Option (List ℕ) → Bool
ends none = false
ends (some []) = true
ends (some (c ∷ cs)) = c == 46

-- `[1-9](?:\.|$)`.
abbrev numbered_ends : Option (List ℕ) → Bool
numbered_ends none = false
numbered_ends (some []) = false
numbered_ends (some (c ∷ cs)) = leb 49 c && (leb c 57 && ends (some cs))

pub is_reserved : List ℕ → Bool
unfolding after_prefix
is_reserved component =
    let text = map fold component in
    any (λ name. ends (after_prefix name text)) reserved_names
    || any (λ stem. numbered_ends (after_prefix stem text)) numbered_stems

pub contains_control_character : List ℕ → Bool
contains_control_character = any is_control

-- `/[. ]$/`.
abbrev ends_badly : List ℕ → Bool
ends_badly [] = false
ends_badly (c ∷ []) = (c == 46) || (c == 32)
ends_badly (c ∷ d ∷ cs) = ends_badly (d ∷ cs)

abbrev pub is_empty : List ℕ → Bool
is_empty [] = true
is_empty (c ∷ cs) = false

abbrev pub is_dots : List ℕ → Bool
is_dots c = same c (46 ∷ []) || same c (46 ∷ 46 ∷ [])

pub unsafe_component_reason : List ℕ → Option Reason
unfolding contains_control_character is_reserved
unsafe_component_reason c =
    if is_empty c
    then some empty_component
    else if is_dots c
    then some dot_component
    else if contains_control_character c
    then some control_character
    else if any is_invalid c
    then some invalid_character
    else if ends_badly c
    then some trailing_dot_or_space
    else if is_reserved c
    then some reserved_name
    else none

-- An `UnsafePathError`: its input, reason and component.
pub record UnsafePathError : Type 0 where
  pub input : List ℕ
  pub reason : Reason
  pub component : Option (List ℕ)

pub data Parsed : Type 0 where
  safe : List ℕ → Parsed
  unsafe : UnsafePathError → Parsed

abbrev pub component_error : List ℕ → Option Reason → Parsed
component_error c none = safe c
component_error c (some r) = unsafe (record { input = c; reason = r; component = some c })

pub parse_safe_path_component : List ℕ → Parsed
parse_safe_path_component c = component_error c (unsafe_component_reason c)

abbrev pub is_none {ℓ} : {A : Type ℓ} → Option A → Bool
is_none none = true
is_none (some a) = false

pub is_safe_path_component : List ℕ → Bool
is_safe_path_component c = is_none (unsafe_component_reason c)

abbrev pub cons_head : ℕ → List (List ℕ) → List (List ℕ)
cons_head c [] = (c ∷ []) ∷ []
cons_head c (x ∷ xs) = (c ∷ x) ∷ xs

-- `String.split` at the characters that satisfy the test.
abbrev pub split : (ℕ → Bool) → List ℕ → List (List ℕ)
split p [] = [] ∷ []
split p (c ∷ cs) = let rest = split p cs in if p c then [] ∷ rest else cons_head c rest

abbrev pub join : List ℕ → List (List ℕ) → List ℕ
join sep [] = []
join sep (x ∷ []) = x
join sep (x ∷ y ∷ ys) = x ++ sep ++ join sep (y ∷ ys)

abbrev is_letter : ℕ → Bool
is_letter c = (leb 65 c && leb c 90) || (leb 97 c && leb c 122)

-- A leading separator or a drive prefix.
pub is_absolute : List ℕ → Bool
is_absolute [] = false
is_absolute (c ∷ []) = is_separator c
is_absolute (c ∷ d ∷ cs) = is_separator c || (is_letter c && (d == 58))

abbrev pub refuse_component : List ℕ → List ℕ → Option Reason → Parsed → Parsed
refuse_component path c none rest = rest
refuse_component path c (some r) rest =
    unsafe (record { input = path; reason = r; component = some c })

-- The loop over the components: the first unsafe one is thrown.
abbrev pub first_unsafe : List ℕ → List (List ℕ) → Parsed
first_unsafe path [] = safe path
first_unsafe path (c ∷ cs) =
    refuse_component path c (unsafe_component_reason c) (first_unsafe path cs)

pub parse_safe_relative_path : Bool → List ℕ → Parsed
parse_safe_relative_path allow_empty path =
    if is_empty path
    then (if allow_empty
        then safe path
        else unsafe (record { input = path; reason = empty_path; component = none }))
    else if is_absolute path
    then unsafe (record { input = path; reason = absolute_path; component = none })
    else first_unsafe path (split is_slash path)

pub is_safe_relative_path : Bool → List ℕ → Bool
is_safe_relative_path allow_empty path =
    if is_empty path
    then allow_empty
    else if is_absolute path
    then false
    else all is_safe_path_component (split is_slash path)

abbrev strip_step : ℕ → List ℕ → List ℕ
strip_step c [] = if is_separator c then [] else c ∷ []
strip_step c (d ∷ ds) = c ∷ d ∷ ds

-- `root.replace(/[\\/]+$/u, "")`.
abbrev pub strip_separators : List ℕ → List ℕ
strip_separators [] = []
strip_separators (c ∷ cs) = strip_step c (strip_separators cs)

pub data Resolved : Type 0 where
  resolved : List ℕ → Resolved
  unsafe_path : UnsafePathError → Resolved
  range_error : Resolved

-- What stands before the relative path, for a root that is not empty or is.
abbrev pub root_part : List ℕ → List ℕ → List ℕ
root_part root separator =
    let stripped = strip_separators root in
    if is_empty stripped then root else stripped ++ separator

abbrev pub resolve_safe : List ℕ → List ℕ → Parsed → Resolved
resolve_safe root separator (unsafe e) = unsafe_path e
resolve_safe root separator (safe path) =
    if same separator (47 ∷ []) || same separator (92 ∷ [])
    then (if is_empty path
        then resolved root
        else (let joined =
              if same separator (47 ∷ []) then path else join (92 ∷ []) (split is_slash path) in
            resolved (root_part root separator ++ joined)))
    else range_error

abbrev pub separator_or_slash : Option (List ℕ) → List ℕ
separator_or_slash none = 47 ∷ []
separator_or_slash (some s) = s

pub resolve_path_within_root : List ℕ → List ℕ → Bool → Option (List ℕ) → Resolved
resolve_path_within_root root relative_path allow_empty separator =
    resolve_safe root (separator_or_slash separator)
      (parse_safe_relative_path allow_empty relative_path)

abbrev oversized : (List ℕ → ℕ) → ℕ → List (List ℕ) → List (List ℕ × ℕ)
oversized utf8_bytes max_bytes [] = []
oversized utf8_bytes max_bytes (c ∷ cs) =
    let rest = oversized utf8_bytes max_bytes cs in
    if is_empty c
    then rest
    else if ltb max_bytes (utf8_bytes c)
    then (c, utf8_bytes c) ∷ rest
    else rest

pub find_path_components_exceeding_utf8_limit : (List ℕ → ℕ) → List ℕ → ℕ → List (List ℕ × ℕ)
find_path_components_exceeding_utf8_limit utf8_bytes path max_bytes =
    oversized utf8_bytes max_bytes (split is_slash path)
