-- ===== src/ValueStore/Validation.antt =====
-- packages/value-store/src/validation.ts: `inspectObjectValue`. The objects that a value reaches are
-- the places of a list, the heap. A place outside it stands for a proxy whose traps throw.
pub mod Kinds
pub mod Json
pub mod Children
pub mod Rounds
pub mod Objects
pub mod Accepts
mod Tests
use fancy_kit.Common.{
  ℕ, zero, suc, ◌+◌, Bool, true, false, ◌&&◌, ◌||◌, List, [], ◌∷◌, ◌++◌, map, Option, none, some,
  length, get_elem?, set, replicate, ltb, ◌==◌, if◌then◌else◌, and_then,
}

-- A finite number other than -0 is given by a natural number, of which 0 is the number 0.
pub data Number : Type 0 where
  negative_zero not_finite : Number
  finite : ℕ → Number

-- `other` is undefined, a function, a symbol or a bigint.
pub data Value : Type 0 where
  null_value other : Value
  text : List ℕ → Value
  boolean : Bool → Value
  number : Number → Value
  object : ℕ → Value

-- An own key: `length`, a canonical array index, another string or a symbol.
pub data Key : Type 0 where
  length_key symbol : Key
  index : ℕ → Key
  name : List ℕ → Key

pub data Descriptor : Type 0 where
  accessor : Descriptor
  -- Whether it is enumerable, and its value.
  holds : Bool → Value → Descriptor

pub data Kind : Type 0 where
  array_kind record_kind : Kind

-- An object whose prototype is the one that its kind is required to have, or is not. Of the length of
-- an array, its own property is among the properties too.
pub record JsObject : Type 0 where
  pub kind : Kind
  pub usual_prototype : Bool
  pub array_length : ℕ
  pub properties : List (Key × Descriptor)

-- The key of a child: a number or a string.
pub data ChildKey : Type 0 where
  position : ℕ → ChildKey
  member : Key → ChildKey

abbrev pub open_descriptor : Descriptor → Option Value
open_descriptor accessor = none
open_descriptor (holds false v) = none
open_descriptor (holds true v) = some v

-- The loop over the own keys of an array that fills `values`.
pub array_values : ℕ → List (Key × Descriptor) → List (Option Value) → Option (List (Option Value))
array_values len [] values = some values
array_values len ((length_key, d) ∷ rest) values = array_values len rest values
array_values len ((symbol, d) ∷ rest) values = none
array_values len ((name s, d) ∷ rest) values = none
array_values len ((index i, d) ∷ rest) values =
    and_then (if ltb i len then open_descriptor d else none)
      λ v. array_values len rest (set values i (some v))

abbrev pub array_entries : ℕ → List (Option Value) → Option (List (ChildKey × Value))
array_entries i [] = some []
array_entries i (none ∷ rest) = none
array_entries i (some v ∷ rest) =
    and_then (array_entries (suc i) rest) λ entries. some ((position i, v) ∷ entries)

abbrev pub is_symbol : Key → Bool
is_symbol symbol = true
is_symbol length_key = false
is_symbol (index i) = false
is_symbol (name s) = false

pub record_entries : List (Key × Descriptor) → Option (List (ChildKey × Value))
record_entries [] = some []
record_entries ((key, d) ∷ rest) =
    and_then (if is_symbol key then none else open_descriptor d)
      λ v. and_then (record_entries rest) λ entries. some ((member key, v) ∷ entries)

abbrev pub children_of : Kind → JsObject → Option (List (ChildKey × Value))
children_of array_kind o =
    if length o.properties == suc o.array_length
    then and_then (array_values o.array_length o.properties (replicate o.array_length none))
        (array_entries 0)
    else none
children_of record_kind o = record_entries o.properties

-- `none` is a throw.
pub read_children : JsObject → Option (List (ChildKey × Value))
read_children o = if o.usual_prototype then children_of o.kind o else none

-- A copy in the making, of which the properties are defined in order.
pub record Copy : Type 0 where
  pub kind : Kind
  pub ordinary_prototype : Bool
  pub entries : List (ChildKey × Value)

-- Where the `assign` of a task puts the copy.
pub data Target : Type 0 where
  root nowhere : Target
  child_of : ℕ → ChildKey → Target

pub data Task : Type 0 where
  visit : Value → Target → Task
  leave : ℕ → Task

-- The variables of `inspectObjectValue` but its stack. With `clone` the objects of `result` are places
-- in `copies`.
pub record Walk : Type 0 where
  pub active : List ℕ
  pub copies : List Copy
  pub result : Value

abbrev pub has : ℕ → List ℕ → Bool
has r [] = false
has r (x ∷ xs) = (x == r) || has r xs

abbrev pub delete : ℕ → List ℕ → List ℕ
delete r [] = []
delete r (x ∷ xs) = if x == r then xs else x ∷ delete r xs

-- `assignChild`: the key has to be a number for an array and a string for a record.
abbrev pub fits : Kind → ChildKey → Bool
fits array_kind (position i) = true
fits array_kind (member k) = false
fits record_kind (position i) = false
fits record_kind (member k) = true

abbrev pub define : ChildKey → Value → Copy → Copy
define key v c = record c { entries = c.entries ++ (key, v) ∷ [] }

abbrev pub assign_child : ℕ → ChildKey → Value → Walk → Option Copy → Option Walk
assign_child parent key v w none = none
assign_child parent key v w (some c) =
    if fits c.kind key
    then some (record w { copies = set w.copies parent (define key v c) })
    else none

pub assign : Target → Value → Walk → Option Walk
assign root v w = some (record w { result = v })
assign nowhere v w = some w
assign (child_of parent key) v w = assign_child parent key v w (get_elem? w.copies parent)

module _ (heap : List JsObject) (clone ordinary : Bool) where
  abbrev pub child_task : ℕ → ChildKey × Value → Task
  child_task copy (key, v) = visit v (if clone then child_of copy key else nowhere)

  -- An object that is not active, with its children.
  abbrev pub enter :
      ℕ → Target → List Task → Walk → JsObject → List (ChildKey × Value) → Option (List Task × Walk)
  enter r target rest w o children =
      let at = length w.copies in
      let fresh : List Copy =
        record { kind = o.kind; ordinary_prototype = ordinary; entries = [] } ∷ [] in
      let made : Walk = record w { copies = if clone then w.copies ++ fresh else w.copies } in
      and_then (assign target (object (if clone then at else r)) made) λ w'.
        some
          (map (child_task at) children ++ (leave r ∷ rest), record w' { active = r ∷ w'.active })

  abbrev pub visit_object :
      ℕ → Target → List Task → Walk → Option JsObject → Option (List Task × Walk)
  visit_object r target rest w none = none
  visit_object r target rest w (some o) =
      and_then (read_children o) λ children. enter r target rest w o children

  abbrev pub visit_value : Value → Target → Walk → List Task → Option (List Task × Walk)
  visit_value null_value target w rest = and_then (assign target null_value w) λ w'. some (rest, w')
  visit_value other target w rest = none
  visit_value (text s) target w rest = and_then (assign target (text s) w) λ w'. some (rest, w')
  visit_value (boolean b) target w rest =
      and_then (assign target (boolean b) w) λ w'. some (rest, w')
  visit_value (number not_finite) target w rest = none
  visit_value (number negative_zero) target w rest =
      and_then (assign target (number (if clone then finite 0 else negative_zero)) w)
        λ w'. some (rest, w')
  visit_value (number (finite n)) target w rest =
      and_then (assign target (number (finite n)) w) λ w'. some (rest, w')
  visit_value (object r) target w rest =
      if has r w.active then none else visit_object r target rest w (get_elem? heap r)

  -- One round of the loop: the stack and the variables after it, unless it throws.
  pub round : Task → List Task → Walk → Option (List Task × Walk)
  round (leave r) rest w = some (rest, record w { active = delete r w.active })
  round (visit v target) rest w = visit_value v target w rest

pub data Inspected : Type 0 where
  out_of_fuel threw : Inspected
  inspected : Walk → Inspected

abbrev pub go_on : (List Task → Walk → Inspected) → Option (List Task × Walk) → Inspected
go_on again none = threw
go_on again (some (tasks, w)) = again tasks w

module _ (heap : List JsObject) where
  abbrev pub children_at : ℕ → Option (List (ChildKey × Value))
  children_at r = and_then (get_elem? heap r) read_children

  -- The rounds that the values of some children take, if one value takes `cost` of them.
  abbrev pub sum_cost : (Value → ℕ) → Option (List (ChildKey × Value)) → ℕ
  sum_cost cost none = 0
  sum_cost cost (some []) = 0
  sum_cost cost (some ((key, v) ∷ rest)) = cost v + sum_cost cost (some rest)

  -- A bound of the rounds that a value takes, if no path of objects that are not active is longer
  -- than `depth`.
  pub cost : ℕ → Value → ℕ
  cost zero v = 1
  cost (suc depth) (object r) = suc (suc (sum_cost (cost depth) (children_at r)))
  cost (suc depth) v = 1

module _ (heap : List JsObject) (clone ordinary : Bool) where
  pub loop : ℕ → List Task → Walk → Inspected
  loop zero tasks w = out_of_fuel
  loop (suc fuel) [] w = inspected w
  loop (suc fuel) (task ∷ rest) w = go_on (loop fuel) (round heap clone ordinary task rest w)

  pub inspect_object_value : Value → Inspected
  inspect_object_value value =
      loop (suc (cost heap (length heap) value)) (visit value root ∷ [])
        (record { active = []; copies = []; result = null_value })

-- `none` is the error with the fixed code.
abbrev pub answer : Inspected → Option (List Copy × Value)
answer out_of_fuel = none
answer threw = none
answer (inspected w) = some (w.copies, w.result)

pub validate_object_value : List JsObject → Value → Bool
validate_object_value heap value = elim (answer (inspect_object_value heap false false value)) [
  | none ↦ false
  | some r ↦ true
]

pub clone_object_value : List JsObject → Value → Option (List Copy × Value)
clone_object_value heap value = answer (inspect_object_value heap true true value)

pub snapshot_object_value : List JsObject → Value → Option (List Copy × Value)
snapshot_object_value heap value = answer (inspect_object_value heap true false value)
