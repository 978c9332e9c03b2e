-- ===== src/Graph/Workbook/Edits.antt =====
-- mcps/microsoft/ms_graph/workbook_edit.py: the validation of the edit operations. `loads` is
-- `json.loads`, `none` for a JSONDecodeError.
use bond_mcps.Prelude.{
  ℕ, suc, String, Bool, true, false, not, ◌&&◌, ◌||◌, Option, none, some, List, [], ◌∷◌, ◌==◌, leb,
  if◌then◌else◌,
}
use bond_mcps.Prelude.Int.{pos, negsuc}
use bond_mcps.JsonValue.{
  Json, Fields, get_field, has_field, fields_of, list_value, truth, text_value, int_value,
}

-- The keys of `_REQUIRED_FIELDS`
pub data Op : Type 0 where
  set_cell set_range add_column insert_rows delete_rows insert_columns delete_columns : Op

abbrev pub op_name : Op → String
op_name set_cell = "set_cell"
op_name set_range = "set_range"
op_name add_column = "add_column"
op_name insert_rows = "insert_rows"
op_name delete_rows = "delete_rows"
op_name insert_columns = "insert_columns"
op_name delete_columns = "delete_columns"

unfoldable pub op_of : String → Option Op
op_of s =
    if s == "set_cell"
    then some set_cell
    else if s == "set_range"
    then some set_range
    else if s == "add_column"
    then some add_column
    else if s == "insert_rows"
    then some insert_rows
    else if s == "delete_rows"
    then some delete_rows
    else if s == "insert_columns"
    then some insert_columns
    else if s == "delete_columns"
    then some delete_columns
    else none

abbrev pub required_fields : Op → List String
required_fields set_cell = "cell" ∷ "value" ∷ []
required_fields set_range = "range" ∷ "values" ∷ []
required_fields add_column = "header" ∷ []
required_fields insert_rows = "at" ∷ []
required_fields delete_rows = "at" ∷ []
required_fields insert_columns = "at" ∷ []
required_fields delete_columns = "at" ∷ []

-- The ValueErrors of `parse_workbook_edits`, with the index of the operation, and the TypeError of an `op`
-- that cannot be hashed.
pub data EditProblem : Type 0 where
  invalid_json not_an_array : EditProblem
  not_an_object missing_op unhashable_op unknown_op : ℕ → EditProblem
  missing_field : ℕ → String → EditProblem
  not_2d values_not_array bad_at bad_count : ℕ → EditProblem

pub data Parsed {ℓ} (A : Type ℓ) : Type ℓ where
  valid : A → Parsed A
  invalid : EditProblem → Parsed A

-- The first required field that is missing
unfoldable pub first_missing : List String → Fields → Option String
first_missing [] item = none
first_missing (f ∷ fs) item = if has_field f item then first_missing fs item else some f

unfoldable pub all_lists : List Json → Bool
all_lists [] = true
all_lists (row ∷ rows) = elim (list_value row) [ none ↦ false | some cells ↦ all_lists rows ]

-- `_is_2d_list`
unfoldable pub is_2d_list : Json → Bool
is_2d_list value = elim (list_value value) [ none ↦ false | some rows ↦ all_lists rows ]

-- `isinstance(value, int) and value >= 1`
abbrev pub is_positive : Json → Bool
is_positive value = elim (int_value value) [
  | none ↦ false
  | some (pos n) ↦ leb 1 n
  | some (negsuc n) ↦ false
]

-- `item.get("count", 1)` is right where the key is missing.
abbrev pub count_ok : Fields → Bool
count_ok item = not (has_field "count" item) || is_positive (get_field "count" item)

-- `_validate_position`
unfoldable pub validate_position : ℕ → Fields → Option EditProblem
validate_position i item =
    if is_positive (get_field "at" item)
    then if count_ok item then none else some (bad_count i)
    else some (bad_at i)

abbrev is_array : Json → Bool
is_array value = elim (list_value value) [ none ↦ false | some items ↦ true ]

-- The checks of the types and shapes
unfoldable pub check_shape : Op → ℕ → Fields → Option EditProblem
check_shape set_cell i item = none
check_shape set_range i item =
    if is_2d_list (get_field "values" item) then none else some (not_2d i)
check_shape add_column i item =
    if has_field "values" item
      && not (elim (list_value (get_field "values" item)) [ none ↦ false | some items ↦ true ])
    then some (values_not_array i)
    else none
check_shape insert_rows i item = validate_position i item
check_shape delete_rows i item = validate_position i item
check_shape insert_columns i item = validate_position i item
check_shape delete_columns i item = validate_position i item

abbrev pub is_container : Json → Bool
is_container value = elim (list_value value) [
  | some items ↦ true
  | none ↦ elim (fields_of value) [ none ↦ false | some fs ↦ true ]
]

abbrev pub op_at : Json → Option Op
op_at value = elim (text_value value) [ none ↦ none | some s ↦ op_of s ]

-- One round of the loop: the problem of an item, or the item.
unfoldable pub check_item : ℕ → Json → Parsed Fields
check_item i value = elim (fields_of value) [
  | none ↦ invalid (not_an_object i)
  | some item ↦
      if truth (get_field "op" item)
      then elim (op_at (get_field "op" item)) [
        | none ↦
            invalid (if is_container (get_field "op" item) then unhashable_op i else unknown_op i)
        | some op ↦ elim (first_missing (required_fields op) item) [
          | some f ↦ invalid (missing_field i f)
          | none ↦ elim (check_shape op i item) [
            | some problem ↦ invalid problem
            | none ↦ valid item
          ]
        ]
      ]
      else invalid (missing_op i)
]

unfoldable pub check_items : ℕ → List Json → Parsed (List Fields)
check_items i [] = valid []
check_items i (value ∷ values) = elim (check_item i value) [
  | invalid problem ↦ invalid problem
  | valid item ↦ elim (check_items (suc i) values) [
    | invalid problem ↦ invalid problem
    | valid items ↦ valid (item ∷ items)
  ]
]

unfoldable pub parse_workbook_edits : (String → Option Json) → String → Parsed (List Fields)
parse_workbook_edits loads edits_json = elim (loads edits_json) [
  | none ↦ invalid invalid_json
  | some content ↦ elim (list_value content) [
    | none ↦ invalid not_an_array
    | some values ↦ check_items 0 values
  ]
]
