-- ===== src/Graph/Workbook/Valid.antt =====
-- What the validation of the edit operations lets through.
use bond_mcps.Prelude.{
  eq_iff, ◌==◌, ℕ, ◌≤◌, suc, String, true, false, Option, none, some, List, [], ◌∷◌, ◌≡◌, refl, ap,
  ◌∙◌, ◌⊎◌, inl, inr, arith, map, All, Bool-cases, Option-cases,
}
use bond_mcps.Prelude.Int.{pos, negsuc}
use bond_mcps.JsonValue.{
  Json, object, Fields, get_field, has_field, fields_of, list_value, truth, text_value, int_value,
}
use bond_mcps.Graph.Workbook.Edits.{
  Op, set_cell, set_range, add_column, insert_rows, delete_rows, insert_columns, delete_columns,
  required_fields, first_missing, is_2d_list, is_positive, count_ok, validate_position, check_shape,
  op_at, op_of, op_name, all_lists, check_item, check_items, parse_workbook_edits, Parsed, valid,
  invalid, EditProblem,
}

-- An integer of at least 1
abbrev pub IsCount : Json → Type 0
IsCount value = (n : ℕ) × (int_value value ≡ some (pos n)) × (1 ≤ n)

-- A position, and a count where there is one
abbrev pub Positioned : Fields → Type 0
Positioned item =
    (has_field "at" item ≡ true)
    × IsCount (get_field "at" item)
    × ((has_field "count" item ≡ false) ⊎ IsCount (get_field "count" item))

-- A list of lists
abbrev pub IsTable : Json → Type 0
IsTable value =
    (rows : List Json) × (list_value value ≡ some rows)
    × All (λ row. (cells : List Json) × (list_value row ≡ some cells)) rows

-- What an operation of a name has
pub data Shaped (item : Fields) : String → Type 0 where
  of_cell : has_field "cell" item ≡ true → has_field "value" item ≡ true → Shaped item "set_cell"
  of_range :
      has_field "range" item ≡ true
      → has_field "values" item ≡ true
      → IsTable (get_field "values" item)
      → Shaped item "set_range"
  of_column :
      has_field "header" item ≡ true
      → (has_field "values" item ≡ false)
        ⊎ ((values : List Json) × (list_value (get_field "values" item) ≡ some values))
      → Shaped item "add_column"
  of_new_rows : Positioned item → Shaped item "insert_rows"
  of_old_rows : Positioned item → Shaped item "delete_rows"
  of_new_columns : Positioned item → Shaped item "insert_columns"
  of_old_columns : Positioned item → Shaped item "delete_columns"

-- An operation of a known name with its required fields and right values
abbrev pub IsEdit : Fields → Type 0
IsEdit item = (name : String) × (text_value (get_field "op" item) ≡ some name) × Shaped item name

first_missing_sound :
    (fs : List String) (item : Fields)
    → first_missing fs item ≡ none
    → All (λ f. has_field f item ≡ true) fs
unfolding first_missing
first_missing_sound [] item h = tt
first_missing_sound (f ∷ fs) item h = elim (Bool-cases (has_field f item)) [
  | inl has ↦ (has, first_missing_sound fs item (rw (first_missing, has) at h))
  | inr missing ↦ absurd (ground (arith, rw (first_missing, missing) at h))
]

is_positive-IsCount : (value : Json) → is_positive value ≡ true → IsCount value
is_positive-IsCount value h = elim (Option-cases (int_value value)) [
  | inl other ↦ absurd (ground (arith, rw (is_positive, other) at h))
  | inr (pos n, is) ↦ (n, is, ground (arith, rw (is_positive, is) at h))
  | inr (negsuc n, is) ↦ absurd (ground (arith, rw (is_positive, is) at h))
]

all_lists_sound :
    (rows : List Json)
    → all_lists rows ≡ true
    → All (λ row. (cells : List Json) × (list_value row ≡ some cells)) rows
unfolding all_lists
all_lists_sound [] h = tt
all_lists_sound (row ∷ rows) h = elim (Option-cases (list_value row)) [
  | inl other ↦ absurd (ground (arith, rw (all_lists, other) at h))
  | inr (cells, is) ↦ ((cells, is), all_lists_sound rows (rw (all_lists, is) at h))
]

is_2d_list-IsTable : (value : Json) → is_2d_list value ≡ true → IsTable value
unfolding is_2d_list
is_2d_list-IsTable value h = elim (Option-cases (list_value value)) [
  | inl other ↦ absurd (ground (arith, rw (is_2d_list, other) at h))
  | inr (rows, is) ↦ (rows, is, all_lists_sound rows (rw (is_2d_list, is) at h))
]

count_ok_sound :
    (item : Fields)
    → count_ok item ≡ true
    → (has_field "count" item ≡ false) ⊎ IsCount (get_field "count" item)
count_ok_sound item h = elim (Bool-cases (has_field "count" item)) [
  | inr missing ↦ inl missing
  | inl has ↦ inr (is_positive-IsCount (get_field "count" item) (rw (count_ok, has) at h))
]

validate_position_sound :
    (i : ℕ) (item : Fields)
    → has_field "at" item ≡ true
    → validate_position i item ≡ none
    → Positioned item
unfolding validate_position
validate_position_sound i item has h = (
  has,
  is_positive-IsCount (get_field "at" item) (ground (arith, h)),
  count_ok_sound item (ground (arith, h)),
)

op_of_sound : (s : String) (op : Op) → op_of s ≡ some op → s ≡ op_name op
unfolding op_of
op_of_sound s op h = elim (Bool-cases (s == "set_cell")) [
  | inl e0 ↦
      let same : set_cell ≡ op = ground (arith, rw (op_of, e0) at h) in
      (eq_iff s "set_cell").0 e0 ∙ ap op_name same
  | inr n0 ↦ elim (Bool-cases (s == "set_range")) [
    | inl e1 ↦
        let same : set_range ≡ op = ground (arith, rw (op_of, n0, e1) at h) in
        (eq_iff s "set_range").0 e1 ∙ ap op_name same
    | inr n1 ↦ elim (Bool-cases (s == "add_column")) [
      | inl e2 ↦
          let same : add_column ≡ op = ground (arith, rw (op_of, n0, n1, e2) at h) in
          (eq_iff s "add_column").0 e2 ∙ ap op_name same
      | inr n2 ↦ elim (Bool-cases (s == "insert_rows")) [
        | inl e3 ↦
            let same : insert_rows ≡ op = ground (arith, rw (op_of, n0, n1, n2, e3) at h) in
            (eq_iff s "insert_rows").0 e3 ∙ ap op_name same
        | inr n3 ↦ elim (Bool-cases (s == "delete_rows")) [
          | inl e4 ↦
              let same : delete_rows ≡ op = ground (arith, rw (op_of, n0, n1, n2, n3, e4) at h) in
              (eq_iff s "delete_rows").0 e4 ∙ ap op_name same
          | inr n4 ↦ elim (Bool-cases (s == "insert_columns")) [
            | inl e5 ↦
                let same : insert_columns ≡ op =
                  ground (arith, rw (op_of, n0, n1, n2, n3, n4, e5) at h) in
                (eq_iff s "insert_columns").0 e5 ∙ ap op_name same
            | inr n5 ↦ elim (Bool-cases (s == "delete_columns")) [
              | inl e6 ↦
                  let same : delete_columns ≡ op =
                    ground (arith, rw (op_of, n0, n1, n2, n3, n4, n5, e6) at h) in
                  (eq_iff s "delete_columns").0 e6 ∙ ap op_name same
              | inr n6 ↦ absurd (ground (arith, rw (op_of, n0, n1, n2, n3, n4, n5, n6) at h))
            ]
          ]
        ]
      ]
    ]
  ]
]

Shaped-op_name :
    (op : Op) (i : ℕ) (item : Fields)
    → All (λ f. has_field f item ≡ true) (required_fields op)
    → check_shape op i item ≡ none
    → Shaped item (op_name op)
unfolding check_shape
Shaped-op_name set_cell i item (cell, (value, _)) h = of_cell cell value
Shaped-op_name set_range i item (range, (values, _)) h =
    of_range range values (is_2d_list-IsTable (get_field "values" item) (ground (arith, h)))
Shaped-op_name add_column i item (header, _) h =
    of_column header (elim (Bool-cases (has_field "values" item)) [
      | inr missing ↦ inl missing
      | inl has ↦ elim (Option-cases (list_value (get_field "values" item))) [
        | inr (values, is) ↦ inr (values, is)
        | inl other ↦ absurd (ground (arith, rw (check_shape, has, other) at h))
      ]
    ])
Shaped-op_name insert_rows i item (has, _) h = of_new_rows (validate_position_sound i item has h)
Shaped-op_name delete_rows i item (has, _) h = of_old_rows (validate_position_sound i item has h)
Shaped-op_name insert_columns i item (has, _) h =
    of_new_columns (validate_position_sound i item has h)
Shaped-op_name delete_columns i item (has, _) h =
    of_old_columns (validate_position_sound i item has h)

op_at_sound :
    (value : Json) (op : Op) → op_at value ≡ some op → text_value value ≡ some (op_name op)
op_at_sound value op h = elim (Option-cases (text_value value)) [
  | inl other ↦ absurd (ground (arith, rw (op_at, other) at h))
  | inr (s, is) ↦ is ∙ ap (λ t. some t) (op_of_sound s op (rw (op_at, is) at h))
]

fields_of-object : (value : Json) (fs : Fields) → fields_of value ≡ some fs → value ≡ object fs
fields_of-object value fs h = ground arith

check_item_sound :
    (i : ℕ) (value : Json) (item : Fields)
    → check_item i value ≡ valid item
    → (value ≡ object item) × IsEdit item
unfolding check_item
check_item_sound i value item h = elim (Option-cases (fields_of value)) [
  | inl other ↦ absurd (ground (arith, rw (check_item, other) at h))
  | inr (fs, is) ↦ elim (Bool-cases (truth (get_field "op" fs))) [
    | inr missing ↦ absurd (ground (arith, rw (check_item, is, missing) at h))
    | inl has ↦ elim (Option-cases (op_at (get_field "op" fs))) [
      | inl unknown ↦ absurd (ground (arith, rw (check_item, is, has, unknown) at h))
      | inr (op, known) ↦ elim (Option-cases (first_missing (required_fields op) fs)) [
        | inr (f, lacks) ↦ absurd (ground (arith, rw (check_item, is, has, known, lacks) at h))
        | inl whole ↦ elim (Option-cases (check_shape op i fs)) [
          | inr (problem, bad) ↦
              absurd (ground (arith, rw (check_item, is, has, known, whole, bad) at h))
          | inl right ↦
              let same : fs ≡ item =
                ground (arith, rw (check_item, is, has, known, whole, right) at h) in
              (
                fields_of-object value item (is ∙ ap (λ f. some f) same),
                rw (← same) (
                  op_name op,
                  op_at_sound (get_field "op" fs) op known,
                  Shaped-op_name op i fs (first_missing_sound (required_fields op) fs whole) right,
                ),
              )
        ]
      ]
    ]
  ]
]

Parsed-cases :
    {A : Type 0} (r : Parsed A) → ((a : A) × (r ≡ valid a)) ⊎ ((e : EditProblem) × (r ≡ invalid e))
Parsed-cases (valid a) = inl (a, refl)
Parsed-cases (invalid e) = inr (e, refl)

check_items_sound :
    (i : ℕ) (values : List Json) (items : List Fields)
    → check_items i values ≡ valid items
    → (values ≡ map object items) × All IsEdit items
unfolding check_items
check_items_sound i [] items h =
    let none_left : items ≡ [] = ground (arith, h) in rw none_left (refl, tt)
check_items_sound i (value ∷ values) items h = elim (Parsed-cases (check_item i value)) [
  | inr (e, bad) ↦ absurd (ground (arith, rw (check_items, bad) at h))
  | inl (item, ok) ↦ elim (Parsed-cases (check_items (suc i) values)) [
    | inr (e, bad) ↦ absurd (ground (arith, rw (check_items, ok, bad) at h))
    | inl (rest, all) ↦
        let same : item ∷ rest ≡ items = ground (arith, rw (check_items, ok, all) at h) in
        let (head, edit) = check_item_sound i value item ok in
        let (tail, edits) = check_items_sound (suc i) values rest all in
        rw (← same) (rw (head, tail), (edit, edits))
  ]
]

-- A text of edits that is accepted is a JSON array of objects, the operations in their order. Each has one
-- of the seven names as its `op`, the fields that this operation requires, and values of the right shape: a
-- list of lists for a range, a list for a column, and integers of at least 1 as position and count.
pub parse_workbook_edits_sound :
    (loads : String → Option Json) (edits_json : String) (items : List Fields)
    → parse_workbook_edits loads edits_json ≡ valid items
    → (content : Json) × (loads edits_json ≡ some content)
      × (list_value content ≡ some (map object items))
      × All IsEdit items
unfolding parse_workbook_edits
parse_workbook_edits_sound loads edits_json items h = elim (Option-cases (loads edits_json)) [
  | inl broken ↦ absurd (ground (arith, rw (parse_workbook_edits, broken) at h))
  | inr (content, read) ↦ elim (Option-cases (list_value content)) [
    | inl other ↦ absurd (ground (arith, rw (parse_workbook_edits, read, other) at h))
    | inr (values, are) ↦
        let (same, edits) =
          check_items_sound 0 values items (rw (parse_workbook_edits, read, are) at h) in
        (content, read, are ∙ ap (λ vs. some vs) same, edits)
  ]
]
