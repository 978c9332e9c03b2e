-- ===== src/Graph/Workbook/Apply.antt =====
-- mcps/microsoft/ms_graph/workbook_edit.py: the operations on a workbook, in one session. The operations
-- were validated; a `cell` or a `range` that is no text is left out.
use Prim.Native.String
use bond_mcps.Prelude.{
  ℕ, suc, ◌+◌, ◌-◌, String, true, false, Option, none, some, List, [], ◌∷◌, if◌then◌else◌, contains,
  show, length, map,
}
use bond_mcps.Prelude.Int.{pos_part}
use bond_mcps.JsonValue.{
  Json, null, array, object, boolean, float, number, text, nil, cons, Fields, get_field, has_field,
  fields_of, items_of, list_value, truth, text_value, int_value,
}
use bond_mcps.Graph.{
  type_error, graph_error, edit_error, Request, Outcome, done, failed, Service, Client, answer,
  fail, ◌>>=◌,
}
use bond_mcps.Graph.Workbook.{
  acreate_session, alist_worksheets, aget_used_range, aset_range, ainsert_range, adelete_range,
  close_request, lift,
}
use bond_mcps.Graph.Workbook.Columns.{index_to_col}
use bond_mcps.Graph.Workbook.Edits.{
  Op, set_cell, set_range, add_column, insert_rows, delete_rows, insert_columns, delete_columns,
  op_at,
}
use bond_mcps.Graph.Workbook.Used.{UsedRange, parse_used_range}

-- `f"{value}"` of a value that is an int: a bool shows as its name.
abbrev pub show_int : Json → String
show_int (boolean true) = "True"
show_int (boolean false) = "False"
show_int (number n) = show (pos_part n)
show_int null = ""
show_int (float z s) = ""
show_int (text s) = ""
show_int (array xs) = ""
show_int (object fs) = ""

-- A position that was validated
abbrev pub int_of_field : String → Fields → ℕ
int_of_field key op = elim (int_value (get_field key op)) [ none ↦ 1 | some n ↦ pos_part n ]

-- `op.get("count", 1)`
abbrev pub count_of : Fields → ℕ
count_of op = if has_field "count" op then int_of_field "count" op else 1

abbrev pub text_of : String → Fields → Outcome String
text_of key op = elim (text_value (get_field key op)) [ none ↦ failed type_error | some s ↦ done s ]

-- `f"{at}:{at + count - 1}"`
unfoldable pub row_address : Fields → String
row_address op =
    String.◌++◌ (show_int (get_field "at" op))
      (String.◌++◌ ":" (show (int_of_field "at" op + count_of op - 1)))

unfoldable pub column_address : Fields → String
column_address op =
    String.◌++◌ (index_to_col (int_of_field "at" op))
      (String.◌++◌ ":" (index_to_col (int_of_field "at" op + count_of op - 1)))

-- A row of one cell
abbrev pub one_cell : Json → Json
one_cell value = array (cons value nil)

-- Where `_apply_add_column` writes: the column, and the row of the header.
abbrev pub new_column : UsedRange → ℕ × ℕ
new_column used = if used.is_empty then (1, 1) else (used.end_col + 1, used.start_row)

-- The values that `add_column` puts under the header
abbrev pub values_of : Fields → List Json
values_of op =
    if has_field "values" op
    then elim (list_value (get_field "values" op)) [ none ↦ [] | some values ↦ values ]
    else []

-- The header and the values, one under the other
abbrev pub column_values : Fields → List Json
column_values op = one_cell (get_field "header" op) ∷ map one_cell (values_of op)

unfoldable pub column_range : ℕ → ℕ → ℕ → String
column_range column header_row size =
    let col = index_to_col column in
    String.◌++◌ col (
      String.◌++◌ (show header_row)
        (String.◌++◌ ":" (String.◌++◌ col (show (header_row + size - 1)))))

-- The worksheet of an operation; `none` is one that the workbook has not.
unfoldable pub sheet_of : List String → String → Fields → Option String
sheet_of sheet_names default_sheet op =
    if truth (get_field "sheet" op)
    then elim (text_value (get_field "sheet" op)) [
      | none ↦ none
      | some s ↦ if contains sheet_names s then some s else none
    ]
    else some default_sheet

abbrev pub op_type : Fields → String
op_type op = elim (text_value (get_field "op" op)) [ none ↦ "" | some s ↦ s ]

-- `[ws.get("name", "") for ws in worksheets]`
unfoldable pub names_of : List Json → Outcome (List String)
names_of [] = done []
names_of (sheet ∷ sheets) = elim (fields_of sheet) [
  | none ↦ failed type_error
  | some fs ↦ elim (names_of sheets) [
    | failed e ↦ failed e
    | done names ↦
        if has_field "name" fs
        then elim (text_value (get_field "name" fs)) [
          | none ↦ failed type_error
          | some s ↦ done (s ∷ names)
        ]
        else done ("" ∷ names)
  ]
]

unfoldable pub used_of : Json → Outcome UsedRange
used_of used = elim (fields_of used) [ none ↦ failed type_error | some fs ↦ parse_used_range fs ]

module _ (base item_id : String) (reply : Service) where
  module _ (session : Option String) where
    unfoldable pub write_column : String → Fields → UsedRange → Client Json
    write_column sheet op parsed =
        aset_range base item_id reply session sheet
          (column_range (new_column parsed).0 (new_column parsed).1 (length (column_values op)))
          (array (items_of (column_values op)))

    unfoldable pub apply_add_column : String → Fields → Client Json
    apply_add_column sheet op = aget_used_range base item_id reply session sheet >>= λ used.
        lift (used_of used) >>= λ parsed. write_column sheet op parsed

    unfoldable pub dispatch_op : Op → String → Fields → Client Json
    dispatch_op set_cell sheet op = lift (text_of "cell" op) >>= λ cell.
        aset_range base item_id reply session sheet cell
          (array (cons (one_cell (get_field "value" op)) nil))
    dispatch_op set_range sheet op = lift (text_of "range" op) >>= λ range.
        aset_range base item_id reply session sheet range (get_field "values" op)
    dispatch_op add_column sheet op = apply_add_column sheet op
    dispatch_op insert_rows sheet op =
        ainsert_range base item_id reply session sheet (row_address op) "Down"
    dispatch_op delete_rows sheet op =
        adelete_range base item_id reply session sheet (row_address op) "Up"
    dispatch_op insert_columns sheet op =
        ainsert_range base item_id reply session sheet (column_address op) "Right"
    dispatch_op delete_columns sheet op =
        adelete_range base item_id reply session sheet (column_address op) "Left"

    -- `_dispatch`
    unfoldable pub dispatch : String → Fields → Client Json
    dispatch sheet op = elim (op_at (get_field "op" op)) [
      | none ↦ answer null
      | some kind ↦ dispatch_op kind sheet op
    ]

    -- The loop over the operations: the types of those that were applied, or the EditError of the first
    -- that was not.
    unfoldable pub run_operations : List String → String → ℕ → List Fields → Client (List String)
    run_operations sheet_names default_sheet i [] log = (done [], log)
    run_operations sheet_names default_sheet i (op ∷ ops) log =
        elim (sheet_of sheet_names default_sheet op) [
          | none ↦ (failed (edit_error i (op_type op)), log)
          | some sheet ↦
              let (r, log') = dispatch sheet op log in
              elim r [
                | failed e ↦ (failed (edit_error i (op_type op)), log')
                | done body ↦
                    let (rest, log'') = run_operations sheet_names default_sheet (suc i) ops log' in
                    elim rest [
                      | failed e ↦ (failed e, log'')
                      | done summary ↦ (done (op_type op ∷ summary), log'')
                    ]
              ]
        ]

    abbrev pub with_sheets : List Fields → List String → Client (List String)
    with_sheets ops [] = fail (edit_error 0 (elim ops [ [] ↦ "" | op ∷ more ↦ op_type op ]))
    with_sheets ops (default_sheet ∷ more) =
        run_operations (default_sheet ∷ more) default_sheet 0 ops

    -- What is done in the session
    unfoldable pub in_session : List Fields → Client (List String)
    in_session ops = alist_worksheets base item_id reply session >>= λ worksheets.
        lift (names_of worksheets) >>= λ sheet_names. with_sheets ops sheet_names

  -- `finally`: a session that was opened is closed, as far as that succeeds.
  abbrev pub close : Option String → List Request → List Request
  close none log = log
  close (some session_id) log = close_request base item_id session_id ∷ log

  abbrev pub in_closed_session : Option String → List Fields → Client (List String)
  in_closed_session session ops log =
      let (r, log') = in_session session ops log in (r, close session log')

  -- `apply_workbook_edits`: the types of the operations; a GraphError of the session's creation leaves
  -- the requests without a session.
  unfoldable pub apply_workbook_edits : List Fields → Client (List String)
  apply_workbook_edits [] log = (done [], log)
  apply_workbook_edits (op ∷ ops) log =
      let (r, log') = acreate_session base item_id reply log in
      elim r [
        | done session ↦ in_closed_session session (op ∷ ops) log'
        | failed (graph_error status error_code message) ↦ in_closed_session none (op ∷ ops) log'
        | failed e ↦ (failed e, log')
      ]
