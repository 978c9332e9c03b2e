-- ===== src/Graph/Workbook/Used.antt =====
-- The used range of a worksheet, of mcps/microsoft/ms_graph/workbook_edit.py, for addresses in ASCII.
use Prim.Native.Char.{code}
use bond_mcps.Prelude.{
  ℕ, String, Bool, true, false, ◌&&◌, ◌||◌, Option, none, some, List, [], ◌∷◌, ◌==◌, leb, nat_eq,
  if◌then◌else◌, ◌*◌, ◌+◌, ◌-◌, partition, ◌≡◌, refl,
}
use bond_mcps.JsonValue.{Json, Fields, get_field, has_field, list_value, truth, text_value, is_null}
use bond_mcps.Graph.{type_error, Outcome, done, failed}
use bond_mcps.Graph.Workbook.Columns.{col_to_index}

-- The letters at the front of a text, and what is behind them.
span : (ℕ → Bool) → String → String × String
span p String.[] = (String.[], String.[])
span p (String.◌∷◌ c s) =
    let rest = span p s in
    if p (code c) then (String.◌∷◌ c rest.0, rest.1) else (String.[], String.◌∷◌ c s)

abbrev is_letter : ℕ → Bool
is_letter c = (leb 65 c && leb c 90) || (leb 97 c && leb c 122)

abbrev is_digit : ℕ → Bool
is_digit c = leb 48 c && leb c 57

-- `int(text)` of digits
number_from : ℕ → String → ℕ
number_from n String.[] = n
number_from n (String.◌∷◌ c s) = number_from (n * 10 + (code c - 48)) s

-- A cell's column and row, and what is behind it
cell_at : String → Option (ℕ × ℕ × String)
unfolding span number_from
cell_at s =
    let (letters, behind) = span is_letter s in
    let (digits, rest) = span is_digit behind in
    if letters == "" || digits == ""
    then none
    else some (col_to_index letters, number_from 0 digits, rest)

-- `_ADDR_RE`: a cell, and behind a colon a second one; or the cell twice.
unfoldable pub match_address : String → Option (ℕ × ℕ × ℕ × ℕ)
unfolding cell_at
match_address address = elim (cell_at address) [
  | none ↦ none
  | some start ↦
      let (col, row, rest) = start in
      elim rest [
        | String.[] ↦ some (col, row, col, row)
        | String.◌∷◌ c behind ↦
            if nat_eq (code c) b':'
            then elim (cell_at behind) [
              | none ↦ none
              | some stop ↦
                  let (end_col, end_row, more) = stop in
                  if more == "" then some (col, row, end_col, end_row) else none
            ]
            else none
      ]
]

pub record UsedRange : Type 0 where
  pub is_empty : Bool
  pub end_col : ℕ
  pub start_row : ℕ

-- `cell in (None, "")` of every cell; a row that is no list is an error.
unfoldable pub all_blank : List Json → Bool
all_blank [] = true
all_blank (cell ∷ cells) =
    (is_null cell || elim (text_value cell) [ none ↦ false | some s ↦ s == "" ]) && all_blank cells

unfoldable pub rows_blank : List Json → Outcome Bool
rows_blank [] = done true
rows_blank (row ∷ rows) = elim (list_value row) [
  | none ↦ failed type_error
  | some cells ↦ if all_blank cells then rows_blank rows else done false
]

-- `used.get("values") or [[None]]`, all of it blank
unfoldable pub values_blank : Json → Outcome Bool
values_blank value =
    if truth value
    then elim (list_value value) [ none ↦ failed type_error | some rows ↦ rows_blank rows ]
    else done true

unfoldable pub address_of : Fields → Outcome String
address_of used =
    if has_field "address" used
    then elim (text_value (get_field "address" used)) [ none ↦ failed type_error | some s ↦ done s ]
    else done ""

-- The address without the sheet: what is behind the first `!`.
abbrev pub without_sheet : String → String
without_sheet address = elim (partition b'!' address).1 [ none ↦ address | some rest ↦ rest ]

-- `_parse_used_range`
unfoldable pub parse_used_range : Fields → Outcome UsedRange
parse_used_range used = elim (address_of used) [
  | failed e ↦ failed e
  | done address ↦ elim (match_address (without_sheet address)) [
    | none ↦ done (record { is_empty = true; end_col = 1; start_row = 1 })
    | some place ↦
        let (start_col, start_row, end_col, end_row) = place in
        if nat_eq start_col end_col && nat_eq start_row end_row
        then elim (values_blank (get_field "values" used)) [
          | failed e ↦ failed e
          | done blank ↦
              done (record { is_empty = blank; end_col = end_col; start_row = start_row })
        ]
        else done (record { is_empty = false; end_col = end_col; start_row = start_row })
  ]
]

range_test : match_address "B5:D10" ≡ some (2, 5, 4, 10)
unfolding match_address col_to_index
range_test = refl
