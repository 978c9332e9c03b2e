-- ===== src/Tests/Workbook.antt =====
-- The edits of a workbook at concrete inputs.
use bond_mcps.Prelude.{
  ℕ, String, ◌≡◌, refl, Option, none, some, true, false, [], ◌∷◌, List, ◌⊎◌, map, All,
}
use bond_mcps.Prelude.Int.{pos}
use bond_mcps.JsonValue.{
  Json, object, text, number, array, nil, cons, Fields, field, end, get_field, has_field, elements,
  list_value,
}
use bond_mcps.Graph.{IsNoGraphError, graph_error, Failure, done, failed, Service}
use bond_mcps.Graph.Workbook.{acreate_session, create_request}
use bond_mcps.Graph.Workbook.Columns.{col_to_index, index_to_col, col_to_index-index_to_col}
use bond_mcps.Graph.Workbook.Edits.{
  valid, parse_workbook_edits, check_items, check_item, check_shape, validate_position,
  first_missing, op_of,
}
use bond_mcps.Graph.Workbook.Valid.{IsEdit, parse_workbook_edits_sound}
use bond_mcps.Graph.Workbook.Apply.{apply_workbook_edits, row_address}
use bond_mcps.Graph.Workbook.SessionId.{IsSessionOf}
use bond_mcps.Graph.Workbook.Session.{Closes, apply_workbook_edits-Closes}

col_to_index-index_to_col_example : col_to_index (index_to_col 703) ≡ 703
col_to_index-index_to_col_example = col_to_index-index_to_col 703

abbrev insertion : Fields
insertion =
    field "op" (text "insert_rows")
      (field "at" (number (pos 3)) (field "count" (number (pos 2)) end))

abbrev loads : String → Option Json
loads edits_json = some (array (cons (object insertion) nil))

accepted : parse_workbook_edits loads "[...]" ≡ valid (insertion ∷ [])
unfolding parse_workbook_edits check_items check_item check_shape validate_position first_missing
    op_of get_field has_field elements
accepted = refl

parse_workbook_edits_sound_example :
    (content : Json) × (loads "[...]" ≡ some content)
    × (list_value content ≡ some (map object (insertion ∷ [])))
    × All IsEdit (insertion ∷ [])
parse_workbook_edits_sound_example =
    parse_workbook_edits_sound loads "[...]" (insertion ∷ []) accepted

row_address_test : row_address insertion ≡ "3:4"
unfolding row_address get_field has_field bond_mcps.Prelude.show
row_address_test = refl

-- A workbook of one worksheet
abbrev workbook : Service
workbook [] r = done (object (field "id" (text "s-1") end))
workbook (q ∷ log) r =
    done (object (field "value" (array (cons (object (field "name" (text "Sheet1") end)) nil)) end))

apply_workbook_edits-Closes_example :
    ((e : Failure) × IsNoGraphError e
      × ((acreate_session "/me/drive" "i" workbook []).0 ≡ failed e)
      × (apply_workbook_edits "/me/drive" "i" workbook (insertion ∷ []) []
          ≡ (failed e, create_request "/me/drive" "i" ∷ [])))
    ⊎ (((session : Option String) × (result : Json) × (workbook [] (create_request "/me/drive" "i")
            ≡ done result)
          × IsSessionOf result session
          × Closes workbook "/me/drive" "i" []
              (insertion ∷ [])
              session
              (apply_workbook_edits "/me/drive" "i" workbook (insertion ∷ []) []))
        ⊎ ((status : ℕ) × (error_code : String) × (message : String) × (workbook []
                (create_request "/me/drive" "i")
              ≡ failed (graph_error status error_code message))
            × Closes workbook "/me/drive" "i" []
                (insertion ∷ [])
                none
                (apply_workbook_edits "/me/drive" "i" workbook (insertion ∷ []) [])))
apply_workbook_edits-Closes_example =
    apply_workbook_edits-Closes workbook "/me/drive" "i" [] insertion []
