-- ===== src/Graph/Workbook.antt =====
-- mcps/microsoft/ms_graph/workbook.py: the requests of the Excel workbook API.
pub mod Columns
pub mod Edits
pub mod Used
pub mod Valid
pub mod Apply
pub mod Laws
pub mod SessionId
pub mod Session
use Prim.Native.Char.{code}
use Prim.Native.String
use bond_mcps.Prelude.{
  String, true, false, Bool, Option, none, some, List, [], ◌∷◌, nat_eq, if◌then◌else◌, present,
}
use bond_mcps.JsonValue.{
  Json, null, boolean, text, array, object, Fields, end, field, items_of, get_field, has_field,
  fields_of, list_value, truth, text_value,
}
use bond_mcps.Graph.{
  Failure, type_error, Request, post, patch, Outcome, done, failed, Service, Client, ◌>>=◌, send,
  client_get,
}

unfoldable pub workbook_base : String → String → String
workbook_base base item_id =
    String.◌++◌ base (String.◌++◌ "/items/" (String.◌++◌ item_id "/workbook"))

-- `name.replace("'", "''")`
unfoldable pub escape_sheet : String → String
escape_sheet String.[] = String.[]
escape_sheet (String.◌∷◌ c s) =
    if nat_eq (code c) 39
    then String.◌∷◌ c (String.◌∷◌ c (escape_sheet s))
    else String.◌∷◌ c (escape_sheet s)

abbrev pub lift : {A : Type 0} → Outcome A → Client A
lift r log = (r, log)

-- The session's id in an answer: None for an empty one.
unfoldable pub session_id_of : Json → Outcome (Option String)
session_id_of result =
    if truth result
    then elim (fields_of result) [
      | none ↦ failed type_error
      | some fs ↦ done (present (text_value (get_field "id" fs)))
    ]
    else done none

-- `result.get("value", [])`
unfoldable pub value_of : Json → Outcome (List Json)
value_of body = elim (fields_of body) [
  | none ↦ failed type_error
  | some fs ↦
      if has_field "value" fs
      then elim (list_value (get_field "value" fs)) [
        | none ↦ failed type_error
        | some items ↦ done items
      ]
      else done []
]

module _ (base item_id : String) where
  unfoldable pub create_request : Request
  create_request =
      post (String.◌++◌ (workbook_base base item_id) "/createSession")
        (some (object (field "persistChanges" (boolean true) end))) none

  unfoldable pub close_request : String → Request
  close_request session_id =
      post (String.◌++◌ (workbook_base base item_id) "/closeSession") none (some session_id)

  -- `/worksheets('...')` and what is behind it
  unfoldable pub sheet_path : String → String → String
  sheet_path sheet rest =
      String.◌++◌ (workbook_base base item_id)
        (String.◌++◌ "/worksheets('" (String.◌++◌ (escape_sheet sheet) (String.◌++◌ "')" rest)))

  unfoldable pub range_path : String → String → String → String
  range_path sheet address rest =
      sheet_path sheet
        (String.◌++◌ "/range(address='" (String.◌++◌ address (String.◌++◌ "')" rest)))

  module _ (reply : Service) where
    unfoldable pub acreate_session : Client (Option String)
    acreate_session = send reply create_request >>= λ result. lift (session_id_of result)

    module _ (session : Option String) where
      unfoldable pub alist_worksheets : Client (List Json)
      alist_worksheets =
          client_get reply (String.◌++◌ (workbook_base base item_id) "/worksheets") [] session
          >>= λ result. lift (value_of result)

      unfoldable pub aget_used_range : String → Client Json
      aget_used_range sheet =
          client_get reply (sheet_path sheet "/usedRange")
            (("$select", "address,rowCount,columnCount,values") ∷ []) session

      unfoldable pub aset_range : String → String → Json → Client Json
      aset_range sheet address values =
          send reply
            (patch (range_path sheet address "") (object (field "values" values end)) session)

      unfoldable pub ainsert_range : String → String → String → Client Json
      ainsert_range sheet address shift = send reply (
          post (range_path sheet address "/insert") (some (object (field "shift" (text shift) end)))
            session)

      unfoldable pub adelete_range : String → String → String → Client Json
      adelete_range sheet address shift = send reply (
          post (range_path sheet address "/delete") (some (object (field "shift" (text shift) end)))
            session)
