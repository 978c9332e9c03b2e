-- ===== src/Graph/Upload.antt =====
-- The upload sessions of mcps/microsoft/ms_graph/files.py, which send a file in fragments, and the simple
-- upload of a small file. `encode` is `str.encode`.
pub mod Laws
use Prim.Native.String
use bond_mcps.Prelude.{
  ℕ, zero, suc, ◌+◌, String, Bool, true, false, Option, none, some, List, [], ◌∷◌, ◌==◌, ltb, leb,
  if◌then◌else◌, length, take, drop, present, rstrip_slash, lstrip_slash, quote_bytes, or_text,
}
use bond_mcps.Db.{Bytes}
use bond_mcps.JsonValue.{
  Json, null, text, object, field, end, get_field, fields_of, is_null, text_value,
}
use bond_mcps.Graph.{
  Failure, graph_error, value_error, stuck, Request, post, put, put_range, delete_url, Outcome,
  done, failed, Service, Client, answer, fail, ◌>>=◌, send, on_failure,
}

abbrev pub max_simple_upload_bytes : ℕ
max_simple_upload_bytes = 4000000

abbrev pub upload_chunk_bytes : ℕ
upload_chunk_bytes = 3932160

-- Where a file goes.
pub record Target : Type 0 where
  pub folder_path : String
  pub filename : String
  pub site_id : String
  pub drive_id : String
  pub parent_id : String
  pub conflict_behavior : String

unfoldable pub drive_base : String → String → String
drive_base site_id drive_id =
    if drive_id == ""
    then if site_id == "" then "/me/drive" else String.◌++◌ "/sites/" (String.◌++◌ site_id "/drive")
    else String.◌++◌ "/drives/" drive_id

module _ (encode : String → Bytes) where
  -- `_path_segments`
  unfoldable pub path_segments : String → String → String × String
  path_segments folder_path filename = (
    quote_bytes (some (b'/', "/")) (encode (rstrip_slash (lstrip_slash folder_path))),
    quote_bytes none (encode filename),
  )

  -- The place of the file, up to the colon.
  unfoldable pub item_path : Target → String
  unfolding drive_base path_segments
  item_path target =
      let base = drive_base target.site_id target.drive_id in
      let (path, name) = path_segments target.folder_path target.filename in
      if target.parent_id == ""
      then if path == ""
        then String.◌++◌ base (String.◌++◌ "/root:/" name)
        else String.◌++◌ base (String.◌++◌ "/root:/" (String.◌++◌ path (String.◌++◌ "/" name)))
      else String.◌++◌ base
          (String.◌++◌ "/items/" (String.◌++◌ target.parent_id (String.◌++◌ ":/" name)))

  unfoldable pub upload_session_path : Target → String
  unfolding item_path
  upload_session_path target = String.◌++◌ (item_path target) ":/createUploadSession"

  unfoldable pub simple_upload_path : Target → String
  unfolding item_path
  simple_upload_path target =
      let url = String.◌++◌ (item_path target) ":/content" in
      if target.conflict_behavior == "replace"
      then url
      else String.◌++◌ url
          (String.◌++◌ "?@microsoft.graph.conflictBehavior=" target.conflict_behavior)

abbrev pub upload_session_body : Target → Json
upload_session_body target = object (
    field "item"
      (object (
        field "@microsoft.graph.conflictBehavior" (text target.conflict_behavior)
          (field "name" (text target.filename) end)))
      end)

-- `_upload_url_from_session`, of a session that is an object or empty
unfoldable pub upload_url_from_session : Json → Outcome String
upload_url_from_session session = elim (fields_of session) [
  | none ↦ failed (graph_error 500 "NoUploadUrl" "createUploadSession did not return an uploadUrl")
  | some fs ↦ elim (present (text_value (get_field "uploadUrl" fs))) [
    | none ↦
        failed (graph_error 500 "NoUploadUrl" "createUploadSession did not return an uploadUrl")
    | some url ↦ done url
  ]
]

-- `_final_item`, of the body of the last answer: one that is no object is None.
unfoldable pub final_item : Json → Outcome Json
final_item body = elim (fields_of body) [
  | none ↦
      failed (
        graph_error 500 "NoDriveItem"
          "Upload session completed without returning the uploaded item")
  | some fs ↦ done body
]

abbrev pub lift : {A : Type 0} → Outcome A → Client A
lift r log = (r, log)

module _ (reply : Service) where
  -- `while start < total`, with the answer to the fragment before; a round needs fuel.
  unfoldable pub put_ranges : ℕ → String → ℕ → Bytes → ℕ → Json → Client Json
  put_ranges zero url chunk content start last =
      if ltb start (length content) then fail stuck else answer last
  put_ranges (suc fuel) url chunk content start last = λ log.
      let fragment = take chunk (drop start content) in
      let (r, log') = send reply (put_range url fragment start (length content)) log in
      if ltb start (length content)
      then elim r [
        | done body ↦ put_ranges fuel url chunk content (start + length fragment) body log'
        | failed e ↦ (failed e, log')
      ]
      else (done last, log)

  -- The session is cancelled as far as that succeeds.
  abbrev pub cancel_session : String → Client (Unit {0})
  cancel_session url log = (done tt, delete_url url ∷ log)

  unfoldable pub send_fragments : String → Bytes → Client Json
  unfolding put_ranges
  send_fragments url content =
      on_failure (put_ranges (length content) url upload_chunk_bytes content 0 null)
        (cancel_session url)

  module _ (encode : String → Bytes) where
    unfoldable pub upload_bytes_session : Target → Bytes → Client Json
    unfolding upload_session_path upload_url_from_session send_fragments final_item
    upload_bytes_session target [] =
        fail (value_error "Cannot upload empty content through an upload session.")
    upload_bytes_session target (b ∷ content) = do
      session ←
          send reply
            (post (upload_session_path encode target) (some (upload_session_body target)) none)
      url ← lift (upload_url_from_session session)
      body ← send_fragments url (b ∷ content)
      lift (final_item body)

    unfoldable pub upload_any : Target → Bytes → Client Json
    unfolding simple_upload_path upload_bytes_session
    upload_any target content =
        if leb (length content) max_simple_upload_bytes
        then send reply (put (simple_upload_path encode target) content)
        else upload_bytes_session target content
