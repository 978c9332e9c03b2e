-- ===== src/Graph/Delta.antt =====
-- mcps/microsoft/ms_graph/mail.py: the delta feed of a mail folder. `encode` is `str.encode`, and
-- `delta_select` the constant DELTA_SELECT.
pub mod Linked
pub mod Laws
use Prim.Native.String
use bond_mcps.Prelude.{
  ℕ, zero, suc, ◌-◌, String, Bool, true, false, not, Option, none, some, List, [], ◌∷◌, ◌++◌, ◌==◌,
  nat_eq, if◌then◌else◌, quote_bytes,
}
use bond_mcps.Db.{Bytes}
use bond_mcps.JsonValue.{Json, Fields, text, get_field, has_field, fields_of, list_value}
use bond_mcps.Graph.{
  Failure, graph_error, type_error, Request, Outcome, done, failed, Service, Client, client_get,
  ◌>>=◌,
}
use bond_mcps.Graph.Pages.{next_link, lift}

-- `_page_values`
unfoldable pub page_values : Json → List Json
page_values page = elim (fields_of page) [
  | none ↦ []
  | some fs ↦ elim (list_value (get_field "value" fs)) [ none ↦ [] | some values ↦ values ]
]

-- `data.get(key, "")`
abbrev pub get_or_empty : String → Fields → Json
get_or_empty key fs = if has_field key fs then get_field key fs else text ""

pub record Drain : Type 0 where
  pub value : List Json
  pub next_cursor : Json
  pub delta_cursor : Json

-- What is returned for the values and the last page
unfoldable pub drain_of : List Json → Json → Outcome Drain
drain_of values page = elim (fields_of page) [
  | none ↦ failed type_error
  | some fs ↦ done (record {
    value = values;
    next_cursor = get_or_empty "@odata.nextLink" fs;
    delta_cursor = get_or_empty "@odata.deltaLink" fs;
  })
]

-- A failure of a later page that ends the drain early: a GraphError but for 410.
abbrev pub keeps_progress : Failure → Bool
keeps_progress e = elim e [
  | graph_error status error_code message ↦ not (nat_eq status 410)
  | _ ↦ false
]

module _ (encode : String → Bytes) (delta_select : String) where
  -- `_delta_path`
  unfoldable pub delta_path : String → String → String
  delta_path folder min_received =
      let path = String.◌++◌ "/me/mailFolders/" (
        String.◌++◌ (quote_bytes none (encode folder)) (
          String.◌++◌ "/messages/delta?$select="
            (quote_bytes (some (b'/', "/")) (encode delta_select)))) in
      if min_received == ""
      then path
      else String.◌++◌ path (
          String.◌++◌ "&$filter=" (
            quote_bytes (some (b'/', "/"))
              (encode (String.◌++◌ "receivedDateTime ge " min_received))))

  -- The URL that `adelta_page` asks for
  unfoldable pub page_path : String → String → String → String
  page_path folder cursor min_received =
      if cursor == "" then delta_path folder min_received else cursor

module _ (reply : Service) where
  -- The loop, with the rounds that `pages < max_pages` leaves, the values and the last page.
  unfoldable pub drain : ℕ → List Json → Json → Client Drain
  drain zero values page log = (drain_of values page, log)
  drain (suc rounds) values page log = elim (next_link page) [
    | failed e ↦ (failed e, log)
    | done none ↦ (drain_of values page, log)
    | done (some link) ↦
        let (r, log') = client_get reply link [] none log in
        elim r [
          | done page' ↦ drain rounds (values ++ page_values page') page' log'
          | failed e ↦ if keeps_progress e then (drain_of values page, log') else (failed e, log')
        ]
  ]

  unfoldable pub adelta_drain :
      (String → Bytes) → String → String → String → String → ℕ → Client Drain
  adelta_drain encode delta_select folder cursor min_received pages =
      client_get reply (page_path encode delta_select folder cursor min_received) [] none
      >>= λ page. drain (pages - 1) (page_values page) page
