-- ===== src/Graph/Workbook/Laws.antt =====
-- The session of a workbook's edits, and the operations that were applied.
use bond_mcps.Prelude.{
  ℕ, suc, ◌+◌, ◌<◌, ◌≤◌, ◌⊎◌, inl, inr, refl, arith, length, Option-cases, map, String, Option,
  none, List, [], ◌∷◌, ◌≡◌, Bool-cases,
}
use Prim.Native.String
use bond_mcps.JsonValue.{array, cons, nil, Fields, get_field}
use bond_mcps.Graph.{
  edit_error, failed, Outcome-cases, done, Request, get, post, patch, put, put_range, delete,
  delete_url, Service, Client, client_get, is_graph_path, ◌>>=◌,
}
use bond_mcps.Graph.Workbook.{
  workbook_base, alist_worksheets, aget_used_range, aset_range, ainsert_range, adelete_range, lift,
  value_of,
}
use bond_mcps.Graph.Workbook.Edits.{
  Op, set_cell, set_range, add_column, insert_rows, delete_rows, insert_columns, delete_columns,
  op_at,
}
use bond_mcps.Graph.Workbook.Apply.{
  sheet_of, dispatch, run_operations, op_type, apply_add_column, dispatch_op, names_of, in_session,
  text_of, used_of, write_column, with_sheets, one_cell,
}

-- The session that a request names
abbrev pub session_of : Request → Option String
session_of (get path params session) = session
session_of (post path body session) = session
session_of (patch path body session) = session
session_of (put path content) = none
session_of (put_range url bytes start total) = none
session_of (delete path) = none
session_of (delete_url url) = none

-- Each request behind `base` names the session.
pub data Within (session : Option String) (base : List Request) : List Request → Type 0 where
  nothing : Within session base base
  request :
      {log : List Request} {r : Request}
      → Within session base log
      → session_of r ≡ session
      → Within session base (r ∷ log)

module _ (session : Option String) (base : List Request) where
  -- Every request that is sent names the session.
  abbrev pub Keeps : {A : Type 0} → Client A → Type 0
  Keeps m = (log : List Request) → Within session base log → Within session base (m log).1

  Keeps-bind :
      {A B : Type 0} (m : Client A) (f : A → Client B)
      → Keeps m
      → ((a : A) → Keeps (f a))
      → Keeps (m >>= f)
  Keeps-bind m f km kf log t = elim (Outcome-cases (m log).0) [
    | inl (a, is) ↦ rw (◌>>=◌, is) (kf a (m log).1 (km log t))
    | inr (e, is) ↦ rw (◌>>=◌, is) (km log t)
  ]

  module _ (reply : Service) where
    Keeps-get :
        (path : String) (params : List (String × String))
        → Keeps (client_get reply path params session)
    unfolding client_get
    Keeps-get path params log t = elim (Bool-cases (is_graph_path path)) [
      | inl g ↦ rw (client_get, g) (request t refl)
      | inr g ↦ rw (client_get, g) t
    ]

    module _ (drive item_id : String) where
      Keeps-add_column :
          (sheet : String) (op : Fields)
          → Keeps (apply_add_column drive item_id reply session sheet op)
      unfolding apply_add_column aget_used_range aset_range write_column
      Keeps-add_column sheet op =
          let write = write_column drive item_id reply session sheet op in
          Keeps-bind (aget_used_range drive item_id reply session sheet)
            (λ used. lift (used_of used) >>= write) (Keeps-get _ _)
            (λ used.
              Keeps-bind (lift (used_of used)) write (λ log t. t) (λ parsed log t. request t refl))

      Keeps-dispatch_op :
          (kind : Op) (sheet : String) (op : Fields)
          → Keeps (dispatch_op drive item_id reply session kind sheet op)
      unfolding dispatch_op aset_range ainsert_range adelete_range
      Keeps-dispatch_op set_cell sheet op =
          Keeps-bind (lift (text_of "cell" op))
            (λ cell.
              aset_range drive item_id reply session sheet cell
                (array (cons (one_cell (get_field "value" op)) nil)))
            (λ log t. t) (λ cell log t. request t refl)
      Keeps-dispatch_op set_range sheet op =
          Keeps-bind (lift (text_of "range" op))
            (λ range. aset_range drive item_id reply session sheet range (get_field "values" op))
            (λ log t. t) (λ range log t. request t refl)
      Keeps-dispatch_op add_column sheet op = Keeps-add_column sheet op
      Keeps-dispatch_op insert_rows sheet op = λ log t. request t refl
      Keeps-dispatch_op delete_rows sheet op = λ log t. request t refl
      Keeps-dispatch_op insert_columns sheet op = λ log t. request t refl
      Keeps-dispatch_op delete_columns sheet op = λ log t. request t refl

      Keeps-dispatch :
          (sheet : String) (op : Fields) → Keeps (dispatch drive item_id reply session sheet op)
      unfolding dispatch
      Keeps-dispatch sheet op log t = elim (Option-cases (op_at (get_field "op" op))) [
        | inl unknown ↦ rw (dispatch, unknown) t
        | inr (kind, is) ↦ rw (dispatch, is) (Keeps-dispatch_op kind sheet op log t)
      ]

      Keeps-run_operations :
          (sheet_names : List String) (default_sheet : String) (i : ℕ) (ops : List Fields)
          → Keeps (run_operations drive item_id reply session sheet_names default_sheet i ops)
      unfolding run_operations
      Keeps-run_operations sheet_names default_sheet i [] log t = t
      Keeps-run_operations sheet_names default_sheet i (op ∷ ops) log t =
          let m = dispatch drive item_id reply session in
          elim (Option-cases (sheet_of sheet_names default_sheet op)) [
            | inl unknown ↦ rw (run_operations, unknown) t
            | inr (sheet, is) ↦
                let one = Keeps-dispatch sheet op log t in
                elim (Outcome-cases (m sheet op log).0) [
                  | inr (e, refused) ↦ rw (run_operations, is, refused) one
                  | inl (body, ok) ↦
                      let log' = (m sheet op log).1 in
                      let more =
                        Keeps-run_operations sheet_names default_sheet (suc i) ops log' one in
                      elim (Outcome-cases
                        (run_operations drive item_id reply session sheet_names default_sheet
                          (suc i) ops log').0) [
                            | inr (e, refused) ↦ rw (run_operations, is, ok, refused) more
                            | inl (summary, done_) ↦ rw (run_operations, is, ok, done_) more
                          ]
                ]
          ]

      Keeps-with_sheets :
          (ops : List Fields) (sheet_names : List String)
          → Keeps (with_sheets drive item_id reply session ops sheet_names)
      Keeps-with_sheets ops [] log t = t
      Keeps-with_sheets ops (default_sheet ∷ more) log t =
          Keeps-run_operations (default_sheet ∷ more) default_sheet 0 ops log t

      pub Keeps-in_session :
          (ops : List Fields) → Keeps (in_session drive item_id reply session ops)
      unfolding in_session alist_worksheets
      Keeps-in_session ops =
          let work = with_sheets drive item_id reply session ops in
          let list = alist_worksheets drive item_id reply session in
          Keeps-bind list (λ sheets. lift (names_of sheets) >>= work)
            (Keeps-bind
              (client_get reply (String.◌++◌ (workbook_base drive item_id) "/worksheets") []
                session)
              (λ result. lift (value_of result)) (Keeps-get _ _) (λ result log t. t))
            (λ sheets.
              Keeps-bind (lift (names_of sheets)) work (λ log t. t) (Keeps-with_sheets ops))

module _ (reply : Service) (drive item_id : String) (session : Option String) where
  -- How the loop ends: every operation was applied, or the error names one of them.
  pub operations_end :
      (sheet_names : List String) (default_sheet : String) (i : ℕ) (ops : List Fields)
      (log : List Request)
      → ((run_operations drive item_id reply session sheet_names default_sheet i ops log).0
          ≡ done (map op_type ops))
        ⊎ ((k : ℕ) × (kind : String) × ((run_operations drive item_id reply session sheet_names
                default_sheet i ops log).0
              ≡ failed (edit_error k kind))
            × (i ≤ k)
            × (k < i + length ops))
  unfolding run_operations
  operations_end sheet_names default_sheet i [] log = inl refl
  operations_end sheet_names default_sheet i (op ∷ ops) log =
      elim (Option-cases (sheet_of sheet_names default_sheet op)) [
        | inl unknown ↦ inr (i, op_type op, rw (run_operations, unknown), omega arith, omega arith)
        | inr (sheet, is) ↦
            elim (Outcome-cases (dispatch drive item_id reply session sheet op log).0) [
              | inr (e, refused) ↦
                  inr (i, op_type op, rw (run_operations, is, refused), omega arith, omega arith)
              | inl (body, ok) ↦
                  let log' = (dispatch drive item_id reply session sheet op log).1 in
                  elim (operations_end sheet_names default_sheet (suc i) ops log') [
                    | inl all ↦ inl (rw (run_operations, is, ok, all))
                    | inr (k, kind, bad, from, below) ↦
                        inr (k, kind, rw (run_operations, is, ok, bad), omega arith, omega arith)
                  ]
            ]
      ]
