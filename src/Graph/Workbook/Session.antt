-- ===== src/Graph/Workbook/Session.antt =====
-- The whole of `apply_workbook_edits`: its session, its requests and how it ends.
use Prim.Native.String
use bond_mcps.Prelude.{
  some, ap, ◌∙◌, arith, ℕ, String, Option, none, List, [], ◌∷◌, map, ◌≡◌, refl, ◌⊎◌, inl, inr,
}
use bond_mcps.JsonValue.{Json, text_value, get_field, Fields}
use bond_mcps.Graph.{
  post, IsNoGraphError, of_url, of_value, of_http, of_type, of_edit, of_rounds, Failure,
  graph_error, non_graph_url, value_error, http_error, type_error, edit_error, stuck, Request,
  Outcome, done, failed, Service, Outcome-cases, ◌>>=◌,
}
use bond_mcps.Graph.Workbook.{
  workbook_base, close_request, session_id_of, acreate_session, alist_worksheets, create_request,
}
use bond_mcps.Graph.Workbook.Apply.{
  names_of, with_sheets, in_session, close, in_closed_session, apply_workbook_edits,
}
use bond_mcps.Graph.Workbook.Laws.{Within, nothing, Keeps-in_session, operations_end}
use bond_mcps.Graph.Workbook.SessionId.{IsSessionOf, session_id_of-IsSessionOf}

module _ (reply : Service) (drive item_id : String) where
  -- The types of all the operations, or an error
  abbrev pub Ends : List Fields → Outcome (List String) → Type 0
  Ends ops r =
      (r ≡ done (map (λ op. elim (text_value (get_field "op" op)) [ none ↦ "" | some s ↦ s ]) ops))
      ⊎ ((e : Failure) × (r ≡ failed e))

  with_sheets-Ends :
      (session : Option String) (ops : List Fields) (sheet_names : List String) (log : List Request)
      → Ends ops (with_sheets drive item_id reply session ops sheet_names log).0
  with_sheets-Ends session ops [] log = inr (_, refl)
  with_sheets-Ends session ops (default_sheet ∷ more) log =
      elim (operations_end reply drive item_id session (default_sheet ∷ more) default_sheet 0 ops
        log) [ inl all ↦ inl all | inr (k, kind, bad, from, below) ↦ inr (_, bad) ]

  in_session-Ends :
      (session : Option String) (ops : List Fields) (log : List Request)
      → Ends ops (in_session drive item_id reply session ops log).0
  unfolding in_session
  in_session-Ends session ops log =
      let list = alist_worksheets drive item_id reply session in
      elim (Outcome-cases (list log).0) [
        | inr (e, refused) ↦ inr (e, rw (in_session, ◌>>=◌, refused))
        | inl (sheets, found) ↦ elim (Outcome-cases (names_of sheets)) [
          | inr (e, bad) ↦ inr (e, rw (in_session, ◌>>=◌, found, bad))
          | inl (sheet_names, are) ↦
              rw (in_session, ◌>>=◌, found, are)
                (with_sheets-Ends session ops sheet_names (list log).1)
        ]
      ]

  -- What is behind the creation of the session
  abbrev pub Closes :
      List Request → List Fields → Option String → Outcome (List String) × List Request → Type 0
  Closes base ops session out =
      (log : List Request) × Within session (create_request drive item_id ∷ base) log
      × (out.1 ≡ elim session [
        | none ↦ log
        | some session_id ↦
            post (String.◌++◌ (workbook_base drive item_id) "/closeSession") none (some session_id)
            ∷ log
      ])
      × Ends ops out.0

  close-last :
      (session : Option String) (log : List Request)
      → close drive item_id reply session log ≡ elim session [
        | none ↦ log
        | some session_id ↦
            post (String.◌++◌ (workbook_base drive item_id) "/closeSession") none (some session_id)
            ∷ log
      ]
  unfolding close_request
  close-last none log = refl
  close-last (some session_id) log = refl

  in_closed_session-Closes :
      (base : List Request) (ops : List Fields) (session : Option String)
      → Closes base ops session
          (in_closed_session drive item_id reply session ops (create_request drive item_id ∷ base))
  in_closed_session-Closes base ops session =
      let start = create_request drive item_id ∷ base in
      (
        (in_session drive item_id reply session ops start).1,
        Keeps-in_session session start reply drive item_id ops start nothing,
        close-last session (in_session drive item_id reply session ops start).1,
        in_session-Ends session ops start,
      )

  created_request :
      (base : List Request)
      → (acreate_session drive item_id reply base).1 ≡ create_request drive item_id ∷ base
  unfolding acreate_session
  created_request base = elim (Outcome-cases (reply base (create_request drive item_id))) [
    | inl (result, is) ↦ rw (acreate_session, ◌>>=◌, is)
    | inr (e, is) ↦ rw (acreate_session, ◌>>=◌, is)
  ]

  created-IsSessionOf :
      (base : List Request) (session : Option String)
      → (acreate_session drive item_id reply base).0 ≡ done session
      → (result : Json) × (reply base (create_request drive item_id) ≡ done result)
        × IsSessionOf result session
  unfolding acreate_session
  created-IsSessionOf base session h =
      elim (Outcome-cases (reply base (create_request drive item_id))) [
        | inr (e, refused) ↦ absurd (ground (arith, rw (acreate_session, ◌>>=◌, refused) at h))
        | inl (result, got) ↦ (
          result,
          got,
          session_id_of-IsSessionOf result session (rw (acreate_session, ◌>>=◌, got) at h),
        )
      ]

  session_id_of-failure :
      (result : Json) (e : Failure) → session_id_of result ≡ failed e → e ≡ type_error
  unfolding session_id_of
  session_id_of-failure result e h = ground (arith, h)

  created-refused :
      (base : List Request) (status : ℕ) (error_code message : String)
      → (acreate_session drive item_id reply base).0
        ≡ failed (graph_error status error_code message)
      → reply base (create_request drive item_id) ≡ failed (graph_error status error_code message)
  unfolding acreate_session
  created-refused base status error_code message h =
      elim (Outcome-cases (reply base (create_request drive item_id))) [
        | inr (e, refused) ↦
            let same : e ≡ graph_error status error_code message =
              ground (arith, rw (acreate_session, ◌>>=◌, refused) at h) in
            refused ∙ ap (λ e. failed e) same
        | inl (result, got) ↦
            let wrong =
              session_id_of-failure result (graph_error status error_code message)
                (rw (acreate_session, ◌>>=◌, got) at h) in
            absurd (ground (arith, wrong))
      ]

  -- The edits of a workbook: the first request creates a session. Where that fails otherwise than by a
  -- GraphError it is the only request, and its error is raised. Where Graph refuses it with a GraphError, the
  -- further requests name no session. Otherwise they name the session that the answer names by its `id`, or
  -- none where it names none, and a session is closed by the last request, whether the edits fail or not. The
  -- result is then the types of all the operations, or an error.
  pub apply_workbook_edits-Closes :
      (base : List Request) (op : Fields) (ops : List Fields)
      → ((e : Failure) × IsNoGraphError e
          × ((acreate_session drive item_id reply base).0 ≡ failed e)
          × (apply_workbook_edits drive item_id reply (op ∷ ops) base
              ≡ (failed e, create_request drive item_id ∷ base)))
        ⊎ (((session : Option String) × (result : Json) × (reply base (create_request drive item_id)
                ≡ done result)
              × IsSessionOf result session
              × Closes base
                  (op ∷ ops)
                  session
                  (apply_workbook_edits drive item_id reply (op ∷ ops) base))
            ⊎ ((status : ℕ) × (error_code : String) × (message : String) × (reply base
                    (create_request drive item_id)
                  ≡ failed (graph_error status error_code message))
                × Closes base
                    (op ∷ ops)
                    none
                    (apply_workbook_edits drive item_id reply (op ∷ ops) base)))
  unfolding apply_workbook_edits
  apply_workbook_edits-Closes base op ops =
      let created = acreate_session drive item_id reply base in
      let only : created.1 ≡ create_request drive item_id ∷ base = created_request base in
      elim (Outcome-cases created.0) [
        | inl (session, is) ↦
            let (result, got, names) = created-IsSessionOf base session is in
            inr (
              inl (
                session,
                result,
                got,
                names,
                rw (apply_workbook_edits, is, only)
                    (in_closed_session-Closes base (op ∷ ops) session),
              ))
        | inr (graph_error status error_code message, is) ↦ inr (
            inr (
              status,
              error_code,
              message,
              created-refused base status error_code message is,
              rw (apply_workbook_edits, is, only) (in_closed_session-Closes base (op ∷ ops) none),
            ))
        | inr (non_graph_url, is) ↦ inl (_, of_url, is, rw (apply_workbook_edits, is, only))
        | inr (value_error s, is) ↦ inl (_, of_value, is, rw (apply_workbook_edits, is, only))
        | inr (http_error, is) ↦ inl (_, of_http, is, rw (apply_workbook_edits, is, only))
        | inr (type_error, is) ↦ inl (_, of_type, is, rw (apply_workbook_edits, is, only))
        | inr (edit_error k kind, is) ↦ inl (_, of_edit, is, rw (apply_workbook_edits, is, only))
        | inr (stuck, is) ↦ inl (_, of_rounds, is, rw (apply_workbook_edits, is, only))
      ]
