-- ===== src/Graph/Workbook/SessionId.antt =====
-- The session that the answer to `createSession` names.
use bond_mcps.Prelude.{
  some, false, ◌≢◌, ap, ◌∙◌, arith, subst, present, ◌==◌, eq_iff, Bool-cases, Option-cases, String,
  Option, none, ◌≡◌, ◌⊎◌, inl, inr,
}
use bond_mcps.JsonValue.{Json, text, text_value, truth, get_field, fields_of, Fields}
use bond_mcps.Graph.{done}
use bond_mcps.Graph.Workbook.{session_id_of}

-- The session that an answer names: its `id`, a text that is not empty, or none.
pub data IsSessionOf (result : Json) : Option String → Type 0 where
  named :
      {fs : Fields} {session : String}
      → fields_of result ≡ some fs
      → get_field "id" fs ≡ text session
      → session ≢ ""
      → IsSessionOf result (some session)
  unnamed :
      {fs : Fields}
      → fields_of result ≡ some fs
      → (text_value (get_field "id" fs) ≡ none) ⊎ (get_field "id" fs ≡ text "")
      → IsSessionOf result none
  no_answer : truth result ≡ false → IsSessionOf result none

text_of : (value : Json) (s : String) → text_value value ≡ some s → value ≡ text s
text_of value s h = ground (arith, h)

pub session_id_of-IsSessionOf :
    (result : Json) (session : Option String)
    → session_id_of result ≡ done session
    → IsSessionOf result session
unfolding session_id_of
session_id_of-IsSessionOf result session h = elim (Bool-cases (truth result)) [
  | inr empty ↦
      let same : none ≡ session = ground (arith, rw (session_id_of, empty) at h) in
      subst (IsSessionOf result) same (no_answer empty)
  | inl full ↦ elim (Option-cases (fields_of result)) [
    | inl other ↦ absurd (ground (arith, rw (session_id_of, full, other) at h))
    | inr (fs, are) ↦
        let id = get_field "id" fs in
        let same : present (text_value id) ≡ session =
          ground (arith, rw (session_id_of, full, are) at h) in
        subst (IsSessionOf result) same (elim (Option-cases (text_value id)) [
          | inl other ↦ rw other (unnamed are (inl other))
          | inr (s, is) ↦ elim (Bool-cases (s == "")) [
            | inl empty ↦
                let nothing_in_it : s ≡ "" = (eq_iff s "").0 empty in
                let blank : id ≡ text "" = text_of id s is ∙ ap (λ t. text t) nothing_in_it in
                rw (is, empty) (unnamed are (inr blank))
            | inr there ↦
                rw (is, there)
                  (named are (text_of id s is) (λ e. ground (arith, there, eq_iff s "", e)))
          ]
        ])
  ]
]
