-- ===== src/Graph/Delta/Linked.antt =====
-- The pages of the delta feed: their values, their links, and the failures that are raised.
use bond_mcps.Prelude.{
  ◌≢◌, nat_eq, subst, ap, ◌∙◌, refl, inl, inr, arith, Bool-cases, Option-cases, true, false, ℕ,
  String, none, some, suc, List, [], ◌∷◌, ◌++◌, ◌≡◌, ◌⊎◌,
}
use bond_mcps.JsonValue.{Fields, text, list_value, truth, get_field, text_value, fields_of, Json}
use bond_mcps.Graph.{
  graph_error, value_error, http_error, edit_error, stuck, IsNoGraphError, of_url, of_value,
  of_http, of_type, of_edit, of_rounds, type_error, non_graph_url, IsGraphUrl, failed, Failure,
  Request, get, done, Service,
}
use bond_mcps.Graph.Pages.{next_link}
use bond_mcps.Graph.Delta.{page_values, keeps_progress}

-- The values of a page: the list of its field `value`, or none where it has no such list.
pub data IsValuesOf (page : Json) : List Json → Type 0 where
  listed :
      {fs : Fields} {values : List Json}
      → fields_of page ≡ some fs
      → list_value (get_field "value" fs) ≡ some values
      → IsValuesOf page values
  unlisted :
      {fs : Fields}
      → fields_of page ≡ some fs
      → list_value (get_field "value" fs) ≡ none
      → IsValuesOf page []
  no_object : fields_of page ≡ none → IsValuesOf page []

pub page_values-IsValuesOf : (page : Json) → IsValuesOf page (page_values page)
unfolding page_values
page_values-IsValuesOf page = elim (Option-cases (fields_of page)) [
  | inl other ↦ rw (page_values, other) (no_object other)
  | inr (fs, are) ↦ elim (Option-cases (list_value (get_field "value" fs))) [
    | inl other ↦ rw (page_values, are, other) (unlisted are other)
    | inr (values, is) ↦ rw (page_values, are, is) (listed are is)
  ]
]

-- The link of a page to the next one
abbrev pub Links : Json → String → Type 0
Links page link =
    (fs : Fields) × (fields_of page ≡ some fs) × (get_field "@odata.nextLink" fs ≡ text link)

-- The pages from a first one to a last one, each the answer of Graph behind the link of the one before, with
-- their number and the values of them all.
pub data Linked (reply : Service) (first : Json) (start : List Request)
    : ℕ → List Json → Json → List Request → Type 0 where
  one :
      {values : List Json} → IsValuesOf first values → Linked reply first start 1 values first start
  more :
      {n : ℕ} {values values' : List Json} {page page' : Json} {log : List Request} {link : String}
      → Linked reply first start n values page log
      → Links page link
      → IsGraphUrl link
      → reply log (get link [] none) ≡ done page'
      → IsValuesOf page' values'
      → Linked reply first start (suc n) (values ++ values') page' (get link [] none ∷ log)

-- A failure of a later page that is raised: a GraphError with the status 410, or another exception.
pub data IsRaised : Failure → Type 0 where
  gone : {error_code message : String} → IsRaised (graph_error 410 error_code message)
  other : {e : Failure} → IsNoGraphError e → IsRaised e

pub IsRaised-of :
    (e : Failure)
    → IsRaised e
      ⊎ ((status : ℕ) × (error_code message : String) × (e ≡ graph_error status error_code message)
          × (status ≢ 410)
          × (keeps_progress e ≡ true))
IsRaised-of (graph_error status error_code message) = elim (Bool-cases (nat_eq status 410)) [
  | inl same ↦
      let is : 410 ≡ status = ground (arith, same) in
      inl (subst (λ n. IsRaised (graph_error n error_code message)) is gone)
  | inr differ ↦ inr (
    status,
    error_code,
    message,
    refl,
    λ is. ground (arith, differ, is),
    rw (keeps_progress, differ),
  )
]
IsRaised-of non_graph_url = inl (other of_url)
IsRaised-of (value_error s) = inl (other of_value)
IsRaised-of http_error = inl (other of_http)
IsRaised-of type_error = inl (other of_type)
IsRaised-of (edit_error k kind) = inl (other of_edit)
IsRaised-of stuck = inl (other of_rounds)

pub keeps_progress-IsRaised : (e : Failure) → IsRaised e → keeps_progress e ≡ false
keeps_progress-IsRaised _ gone = refl
keeps_progress-IsRaised _ (other of_url) = refl
keeps_progress-IsRaised _ (other of_value) = refl
keeps_progress-IsRaised _ (other of_http) = refl
keeps_progress-IsRaised _ (other of_type) = refl
keeps_progress-IsRaised _ (other of_edit) = refl
keeps_progress-IsRaised _ (other of_rounds) = refl

pub next_link-failure : (page : Json) (e : Failure) → next_link page ≡ failed e → IsRaised e
unfolding next_link
next_link-failure page e h = elim (Option-cases (fields_of page)) [
  | inl junk ↦
      let is : type_error ≡ e = ground (arith, rw (next_link, junk) at h) in
      subst IsRaised is (other of_type)
  | inr (fs, are) ↦ elim (Bool-cases (truth (get_field "@odata.nextLink" fs))) [
    | inr missing ↦ absurd (ground (arith, rw (next_link, are, missing) at h))
    | inl has ↦ elim (Option-cases (text_value (get_field "@odata.nextLink" fs))) [
      | inl junk ↦
          let is : type_error ≡ e = ground (arith, rw (next_link, are, has, junk) at h) in
          subst IsRaised is (other of_type)
      | inr (link, found) ↦ absurd (ground (arith, rw (next_link, are, has, found) at h))
    ]
  ]
]

pub next_link-none :
    (page : Json) (fs : Fields)
    → fields_of page ≡ some fs
    → next_link page ≡ done none
    → truth (get_field "@odata.nextLink" fs) ≡ false
unfolding next_link
next_link-none page fs are h = elim (Bool-cases (truth (get_field "@odata.nextLink" fs))) [
  | inr missing ↦ missing
  | inl has ↦ elim (Option-cases (text_value (get_field "@odata.nextLink" fs))) [
    | inl junk ↦ absurd (ground (arith, rw (next_link, are, has, junk) at h))
    | inr (link, found) ↦ absurd (ground (arith, rw (next_link, are, has, found) at h))
  ]
]

text_of : (value : Json) (s : String) → text_value value ≡ some s → value ≡ text s
text_of value s h = ground (arith, h)

pub next_link-Links :
    (page : Json) (link : String) → next_link page ≡ done (some link) → Links page link
unfolding next_link
next_link-Links page link h = elim (Option-cases (fields_of page)) [
  | inl junk ↦ absurd (ground (arith, rw (next_link, junk) at h))
  | inr (fs, are) ↦ elim (Bool-cases (truth (get_field "@odata.nextLink" fs))) [
    | inr missing ↦ absurd (ground (arith, rw (next_link, are, missing) at h))
    | inl has ↦ elim (Option-cases (text_value (get_field "@odata.nextLink" fs))) [
      | inl junk ↦ absurd (ground (arith, rw (next_link, are, has, junk) at h))
      | inr (link', found) ↦
          let same : link' ≡ link = ground (arith, rw (next_link, are, has, found) at h) in
          (fs, are, text_of (get_field "@odata.nextLink" fs) link (found ∙ ap (λ l. some l) same))
    ]
  ]
]
