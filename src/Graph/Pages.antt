-- ===== src/Graph/Pages.antt =====
-- mcps/microsoft/ms_graph/pagination.py: the pages of a listing. `max_results`, `page_size` and
-- `max_pages` are not negative, and the value of a page is a list.
pub mod Laws
pub mod Results
use Prim.Native.Char.{code}
use Prim.Native.String
use Prim.Native.String.{compare}
use Prim.Native.Nat.{Ordering}
use bond_mcps.Prelude.{
  ℕ, zero, suc, ◌-◌, min, String, Bool, true, false, not, ◌&&◌, Option, none, some, List, [], ◌∷◌,
  ◌++◌, ◌==◌, leb, ltb, nat_eq, if◌then◌else◌, length, take, show,
}
use bond_mcps.JsonValue.{Json, null, get_field, has_field, fields_of, text_value, list_value, truth}
use bond_mcps.Graph.{
  Failure, type_error, Request, Outcome, done, failed, Service, Client, client_get, ◌>>=◌,
}

abbrev pub max_pages : ℕ
max_pages = 20

abbrev pub max_messages_pages : ℕ
max_messages_pages = 40

-- `{**params, key: value}`
unfoldable pub set_param : String → String → List (String × String) → List (String × String)
set_param key value [] = (key, value) ∷ []
set_param key value ((k, v) ∷ params) =
    let rest = set_param key value params in
    if k == key then (key, value) ∷ params else (k, v) ∷ rest

-- `data.get("value", [])`
unfoldable pub value_of : Json → Outcome (List Json)
value_of body = elim (fields_of body) [
  | none ↦ failed type_error
  | some fs ↦
      if has_field "value" fs
      then elim (list_value (get_field "value" fs)) [
        | none ↦ failed type_error
        | some items ↦ done items
      ]
      else done []
]

-- `data.get("@odata.nextLink")`, where it is true; one that is no text cannot be requested.
unfoldable pub next_link : Json → Outcome (Option String)
next_link body = elim (fields_of body) [
  | none ↦ failed type_error
  | some fs ↦
      if truth (get_field "@odata.nextLink" fs)
      then elim (text_value (get_field "@odata.nextLink" fs)) [
        | none ↦ failed type_error
        | some link ↦ done (some link)
      ]
      else done none
]

abbrev pub lift : {A : Type 0} → Outcome A → Client A
lift r log = (r, log)

is_digits : ℕ → String → Bool
is_digits zero s = true
is_digits (suc n) String.[] = false
is_digits (suc n) (String.◌∷◌ c s) = (leb 48 (code c) && leb (code c) 57) && is_digits n s

drop_chars : ℕ → String → String
drop_chars zero s = s
drop_chars (suc n) String.[] = String.[]
drop_chars (suc n) (String.◌∷◌ c s) = drop_chars n s

take_chars : ℕ → String → String
take_chars zero s = String.[]
take_chars (suc n) String.[] = String.[]
take_chars (suc n) (String.◌∷◌ c s) = String.◌∷◌ c (take_chars n s)

-- Digits, and the separator behind them
group : ℕ → ℕ → String → Bool
unfolding is_digits drop_chars
group n separator s = is_digits n s && starts (drop_chars n s)
  where
    starts : String → Bool
    starts String.[] = false
    starts (String.◌∷◌ c rest) = nat_eq (code c) separator

-- Whether `_ISO_SECOND_RE` matches: `\d{4}-\d{2}-\d{2}T\d{2}:\d{2}:\d{2}`, for ASCII digits.
is_iso_second : String → Bool
unfolding is_digits drop_chars group
is_iso_second ts =
    group 4 b'-' ts
    && group 2 b'-' (drop_chars 5 ts)
    && group 2 b'T' (drop_chars 8 ts)
    && group 2 b':' (drop_chars 11 ts)
    && group 2 b':' (drop_chars 14 ts)
    && is_digits 2 (drop_chars 17 ts)

unfoldable pub normalize_ts : String → String
unfolding is_iso_second take_chars
normalize_ts ts = if is_iso_second ts then take_chars 19 ts else ts

-- `s < t`
abbrev pub text_lt : String → String → Bool
text_lt s t = elim (compare s t) [ Ordering.lt ↦ true | _ ↦ false ]

-- `_normalize_ts(item.get(date_field, ""))`
unfoldable pub date_of : String → Json → Outcome String
date_of date_field item = elim (fields_of item) [
  | none ↦ failed type_error
  | some fs ↦
      if has_field date_field fs
      then elim (text_value (get_field date_field fs)) [
        | none ↦ failed type_error
        | some ts ↦ done (normalize_ts ts)
      ]
      else done (normalize_ts "")
]

unfoldable pub page_reached_cutoff : String → String → List Json → Outcome Bool
page_reached_cutoff since date_field [] = done false
page_reached_cutoff since date_field (item ∷ items) = elim (date_of date_field item) [
  | failed e ↦ failed e
  | done date ↦ if text_lt date since then done true else page_reached_cutoff since date_field items
]

-- The items of the cutoff's date or later
unfoldable pub recent : String → String → List Json → Outcome (List Json)
recent since date_field [] = done []
recent since date_field (item ∷ items) = elim (date_of date_field item) [
  | failed e ↦ failed e
  | done date ↦ elim (recent since date_field items) [
    | failed e ↦ failed e
    | done kept ↦ done (if text_lt date since then kept else item ∷ kept)
  ]
]

module _ (reply : Service) where
  -- The loop, with the rounds that `pages < max_pages` leaves, the results and the last page.
  unfoldable pub follow : ℕ → ℕ → List Json → Json → Client (List Json)
  follow zero max_results results page log = (done results, log)
  follow (suc rounds) max_results results page log =
      if ltb (length results) max_results
      then elim (next_link page) [
        | failed e ↦ (failed e, log)
        | done none ↦ (done results, log)
        | done (some link) ↦
            let (r, log') = client_get reply link [] none log in
            elim r [
              | failed e ↦ (failed e, log')
              | done body ↦ elim (value_of body) [
                | failed e ↦ (failed e, log')
                | done items ↦ follow rounds max_results (results ++ items) body log'
              ]
            ]
      ]
      else (done results, log)

  unfoldable pub apaginate : String → List (String × String) → ℕ → ℕ → ℕ → Client (List Json)
  apaginate path params max_results page_size pages = do
    body ← client_get reply path (set_param "$top" (show (min page_size max_results)) params) none
    items ← lift (value_of body)
    results ← follow (pages - 1) max_results items body
    lift (done (take max_results results))

  -- The loop of `apaginate_until_date`, with the items of the last page.
  unfoldable pub follow_until :
      ℕ → String → String → List Json → List Json → Json → Client (List Json)
  follow_until zero since date_field results items page log = (done results, log)
  follow_until (suc rounds) since date_field results items page log =
      elim (page_reached_cutoff since date_field items) [
        | failed e ↦ (failed e, log)
        | done true ↦ (done results, log)
        | done false ↦ elim (next_link page) [
          | failed e ↦ (failed e, log)
          | done none ↦ (done results, log)
          | done (some link) ↦
              let (r, log') = client_get reply link [] none log in
              elim r [
                | failed e ↦ (failed e, log')
                | done body ↦ elim (value_of body) [
                  | failed e ↦ (failed e, log')
                  | done more ↦
                      follow_until rounds since date_field (results ++ more) more body log'
                ]
              ]
        ]
      ]

  unfoldable pub apaginate_until_date :
      String → List (String × String) → String → ℕ → String → Client (List Json)
  apaginate_until_date path params since page_size date_field = do
    let since_norm = normalize_ts since
    body ← client_get reply path (set_param "$top" (show page_size) params) none
    items ← lift (value_of body)
    results ← follow_until (max_messages_pages - 1) since_norm date_field items items body
    lift (recent since_norm date_field results)
