-- ===== src/Graph/Pages/Results.antt =====
-- What the listings of pagination.py return.
use bond_mcps.Prelude.{
  ℕ, zero, suc, ◌-◌, ◌≤◌, min, String, true, false, ◌≡◌, refl, ap, ◌∙◌, inl, inr, List, [], ◌∷◌,
  ◌++◌, none, some, arith, length, take, ltb, show, Bool-cases,
}
use bond_mcps.JsonValue.{Json}
use bond_mcps.Graph.{Request, get, done, Service, is_graph_path, client_get, ◌>>=◌}
use bond_mcps.Graph.Pages.Laws.{Pages}
use bond_mcps.Graph.Pages.{value_of, next_link, follow, apaginate, date_of, text_lt, set_param}

-- The pages behind one that was answered: the items that the links lead to, and the number of pages.
pub data Behind (reply : Service) : List Request → Json → List Json → ℕ → Type 0 where
  last_page :
      {log : List Request} {body : Json} → next_link body ≡ done none → Behind reply log body [] 0
  next_page :
      {log : List Request} {body body' : Json} {items rest : List Json} {link : String} {n : ℕ}
      → next_link body ≡ done (some link)
      → is_graph_path link ≡ true
      → reply log (get link [] none) ≡ done body'
      → value_of body' ≡ done items
      → Behind reply (get link [] none ∷ log) body' rest n
      → Behind reply log body (items ++ rest) (suc n)

take-more : {A : Type 0} (n : ℕ) (xs ys : List A) → n ≤ length xs → take n xs ≡ take n (xs ++ ys)
take-more zero xs ys h = refl
take-more (suc n) [] ys h = absurd (omega arith)
take-more (suc n) (x ∷ xs) ys h = ap (λ r. x ∷ r) (take-more n xs ys (omega arith))

append_assoc : {A : Type 0} (xs ys zs : List A) → (xs ++ ys) ++ zs ≡ xs ++ (ys ++ zs)
append_assoc [] ys zs = refl
append_assoc (x ∷ xs) ys zs = ap (λ r. x ∷ r) (append_assoc xs ys zs)

append_nil : {A : Type 0} (xs : List A) → xs ≡ xs ++ []
append_nil [] = refl
append_nil (x ∷ xs) = ap (λ r. x ∷ r) (append_nil xs)

module _ (reply : Service) where
  client_get-sends :
      (path : String) (params : List (String × String)) (log : List Request)
      → is_graph_path path ≡ true
      → ((client_get reply path params none log).0 ≡ reply log (get path params none))
        × ((client_get reply path params none log).1 ≡ get path params none ∷ log)
  unfolding client_get
  client_get-sends path params log g = (rw g, rw g)

  follow_lem :
      (rounds max_results n : ℕ) (results rest : List Json) (body : Json) (log : List Request)
      → Behind reply log body rest n
      → n ≤ rounds
      → (found : List Json) × ((follow reply rounds max_results results body log).0 ≡ done found)
        × (take max_results found ≡ take max_results (results ++ rest))
  unfolding follow
  follow_lem zero max_results zero results rest body log (last_page at_end) h =
      (results, refl, ap (λ xs. take max_results xs) (append_nil results))
  follow_lem zero max_results (suc n) results rest body log b h = absurd (omega arith)
  follow_lem (suc rounds) max_results zero results rest body log (last_page at_end) h =
      elim (Bool-cases (ltb (length results) max_results)) [
        | inr full ↦ rw full (results, refl, take-more max_results results [] (ground arith))
        | inl room ↦
            rw (room, at_end) (results, refl, ap (λ xs. take max_results xs) (append_nil results))
      ]
  follow_lem (suc rounds) max_results (suc n) results rest body log
        (next_page {body' = body'} {items = items} {rest = others} {link = link} next g got ok b)
        h =
      elim (Bool-cases (ltb (length results) max_results)) [
        | inr full ↦
            rw full (results, refl, take-more max_results results (items ++ others) (ground arith))
        | inl room ↦
            let (found, is, same) =
              follow_lem rounds max_results n (results ++ items) others body'
                (get link [] none ∷ log) b (omega arith) in
            let (sent, grown) = client_get-sends link [] log g in
            rw (room, next, sent, got, ok, grown)
              (found, is, same ∙ ap (λ xs. take max_results xs) (append_assoc results items others))
      ]

  -- A listing whose first page the service answers, with the pages its links lead to, all of them Graph's
  -- and no more than are followed: the result is the items of all the pages in their order, cut at
  -- `max_results`.
  pub apaginate-Behind :
      (base : List Request) (path : String) (params : List (String × String))
      (max_results page_size pages n : ℕ) (body : Json) (items rest : List Json)
      → is_graph_path path ≡ true
      → reply base (get path (set_param "$top" (show (min page_size max_results)) params) none)
        ≡ done body
      → value_of body ≡ done items
      → Behind reply
          (get path (set_param "$top" (show (min page_size max_results)) params) none ∷ base)
          body
          rest
          n
      → n ≤ pages - 1
      → (apaginate reply path params max_results page_size pages base).0
        ≡ done (take max_results (items ++ rest))
  unfolding apaginate
  apaginate-Behind base path params max_results page_size pages n body items rest g got ok b
        enough =
      let asked = set_param "$top" (show (min page_size max_results)) params in
      let (sent, grown) = client_get-sends path asked base g in
      let (found, is, same) =
        follow_lem (pages - 1) max_results n items rest body (get path asked none ∷ base) b
          enough in
      rw (◌>>=◌, sent, got, ok, grown, is) (ap (λ xs. done xs) same)

-- An item whose date is readable and not before the cutoff
abbrev pub NotBefore : String → String → Json → Type 0
NotBefore since date_field item =
    (date : String) × (date_of date_field item ≡ done date) × (text_lt date since ≡ false)
