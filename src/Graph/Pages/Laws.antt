-- ===== src/Graph/Pages/Laws.antt =====
-- What the listings of pagination.py request, and what they return.
use bond_mcps.Prelude.{
  ℕ, zero, suc, ◌+◌, ◌≤◌, String, true, false, max, ◌-◌, min, show, ◌≡◌, subst, ◌⊎◌, inl, inr, List,
  [], ◌∷◌, ◌++◌, none, some, arith, length, take, ltb, Bool-cases,
}
use bond_mcps.JsonValue.{Json}
use bond_mcps.Graph.{
  done, Outcome, ◌>>=◌, Request, get, failed, Service, Outcome-cases, is_graph_path, IsGraphUrl,
  is_graph_path-IsGraphUrl, client_get, non_graph_url,
}
use bond_mcps.Graph.Pages.{
  set_param, apaginate, apaginate_until_date, max_messages_pages, normalize_ts, recent, lift,
  follow_until, page_reached_cutoff, value_of, next_link, follow,
}

-- Behind `base`, at most a number of requests were sent, and each asks Graph for a page.
pub data Pages (base : List Request) : ℕ → List Request → Type 0 where
  nothing : {n : ℕ} → Pages base n base
  page :
      {n : ℕ} {log : List Request} {path : String} {params : List (String × String)}
      → Pages base n log
      → IsGraphUrl path
      → Pages base (suc n) (get path params none ∷ log)

Pages-le :
    (base : List Request) (n m : ℕ) (log : List Request)
    → n ≤ m
    → Pages base n log
    → Pages base m log
Pages-le base n m log h nothing = nothing
Pages-le base n zero log h (page {n = k} t g) = absurd (omega arith)
Pages-le base n (suc m) log h (page {n = k} t g) = page (Pages-le base k m _ (omega arith) t) g

length-take : {A : Type 0} (n : ℕ) (xs : List A) → length (take n xs) ≤ n
length-take zero xs = omega arith
length-take (suc n) [] = omega arith
length-take (suc n) (x ∷ xs) = omega (arith, length-take n xs)

module _ (reply : Service) where
  pub client_get-cases :
      (path : String) (params : List (String × String)) (log : List Request)
      → (IsGraphUrl path
          × ((client_get reply path params none log).0 ≡ reply log (get path params none))
          × ((client_get reply path params none log).1 ≡ get path params none ∷ log))
        ⊎ (((client_get reply path params none log).0 ≡ failed non_graph_url)
            × ((client_get reply path params none log).1 ≡ log))
  unfolding client_get
  client_get-cases path params log = elim (Bool-cases (is_graph_path path)) [
    | inl g ↦ inl (is_graph_path-IsGraphUrl path g, rw g, rw g)
    | inr g ↦ inr (rw g, rw g)
  ]

  module _ (base : List Request) where
    follow-Pages :
        (rounds max_results n : ℕ) (results : List Json) (body : Json) (log : List Request)
        → Pages base n log
        → Pages base (n + rounds) (follow reply rounds max_results results body log).1
    unfolding follow
    follow-Pages zero max_results n results body log t = Pages-le base n (n + 0) log (omega arith) t
    follow-Pages (suc rounds) max_results n results body log t =
        let same = Pages-le base n (n + suc rounds) log (omega arith) t in
        elim (Bool-cases (ltb (length results) max_results)) [
          | inr full ↦ rw full same
          | inl more ↦ elim (Outcome-cases (next_link body)) [
            | inr (e, bad) ↦ rw (more, bad) same
            | inl (none, last) ↦ rw (more, last) same
            | inl (some link, next) ↦ elim (client_get-cases link [] log) [
              | inr (shut, kept) ↦ rw (more, next, shut, kept) same
              | inl (g, sent, grown) ↦
                  let log' = get link [] none ∷ log in
                  let t' : Pages base (suc n) log' = page t g in
                  let one = Pages-le base (suc n) (n + suc rounds) log' (omega arith) t' in
                  elim (Outcome-cases (reply log (get link [] none))) [
                    | inr (e, refused) ↦ rw (more, next, sent, refused, grown) one
                    | inl (body', got) ↦ elim (Outcome-cases (value_of body')) [
                      | inr (e, bad) ↦ rw (more, next, sent, got, bad, grown) one
                      | inl (items, ok) ↦
                          rw (more, next, sent, got, ok, grown)
                            (subst
                              (λ k.
                                Pages base k
                                  (follow reply rounds max_results (results ++ items) body' log').1)
                              {x = suc n + rounds} (omega arith)
                              (follow-Pages rounds max_results (suc n) (results ++ items) body' log'
                                t'))
                    ]
                  ]
            ]
          ]
        ]

    follow_until-Pages :
        (rounds n : ℕ) (since date_field : String) (results items : List Json) (body : Json)
        (log : List Request)
        → Pages base n log
        → Pages base
            (n + rounds)
            (follow_until reply rounds since date_field results items body log).1
    unfolding follow_until
    follow_until-Pages zero n since date_field results items body log t =
        Pages-le base n (n + 0) log (omega arith) t
    follow_until-Pages (suc rounds) n since date_field results items body log t =
        let same = Pages-le base n (n + suc rounds) log (omega arith) t in
        elim (Outcome-cases (page_reached_cutoff since date_field items)) [
          | inr (e, bad) ↦ rw (follow_until, bad) same
          | inl (true, reached) ↦ rw (follow_until, reached) same
          | inl (false, newer) ↦ elim (Outcome-cases (next_link body)) [
            | inr (e, bad) ↦ rw (follow_until, newer, bad) same
            | inl (none, last) ↦ rw (follow_until, newer, last) same
            | inl (some link, next) ↦ elim (client_get-cases link [] log) [
              | inr (shut, kept) ↦ rw (follow_until, newer, next, shut, kept) same
              | inl (g, sent, grown) ↦
                  let log' = get link [] none ∷ log in
                  let t' : Pages base (suc n) log' = page t g in
                  let one = Pages-le base (suc n) (n + suc rounds) log' (omega arith) t' in
                  elim (Outcome-cases (reply log (get link [] none))) [
                    | inr (e, refused) ↦ rw (follow_until, newer, next, sent, refused, grown) one
                    | inl (body', got) ↦ elim (Outcome-cases (value_of body')) [
                      | inr (e, bad) ↦ rw (follow_until, newer, next, sent, got, bad, grown) one
                      | inl (more, ok) ↦
                          rw (follow_until, newer, next, sent, got, ok, grown)
                            (subst
                              (λ k.
                                Pages base k
                                  (follow_until reply rounds since date_field (results ++ more) more
                                    body' log').1)
                              {x = suc n + rounds} (omega arith)
                              (follow_until-Pages rounds (suc n) since date_field (results ++ more)
                                more body' log' t'))
                    ]
                  ]
            ]
          ]
        ]

    -- The first page, and what follows it.
    first-Pages :
        (path : String) (params : List (String × String)) (rounds : ℕ)
        (rest : Json → List Json → List Request → Outcome (List Json) × List Request)
        → ((body : Json) (items : List Json) (log : List Request)
            → Pages base 1 log
            → Pages base (suc rounds) (rest body items log).1)
        → Pages base
            (suc rounds)
            ((client_get reply path params none >>= λ body.
                lift (value_of body) >>= λ items. rest body items)
              base).1
    first-Pages path params rounds rest h = elim (client_get-cases path params base) [
      | inr (shut, kept) ↦ rw (◌>>=◌, shut, kept) nothing
      | inl (g, sent, grown) ↦
          let t : Pages base 1 (get path params none ∷ base) = page nothing g in
          elim (Outcome-cases (reply base (get path params none))) [
            | inr (e, refused) ↦
                rw (◌>>=◌, sent, refused, grown) (Pages-le base 1 (suc rounds) _ (omega arith) t)
            | inl (body, got) ↦ elim (Outcome-cases (value_of body)) [
              | inr (e, bad) ↦
                  rw (◌>>=◌, sent, got, bad, grown) (Pages-le base 1 (suc rounds) _ (omega arith) t)
              | inl (items, ok) ↦
                  rw (◌>>=◌, sent, got, ok, grown) (h body items (get path params none ∷ base) t)
            ]
          ]
    ]

    -- A listing sends at most `max_pages` requests, or at most one where that is 0: each is a GET to Graph.
    pub apaginate-Pages :
        (path : String) (params : List (String × String)) (max_results page_size pages : ℕ)
        → Pages base (max 1 pages) (apaginate reply path params max_results page_size pages base).1
    unfolding apaginate
    apaginate-Pages path params max_results page_size pages =
        Pages-le base (suc (pages - 1)) (max 1 pages) _ (omega arith) (
          first-Pages path (set_param "$top" (show (min page_size max_results)) params) (pages - 1)
            (λ body items. follow reply (pages - 1) max_results items body >>= λ results.
              lift (done (take max_results results)))
            (λ body items log t.
              let m = follow reply (pages - 1) max_results items body in
              let enough = follow-Pages (pages - 1) max_results 1 items body log t in
              let enough' : Pages base (suc (pages - 1)) (m log).1 =
                Pages-le base (1 + (pages - 1)) (suc (pages - 1)) _ (omega arith) enough in
              elim (Outcome-cases (m log).0) [
                | inl (results, ok) ↦ rw (◌>>=◌, ok) enough'
                | inr (e, bad) ↦ rw (◌>>=◌, bad) enough'
              ]))

    pub apaginate_until_date-Pages :
        (path : String) (params : List (String × String)) (since : String) (page_size : ℕ)
        (date_field : String)
        → Pages base max_messages_pages
            (apaginate_until_date reply path params since page_size date_field base).1
    unfolding apaginate_until_date
    apaginate_until_date-Pages path params since page_size date_field =
        let since_norm = normalize_ts since in
        Pages-le base (suc 39) max_messages_pages _ (omega arith) (
          first-Pages path (set_param "$top" (show page_size) params) 39
            (λ body items.
              follow_until reply 39 since_norm date_field items items body >>= λ results.
              lift (recent since_norm date_field results))
            (λ body items log t.
              let m = follow_until reply 39 since_norm date_field items items body in
              let enough = follow_until-Pages 39 1 since_norm date_field items items body log t in
              elim (Outcome-cases (m log).0) [
                | inl (results, ok) ↦ rw (◌>>=◌, ok) enough
                | inr (e, bad) ↦ rw (◌>>=◌, bad) enough
              ]))
