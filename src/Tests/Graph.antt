-- ===== src/Tests/Graph.antt =====
-- Uploads and listings at concrete inputs.
use bond_mcps.Prelude.{
  String, ◌≡◌, refl, none, [], ◌∷◌, ◌++◌, List, ◌⊎◌, arith, max, min, take, show, has_prefix,
}
use bond_mcps.JsonValue.{
  Json, object, text, array, nil, cons, field, end, get_field, has_field, elements,
}
use bond_mcps.Graph.{Failure, Request, get, delete_url, done, failed, Service, is_graph_path}
use bond_mcps.Graph.Upload.{upload_chunk_bytes, send_fragments}
use bond_mcps.Graph.Upload.Laws.{Tiled, covered, send_fragments-Tiled}
use bond_mcps.Graph.Pages.{value_of, next_link, apaginate, set_param}
use bond_mcps.Graph.Pages.Laws.{Pages, apaginate-Pages}
use bond_mcps.Graph.Pages.Results.{Behind, last_page, next_page, apaginate-Behind}

-- Each fragment is accepted.
abbrev accepting : Service
accepting log r = done (object end)

send_fragments-Tiled_example :
    ((body : Json) × ((send_fragments accepting "u" (1 ∷ 2 ∷ 3 ∷ []) []).0 ≡ done body)
      × Tiled accepting [] "u" upload_chunk_bytes
          (1 ∷ 2 ∷ 3 ∷ [])
          3
          (send_fragments accepting "u" (1 ∷ 2 ∷ 3 ∷ []) []).1
      × (covered (send_fragments accepting "u" (1 ∷ 2 ∷ 3 ∷ []) []).1 ≡ 1 ∷ 2 ∷ 3 ∷ []))
    ⊎ ((e : Failure) × (r : Request) × (log : List Request) × ((send_fragments accepting "u"
            (1 ∷ 2 ∷ 3 ∷ [])
            []).0
          ≡ failed e)
        × (accepting log r ≡ failed e)
        × ((send_fragments accepting "u" (1 ∷ 2 ∷ 3 ∷ []) []).1 ≡ delete_url "u" ∷ r ∷ log))
unfolding covered
send_fragments-Tiled_example = send_fragments-Tiled accepting "u" (1 ∷ 2 ∷ 3 ∷ []) [] refl

abbrev item : String → Json
item date = object (field "receivedDateTime" (text date) end)

-- Two pages, the second behind a link.
abbrev first_page : Json
first_page = object (
    field "value" (array (cons (item "2026-02-02T00:00:00Z") nil))
      (field "@odata.nextLink" (text "/me/messages?skip=1") end))

abbrev second_page : Json
second_page = object (field "value" (array (cons (item "2026-01-01T00:00:00Z") nil)) end)

abbrev paged : Service
paged [] r = done first_page
paged (q ∷ log) r = done second_page

apaginate-Pages_example : Pages [] (max 1 20) (apaginate paged "/me/messages" [] 50 25 20 []).1
apaginate-Pages_example = apaginate-Pages paged [] "/me/messages" [] 50 25 20

behind :
    Behind paged
      (get "/me/messages" (set_param "$top" (show (min 25 50)) []) none ∷ [])
      first_page
      (item "2026-01-01T00:00:00Z" ∷ [])
      1
unfolding next_link value_of is_graph_path get_field has_field elements has_prefix
behind =
    next_page {body' = second_page} {items = item "2026-01-01T00:00:00Z" ∷ []} {rest = []}
      {link = "/me/messages?skip=1"} refl refl refl refl (last_page refl)

apaginate-Behind_example :
    (apaginate paged "/me/messages" [] 50 25 20 []).0
    ≡ done (take 50 ((item "2026-02-02T00:00:00Z" ∷ []) ++ (item "2026-01-01T00:00:00Z" ∷ [])))
unfolding is_graph_path value_of get_field has_field elements has_prefix
apaginate-Behind_example =
    apaginate-Behind paged [] "/me/messages" [] 50 25 20 1 first_page
      (item "2026-02-02T00:00:00Z" ∷ []) (item "2026-01-01T00:00:00Z" ∷ []) refl refl refl behind
      (omega arith)
