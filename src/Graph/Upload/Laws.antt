-- ===== src/Graph/Upload/Laws.antt =====
-- The fragments of an upload session: what is sent, in which order, and how the loop ends.
use bond_mcps.Prelude.{
  ℕ, zero, suc, ◌+◌, ◌≤◌, ◌<◌, String, false, ◌≡◌, refl, sym, ap, ◌∙◌, List, [], ◌∷◌, ◌++◌, arith,
  length, take, drop, ltb, inl, inr, Bool-cases, take_step, length-take-pos, length-take-le,
  take-all, ltb→lt, ◌⊎◌,
}
use bond_mcps.Db.{Bytes}
use bond_mcps.JsonValue.{Json, null}
use bond_mcps.Graph.{
  Failure, Request, put_range, delete_url, Outcome, done, failed, Service, Outcome-cases,
  on_failure-done, on_failure-failed,
}
use bond_mcps.Graph.Upload.{upload_chunk_bytes, put_ranges, send_fragments, cancel_session}

-- The requests behind `base` are the fragments of the content up to a position, one behind the other:
-- each starts where the one before ended, is not empty and no longer than a chunk, states its place, and
-- was accepted by the service.
pub data Tiled (reply : Service) (base : List Request) (url : String) (chunk : ℕ) (content : Bytes)
    : ℕ → List Request → Type 0 where
  nothing : Tiled reply base url chunk content 0 base
  fragment :
      {n : ℕ} {log : List Request} {body : Json}
      → Tiled reply base url chunk content n log
      → 0 < length (take chunk (drop n content))
      → reply log (put_range url (take chunk (drop n content)) n (length content)) ≡ done body
      → Tiled reply base url chunk content
          (n + length (take chunk (drop n content)))
          (put_range url (take chunk (drop n content)) n (length content) ∷ log)

-- The bytes of a request that sends a fragment
abbrev pub fragment_of : Request → Bytes
fragment_of (put_range url bytes start total) = bytes
fragment_of _ = []

-- The bytes that were sent in fragments, in their order
unfoldable pub covered : List Request → Bytes
covered [] = []
covered (r ∷ log) = covered log ++ fragment_of r

Tiled-covered :
    (reply : Service) (base : List Request) (url : String) (chunk : ℕ) (content : Bytes) (n : ℕ)
    (log : List Request)
    → covered base ≡ []
    → Tiled reply base url chunk content n log
    → covered log ≡ take n content
unfolding covered
Tiled-covered reply base url chunk content n log none_before nothing = none_before
Tiled-covered reply base url chunk content n log none_before (fragment {n = m} t more accepted) =
    ap (λ sent. sent ++ take chunk (drop m content))
      (Tiled-covered reply base url chunk content m _ none_before t)
    ∙ sym (take_step m chunk content)

module _ (reply : Service) (url : String) (chunk : ℕ) (content : Bytes) (some_room : 0 < chunk)
    (base : List Request) where
  -- How the loop ends from a position: the whole content was sent, or the request of a fragment failed.
  abbrev Ends : Outcome Json × List Request → Type 0
  Ends out =
      ((body : Json) × (out.0 ≡ done body)
        × Tiled reply base url chunk content (length content) out.1)
      ⊎ ((e : Failure) × (n : ℕ) × (log : List Request) × (out.0 ≡ failed e)
          × Tiled reply base url chunk content n log
          × (out.1 ≡ put_range url (take chunk (drop n content)) n (length content) ∷ log)
          × (reply log (put_range url (take chunk (drop n content)) n (length content)) ≡ failed e))

  all_sent :
      (fuel start : ℕ) (last : Json) (log : List Request)
      → start ≡ length content
      → ltb start (length content) ≡ false
      → Tiled reply base url chunk content start log
      → Ends (put_ranges reply fuel url chunk content start last log)
  unfolding put_ranges
  all_sent zero start last log e stop t = rw stop (inl (last, refl, rw (← e) t))
  all_sent (suc fuel) start last log e stop t = rw stop (inl (last, refl, rw (← e) t))

  put_ranges-Ends :
      (fuel start : ℕ) (last : Json) (log : List Request)
      → start ≤ length content
      → length content ≤ start + fuel
      → Tiled reply base url chunk content start log
      → Ends (put_ranges reply fuel url chunk content start last log)
  unfolding put_ranges
  put_ranges-Ends zero start last log inside enough t =
      all_sent zero start last log (omega arith) (ground arith) t
  put_ranges-Ends (suc fuel) start last log inside enough t =
      elim (Bool-cases (ltb start (length content))) [
        | inr stop ↦ all_sent (suc fuel) start last log (ground arith) stop t
        | inl more ↦
            let r = put_range url (take chunk (drop start content)) start (length content) in
            let some_bytes : 0 < length (take chunk (drop start content)) =
              length-take-pos start chunk content some_room (ltb→lt start (length content) more) in
            let not_more = length-take-le start chunk content in
            elim (Outcome-cases (reply log r)) [
              | inr (e, refused) ↦ rw (more, refused) (inr (e, start, log, refl, t, refl, refused))
              | inl (body, accepted) ↦
                  rw (more, accepted)
                    (put_ranges-Ends fuel (start + length (take chunk (drop start content))) body
                      (r ∷ log) (omega arith) (omega arith) (fragment t some_bytes accepted))
            ]
      ]

module _ (reply : Service) (url : String) (content : Bytes) (base : List Request) where
  -- The fragments of an upload: either each was accepted, and together they are the content, one behind
  -- the other, none empty or longer than a chunk; or one was refused, its error is the error of the
  -- upload, and the session is cancelled as the last request. The loop ends by itself in both cases.
  pub send_fragments-Tiled :
      covered base ≡ []
      → ((body : Json) × ((send_fragments reply url content base).0 ≡ done body)
          × Tiled reply base url upload_chunk_bytes content
              (length content)
              (send_fragments reply url content base).1
          × (covered (send_fragments reply url content base).1 ≡ content))
        ⊎ ((e : Failure) × (r : Request) × (log : List Request) × ((send_fragments reply url content
                base).0
              ≡ failed e)
            × (reply log r ≡ failed e)
            × ((send_fragments reply url content base).1 ≡ delete_url url ∷ r ∷ log))
  unfolding send_fragments
  send_fragments-Tiled none_before =
      let size = length content in
      let out = put_ranges reply size url upload_chunk_bytes content 0 null base in
      elim (put_ranges-Ends reply url upload_chunk_bytes content (omega arith) base size 0 null base
        (omega arith) (omega arith) nothing) [
          | inl (body, accepted, t) ↦
              let whole =
                Tiled-covered reply base url upload_chunk_bytes content size out.1 none_before t
                ∙ take-all size content (omega arith) in
              let is : send_fragments reply url content base ≡ (done body, out.1) =
                on_failure-done (put_ranges reply size url upload_chunk_bytes content 0 null)
                  (cancel_session reply url) base body accepted in
              rw is (inl (body, refl, t, whole))
          | inr (e, n, log, refused, t, last, why) ↦
              let is : send_fragments reply url content base ≡ (failed e, delete_url url ∷ out.1) =
                on_failure-failed (put_ranges reply size url upload_chunk_bytes content 0 null)
                  (cancel_session reply url) base e refused in
              let r = put_range url (take upload_chunk_bytes (drop n content)) n (length content) in
              rw is (inr (e, r, log, refl, why, ap (λ l. delete_url url ∷ l) last))
        ]
