-- ===== src/AuthServer/Upstream/Laws.antt =====
-- Which users the upstream sign-in lets in.
use Prim.Native.String
use bond_mcps.JsonValue.{has_field}
use bond_mcps.LastPart.{IsLastPart, after_last-IsLastPart}
use bond_mcps.Prelude.{
  ◌==◌, if◌then◌else◌, split, ap, ◌∙◌, lower, after_last, [], nat_eq, String, true, Option, none,
  some, List, ◌∷◌, ◌≡◌, refl, ◌⊎◌, inl, inr, arith, Bool-cases, Option-cases, contains, present,
}
use bond_mcps.JsonValue.{Fields, get_field, text_value}
use bond_mcps.AuthServer.Tokens.{UpstreamUserInfo}
use bond_mcps.AuthServer.Upstream.{
  OidcUpstreamIdp, Provider, HttpAnswer, Discovery, user_of_answer, decode_claims, meta,
  exchange_form, credentials, exchange_code, Upstream, UpstreamProblem, answer, problem,
  check_domain, domain_of, user_of,
}

Upstream-cases :
    {A : Type 0} (r : Upstream A)
    → ((a : A) × (r ≡ answer a)) ⊎ ((e : UpstreamProblem) × (r ≡ problem e))
Upstream-cases (answer a) = inl (a, refl)
Upstream-cases (problem e) = inr (e, refl)

check_domain_sound :
    (d : String) (ds : List String) (email : Option String)
    → check_domain (d ∷ ds) email ≡ none
    → (domain : String) × (domain_of email ≡ some domain) × (contains (d ∷ ds) domain ≡ true)
unfolding check_domain
check_domain_sound d ds email h = elim (Option-cases (domain_of email)) [
  | inl missing ↦ absurd (ground (arith, rw (check_domain, missing) at h))
  | inr (domain, is) ↦ elim (Bool-cases (contains (d ∷ ds) domain)) [
    | inl listed ↦ (domain, is, listed)
    | inr other ↦ absurd (ground (arith, rw (check_domain, is, other) at h))
  ]
]

-- Where there is a list of domains, there is an email, and what is behind its last `@` is, in lower case, one
-- of the list.
abbrev pub IsAllowed : List String → Option String → Type 0
IsAllowed allowed email =
    (allowed ≡ [])
    ⊎ ((address part : String) × (email ≡ some address)
        × IsLastPart b'@' address part
        × (contains allowed (lower part) ≡ true))

domain_of_sound :
    (email : Option String) (domain : String)
    → domain_of email ≡ some domain
    → (address part : String) × (email ≡ some address)
      × IsLastPart b'@' address part
      × (lower part ≡ domain)
domain_of_sound none domain h = absurd (ground (arith, h))
domain_of_sound (some address) domain h = elim (Option-cases (after_last b'@' address)) [
  | inl nowhere ↦ absurd (ground (arith, rw (domain_of, nowhere) at h))
  | inr (part, found) ↦ (
    address,
    part,
    refl,
    after_last-IsLastPart b'@' address part found,
    ground (arith, rw (domain_of, found) at h),
  )
]

check_domain-IsAllowed :
    (allowed : List String) (email : Option String)
    → check_domain allowed email ≡ none
    → IsAllowed allowed email
check_domain-IsAllowed [] email h = inl refl
check_domain-IsAllowed (d ∷ ds) email h =
    let (domain, is, listed) = check_domain_sound d ds email h in
    let (address, part, given, last, same) = domain_of_sound email domain is in
    inr (address, part, given, last, rw same listed)

decode_claims_sound :
    (provider : Provider) (id_token : String) (claims : Fields)
    → decode_claims provider id_token ≡ answer claims
    → (header payload signature : String) × (split b'.' id_token
        ≡ header ∷ payload ∷ signature ∷ [])
      × (provider.payload payload ≡ some claims)
unfolding decode_claims
decode_claims_sound provider id_token claims h = three (split b'.' id_token) refl
  where
    three :
        (parts : List String)
        → split b'.' id_token ≡ parts
        → (header payload signature : String) × (split b'.' id_token
            ≡ header ∷ payload ∷ signature ∷ [])
          × (provider.payload payload ≡ some claims)
    three [] is = absurd (ground (arith, rw (decode_claims, is) at h))
    three (a ∷ []) is = absurd (ground (arith, rw (decode_claims, is) at h))
    three (a ∷ b ∷ []) is = absurd (ground (arith, rw (decode_claims, is) at h))
    three (a ∷ b ∷ c ∷ d ∷ more) is = absurd (ground (arith, rw (decode_claims, is) at h))
    three (a ∷ b ∷ c ∷ []) is = elim (Option-cases (provider.payload b)) [
      | inl broken ↦ absurd (ground (arith, rw (decode_claims, is, broken) at h))
      | inr (found, read) ↦ (a, b, c, is, read ∙ ground (arith, rw (decode_claims, is, read) at h))
    ]

-- A user with the subject and the email of the claims, of an allowed domain
abbrev pub IsUserOf : List String → Fields → UpstreamUserInfo → Type 0
IsUserOf allowed claims user =
    (present (text_value (get_field "sub" claims)) ≡ some user.sub)
    × (user.email ≡ text_value (get_field "email" claims))
    × IsAllowed allowed user.email

user_of_sound :
    (allowed : List String) (claims : Fields) (user : UpstreamUserInfo)
    → user_of allowed claims ≡ answer user
    → IsUserOf allowed claims user
unfolding user_of
user_of_sound allowed claims user h =
    elim (Option-cases (present (text_value (get_field "sub" claims)))) [
      | inl missing ↦ absurd (ground (arith, rw (user_of, missing) at h))
      | inr (sub, is) ↦
          elim (Option-cases (check_domain allowed (text_value (get_field "email" claims)))) [
            | inr (e, refused) ↦ absurd (ground (arith, rw (user_of, is, refused) at h))
            | inl passed ↦
                let made : record { sub = sub; email = text_value (get_field "email" claims) }
                    ≡ user =
                  ground (arith, rw (user_of, is, passed) at h) in
                rw (← made) (
                  is,
                  refl,
                  check_domain-IsAllowed allowed (text_value (get_field "email" claims)) passed,
                )
          ]
    ]

answered :
    (reply : HttpAnswer)
    → nat_eq reply.status 200 ≡ true
    → reply ≡ record { status = 200; body = reply.body }
answered reply h =
    let is : reply.status ≡ 200 = ground (arith, h) in
    ap (λ n. record { status = n; body = reply.body }) is

module _ (idp : OidcUpstreamIdp) (provider : Provider) where
  user_of_answer_sound :
      (reply : HttpAnswer) (user : UpstreamUserInfo)
      → user_of_answer idp provider reply ≡ answer user
      → (id_token : String) × (claims : Fields) × (nat_eq reply.status 200 ≡ true)
        × (present (text_value (get_field "id_token" reply.body)) ≡ some id_token)
        × (decode_claims provider id_token ≡ answer claims)
        × IsUserOf idp.allowed_domains claims user
  unfolding user_of_answer
  user_of_answer_sound reply user h = elim (Bool-cases (nat_eq reply.status 200)) [
    | inr bad ↦ absurd (ground (arith, rw (user_of_answer, bad) at h))
    | inl ok_ ↦ elim (Option-cases (present (text_value (get_field "id_token" reply.body)))) [
      | inl missing ↦ absurd (ground (arith, rw (user_of_answer, ok_, missing) at h))
      | inr (id_token, has) ↦
          elim (Option-cases (present (text_value (get_field "access_token" reply.body)))) [
            | inl missing ↦ absurd (ground (arith, rw (user_of_answer, ok_, has, missing) at h))
            | inr (access_token, has') ↦ elim (Upstream-cases (decode_claims provider id_token)) [
              | inr (e, broken) ↦
                  absurd (ground (arith, rw (user_of_answer, ok_, has, has', broken) at h))
              | inl (claims, read) ↦ (
                id_token,
                claims,
                ok_,
                has,
                read,
                user_of_sound idp.allowed_domains claims user
                    (rw (user_of_answer, ok_, has, has', read) at h),
              )
            ]
          ]
    ]
  ]

  -- The document of the provider: the one that was kept, or what the provider answers with status 200.
  abbrev pub IsDocument : Discovery → Fields → Type 0
  IsDocument discovery document =
      (discovery ≡ some document)
      ⊎ ((discovery ≡ none)
          × (provider.discover (String.◌++◌ idp.issuer "/.well-known/openid-configuration")
              ≡ record { status = 200; body = document }))

  meta-IsDocument :
      (discovery : Discovery) (document : Fields)
      → (meta idp provider discovery).0 ≡ answer document
      → IsDocument discovery document
  unfolding meta
  meta-IsDocument (some kept) document h = inl (ap (λ d. some d) (ground (arith, h)))
  meta-IsDocument none document h =
      let found = provider.discover (String.◌++◌ idp.issuer "/.well-known/openid-configuration") in
      elim (Bool-cases (nat_eq found.status 200)) [
        | inr bad ↦ absurd (ground (arith, rw (meta, bad) at h))
        | inl ok_ ↦ elim (Bool-cases (has_field "authorization_endpoint" found.body)) [
          | inr missing ↦ absurd (ground (arith, rw (meta, ok_, missing) at h))
          | inl has ↦ elim (Bool-cases (has_field "token_endpoint" found.body)) [
            | inr missing ↦ absurd (ground (arith, rw (meta, ok_, has, missing) at h))
            | inl has' ↦
                let same : found.body ≡ document = ground (arith, rw (meta, ok_, has, has') at h) in
                inr (refl, answered found ok_ ∙ ap (λ b. record { status = 200; body = b }) same)
          ]
        ]
      ]

  -- A user that the exchange of a code gives comes from the answer with status 200 to a POST of the code and
  -- its verifier to the `token_endpoint` of the provider's document: its subject and email are those of the
  -- payload of the answer's `id_token`, and where domains are listed, the email is of one of them.
  pub exchange_code_sound :
      (code code_verifier : String) (discovery : Discovery) (user : UpstreamUserInfo)
      → (exchange_code idp provider code code_verifier discovery).0 ≡ answer user
      → (document reply_fields claims : Fields) × (url id_token header payload signature : String)
        × IsDocument discovery document
        × (text_value (get_field "token_endpoint" document) ≡ some url)
        × (provider.post url
              (("grant_type", "authorization_code")
                ∷ ("code", code)
                ∷ ("redirect_uri", idp.redirect_uri)
                ∷ ("code_verifier", code_verifier)
                ∷ (if idp.client_secret == "" then ("client_id", idp.client_id) ∷ [] else []))
              (if idp.client_secret == "" then none else some (idp.client_id, idp.client_secret))
            ≡ record { status = 200; body = reply_fields })
        × (present (text_value (get_field "id_token" reply_fields)) ≡ some id_token)
        × (split b'.' id_token ≡ header ∷ payload ∷ signature ∷ [])
        × (provider.payload payload ≡ some claims)
        × IsUserOf idp.allowed_domains claims user
  unfolding exchange_code exchange_form
  exchange_code_sound code code_verifier discovery user h =
      elim (Upstream-cases (meta idp provider discovery).0) [
        | inr (e, failed) ↦ absurd (ground (arith, rw (exchange_code, failed) at h))
        | inl (document, found) ↦
            elim (Option-cases (text_value (get_field "token_endpoint" document))) [
              | inl missing ↦ absurd (ground (arith, rw (exchange_code, found, missing) at h))
              | inr (url, is) ↦
                  let reply =
                    provider.post url (exchange_form idp provider code code_verifier)
                      (credentials idp provider) in
                  let (id_token, claims, ok_, has, read, good) =
                    user_of_answer_sound reply user (rw (exchange_code, found, is) at h) in
                  let (header, payload, signature, parts, opened) =
                    decode_claims_sound provider id_token claims read in
                  (
                    document,
                    reply.body,
                    claims,
                    url,
                    id_token,
                    header,
                    payload,
                    signature,
                    meta-IsDocument discovery document found,
                    is,
                    answered reply ok_,
                    has,
                    parts,
                    opened,
                    good,
                  )
            ]
      ]
