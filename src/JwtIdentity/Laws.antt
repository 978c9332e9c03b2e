-- ===== src/JwtIdentity/Laws.antt =====
-- The audiences that are accepted, the verifiers that are built, and which of them decides on a token.
use bond_mcps.Prelude.{
  String, Bool, true, false, ◌||◌, Option, none, some, List, [], ◌∷◌, ◌++◌, ◌==◌, contains, ◌≡◌,
  refl, ap, ◌∙◌, ◌⊎◌, inl, inr, Bool-cases, Option-cases, arith, eq_iff,
}
use bond_mcps.JsonValue.{Fields, get_field}
use bond_mcps.JwtIdentity.{
  Names, names_of, pack, parse_csv, Env, canonical, with_canonical, merge_audience,
  resolve_audience, jwks, static_key, JwtVerifier, TokenVerifier, single, composite,
  primary_verifier, secondary_verifier, secondary_issuer, build_verifier, Library, is_text,
  verify_secondary, verify_token, single_verifier,
}

-- Whether a text is the optional one
abbrev pub is_it : Option String → String → Bool
is_it none s = false
is_it (some uri) s = uri == s

names_of-pack : (xs : List String) → names_of (pack xs) ≡ xs
names_of-pack [] = refl
names_of-pack (x ∷ []) = refl
names_of-pack (x ∷ y ∷ xs) = refl

contains-append :
    (xs : List String) (uri s : String)
    → contains (xs ++ (uri ∷ [])) s ≡ (contains xs s || uri == s)
unfolding contains
contains-append [] uri s = ground arith
contains-append (x ∷ xs) uri s = ground (arith, contains-append xs uri s)

with_canonical_iff :
    (uri : String) (xs : List String) (s : String)
    → contains (with_canonical (some uri) xs) s ≡ (contains xs s || uri == s)
with_canonical_iff uri xs s = elim (Bool-cases (contains xs uri)) [
  | inr fresh ↦ rw (with_canonical, fresh) (contains-append xs uri s)
  | inl listed ↦
      rw (with_canonical, listed)
        (elim (Bool-cases (uri == s)) [
          | inr other ↦ ground (arith, other)
          | inl same ↦
              let is : uri ≡ s = (eq_iff uri s).0 same in
              let there : contains xs s ≡ true = rw (← is) listed in ground (arith, there, same)
        ])
]

merge_audience_iff :
    (explicit : Option Names) (uri : Option String) (s : String)
    → contains (names_of (merge_audience explicit uri)) s
      ≡ (contains (names_of explicit) s || is_it uri s)
unfolding contains
merge_audience_iff none none s = refl
merge_audience_iff none (some uri) s = ground arith
merge_audience_iff (some explicit) none s =
    ap (λ xs. contains xs s) (names_of-pack (names_of (some explicit))) ∙ ground arith
merge_audience_iff (some explicit) (some uri) s =
    ap (λ xs. contains xs s) (names_of-pack (with_canonical (some uri) (names_of (some explicit))))
    ∙ with_canonical_iff uri (names_of (some explicit)) s

-- The audiences that the verifier accepts are those of BOND_MCPS_JWT_AUDIENCE and the canonical one of the
-- public URL, and no others.
pub resolve_audience_iff :
    (env : Env) (s : String)
    → contains (names_of (resolve_audience env)) s
      ≡ (contains (names_of (parse_csv env.audience)) s || is_it (canonical env) s)
unfolding resolve_audience
resolve_audience_iff env s = merge_audience_iff (parse_csv env.audience) (canonical env) s

-- A verifier that is built has one source of keys in use, or in composite mode the JWKS with RS256 and the
-- shared secret with HS256, for one issuer. Each accepts the resolved audience.
pub data Built (env : Env) : TokenVerifier → Type 0 where
  composite_mode :
      (env.public_key == "") ≡ true
      → (env.jwks_uri == "") ≡ false
      → (env.shared_secret == "") ≡ false
      → Built env (composite (primary_verifier env) (secondary_verifier env) (secondary_issuer env))
  jwks_mode :
      (env.public_key == "") ≡ true
      → (env.jwks_uri == "") ≡ false
      → (env.shared_secret == "") ≡ true
      → Built env (single (single_verifier env (jwks env.jwks_uri)))
  key_mode :
      (env.public_key == "") ≡ false
      → (env.jwks_uri == "") ≡ true
      → Built env (single (single_verifier env (static_key env.public_key)))

-- A verifier is built just where one source of keys is configured: in each mode the one that is meant.
pub build_verifier_lem :
    (env : Env)
    → ((v : TokenVerifier) × (build_verifier env ≡ some v) × Built env v)
      ⊎ ((build_verifier env ≡ none) × ((env.jwks_uri == "") ≡ (env.public_key == "")))
unfolding build_verifier
build_verifier_lem env = elim (Bool-cases (env.jwks_uri == "")) [
  | inl no_uri ↦ elim (Bool-cases (env.public_key == "")) [
    | inl no_key ↦ inr (rw (build_verifier, no_uri, no_key), rw (no_uri, no_key))
    | inr has_key ↦ inl (_, rw (build_verifier, no_uri, has_key), key_mode has_key no_uri)
  ]
  | inr uri ↦ elim (Bool-cases (env.public_key == "")) [
    | inr has_key ↦ elim (Bool-cases (env.shared_secret == "")) [
      | inl no_secret ↦ inr (rw (build_verifier, uri, has_key, no_secret), rw (uri, has_key))
      | inr secret ↦ inr (rw (build_verifier, uri, has_key, secret), rw (uri, has_key))
    ]
    | inl no_key ↦ elim (Bool-cases (env.shared_secret == "")) [
      | inl no_secret ↦
          inl (_, rw (build_verifier, uri, no_key, no_secret), jwks_mode no_key uri no_secret)
      | inr secret ↦
          inl (_, rw (build_verifier, uri, no_key, secret), composite_mode no_key uri secret)
    ]
  ]
]

-- Which verifier of a composite one accepted a token.
module _ (lib : Library) where
  -- A token that a composite verifier accepts was accepted by the verifier of the JWKS, and names another
  -- algorithm than HS256 or has no readable header; or by that of the shared secret, and names HS256 and
  -- the issuer of the shared secret.
  pub verify_token_sound :
      (primary secondary : JwtVerifier) (issuer token : String) (claims : Fields)
      → verify_token lib (composite primary secondary issuer) token ≡ some claims
      → ((lib.verify primary token ≡ some claims)
          × ((lib.header token ≡ none)
              ⊎ ((header : Fields) × (lib.header token ≡ some header)
                  × (is_text "HS256" (get_field "alg" header) ≡ false))))
        ⊎ ((lib.verify secondary token ≡ some claims)
            × ((header : Fields) × (unverified : Fields) × (lib.header token ≡ some header)
                × (is_text "HS256" (get_field "alg" header) ≡ true)
                × (lib.unverified token ≡ some unverified)
                × (is_text issuer (get_field "iss" unverified) ≡ true)))
  unfolding verify_token verify_secondary
  verify_token_sound primary secondary issuer token claims h =
      elim (Option-cases (lib.header token)) [
        | inl unreadable ↦ inl (rw (verify_token, unreadable) at h, inl unreadable)
        | inr (header, is) ↦ elim (Bool-cases (is_text "HS256" (get_field "alg" header))) [
          | inr other ↦ inl (rw (verify_token, is, other) at h, inr (header, is, other))
          | inl hs ↦ elim (Option-cases (lib.unverified token)) [
            | inl broken ↦
                absurd (ground (arith, rw (verify_token, is, hs, verify_secondary, broken) at h))
            | inr (unverified, read) ↦
                elim (Bool-cases (is_text issuer (get_field "iss" unverified))) [
                  | inr wrong ↦ absurd (
                      ground (arith, rw (verify_token, is, hs, verify_secondary, read, wrong) at h))
                  | inl right ↦ inr (
                    rw (verify_token, is, hs, verify_secondary, read, right) at h,
                    (header, unverified, is, hs, read, right),
                  )
                ]
          ]
        ]
      ]
