-- ===== src/Tests/Upstream.antt =====
-- The upstream sign-in and the Cognito lookup at concrete inputs.
use bond_mcps.Prelude.{
  present, if◌then◌else◌, ◌==◌, ℕ, String, ◌+◌, ◌≤◌, ◌≡◌, refl, none, some, [], ◌∷◌, inl, arith,
  lower, strip, lstrip, rstrip, split, contains, after_last,
}
use bond_mcps.JsonValue.{text_value, Fields, field, end, text, get_field, has_field}
use bond_mcps.AuthServer.Tokens.{UpstreamUserInfo}
use bond_mcps.AuthServer.Upstream.{
  OidcUpstreamIdp, Provider, answer, problem, endpoint_missing, meta, exchange_code, decode_claims,
  user_of, user_of_answer, check_domain,
}
use bond_mcps.AuthServer.Upstream.Laws.{IsDocument, IsUserOf, exchange_code_sound}
use bond_mcps.AuthServer.Cognito.{Cache, Env, lookup_uncached, resolve_cognito_sub, ttl}
use bond_mcps.AuthServer.Cognito.Laws.{IsHonest, History, resolve_cognito_sub-IsHonest}

abbrev idp : OidcUpstreamIdp
idp = record {
  idp = "okta";
  issuer = "https://idp";
  client_id = "c";
  client_secret = "";
  redirect_uri = "https://as/cb";
  scopes = "openid";
  allowed_domains = "example.com" ∷ [];
  prompt = none;
}

abbrev document : Fields
document =
    field "authorization_endpoint" (text "https://idp/a")
      (field "token_endpoint" (text "https://idp/t") end)

abbrev tokens : Fields
tokens = field "id_token" (text "h.p.s") (field "access_token" (text "a") end)

abbrev payload_claims : Fields
payload_claims = field "sub" (text "sub-7") (field "email" (text "me@Example.com") end)

abbrev provider : Provider
provider = record {
  discover = λ url. record { status = 200; body = document };
  post = λ url form auth. record { status = 200; body = tokens };
  payload = λ payload. some payload_claims;
}

abbrev me : UpstreamUserInfo
me = record { sub = "sub-7"; email = some "me@Example.com" }

exchanged : (exchange_code idp provider "code" "v" none).0 ≡ answer me
unfolding exchange_code meta user_of_answer decode_claims user_of check_domain get_field has_field
    split contains after_last lower
exchanged = refl

exchange_code_sound_example :
    (kept reply_fields claims : Fields) × (url id_token header payload signature : String)
    × IsDocument idp provider none kept
    × (text_value (get_field "token_endpoint" kept) ≡ some url)
    × (provider.post url
          (("grant_type", "authorization_code")
            ∷ ("code", "code")
            ∷ ("redirect_uri", idp.redirect_uri)
            ∷ ("code_verifier", "v")
            ∷ (if idp.client_secret == "" then ("client_id", idp.client_id) ∷ [] else []))
          (if idp.client_secret == "" then none else some (idp.client_id, idp.client_secret))
        ≡ record { status = 200; body = reply_fields })
    × (present (text_value (get_field "id_token" reply_fields)) ≡ some id_token)
    × (split b'.' id_token ≡ header ∷ payload ∷ signature ∷ [])
    × (provider.payload payload ≡ some claims)
    × IsUserOf idp.allowed_domains claims me
exchange_code_sound_example = exchange_code_sound idp provider "code" "v" none me exchanged

-- A document without the token endpoint is refused, kept, and not refused the second time.
abbrev half : Fields
half = field "authorization_endpoint" (text "https://idp/a") end

abbrev half_provider : Provider
half_provider = record provider { discover = λ url. record { status = 200; body = half } }

meta_twice :
    (meta idp half_provider none ≡ (problem (endpoint_missing "token_endpoint"), some half))
    × (meta idp half_provider (some half) ≡ (answer half, some half))
unfolding meta has_field
meta_twice = (refl, refl)

-- A user pool in which the subject of an email is always the same.
abbrev pool : Env
pool = record { user_pool_id = some "p"; db_url = none }

abbrev history : History
history at pool_id email =
    some (record { attributes = (some "sub", some "sub-7") ∷ []; username = none } ∷ [])

abbrev no_entries : Cache
no_entries email = none

no_entries-IsHonest : IsHonest pool history 100 no_entries
no_entries-IsHonest email = inl refl

resolve_cognito_sub-IsHonest_example :
    (at : ℕ) × (at ≤ 101)
    × (100
        ≤ at
          + ttl pool
              (history at)
              (resolve_cognito_sub pool (history 101) 100 101 "Me@x" no_entries).0)
    × ((resolve_cognito_sub pool (history 101) 100 101 "Me@x" no_entries).0
        ≡ lookup_uncached pool (history at) (lower (strip "Me@x")))
    × IsHonest pool history 101 (resolve_cognito_sub pool (history 101) 100 101 "Me@x" no_entries).1
unfolding lower strip lstrip rstrip
resolve_cognito_sub-IsHonest_example =
    resolve_cognito_sub-IsHonest pool history 100 101 "Me@x" no_entries (omega arith)
      no_entries-IsHonest refl
