-- ===== src/Tests/Jwt.antt =====
-- The verification of tokens at concrete inputs.
use bond_mcps.Prelude.{
  true, false, ◌≡◌, refl, none, some, ◌⊎◌, contains, split, strip, lstrip, rstrip, rstrip_slash,
}
use bond_mcps.JsonValue.{Fields, end, field, text, get_field}
use bond_mcps.JwtIdentity.{
  Env, JwtVerifier, TokenVerifier, composite, primary_verifier, secondary_verifier,
  secondary_issuer, Library, is_text, verify_token, verify_secondary, names_of, parse_csv,
  canonical, resolve_audience,
}
use bond_mcps.JwtIdentity.Laws.{verify_token_sound}

abbrev env : Env
env = record {
  jwks_uri = "https://as/jwks";
  public_key = "";
  shared_secret = "s";
  shared_secret_issuer = "";
  issuer = "https://as";
  audience = "atlassian, github";
  algorithm = "";
  public_url = "https://mcp/";
}

abbrev claims : Fields
claims = field "sub" (text "sub-7") (field "iss" (text "bond-ai") end)

-- Every token is one of the backend.
abbrev lib : Library
lib = record {
  header = λ token. some (field "alg" (text "HS256") end);
  unverified = λ token. some claims;
  verify = λ verifier token. some claims;
}

canonical_accepted : contains (names_of (resolve_audience env)) "https://mcp/mcp" ≡ true
unfolding resolve_audience contains parse_csv canonical split strip lstrip rstrip rstrip_slash
    bond_mcps.JwtIdentity.parts_of
canonical_accepted = refl

accepted :
    verify_token lib
      (composite (primary_verifier env) (secondary_verifier env) (secondary_issuer env))
      "t"
    ≡ some claims
unfolding verify_token verify_secondary get_field
accepted = refl

verify_token_sound_example :
    ((lib.verify (primary_verifier env) "t" ≡ some claims)
      × ((lib.header "t" ≡ none)
          ⊎ ((header : Fields) × (lib.header "t" ≡ some header)
              × (is_text "HS256" (get_field "alg" header) ≡ false))))
    ⊎ ((lib.verify (secondary_verifier env) "t" ≡ some claims)
        × ((header : Fields) × (unverified : Fields) × (lib.header "t" ≡ some header)
            × (is_text "HS256" (get_field "alg" header) ≡ true)
            × (lib.unverified "t" ≡ some unverified)
            × (is_text (secondary_issuer env) (get_field "iss" unverified) ≡ true)))
verify_token_sound_example =
    verify_token_sound lib (primary_verifier env) (secondary_verifier env) (secondary_issuer env)
      "t" claims accepted
