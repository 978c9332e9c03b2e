-- ===== src/AuthServer/TokenExchange/Laws.antt =====
-- The token exchange: what a token was given for, and its lifetime.
use bond_mcps.Prelude.{
  ◌+◌, ◌/◌, or_text, ◌≤◌, String, ◌≡◌, ◌≢◌, none, some, arith, eq_iff, present, strip, lower,
  Option-cases, inl, inr,
}
use bond_mcps.Db.{Instant, ok, Result-cases}
use bond_mcps.AuthServer.Tokens.{
  Server, Claims, TokenBody, tokens, ttl_of-bounds, base_url, claims_of, sign_access_token,
}
use bond_mcps.AuthServer.TokenExchange.{
  ExchangeForm, env, handle_token_exchange, exchange_ttl_seconds, accepted_claims, expected_client,
}

-- The lifetime of an exchanged token is between a minute and an hour, whatever the environment says.
pub exchange_ttl_seconds-bounds :
    (server : Server) → (60 ≤ exchange_ttl_seconds server) × (exchange_ttl_seconds server ≤ 3600)
unfolding exchange_ttl_seconds
exchange_ttl_seconds-bounds server =
    ttl_of-bounds 300 60 3600 server.exchange_ttl_raw (omega arith) (omega arith)

-- Why an exchange gave a token.
pub record IsExchange (server : Server) (now : Instant) (jti : String) (form : ExchangeForm)
    (body : TokenBody) : Type 0 where
  pub subject_token : String
  pub resource : String
  pub claims : Claims
  pub cognito_sub : String
  pub iss : String
  pub shared_secret : strip (or_text server.jwt_secret_raw "") ≢ ""
  pub token_given : present form.subject_token ≡ some subject_token
  pub resource_given : present form.resource ≡ some resource
  pub client_given :
      present form.client_id
      ≡ some (or_text (some (strip (or_text server.exchange_client_raw ""))) "bond-ai")
  pub verified :
      server.jwt_decode subject_token
        (strip (or_text server.jwt_secret_raw ""))
        (or_text (some (strip (or_text server.jwt_audience_raw ""))) "mcp-server")
        (or_text (some (strip (or_text server.jwt_issuer_raw ""))) "bond-ai")
      ≡ some claims
  pub known : present (server.resolve_cognito_sub (lower (strip claims.sub))) ≡ some cognito_sub
  pub keyed : server.key_problem ≡ none
  pub based : base_url server.base_raw ≡ ok iss
  pub access_token_is :
      body.access_token
      ≡ server.jwt_encode (record {
        iss = iss;
        sub = cognito_sub;
        aud = resource;
        client_id = or_text (some (strip (or_text server.exchange_client_raw ""))) "bond-ai";
        iat = now / 1000000;
        exp = (now / 1000000) + exchange_ttl_seconds server;
        jti = jti;
        email = some (lower (strip claims.sub));
        scope = none;
      })
  pub short_lived : (60 ≤ exchange_ttl_seconds server) × (exchange_ttl_seconds server ≤ 3600)
  pub no_refresh_token : body.refresh_token ≡ none

-- A token is given only where the shared secret is set, and for a subject token that verifies under it,
-- with the configured audience and issuer, by the exchange client and for a resource that it names. The
-- token's subject is the user that the subject's address resolves to, its audience the resource, it lives
-- between a minute and an hour, and no refresh token comes with it.
pub handle_token_exchange_sound :
    (server : Server) (now : Instant) (jti : String) (form : ExchangeForm) {body : TokenBody}
    → handle_token_exchange server now jti form ≡ ok (tokens body)
    → IsExchange server now jti form body
unfolding handle_token_exchange sign_access_token claims_of
handle_token_exchange_sound server now jti form {body} h =
    elim (Option-cases (present form.subject_token)) [
      | inl no_token ↦ ground arith
      | inr (subject_token, token_given) ↦ elim (Option-cases (present form.resource)) [
        | inl no_resource ↦ ground arith
        | inr (resource, resource_given) ↦
            elim (Option-cases (accepted_claims server subject_token)) [
              | inl rejected ↦ ground arith
              | inr (claims, verified) ↦
                  elim (Option-cases
                    (present (server.resolve_cognito_sub (lower (strip claims.sub))))) [
                      | inl unknown ↦ ground arith
                      | inr (cognito_sub, known) ↦ elim (Option-cases server.key_problem) [
                        | inr (problem, unkeyed) ↦ ground arith
                        | inl keyed ↦ elim (Result-cases (base_url server.base_raw)) [
                          | inr (e, unset) ↦ ground arith
                          | inl (iss, based) ↦ elim (Option-cases (present form.client_id)) [
                            | inl no_client ↦ ground arith
                            | inr (client, client_given) ↦ record {
                              subject_token = subject_token;
                              resource = resource;
                              claims = claims;
                              cognito_sub = cognito_sub;
                              iss = iss;
                              shared_secret =
                                  λ e. ground (arith, eq_iff (env server.jwt_secret_raw) "");
                              token_given = token_given;
                              resource_given = resource_given;
                              client_given = ground (arith, eq_iff client (expected_client server));
                              verified = verified;
                              known = known;
                              keyed = keyed;
                              based = based;
                              access_token_is = ground arith;
                              short_lived = exchange_ttl_seconds-bounds server;
                              no_refresh_token = ground arith;
                            }
                          ]
                        ]
                      ]
                    ]
            ]
      ]
    ]
