-- ===== src/AuthServer/TokenExchange.antt =====
-- auth/auth/auth_server/token_exchange.py: the RFC 8693 grant of bond-ai.
pub mod Laws
use bond_mcps.Prelude.{
  ℕ, String, Bool, true, false, not, ◌||◌, ◌&&◌, Option, none, some, ◌==◌, if◌then◌else◌, or_text,
  present, is_some, strip, lower,
}
use bond_mcps.Db.{Instant, Result, ok, err}
use bond_mcps.AuthServer.Tokens.{
  Server, Claims, Response, TokenBody, json_error, tokens, ttl_of, sign_access_token,
}

abbrev pub jwt_type : String
jwt_type = "urn:ietf:params:oauth:token-type:jwt"

abbrev pub exchange_grant : String
exchange_grant = "urn:ietf:params:oauth:grant-type:token-exchange"

-- `os.environ.get(name, "").strip()`
abbrev pub env : Option String → String
env raw = strip (or_text raw "")

unfoldable pub is_enabled : Server → Bool
is_enabled server = not (env server.jwt_secret_raw == "")

unfoldable pub exchange_ttl_seconds : Server → ℕ
exchange_ttl_seconds server = ttl_of 300 60 3600 server.exchange_ttl_raw

abbrev pub oauth_error : String → String → Result Response
oauth_error error description = ok (json_error 400 error description none)

-- The fields of the form that the grant reads.
pub record ExchangeForm : Type 0 where
  pub subject_token : Option String
  pub subject_token_type : Option String
  pub resource : Option String
  pub client_id : Option String

-- Whether a subject_token_type was given that is not the one of a JWT.
abbrev pub wrong_type : Option String → Bool
wrong_type type = elim (present type) [ none ↦ false | some t ↦ not (t == jwt_type) ]

abbrev pub expected_client : Server → String
expected_client server = or_text (some (env server.exchange_client_raw)) "bond-ai"

-- A client_id is given, and it is the one of the exchange client.
abbrev pub right_client : Server → Option String → Bool
right_client server client_id = elim (present client_id) [
  | none ↦ false
  | some c ↦ c == expected_client server
]

-- The claims of a subject token that PyJWT accepts.
abbrev pub accepted_claims : Server → String → Option Claims
accepted_claims server subject_token =
    server.jwt_decode subject_token (env server.jwt_secret_raw)
      (or_text (some (env server.jwt_audience_raw)) "mcp-server")
      (or_text (some (env server.jwt_issuer_raw)) "bond-ai")

-- The token for a subject that was resolved.
abbrev pub exchanged : Server → Instant → String → String → String → String → Result Response
exchanged server now jti cognito_sub email resource =
    elim (sign_access_token server now jti (record {
      user_key = cognito_sub;
      email = some email;
      client_id = expected_client server;
      resource = some resource;
      scope = none;
      ttl_seconds = some (exchange_ttl_seconds server);
    })) [
      | err e ↦ err e
      | ok access_token ↦ ok (
          tokens (record {
            access_token = access_token;
            expires_in = exchange_ttl_seconds server;
            refresh_token = none;
            scope = none;
          }))
    ]

abbrev pub exchange_subject : Server → Instant → String → String → Option Claims → Result Response
exchange_subject server now jti resource none =
    oauth_error "invalid_grant" "subject_token is invalid or expired."
exchange_subject server now jti resource (some claims) =
    let email = lower (strip claims.sub) in
    if email == ""
    then oauth_error "invalid_grant" "subject_token has an empty subject."
    else elim (present (server.resolve_cognito_sub email)) [
      | none ↦ oauth_error "invalid_grant" "Subject could not be resolved to a known user."
      | some cognito_sub ↦ exchanged server now jti cognito_sub email resource
    ]

unfoldable pub handle_token_exchange : Server → Instant → String → ExchangeForm → Result Response
handle_token_exchange server now jti form =
    if env server.jwt_secret_raw == ""
    then oauth_error "unsupported_grant_type"
        "Unsupported grant_type='urn:ietf:params:oauth:grant-type:token-exchange'."
    else elim (present form.subject_token) [
      | none ↦ oauth_error "invalid_request" "subject_token is required."
      | some subject_token ↦
          if wrong_type form.subject_token_type
          then oauth_error "invalid_request"
              "subject_token_type must be 'urn:ietf:params:oauth:token-type:jwt'."
          else elim (present form.resource) [
            | none ↦
                oauth_error "invalid_target" "resource is required and identifies the target MCP."
            | some resource ↦
                if right_client server form.client_id
                then exchange_subject server now jti resource (accepted_claims server subject_token)
                else oauth_error "invalid_client"
                    "client_id is required and must be the exchange client."
          ]
    ]
