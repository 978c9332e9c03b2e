-- ===== src/Tests/Server.antt =====
-- The clients and the endpoints at concrete inputs.
use bond_mcps.Prelude.{
  ◌+◌, ◌⊎◌, String, Bool, true, false, ◌≡◌, ◌≢◌, ◌↔◌, refl, none, some, [], ◌∷◌, Url, urlparse,
  partition, rpartition, has_char, has_port, lower, contains, strip, lstrip, rstrip, rstrip_slash,
  present, arith,
}
use bond_mcps.Prelude.Int.{int_of}
use bond_mcps.Db.{Db, get, ok}
use bond_mcps.AuthServer.Secrets.{is_ascii}
use bond_mcps.AuthServer.Clients.{
  ClientRecord, Metadata, unset, ensure_allowed, ensure_allowed_redirect, ensure_all, persist,
  register_client, ensure_statics_seeded, get_client, is_redirect_uri_allowed, default_grant_types,
  default_response_types, same_loopback,
}
use bond_mcps.AuthServer.Clients.Policy.{IsSafe, ensure_allowed_iff}
use bond_mcps.AuthServer.Clients.Store.{
  IsPoliced, get_client-register_client, register_client-IsPoliced, get_client-IsSafe,
}
use bond_mcps.AuthServer.Tokens.{
  Server, TokenBody, UpstreamIdp, tokens, redirect, access_token_ttl_seconds, base_url, claims_of,
  sign_access_token, failed,
}
use bond_mcps.AuthServer.TokenExchange.{ExchangeForm, handle_token_exchange, exchange_ttl_seconds}
use bond_mcps.AuthServer.TokenExchange.Laws.{IsExchange, handle_token_exchange_sound}
use bond_mcps.AuthServer.Refresh.{refresh_token_ttl_seconds}
use bond_mcps.Db.{seconds}
use bond_mcps.AuthServer.Endpoints.{
  Draws, AuthorizeQuery, TokenForm, oauth_authorize, authorize_given, authorize_client,
  error_redirect_or_400, client_redirect_with_error, redirect_with_params, oauth_token,
  handle_code_grant,
}
use bond_mcps.AuthServer.Endpoints.Redirects.{Sends, oauth_authorize-IsSafe}
use bond_mcps.AuthServer.Endpoints.Flow.{handle_code_grant-tokens}
use bond_mcps.AuthServer.Endpoints.Refusal.{oauth_token_refused}
use bond_mcps.Tests.Setup.{crypto, resolver, nonce, no_rows}
use bond_mcps.Tests.Codes.{code_request, presented, with_code, redeemed}

abbrev pub bracketed : String → Bool
bracketed s = false

abbrev uri : String
uri = "http://localhost:9/cb"

-- The same URI on another port.
abbrev other_port : String
other_port = "http://localhost:8123/cb"

abbrev url : Url
url = record {
  scheme = "http";
  netloc = "localhost:8123";
  path = "/cb";
  query = "";
  fragment = "";
  username = none;
  password = none;
  hostname = some "localhost";
  port_text = some "8123";
}

abbrev metadata : Metadata
metadata = record { redirect_uris = some (uri ∷ []); client_name = some "Desktop"; scope = none }

abbrev client : ClientRecord
client = record {
  client_id = "bm-1";
  client_name = some "Desktop";
  redirect_uris = uri ∷ [];
  token_endpoint_auth_method = "none";
  grant_types = default_grant_types;
  response_types = default_response_types;
  scope = none;
  is_static = false;
}

abbrev seeded : Db
seeded = record no_rows { statics_seeded = true }

ensure_allowed_iff_example :
    (ensure_allowed (some "app.example") url ≡ ok tt)
    ↔ (IsSafe (some "app.example") url × (url.netloc ≢ ""))
ensure_allowed_iff_example = ensure_allowed_iff (some "app.example") url

policed_uris : ensure_all bracketed none client.redirect_uris ≡ ok tt
unfolding ensure_all ensure_allowed_redirect ensure_allowed urlparse partition rpartition has_char
    lower contains
policed_uris = refl

port_differs : is_redirect_uri_allowed bracketed client other_port ≡ ok true
unfolding is_redirect_uri_allowed urlparse partition rpartition has_char lower contains has_port
    same_loopback int_of strip lstrip rstrip
port_differs = refl

registers : (register_client bracketed none 0 "1" metadata seeded).0 ≡ ok client
unfolding register_client ensure_all ensure_allowed_redirect ensure_allowed urlparse partition
    rpartition has_char lower contains persist
registers = refl

get_client-register_client_example :
    (get seeded.clients client.client_id ≡ none)
    × (client.token_endpoint_auth_method ≡ "none")
    × (client.grant_types ≡ default_grant_types)
    × (metadata.redirect_uris ≡ some client.redirect_uris)
    × ((get_client bracketed none 5 unset client.client_id
          (register_client bracketed none 0 "1" metadata seeded).1).0
        ≡ some client)
get_client-register_client_example =
    get_client-register_client bracketed none 0 5 "1" metadata unset seeded refl registers

abbrev no_uris : Metadata
no_uris = record { redirect_uris = none; client_name = none; scope = none }

empty-IsPoliced : IsPoliced bracketed none seeded
empty-IsPoliced = λ k row found. ground arith

abbrev with_client : Db
with_client = (register_client bracketed none 0 "1" metadata seeded).1

looked_up : (get_client bracketed none 5 unset "bm-1" with_client).0 ≡ some client
looked_up =
    let (_, _, _, _, found) =
      get_client-register_client bracketed none 0 5 "1" metadata unset seeded refl registers in
    found

get_client-IsSafe_example :
    ((u : Url) × (urlparse bracketed other_port ≡ some u) × IsSafe none u)
    × IsPoliced bracketed none (get_client bracketed none 5 unset "bm-1" with_client).1
get_client-IsSafe_example =
    get_client-IsSafe bracketed none 5 unset "bm-1" other_port with_client
      (register_client-IsPoliced bracketed none 0 "1" metadata seeded empty-IsPoliced) looked_up
      port_differs

abbrev pub idp : UpstreamIdp
idp = record {
  authorize_url = λ state challenge method. "https://idp.example/authorize";
  exchange_code = λ code verifier. failed "no such code";
}

abbrev pub server : Server
server = record {
  crypto = crypto;
  resolver = resolver;
  is_bracketed = bracketed;
  hosts_raw = none;
  grace_raw = none;
  ttl_raw = none;
  base_raw = some "https://auth.example/";
  statics = unset;
  upstream = some idp;
  upstream_problem = "";
  key_problem = none;
  jwt_encode = λ claims. claims.sub;
  jwt_decode = λ token secret audience issuer. some (record {
    iss = issuer;
    sub = "Ann@Example.com";
    aud = audience;
    client_id = "";
    iat = 0;
    exp = 1;
    jti = "";
    email = none;
    scope = none;
  });
  resolve_cognito_sub = λ email. some "sub-7";
  jwt_secret_raw = some "shared";
  jwt_audience_raw = none;
  jwt_issuer_raw = none;
  exchange_client_raw = none;
  exchange_ttl_raw = none;
}

abbrev pub draws : Draws
draws = record { now = 1000; secret = "drawn"; nonce = nonce; verifier = "upstream"; jti = "uuid" }

-- A request with no code_challenge is reported to the redirect URI.
abbrev query : AuthorizeQuery
query = record {
  client_id = some "bm-1";
  redirect_uri = some other_port;
  response_type = some "code";
  code_challenge = none;
  code_challenge_method = none;
  state = none;
  resource = none;
  scope = none;
}

abbrev answer : String
answer =
    redirect_with_params server other_port
      (("error", "invalid_request") ∷ ("error_description", "code_challenge is required.") ∷ [])

reported : (oauth_authorize server draws query with_client).0 ≡ ok (redirect answer)
unfolding oauth_authorize authorize_given authorize_client error_redirect_or_400
    client_redirect_with_error get_client ensure_statics_seeded is_redirect_uri_allowed
    register_client persist ensure_all ensure_allowed_redirect ensure_allowed urlparse partition
    rpartition has_char lower contains has_port same_loopback int_of strip lstrip rstrip
reported = refl

oauth_authorize-IsSafe_example :
    (given : String) × (present query.redirect_uri ≡ some given)
    × Sends server given answer
    × (u : Url) × (urlparse server.is_bracketed given ≡ some u)
    × IsSafe server.hosts_raw u
oauth_authorize-IsSafe_example =
    oauth_authorize-IsSafe server draws query with_client
      (register_client-IsPoliced bracketed none 0 "1" metadata seeded empty-IsPoliced) reported

abbrev exchange : ExchangeForm
exchange = record {
  subject_token = some "token";
  subject_token_type = none;
  resource = some "https://mcp.example";
  client_id = some "bond-ai";
}

abbrev exchanged_body : TokenBody
exchanged_body = record {
  access_token = "sub-7";
  expires_in = exchange_ttl_seconds server;
  refresh_token = none;
  scope = none;
}

gives : handle_token_exchange server 1000 "uuid" exchange ≡ ok (tokens exchanged_body)
unfolding handle_token_exchange sign_access_token base_url strip lstrip rstrip rstrip_slash lower
    claims_of
gives = refl

handle_token_exchange_sound_example : IsExchange server 1000 "uuid" exchange exchanged_body
handle_token_exchange_sound_example = handle_token_exchange_sound server 1000 "uuid" exchange gives

abbrev form : TokenForm
form = record {
  grant_type = some "authorization_code";
  code = some "code";
  client_id = some "bm-1";
  redirect_uri = some uri;
  code_verifier = some "verifier";
  refresh_token = none;
  exchange = exchange;
}

abbrev no_code : TokenForm
no_code = record form { code = none }

based : base_url server.base_raw ≡ ok "https://auth.example"
unfolding base_url strip lstrip rstrip rstrip_slash
based = refl

oauth_token_refused_example :
    ((body : TokenBody) × ((oauth_token server draws no_code with_code).0 ≡ ok (tokens body)))
    ⊎ ((oauth_token server draws no_code with_code).1 ≡ with_code)
unfolding is_ascii
oauth_token_refused_example =
    oauth_token_refused server draws no_code with_code "https://auth.example" refl based refl refl

handle_code_grant-tokens_example :
    let after = handle_code_grant server draws form with_code in
    (after.0
      ≡ ok (
          tokens (record {
            access_token = server.jwt_encode (record {
              iss = "https://auth.example";
              sub = "sub-7";
              aud = "bond-mcps";
              client_id = "bm-1";
              iat = 0;
              exp = 86400;
              jti = "uuid";
              email = present code_request.bindings.email;
              scope = some "openid";
            });
            expires_in = access_token_ttl_seconds none;
            refresh_token = some "drawn";
            scope = some "openid";
          })))
    × (get after.1.refresh "drawn"
        ≡ some (record {
          client_id = "bm-1";
          user_key = "sub-7";
          resource = none;
          scope = some "openid";
          revoked_at = none;
          replaced_by_hash = none;
          expires_at = 1000 + seconds refresh_token_ttl_seconds;
          created_at = 1000;
        }))
unfolding is_ascii
handle_code_grant-tokens_example =
    handle_code_grant-tokens server draws form presented with_code code_request.bindings
      "https://auth.example" refl refl refl refl refl redeemed refl based refl refl
