-- ===== src/AuthServer/Tokens.antt =====
-- Access tokens: `_access_token_ttl_seconds`, `_sign_access_token` and `_base_url` of
-- auth/auth/auth_server/endpoints.py, and the responses of the server.
-- The environment and the components that the endpoints call are the fields of Server: `jwt_encode` is
-- PyJWT's with the key of `load_signing_key`, and `key_problem` the exception where that finds none;
-- `jwt_decode` is PyJWT's with a shared secret, an audience and an issuer.
use bond_mcps.Prelude.{
  ℕ, ◌+◌, ◌/◌, ◌≤◌, min, max, String, Bool, Option, none, some, ◌==◌, if◌then◌else◌, or_text, strip,
  rstrip_slash, present, arith,
}
use bond_mcps.Prelude.Int.{ℤ, pos_part, int_of}
use bond_mcps.Db.{Instant, Result, ok, err, Exception}
use bond_mcps.Encryption.{Crypto, Resolver}
use bond_mcps.AuthServer.Clients.{ClientRecord, StaticClients}

abbrev pub default_access_token_ttl_seconds : ℕ
default_access_token_ttl_seconds = 86400

-- `max(low, min(value, high))`
abbrev pub clamped : ℕ → ℕ → ℤ → ℕ
clamped low high value = max low (min (pos_part value) high)

-- A time to live from the environment: the default, or the value within its bounds.
unfoldable pub ttl_of : ℕ → ℕ → ℕ → Option String → ℕ
ttl_of default low high raw =
    let text = strip (or_text raw "") in
    if text == ""
    then default
    else elim (int_of text) [ none ↦ default | some value ↦ clamped low high value ]

unfoldable pub access_token_ttl_seconds : Option String → ℕ
unfolding ttl_of
access_token_ttl_seconds raw = ttl_of default_access_token_ttl_seconds 60 2592000 raw

unfoldable pub base_url : Option String → Result String
base_url raw =
    let base = strip (or_text raw "") in
    if base == "" then err Exception.runtime_error else ok (rstrip_slash base)

pub record Claims : Type 0 where
  pub iss : String
  pub sub : String
  pub aud : String
  pub client_id : String
  pub iat : ℕ
  pub exp : ℕ
  pub jti : String
  pub email : Option String
  pub scope : Option String

pub record UpstreamUserInfo : Type 0 where
  pub sub : String
  pub email : Option String

-- What `exchange_code` gives: the user, or the text of the error.
pub data Exchanged : Type 0 where
  user : UpstreamUserInfo → Exchanged
  failed : String → Exchanged

-- An IdP that is configured. `authorize_url` is taken to give a URL here; that the discovery behind it may
-- fail is in AuthServer.Upstream.
pub record UpstreamIdp : Type 0 where
  pub authorize_url : String → String → String → String
  pub exchange_code : String → String → Exchanged

pub record Server : Type 0 where
  pub crypto : Crypto
  pub resolver : Resolver
  pub is_bracketed : String → Bool
  pub hosts_raw : Option String
  pub grace_raw : Option String
  pub ttl_raw : Option String
  pub base_raw : Option String
  pub statics : StaticClients
  -- `get_upstream_idp()`; `none` is an UpstreamConfigError, whose text is the other field
  pub upstream : Option UpstreamIdp
  pub upstream_problem : String
  pub key_problem : Option Exception
  pub jwt_encode : Claims → String
  pub jwt_decode : String → String → String → String → Option Claims
  -- `cognito_lookup.resolve_cognito_sub`
  pub resolve_cognito_sub : String → Option String
  pub jwt_secret_raw : Option String
  pub jwt_audience_raw : Option String
  pub jwt_issuer_raw : Option String
  pub exchange_client_raw : Option String
  pub exchange_ttl_raw : Option String

-- What `_sign_access_token` is given; `jti` is the drawn UUID.
pub record Grant : Type 0 where
  pub user_key : String
  pub email : Option String
  pub client_id : String
  pub resource : Option String
  pub scope : Option String
  pub ttl_seconds : Option ℕ

-- The payload that is signed.
unfoldable pub claims_of : Server → Instant → String → Grant → String → Claims
unfolding access_token_ttl_seconds
claims_of server now jti g iss =
    let iat = now / 1000000 in
    let ttl : ℕ = elim g.ttl_seconds [
      | none ↦ access_token_ttl_seconds server.ttl_raw
      | some t ↦ t
    ] in
    record {
      iss = iss;
      sub = g.user_key;
      aud = or_text g.resource "bond-mcps";
      client_id = g.client_id;
      iat = iat;
      exp = iat + ttl;
      jti = jti;
      email = present g.email;
      scope = present g.scope;
    }

unfoldable pub sign_access_token : Server → Instant → String → Grant → Result String
unfolding base_url claims_of
sign_access_token server now jti g = elim server.key_problem [
  | some e ↦ err e
  | none ↦ elim (base_url server.base_raw) [
    | err e ↦ err e
    | ok iss ↦ ok (server.jwt_encode (claims_of server now jti g iss))
  ]
]

pub record TokenBody : Type 0 where
  pub access_token : String
  pub expires_in : ℕ
  pub refresh_token : Option String
  pub scope : Option String

pub data Response : Type 0 where
  -- the status, `error`, `error_description`, and `error_reason` if there is one
  json_error : ℕ → String → String → Option String → Response
  html_error : ℕ → String → Response
  redirect : String → Response
  tokens : TokenBody → Response
  -- the client, and `client_id_issued_at`
  registered : ClientRecord → ℕ → Response

pub ttl_of-bounds :
    (default low high : ℕ) (raw : Option String)
    → low ≤ default
    → default ≤ high
    → (low ≤ ttl_of default low high raw) × (ttl_of default low high raw ≤ high)
unfolding ttl_of
ttl_of-bounds default low high raw below above = (ground arith, ground arith)
