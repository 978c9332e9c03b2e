-- ===== src/AuthServer/Endpoints.antt =====
-- The handlers of auth/auth/auth_server/endpoints.py that read or write the server's state. A request
-- is the record of the parameters that the handler reads; what a handler draws is a record Draws. An
-- exception that no handler catches is the error of the computation.
pub mod Redirects
pub mod Flow
pub mod Refusal
pub mod SignIn
use Prim.Native.String
use bond_mcps.Prelude.{
  ℕ, ◌/◌, String, Bool, true, false, not, Option, none, some, List, [], ◌∷◌, ◌++◌, ◌==◌,
  if◌then◌else◌, is_some, present, or_text, has_char, urlencode,
}
use bond_mcps.Db.{
  Instant, Bytes, Db, Result, ok, err, Exception, AuthCodeError, RegistrationError, Exec, pure,
  raise, lift, gets, ◌>>=◌, ◌>>◌,
}
use bond_mcps.AuthServer.Secrets.{generate_pkce_pair}
use bond_mcps.AuthServer.Clients.{
  ClientRecord, Metadata, or_default, register_client, get_client, is_redirect_uri_allowed,
}
use bond_mcps.AuthServer.Codes.{
  PendingRequest, PendingAuth, IssuedAuthCode, CodeRequest, store_pending_auth,
  consume_pending_auth, issue_auth_code, consume_auth_code, message, reason,
}
use bond_mcps.AuthServer.Refresh.{
  Bindings, RotatedRefreshToken, issue_refresh_token, rotate_refresh_token,
}
use bond_mcps.AuthServer.Tokens.{
  Server, Grant, TokenBody, Response, UpstreamIdp, UpstreamUserInfo, Exchanged, user, failed,
  json_error, html_error, redirect, tokens, registered, sign_access_token, access_token_ttl_seconds,
}
use bond_mcps.AuthServer.TokenExchange.{ExchangeForm, exchange_grant, handle_token_exchange}

-- What one request draws: the clock, a secret of the server, the AEAD's nonce, a PKCE verifier, a UUID.
pub record Draws : Type 0 where
  pub now : Instant
  pub secret : String
  pub nonce : Bytes
  pub verifier : String
  pub jti : String

abbrev pub bad_request : String → String → Response
bad_request error description = json_error 400 error description none

-- `try: m except AuthCodeError as e: return h(e)`, and else `k`
abbrev pub catch_auth_code :
    {A : Type 0} → Exec A → (AuthCodeError → Response) → (A → Exec Response) → Exec Response
catch_auth_code m h k db =
    let (r, db') = m db in
    elim r [
      | ok a ↦ k a db'
      | err e ↦ elim e [ Exception.auth_code x ↦ (ok (h x), db') | other ↦ (err other, db') ]
    ]

-- `?`, or `&` where the URI has a query
unfoldable pub redirect_with_params : Server → String → List (String × String) → String
redirect_with_params server redirect_uri params = String.◌++◌ redirect_uri (
    String.◌++◌ (if has_char b'?' redirect_uri then "&" else "?")
      (urlencode server.crypto.encode params))

abbrev pub state_params : Option String → List (String × String)
state_params state = elim (present state) [ none ↦ [] | some s ↦ ("state", s) ∷ [] ]

unfoldable pub client_redirect_with_error :
    Server → String → Option String → String → String → String
unfolding redirect_with_params
client_redirect_with_error server redirect_uri state error description =
    redirect_with_params server redirect_uri
      (("error", error) ∷ ("error_description", description) ∷ state_params state)

-- At every call the redirect URI was found to be a text that is not empty.
unfoldable pub error_redirect_or_400 : Server → String → Option String → String → String → Response
unfolding client_redirect_with_error
error_redirect_or_400 server redirect_uri state error description =
    if redirect_uri == ""
    then bad_request error description
    else redirect (client_redirect_with_error server redirect_uri state error description)

pub record AuthorizeQuery : Type 0 where
  pub client_id : Option String
  pub redirect_uri : Option String
  pub response_type : Option String
  pub code_challenge : Option String
  pub code_challenge_method : Option String
  pub state : Option String
  pub resource : Option String
  pub scope : Option String

-- The request is stored, and the browser sent to the upstream IdP.
unfoldable pub start_upstream : Server → Draws → PendingRequest → Exec Response
start_upstream server draws request = elim server.upstream [
  | none ↦ pure (json_error 500 "server_error" "Upstream IdP misconfigured." none)
  | some idp ↦ do
    let pair = generate_pkce_pair server.crypto draws.verifier
    bond_state ←
        store_pending_auth server.crypto server.resolver draws.now draws.secret draws.nonce request
          pair.0
    pure (redirect (idp.authorize_url bond_state pair.1 "S256"))
]

-- The checks whose failure is reported to the redirect URI.
unfoldable pub authorize_client : Server → Draws → AuthorizeQuery → String → String → Exec Response
unfolding start_upstream error_redirect_or_400
authorize_client server draws q client_id redirect_uri =
    let method = or_default q.code_challenge_method "S256" in
    elim (present q.code_challenge) [
      | none ↦ pure (
          error_redirect_or_400 server redirect_uri q.state "invalid_request"
            "code_challenge is required.")
      | some code_challenge ↦
          if not (or_text q.response_type "" == "code")
          then pure (
              error_redirect_or_400 server redirect_uri q.state "unsupported_response_type"
                "Only code is supported.")
          else if not (method == "S256")
          then pure (
              error_redirect_or_400 server redirect_uri q.state "invalid_request"
                "code_challenge_method must be S256.")
          else start_upstream server draws (record {
            client_id = client_id;
            redirect_uri = redirect_uri;
            client_state = q.state;
            code_challenge = code_challenge;
            code_challenge_method = method;
            resource = q.resource;
            scope = q.scope;
          })
    ]

-- `client_id` and `redirect_uri` were both given.
unfoldable pub authorize_given : Server → Draws → AuthorizeQuery → String → String → Exec Response
unfolding authorize_client
authorize_given server draws q client_id redirect_uri = do
  found ← λ db.
      let (client, db') =
        get_client server.is_bracketed server.hosts_raw draws.now server.statics client_id db in
      (ok client, db')
  elim found [
    | none ↦ pure (bad_request "invalid_client" "Unknown client_id.")
    | some client ↦ do
      allowed ← lift (is_redirect_uri_allowed server.is_bracketed client redirect_uri)
      if allowed
          then authorize_client server draws q client_id redirect_uri
          else pure (bad_request "invalid_request" "redirect_uri not registered.")
  ]

unfoldable pub oauth_authorize : Server → Draws → AuthorizeQuery → Exec Response
unfolding authorize_given
oauth_authorize server draws q = elim (present q.client_id) [
  | none ↦ pure (bad_request "invalid_request" "client_id and redirect_uri are required.")
  | some client_id ↦ elim (present q.redirect_uri) [
    | none ↦ pure (bad_request "invalid_request" "client_id and redirect_uri are required.")
    | some redirect_uri ↦ authorize_given server draws q client_id redirect_uri
  ]
]

pub record CallbackQuery : Type 0 where
  pub state : Option String
  pub code : Option String
  pub error : Option String
  pub error_description : Option String

abbrev pub code_request_of : PendingAuth → UpstreamUserInfo → CodeRequest
code_request_of pending info = record {
  bindings = record {
    client_id = pending.client_id;
    user_key = info.sub;
    email = info.email;
    redirect_uri = pending.redirect_uri;
    resource = pending.resource;
    scope = pending.scope;
  };
  code_challenge = pending.code_challenge;
  code_challenge_method = pending.code_challenge_method;
}

-- The code for a user that the upstream IdP named.
unfoldable pub finish_callback : Server → Draws → PendingAuth → UpstreamUserInfo → Exec Response
unfolding redirect_with_params
finish_callback server draws pending info = do
  auth_code ← issue_auth_code server.crypto draws.now draws.secret (code_request_of pending info)
  pure (
      redirect (
        redirect_with_params server pending.redirect_uri
          (("code", auth_code) ∷ state_params pending.client_state)))

-- What follows the claim of the pending request.
unfoldable pub callback_claimed : Server → Draws → CallbackQuery → PendingAuth → Exec Response
unfolding finish_callback client_redirect_with_error
callback_claimed server draws q pending =
    let back = client_redirect_with_error server pending.redirect_uri pending.client_state in
    elim (present q.error) [
      | some upstream_error ↦
          pure (redirect (back "access_denied" (or_default q.error_description upstream_error)))
      | none ↦ elim (present q.code) [
        | none ↦ pure (html_error 400 "Upstream callback missing code.")
        | some code ↦ elim server.upstream [
          | none ↦ pure (redirect (back "server_error" server.upstream_problem))
          | some idp ↦ elim (idp.exchange_code code pending.upstream_code_verifier) [
            | failed problem ↦ pure (redirect (back "server_error" problem))
            | user info ↦ finish_callback server draws pending info
          ]
        ]
      ]
    ]

unfoldable pub oauth_upstream_callback : Server → Draws → CallbackQuery → Exec Response
unfolding callback_claimed
oauth_upstream_callback server draws q = elim (present q.state) [
  | none ↦ pure (html_error 400 "Missing state from upstream IdP.")
  | some bond_state ↦
      catch_auth_code (consume_pending_auth server.crypto server.resolver draws.now bond_state)
        (λ e. html_error 400 "Sign-in session expired. Please try again.")
        (callback_claimed server draws q)
]

-- `refresh_token` is the successor that a rotation has minted.
unfoldable pub build_token_response : Server → Draws → Grant → Option String → Exec Response
build_token_response server draws g refresh_token = do
  access_token ← lift (sign_access_token server draws.now draws.jti g)
  refresh ← elim refresh_token [
    | some token ↦ pure token
    | none ↦ issue_refresh_token server.crypto draws.now draws.secret (record {
      client_id = g.client_id;
      user_key = g.user_key;
      resource = g.resource;
      scope = g.scope;
    })
  ]
  pure (
      tokens (record {
        access_token = access_token;
        expires_in = access_token_ttl_seconds server.ttl_raw;
        refresh_token = some refresh;
        scope = some (or_text g.scope "");
      }))

pub record TokenForm : Type 0 where
  pub grant_type : Option String
  pub code : Option String
  pub client_id : Option String
  pub redirect_uri : Option String
  pub code_verifier : Option String
  pub refresh_token : Option String
  pub exchange : ExchangeForm

abbrev pub code_grant_of : IssuedAuthCode → Grant
code_grant_of issued = record {
  user_key = issued.user_key;
  email = issued.email;
  client_id = issued.client_id;
  resource = issued.resource;
  scope = issued.scope;
  ttl_seconds = none;
}

abbrev pub refresh_grant_of : RotatedRefreshToken → Grant
refresh_grant_of issued = record {
  user_key = issued.user_key;
  email = none;
  client_id = issued.client_id;
  resource = issued.resource;
  scope = issued.scope;
  ttl_seconds = none;
}

abbrev fields_missing : Exec Response
fields_missing =
    pure (bad_request "invalid_request" "code, client_id, redirect_uri, code_verifier required.")

unfoldable pub handle_code_grant : Server → Draws → TokenForm → Exec Response
unfolding build_token_response
handle_code_grant server draws form = elim (present form.code) [
  | none ↦ fields_missing
  | some code ↦ elim (present form.client_id) [
    | none ↦ fields_missing
    | some client_id ↦ elim (present form.redirect_uri) [
      | none ↦ fields_missing
      | some redirect_uri ↦ elim (present form.code_verifier) [
        | none ↦ fields_missing
        | some code_verifier ↦
            catch_auth_code
              (consume_auth_code server.crypto draws.now code client_id redirect_uri code_verifier)
              (λ e. bad_request "invalid_grant" (message e))
              (λ issued. build_token_response server draws (code_grant_of issued) none)
      ]
    ]
  ]
]

unfoldable pub handle_refresh_grant : Server → Draws → TokenForm → Exec Response
unfolding build_token_response
handle_refresh_grant server draws form = elim (present form.refresh_token) [
  | none ↦ pure (bad_request "invalid_request" "refresh_token and client_id required.")
  | some refresh_token ↦ elim (present form.client_id) [
    | none ↦ pure (bad_request "invalid_request" "refresh_token and client_id required.")
    | some client_id ↦
        catch_auth_code
          (rotate_refresh_token server.crypto server.grace_raw draws.now draws.secret refresh_token
            client_id)
          (λ e. json_error 400 "invalid_grant" (message e) (reason e))
          (λ issued.
            build_token_response server draws (refresh_grant_of issued) (some issued.refresh_token))
  ]
]

-- The description of an unknown grant type, which quotes it, is left out.
unfoldable pub oauth_token : Server → Draws → TokenForm → Exec Response
unfolding handle_code_grant handle_refresh_grant
oauth_token server draws form =
    let grant = or_text form.grant_type "" in
    if grant == "authorization_code"
    then handle_code_grant server draws form
    else if grant == "refresh_token"
    then handle_refresh_grant server draws form
    else if grant == exchange_grant
    then lift (handle_token_exchange server draws.now draws.jti form.exchange)
    else pure (bad_request "unsupported_grant_type" "Unsupported grant_type.")

-- The body of a registration, as `request.json()` reads it.
pub data Payload : Type 0 where
  not_json not_an_object : Payload
  object : Metadata → Payload

-- The description of a registration error, which quotes the URI, is left out.
unfoldable pub oauth_register : Server → Draws → Payload → Exec Response
oauth_register server draws payload = elim payload [
  | Payload.not_json ↦ pure (bad_request "invalid_client_metadata" "Body must be JSON.")
  | Payload.not_an_object ↦
      pure (bad_request "invalid_client_metadata" "Body must be a JSON object.")
  | Payload.object metadata ↦ λ db.
      let (r, db') =
        register_client server.is_bracketed server.hosts_raw draws.now draws.secret metadata db in
      elim r [
        | ok client ↦ (ok (registered client (draws.now / 1000000)), db')
        | err e ↦ elim e [
          | Exception.registration x ↦ (ok (bad_request "invalid_client_metadata" ""), db')
          | other ↦ (err other, db')
        ]
      ]
]
