-- ===== src/AuthServer/Endpoints/Redirects.antt =====
-- Where /oauth/authorize sends a browser.
use bond_mcps.Prelude.{
  List, ◌∷◌, String, true, false, ◌==◌, ◌≡◌, inl, inr, Option, some, arith, present, or_text, Url,
  urlparse, Option-cases, Bool-cases,
}
use bond_mcps.Db.{Db, ok, Result-cases}
use bond_mcps.AuthServer.Secrets.{generate_pkce_pair}
use bond_mcps.AuthServer.Clients.{or_default, get_client, is_redirect_uri_allowed}
use bond_mcps.AuthServer.Clients.Policy.{IsSafe}
use bond_mcps.AuthServer.Clients.Store.{IsPoliced, get_client-IsSafe}
use bond_mcps.AuthServer.Codes.{PendingRequest, store_pending_auth}
use bond_mcps.AuthServer.Tokens.{Server, redirect, UpstreamIdp}
use bond_mcps.AuthServer.Endpoints.{
  Draws, AuthorizeQuery, start_upstream, authorize_client, authorize_given, oauth_authorize,
  redirect_with_params, error_redirect_or_400, client_redirect_with_error, state_params,
}

-- The URL is the redirect URI with parameters behind it, or one that the upstream IdP made.
pub data Sends (server : Server) (redirect_uri url : String) : Type 0 where
  to_client :
      (params : List (String × String))
      → url ≡ redirect_with_params server redirect_uri params
      → Sends server redirect_uri url
  to_upstream :
      (idp : UpstreamIdp) (state challenge : String)
      → server.upstream ≡ some idp
      → url ≡ idp.authorize_url state challenge "S256"
      → Sends server redirect_uri url

start_upstream-Sends :
    (server : Server) (draws : Draws) (request : PendingRequest) (uri : String) (db : Db)
    {url : String}
    → (start_upstream server draws request db).0 ≡ ok (redirect url)
    → Sends server uri url
unfolding start_upstream
start_upstream-Sends server draws request uri db h = elim (Option-cases server.upstream) [
  | inl missing ↦ ground arith
  | inr (idp, set) ↦
      let (verifier, challenge) = generate_pkce_pair server.crypto draws.verifier in
      elim (Result-cases
        (store_pending_auth server.crypto server.resolver draws.now draws.secret draws.nonce request
          verifier db).0) [
            | inl (state, stored) ↦ to_upstream idp state challenge set (ground arith)
            | inr (e, failed) ↦ ground arith
          ]
]

error_redirect-Sends :
    (server : Server) (uri : String) (state : Option String) (error description : String)
    {url : String}
    → error_redirect_or_400 server uri state error description ≡ redirect url
    → Sends server uri url
unfolding error_redirect_or_400 client_redirect_with_error
error_redirect-Sends server uri state error description h =
    to_client (("error", error) ∷ ("error_description", description) ∷ state_params state)
      (ground arith)

authorize_client-Sends :
    (server : Server) (draws : Draws) (q : AuthorizeQuery) (client_id uri : String) (db : Db)
    {url : String}
    → (authorize_client server draws q client_id uri db).0 ≡ ok (redirect url)
    → Sends server uri url
unfolding authorize_client
authorize_client-Sends server draws q client_id uri db h =
    elim (Option-cases (present q.code_challenge)) [
      | inl missing ↦
          error_redirect-Sends server uri q.state "invalid_request" "code_challenge is required."
            (ground arith)
      | inr (challenge, given) ↦ elim (Bool-cases (or_text q.response_type "" == "code")) [
        | inr other ↦
            error_redirect-Sends server uri q.state "unsupported_response_type"
              "Only code is supported." (ground arith)
        | inl code ↦ elim (Bool-cases (or_default q.code_challenge_method "S256" == "S256")) [
          | inr other ↦
              error_redirect-Sends server uri q.state "invalid_request"
                "code_challenge_method must be S256." (ground arith)
          | inl method ↦
              start_upstream-Sends server draws
                (record {
                  client_id = client_id;
                  redirect_uri = uri;
                  client_state = q.state;
                  code_challenge = challenge;
                  code_challenge_method = or_default q.code_challenge_method "S256";
                  resource = q.resource;
                  scope = q.scope;
                })
                uri db (ground arith)
        ]
      ]
    ]

-- A browser that /oauth/authorize redirects goes to the upstream IdP or back to the redirect URI of the
-- request, with parameters of the server; and that URI is a plain http URL of a loopback host or a plain
-- https URL of a trusted host, if the table of clients is policed.
pub oauth_authorize-IsSafe :
    (server : Server) (draws : Draws) (q : AuthorizeQuery) (db : Db) {url : String}
    → IsPoliced server.is_bracketed server.hosts_raw db
    → (oauth_authorize server draws q db).0 ≡ ok (redirect url)
    → (uri : String) × (present q.redirect_uri ≡ some uri)
      × Sends server uri url
      × (u : Url) × (urlparse server.is_bracketed uri ≡ some u)
      × IsSafe server.hosts_raw u
unfolding oauth_authorize authorize_given
oauth_authorize-IsSafe server draws q db {url} policed h =
    elim (Option-cases (present q.client_id)) [
      | inl no_client ↦ ground arith
      | inr (client_id, client_given) ↦ elim (Option-cases (present q.redirect_uri)) [
        | inl no_uri ↦ ground arith
        | inr (uri, uri_given) ↦
            let looked =
              get_client server.is_bracketed server.hosts_raw draws.now server.statics client_id
                db in
            elim (Option-cases looked.0) [
              | inl unknown ↦ ground arith
              | inr (client, found) ↦
                  elim (Result-cases (is_redirect_uri_allowed server.is_bracketed client uri)) [
                    | inr (e, failed) ↦ ground arith
                    | inl (false, refused) ↦ ground arith
                    | inl (true, allowed) ↦
                        let ((u, parsed, safe), _) =
                          get_client-IsSafe server.is_bracketed server.hosts_raw draws.now
                            server.statics client_id uri db policed found allowed in
                        let sent : (authorize_client server draws q client_id uri looked.1).0
                            ≡ ok (redirect url) =
                          ground arith in
                        (
                          uri,
                          uri_given,
                          authorize_client-Sends server draws q client_id uri looked.1 sent,
                          u,
                          parsed,
                          safe,
                        )
                  ]
            ]
      ]
    ]
