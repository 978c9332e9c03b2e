-- ===== src/AuthServer/Endpoints/Flow.antt =====
-- The token endpoint: what a code yields.
use bond_mcps.Prelude.{
  ◌/◌, ◌+◌, ◌≤◌, String, true, ◌≡◌, Option, none, some, arith, eq_refl, present, or_text, ap, ◌∙◌,
  subst,
}
use bond_mcps.Db.{seconds, Db, ok, AuthCodeError, get, Exec}
use bond_mcps.AuthServer.Secrets.{is_ascii, sha256_b64u}
use bond_mcps.AuthServer.Codes.{IssuedAuthCode, consume_auth_code, message}
use bond_mcps.AuthServer.Codes.Single.{Presented, consume, consume_sound}
use bond_mcps.AuthServer.Refresh.{
  refresh_token_ttl_seconds, issue_refresh_token, live_row, sweep_refresh_tokens,
}
use bond_mcps.AuthServer.Tokens.{
  Server, Grant, Response, tokens, base_url, claims_of, sign_access_token, access_token_ttl_seconds,
  ttl_of-bounds,
}
use bond_mcps.AuthServer.Endpoints.{
  Draws, TokenForm, bad_request, catch_auth_code, build_token_response, handle_code_grant,
  code_grant_of,
}

-- The lifetime of an access token is between a minute and thirty days, whatever the environment says.
pub access_token_ttl_seconds-bounds :
    (raw : Option String)
    → (60 ≤ access_token_ttl_seconds raw) × (access_token_ttl_seconds raw ≤ 2592000)
unfolding access_token_ttl_seconds
access_token_ttl_seconds-bounds raw = ttl_of-bounds 86400 60 2592000 raw (omega arith) (omega arith)

build_token_response-tokens :
    (server : Server) (draws : Draws) (g : Grant) (db : Db) (iss : String)
    → server.key_problem ≡ none
    → base_url server.base_raw ≡ ok iss
    → is_ascii draws.secret ≡ true
    → get db.refresh (server.crypto.digest draws.secret) ≡ none
    → let after = build_token_response server draws g none db in
      (after.0
        ≡ ok (
            tokens (record {
              access_token = server.jwt_encode (claims_of server draws.now draws.jti g iss);
              expires_in = access_token_ttl_seconds server.ttl_raw;
              refresh_token = some draws.secret;
              scope = some (or_text g.scope "");
            })))
      × (get after.1.refresh (server.crypto.digest draws.secret)
          ≡ some (
              live_row
                (record {
                  client_id = g.client_id;
                  user_key = g.user_key;
                  resource = g.resource;
                  scope = g.scope;
                })
                draws.now))
unfolding build_token_response sign_access_token issue_refresh_token sweep_refresh_tokens
    sha256_b64u
build_token_response-tokens server draws g db iss keyed based ascii new = (
  ground (arith, eq_refl (server.crypto.digest draws.secret)),
  ground (arith, eq_refl (server.crypto.digest draws.secret)),
)

pub catch_auth_code-ok :
    {A : Type 0} (m : Exec A) (h : AuthCodeError → Response) (k : A → Exec Response) (db : Db)
    (a : A)
    → (m db).0 ≡ ok a
    → catch_auth_code m h k db ≡ k a (m db).1
catch_auth_code-ok m h k db a done = rw (catch_auth_code, done)

code_grant-redeemed :
    (server : Server) (draws : Draws) (form : TokenForm) (p : Presented) (db : Db)
    (issued : IssuedAuthCode)
    → p.now ≡ draws.now
    → present form.code ≡ some p.code
    → present form.client_id ≡ some p.client_id
    → present form.redirect_uri ≡ some p.redirect_uri
    → present form.code_verifier ≡ some p.code_verifier
    → (consume server.crypto p db).0 ≡ ok issued
    → handle_code_grant server draws form db
      ≡ build_token_response server draws (code_grant_of issued) none (consume server.crypto p db).1
unfolding handle_code_grant consume
code_grant-redeemed server draws form p db issued when code client uri verifier done =
    rw (handle_code_grant, code, client, uri, verifier)
      (subst
        (λ t.
          catch_auth_code
            (consume_auth_code server.crypto t p.code p.client_id p.redirect_uri p.code_verifier)
            (λ e. bad_request "invalid_grant" (message e))
            (λ i. build_token_response server draws (code_grant_of i) none) db
          ≡ build_token_response server draws (code_grant_of issued) none
              (consume server.crypto p db).1)
        when
        (catch_auth_code-ok (consume server.crypto p) (λ e. bad_request "invalid_grant" (message e))
          (λ i. build_token_response server draws (code_grant_of i) none) db issued done))

-- A code that is redeemed yields a signed token with the user as its subject, the client and the resource
-- that the code was issued for, its email and scope, and the lifetime of an access token; and a live
-- refresh token for the same, if the server has its key and base URL and the drawn refresh token is new.
pub handle_code_grant-tokens :
    (server : Server) (draws : Draws) (form : TokenForm) (p : Presented) (db : Db)
    (issued : IssuedAuthCode) (iss : String)
    → p.now ≡ draws.now
    → present form.code ≡ some p.code
    → present form.client_id ≡ some p.client_id
    → present form.redirect_uri ≡ some p.redirect_uri
    → present form.code_verifier ≡ some p.code_verifier
    → (consume server.crypto p db).0 ≡ ok issued
    → server.key_problem ≡ none
    → base_url server.base_raw ≡ ok iss
    → is_ascii draws.secret ≡ true
    → get db.refresh (server.crypto.digest draws.secret) ≡ none
    → let after = handle_code_grant server draws form db in
      (after.0
        ≡ ok (
            tokens (record {
              access_token = server.jwt_encode (record {
                iss = iss;
                sub = issued.user_key;
                aud = or_text issued.resource "bond-mcps";
                client_id = issued.client_id;
                iat = draws.now / 1000000;
                exp = (draws.now / 1000000) + access_token_ttl_seconds server.ttl_raw;
                jti = draws.jti;
                email = present issued.email;
                scope = present issued.scope;
              });
              expires_in = access_token_ttl_seconds server.ttl_raw;
              refresh_token = some draws.secret;
              scope = some (or_text issued.scope "");
            })))
      × (get after.1.refresh (server.crypto.digest draws.secret)
          ≡ some (record {
            client_id = issued.client_id;
            user_key = issued.user_key;
            resource = issued.resource;
            scope = issued.scope;
            revoked_at = none;
            replaced_by_hash = none;
            expires_at = draws.now + seconds refresh_token_ttl_seconds;
            created_at = draws.now;
          }))
unfolding claims_of
handle_code_grant-tokens server draws form p db issued iss when code client uri verifier done keyed
      based ascii new =
    let (_, _, _, _, written) = consume_sound server.crypto p db done in
    let db' = (consume server.crypto p db).1 in
    let new' : get db'.refresh (server.crypto.digest draws.secret) ≡ none =
      ap (λ (x : Db). get x.refresh (server.crypto.digest draws.secret)) written ∙ new in
    rw (code_grant-redeemed server draws form p db issued when code client uri verifier done) (
      build_token_response-tokens server draws (code_grant_of issued) db' iss keyed based ascii
        new')
