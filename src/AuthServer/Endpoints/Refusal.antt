-- ===== src/AuthServer/Endpoints/Refusal.antt =====
-- The token endpoint: a request that yields no tokens has used nothing up.
use bond_mcps.Prelude.{
  String, true, ◌==◌, ◌≡◌, refl, ◌⊎◌, inl, inr, none, some, arith, present, or_text, Option-cases,
  Bool-cases,
}
use bond_mcps.Db.{Db, Result, ok, get, Result-cases}
use bond_mcps.AuthServer.Secrets.{is_ascii}
use bond_mcps.AuthServer.Codes.Single.{Presented, consume, consume_refused}
use bond_mcps.AuthServer.Refresh.Rotation.{Refreshing, rotate, rotate_refused}
use bond_mcps.AuthServer.Tokens.{
  claims_of, access_token_ttl_seconds, Server, Response, TokenBody, tokens, base_url,
  sign_access_token,
}
use bond_mcps.AuthServer.Endpoints.{
  refresh_grant_of, Draws, TokenForm, build_token_response, handle_code_grant, handle_refresh_grant,
  oauth_token,
}
use bond_mcps.AuthServer.Endpoints.Flow.{handle_code_grant-tokens}

-- The outcome is tokens, or nothing was written.
abbrev pub Settles : Db → Result Response × Db → Type 0
Settles db out = ((body : TokenBody) × (out.0 ≡ ok (tokens body))) ⊎ (out.1 ≡ db)

module _ (server : Server) (draws : Draws) (form : TokenForm) (db : Db) (iss : String)
    (keyed : server.key_problem ≡ none) (based : base_url server.base_raw ≡ ok iss) where
  code_grant-Settles :
      is_ascii draws.secret ≡ true
      → get db.refresh (server.crypto.digest draws.secret) ≡ none
      → Settles db (handle_code_grant server draws form db)
  unfolding handle_code_grant consume
  code_grant-Settles ascii new = elim (Option-cases (present form.code)) [
    | inl missing ↦ inr (rw (handle_code_grant, missing))
    | inr (code, given) ↦ elim (Option-cases (present form.client_id)) [
      | inl missing ↦ inr (rw (handle_code_grant, given, missing))
      | inr (client_id, client_given) ↦ elim (Option-cases (present form.redirect_uri)) [
        | inl missing ↦ inr (rw (handle_code_grant, given, client_given, missing))
        | inr (uri, uri_given) ↦ elim (Option-cases (present form.code_verifier)) [
          | inl missing ↦ inr (rw (handle_code_grant, given, client_given, uri_given, missing))
          | inr (verifier, verifier_given) ↦
              let p : Presented = record {
                now = draws.now;
                code = code;
                client_id = client_id;
                redirect_uri = uri;
                code_verifier = verifier;
              } in
              elim (Result-cases (consume server.crypto p db).0) [
                | inl (issued, done) ↦
                    let (made, kept) =
                      handle_code_grant-tokens server draws form p db issued iss refl given
                        client_given uri_given verifier_given done keyed based ascii new in
                    inl (_, made)
                | inr (x, refused) ↦
                    inr (ground (arith, consume_refused server.crypto p db refused))
              ]
        ]
      ]
    ]
  ]

  refresh_grant-Settles : Settles db (handle_refresh_grant server draws form db)
  unfolding handle_refresh_grant rotate build_token_response sign_access_token
  refresh_grant-Settles = elim (Option-cases (present form.refresh_token)) [
    | inl missing ↦ inr (rw (handle_refresh_grant, missing))
    | inr (token, given) ↦ elim (Option-cases (present form.client_id)) [
      | inl missing ↦ inr (rw (handle_refresh_grant, given, missing))
      | inr (client_id, client_given) ↦
          let p : Refreshing = record {
            now = draws.now;
            new_token = draws.secret;
            refresh_token = token;
            client_id = client_id;
          } in
          elim (Result-cases (rotate server.crypto server.grace_raw p db).0) [
            | inl (issued, done) ↦
                let body : TokenBody = record {
                  access_token =
                      server.jwt_encode
                        (claims_of server draws.now draws.jti (refresh_grant_of issued) iss);
                  expires_in = access_token_ttl_seconds server.ttl_raw;
                  refresh_token = some issued.refresh_token;
                  scope = some (or_text issued.scope "");
                } in
                inl (body, ground arith)
            | inr (x, refused) ↦
                inr (ground (arith, rotate_refused server.crypto server.grace_raw p db refused))
          ]
    ]
  ]

  -- A token request that does not yield tokens has written nothing, whatever its grant and whether it is
  -- answered with an error or ends in an exception: neither the code nor the refresh token that came with it
  -- is used up. The server has its key and base URL, and the refresh token that it draws is new and ASCII.
  pub oauth_token_refused :
      is_ascii draws.secret ≡ true
      → get db.refresh (server.crypto.digest draws.secret) ≡ none
      → ((body : TokenBody) × ((oauth_token server draws form db).0 ≡ ok (tokens body)))
        ⊎ ((oauth_token server draws form db).1 ≡ db)
  unfolding oauth_token
  oauth_token_refused ascii new =
      elim (Bool-cases (or_text form.grant_type "" == "authorization_code")) [
        | inl code ↦ rw (oauth_token, code) (code_grant-Settles ascii new)
        | inr other ↦ elim (Bool-cases (or_text form.grant_type "" == "refresh_token")) [
          | inl refresh ↦ rw (oauth_token, other, refresh) refresh_grant-Settles
          | inr third ↦ inr (ground arith)
        ]
      ]
