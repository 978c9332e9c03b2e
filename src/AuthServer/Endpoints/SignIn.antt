-- ===== src/AuthServer/Endpoints/SignIn.antt =====
-- The way back from the upstream IdP, from the callback to the redemption of its code.
use bond_mcps.Prelude.{String, true, ◌≡◌, subst, ap, ◌∙◌, none, some, ◌∷◌, arith, present}
use bond_mcps.Db.{◌>>=◌, pure, Db, Instant, Result, ok, Exec, get}
use bond_mcps.Encryption.{Crypto, Resolver}
use bond_mcps.AuthServer.Secrets.{is_ascii}
use bond_mcps.AuthServer.Codes.{PendingAuth, consume_pending_auth}
use bond_mcps.AuthServer.Codes.Single.{Presented, consume}
use bond_mcps.AuthServer.Codes.Lifecycle.{issue, Matches, consume-issue}
use bond_mcps.AuthServer.Codes.Pending.{claim}
use bond_mcps.AuthServer.Tokens.{
  Server, Response, redirect, html_error, UpstreamIdp, UpstreamUserInfo, user,
}
use bond_mcps.AuthServer.Endpoints.{
  Draws, CallbackQuery, code_request_of, finish_callback, callback_claimed, oauth_upstream_callback,
  redirect_with_params, state_params,
}
use bond_mcps.AuthServer.Endpoints.Flow.{catch_auth_code-ok}

-- A claim leaves the codes as they are.
claim-codes :
    (c : Crypto) (r : Resolver) (now : Instant) (state h : String) (db : Db) {pending : PendingAuth}
    → (claim c r now state db).0 ≡ ok pending
    → get (claim c r now state db).1.codes h ≡ get db.codes h
unfolding claim consume_pending_auth
claim-codes c r now state h db done = ground arith

bind_ok :
    {A B : Type 0} (m : Exec A) (f : A → Exec B) (db : Db) (a : A)
    → (m db).0 ≡ ok a
    → (m >>= f) db ≡ f a (m db).1
bind_ok m f db a done = rw (◌>>=◌, done)

finish_callback-issue :
    (server : Server) (draws : Draws) (pending : PendingAuth) (info : UpstreamUserInfo) (db : Db)
    → (issue server.crypto draws.now draws.secret (code_request_of pending info) db).0
      ≡ ok draws.secret
    → finish_callback server draws pending info db ≡ (
      ok (
          redirect (
            redirect_with_params server pending.redirect_uri
              (("code", draws.secret) ∷ state_params pending.client_state))),
      (issue server.crypto draws.now draws.secret (code_request_of pending info) db).1,
    )
unfolding finish_callback issue
finish_callback-issue server draws pending info db done =
    bind_ok (issue server.crypto draws.now draws.secret (code_request_of pending info))
      (λ auth_code. pure (
        redirect (
          redirect_with_params server pending.redirect_uri
            (("code", auth_code) ∷ state_params pending.client_state))))
      db draws.secret done

module _ (server : Server) (draws : Draws) (q : CallbackQuery) (idp : UpstreamIdp)
    (info : UpstreamUserInfo) (pending : PendingAuth) (code : String)
    (no_error : present q.error ≡ none) (code_given : present q.code ≡ some code)
    (configured : server.upstream ≡ some idp)
    (exchanged : idp.exchange_code code pending.upstream_code_verifier ≡ user info) where
  callback_claimed-finish :
      callback_claimed server draws q pending ≡ finish_callback server draws pending info
  unfolding callback_claimed
  callback_claimed-finish = rw (callback_claimed, no_error, code_given, configured, exchanged)

  callback-claimed :
      (state : String) (db : Db)
      → present q.state ≡ some state
      → (claim server.crypto server.resolver draws.now state db).0 ≡ ok pending
      → oauth_upstream_callback server draws q db
        ≡ finish_callback server draws pending info
            (claim server.crypto server.resolver draws.now state db).1
  unfolding oauth_upstream_callback claim
  callback-claimed state db state_given claimed =
      rw (oauth_upstream_callback, state_given)
        (catch_auth_code-ok (claim server.crypto server.resolver draws.now state)
            (λ e. html_error 400 "Sign-in session expired. Please try again.")
            (callback_claimed server draws q) db pending claimed
          ∙ ap (λ k. k (claim server.crypto server.resolver draws.now state db).1)
              callback_claimed-finish)

  -- A callback for a pending sign-in, with a code that the upstream IdP exchanges for a user, sends the
  -- browser back to the redirect URI of the request with a new code; and that code is redeemed for this
  -- user, for the client, resource and scope of the request, by who holds the verifier of its challenge.
  pub oauth_upstream_callback-consume :
      (state : String) (p : Presented) (db : Db)
      → present q.state ≡ some state
      → (claim server.crypto server.resolver draws.now state db).0 ≡ ok pending
      → is_ascii draws.secret ≡ true
      → get db.codes (server.crypto.digest draws.secret) ≡ none
      → p.code ≡ draws.secret
      → Matches server.crypto draws.now (code_request_of pending info) p
      → let after = oauth_upstream_callback server draws q db in
        (after.0
          ≡ ok (
              redirect (
                redirect_with_params server pending.redirect_uri
                  (("code", draws.secret) ∷ state_params pending.client_state))))
        × ((consume server.crypto p after.1).0
            ≡ ok (record {
              client_id = pending.client_id;
              user_key = info.sub;
              email = info.email;
              redirect_uri = pending.redirect_uri;
              resource = pending.resource;
              scope = pending.scope;
            }))
  oauth_upstream_callback-consume state p db state_given claimed ascii new same m =
      let c = server.crypto in
      let mid = (claim c server.resolver draws.now state db).1 in
      let new' : get mid.codes (c.digest p.code) ≡ none =
        claim-codes c server.resolver draws.now state (c.digest p.code) db claimed
        ∙ ap (λ k. get db.codes (c.digest k)) same
        ∙ new in
      let (issued, redeemed) =
        consume-issue c draws.now (code_request_of pending info) p mid (ap is_ascii same ∙ ascii)
          new' m in
      let issued' : (issue c draws.now draws.secret (code_request_of pending info) mid).0
          ≡ ok draws.secret =
        subst (λ k. (issue c draws.now k (code_request_of pending info) mid).0 ≡ ok k) same
          issued in
      let redeemed' =
        subst
          (λ k.
            (consume c p (issue c draws.now k (code_request_of pending info) mid).1).0
            ≡ ok (code_request_of pending info).bindings)
          same redeemed in
      let whole =
        callback-claimed state db state_given claimed
        ∙ finish_callback-issue server draws pending info mid issued' in
      (ap (λ (x : Result Response × Db). x.0) whole, rw whole redeemed')
