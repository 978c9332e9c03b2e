-- ===== src/Tests/SignIn.antt =====
-- The way back from the upstream IdP at a concrete input.
use bond_mcps.Prelude.{◌≡◌, refl, none, some, [], ◌∷◌, arith}
use bond_mcps.Db.{Db, ok, get}
use bond_mcps.AuthServer.Secrets.{is_ascii}
use bond_mcps.AuthServer.Codes.{PendingAuth, store_pending_auth}
use bond_mcps.AuthServer.Codes.Single.{Presented, consume}
use bond_mcps.AuthServer.Codes.Lifecycle.{Matches}
use bond_mcps.AuthServer.Codes.Pending.{store}
use bond_mcps.AuthServer.Tokens.{Server, UpstreamIdp, UpstreamUserInfo, user, redirect}
use bond_mcps.AuthServer.Endpoints.{
  CallbackQuery, code_request_of, oauth_upstream_callback, redirect_with_params,
}
use bond_mcps.AuthServer.Endpoints.SignIn.{oauth_upstream_callback-consume}
use bond_mcps.Tests.Setup.{crypto, resolver, nonce, no_rows}
use bond_mcps.Tests.Codes.{request, sealed_verifier, claimed}
use bond_mcps.Tests.Server.{server, draws}

abbrev ann : UpstreamUserInfo
ann = record { sub = "sub-7"; email = some "ann@example.com" }

abbrev idp : UpstreamIdp
idp = record {
  authorize_url = λ state challenge method. "https://idp.example/authorize";
  exchange_code = λ code verifier. user ann;
}

abbrev signing : Server
signing = record server { upstream = some idp }

abbrev query : CallbackQuery
query = record {
  state = some "state";
  code = some "upstream-code";
  error = none;
  error_description = none;
}

abbrev pending : PendingAuth
pending = record { bond_state = "state"; request = request; upstream_code_verifier = "upstream" }

abbrev stored : Db
stored = (store crypto resolver 0 "state" nonce request "upstream" no_rows).1

abbrev presented : Presented
presented = record {
  now = 2000;
  code = "drawn";
  client_id = "bm-1";
  redirect_uri = "http://localhost:9/cb";
  code_verifier = "verifier";
}

new_code : get stored.codes "drawn" ≡ none
unfolding store store_pending_auth
new_code = ground (arith, sealed_verifier)

matches : Matches crypto 1000 (code_request_of pending ann) presented
unfolding is_ascii
matches = record {
  in_time = ground arith;
  same_client = refl;
  same_redirect = refl;
  method = refl;
  proof = refl;
  verifier_ascii = refl;
  challenge_ascii = refl;
}

oauth_upstream_callback-consume_example :
    let after = oauth_upstream_callback signing draws query stored in
    (after.0
      ≡ ok (
          redirect (
            redirect_with_params signing "http://localhost:9/cb"
              (("code", "drawn") ∷ ("state", "xyz") ∷ []))))
    × ((consume crypto presented after.1).0
        ≡ ok (record {
          client_id = "bm-1";
          user_key = "sub-7";
          email = some "ann@example.com";
          redirect_uri = "http://localhost:9/cb";
          resource = none;
          scope = none;
        }))
unfolding is_ascii
oauth_upstream_callback-consume_example =
    oauth_upstream_callback-consume signing draws query idp ann pending "upstream-code" refl refl
      refl refl "state" presented stored refl claimed refl new_code refl matches
