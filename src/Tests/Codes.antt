-- ===== src/Tests/Codes.antt =====
-- Authorization codes, pending sign-ins and connect tickets at concrete inputs.
use bond_mcps.Prelude.{show, ℕ, ◌≡◌, ◌≢◌, refl, none, some, ◌++◌, arith, eq_iff}
use bond_mcps.Db.{
  Db, Bytes, get, put, OAuthAuthCode, ok, err, Exception, AuthCodeError, TicketError,
}
use bond_mcps.Encryption.{encrypt, get_key, load_v1_key, decode_key, aad, aad_text}
use bond_mcps.AuthServer.Secrets.{is_ascii, sha256_b64u}
use bond_mcps.AuthServer.Codes.{
  CodeRequest, code_row, issued_of, PendingRequest, consume_auth_code, store_pending_auth,
  consume_pending_auth,
}
use bond_mcps.AuthServer.Codes.Single.{
  Presented, consume, IsRedeemable, consume_sound, consume_complete,
}
use bond_mcps.AuthServer.Codes.Lifecycle.{issue, Matches, consume-issue, consume_once, here}
use bond_mcps.AuthServer.Codes.Pending.{store, claim, claim-store}
use bond_mcps.Tickets.{mint_ticket, consume_ticket}
use bond_mcps.Tickets.Laws.{consume-mint}
use bond_mcps.Tests.Setup.{crypto, crypto-IsAead, crypto-IsUtf8, resolver, nonce, no_rows}

abbrev pub code_request : CodeRequest
code_request = record {
  bindings = record {
    client_id = "bm-1";
    user_key = "sub-7";
    email = none;
    redirect_uri = "http://localhost:9/cb";
    resource = none;
    scope = some "openid";
  };
  code_challenge = "verifier";
  code_challenge_method = "S256";
}

abbrev pub presented : Presented
presented = record {
  now = 1000;
  code = "code";
  client_id = "bm-1";
  redirect_uri = "http://localhost:9/cb";
  code_verifier = "verifier";
}

abbrev pub with_code : Db
with_code = record no_rows { codes = put "code" (code_row code_request 0) no_rows.codes }

matches : Matches crypto 0 code_request presented
unfolding is_ascii
matches = record {
  in_time = ground arith;
  same_client = refl;
  same_redirect = refl;
  method = refl;
  proof = refl;
  verifier_ascii = refl;
  challenge_ascii = refl;
}

redeemable : IsRedeemable crypto presented (code_row code_request 0)
unfolding is_ascii
redeemable = record {
  unused = refl;
  in_time = ground arith;
  same_client = refl;
  same_redirect = refl;
  method = refl;
  proof = refl;
  code_ascii = refl;
  verifier_ascii = refl;
  challenge_ascii = refl;
}

pub redeemed : (consume crypto presented with_code).0 ≡ ok code_request.bindings
redeemed = consume_complete crypto presented with_code (code_row code_request 0) refl redeemable

consume_sound_example :
    (row : OAuthAuthCode) × (get with_code.codes "code" ≡ some row)
    × IsRedeemable crypto presented row
    × (code_request.bindings ≡ issued_of row)
    × ((consume crypto presented with_code).1 ≡ record with_code {
      codes = put "code" (record row { used_at = some 1000 }) with_code.codes;
    })
consume_sound_example = consume_sound crypto presented with_code redeemed

consume-issue_example :
    ((issue crypto 0 "code" code_request no_rows).0 ≡ ok "code")
    × ((consume crypto presented (issue crypto 0 "code" code_request no_rows).1).0
        ≡ ok code_request.bindings)
unfolding is_ascii
consume-issue_example = consume-issue crypto 0 code_request presented no_rows refl refl matches

consume_once_example :
    (consume crypto presented (consume crypto presented with_code).1).0 ≢ ok code_request.bindings
consume_once_example =
    consume_once crypto presented presented with_code (consume crypto presented with_code).1 refl
      redeemed here

unknown_code :
    (consume crypto presented no_rows).0 ≡ err (Exception.auth_code AuthCodeError.unknown_code)
unfolding consume consume_auth_code sha256_b64u is_ascii
unknown_code = refl

abbrev pub request : PendingRequest
request = record {
  client_id = "bm-1";
  redirect_uri = "http://localhost:9/cb";
  client_state = some "xyz";
  code_challenge = "verifier";
  code_challenge_method = "S256";
  resource = none;
  scope = none;
}

abbrev pub blob : Bytes
blob =
    nonce
    ++ crypto.seal (crypto.encode "0123456789abcdef0123456789abcdef") nonce
        (crypto.encode "upstream") (crypto.encode "__pending__|oauth_as|upstream_code_verifier|v1")

abbrev sealed : Bytes × ℕ
sealed = (blob, 1)

pub sealed_verifier :
    encrypt crypto resolver nonce "__pending__" "oauth_as" "upstream_code_verifier"
      (crypto.encode "upstream")
    ≡ ok (blob, 1)
unfolding encrypt get_key load_v1_key decode_key aad aad_text show
sealed_verifier = refl

pub claimed :
    (claim crypto resolver 1000 "state"
      (store crypto resolver 0 "state" nonce request "upstream" no_rows).1).0
    ≡ ok (record { bond_state = "state"; request = request; upstream_code_verifier = "upstream" })
claimed =
    claim-store crypto resolver 0 1000 "state" nonce request "upstream" no_rows {sealed = sealed}
      crypto-IsAead crypto-IsUtf8 refl sealed_verifier refl (omega arith)

claim-store_example :
    (claim crypto resolver 1000 "state"
      (store crypto resolver 0 "state" nonce request "upstream" no_rows).1).0
    ≡ ok (record { bond_state = "state"; request = request; upstream_code_verifier = "upstream" })
claim-store_example =
    claim-store crypto resolver 0 1000 "state" nonce request "upstream" no_rows {sealed = sealed}
      crypto-IsAead crypto-IsUtf8 refl sealed_verifier refl (omega arith)

expired_state :
    (claim crypto resolver 600000001 "state"
      (store crypto resolver 0 "state" nonce request "upstream" no_rows).1).0
    ≡ err (Exception.auth_code AuthCodeError.state_expired)
unfolding claim store store_pending_auth consume_pending_auth
expired_state = ground (arith, sealed_verifier)

consume-mint_example :
    let minted = (mint_ticket crypto 0 "ticket" "sub-7" "github" no_rows).1 in
    ((consume_ticket crypto 1000 "ticket" "github" minted).0
      ≡ ok (record { user_key = "sub-7"; provider = "github" }))
    × ((consume_ticket crypto 2000 "ticket" "github"
          (consume_ticket crypto 1000 "ticket" "github" minted).1).0
        ≡ err (Exception.ticket TicketError.ticket_used))
    × (consume_ticket crypto 1000 "ticket" "atlassian" minted
        ≡ (err (Exception.ticket TicketError.provider_mismatch), minted))
unfolding is_ascii
consume-mint_example =
    consume-mint crypto 0 1000 2000 "ticket" "sub-7" "github" "atlassian" no_rows refl refl
      (omega arith) (λ e. ground (arith, eq_iff "atlassian" "github"))

unknown_ticket :
    (consume_ticket crypto 0 "ticket" "github" no_rows).0
    ≡ err (Exception.ticket TicketError.unknown_ticket)
unfolding consume_ticket sha256_b64u is_ascii
unknown_ticket = refl
