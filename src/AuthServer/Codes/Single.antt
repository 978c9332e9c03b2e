-- ===== src/AuthServer/Codes/Single.antt =====
-- `consume_auth_code`: when it succeeds, what it returns and writes, and what a refusal leaves.
use bond_mcps.Prelude.{
  ◌≤◌, String, ◌≡◌, true, none, some, arith, eq_iff, eq_refl, inl, inr, Option-cases,
}
use bond_mcps.Db.{Instant, Db, OAuthAuthCode, get, put, Result, ok, err, Exception}
use bond_mcps.Encryption.{Crypto}
use bond_mcps.AuthServer.Secrets.{is_ascii, sha256_b64u, verify_pkce_s256}
use bond_mcps.AuthServer.Codes.{IssuedAuthCode, issued_of, redeem, consume_auth_code}

-- What `/oauth/token` presents for a code.
pub record Presented : Type 0 where
  pub now : Instant
  pub code : String
  pub client_id : String
  pub redirect_uri : String
  pub code_verifier : String

module _ (c : Crypto) where
  unfoldable pub consume : Presented → Db → Result IssuedAuthCode × Db
  consume p = consume_auth_code c p.now p.code p.client_id p.redirect_uri p.code_verifier

  -- The row behind a presented code may be redeemed: it is unused and in time, and was made for this
  -- client and redirect URI, and the verifier hashes to its challenge.
  pub record IsRedeemable (p : Presented) (row : OAuthAuthCode) : Type 0 where
    pub unused : row.used_at ≡ none
    pub in_time : p.now ≤ row.expires_at
    pub same_client : row.client_id ≡ p.client_id
    pub same_redirect : row.redirect_uri ≡ p.redirect_uri
    pub method : row.code_challenge_method ≡ "S256"
    pub proof : row.code_challenge ≡ c.digest p.code_verifier
    pub code_ascii : is_ascii p.code ≡ true
    pub verifier_ascii : is_ascii p.code_verifier ≡ true
    pub challenge_ascii : is_ascii row.code_challenge ≡ true

  -- The checks that a row passed, before it was marked used.
  checked :
      (p : Presented) (db : Db) (row : OAuthAuthCode) {b : IssuedAuthCode}
      → get db.codes (c.digest p.code) ≡ some row
      → (consume p db).0 ≡ ok b
      → IsRedeemable p row
  unfolding consume consume_auth_code redeem sha256_b64u verify_pkce_s256
  checked p db row found h = ground (
    arith,
    eq_iff row.client_id p.client_id,
    eq_iff row.redirect_uri p.redirect_uri,
    eq_iff row.code_challenge_method "S256",
    eq_iff (c.digest p.code_verifier) row.code_challenge,
    eq_refl (c.digest p.code),
  )

  unknown_refused :
      (p : Presented) (db : Db) {b : IssuedAuthCode}
      → get db.codes (c.digest p.code) ≡ none
      → (consume p db).0 ≡ ok b
      → ⊥
  unfolding consume consume_auth_code sha256_b64u
  unknown_refused p db missing h = ground arith

  marked :
      (p : Presented) (db : Db) (row : OAuthAuthCode) {b : IssuedAuthCode}
      → get db.codes (c.digest p.code) ≡ some row
      → (consume p db).0 ≡ ok b
      → (b ≡ issued_of row)
        × ((consume p db).1 ≡ record db {
          codes = put (c.digest p.code) (record row { used_at = some p.now }) db.codes;
        })
  unfolding consume consume_auth_code redeem sha256_b64u verify_pkce_s256
  marked p db row found h = ground (arith, eq_refl (c.digest p.code))

  -- A successful redemption returns the bindings of a row that may be redeemed, and marks that row
  -- used now.
  pub consume_sound :
      (p : Presented) (db : Db) {b : IssuedAuthCode}
      → (consume p db).0 ≡ ok b
      → (row : OAuthAuthCode) × (get db.codes (c.digest p.code) ≡ some row)
        × IsRedeemable p row
        × (b ≡ issued_of row)
        × ((consume p db).1 ≡ record db {
          codes = put (c.digest p.code) (record row { used_at = some p.now }) db.codes;
        })
  consume_sound p db h = elim (Option-cases (get db.codes (c.digest p.code))) [
    | inl missing ↦ absurd (unknown_refused p db missing h)
    | inr (row, found) ↦
        let (bindings, written) = marked p db row found h in
        (row, found, checked p db row found h, bindings, written)
  ]

  -- A row that may be redeemed is redeemed.
  pub consume_complete :
      (p : Presented) (db : Db) (row : OAuthAuthCode)
      → get db.codes (c.digest p.code) ≡ some row
      → IsRedeemable p row
      → (consume p db).0 ≡ ok (issued_of row)
  unfolding consume consume_auth_code redeem sha256_b64u verify_pkce_s256
  consume_complete p db row found ready = ground (
    arith,
    eq_iff row.client_id p.client_id,
    eq_iff row.redirect_uri p.redirect_uri,
    eq_iff row.code_challenge_method "S256",
    eq_iff (c.digest p.code_verifier) row.code_challenge,
    eq_refl (c.digest p.code),
  )

  -- A refused redemption, whatever the reason, changes nothing: the code is not burnt.
  pub consume_refused :
      (p : Presented) (db : Db) {e : Exception} → (consume p db).0 ≡ err e → (consume p db).1 ≡ db
  unfolding consume consume_auth_code sha256_b64u
  consume_refused p db h = ground arith
