-- ===== src/AuthServer/Codes.antt =====
-- auth/auth/auth_server/codes.py: one-shot authorization codes and pending upstream sign-ins.
-- `now` is the clock's answer; codes and states that the source draws are arguments.
pub mod Pending
pub mod Single
pub mod Lifecycle
use bond_mcps.Prelude.{
  ℕ, ◌+◌, ◌-◌, String, Bool, true, false, not, Option, none, some, ◌==◌, ltb, if◌then◌else◌,
  is_some,
}
use bond_mcps.Db.{
  Instant, Bytes, seconds, minutes, Db, OAuthPendingAuth, OAuthAuthCode, get, put, delete_where,
  Result, ok, err, Exception, AuthCodeError, Exec, pure, raise, lift, gets, with_session, ◌>>=◌,
  ◌>>◌, modify, raise_if, add_row,
}
use bond_mcps.Encryption.{Crypto, Resolver, encrypt, decrypt}
use bond_mcps.AuthServer.Secrets.{sha256_b64u, verify_pkce_s256}

abbrev pub auth_code_ttl_seconds : ℕ
auth_code_ttl_seconds = 60

abbrev pub pending_auth_ttl_seconds : ℕ
pending_auth_ttl_seconds = 600

-- The text of each exception, `str(exc)`.
unfoldable pub message : AuthCodeError → String
message AuthCodeError.unknown_state = "Unknown or already-consumed authorize state."
message AuthCodeError.state_expired = "Authorize state expired; restart sign-in."
message AuthCodeError.unknown_code = "Unknown authorization code."
message AuthCodeError.code_used = "Authorization code already used."
message AuthCodeError.code_expired = "Authorization code expired."
message AuthCodeError.client_mismatch = "client_id does not match authorization code."
message AuthCodeError.redirect_mismatch = "redirect_uri does not match authorization code."
message AuthCodeError.unsupported_method = "Unsupported code_challenge_method."
message AuthCodeError.pkce_failed = "PKCE verification failed."
message AuthCodeError.refresh_expired = "Refresh token expired; sign in again."
message AuthCodeError.refresh_client_mismatch = "Refresh token was issued to a different client."
message AuthCodeError.refresh_unknown = "Unknown refresh token."
message AuthCodeError.refresh_revoked = "Refresh token has been revoked."

-- The tag `reason` of each exception.
unfoldable pub reason : AuthCodeError → Option String
reason AuthCodeError.refresh_expired = some "expired"
reason AuthCodeError.refresh_client_mismatch = some "client_mismatch"
reason AuthCodeError.refresh_unknown = some "unknown"
reason AuthCodeError.refresh_revoked = some "revoked"
reason _ = none

-- The request that `store_pending_auth` keeps.
pub record PendingRequest : Type 0 where
  pub client_id : String
  pub redirect_uri : String
  pub client_state : Option String
  pub code_challenge : String
  pub code_challenge_method : String
  pub resource : Option String
  pub scope : Option String

pub record PendingAuth : Type 0 where
  pub bond_state : String
  pub request : PendingRequest
  pub open request use *
  pub upstream_code_verifier : String

unfoldable pub sweep_pending_auth : Instant → Db → Db
sweep_pending_auth now db = record db {
  pending = delete_where (λ _ row. ltb row.expires_at now) db.pending;
}

-- `verifier` is the field `upstream_code_verifier` of the columns.
abbrev pub pending_user : String
pending_user = "__pending__"

abbrev pub pending_provider : String
pending_provider = "oauth_as"

abbrev pub pending_field : String
pending_field = "upstream_code_verifier"

abbrev pub pending_row : PendingRequest → Bytes → ℕ → Instant → OAuthPendingAuth
pending_row q blob version now = record {
  client_id = q.client_id;
  redirect_uri = q.redirect_uri;
  client_state = q.client_state;
  code_challenge = q.code_challenge;
  code_challenge_method = q.code_challenge_method;
  resource = q.resource;
  scope = q.scope;
  upstream_code_verifier_encrypted = blob;
  key_version = version;
  expires_at = now + seconds pending_auth_ttl_seconds;
}

abbrev pub request_of : OAuthPendingAuth → PendingRequest
request_of row = record {
  client_id = row.client_id;
  redirect_uri = row.redirect_uri;
  client_state = row.client_state;
  code_challenge = row.code_challenge;
  code_challenge_method = row.code_challenge_method;
  resource = row.resource;
  scope = row.scope;
}

-- `blob.decode("utf-8")`
abbrev pub decoded : Option String → Result String
decoded none = err Exception.unicode_error
decoded (some s) = ok s

module _ (c : Crypto) (r : Resolver) where
  -- `bond_state` is the drawn state and `nonce` the one of the AEAD.
  unfoldable pub store_pending_auth :
      Instant → String → Bytes → PendingRequest → String → Exec String
  unfolding sweep_pending_auth
  store_pending_auth now bond_state nonce q upstream_code_verifier = do
    sealed ← lift (
        encrypt c r nonce pending_user pending_provider pending_field
          (c.encode upstream_code_verifier))
    with_session do
      modify (sweep_pending_auth now)
      add_row (λ db. db.pending) (λ t db. record db { pending = t }) bond_state
          (pending_row q sealed.0 sealed.1 now)
    pure bond_state

  -- What follows the `DELETE ... RETURNING` of one row.
  abbrev claim_pending : Instant → String → OAuthPendingAuth → Exec PendingAuth
  claim_pending now bond_state row = do
    raise_if (ltb row.expires_at now) (Exception.auth_code AuthCodeError.state_expired)
    plaintext ← lift (
        decrypt c r pending_user pending_provider pending_field row.key_version
          row.upstream_code_verifier_encrypted)
    verifier ← lift (decoded (c.decode plaintext))
    pure (record {
      bond_state = bond_state;
      request = request_of row;
      upstream_code_verifier = verifier;
    })

  abbrev claim_returned : Instant → String → Option OAuthPendingAuth → Exec PendingAuth
  claim_returned now bond_state none = raise (Exception.auth_code AuthCodeError.unknown_state)
  claim_returned now bond_state (some row) = claim_pending now bond_state row

  unfoldable pub consume_pending_auth : Instant → String → Exec PendingAuth
  consume_pending_auth now bond_state = with_session do
    returned ← gets (λ db. get db.pending bond_state)
    modify (λ db. record db { pending = delete_where (λ k _. k == bond_state) db.pending })
    claim_returned now bond_state returned

pub record IssuedAuthCode : Type 0 where
  pub client_id : String
  pub user_key : String
  pub email : Option String
  pub redirect_uri : String
  pub resource : Option String
  pub scope : Option String

unfoldable pub sweep_auth_codes : Instant → Db → Db
sweep_auth_codes now db = record db {
  codes = delete_where (λ _ row. ltb row.expires_at (now - minutes 10)) db.codes;
}

-- The keyword arguments of `issue_auth_code` that bind the code to a challenge.
pub record CodeRequest : Type 0 where
  pub bindings : IssuedAuthCode
  pub open bindings use *
  pub code_challenge : String
  pub code_challenge_method : String

abbrev pub code_row : CodeRequest → Instant → OAuthAuthCode
code_row q now = record {
  client_id = q.client_id;
  user_key = q.user_key;
  email = q.email;
  code_challenge = q.code_challenge;
  code_challenge_method = q.code_challenge_method;
  redirect_uri = q.redirect_uri;
  resource = q.resource;
  scope = q.scope;
  used_at = none;
  expires_at = now + seconds auth_code_ttl_seconds;
}

abbrev pub issued_of : OAuthAuthCode → IssuedAuthCode
issued_of row = record {
  client_id = row.client_id;
  user_key = row.user_key;
  email = row.email;
  redirect_uri = row.redirect_uri;
  resource = row.resource;
  scope = row.scope;
}

-- `UPDATE ... SET used_at = now WHERE code_hash = ... AND used_at IS NULL`, on the row that the key
-- names; the answer is whether a row matched.
abbrev pub mark_used : Instant → String → Exec Bool
mark_used now code_hash db = elim (get db.codes code_hash) [
  | none ↦ (ok false, db)
  | some row ↦ if is_some row.used_at then (ok false, db) else (
    ok true,
    record db { codes = put code_hash (record row { used_at = some now }) db.codes },
  )
]

module _ (c : Crypto) where
  unfoldable pub issue_auth_code : Instant → String → CodeRequest → Exec String
  unfolding sweep_auth_codes
  issue_auth_code now code q = do
    code_hash ← lift (sha256_b64u c code)
    with_session do
      modify (sweep_auth_codes now)
      add_row (λ db. db.codes) (λ t db. record db { codes = t }) code_hash (code_row q now)
    pure code

  -- The checks on a row that has just been marked used.
  unfoldable pub redeem : Instant → String → String → String → OAuthAuthCode → Exec IssuedAuthCode
  redeem now client_id redirect_uri code_verifier row = do
    raise_if (ltb row.expires_at now) (Exception.auth_code AuthCodeError.code_expired)
    raise_if (not (row.client_id == client_id)) (Exception.auth_code AuthCodeError.client_mismatch)
    raise_if (not (row.redirect_uri == redirect_uri))
        (Exception.auth_code AuthCodeError.redirect_mismatch)
    raise_if (not (row.code_challenge_method == "S256"))
        (Exception.auth_code AuthCodeError.unsupported_method)
    verified ← lift (verify_pkce_s256 c code_verifier row.code_challenge)
    raise_if (not verified) (Exception.auth_code AuthCodeError.pkce_failed)
    pure (issued_of row)

  -- What follows the update: `row` is read after it.
  abbrev redeem_marked :
      Instant → String → String → String → Bool → Option OAuthAuthCode → Exec IssuedAuthCode
  redeem_marked now client_id redirect_uri code_verifier true (some row) =
      redeem now client_id redirect_uri code_verifier row
  redeem_marked now client_id redirect_uri code_verifier true none = raise Exception.type_error
  redeem_marked now client_id redirect_uri code_verifier false (some row) =
      raise (Exception.auth_code AuthCodeError.code_used)
  redeem_marked now client_id redirect_uri code_verifier false none =
      raise (Exception.auth_code AuthCodeError.unknown_code)

  unfoldable pub consume_auth_code :
      Instant → String → String → String → String → Exec IssuedAuthCode
  consume_auth_code now code client_id redirect_uri code_verifier = do
    code_hash ← lift (sha256_b64u c code)
    with_session do
      updated ← mark_used now code_hash
      existing ← gets (λ db. get db.codes code_hash)
      redeem_marked now client_id redirect_uri code_verifier updated existing
