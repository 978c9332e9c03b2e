-- ===== src/AuthServer/Refresh.antt =====
-- The refresh tokens of auth/auth/auth_server/codes.py: issue, rotation with the grace for a lost
-- response, the sweep, and `revoke-tokens` of auth/auth/cli.py. `grace_raw` is the environment's
-- BOND_MCPS_AS_REFRESH_GRACE_SECONDS; drawn tokens are arguments.
pub mod Rotation
pub mod Grace
pub mod Invariant
pub mod Revocation
use bond_mcps.Prelude.{
  ℕ, ◌+◌, ◌-◌, String, Bool, true, false, not, Option, none, some, ◌==◌, ltb, leb, if◌then◌else◌,
  is_some, or_text, strip, ◌&&◌,
}
use bond_mcps.Prelude.Int.{pos, negsuc, int_of}
use bond_mcps.Db.{
  Instant, seconds, days, Db, OAuthRefreshToken, get, put, delete_where, update_where, Exception,
  AuthCodeError, ok, Exec, pure, raise, lift, gets, with_session, ◌>>=◌, ◌>>◌, modify, raise_if,
  add_row,
}
use bond_mcps.Encryption.{Crypto}
use bond_mcps.AuthServer.Secrets.{sha256_b64u}

abbrev pub refresh_token_ttl_seconds : ℕ
refresh_token_ttl_seconds = 2592000

abbrev pub default_refresh_grace_seconds : ℕ
default_refresh_grace_seconds = 604800

unfoldable pub refresh_grace_seconds : Option String → ℕ
refresh_grace_seconds grace_raw =
    let raw = strip (or_text grace_raw "") in
    if raw == "" then default_refresh_grace_seconds else elim (int_of raw) [
      | none ↦ default_refresh_grace_seconds
      | some (negsuc n) ↦ default_refresh_grace_seconds
      | some (pos value) ↦
          if ltb refresh_token_ttl_seconds value then refresh_token_ttl_seconds else value
    ]

pub record RotatedRefreshToken : Type 0 where
  pub client_id : String
  pub user_key : String
  pub resource : Option String
  pub scope : Option String
  pub refresh_token : String

-- What a token is issued for.
pub record Bindings : Type 0 where
  pub client_id : String
  pub user_key : String
  pub resource : Option String
  pub scope : Option String

abbrev pub bindings_of : OAuthRefreshToken → Bindings
bindings_of row = record {
  client_id = row.client_id;
  user_key = row.user_key;
  resource = row.resource;
  scope = row.scope;
}

-- The row of a token that is issued now.
abbrev pub live_row : Bindings → Instant → OAuthRefreshToken
live_row b now = record {
  client_id = b.client_id;
  user_key = b.user_key;
  resource = b.resource;
  scope = b.scope;
  revoked_at = none;
  replaced_by_hash = none;
  expires_at = now + seconds refresh_token_ttl_seconds;
  created_at = now;
}

unfoldable pub sweep_refresh_tokens : Instant → Db → Db
sweep_refresh_tokens now db = record db {
  refresh = delete_where (λ _ row. ltb row.expires_at (now - days 7)) db.refresh;
}

-- `UPDATE ... SET revoked_at = now WHERE token_hash = ... AND revoked_at IS NULL`; the answer is
-- whether a row matched.
unfoldable pub revoke_live : Instant → String → Exec Bool
revoke_live now token_hash db = elim (get db.refresh token_hash) [
  | none ↦ (ok false, db)
  | some row ↦ if is_some row.revoked_at then (ok false, db) else (
    ok true,
    record db { refresh = put token_hash (record row { revoked_at = some now }) db.refresh },
  )
]

-- `if value is None: raise e`
abbrev pub or_raise : {A : Type 0} → Option A → Exception → Exec A
or_raise none e = raise e
or_raise (some a) e = pure a

abbrev pub revoked : Exception
revoked = Exception.auth_code AuthCodeError.refresh_revoked

-- The checks on the bindings of the presented row, on either path.
abbrev pub check_bindings : Instant → String → OAuthRefreshToken → Exec (Unit {0})
check_bindings now client_id row = do
  raise_if (ltb row.expires_at now) (Exception.auth_code AuthCodeError.refresh_expired)
  raise_if (not (row.client_id == client_id))
      (Exception.auth_code AuthCodeError.refresh_client_mismatch)

-- The presented token was revoked before: it is honoured if its successor was never used.
unfoldable pub present_revoked : ℕ → Instant → String → OAuthRefreshToken → Exec (Unit {0})
unfolding revoke_live
present_revoked grace now client_id row = do
  raise_if (leb grace 0) revoked
  successor ← or_raise row.replaced_by_hash revoked
  revoked_at ← or_raise row.revoked_at revoked
  raise_if (ltb (seconds grace) (now - revoked_at)) revoked
  check_bindings now client_id row
  retired ← revoke_live now successor
  raise_if (not retired) revoked

-- The branches after the atomic revoke, up to the mint; `row` is read after the revoke.
unfoldable pub admit :
    ℕ → Instant → String → Bool → Option OAuthRefreshToken → Exec OAuthRefreshToken
unfolding present_revoked
admit grace now client_id true (some row) = do check_bindings now client_id row; pure row
admit grace now client_id true none = raise Exception.type_error
admit grace now client_id false (some row) = do present_revoked grace now client_id row; pure row
admit grace now client_id false none = raise (Exception.auth_code AuthCodeError.refresh_unknown)

module _ (c : Crypto) where
  unfoldable pub issue_refresh_token : Instant → String → Bindings → Exec String
  unfolding sweep_refresh_tokens
  issue_refresh_token now token b = do
    token_hash ← lift (sha256_b64u c token)
    with_session do
      modify (sweep_refresh_tokens now)
      add_row (λ db. db.refresh) (λ t db. record db { refresh = t }) token_hash (live_row b now)
    pure token

  -- The successor is minted, and the presented row names it.
  unfoldable pub mint : Instant → String → String → OAuthRefreshToken → Exec RotatedRefreshToken
  unfolding sweep_refresh_tokens
  mint now new_token token_hash row = do
    new_hash ← lift (sha256_b64u c new_token)
    modify (sweep_refresh_tokens now)
    add_row (λ db. db.refresh) (λ t db. record db { refresh = t }) new_hash
        (live_row (bindings_of row) now)
    modify λ db. record db {
      refresh = put token_hash (record row { replaced_by_hash = some new_hash }) db.refresh;
    }
    pure (record {
      client_id = row.client_id;
      user_key = row.user_key;
      resource = row.resource;
      scope = row.scope;
      refresh_token = new_token;
    })

  unfoldable pub rotate_refresh_token :
      Option String → Instant → String → String → String → Exec RotatedRefreshToken
  unfolding revoke_live admit mint
  rotate_refresh_token grace_raw now new_token refresh_token client_id = do
    token_hash ← lift (sha256_b64u c refresh_token)
    with_session do
      updated ← revoke_live now token_hash
      row ← gets (λ db. get db.refresh token_hash)
      admitted ← admit (refresh_grace_seconds grace_raw) now client_id updated row
      mint now new_token token_hash admitted

-- `bond-mcps revoke-tokens --user-key`: every live token of the user is revoked.
unfoldable pub cmd_revoke_tokens : Instant → String → Db → Db
cmd_revoke_tokens now user_key db = record db {
  refresh =
      update_where (λ _ row. row.user_key == user_key && not (is_some row.revoked_at))
        (λ row. record row { revoked_at = some now }) db.refresh;
}
