-- ===== src/Db/Rows.antt =====
-- The rows of auth/auth/db/models.py. The primary key is the table's key; instants are microseconds
-- since the epoch, in UTC. `created_at` stands where some query reads it.
use bond_mcps.Prelude.{ℕ, ◌*◌, String, Bool, Option, List}
use bond_mcps.Db.Tables.{Table}

abbrev pub Instant : Type 0
Instant = ℕ

abbrev pub Bytes : Type 0
Bytes = List ℕ

-- `timedelta(seconds=n)`
abbrev pub seconds : ℕ → ℕ
seconds n = n * 1000000

-- `timedelta(minutes=n)`
abbrev pub minutes : ℕ → ℕ
minutes n = n * 60000000

-- `timedelta(days=n)`
abbrev pub days : ℕ → ℕ
days n = n * 86400000000

pub record OAuthClient : Type 0 where
  pub client_name : Option String
  pub redirect_uris : List String
  pub token_endpoint_auth_method : String
  pub grant_types : List String
  pub response_types : List String
  pub scope : Option String
  pub is_static : Bool
  pub created_at : Instant

pub record OAuthPendingAuth : Type 0 where
  pub client_id : String
  pub redirect_uri : String
  pub client_state : Option String
  pub code_challenge : String
  pub code_challenge_method : String
  pub resource : Option String
  pub scope : Option String
  pub upstream_code_verifier_encrypted : Bytes
  pub key_version : ℕ
  pub expires_at : Instant

pub record OAuthAuthCode : Type 0 where
  pub client_id : String
  pub user_key : String
  pub email : Option String
  pub code_challenge : String
  pub code_challenge_method : String
  pub redirect_uri : String
  pub resource : Option String
  pub scope : Option String
  pub used_at : Option Instant
  pub expires_at : Instant

pub record OAuthRefreshToken : Type 0 where
  pub client_id : String
  pub user_key : String
  pub resource : Option String
  pub scope : Option String
  pub revoked_at : Option Instant
  pub replaced_by_hash : Option String
  pub expires_at : Instant
  pub created_at : Instant

pub record ConnectTicket : Type 0 where
  pub user_key : String
  pub provider : String
  pub used_at : Option Instant
  pub expires_at : Instant

pub record Db : Type 0 where
  pub clients : Table OAuthClient
  pub pending : Table OAuthPendingAuth
  pub codes : Table OAuthAuthCode
  pub refresh : Table OAuthRefreshToken
  pub tickets : Table ConnectTicket
  -- `_STATICS_SEEDED` of auth/auth/auth_server/clients.py, a global of the process
  pub statics_seeded : Bool
