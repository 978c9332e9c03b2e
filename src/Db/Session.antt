-- ===== src/Db/Session.antt =====
-- `get_session` of auth/auth/db/session.py: a block commits on exit, and an exception rolls its
-- writes back. The exceptions are those that the modelled code raises or catches.
use bond_mcps.Prelude.{String, Bool, if◌then◌else◌, is_some, ◌≡◌, refl, ◌⊎◌, inl, inr, arith}
use bond_mcps.Db.Tables.{Table, get, put}
use bond_mcps.Db.Rows.{Db}

-- One constructor for each `raise AuthCodeError(...)`.
pub data AuthCodeError : Type 0 where
  unknown_state state_expired : AuthCodeError
  unknown_code code_used code_expired client_mismatch redirect_mismatch : AuthCodeError
  unsupported_method pkce_failed : AuthCodeError
  refresh_expired refresh_client_mismatch refresh_unknown refresh_revoked : AuthCodeError

pub data TicketError : Type 0 where
  unknown_ticket ticket_used ticket_expired provider_mismatch : TicketError

pub data RegistrationError : Type 0 where
  uris_missing malformed has_query has_userinfo not_loopback bad_scheme : RegistrationError
  hosts_unset host_refused no_client_id no_redirect_uris collision : RegistrationError

pub data EncryptionError : Type 0 where
  unknown_version key_missing key_not_base64 key_length blob_too_short : EncryptionError
  authentication_failed version_missing sentinel_mismatch : EncryptionError

pub data Exception : Type 0 where
  auth_code : AuthCodeError → Exception
  ticket : TicketError → Exception
  registration : RegistrationError → Exception
  encryption : EncryptionError → Exception
  -- sqlalchemy's IntegrityError, Python's UnicodeError, TypeError, ValueError and RuntimeError
  integrity unicode_error type_error value_error runtime_error : Exception

pub data Result {ℓ} (A : Type ℓ) : Type ℓ where
  ok : A → Result A
  err : Exception → Result A

-- A method that reads and writes the database and may raise.
abbrev pub Exec : Type 0 → Type 0
Exec A = Db → Result A × Db

module _ {A : Type 0} where
  abbrev pub pure : A → Exec A
  pure a db = (ok a, db)

  abbrev pub raise : Exception → Exec A
  raise e db = (err e, db)

  abbrev pub lift : Result A → Exec A
  lift r db = (r, db)

  abbrev pub gets : (Db → A) → Exec A
  gets f db = (ok (f db), db)

  -- `with get_session() as session: m`
  abbrev pub with_session : Exec A → Exec A
  with_session m db = let (r, db') = m db in elim r [ ok a ↦ (ok a, db') | err e ↦ (err e, db) ]

infixl 5 ◌>>=◌ ◌>>◌
abbrev pub ◌>>=◌ : {A B : Type 0} → Exec A → (A → Exec B) → Exec B
◌>>=◌ m f db = let (r, db') = m db in elim r [ ok a ↦ f a db' | err e ↦ (err e, db') ]

abbrev pub ◌>>◌ : {A B : Type 0} → Exec A → Exec B → Exec B
m >> k = m >>= λ _. k

abbrev pub modify : (Db → Db) → Exec (Unit {0})
modify f db = (ok tt, f db)

-- `if test: raise e`
abbrev pub raise_if : Bool → Exception → Exec (Unit {0})
raise_if c e db = (if c then err e else ok tt, db)

-- `session.add(row)`: the flush refuses a primary key that is taken.
abbrev pub add_row :
    {V : Type 0} → (Db → Table V) → (Table V → Db → Db) → String → V → Exec (Unit {0})
add_row table write k v db =
    if is_some (get (table db) k)
    then (err Exception.integrity, db)
    else (ok tt, write (put k v (table db)) db)

-- A block that raises has written nothing.
pub with_session-err :
    {A : Type 0} (m : Exec A) (db : Db) {e : Exception}
    → (with_session m db).0 ≡ err e
    → (with_session m db).1 ≡ db
with_session-err m db h = ground arith

pub Result-cases {ℓ} :
    {A : Type ℓ} (r : Result A) → ((a : A) × (r ≡ ok a)) ⊎ ((e : Exception) × (r ≡ err e))
Result-cases (ok a) = inl (a, refl)
Result-cases (err e) = inr (e, refl)
