-- ===== src/AuthServer/Codes/Pending.antt =====
-- The pending upstream sign-in of codes.py: `store_pending_auth` and `consume_pending_auth` together.
use bond_mcps.Prelude.{
  ℕ, ◌+◌, ◌≤◌, String, ◌≡◌, ◌∙◌, none, some, arith, ◌==◌, eq_refl, length, if◌then◌else◌,
}
use bond_mcps.Db.{
  Instant, Bytes, seconds, Db, OAuthPendingAuth, get, Result, ok, err, Exception, AuthCodeError,
}
use bond_mcps.Encryption.{Crypto, Resolver, nonce_bytes, encrypt, decrypt}
use bond_mcps.Encryption.Laws.{IsAead, IsUtf8, decrypt-encrypt}
use bond_mcps.AuthServer.Codes.{
  PendingRequest, PendingAuth, pending_row, request_of, pending_auth_ttl_seconds,
  store_pending_auth, consume_pending_auth, pending_user, pending_provider, pending_field,
}

module _ (c : Crypto) (r : Resolver) where
  unfoldable pub store :
      Instant → String → Bytes → PendingRequest → String → Db → Result String × Db
  store = store_pending_auth c r

  unfoldable pub claim : Instant → String → Db → Result PendingAuth × Db
  claim = consume_pending_auth c r

  -- A stored request under a fresh state is a row with the sealed verifier.
  store-row :
      (now : Instant) (state : String) (nonce : Bytes) (q : PendingRequest) (verifier : String)
      (db : Db) {blob : Bytes} {version : ℕ}
      → encrypt c r nonce pending_user pending_provider pending_field (c.encode verifier)
        ≡ ok (blob, version)
      → get db.pending state ≡ none
      → ((store now state nonce q verifier db).0 ≡ ok state)
        × (get (store now state nonce q verifier db).1.pending state
            ≡ some (pending_row q blob version now))
  unfolding store store_pending_auth
  store-row now state nonce q verifier db sealed fresh = ground (arith, eq_refl state)

  claim-row :
      (now : Instant) (state : String) (db : Db) (row : OAuthPendingAuth) (plaintext : Bytes)
      (verifier : String)
      → get db.pending state ≡ some row
      → now ≤ row.expires_at
      → decrypt c r pending_user pending_provider pending_field row.key_version
          row.upstream_code_verifier_encrypted
        ≡ ok plaintext
      → c.decode plaintext ≡ some verifier
      → (claim now state db).0
        ≡ ok (record {
          bond_state = state;
          request = request_of row;
          upstream_code_verifier = verifier;
        })
  unfolding claim consume_pending_auth
  claim-row now state db row plaintext verifier found in_time opened text = ground (arith)

  -- What was stored under a fresh state is claimed by that state for ten minutes: the request as it
  -- came, and the upstream verifier as it was before encryption, if the key can be read.
  pub claim-store :
      (now later : Instant) (state : String) (nonce : Bytes) (q : PendingRequest)
      (verifier : String) (db : Db) {sealed : Bytes × ℕ}
      → IsAead c
      → IsUtf8 c
      → length nonce ≡ nonce_bytes
      → encrypt c r nonce pending_user pending_provider pending_field (c.encode verifier)
        ≡ ok sealed
      → get db.pending state ≡ none
      → later ≤ now + seconds pending_auth_ttl_seconds
      → (claim later state (store now state nonce q verifier db).1).0
        ≡ ok (record { bond_state = state; request = q; upstream_code_verifier = verifier })
  claim-store now later state nonce q verifier db {sealed = (blob, version)} aead utf size made
        fresh in_time =
      let (_, stored) = store-row now state nonce q verifier db made fresh in
      claim-row later state (store now state nonce q verifier db).1 (pending_row q blob version now)
        (c.encode verifier) verifier stored in_time
        (decrypt-encrypt c r nonce pending_user pending_provider pending_field _ aead size made)
        (utf.decodes verifier)

  -- A claim that succeeded has removed the row of its state, and no other.
  pub claim-removes :
      (now : Instant) (state other : String) (db : Db) {a : PendingAuth}
      → (claim now state db).0 ≡ ok a
      → get (claim now state db).1.pending other
        ≡ (if other == state then none else get db.pending other)
  unfolding claim consume_pending_auth
  claim-removes now state other db done = ground arith

  claim_unknown :
      (now : Instant) (state : String) (db : Db)
      → get db.pending state ≡ none
      → (claim now state db).0 ≡ err (Exception.auth_code AuthCodeError.unknown_state)
  unfolding claim consume_pending_auth
  claim_unknown now state db missing = ground arith

  -- A second claim of the same state is refused as unknown.
  pub claim_once :
      (now later : Instant) (state : String) (db : Db) {a : PendingAuth}
      → (claim now state db).0 ≡ ok a
      → (claim later state (claim now state db).1).0
        ≡ err (Exception.auth_code AuthCodeError.unknown_state)
  claim_once now later state db done =
      claim_unknown later state _ (claim-removes now state state db done ∙ rw (eq_refl state))

  -- A refused claim removes nothing: the row of an expired state stays.
  pub claim_refused :
      (now : Instant) (state : String) (db : Db) {e : Exception}
      → (claim now state db).0 ≡ err e
      → (claim now state db).1 ≡ db
  unfolding claim consume_pending_auth
  claim_refused now state db h = ground arith
