-- ===== src/AuthServer/Refresh/Rotation.antt =====
-- What one rotation does: the two ways to succeed, with the table that each leaves, and refusals.
use bond_mcps.Prelude.{
  ◌-◌, ◌≤◌, ◌<◌, String, ◌≡◌, true, Option, none, some, arith, ◌==◌, eq_iff, eq_refl, ltb,
  if◌then◌else◌, inl, inr, ◌⊎◌, Option-cases,
}
use bond_mcps.Db.{Instant, seconds, days, Db, OAuthRefreshToken, get, Result, ok, err, Exception}
use bond_mcps.Encryption.{Crypto}
use bond_mcps.AuthServer.Secrets.{is_ascii, sha256_b64u}
use bond_mcps.AuthServer.Refresh.{
  RotatedRefreshToken, bindings_of, live_row, refresh_grace_seconds, sweep_refresh_tokens,
  rotate_refresh_token,
}

-- What `/oauth/token` presents for a refresh, with the token that the server draws.
pub record Refreshing : Type 0 where
  pub now : Instant
  pub new_token : String
  pub refresh_token : String
  pub client_id : String

-- A row of the table after the sweep.
abbrev pub swept : Instant → Option OAuthRefreshToken → Option OAuthRefreshToken
swept now none = none
swept now (some row) = if ltb row.expires_at (now - days 7) then none else some row

abbrev pub rotated_of : OAuthRefreshToken → String → RotatedRefreshToken
rotated_of row token = record {
  client_id = row.client_id;
  user_key = row.user_key;
  resource = row.resource;
  scope = row.scope;
  refresh_token = token;
}

-- The presented row's bindings admit the presentation.
pub record IsBoundTo (p : Refreshing) (row : OAuthRefreshToken) : Type 0 where
  pub in_time : p.now ≤ row.expires_at
  pub same_client : row.client_id ≡ p.client_id
  pub ascii : is_ascii p.refresh_token ≡ true

-- The drawn token is new to the table.
pub record IsFresh (c : Crypto) (p : Refreshing) (db : Db) : Type 0 where
  pub ascii : is_ascii p.new_token ≡ true
  pub unused : get db.refresh (c.digest p.new_token) ≡ none

module _ (c : Crypto) (grace_raw : Option String) where
  unfoldable pub rotate : Refreshing → Db → Result RotatedRefreshToken × Db
  rotate p = rotate_refresh_token c grace_raw p.now p.new_token p.refresh_token p.client_id

  -- The row was revoked within the grace window, and names a successor that was never used.
  pub record IsGraced (p : Refreshing) (db : Db) (row : OAuthRefreshToken) : Type 0 where
    pub revoked_at : Instant
    pub successor : String
    pub successor_row : OAuthRefreshToken
    pub was_revoked : row.revoked_at ≡ some revoked_at
    pub names : row.replaced_by_hash ≡ some successor
    pub successor_found : get db.refresh successor ≡ some successor_row
    pub successor_live : successor_row.revoked_at ≡ none
    pub enabled : 0 < refresh_grace_seconds grace_raw
    pub within : p.now - revoked_at ≤ seconds (refresh_grace_seconds grace_raw)

  -- A live token of this client that has not expired is rotated: the answer carries its bindings and
  -- the new token; afterwards its row is revoked and names the new one, whose row is live.
  pub rotate_live :
      (p : Refreshing) (db : Db) (row : OAuthRefreshToken)
      → get db.refresh (c.digest p.refresh_token) ≡ some row
      → row.revoked_at ≡ none
      → IsBoundTo p row
      → IsFresh c p db
      → ((rotate p db).0 ≡ ok (rotated_of row p.new_token))
        × ((k : String)
            → get (rotate p db).1.refresh k ≡ (
                if c.digest p.refresh_token == k
                then some (record row {
                  revoked_at = some p.now;
                  replaced_by_hash = some (c.digest p.new_token);
                })
                else if c.digest p.new_token == k
                then some (live_row (bindings_of row) p.now)
                else swept p.now (get db.refresh k)))
  unfolding rotate rotate_refresh_token sweep_refresh_tokens sha256_b64u
  rotate_live p db row found live bound fresh = (
    ground (
      arith,
      eq_iff row.client_id p.client_id,
      eq_refl (c.digest p.refresh_token),
      eq_iff (c.digest p.refresh_token) (c.digest p.new_token),
    ),
    λ k. ground (
      arith,
      eq_iff row.client_id p.client_id,
      eq_refl (c.digest p.refresh_token),
      eq_iff (c.digest p.refresh_token) (c.digest p.new_token),
    ),
  )

  -- A revoked token of this client that is graced is rotated once more: its row keeps the time of its
  -- revocation and names the new token, whose row is live; the unused successor is revoked.
  pub rotate_graced :
      (p : Refreshing) (db : Db) (row : OAuthRefreshToken) (g : IsGraced p db row)
      → get db.refresh (c.digest p.refresh_token) ≡ some row
      → IsBoundTo p row
      → IsFresh c p db
      → ((rotate p db).0 ≡ ok (rotated_of row p.new_token))
        × ((k : String)
            → get (rotate p db).1.refresh k ≡ (
                if c.digest p.refresh_token == k
                then some (record row { replaced_by_hash = some (c.digest p.new_token) })
                else if c.digest p.new_token == k
                then some (live_row (bindings_of row) p.now)
                else if g.successor == k
                then swept p.now (some (record g.successor_row { revoked_at = some p.now }))
                else swept p.now (get db.refresh k)))
  unfolding rotate rotate_refresh_token sweep_refresh_tokens sha256_b64u
  rotate_graced p db row g found bound fresh =
      let h = c.digest p.refresh_token in
      let n = c.digest p.new_token in
      (
        ground (
          arith,
          eq_iff row.client_id p.client_id,
          eq_refl h,
          eq_iff h n,
          eq_iff g.successor n,
          g.was_revoked,
          g.names,
          g.successor_found,
          g.successor_live,
          g.enabled,
          g.within,
        ),
        λ k. ground (
          arith,
          eq_iff row.client_id p.client_id,
          eq_refl h,
          eq_iff h n,
          eq_iff g.successor n,
          g.was_revoked,
          g.names,
          g.successor_found,
          g.successor_live,
          g.enabled,
          g.within,
        ),
      )

  rotate_unknown :
      (p : Refreshing) (db : Db) {t : RotatedRefreshToken}
      → get db.refresh (c.digest p.refresh_token) ≡ none
      → (rotate p db).0 ≡ ok t
      → ⊥
  unfolding rotate rotate_refresh_token sha256_b64u
  rotate_unknown p db missing h = ground arith

  rotate-IsBoundTo :
      (p : Refreshing) (db : Db) (row : OAuthRefreshToken) {t : RotatedRefreshToken}
      → get db.refresh (c.digest p.refresh_token) ≡ some row
      → (rotate p db).0 ≡ ok t
      → IsBoundTo p row
  unfolding rotate rotate_refresh_token sha256_b64u
  rotate-IsBoundTo p db row found h =
      ground (arith, eq_iff row.client_id p.client_id, eq_refl (c.digest p.refresh_token))

  -- A row that is revoked and not graced is refused.
  ungraced_refused :
      (p : Refreshing) (db : Db) (row : OAuthRefreshToken) (at : Instant) {t : RotatedRefreshToken}
      → get db.refresh (c.digest p.refresh_token) ≡ some row
      → row.revoked_at ≡ some at
      → (rotate p db).0 ≡ ok t
      → ((s : String) → row.replaced_by_hash ≡ some s → get db.refresh s ≡ none)
      → ⊥
  unfolding rotate rotate_refresh_token sha256_b64u
  ungraced_refused p db row at found was h missing = elim (Option-cases row.replaced_by_hash) [
    | inl nothing ↦ ground arith
    | inr (s, names) ↦ ground (arith, missing s names)
  ]

  rotate-IsGraced :
      (p : Refreshing) (db : Db) (row successor_row : OAuthRefreshToken) (at : Instant)
      (successor : String) {t : RotatedRefreshToken}
      → get db.refresh (c.digest p.refresh_token) ≡ some row
      → row.revoked_at ≡ some at
      → row.replaced_by_hash ≡ some successor
      → get db.refresh successor ≡ some successor_row
      → (rotate p db).0 ≡ ok t
      → IsGraced p db row
  unfolding rotate rotate_refresh_token sha256_b64u
  rotate-IsGraced p db row successor_row at successor found was names there h = record {
    revoked_at = at;
    successor = successor;
    successor_row = successor_row;
    was_revoked = was;
    names = names;
    successor_found = there;
    successor_live = ground arith;
    enabled = ground arith;
    within = ground arith;
  }

  live_or_graced :
      (p : Refreshing) (db : Db) (row : OAuthRefreshToken) {t : RotatedRefreshToken}
      → get db.refresh (c.digest p.refresh_token) ≡ some row
      → (rotate p db).0 ≡ ok t
      → (row.revoked_at ≡ none) ⊎ IsGraced p db row
  live_or_graced p db row found h = elim (Option-cases row.revoked_at) [
    | inl live ↦ inl live
    | inr (at, was) ↦ elim (Option-cases row.replaced_by_hash) [
      | inl nothing ↦ absurd (ungraced_refused p db row at found was h (λ s names. cc))
      | inr (s, names) ↦ elim (Option-cases (get db.refresh s)) [
        | inl missing ↦ absurd (ungraced_refused p db row at found was h (λ s' names'. cc))
        | inr (next, there) ↦ inr (rotate-IsGraced p db row next at s found was names there h)
      ]
    ]
  ]

  -- A rotation that succeeded met a row of its token, bound to the client and in time, that was
  -- either live or graced.
  pub rotate_sound :
      (p : Refreshing) (db : Db) {t : RotatedRefreshToken}
      → (rotate p db).0 ≡ ok t
      → (row : OAuthRefreshToken) × (get db.refresh (c.digest p.refresh_token) ≡ some row)
        × IsBoundTo p row
        × ((row.revoked_at ≡ none) ⊎ IsGraced p db row)
  rotate_sound p db h = elim (Option-cases (get db.refresh (c.digest p.refresh_token))) [
    | inl missing ↦ absurd (rotate_unknown p db missing h)
    | inr (row, found) ↦
        (row, found, rotate-IsBoundTo p db row found h, live_or_graced p db row found h)
  ]

  -- A refused rotation, whatever the reason, changes nothing.
  pub rotate_refused :
      (p : Refreshing) (db : Db) {e : Exception} → (rotate p db).0 ≡ err e → (rotate p db).1 ≡ db
  unfolding rotate rotate_refresh_token sha256_b64u
  rotate_refused p db h = ground arith
