-- ===== src/AuthServer/Refresh/Grace.antt =====
-- The grace for a lost response: a rotation followed by a retry, or by the use of the successor.
use bond_mcps.Prelude.{
  ◌+◌, ◌≤◌, ◌<◌, String, ◌≡◌, ◌≢◌, refl, sym, ap, subst, ◌∙◌, Option, none, some, arith, eq_iff,
  eq_refl, inl, inr,
}
use bond_mcps.Db.{Instant, seconds, Db, OAuthRefreshToken, get, ok}
use bond_mcps.Encryption.{Crypto}
use bond_mcps.AuthServer.Refresh.{
  RotatedRefreshToken, refresh_grace_seconds, refresh_token_ttl_seconds, live_row, bindings_of,
}
use bond_mcps.AuthServer.Refresh.Rotation.{
  Refreshing, IsBoundTo, IsFresh, rotate, rotated_of, rotate_live, rotate_graced, rotate_sound,
}

-- Whatever the environment says, the window is at most the lifetime of a refresh token.
pub refresh_grace_seconds-le :
    (raw : Option String) → refresh_grace_seconds raw ≤ refresh_token_ttl_seconds
unfolding refresh_grace_seconds
refresh_grace_seconds-le raw = ground arith

-- The two rows that a rotation of a live token leaves behind.
abbrev pub replaced_row : OAuthRefreshToken → Instant → String → OAuthRefreshToken
replaced_row row now new_hash = record row {
  revoked_at = some now;
  replaced_by_hash = some new_hash;
}

module _ (c : Crypto) (grace_raw : Option String) (p : Refreshing) (db : Db)
    (row : OAuthRefreshToken) (found : get db.refresh (c.digest p.refresh_token) ≡ some row)
    (live : row.revoked_at ≡ none) (bound : IsBoundTo p row) (fresh : IsFresh c p db) where
  replaced_after :
      get (rotate c grace_raw p db).1.refresh (c.digest p.refresh_token)
      ≡ some (replaced_row row p.now (c.digest p.new_token))
  replaced_after =
      (rotate_live c grace_raw p db row found live bound fresh).1 (c.digest p.refresh_token)
      ∙ rw (eq_refl (c.digest p.refresh_token))

  minted_after :
      get (rotate c grace_raw p db).1.refresh (c.digest p.new_token)
      ≡ some (live_row (bindings_of row) p.now)
  minted_after =
      (rotate_live c grace_raw p db row found live bound fresh).1 (c.digest p.new_token)
      ∙ ground (
        arith,
        found,
        fresh.unused,
        eq_iff (c.digest p.refresh_token) (c.digest p.new_token),
        eq_refl (c.digest p.new_token),
      )

module _ (c : Crypto) (grace_raw : Option String) where
  -- A client whose response was lost presents its token again: within the grace window, and before
  -- the token expires, it gets a new token with the same bindings.
  pub retry_honoured :
      (p p' : Refreshing) (db : Db) (row : OAuthRefreshToken)
      → get db.refresh (c.digest p.refresh_token) ≡ some row
      → row.revoked_at ≡ none
      → IsBoundTo p row
      → IsFresh c p db
      → p'.refresh_token ≡ p.refresh_token
      → p'.client_id ≡ p.client_id
      → p'.now ≤ row.expires_at
      → 0 < refresh_grace_seconds grace_raw
      → p'.now ≤ p.now + seconds (refresh_grace_seconds grace_raw)
      → IsFresh c p' (rotate c grace_raw p db).1
      → (rotate c grace_raw p' (rotate c grace_raw p db).1).0 ≡ ok (rotated_of row p'.new_token)
  retry_honoured p p' db row found live bound fresh same client alive on within fresh' =
      let db' = (rotate c grace_raw p db).1 in
      let replaced = replaced_after c grace_raw p db row found live bound fresh in
      (rotate_graced c grace_raw p' db' (replaced_row row p.now (c.digest p.new_token))
        (record {
          revoked_at = p.now;
          successor = c.digest p.new_token;
          successor_row = live_row (bindings_of row) p.now;
          was_revoked = refl;
          names = refl;
          successor_found = minted_after c grace_raw p db row found live bound fresh;
          successor_live = refl;
          enabled = on;
          within = omega arith;
        })
        (rw same replaced)
        (record {
          in_time = alive;
          same_client = bound.same_client ∙ sym client;
          ascii = rw same bound.ascii;
        })
        fresh').0

  -- Once the successor has been used, the token that it replaced is refused.
  pub replay_refused :
      (p q p' : Refreshing) (db : Db) (row : OAuthRefreshToken) {s t : RotatedRefreshToken}
      → get db.refresh (c.digest p.refresh_token) ≡ some row
      → row.revoked_at ≡ none
      → IsBoundTo p row
      → IsFresh c p db
      → q.refresh_token ≡ p.new_token
      → IsFresh c q (rotate c grace_raw p db).1
      → (rotate c grace_raw q (rotate c grace_raw p db).1).0 ≡ ok s
      → p'.refresh_token ≡ p.refresh_token
      → (rotate c grace_raw p' (rotate c grace_raw q (rotate c grace_raw p db).1).1).0 ≢ ok t
  replay_refused p q p' db row found live bound fresh uses fresh' used same again =
      let db' = (rotate c grace_raw p db).1 in
      let minted = minted_after c grace_raw p db row found live bound fresh in
      let replaced = replaced_after c grace_raw p db row found live bound fresh in
      let h = c.digest p.refresh_token in
      let successor = live_row (bindings_of row) p.now in
      let presented : get db'.refresh (c.digest q.refresh_token) ≡ some successor =
        rw uses minted in
      let (met, at, admitted, _) = rotate_sound c grace_raw q db' used in
      let is_successor : met ≡ successor = cc in
      let bound' : IsBoundTo q successor = rw (← is_successor) admitted in
      let after = rotate_live c grace_raw q db' successor presented refl bound' fresh' in
      let spent = replaced_after c grace_raw q db' successor presented refl bound' fresh' in
      let db'' = (rotate c grace_raw q db').1 in
      let (last, there, _, how) = rotate_sound c grace_raw p' db'' again in
      let old : get db''.refresh h ≡ some last =
        subst (λ k. get db''.refresh (c.digest k) ≡ some last) same there in
      let is_last : last ≡ replaced_row row p.now (c.digest p.new_token) = ground (
        arith,
        after.1 h,
        fresh.unused,
        fresh'.unused,
        ap c.digest uses,
        eq_iff (c.digest q.refresh_token) h,
        eq_iff (c.digest q.new_token) h,
      ) in
      elim how [
        | inl unrevoked ↦ cc
        | inr g ↦
            let named : some g.successor ≡ some (c.digest q.refresh_token) =
              cc (g.names, ap c.digest uses) in
            ground (arith, named, g.successor_found, g.successor_live)
      ]
