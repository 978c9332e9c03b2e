-- ===== src/AuthServer/Prune/Laws.antt =====
-- `prune-oauth` beside the operations that read the rows: what it leaves them.
use bond_mcps.Prelude.{
  ◌+◌, ◌-◌, ◌/◌, ◌≤◌, String, true, ◌≡◌, sym, ◌∙◌, Option, none, some, arith, inl, inr, contains,
  leb, ◌==◌, ◌&&◌, eq_refl,
}
use bond_mcps.Db.{
  Instant, seconds, days, Db, OAuthClient, OAuthRefreshToken, get, exists_where_lem, ok,
}
use bond_mcps.Encryption.{Crypto}
use bond_mcps.AuthServer.Refresh.{RotatedRefreshToken, refresh_grace_seconds}
use bond_mcps.AuthServer.Refresh.Rotation.{
  Refreshing, IsBoundTo, IsFresh, IsGraced, rotate, rotate_live, rotate_graced, rotate_sound,
}
use bond_mcps.AuthServer.Prune.{
  PruneArgs, cmd_prune_oauth, default_revoked_grace_days, revoked_grace, is_active,
}

module _ (grace_raw : Option String) (now : Instant) (args : PruneArgs) (db : Db) where
  abbrev pruned : Db
  pruned = (cmd_prune_oauth grace_raw now args db).1

  live_kept :
      (k : String) (row : OAuthRefreshToken)
      → get db.refresh k ≡ some row
      → row.revoked_at ≡ none
      → get pruned.refresh k ≡ some row
  unfolding cmd_prune_oauth
  live_kept k row found live = ground arith

  -- A row that was revoked within the default window is kept.
  recent_kept :
      (k : String) (row : OAuthRefreshToken) (at later : Instant)
      → args.revoked_grace_days ≡ none
      → now ≤ later
      → get db.refresh k ≡ some row
      → row.revoked_at ≡ some at
      → later - at ≤ seconds (refresh_grace_seconds grace_raw)
      → get pruned.refresh k ≡ some row
  unfolding cmd_prune_oauth revoked_grace default_revoked_grace_days
  recent_kept k row at later default before found was within =
      let inside : now - days ((refresh_grace_seconds grace_raw + 86399) / 86400 + 1) ≤ at =
        omega arith in
      ground arith

  absent_kept : (k : String) → get db.refresh k ≡ none → get pruned.refresh k ≡ none
  unfolding cmd_prune_oauth
  absent_kept k missing = ground arith

  -- What the pruning keeps for a rotation: the presented row, and the successor of a graced one.
  rotate-live_pruned :
      (c : Crypto) (p : Refreshing) (row : OAuthRefreshToken) {t : RotatedRefreshToken}
      → IsFresh c p db
      → get db.refresh (c.digest p.refresh_token) ≡ some row
      → IsBoundTo p row
      → row.revoked_at ≡ none
      → (rotate c grace_raw p db).0 ≡ ok t
      → (rotate c grace_raw p pruned).0 ≡ ok t
  rotate-live_pruned c p row fresh found bound live done =
      let kept = live_kept (c.digest p.refresh_token) row found live in
      let fresh' : IsFresh c p pruned = record {
        ascii = fresh.ascii;
        unused = absent_kept (c.digest p.new_token) fresh.unused;
      } in
      (rotate_live c grace_raw p pruned row kept live bound fresh').0
      ∙ sym (rotate_live c grace_raw p db row found live bound fresh).0
      ∙ done

  rotate-graced_pruned :
      (c : Crypto) (p : Refreshing) (row : OAuthRefreshToken) {t : RotatedRefreshToken}
      → args.revoked_grace_days ≡ none
      → now ≤ p.now
      → IsFresh c p db
      → get db.refresh (c.digest p.refresh_token) ≡ some row
      → IsBoundTo p row
      → IsGraced c grace_raw p db row
      → (rotate c grace_raw p db).0 ≡ ok t
      → (rotate c grace_raw p pruned).0 ≡ ok t
  rotate-graced_pruned c p row default before fresh found bound g done =
      let kept =
        recent_kept (c.digest p.refresh_token) row g.revoked_at p.now default before found
          g.was_revoked g.within in
      let fresh' : IsFresh c p pruned = record {
        ascii = fresh.ascii;
        unused = absent_kept (c.digest p.new_token) fresh.unused;
      } in
      let g' : IsGraced c grace_raw p pruned row = record {
        revoked_at = g.revoked_at;
        successor = g.successor;
        successor_row = g.successor_row;
        was_revoked = g.was_revoked;
        names = g.names;
        successor_found = live_kept g.successor g.successor_row g.successor_found g.successor_live;
        successor_live = g.successor_live;
        enabled = g.enabled;
        within = g.within;
      } in
      (rotate_graced c grace_raw p pruned row g' kept bound fresh').0
      ∙ sym (rotate_graced c grace_raw p db row g found bound fresh).0
      ∙ done

  -- Pruning with the default window refuses nobody: a rotation that would succeed without it, now or
  -- later, succeeds after it, with the same answer, if the drawn token is new.
  pub rotate-cmd_prune_oauth :
      (c : Crypto) (p : Refreshing) {t : RotatedRefreshToken}
      → args.revoked_grace_days ≡ none
      → now ≤ p.now
      → IsFresh c p db
      → (rotate c grace_raw p db).0 ≡ ok t
      → (rotate c grace_raw p (cmd_prune_oauth grace_raw now args db).1).0 ≡ ok t
  rotate-cmd_prune_oauth c p default before fresh done =
      let (row, found, bound, how) = rotate_sound c grace_raw p db done in
      elim how [
        | inl live ↦ rotate-live_pruned c p row fresh found bound live done
        | inr g ↦ rotate-graced_pruned c p row default before fresh found bound g done
      ]

  -- A client of the operator, a young one, or one to which a refresh token was issued of late.
  pub data IsSpared (client_id : String) (row : OAuthClient) : Type 0 where
    static : row.is_static ≡ true → IsSpared client_id row
    young : now - days args.client_idle_days ≤ row.created_at → IsSpared client_id row
    active :
        (h : String) (token : OAuthRefreshToken)
        → get db.refresh h ≡ some token
        → contains db.refresh.keys h ≡ true
        → token.client_id ≡ client_id
        → now - days args.client_idle_days ≤ token.created_at
        → IsSpared client_id row

  -- Pruning spares a client that the operator registered, one that is younger than the idle time, and
  -- one to which a refresh token was issued within it.
  pub cmd_prune_oauth_spares :
      (client_id : String) (row : OAuthClient)
      → get db.clients client_id ≡ some row
      → IsSpared client_id row
      → get (cmd_prune_oauth grace_raw now args db).1.clients client_id ≡ some row
  unfolding cmd_prune_oauth
  cmd_prune_oauth_spares client_id row found (static is) = ground arith
  cmd_prune_oauth_spares client_id row found (young is) = ground arith
  cmd_prune_oauth_spares client_id row found (active h token there listed mine recent) =
      let same : (token.client_id == client_id) ≡ true = rw mine (eq_refl client_id) in
      let in_time : (leb (now - days args.client_idle_days) token.created_at) ≡ true =
        ground arith in
      let is : is_active now args.client_idle_days db client_id ≡ true =
        exists_where_lem
          (λ _ r. leb (now - days args.client_idle_days) r.created_at && r.client_id == client_id)
          db.refresh h token listed there (ground (arith, same, in_time)) in
      ground (arith, is)
