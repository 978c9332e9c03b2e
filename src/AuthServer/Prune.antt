-- ===== src/AuthServer/Prune.antt =====
-- `prune-oauth` of auth/auth/cli.py: the deletion of rows that the authorization server needs no more.
-- The numbers of days of the command line are not negative.
pub mod Laws
use bond_mcps.Prelude.{
  ℕ, ◌+◌, ◌-◌, ◌/◌, String, Bool, true, false, not, ◌&&◌, Option, none, some, ◌==◌, ltb, leb,
  if◌then◌else◌,
}
use bond_mcps.Db.{
  Instant, minutes, days, Db, OAuthClient, OAuthPendingAuth, OAuthAuthCode, OAuthRefreshToken,
  ConnectTicket, delete_where, exists_where, count_where,
}
use bond_mcps.AuthServer.Refresh.{refresh_grace_seconds}

pub record PruneArgs : Type 0 where
  pub client_idle_days : ℕ
  pub revoked_grace_days : Option ℕ
  pub dry_run : Bool

pub record PruneCounts : Type 0 where
  pub pending_auth : ℕ
  pub auth_codes : ℕ
  pub connect_tickets : ℕ
  pub revoked_refresh_tokens : ℕ
  pub idle_dcr_clients : ℕ

-- `-(-seconds // 86400) + 1`
unfoldable pub default_revoked_grace_days : Option String → ℕ
default_revoked_grace_days grace_raw = (refresh_grace_seconds grace_raw + 86399) / 86400 + 1

unfoldable pub revoked_grace : Option String → PruneArgs → ℕ
unfolding default_revoked_grace_days
revoked_grace grace_raw args = elim args.revoked_grace_days [
  | none ↦ default_revoked_grace_days grace_raw
  | some n ↦ n
]

abbrev pub stale_pending : Instant → String → OAuthPendingAuth → Bool
stale_pending now k row = ltb row.expires_at (now - minutes 10)

abbrev pub stale_code : Instant → String → OAuthAuthCode → Bool
stale_code now k row = ltb row.expires_at (now - minutes 10)

abbrev pub stale_ticket : Instant → String → ConnectTicket → Bool
stale_ticket now k row = ltb row.expires_at (now - minutes 10)

-- `revoked_at IS NOT NULL AND revoked_at < cutoff`
abbrev pub long_revoked : Instant → ℕ → String → OAuthRefreshToken → Bool
long_revoked now grace_days k row = elim row.revoked_at [
  | none ↦ false
  | some at ↦ ltb at (now - days grace_days)
]

-- A refresh token of the client was issued at the cutoff or later.
abbrev pub is_active : Instant → ℕ → Db → String → Bool
is_active now idle_days db client_id =
    exists_where (λ _ row. leb (now - days idle_days) row.created_at && row.client_id == client_id)
      db.refresh

-- The active clients are read before the deletions.
abbrev pub idle_client : Instant → ℕ → Db → String → OAuthClient → Bool
idle_client now idle_days db client_id row =
    not row.is_static
    && ltb row.created_at (now - days idle_days)
    && not (is_active now idle_days db client_id)

unfoldable pub prune_counts : Option String → Instant → PruneArgs → Db → PruneCounts
unfolding revoked_grace
prune_counts grace_raw now args db = record {
  pending_auth = count_where (stale_pending now) db.pending;
  auth_codes = count_where (stale_code now) db.codes;
  connect_tickets = count_where (stale_ticket now) db.tickets;
  revoked_refresh_tokens = count_where (long_revoked now (revoked_grace grace_raw args)) db.refresh;
  idle_dcr_clients = count_where (idle_client now args.client_idle_days db) db.clients;
}

unfoldable pub cmd_prune_oauth : Option String → Instant → PruneArgs → Db → PruneCounts × Db
unfolding prune_counts
cmd_prune_oauth grace_raw now args db =
    let counts = prune_counts grace_raw now args db in
    if args.dry_run then (counts, db) else (
      counts,
      record db {
        pending = delete_where (stale_pending now) db.pending;
        codes = delete_where (stale_code now) db.codes;
        tickets = delete_where (stale_ticket now) db.tickets;
        refresh = delete_where (long_revoked now (revoked_grace grace_raw args)) db.refresh;
        clients = delete_where (idle_client now args.client_idle_days db) db.clients;
      },
    )
