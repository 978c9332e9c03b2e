-- ===== src/Tickets.antt =====
-- auth/auth/connect_tickets.py: single-use tickets for /connect/<provider>.
pub mod Laws
use bond_mcps.Prelude.{
  ℕ, ◌+◌, ◌-◌, String, Bool, true, false, not, Option, none, some, ◌==◌, ltb, if◌then◌else◌,
  is_some,
}
use bond_mcps.Db.{
  Instant, seconds, minutes, Db, ConnectTicket, get, put, delete_where, ok, Exception, TicketError,
  Exec, pure, raise, lift, gets, with_session, ◌>>=◌, ◌>>◌, modify, raise_if, add_row,
}
use bond_mcps.Encryption.{Crypto}
use bond_mcps.AuthServer.Secrets.{sha256_b64u}

abbrev pub ticket_ttl_seconds : ℕ
ticket_ttl_seconds = 300

pub record ConsumedTicket : Type 0 where
  pub user_key : String
  pub provider : String

unfoldable pub sweep_tickets : Instant → Db → Db
sweep_tickets now db = record db {
  tickets = delete_where (λ _ row. ltb row.expires_at (now - minutes 10)) db.tickets;
}

abbrev pub ticket_row : Instant → String → String → ConnectTicket
ticket_row now user_key provider = record {
  user_key = user_key;
  provider = provider;
  used_at = none;
  expires_at = now + seconds ticket_ttl_seconds;
}

-- `UPDATE ... SET used_at = now WHERE ticket_hash = ... AND used_at IS NULL`
abbrev pub mark_ticket : Instant → String → Exec Bool
mark_ticket now ticket_hash db = elim (get db.tickets ticket_hash) [
  | none ↦ (ok false, db)
  | some row ↦ if is_some row.used_at then (ok false, db) else (
    ok true,
    record db { tickets = put ticket_hash (record row { used_at = some now }) db.tickets },
  )
]

-- The checks on the row that is read after the update.
abbrev pub redeem_ticket : Instant → String → Bool → Option ConnectTicket → Exec ConsumedTicket
redeem_ticket now provider true (some row) = do
  raise_if (ltb row.expires_at now) (Exception.ticket TicketError.ticket_expired)
  raise_if (not (row.provider == provider)) (Exception.ticket TicketError.provider_mismatch)
  pure (record { user_key = row.user_key; provider = row.provider })
redeem_ticket now provider true none = raise Exception.type_error
redeem_ticket now provider false (some row) = raise (Exception.ticket TicketError.ticket_used)
redeem_ticket now provider false none = raise (Exception.ticket TicketError.unknown_ticket)

module _ (c : Crypto) where
  -- `ticket` is the text that is drawn.
  unfoldable pub mint_ticket : Instant → String → String → String → Exec String
  unfolding sweep_tickets
  mint_ticket now ticket user_key provider = do
    ticket_hash ← lift (sha256_b64u c ticket)
    with_session do
      modify (sweep_tickets now)
      add_row (λ db. db.tickets) (λ t db. record db { tickets = t }) ticket_hash
          (ticket_row now user_key provider)
    pure ticket

  unfoldable pub consume_ticket : Instant → String → String → Exec ConsumedTicket
  consume_ticket now ticket provider = do
    ticket_hash ← lift (sha256_b64u c ticket)
    with_session do
      updated ← mark_ticket now ticket_hash
      row ← gets (λ db. get db.tickets ticket_hash)
      redeem_ticket now provider updated row
