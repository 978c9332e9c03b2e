-- ===== src/Tickets/Laws.antt =====
-- Connect tickets: minting and uses together.
use bond_mcps.Prelude.{◌+◌, ◌≤◌, String, ◌≡◌, ◌≢◌, true, none, arith, eq_iff, eq_refl}
use bond_mcps.Db.{Instant, seconds, Db, get, ok, err, Exception, TicketError}
use bond_mcps.Encryption.{Crypto}
use bond_mcps.AuthServer.Secrets.{is_ascii, sha256_b64u}
use bond_mcps.Tickets.{ticket_ttl_seconds, sweep_tickets, mint_ticket, consume_ticket}

module _ (c : Crypto) where
  -- A ticket that was minted names its user to the provider's route for five minutes; a second use
  -- then, and any use at another provider's route, is refused.
  pub consume-mint :
      (now later again : Instant) (ticket user_key provider other : String) (db : Db)
      → is_ascii ticket ≡ true
      → get db.tickets (c.digest ticket) ≡ none
      → later ≤ now + seconds ticket_ttl_seconds
      → other ≢ provider
      → let minted = (mint_ticket c now ticket user_key provider db).1 in
        ((consume_ticket c later ticket provider minted).0
          ≡ ok (record { user_key = user_key; provider = provider }))
        × ((consume_ticket c again ticket provider
              (consume_ticket c later ticket provider minted).1).0
            ≡ err (Exception.ticket TicketError.ticket_used))
        × (consume_ticket c later ticket other minted
            ≡ (err (Exception.ticket TicketError.provider_mismatch), minted))
  unfolding mint_ticket consume_ticket sweep_tickets sha256_b64u
  consume-mint now later again ticket user provider other db ascii fresh in_time ne = (
    ground (arith, eq_refl (c.digest ticket), eq_refl provider),
    ground (arith, eq_refl (c.digest ticket), eq_refl provider),
    ground (arith, eq_refl (c.digest ticket), eq_iff provider other),
  )

  -- A use that is refused writes nothing: a ticket that is presented to the wrong provider stays good.
  pub consume_ticket_refused :
      (now : Instant) (ticket provider : String) (db : Db) {e : Exception}
      → (consume_ticket c now ticket provider db).0 ≡ err e
      → (consume_ticket c now ticket provider db).1 ≡ db
  unfolding consume_ticket sha256_b64u
  consume_ticket_refused now ticket provider db h = ground arith
