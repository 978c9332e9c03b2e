-- ===== src/AuthServer/Clients/Store.antt =====
-- The table of clients under registration, seeding and lookup.
use Prim.Native.String
use bond_mcps.Prelude.{
  String, Bool, true, false, ◌==◌, ◌⊎◌, ◌≡◌, sym, ap, subst, ◌∙◌, inl, inr, Option, none, some,
  List, [], ◌∷◌, arith, eq_refl, Bool-cases, Option-cases, Url, urlparse,
}
use bond_mcps.Db.{Instant, Db, OAuthClient, get, ok, err, Exception, Result-cases}
use bond_mcps.AuthServer.Clients.{
  ClientRecord, Metadata, StaticEntry, StaticClients, row_to_record, persist, ensure_all,
  register_client, record_from_static, seed_entry, seed_entries, ensure_statics_seeded, get_client,
  default_grant_types, default_response_types, is_redirect_uri_allowed,
}
use bond_mcps.AuthServer.Clients.Policy.{IsSafe, allowed_redirect-IsSafe}

module _ (is_bracketed : String → Bool) (hosts_raw : Option String) where
  -- The redirect URIs of every row have passed the policy.
  abbrev pub IsPoliced : Db → Type 0
  IsPoliced db =
      (k : String) (row : OAuthClient)
      → get db.clients k ≡ some row
      → ensure_all is_bracketed hosts_raw row.redirect_uris ≡ ok tt

  persist-row :
      (now : Instant) (client : ClientRecord) (replace : Bool) (db : Db) (k : String)
      (row : OAuthClient)
      → get (persist now client replace db).1.clients k ≡ some row
      → (get db.clients k ≡ some row) ⊎ (row.redirect_uris ≡ client.redirect_uris)
  unfolding persist
  persist-row now client replace db k row found = elim (Bool-cases (client.client_id == k)) [
    | inr other ↦ inl (ground arith)
    | inl same ↦ elim (Option-cases (get db.clients client.client_id)) [
      | inl missing ↦ inr (ground arith)
      | inr (old, there) ↦ elim (Bool-cases replace) [
        | inl again ↦ inr (ground arith)
        | inr once ↦ inl (ground arith)
      ]
    ]
  ]

  persist-IsPoliced :
      (now : Instant) (client : ClientRecord) (replace : Bool) (db : Db)
      → ensure_all is_bracketed hosts_raw client.redirect_uris ≡ ok tt
      → IsPoliced db
      → IsPoliced (persist now client replace db).1
  persist-IsPoliced now client replace db accepted h k row found =
      elim (persist-row now client replace db k row found) [
        | inl old ↦ h k row old
        | inr new ↦ rw new accepted
      ]

  -- What a registration that succeeded went through.
  record IsRegistration (now : Instant) (secret : String) (metadata : Metadata) (db : Db)
      (client : ClientRecord) : Type 0 where
    first : String
    rest : List String
    uris : metadata.redirect_uris ≡ some (first ∷ rest)
    accepted : ensure_all is_bracketed hosts_raw (first ∷ rest) ≡ ok tt
    new : get db.clients client.client_id ≡ none
    client_is : client ≡ record {
      client_id = String.◌++◌ "bm-" secret;
      client_name = metadata.client_name;
      redirect_uris = first ∷ rest;
      token_endpoint_auth_method = "none";
      grant_types = default_grant_types;
      response_types = default_response_types;
      scope = metadata.scope;
      is_static = false;
    }
    written :
        (register_client is_bracketed hosts_raw now secret metadata db).1
        ≡ (persist now client false db).1

  register_client-IsRegistration :
      (now : Instant) (secret : String) (metadata : Metadata) (db : Db) (client : ClientRecord)
      → (register_client is_bracketed hosts_raw now secret metadata db).0 ≡ ok client
      → IsRegistration now secret metadata db client
  unfolding register_client persist
  register_client-IsRegistration now secret metadata db client h =
      elim (Option-cases metadata.redirect_uris) [
        | inl missing ↦ ground arith
        | inr ([], none_given) ↦ ground arith
        | inr (first ∷ rest, given) ↦
            let accepted : ensure_all is_bracketed hosts_raw (first ∷ rest) ≡ ok tt =
              ground arith in
            record {
              first = first;
              rest = rest;
              uris = given;
              accepted = accepted;
              new = ground arith;
              client_is = ground arith;
              written = ground arith;
            }
      ]

  -- A registration that succeeded is a public client with the two grants of the server, under a name
  -- that no client had; what it returns is what is looked up afterwards, once the statics are seeded.
  pub get_client-register_client :
      (now later : Instant) (secret : String) (metadata : Metadata) (statics : StaticClients)
      (db : Db) {client : ClientRecord}
      → db.statics_seeded ≡ true
      → (register_client is_bracketed hosts_raw now secret metadata db).0 ≡ ok client
      → (get db.clients client.client_id ≡ none)
        × (client.token_endpoint_auth_method ≡ "none")
        × (client.grant_types ≡ default_grant_types)
        × (metadata.redirect_uris ≡ some client.redirect_uris)
        × ((get_client is_bracketed hosts_raw later statics client.client_id
              (register_client is_bracketed hosts_raw now secret metadata db).1).0
            ≡ some client)
  unfolding persist get_client ensure_statics_seeded
  get_client-register_client now later secret metadata statics db {client} seeded h =
      let r = register_client-IsRegistration now secret metadata db client h in
      (
        r.new,
        ap (λ (x : ClientRecord). x.token_endpoint_auth_method) r.client_is,
        ap (λ (x : ClientRecord). x.grant_types) r.client_is,
        r.uris ∙ ap some (sym (ap (λ (x : ClientRecord). x.redirect_uris) r.client_is)),
        rw r.written (ground (arith, r.new, eq_refl client.client_id)),
      )

  -- A registration that is refused writes nothing.
  pub register_client_refused :
      (now : Instant) (secret : String) (metadata : Metadata) (db : Db) {e : Exception}
      → (register_client is_bracketed hosts_raw now secret metadata db).0 ≡ err e
      → (register_client is_bracketed hosts_raw now secret metadata db).1 ≡ db
  unfolding register_client persist
  register_client_refused now secret metadata db h = elim (Option-cases metadata.redirect_uris) [
    | inl missing ↦ ground arith
    | inr ([], none_given) ↦ ground arith
    | inr (first ∷ rest, given) ↦ ground arith
  ]

  -- Registration keeps the table policed.
  pub register_client-IsPoliced :
      (now : Instant) (secret : String) (metadata : Metadata) (db : Db)
      → IsPoliced db
      → IsPoliced (register_client is_bracketed hosts_raw now secret metadata db).1
  register_client-IsPoliced now secret metadata db h =
      elim (Result-cases (register_client is_bracketed hosts_raw now secret metadata db).0) [
        | inl (client, done) ↦
            let r = register_client-IsRegistration now secret metadata db client done in
            let accepted : ensure_all is_bracketed hosts_raw client.redirect_uris ≡ ok tt =
              rw (ap (λ (x : ClientRecord). x.redirect_uris) r.client_is) r.accepted in
            subst IsPoliced (sym r.written) (persist-IsPoliced now client false db accepted h)
        | inr (e, refused) ↦
            subst IsPoliced (sym (register_client_refused now secret metadata db refused)) h
      ]

  record_from_static-accepted :
      (entry : StaticEntry) (client : ClientRecord)
      → record_from_static is_bracketed hosts_raw entry ≡ ok client
      → ensure_all is_bracketed hosts_raw client.redirect_uris ≡ ok tt
  unfolding record_from_static
  record_from_static-accepted entry client h = elim (Option-cases entry.redirect_uris) [
    | inl missing ↦ ground arith
    | inr ([], none_given) ↦ ground arith
    | inr (uri ∷ uris, given) ↦ ground arith
  ]

  seed_entry-IsPoliced :
      (now : Instant) (entry : StaticEntry) (db : Db)
      → IsPoliced db
      → IsPoliced (seed_entry is_bracketed hosts_raw now entry db)
  unfolding seed_entry
  seed_entry-IsPoliced now entry db h =
      elim (Result-cases (record_from_static is_bracketed hosts_raw entry)) [
        | inl (client, made) ↦
            rw (seed_entry, made)
              (persist-IsPoliced now client true db (record_from_static-accepted entry client made)
                h)
        | inr (e, failed) ↦ rw (seed_entry, failed) h
      ]

  seed_entries-IsPoliced :
      (now : Instant) (entries : List StaticEntry) (db : Db)
      → IsPoliced db
      → IsPoliced (seed_entries is_bracketed hosts_raw now entries db)
  unfolding seed_entries
  seed_entries-IsPoliced now [] db h = h
  seed_entries-IsPoliced now (entry ∷ entries) db h =
      seed_entries-IsPoliced now entries (seed_entry is_bracketed hosts_raw now entry db)
        (seed_entry-IsPoliced now entry db h)

  pub seeded-IsPoliced :
      (now : Instant) (statics : StaticClients) (db : Db)
      → IsPoliced db
      → IsPoliced (ensure_statics_seeded is_bracketed hosts_raw now statics db)
  unfolding ensure_statics_seeded
  seeded-IsPoliced now statics db h = elim (Bool-cases db.statics_seeded) [
    | inl already ↦ rw already h
    | inr not_yet ↦ rw not_yet (go statics)
  ]
    where
      go :
          (st : StaticClients)
          → IsPoliced (elim st as (λ _. Db) [
            | StaticClients.clients entries ↦
                record (seed_entries is_bracketed hosts_raw now entries db) {
                  statics_seeded = true;
                }
            | _ ↦ record db { statics_seeded = true }
          ])
      go (StaticClients.clients entries) = seed_entries-IsPoliced now entries db h
      go StaticClients.unset = h
      go StaticClients.invalid_json = h
      go StaticClients.not_a_list = h

  looked_up :
      (now : Instant) (statics : StaticClients) (client_id : String) (db : Db)
      (client : ClientRecord)
      → IsPoliced db
      → (get_client is_bracketed hosts_raw now statics client_id db).0 ≡ some client
      → (ensure_all is_bracketed hosts_raw client.redirect_uris ≡ ok tt)
        × IsPoliced (get_client is_bracketed hosts_raw now statics client_id db).1
  unfolding get_client
  looked_up now statics client_id db client h found =
      let seeded = ensure_statics_seeded is_bracketed hosts_raw now statics db in
      let after = seeded-IsPoliced now statics db h in
      elim (Option-cases (get seeded.clients client_id)) [
        | inl missing ↦ ground arith
        | inr (row, there) ↦
            let is : client ≡ row_to_record client_id row = ground arith in
            let same : (get_client is_bracketed hosts_raw now statics client_id db).1 ≡ seeded =
              ground arith in
            (
              rw (ap (λ (x : ClientRecord). x.redirect_uris) is) (after client_id row there),
              subst IsPoliced (sym same) after,
            )
      ]

  -- No open redirect: in a policed table, static clients and registered ones alike, a URI that the
  -- check at /oauth/authorize lets through for the client that is looked up is a plain http URL of a
  -- loopback host or a plain https URL of a trusted host; and the lookup keeps the table policed.
  pub get_client-IsSafe :
      (now : Instant) (statics : StaticClients) (client_id uri : String) (db : Db)
      {client : ClientRecord}
      → IsPoliced db
      → (get_client is_bracketed hosts_raw now statics client_id db).0 ≡ some client
      → is_redirect_uri_allowed is_bracketed client uri ≡ ok true
      → ((u : Url) × (urlparse is_bracketed uri ≡ some u) × IsSafe hosts_raw u)
        × IsPoliced (get_client is_bracketed hosts_raw now statics client_id db).1
  get_client-IsSafe now statics client_id uri db {client} h found allowed =
      let (policed, kept) = looked_up now statics client_id db client h found in
      (allowed_redirect-IsSafe is_bracketed hosts_raw client uri policed allowed, kept)
