-- ===== src/AuthServer/Codes/Lifecycle.antt =====
-- Authorization codes over time: the steps of the server as the table of codes sees them.
use bond_mcps.Prelude.{
  ◌+◌, ◌≤◌, String, ◌≡◌, refl, ◌≢◌, Bool, true, none, some, arith, ◌==◌, eq_iff, eq_refl, inl, inr,
  sym, ap, subst, Bool-cases,
}
use bond_mcps.Db.{
  Instant, seconds, Db, OAuthAuthCode, get, put, delete_where, Table, Result, ok, Result-cases,
}
use bond_mcps.Encryption.{Crypto}
use bond_mcps.AuthServer.Secrets.{is_ascii, sha256_b64u}
use bond_mcps.AuthServer.Codes.{
  IssuedAuthCode, CodeRequest, code_row, auth_code_ttl_seconds, sweep_auth_codes, issue_auth_code,
}
use bond_mcps.AuthServer.Codes.Single.{
  Presented, consume, consume_sound, consume_complete, consume_refused,
}

module _ (c : Crypto) where
  unfoldable pub issue : Instant → String → CodeRequest → Db → Result String × Db
  issue = issue_auth_code c

  -- A fresh code is stored as an unused row that expires in a minute.
  issue-row :
      (now : Instant) (code : String) (q : CodeRequest) (db : Db)
      → is_ascii code ≡ true
      → get db.codes (c.digest code) ≡ none
      → ((issue now code q db).0 ≡ ok code)
        × (get (issue now code q db).1.codes (c.digest code) ≡ some (code_row q now))
  unfolding issue issue_auth_code sha256_b64u
  issue-row now code q db ascii fresh = ground (arith, eq_refl (c.digest code))

  -- What the code was issued for.
  pub record Matches (now : Instant) (q : CodeRequest) (p : Presented) : Type 0 where
    pub in_time : p.now ≤ now + seconds auth_code_ttl_seconds
    pub same_client : q.client_id ≡ p.client_id
    pub same_redirect : q.redirect_uri ≡ p.redirect_uri
    pub method : q.code_challenge_method ≡ "S256"
    pub proof : q.code_challenge ≡ c.digest p.code_verifier
    pub verifier_ascii : is_ascii p.code_verifier ≡ true
    pub challenge_ascii : is_ascii q.code_challenge ≡ true

  -- A code that was just issued is redeemed for what it was issued for, by the same client at the
  -- same redirect URI with the verifier of its challenge, for sixty seconds.
  pub consume-issue :
      (now : Instant) (q : CodeRequest) (p : Presented) (db : Db)
      → is_ascii p.code ≡ true
      → get db.codes (c.digest p.code) ≡ none
      → Matches now q p
      → ((issue now p.code q db).0 ≡ ok p.code)
        × ((consume c p (issue now p.code q db).1).0 ≡ ok q.bindings)
  consume-issue now q p db ascii fresh m =
      let (done, stored) = issue-row now p.code q db ascii fresh in
      (
        done,
        consume_complete c p _ (code_row q now) stored (record {
          unused = refl;
          in_time = m.in_time;
          same_client = m.same_client;
          same_redirect = m.same_redirect;
          method = m.method;
          proof = m.proof;
          code_ascii = ascii;
          verifier_ascii = m.verifier_ascii;
          challenge_ascii = m.challenge_ascii;
        }),
      )

  -- A step of the server, as the table of codes sees it: a code is issued under another hash, any
  -- code is presented, rows are deleted, or nothing of the table is written.
  pub data Step (code : String) (db db' : Db) : Type 0 where
    issues :
        (now : Instant) (other : String) (q : CodeRequest)
        → c.digest other ≢ c.digest code
        → db' ≡ (issue now other q db).1
        → Step code db db'
    presents : (p : Presented) → db' ≡ (consume c p db).1 → Step code db db'
    deletes :
        (p : String → OAuthAuthCode → Bool) → db'.codes ≡ delete_where p db.codes → Step code db db'
    elsewhere : db'.codes ≡ db.codes → Step code db db'

  pub data Reach (code : String) (db : Db) : Db → Type 0 where
    here : Reach code db db
    next : {db' db'' : Db} → Reach code db db' → Step code db' db'' → Reach code db db''

  -- The row of the code, while there is one, is used.
  abbrev pub IsSpent : String → Db → Type 0
  IsSpent code db =
      (row : OAuthAuthCode) → get db.codes (c.digest code) ≡ some row → row.used_at ≢ none

  issue-other :
      (now : Instant) (code other : String) (q : CodeRequest) (db : Db) {row : OAuthAuthCode}
      → c.digest other ≢ c.digest code
      → get (issue now other q db).1.codes (c.digest code) ≡ some row
      → get db.codes (c.digest code) ≡ some row
  unfolding issue issue_auth_code sweep_auth_codes sha256_b64u
  issue-other now code other q db differs found =
      ground (arith, eq_iff (c.digest other) (c.digest code))

  -- A redeemed row is used; the others are as they were.
  put-IsSpent :
      (code h : String) (now : Instant) (row : OAuthAuthCode) (db db' : Db)
      → (h ≢ c.digest code → IsSpent code db)
      → db'.codes ≡ put h (record row { used_at = some now }) db.codes
      → IsSpent code db'
  put-IsSpent code h now row db db' rest written r found unused =
      elim (Bool-cases (h == c.digest code)) [
        | inl same ↦ ground (arith, ap (λ (t : Table OAuthAuthCode). get t (c.digest code)) written)
        | inr differs ↦
            rest (λ e. cc ((eq_iff h (c.digest code)).1 e)) r
              (ground (arith, ap (λ (t : Table OAuthAuthCode). get t (c.digest code)) written))
              unused
      ]

  consume-IsSpent :
      (p : Presented) (db : Db) {b : IssuedAuthCode}
      → (consume c p db).0 ≡ ok b
      → IsSpent p.code (consume c p db).1
  consume-IsSpent p db h =
      let (row, _, _, _, written) = consume_sound c p db h in
      put-IsSpent p.code (c.digest p.code) p.now row db (consume c p db).1 (λ ne. absurd (ne refl))
        (ap (λ (d : Db). d.codes) written)

  presents-IsSpent :
      (code : String) (p : Presented) (db : Db) → IsSpent code db → IsSpent code (consume c p db).1
  presents-IsSpent code p db h = elim (Result-cases (consume c p db).0) [
    | inl (b, done) ↦
        let (row, _, _, _, written) = consume_sound c p db done in
        put-IsSpent code (c.digest p.code) p.now row db (consume c p db).1 (λ _. h)
          (ap (λ (d : Db). d.codes) written)
    | inr (e, refused) ↦ subst (IsSpent code) (sym (consume_refused c p db refused)) h
  ]

  Step-IsSpent :
      (code : String) {db db' : Db} → IsSpent code db → Step code db db' → IsSpent code db'
  Step-IsSpent code {db} {db'} h (issues now other q differs e) =
      λ row found. h row (issue-other now code other q db differs (rw e at found))
  Step-IsSpent code {db} {db'} h (presents p e) =
      subst (IsSpent code) (sym e) (presents-IsSpent code p db h)
  Step-IsSpent code {db} {db'} h (deletes p e) =
      λ row found. h row (ground (arith, ap (λ (t : Table OAuthAuthCode). get t (c.digest code)) e))
  Step-IsSpent code {db} {db'} h (elsewhere e) =
      λ row found. h row (ground (arith, ap (λ (t : Table OAuthAuthCode). get t (c.digest code)) e))

  Reach-IsSpent :
      (code : String) {db db' : Db} → IsSpent code db → Reach code db db' → IsSpent code db'
  Reach-IsSpent code h here = h
  Reach-IsSpent code h (next r s) = Step-IsSpent code (Reach-IsSpent code h r) s

  -- Once a code has been redeemed, no later presentation of it succeeds, whatever the server did in
  -- between and whatever comes with the code, if no other code with its hash is issued.
  pub consume_once :
      (p p' : Presented) (db later : Db) {b b' : IssuedAuthCode}
      → p'.code ≡ p.code
      → (consume c p db).0 ≡ ok b
      → Reach p.code (consume c p db).1 later
      → (consume c p' later).0 ≢ ok b'
  consume_once p p' db later same first steps second =
      let (row, found, ready, _, _) = consume_sound c p' later second in
      Reach-IsSpent p.code (consume-IsSpent p db first) steps row (rw (ap c.digest same) at found)
        ready.unused
