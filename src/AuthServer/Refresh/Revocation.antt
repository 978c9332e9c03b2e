-- ===== src/AuthServer/Refresh/Revocation.antt =====
-- `revoke-tokens` of auth/auth/cli.py, and the steps of the server that follow it.
use bond_mcps.Prelude.{
  String, ◌≡◌, ◌≢◌, refl, sym, ap, subst, ◌∙◌, Bool, true, false, Option, none, some, arith, ◌==◌,
  eq_iff, inl, inr, Option-cases, Bool-cases,
}
use bond_mcps.Db.{Instant, Db, OAuthRefreshToken, Table, get, delete_where, ok, Result-cases}
use bond_mcps.Encryption.{Crypto}
use bond_mcps.AuthServer.Secrets.{is_ascii, sha256_b64u}
use bond_mcps.AuthServer.Refresh.{
  RotatedRefreshToken, Bindings, live_row, issue_refresh_token, cmd_revoke_tokens,
}
use bond_mcps.AuthServer.Refresh.Rotation.{Refreshing, rotate, rotate_sound, rotate_refused}
use bond_mcps.AuthServer.Refresh.Invariant.{
  IsLinked, IsNew, IsKept, Origin, kept, presented, minted, Origin-IsLinked, rotate-Origin,
  rotate-IsLinked, IsKept-IsLinked, revoke_tokens-IsKept, deletes-IsKept,
}

-- Every token of the user is revoked.
abbrev pub IsRevoked : String → Db → Type 0
IsRevoked user db =
    (k : String) (row : OAuthRefreshToken)
    → get db.refresh k ≡ some row
    → row.user_key ≡ user
    → row.revoked_at ≢ none

-- After `revoke-tokens` every token of the user is revoked.
pub cmd_revoke_tokens-IsRevoked :
    (now : Instant) (user : String) (db : Db) → IsRevoked user (cmd_revoke_tokens now user db)
unfolding cmd_revoke_tokens
cmd_revoke_tokens-IsRevoked now user db k row found mine live =
    elim (Option-cases (get db.refresh k)) [
      | inl missing ↦ ground arith
      | inr (old, there) ↦ ground (arith, eq_iff old.user_key user)
    ]

unchanged-IsKept :
    (db db' : Db) (k : String) (row : OAuthRefreshToken)
    → db'.refresh ≡ db.refresh
    → get db'.refresh k ≡ some row
    → IsKept db k row
unchanged-IsKept db db' k row same found = record {
  old = row;
  found = sym (ap (λ (t : Table OAuthRefreshToken). get t k) same) ∙ found;
  same_bindings = refl;
  same_successor = refl;
  at_most_revoked = λ e. e;
}

IsKept-IsRevoked :
    (user : String) (db db' : Db)
    → IsRevoked user db
    → ((k : String) (row : OAuthRefreshToken) → get db'.refresh k ≡ some row → IsKept db k row)
    → IsRevoked user db'
IsKept-IsRevoked user db db' h from k row found mine live =
    let o = from k row found in
    h k o.old o.found (sym (ap (λ (b : Bindings). b.user_key) o.same_bindings) ∙ mine)
      (o.at_most_revoked live)

Origin-IsRevoked :
    (user n : String) (owner : OAuthRefreshToken) (db db' : Db)
    → IsRevoked user db
    → owner.user_key ≢ user
    → ((k : String) (row : OAuthRefreshToken)
        → get db'.refresh k ≡ some row
        → Origin db n owner k row)
    → IsRevoked user db'
Origin-IsRevoked user n owner db db' h other from k row found mine live = go (from k row found)
  where
    go : Origin db n owner k row → ⊥
    go (kept old was b r l) =
        h k old was (sym (ap (λ (b : Bindings). b.user_key) b) ∙ mine) (l live)
    go (presented was b r l) = l live
    go (minted e b r) = other (sym (ap (λ (b : Bindings). b.user_key) b) ∙ mine)

module _ (c : Crypto) (grace_raw : Option String) where
  -- While the user's tokens are revoked, none of them is rotated: the grace does not revive one, since
  -- the successor that its row names is the same user's.
  pub IsRevoked-refused :
      (user : String) (p : Refreshing) (db : Db) (row : OAuthRefreshToken) {t : RotatedRefreshToken}
      → IsLinked db
      → IsRevoked user db
      → get db.refresh (c.digest p.refresh_token) ≡ some row
      → row.user_key ≡ user
      → (rotate c grace_raw p db).0 ≢ ok t
  IsRevoked-refused user p db row linked h found mine done =
      let (met, at, _, how) = rotate_sound c grace_raw p db done in
      let same : met ≡ row = cc in
      elim how [
        | inl live ↦ h (c.digest p.refresh_token) met at (rw same mine) live
        | inr g ↦
            let owner =
              linked.same_owner (c.digest p.refresh_token) g.successor met g.successor_row at
                g.names g.successor_found in
            h g.successor g.successor_row g.successor_found
              (ap (λ (b : Bindings). b.user_key) owner ∙ rw same mine) g.successor_live
      ]

  issue-minted :
      (now : Instant) (token : String) (b : Bindings) (db : Db) (k : String)
      (row : OAuthRefreshToken)
      → c.digest token ≡ k
      → get db.refresh (c.digest token) ≡ none
      → get (issue_refresh_token c now token b db).1.refresh k ≡ some row
      → row ≡ live_row b now
  unfolding issue_refresh_token sha256_b64u
  issue-minted now token b db k row is unused found =
      ground (arith, ap (get db.refresh) is, eq_iff (c.digest token) k)

  issue-kept :
      (now : Instant) (token : String) (b : Bindings) (db : Db) (k : String)
      (row : OAuthRefreshToken)
      → (c.digest token == k) ≡ false
      → get (issue_refresh_token c now token b db).1.refresh k ≡ some row
      → get db.refresh k ≡ some row
  unfolding issue_refresh_token sha256_b64u
  issue-kept now token b db k row other found = ground arith

  issue-Origin :
      (now : Instant) (token : String) (b : Bindings) (db : Db)
      → IsNew (c.digest token) db
      → (k : String) (row : OAuthRefreshToken)
      → get (issue_refresh_token c now token b db).1.refresh k ≡ some row
      → Origin db (c.digest token) (live_row b now) k row
  issue-Origin now token b db new k row found = elim (Bool-cases (c.digest token == k)) [
    | inl same ↦
        let is : c.digest token ≡ k = (eq_iff (c.digest token) k).0 same in
        let minted_row = issue-minted now token b db k row is new.unused found in
        minted (sym is) (rw minted_row) (rw minted_row)
    | inr other ↦ kept row (issue-kept now token b db k row other found) refl refl (λ e. e)
  ]

  -- A step of the server, as the refresh tokens of one user see it: any token is presented, tokens
  -- are issued to other users, users are revoked, rows are deleted, or nothing of the table is written.
  pub data Step (user : String) (db db' : Db) : Type 0 where
    rotates :
        (p : Refreshing)
        → is_ascii p.new_token ≡ true
        → IsNew (c.digest p.new_token) db
        → db' ≡ (rotate c grace_raw p db).1
        → Step user db db'
    issues :
        (now : Instant) (token : String) (b : Bindings)
        → b.user_key ≢ user
        → IsNew (c.digest token) db
        → db' ≡ (issue_refresh_token c now token b db).1
        → Step user db db'
    revokes :
        (now : Instant) (other : String) → db' ≡ cmd_revoke_tokens now other db → Step user db db'
    deletes :
        (del : String → OAuthRefreshToken → Bool)
        → db'.refresh ≡ delete_where del db.refresh
        → Step user db db'
    elsewhere : db'.refresh ≡ db.refresh → Step user db db'

  pub data Reach (user : String) (db : Db) : Db → Type 0 where
    here : Reach user db db
    next : {db' db'' : Db} → Reach user db db' → Step user db' db'' → Reach user db db''

  Step-IsLinked : (user : String) {db db' : Db} → IsLinked db → Step user db db' → IsLinked db'
  Step-IsLinked user {db} {db'} l (rotates p ascii new e) =
      subst IsLinked (sym e) (rotate-IsLinked c grace_raw p db ascii new l)
  Step-IsLinked user {db} {db'} l (issues now token b other new e) = subst IsLinked (sym e) (
      Origin-IsLinked db (c.digest token) (live_row b now) new l _
        (issue-Origin now token b db new))
  Step-IsLinked user {db} {db'} l (revokes now other e) =
      subst IsLinked (sym e)
        (IsKept-IsLinked db (cmd_revoke_tokens now other db) l (revoke_tokens-IsKept now other db))
  Step-IsLinked user {db} {db'} l (deletes del e) =
      IsKept-IsLinked db db' l (λ k row. deletes-IsKept del db db' k row e)
  Step-IsLinked user {db} {db'} l (elsewhere e) =
      IsKept-IsLinked db db' l (λ k row. unchanged-IsKept db db' k row e)

  rotate-IsRevoked :
      (user : String) (p : Refreshing) (db : Db)
      → is_ascii p.new_token ≡ true
      → IsNew (c.digest p.new_token) db
      → IsLinked db
      → IsRevoked user db
      → IsRevoked user (rotate c grace_raw p db).1
  rotate-IsRevoked user p db ascii new l h = elim (Result-cases (rotate c grace_raw p db).0) [
    | inl (t, done) ↦
        let (row, found, _, _) = rotate_sound c grace_raw p db done in
        Origin-IsRevoked user (c.digest p.new_token) row db (rotate c grace_raw p db).1 h
          (λ mine. IsRevoked-refused user p db row l h found mine done)
          (rotate-Origin c grace_raw p db row found ascii new done)
    | inr (e, refused) ↦ subst (IsRevoked user) (sym (rotate_refused c grace_raw p db refused)) h
  ]

  Step-IsRevoked :
      (user : String) {db db' : Db}
      → IsLinked db
      → IsRevoked user db
      → Step user db db'
      → IsRevoked user db'
  Step-IsRevoked user {db} {db'} l h (rotates p ascii new e) =
      subst (IsRevoked user) (sym e) (rotate-IsRevoked user p db ascii new l h)
  Step-IsRevoked user {db} {db'} l h (issues now token b other new e) =
      subst (IsRevoked user) (sym e) (
        Origin-IsRevoked user (c.digest token) (live_row b now) db
          (issue_refresh_token c now token b db).1 h other (issue-Origin now token b db new))
  Step-IsRevoked user {db} {db'} l h (revokes now other e) = subst (IsRevoked user) (sym e) (
      IsKept-IsRevoked user db (cmd_revoke_tokens now other db) h
        (revoke_tokens-IsKept now other db))
  Step-IsRevoked user {db} {db'} l h (deletes del e) =
      IsKept-IsRevoked user db db' h (λ k row. deletes-IsKept del db db' k row e)
  Step-IsRevoked user {db} {db'} l h (elsewhere e) =
      IsKept-IsRevoked user db db' h (λ k row. unchanged-IsKept db db' k row e)

  Reach-both :
      (user : String) {db db' : Db}
      → IsLinked db
      → IsRevoked user db
      → Reach user db db'
      → IsLinked db' × IsRevoked user db'
  Reach-both user l h here = (l, h)
  Reach-both user l h (next r s) =
      let (l', h') = Reach-both user l h r in (Step-IsLinked user l' s, Step-IsRevoked user l' h' s)

  -- After `revoke-tokens` for a user, no presentation of a refresh token of that user succeeds,
  -- whatever the server does in between, if it issues no token to the user in a new sign-in and the
  -- tokens that it draws are new. The grace for lost responses does not open a way back.
  pub revoked_for_good :
      (now : Instant) (user : String) (p : Refreshing) (db later : Db) (row : OAuthRefreshToken)
      {t : RotatedRefreshToken}
      → IsLinked db
      → Reach user (cmd_revoke_tokens now user db) later
      → get later.refresh (c.digest p.refresh_token) ≡ some row
      → row.user_key ≡ user
      → (rotate c grace_raw p later).0 ≢ ok t
  revoked_for_good now user p db later row l steps found mine =
      let start = cmd_revoke_tokens now user db in
      let linked = IsKept-IsLinked db start l (revoke_tokens-IsKept now user db) in
      let (l', h') = Reach-both user linked (cmd_revoke_tokens-IsRevoked now user db) steps in
      IsRevoked-refused user p later row l' h' found mine
