-- ===== src/AuthServer/Refresh/Invariant.antt =====
-- The chain of rotations: which rows name which successors, and where a row comes from.
use bond_mcps.Prelude.{
  String, ◌≡◌, ◌≢◌, refl, sym, ap, subst, ◌∙◌, true, Option, none, some, arith, ◌==◌, eq_iff, ◌⊎◌,
  inl, inr, Bool-cases, Option-cases, Bool, if◌then◌else◌,
}
use bond_mcps.Db.{Instant, Db, OAuthRefreshToken, Table, get, delete_where, ok, Result-cases}
use bond_mcps.Encryption.{Crypto}
use bond_mcps.AuthServer.Secrets.{is_ascii}
use bond_mcps.AuthServer.Refresh.{cmd_revoke_tokens, RotatedRefreshToken, bindings_of}
use bond_mcps.AuthServer.Refresh.Rotation.{
  Refreshing, rotate_refused, IsBoundTo, IsFresh, IsGraced, rotate, swept, rotate_live,
  rotate_graced, rotate_sound,
}

pub record IsLinked (db : Db) : Type 0 where
  pub live_unreplaced :
      (h : String) (row : OAuthRefreshToken)
      → get db.refresh h ≡ some row
      → row.revoked_at ≡ none
      → row.replaced_by_hash ≡ none
  pub same_owner :
      (h s : String) (row next : OAuthRefreshToken)
      → get db.refresh h ≡ some row
      → row.replaced_by_hash ≡ some s
      → get db.refresh s ≡ some next
      → bindings_of next ≡ bindings_of row

-- No row has the hash, or names it.
pub record IsNew (h : String) (db : Db) : Type 0 where
  pub unused : get db.refresh h ≡ none
  pub unnamed :
      (k : String) (row : OAuthRefreshToken)
      → get db.refresh k ≡ some row
      → row.replaced_by_hash ≢ some h

-- Where a row of the later table comes from: it was there and was at most revoked, it was presented
-- and now names the new hash, or it is the new one. `owner` is the row that was presented.
pub data Origin (db : Db) (new_hash : String) (owner : OAuthRefreshToken) (k : String)
    (row : OAuthRefreshToken) : Type 0 where
  kept :
      (old : OAuthRefreshToken)
      → get db.refresh k ≡ some old
      → bindings_of row ≡ bindings_of old
      → row.replaced_by_hash ≡ old.replaced_by_hash
      → (row.revoked_at ≡ none → old.revoked_at ≡ none)
      → Origin db new_hash owner k row
  presented :
      get db.refresh k ≡ some owner
      → bindings_of row ≡ bindings_of owner
      → row.replaced_by_hash ≡ some new_hash
      → row.revoked_at ≢ none
      → Origin db new_hash owner k row
  minted :
      k ≡ new_hash
      → bindings_of row ≡ bindings_of owner
      → row.replaced_by_hash ≡ none
      → Origin db new_hash owner k row

module _ (db : Db) (n : String) (owner : OAuthRefreshToken) (new : IsNew n db)
    (linked : IsLinked db) where
  live_unreplaced_of :
      (k : String) (row : OAuthRefreshToken)
      → Origin db n owner k row
      → row.revoked_at ≡ none
      → row.replaced_by_hash ≡ none
  live_unreplaced_of k row (kept old found b r l) live =
      r ∙ linked.live_unreplaced k old found (l live)
  live_unreplaced_of k row (presented found b r l) live = absurd (l live)
  live_unreplaced_of k row (minted e b r) live = r

  -- A row that the later table names has the owner's bindings, if the naming row does.
  kept-owner :
      (k s : String) (old next : OAuthRefreshToken)
      → get db.refresh k ≡ some old
      → old.replaced_by_hash ≡ some s
      → Origin db n owner s next
      → bindings_of next ≡ bindings_of old
  kept-owner k s old next found names (kept old' found' b r l) =
      b ∙ linked.same_owner k s old old' found names found'
  kept-owner k s old next found names (presented found' b r l) =
      b ∙ linked.same_owner k s old owner found names found'
  kept-owner k s old next found names (minted e b r) = absurd (new.unnamed k old found (cc))

  new-owner :
      (s : String) (next : OAuthRefreshToken)
      → s ≡ n
      → Origin db n owner s next
      → bindings_of next ≡ bindings_of owner
  new-owner s next is_new (kept old found b r l) = cc (new.unused, ap (get db.refresh) is_new)
  new-owner s next is_new (presented found b r l) = b
  new-owner s next is_new (minted e b r) = b

  same_owner_of :
      (k s : String) (row next : OAuthRefreshToken)
      → Origin db n owner k row
      → row.replaced_by_hash ≡ some s
      → Origin db n owner s next
      → bindings_of next ≡ bindings_of row
  same_owner_of k s row next (kept old found b r l) names o' =
      kept-owner k s old next found (sym r ∙ names) o' ∙ sym b
  same_owner_of k s row next (presented found b r l) names o' =
      new-owner s next (ground arith) o' ∙ sym b
  same_owner_of k s row next (minted e b r) names o' = cc

  -- A table whose rows all have an origin is linked again.
  pub Origin-IsLinked :
      (db' : Db)
      → ((k : String) (row : OAuthRefreshToken)
          → get db'.refresh k ≡ some row
          → Origin db n owner k row)
      → IsLinked db'
  Origin-IsLinked db' from = record {
    live_unreplaced = λ k row found. live_unreplaced_of k row (from k row found);
    same_owner = λ k s row next found names found'.
        same_owner_of k s row next (from k row found) names (from s next found');
  }

-- The three places where a rotation writes or leaves a row.
three_places :
    (h n k : String) (first second after : OAuthRefreshToken) (rest : Option OAuthRefreshToken)
    → (if h == k then some first else if n == k then some second else rest) ≡ some after
    → ((h ≡ k) × (after ≡ first)) ⊎ (((n ≡ k) × (after ≡ second)) ⊎ (rest ≡ some after))
three_places h n k first second after rest e = ground (arith, eq_iff h k, eq_iff n k)

swept-eq-some :
    (now : Instant) (o : Option OAuthRefreshToken) {row : OAuthRefreshToken}
    → swept now o ≡ some row
    → o ≡ some row
swept-eq-some now o e = ground arith

module _ (c : Crypto) (grace_raw : Option String) (p : Refreshing) (db : Db)
    (row : OAuthRefreshToken) (found : get db.refresh (c.digest p.refresh_token) ≡ some row)
    (ascii : is_ascii p.new_token ≡ true) (new : IsNew (c.digest p.new_token) db)
    (bound : IsBoundTo p row) (k : String) (after : OAuthRefreshToken)
    (there : get (rotate c grace_raw p db).1.refresh k ≡ some after) where
  fresh : IsFresh c p db
  fresh = record { ascii = ascii; unused = new.unused }

  live-Origin : row.revoked_at ≡ none → Origin db (c.digest p.new_token) row k after
  live-Origin live =
      elim (three_places _ _ k _ _ after _
        (sym ((rotate_live c grace_raw p db row found live bound fresh).1 k) ∙ there)) [
          | inl (same, is) ↦ presented (rw (← same) found) (rw is) (rw is) (λ e. cc)
          | inr (inl (same, is)) ↦ minted (sym same) (rw is) (rw is)
          | inr (inr old) ↦
              kept after (swept-eq-some p.now (get db.refresh k) old) refl refl (λ e. e)
        ]

  -- The rows that were not presented or minted: the retired successor, and those left alone.
  graced_rest :
      (g : IsGraced c grace_raw p db row)
      → (if g.successor == k
          then swept p.now (some (record g.successor_row { revoked_at = some p.now }))
          else swept p.now (get db.refresh k))
        ≡ some after
      → Origin db (c.digest p.new_token) row k after
  graced_rest g rest = elim (Bool-cases (g.successor == k)) [
    | inl is ↦
        let retired : some (record g.successor_row { revoked_at = some p.now }) ≡ some after =
          swept-eq-some p.now (some (record g.successor_row { revoked_at = some p.now }))
            (rw is at rest) in
        let same = (eq_iff g.successor k).0 is in
        let here : get db.refresh k ≡ some g.successor_row = rw (← same) g.successor_found in
        kept g.successor_row here (ground arith) (ground arith) (λ e. ground arith)
    | inr isnt ↦
        kept after (swept-eq-some p.now (get db.refresh k) (rw isnt at rest)) refl refl (λ e. e)
  ]

  graced-Origin : IsGraced c grace_raw p db row → Origin db (c.digest p.new_token) row k after
  graced-Origin g =
      elim (three_places _ _ k _ _ after _
        (sym ((rotate_graced c grace_raw p db row g found bound fresh).1 k) ∙ there)) [
          | inl (same, is) ↦
              presented (rw (← same) found) (rw is) (rw is) (λ e. cc (e, is, g.was_revoked))
          | inr (inl (same, is)) ↦ minted (sym same) (rw is) (rw is)
          | inr (inr rest) ↦ graced_rest g rest
        ]

module _ (c : Crypto) (grace_raw : Option String) where
  -- Where the rows after a successful rotation come from.
  pub rotate-Origin :
      (p : Refreshing) (db : Db) (row : OAuthRefreshToken) {t : RotatedRefreshToken}
      → get db.refresh (c.digest p.refresh_token) ≡ some row
      → is_ascii p.new_token ≡ true
      → IsNew (c.digest p.new_token) db
      → (rotate c grace_raw p db).0 ≡ ok t
      → (k : String) (after : OAuthRefreshToken)
      → get (rotate c grace_raw p db).1.refresh k ≡ some after
      → Origin db (c.digest p.new_token) row k after
  rotate-Origin p db row found ascii new done k after there =
      let (row', found', bound', how') = rotate_sound c grace_raw p db done in
      let same : row' ≡ row = cc in
      let bound : IsBoundTo p row = subst (IsBoundTo p) same bound' in
      let how = subst (λ r. (r.revoked_at ≡ none) ⊎ IsGraced c grace_raw p db r) same how' in
      elim how [
        | inl live ↦ live-Origin c grace_raw p db row found ascii new bound k after there live
        | inr g ↦ graced-Origin c grace_raw p db row found ascii new bound k after there g
      ]

  -- A rotation, refused or not, keeps the chain linked, if the drawn token is new.
  pub rotate-IsLinked :
      (p : Refreshing) (db : Db)
      → is_ascii p.new_token ≡ true
      → IsNew (c.digest p.new_token) db
      → IsLinked db
      → IsLinked (rotate c grace_raw p db).1
  rotate-IsLinked p db ascii new linked = elim (Result-cases (rotate c grace_raw p db).0) [
    | inl (t, done) ↦
        let (row, found, _, _) = rotate_sound c grace_raw p db done in
        Origin-IsLinked db (c.digest p.new_token) row new linked (rotate c grace_raw p db).1
          (rotate-Origin p db row found ascii new done)
    | inr (e, refused) ↦ subst IsLinked (sym (rotate_refused c grace_raw p db refused)) linked
  ]

-- A row that was there, and was at most revoked.
pub record IsKept (db : Db) (k : String) (row : OAuthRefreshToken) : Type 0 where
  pub old : OAuthRefreshToken
  pub found : get db.refresh k ≡ some old
  pub same_bindings : bindings_of row ≡ bindings_of old
  pub same_successor : row.replaced_by_hash ≡ old.replaced_by_hash
  pub at_most_revoked : row.revoked_at ≡ none → old.revoked_at ≡ none

pub IsKept-IsLinked :
    (db db' : Db)
    → IsLinked db
    → ((k : String) (row : OAuthRefreshToken) → get db'.refresh k ≡ some row → IsKept db k row)
    → IsLinked db'
IsKept-IsLinked db db' linked from = record {
  live_unreplaced = λ k row found live.
      let o = from k row found in
      o.same_successor ∙ linked.live_unreplaced k o.old o.found (o.at_most_revoked live);
  same_owner = λ k s row next found names found'.
      let o = from k row found in
      let o' = from s next found' in
      o'.same_bindings
      ∙ linked.same_owner k s o.old o'.old o.found (sym o.same_successor ∙ names) o'.found
      ∙ sym o.same_bindings;
}

revoke_tokens-missing :
    (now : Instant) (user_key : String) (db : Db) (k : String) (row : OAuthRefreshToken)
    → get db.refresh k ≡ none
    → get (cmd_revoke_tokens now user_key db).refresh k ≢ some row
unfolding cmd_revoke_tokens
revoke_tokens-missing now user_key db k row missing found = ground arith

revoke_tokens-there :
    (now : Instant) (user_key : String) (db : Db) (k : String) (row old : OAuthRefreshToken)
    → get db.refresh k ≡ some old
    → get (cmd_revoke_tokens now user_key db).refresh k ≡ some row
    → IsKept db k row
unfolding cmd_revoke_tokens
revoke_tokens-there now user_key db k row old there found = record {
  old = old;
  found = there;
  same_bindings = ground arith;
  same_successor = ground arith;
  at_most_revoked = λ e. ground arith;
}

pub revoke_tokens-IsKept :
    (now : Instant) (user_key : String) (db : Db) (k : String) (row : OAuthRefreshToken)
    → get (cmd_revoke_tokens now user_key db).refresh k ≡ some row
    → IsKept db k row
revoke_tokens-IsKept now user_key db k row found = elim (Option-cases (get db.refresh k)) [
  | inl missing ↦ absurd (revoke_tokens-missing now user_key db k row missing found)
  | inr (old, there) ↦ revoke_tokens-there now user_key db k row old there found
]

pub deletes-IsKept :
    (del : String → OAuthRefreshToken → Bool) (db db' : Db) (k : String) (row : OAuthRefreshToken)
    → db'.refresh ≡ delete_where del db.refresh
    → get db'.refresh k ≡ some row
    → IsKept db k row
deletes-IsKept del db db' k row deleted found = record {
  old = row;
  found = ground (arith, ap (λ (t : Table OAuthRefreshToken). get t k) deleted);
  same_bindings = refl;
  same_successor = refl;
  at_most_revoked = λ e. e;
}
