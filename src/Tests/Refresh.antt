-- ===== src/Tests/Refresh.antt =====
-- Refresh tokens at concrete inputs: a rotation, a retry, a replay, a revocation.
use bond_mcps.Prelude.{
  ◌<◌, String, ◌≡◌, ◌≢◌, refl, strip, lstrip, rstrip, none, some, ◌==◌, if◌then◌else◌, arith,
  eq_iff,
}
use bond_mcps.Db.{Db, OAuthRefreshToken, get, put, ok, err, Exception, AuthCodeError}
use bond_mcps.AuthServer.Secrets.{is_ascii, sha256_b64u}
use bond_mcps.AuthServer.Refresh.{
  Bindings, bindings_of, live_row, rotate_refresh_token, sweep_refresh_tokens, revoke_live, admit,
  mint, refresh_grace_seconds, cmd_revoke_tokens,
}
use bond_mcps.AuthServer.Refresh.Rotation.{
  Refreshing, swept, rotated_of, IsBoundTo, IsFresh, IsGraced, rotate, rotate_live, rotate_graced,
}
use bond_mcps.AuthServer.Refresh.Grace.{retry_honoured, replay_refused}
use bond_mcps.AuthServer.Refresh.Invariant.{IsLinked, IsNew, rotate-IsLinked}
use bond_mcps.AuthServer.Refresh.Revocation.{revoked_for_good, here}
use bond_mcps.Tests.Setup.{crypto, no_rows}

abbrev bindings : Bindings
bindings = record { client_id = "bm-1"; user_key = "sub-7"; resource = none; scope = none }

abbrev row : OAuthRefreshToken
row = live_row bindings 0

abbrev one_token : Db
one_token = record no_rows { refresh = put "old" row no_rows.refresh }

abbrev first : Refreshing
first = record { now = 1000; new_token = "new"; refresh_token = "old"; client_id = "bm-1" }

-- The same token again, as a retry.
abbrev again : Refreshing
again = record { now = 2000; new_token = "newer"; refresh_token = "old"; client_id = "bm-1" }

-- The successor is used.
abbrev second : Refreshing
second = record { now = 1500; new_token = "next"; refresh_token = "new"; client_id = "bm-1" }

bound : IsBoundTo first row
unfolding is_ascii
bound = record { in_time = ground arith; same_client = refl; ascii = refl }

fresh : IsFresh crypto first one_token
unfolding is_ascii
fresh = record { ascii = refl; unused = refl }

rotated : (rotate crypto none first one_token).0 ≡ ok (rotated_of row "new")
rotated = (rotate_live crypto none first one_token row refl refl bound fresh).0

abbrev after : Db
after = (rotate crypto none first one_token).1

rotate_live_example :
    ((rotate crypto none first one_token).0 ≡ ok (rotated_of row "new"))
    × ((k : String)
        → get (rotate crypto none first one_token).1.refresh k ≡ (
            if "old" == k
            then some (record row { revoked_at = some 1000; replaced_by_hash = some "new" })
            else if "new" == k
            then some (live_row (bindings_of row) 1000)
            else swept 1000 (get one_token.refresh k)))
rotate_live_example = rotate_live crypto none first one_token row refl refl bound fresh

-- The row that was replaced, with its unused successor.
abbrev replaced : OAuthRefreshToken
replaced = record row { revoked_at = some 1000; replaced_by_hash = some "new" }

abbrev two_tokens : Db
two_tokens = record no_rows {
  refresh = put "new" (live_row bindings 1000) (put "old" replaced no_rows.refresh);
}

graced : IsGraced crypto none again two_tokens replaced
unfolding refresh_grace_seconds strip lstrip rstrip
graced = record {
  revoked_at = 1000;
  successor = "new";
  successor_row = live_row bindings 1000;
  was_revoked = refl;
  names = refl;
  successor_found = refl;
  successor_live = refl;
  enabled = ground arith;
  within = ground arith;
}

bound_again : IsBoundTo again replaced
unfolding is_ascii
bound_again = record { in_time = ground arith; same_client = refl; ascii = refl }

IsFresh-again : IsFresh crypto again two_tokens
unfolding is_ascii
IsFresh-again = record { ascii = refl; unused = refl }

rotate_graced_example :
    ((rotate crypto none again two_tokens).0 ≡ ok (rotated_of replaced "newer"))
    × ((k : String)
        → get (rotate crypto none again two_tokens).1.refresh k ≡ (
            if "old" == k
            then some (record replaced { replaced_by_hash = some "newer" })
            else if "newer" == k
            then some (live_row (bindings_of replaced) 2000)
            else if graced.successor == k
            then swept 2000 (some (record graced.successor_row { revoked_at = some 2000 }))
            else swept 2000 (get two_tokens.refresh k)))
rotate_graced_example =
    rotate_graced crypto none again two_tokens replaced graced refl bound_again IsFresh-again

unknown_token :
    (rotate crypto none first no_rows).0 ≡ err (Exception.auth_code AuthCodeError.refresh_unknown)
unfolding rotate rotate_refresh_token sha256_b64u is_ascii revoke_live admit
unknown_token = refl

grace_set : 0 < refresh_grace_seconds none
unfolding refresh_grace_seconds strip lstrip rstrip
grace_set = ground arith

IsFresh-after : IsFresh crypto again after
unfolding is_ascii rotate rotate_refresh_token sha256_b64u revoke_live admit mint
    sweep_refresh_tokens
IsFresh-after = record { ascii = refl; unused = refl }

retry_honoured_example :
    (rotate crypto none again (rotate crypto none first one_token).1).0
    ≡ ok (rotated_of row "newer")
unfolding refresh_grace_seconds strip lstrip rstrip
retry_honoured_example =
    retry_honoured crypto none first again one_token row refl refl bound fresh refl refl
      (omega arith) grace_set (ground arith) IsFresh-after

IsFresh-second : IsFresh crypto second after
unfolding is_ascii rotate rotate_refresh_token sha256_b64u revoke_live admit mint
    sweep_refresh_tokens
IsFresh-second = record { ascii = refl; unused = refl }

used_second : (rotate crypto none second after).0 ≡ ok (rotated_of row "next")
unfolding is_ascii rotate rotate_refresh_token sha256_b64u revoke_live admit mint
    sweep_refresh_tokens
used_second = refl

replay_refused_example :
    (rotate crypto none again
      (rotate crypto none second (rotate crypto none first one_token).1).1).0
    ≢ ok (rotated_of row "newer")
replay_refused_example =
    replay_refused crypto none first second again one_token row refl refl bound fresh refl
      IsFresh-second used_second refl

linked : IsLinked one_token
linked = record {
  live_unreplaced = λ h r found live. ground (arith, eq_iff "old" h);
  same_owner = λ h s r next found names found'. ground (arith, eq_iff "old" h);
}

new : IsNew "new" one_token
new = record { unused = refl; unnamed = λ k r found names. ground (arith, eq_iff "old" k) }

rotate-IsLinked_example : IsLinked (rotate crypto none first one_token).1
unfolding is_ascii
rotate-IsLinked_example = rotate-IsLinked crypto none first one_token refl new linked

revoked_for_good_example :
    (rotate crypto none first (cmd_revoke_tokens 500 "sub-7" one_token)).0
    ≢ ok (rotated_of row "new")
unfolding cmd_revoke_tokens
revoked_for_good_example =
    revoked_for_good crypto none 500 "sub-7" first one_token
      (cmd_revoke_tokens 500 "sub-7" one_token) (record row { revoked_at = some 500 }) linked here
      refl refl
