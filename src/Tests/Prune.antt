-- ===== src/Tests/Prune.antt =====
-- `prune-oauth` at concrete inputs.
use bond_mcps.Prelude.{◌≡◌, refl, none, some, false, [], arith, contains}
use bond_mcps.Db.{Db, OAuthClient, OAuthRefreshToken, get, put, ok}
use bond_mcps.AuthServer.Secrets.{is_ascii}
use bond_mcps.AuthServer.Refresh.{Bindings, live_row}
use bond_mcps.AuthServer.Refresh.Rotation.{
  Refreshing, rotated_of, IsBoundTo, IsFresh, rotate, rotate_live,
}
use bond_mcps.AuthServer.Prune.{PruneArgs, cmd_prune_oauth}
use bond_mcps.AuthServer.Prune.Laws.{active, rotate-cmd_prune_oauth, cmd_prune_oauth_spares}
use bond_mcps.Tests.Setup.{crypto, no_rows}

abbrev bindings : Bindings
bindings = record { client_id = "bm-1"; user_key = "sub-7"; resource = none; scope = none }

abbrev row : OAuthRefreshToken
row = live_row bindings 0

-- A client that was registered long ago, to which a token was issued.
abbrev client : OAuthClient
client = record {
  client_name = none;
  redirect_uris = [];
  token_endpoint_auth_method = "none";
  grant_types = [];
  response_types = [];
  scope = none;
  is_static = false;
  created_at = 0;
}

abbrev rows : Db
rows = record no_rows {
  clients = put "bm-1" client no_rows.clients;
  refresh = put "old" row no_rows.refresh;
}

abbrev args : PruneArgs
args = record { client_idle_days = 90; revoked_grace_days = none; dry_run = false }

abbrev first : Refreshing
first = record { now = 1000; new_token = "new"; refresh_token = "old"; client_id = "bm-1" }

bound : IsBoundTo first row
unfolding is_ascii
bound = record { in_time = ground arith; same_client = refl; ascii = refl }

fresh : IsFresh crypto first rows
unfolding is_ascii
fresh = record { ascii = refl; unused = refl }

rotated : (rotate crypto none first rows).0 ≡ ok (rotated_of row "new")
rotated = (rotate_live crypto none first rows row refl refl bound fresh).0

rotate-cmd_prune_oauth_example :
    (rotate crypto none first (cmd_prune_oauth none 500 args rows).1).0 ≡ ok (rotated_of row "new")
rotate-cmd_prune_oauth_example =
    rotate-cmd_prune_oauth none 500 args rows crypto first refl (omega arith) fresh rotated

cmd_prune_oauth_spares_example :
    get (cmd_prune_oauth none 500 args rows).1.clients "bm-1" ≡ some client
unfolding contains
cmd_prune_oauth_spares_example =
    cmd_prune_oauth_spares none 500 args rows "bm-1" client refl
      (active "old" row refl refl refl (ground arith))
