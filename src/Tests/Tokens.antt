-- ===== src/Tests/Tokens.antt =====
-- The token store and the identity of requests at concrete inputs.
use bond_mcps.Prelude.{
  subst, arith, ℕ, String, ◌≡◌, refl, ap, Option, none, some, true, strip, lstrip, rstrip,
}
use bond_mcps.Db.{Bytes, Result, ok}
use bond_mcps.JsonValue.{end, field, text, get_field, has_field}
use bond_mcps.Encryption.{get_key, load_v1_key, decode_key}
use bond_mcps.TokenStore.{TokenData, Tokens, save_token, update, get_token}
use bond_mcps.TokenStore.Refresh.{TokenResponse, Refreshed, response, refresh_if_needed}
use bond_mcps.TokenStore.Laws.{TokenMap, assign, as_stored, Represents, save_token-Represents}
use bond_mcps.TokenStore.Refinement.{Refines, refresh_if_needed-Refines}
use bond_mcps.TokenStore.Merging.{Distinct}
use bond_mcps.TokenStore.MapRefresh.{IsRefresh}
use bond_mcps.TokenStore.Readback.{update-get_token}
use bond_mcps.TokenStore.Msal.{Caches, locked_msal_cache}
use bond_mcps.TokenStore.Msal.Laws.{locked_in_map, locked_msal_cache-Represents}
use bond_mcps.TokenStore.Identity.{
  Env, Access, validated, Source, get_sub_claim, jwt_mode_enabled, key_of_claim,
  resolve_user_key_for_request, resolve_user_key_for_request_sound,
}
use bond_mcps.Tests.Setup.{crypto, crypto-IsAead, crypto-IsUtf8, resolver, nonce}

abbrev key_of_32 : Bytes
key_of_32 = crypto.encode "0123456789abcdef0123456789abcdef"

has_key : get_key crypto resolver 1 ≡ ok key_of_32
unfolding get_key load_v1_key decode_key
has_key = refl

-- A token that ends at the second 1000, with a refresh token and the identifier of a cloud.
abbrev prior : TokenData
prior = record {
  access_token = some "a-1";
  refresh_token = some "r-1";
  expires_at = some 1000;
  scopes = none;
  extras = field "cloud_id" (text "c-7") end;
}

-- The answer of the provider, without a refresh token.
abbrev new : TokenData
new = record {
  access_token = some "a-2";
  refresh_token = none;
  expires_at = none;
  scopes = none;
  extras = end;
}

abbrev do_refresh : String → Refreshed
do_refresh token =
    response (record { names_access_token = true; expires_in = some 3600; content = new })

abbrev no_tokens : Tokens
no_tokens user_key provider = none

abbrev no_map : TokenMap
no_map user_key provider = none

no_tokens-Represents : Represents crypto resolver no_tokens no_map
unfolding get_token
no_tokens-Represents u p = refl

abbrev one_in_map : TokenMap
one_in_map = assign "sub-7" "atlassian" (some (as_stored "a-1" prior)) no_map

save_token-Represents_example :
    (tokens : Tokens) × (save_token crypto resolver nonce nonce "sub-7" "atlassian" prior no_tokens
      ≡ (ok tt, tokens))
    × Represents crypto resolver tokens one_in_map
save_token-Represents_example =
    save_token-Represents crypto resolver crypto-IsAead crypto-IsUtf8 key_of_32 has_key nonce nonce
      "sub-7" "atlassian" "a-1" prior no_tokens no_map refl refl refl no_tokens-Represents

abbrev one_token : Tokens
one_token = (save_token crypto resolver nonce nonce "sub-7" "atlassian" prior no_tokens).1

one_token-Represents : Represents crypto resolver one_token one_in_map
one_token-Represents =
    let (tokens, saved, h) =
      save_token-Represents crypto resolver crypto-IsAead crypto-IsUtf8 key_of_32 has_key nonce
        nonce "sub-7" "atlassian" "a-1" prior no_tokens no_map refl refl refl
        no_tokens-Represents in
    rw (ap (λ o. o.1) saved) h

update-get_token_example :
    (stored : TokenData) × ((update crypto resolver nonce nonce "sub-7" "atlassian"
        (some prior)
        new
        one_token).0
      ≡ ok (some stored))
    × (get_token crypto resolver "sub-7" "atlassian"
          (update crypto resolver nonce nonce "sub-7" "atlassian" (some prior) new one_token).1
        ≡ ok (some stored))
    × (stored.access_token ≡ some "a-2")
    × (stored.expires_at ≡ none)
    × (stored.refresh_token ≡ some "r-1")
    × (get_field "cloud_id" stored.extras ≡ text "c-7")
unfolding get_field has_field Distinct
update-get_token_example =
    update-get_token crypto resolver crypto-IsAead crypto-IsUtf8 key_of_32 has_key nonce nonce
      "sub-7" "atlassian" "a-2" "r-1" "cloud_id" prior new one_token one_in_map refl refl refl refl
      tt one_token-Represents

answers_differ :
    (token : String) (answer : TokenResponse)
    → do_refresh token ≡ response answer
    → Distinct answer.content.extras
unfolding Distinct
answers_differ token answer got =
    let is : record { names_access_token = true; expires_in = some 3600; content = new } ≡ answer =
      ground (arith, got) in
    subst (λ (a : TokenResponse). Distinct a.content.extras) is tt

refresh_if_needed-Refines_example :
    (spec : Result (Option String) × TokenMap) × IsRefresh "sub-7" "atlassian" 990 991 do_refresh
      one_in_map spec
    × Refines crypto resolver
        (refresh_if_needed crypto resolver nonce nonce "sub-7" "atlassian" 990 991 do_refresh
          one_token)
        spec
refresh_if_needed-Refines_example =
    refresh_if_needed-Refines crypto resolver nonce nonce "sub-7" "atlassian" crypto-IsAead
      crypto-IsUtf8 key_of_32 has_key refl refl 990 991 do_refresh one_token one_in_map
      answers_differ one_token-Represents

abbrev no_caches : Caches
no_caches user_key = none

abbrev no_blobs : String → Option String
no_blobs user_key = none

-- A sign-in fills the cache.
abbrev fill : Option String → Result (ℕ × Option String)
fill blob = ok (7, some "{}")

no_caches-Represents : bond_mcps.TokenStore.Msal.Laws.Represents crypto resolver no_caches no_blobs
unfolding bond_mcps.TokenStore.Msal.get_msal_cache
no_caches-Represents u = refl

locked_msal_cache-Represents_example :
    ((locked_msal_cache crypto resolver nonce "sub-7" fill no_caches).0
      ≡ (locked_in_map "sub-7" (fill none) no_blobs).0)
    × bond_mcps.TokenStore.Msal.Laws.Represents crypto resolver
        (locked_msal_cache crypto resolver nonce "sub-7" fill no_caches).1
        (locked_in_map "sub-7" (fill none) no_blobs).1
locked_msal_cache-Represents_example =
    locked_msal_cache-Represents crypto resolver crypto-IsAead crypto-IsUtf8 key_of_32 has_key nonce
      refl "sub-7" fill no_caches no_blobs no_caches-Represents

abbrev deployed : Env
deployed = record {
  user_id = none;
  db_url = some "postgresql://db";
  jwks_uri = some "https://as/jwks";
  public_key = none;
  sub_claim = none;
  login = "root";
}

abbrev caller : Access
caller = validated (field "sub" (text "sub-7") end)

resolve_user_key_for_request_sound_example : Source deployed caller "sub-7"
unfolding resolve_user_key_for_request jwt_mode_enabled get_sub_claim key_of_claim get_field strip
    lstrip rstrip
resolve_user_key_for_request_sound_example =
    resolve_user_key_for_request_sound deployed caller "sub-7" refl
