-- ===== src/TokenStore.antt =====
-- auth/auth/db/repository.py: the rows of the providers' tokens, which are encrypted, and the locked
-- read-modify-write of a refresh. A token dict is the record TokenData, with what is not one of the
-- reserved fields in `extras`; None stands for a key that is missing. A time is in whole seconds. The
-- forms of `expires_at` other than a number are left out, and so are the timestamps of a row.
pub mod Refresh
pub mod Identity
pub mod Msal
pub mod Laws
pub mod Merging
pub mod MapRefresh
pub mod Readback
pub mod Refinement
use Prim.Native.String
use bond_mcps.Prelude.{
  ℕ, ◌+◌, String, Bool, true, false, ◌&&◌, Option, none, some, List, [], ◌∷◌, ◌==◌, leb,
  if◌then◌else◌, present, is_some,
}
use bond_mcps.Db.{Bytes, Result, ok, err, Exception}
use bond_mcps.JsonValue.{Json, Fields, end, field}
use bond_mcps.Encryption.{Crypto, Resolver, encrypt, encrypt_optional, decrypt, decrypt_optional}

pub data Scopes : Type 0 where
  joined : String → Scopes
  listed : List String → Scopes

pub record TokenData : Type 0 where
  pub access_token : Option String
  pub refresh_token : Option String
  pub expires_at : Option ℕ
  pub scopes : Option Scopes
  pub extras : Fields

pub record ProviderToken : Type 0 where
  pub access_token_encrypted : Bytes
  pub refresh_token_encrypted : Option Bytes
  pub refresh_token_key_version : Option ℕ
  pub expires_at : Option ℕ
  pub scopes : Option String
  pub extra_metadata : Fields
  pub key_version : ℕ

-- The rows by user key and provider
abbrev pub Tokens : Type 0
Tokens = String → String → Option ProviderToken

-- A method on the rows that may raise
abbrev pub Run : Type 0 → Type 0
Run A = Tokens → Result A × Tokens

-- `session.get(ProviderToken, ...)` is the function itself; the row of one key is written or deleted.
abbrev pub write_row : String → String → Option ProviderToken → Tokens → Tokens
write_row user_key provider row tokens u p =
    if user_key == u && provider == p then row else tokens u p

abbrev pub and_then : {A B : Type 0} → Result A → (A → Result B) → Result B
and_then (ok a) f = f a
and_then (err e) f = err e

-- `" ".join(scopes)`
unfoldable pub join_spaces : List String → String
join_spaces [] = ""
join_spaces (s ∷ []) = s
join_spaces (s ∷ t ∷ ss) = String.◌++◌ s (String.◌++◌ " " (join_spaces (t ∷ ss)))

abbrev pub scopes_str : Option Scopes → Option String
scopes_str none = none
scopes_str (some (joined s)) = some s
scopes_str (some (listed ss)) = some (join_spaces ss)

-- `fields[key] = value`
unfoldable pub set_field : String → Json → Fields → Fields
set_field key value end = field key value end
set_field key value (field k v rest) =
    let others = set_field key value rest in
    if k == key then field k value rest else field k v others

-- `{**fields, **new}`
unfoldable pub merge_fields : Fields → Fields → Fields
merge_fields fields end = fields
merge_fields fields (field k v new) = merge_fields (set_field k v fields) new

-- Python's truth test of the scopes, and of a text
abbrev pub true_scopes : Option Scopes → Option Scopes
true_scopes none = none
true_scopes (some (joined s)) = if s == "" then none else some (joined s)
true_scopes (some (listed [])) = none
true_scopes (some (listed (s ∷ ss))) = some (listed (s ∷ ss))

-- `prior[field]` where the field of the new data is not true and the prior one is
abbrev pub keep {ℓ} : {A : Type ℓ} → (Option A → Option A) → Option A → Option A → Option A
keep true_value new prior =
    if is_some (true_value new)
    then new
    else elim (true_value prior) [ none ↦ new | some a ↦ some a ]

-- What `update` merges of the prior data and the new data
unfoldable pub merged : Option TokenData → TokenData → TokenData
merged none new = new
merged (some prior) new = record {
  access_token = new.access_token;
  refresh_token = keep present new.refresh_token prior.refresh_token;
  expires_at = new.expires_at;
  scopes = keep true_scopes new.scopes prior.scopes;
  extras = merge_fields prior.extras new.extras;
}

module _ (c : Crypto) (r : Resolver) where
  -- `.decode("utf-8")`
  abbrev pub utf8_text : Bytes → Result String
  utf8_text bytes = elim (c.decode bytes) [ none ↦ err Exception.unicode_error | some s ↦ ok s ]

  abbrev pub encode_optional : Option String → Option Bytes
  encode_optional none = none
  encode_optional (some s) = some (c.encode s)

  -- `_encode_provider_token_values`, with the access token of the data and the nonces that are drawn
  unfoldable pub encode_values :
      Bytes → Bytes → String → String → String → TokenData → Result ProviderToken
  encode_values nonce nonce' user_key provider access content =
      and_then (encrypt c r nonce user_key provider "access_token" (c.encode access)) (λ sealed.
        and_then
          (encrypt_optional c r nonce' user_key provider "refresh_token"
            (encode_optional content.refresh_token))
          (λ refresh. ok (record {
            access_token_encrypted = sealed.0;
            refresh_token_encrypted = elim refresh [ none ↦ none | some blob ↦ some blob.0 ];
            refresh_token_key_version = elim refresh [ none ↦ none | some blob ↦ some blob.1 ];
            expires_at = content.expires_at;
            scopes = scopes_str content.scopes;
            extra_metadata = content.extras;
            key_version = sealed.1;
          })))

  unfoldable pub decode_row : String → String → ProviderToken → Result TokenData
  decode_row user_key provider row =
      and_then
        (decrypt c r user_key provider "access_token" row.key_version row.access_token_encrypted)
        (λ access. and_then (utf8_text access) (λ access_token.
          and_then
            (decrypt_optional c r user_key provider "refresh_token" row.refresh_token_key_version
              row.refresh_token_encrypted)
            (λ refresh.
              and_then
                (elim refresh [
                  | none ↦ ok none
                  | some bytes ↦ and_then (utf8_text bytes) (λ s. ok (some s))
                ])
                (λ refresh_token. ok (record {
                  access_token = some access_token;
                  refresh_token = refresh_token;
                  expires_at = row.expires_at;
                  scopes = elim (present row.scopes) [ none ↦ none | some s ↦ some (joined s) ];
                  extras = row.extra_metadata;
                })))))

  unfoldable pub get_token : String → String → Tokens → Result (Option TokenData)
  get_token user_key provider tokens = elim (tokens user_key provider) [
    | none ↦ ok none
    | some row ↦ and_then (decode_row user_key provider row) (λ found. ok (some found))
  ]

  -- `_upsert_provider_token` behind the test for an access token
  unfoldable pub save_token : Bytes → Bytes → String → String → TokenData → Run (Unit {0})
  save_token nonce nonce' user_key provider content tokens = elim (present content.access_token) [
    | none ↦ (err Exception.value_error, tokens)
    | some access ↦ elim (encode_values nonce nonce' user_key provider access content) [
      | err e ↦ (err e, tokens)
      | ok row ↦ (ok tt, write_row user_key provider (some row) tokens)
    ]
  ]

  abbrev pub clear_token : String → String → Run (Unit {0})
  clear_token user_key provider tokens = (ok tt, write_row user_key provider none tokens)

  -- LockedToken.update, with the prior data; its result is the data that is read back.
  unfoldable pub update :
      Bytes → Bytes → String → String → Option TokenData → TokenData → Run (Option TokenData)
  update nonce nonce' user_key provider prior new tokens =
      let (r', tokens') = save_token nonce nonce' user_key provider (merged prior new) tokens in
      elim r' [
        | err e ↦ (err e, tokens')
        | ok done ↦ (get_token user_key provider tokens', tokens')
      ]

  -- `with locked_token(...) as locked: body`: an exception rolls the rows back.
  abbrev pub locked_token : {A : Type 0} → String → String → (Option TokenData → Run A) → Run A
  locked_token user_key provider body tokens = elim (get_token user_key provider tokens) [
    | err e ↦ (err e, tokens)
    | ok locked ↦
        let (result, tokens') = body locked tokens in
        elim result [ ok a ↦ (ok a, tokens') | err e ↦ (err e, tokens) ]
  ]

-- LockedToken.is_expired, and TokenStore._is_expired: 60 seconds before the end
abbrev pub is_expired : ℕ → TokenData → Bool
is_expired now content = elim content.expires_at [ none ↦ false | some e ↦ leb e (now + 60) ]
