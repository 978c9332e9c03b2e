-- ===== src/TokenStore/Refresh.antt =====
-- auth/auth/token_store.py: the tokens of one user and provider, and their refresh at the provider.
use bond_mcps.Prelude.{ℕ, ◌+◌, String, Bool, Option, none, some, if◌then◌else◌, present}
use bond_mcps.Db.{Bytes, Result, ok, err}
use bond_mcps.Encryption.{Crypto, Resolver}
use bond_mcps.TokenStore.{TokenData, Tokens, Run, get_token, update, locked_token, is_expired}

-- A token response: whether it names an access token, its `expires_in`, which is a number, and the rest.
pub record TokenResponse : Type 0 where
  pub names_access_token : Bool
  pub expires_in : Option ℕ
  pub content : TokenData

-- What `_do_refresh` gives for a refresh token: an exception, None or an empty answer, or a response.
pub data Refreshed : Type 0 where
  raised : Refreshed
  nothing : Refreshed
  response : TokenResponse → Refreshed

-- `new_data` behind the step that puts `expires_at` for `expires_in`
unfoldable pub with_expiry : ℕ → TokenResponse → TokenData
with_expiry now answer = elim answer.expires_in [
  | none ↦ answer.content
  | some seconds ↦ record {
    access_token = answer.content.access_token;
    refresh_token = answer.content.refresh_token;
    expires_at = some (now + seconds);
    scopes = answer.content.scopes;
    extras = answer.content.extras;
  }
]

module _ (c : Crypto) (r : Resolver) (user_key provider : String) where
  -- TokenStore.get_token
  unfoldable pub get_current : ℕ → Tokens → Result (Option TokenData)
  get_current now tokens = elim (get_token c r user_key provider tokens) [
    | err e ↦ err e
    | ok none ↦ ok none
    | ok (some found) ↦ ok (if is_expired now found then none else some found)
  ]

module _ (c : Crypto) (r : Resolver) (nonce nonce' : Bytes) (user_key provider : String) where
  -- `locked.update(new_data)` and `return locked.data["access_token"]`
  unfoldable pub store_answer : Option TokenData → TokenData → Run (Option String)
  store_answer prior new tokens =
      let (result, tokens') = update c r nonce nonce' user_key provider prior new tokens in
      elim result [
        | err e ↦ (err e, tokens')
        | ok none ↦ (ok none, tokens')
        | ok (some found) ↦ (ok found.access_token, tokens')
      ]

  -- The body of `refresh_if_needed`; `now` is the time of the test, `now'` that of the answer.
  unfoldable pub refresh_locked :
      ℕ → ℕ → (String → Refreshed) → Option TokenData → Run (Option String)
  refresh_locked now now' do_refresh none tokens = (ok none, tokens)
  refresh_locked now now' do_refresh (some locked) tokens =
      if is_expired now locked
      then elim (present locked.refresh_token) [
        | none ↦ (ok none, tokens)
        | some refresh_token ↦ elim (do_refresh refresh_token) [
          | raised ↦ (ok none, tokens)
          | nothing ↦ (ok none, tokens)
          | response answer ↦
              if answer.names_access_token
              then store_answer (some locked) (with_expiry now' answer) tokens
              else (ok none, tokens)
        ]
      ]
      else (ok locked.access_token, tokens)

  abbrev pub refresh_if_needed : ℕ → ℕ → (String → Refreshed) → Run (Option String)
  refresh_if_needed now now' do_refresh =
      locked_token c r user_key provider (refresh_locked now now' do_refresh)
