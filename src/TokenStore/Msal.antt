-- ===== src/TokenStore/Msal.antt =====
-- auth/auth/db/repository.py: the encrypted MSAL cache of a user, and its locked read-modify-write.
pub mod Laws
use bond_mcps.Prelude.{ℕ, String, Option, none, some, ◌==◌, if◌then◌else◌}
use bond_mcps.Db.{Bytes, Result, ok, err}
use bond_mcps.Encryption.{Crypto, Resolver, encrypt, decrypt}
use bond_mcps.TokenStore.{and_then, utf8_text}

pub record MsalTokenCache : Type 0 where
  pub cache_data_encrypted : Bytes
  pub key_version : ℕ

abbrev pub Caches : Type 0
Caches = String → Option MsalTokenCache

abbrev pub write_cache : String → Option MsalTokenCache → Caches → Caches
write_cache user_key row caches u = if user_key == u then row else caches u

module _ (c : Crypto) (r : Resolver) where
  unfoldable pub get_msal_cache : String → Caches → Result (Option String)
  get_msal_cache user_key caches = elim (caches user_key) [
    | none ↦ ok none
    | some row ↦
        and_then
          (decrypt c r user_key "__msal__" "cache_data" row.key_version row.cache_data_encrypted)
          (λ bytes. and_then (utf8_text c r bytes) (λ s. ok (some s)))
  ]

  unfoldable pub save_msal_cache : Bytes → String → String → Caches → Result (Unit {0}) × Caches
  save_msal_cache nonce user_key cache_json caches =
      elim (encrypt c r nonce user_key "__msal__" "cache_data" (c.encode cache_json)) [
        | err e ↦ (err e, caches)
        | ok sealed ↦ (
          ok tt,
          write_cache user_key
              (some (record { cache_data_encrypted = sealed.0; key_version = sealed.1 })) caches,
        )
      ]

  abbrev pub clear_msal_cache : String → Caches → Result (Unit {0}) × Caches
  clear_msal_cache user_key caches = (ok tt, write_cache user_key none caches)

  -- `_persist` on the exit, where `set_blob` was called
  unfoldable pub persist :
      {A : Type 0} → Bytes → String → A → Option String → Caches → Result A × Caches
  persist nonce user_key a none caches = (ok a, caches)
  persist nonce user_key a (some blob) caches =
      let (saved, caches') = save_msal_cache nonce user_key blob caches in
      elim saved [ err e ↦ (err e, caches) | ok done ↦ (ok a, caches') ]

  -- `with locked_msal_cache(...) as handle: body`: the body gets the blob, and gives its result and the
  -- blob that it set last, or raises.
  unfoldable pub locked_msal_cache :
      {A : Type 0}
      → Bytes
      → String
      → (Option String → Result (A × Option String))
      → Caches
      → Result A × Caches
  locked_msal_cache nonce user_key body caches = elim (get_msal_cache user_key caches) [
    | err e ↦ (err e, caches)
    | ok blob ↦ elim (body blob) [
      | err e ↦ (err e, caches)
      | ok outcome ↦ persist nonce user_key outcome.0 outcome.1 caches
    ]
  ]
