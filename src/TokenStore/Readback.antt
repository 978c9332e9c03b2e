-- ===== src/TokenStore/Readback.antt =====
-- What is read back behind a refresh that stored an answer.
use bond_mcps.Prelude.{
  String, some, if◌then◌else◌, present, or_text, ◌≡◌, refl, ap, ◌∙◌, arith, length, eq_refl,
}
use bond_mcps.Db.{Bytes, ok}
use bond_mcps.JsonValue.{get_field, has_field}
use bond_mcps.Encryption.{Crypto, Resolver, nonce_bytes, write_version, get_key}
use bond_mcps.Encryption.Laws.{IsAead, IsUtf8}
use bond_mcps.TokenStore.{TokenData, Tokens, get_token, update, merged}
use bond_mcps.TokenStore.Merging.{Distinct, get_field-merge_fields}
use bond_mcps.TokenStore.Laws.{TokenMap, assign, as_stored, Represents, keep_lem, update-Represents}

module _ (c : Crypto) (r : Resolver) (aead : IsAead c) (utf : IsUtf8 c) (key : Bytes)
    (has_key : get_key c r write_version ≡ ok key) where
  -- What a refresh stores is what a later `get_token` finds: the new access token and its end, the prior
  -- refresh token unless the response has its own, and behind each name of an extra field the value of the
  -- response, or the prior one where the response has none. The response's extra fields have different names,
  -- the key can be read and the nonces have twelve bytes.
  pub update-get_token :
      (nonce nonce' : Bytes) (u p access token name : String) (prior new : TokenData)
      (tokens : Tokens) (m : TokenMap)
      → length nonce ≡ nonce_bytes
      → length nonce' ≡ nonce_bytes
      → present new.access_token ≡ some access
      → present prior.refresh_token ≡ some token
      → Distinct new.extras
      → Represents c r tokens m
      → (stored : TokenData) × ((update c r nonce nonce' u p (some prior) new tokens).0
          ≡ ok (some stored))
        × (get_token c r u p (update c r nonce nonce' u p (some prior) new tokens).1
            ≡ ok (some stored))
        × (stored.access_token ≡ some access)
        × (stored.expires_at ≡ new.expires_at)
        × (stored.refresh_token ≡ some (or_text new.refresh_token token))
        × (get_field name stored.extras ≡ (
            if has_field name new.extras
            then get_field name new.extras
            else get_field name prior.extras))
  unfolding merged as_stored
  update-get_token nonce nonce' u p access token name prior new tokens m size size' has kept
        distinct h =
      let (tokens', done, now_h) =
        update-Represents c r aead utf key has_key nonce nonce' u p access (some prior) new tokens m
          size size' has h in
      let stored = as_stored access (merged (some prior) new) in
      (
        stored,
        ap (λ o. o.0) done,
        rw (ap (λ o. o.1) done) (now_h u p ∙ own stored),
        refl,
        refl,
        keep_lem new.refresh_token prior.refresh_token token kept,
        get_field-merge_fields name new.extras prior.extras distinct,
      )
    where
      own : (stored : TokenData) → ok (assign u p (some stored) m u p) ≡ ok (some stored)
      own stored = ground (arith, eq_refl u, eq_refl p)
