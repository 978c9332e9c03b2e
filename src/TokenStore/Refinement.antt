-- ===== src/TokenStore/Refinement.antt =====
-- TokenStore.refresh_if_needed refines an operation of the plain map.
use bond_mcps.Prelude.{
  ℕ, String, Bool, true, false, Option, none, some, if◌then◌else◌, present, ◌≡◌, refl, sym, ap, ◌∙◌,
  arith, length, Bool-cases, Option-cases, inl, inr,
}
use bond_mcps.Db.{Bytes, Result, ok, err, Exception, Result-cases}
use bond_mcps.Encryption.{Crypto, Resolver, nonce_bytes, write_version, get_key}
use bond_mcps.Encryption.Laws.{IsAead, IsUtf8}
use bond_mcps.TokenStore.{TokenData, Tokens, merged, is_expired}
use bond_mcps.TokenStore.Refresh.{
  TokenResponse, Refreshed, response, with_expiry, refresh_locked, refresh_if_needed, store_answer,
}
use bond_mcps.TokenStore.Merging.{Distinct}
use bond_mcps.TokenStore.MapRefresh.{
  Refreshed-cases, IsRefresh, store_in_map, refresh_in_map, refresh_in_map-IsRefresh,
}
use bond_mcps.TokenStore.Laws.{
  TokenMap, as_stored, Represents, locked_token-ok, locked_token-err, update_refused,
  update-Represents,
}

module _ (c : Crypto) (r : Resolver) where
  -- An outcome on the rows against one on the map.
  abbrev pub Refines : Result (Option String) × Tokens → Result (Option String) × TokenMap → Type 0
  Refines out spec = (out.0 ≡ spec.0) × Represents c r out.1 spec.1

  module _ (nonce nonce' : Bytes) (u p : String) (aead : IsAead c) (utf : IsUtf8 c) (key : Bytes)
      (has_key : get_key c r write_version ≡ ok key) (size : length nonce ≡ nonce_bytes)
      (size' : length nonce' ≡ nonce_bytes) (now now' : ℕ) (do_refresh : String → Refreshed) where
    store_answer-Refines :
        (prior new : TokenData) (tokens : Tokens) (m : TokenMap)
        → Represents c r tokens m
        → Refines
            (store_answer c r nonce nonce' u p (some prior) new tokens)
            (store_in_map u p now now' do_refresh prior new m)
    unfolding store_answer merged as_stored
    store_answer-Refines prior new tokens m h = elim (Option-cases (present new.access_token)) [
      | inl missing ↦
          let refused = update_refused c r nonce nonce' u p (some prior) new tokens missing in
          rw (store_answer, store_in_map, missing, ap (λ o. o.0) refused, ap (λ o. o.1) refused)
            (refl, h)
      | inr (access, has) ↦
          let (tokens', done, now_h) =
            update-Represents c r aead utf key has_key nonce nonce' u p access (some prior) new
              tokens m size size' has h in
          rw (store_answer, store_in_map, has, ap (λ o. o.0) done, ap (λ o. o.1) done) (refl, now_h)
    ]

    named-Refines :
        (named : Bool) (prior new : TokenData) (tokens : Tokens) (m : TokenMap)
        → Represents c r tokens m
        → Refines
            (if named
              then store_answer c r nonce nonce' u p (some prior) new tokens
              else (ok none, tokens))
            (if named then store_in_map u p now now' do_refresh prior new m else (ok none, m))
    named-Refines true prior new tokens m h = store_answer-Refines prior new tokens m h
    named-Refines false prior new tokens m h = (refl, h)

    refresh_locked-Refines :
        (locked : Option TokenData) (tokens : Tokens) (m : TokenMap)
        → Represents c r tokens m
        → Refines
            (refresh_locked c r nonce nonce' u p now now' do_refresh locked tokens)
            (refresh_in_map u p now now' do_refresh locked m)
    unfolding refresh_locked
    refresh_locked-Refines none tokens m h = (refl, h)
    refresh_locked-Refines (some prior) tokens m h = elim (Bool-cases (is_expired now prior)) [
      | inr fresh ↦ rw (refresh_locked, fresh) (refl, h)
      | inl old ↦ elim (Option-cases (present prior.refresh_token)) [
        | inl missing ↦ rw (refresh_locked, old, missing) (refl, h)
        | inr (refresh_token, has) ↦ elim (Refreshed-cases (do_refresh refresh_token)) [
          | inl bad ↦ elim bad [
            | inl thrown ↦ rw (refresh_locked, old, has, thrown) (refl, h)
            | inr empty ↦ rw (refresh_locked, old, has, empty) (refl, h)
          ]
          | inr (answer, got) ↦
              rw (refresh_locked, old, has, got)
                (named-Refines answer.names_access_token prior (with_expiry now' answer) tokens m h)
        ]
      ]
    ]

    refused_keeps :
        (locked : Option TokenData) (m : TokenMap) (e : Exception)
        → (refresh_in_map u p now now' do_refresh locked m).0 ≡ err e
        → (refresh_in_map u p now now' do_refresh locked m).1 ≡ m
    refused_keeps none m e h = refl
    refused_keeps (some prior) m e h = ground arith

    refresh_if_needed-in_map :
        (tokens : Tokens) (m : TokenMap)
        → Represents c r tokens m
        → Refines
            (refresh_if_needed c r nonce nonce' u p now now' do_refresh tokens)
            (refresh_in_map u p now now' do_refresh (m u p) m)
    refresh_if_needed-in_map tokens m h =
        let (same, now_h) = refresh_locked-Refines (m u p) tokens m h in
        let out = refresh_locked c r nonce nonce' u p now now' do_refresh (m u p) tokens in
        let body = refresh_locked c r nonce nonce' u p now now' do_refresh in
        elim (Result-cases out.0) [
          | inl (token, is) ↦
              let whole = locked_token-ok c r u p body tokens (m u p) token (h u p) is in
              (ap (λ o. o.0) whole ∙ sym is ∙ same, rw (ap (λ o. o.1) whole) now_h)
          | inr (e, is) ↦
              let whole = locked_token-err c r u p body tokens (m u p) e (h u p) is in
              let kept = refused_keeps (m u p) m e (sym same ∙ is) in
              (ap (λ o. o.0) whole ∙ sym is ∙ same, rw (ap (λ o. o.1) whole, kept) h)
        ]

    -- Where each row decodes to what a map of token data has, `refresh_if_needed` does what a refresh of the
    -- map may do, and the rows then decode to the refreshed map. Data with no end, or one more than a minute
    -- away, gives its own access token. Data that is due is refreshed only if it has a refresh token and the
    -- provider answers with an access token: its entry then has that access token, the refresh token of the
    -- answer or else its own, the new end, and its own extra fields under those of the answer. In all other
    -- cases the map stays. The extra fields of an answer have different keys, the key can be read, the AEAD
    -- opens what it sealed and the nonces have twelve bytes.
    pub refresh_if_needed-Refines :
        (tokens : Tokens) (m : TokenMap)
        → ((token : String) (answer : TokenResponse)
            → do_refresh token ≡ response answer
            → Distinct answer.content.extras)
        → Represents c r tokens m
        → (spec : Result (Option String) × TokenMap) × IsRefresh u p now now' do_refresh m spec
          × Refines (refresh_if_needed c r nonce nonce' u p now now' do_refresh tokens) spec
    refresh_if_needed-Refines tokens m distinct h = (
      refresh_in_map u p now now' do_refresh (m u p) m,
      refresh_in_map-IsRefresh u p now now' do_refresh m distinct (m u p) refl,
      refresh_if_needed-in_map tokens m h,
    )
