-- ===== src/TokenStore/Msal/Laws.antt =====
-- The MSAL caches refine a plain map from user to blob.
use bond_mcps.Prelude.{
  String, Option, none, some, ◌==◌, if◌then◌else◌, ◌≡◌, refl, sym, ap, ◌∙◌, length, Bool-cases, inl,
  inr, eq_iff,
}
use bond_mcps.Db.{Bytes, Result, ok, err}
use bond_mcps.Encryption.{Crypto, Resolver, nonce_bytes, write_version, get_key}
use bond_mcps.Encryption.Laws.{IsAead, IsUtf8}
use bond_mcps.TokenStore.Laws.{encrypt_opens, utf8_opens, and_then_ok}
use bond_mcps.TokenStore.Msal.{
  MsalTokenCache, Caches, write_cache, get_msal_cache, save_msal_cache, persist, locked_msal_cache,
}

abbrev pub assign_blob : String → Option String → (String → Option String) → String → Option String
assign_blob user_key value m u = if user_key == u then value else m u

-- What `locked_msal_cache` does to the map, for the outcome of its body
abbrev pub locked_in_map :
    {A : Type 0}
    → String
    → Result (A × Option String)
    → (String → Option String)
    → Result A × (String → Option String)
locked_in_map user_key (err e) m = (err e, m)
locked_in_map user_key (ok (a, none)) m = (ok a, m)
locked_in_map user_key (ok (a, some blob)) m = (ok a, assign_blob user_key (some blob) m)

module _ (c : Crypto) (r : Resolver) where
  -- Every row decodes to what the map has.
  abbrev pub Represents : Caches → (String → Option String) → Type 0
  Represents caches m = (u : String) → get_msal_cache c r u caches ≡ ok (m u)

  get_msal_cache_at :
      (u : String) (caches : Caches) (row : Option MsalTokenCache)
      → caches u ≡ row
      → get_msal_cache c r u caches ≡ get_msal_cache c r u (λ v. row)
  unfolding get_msal_cache
  get_msal_cache_at u caches row e = rw (get_msal_cache, e)

  write_cache-Represents :
      (u : String) (row : Option MsalTokenCache) (value : Option String) (caches : Caches)
      (m : String → Option String)
      → get_msal_cache c r u (λ v. row) ≡ ok value
      → Represents caches m
      → Represents (write_cache u row caches) (assign_blob u value m)
  write_cache-Represents u row value caches m found h v = elim (Bool-cases (u == v)) [
    | inr other ↦
        get_msal_cache_at v (write_cache u row caches) (caches v) (rw other)
        ∙ sym (get_msal_cache_at v caches (caches v) refl)
        ∙ h v
        ∙ rw other
    | inl same ↦
        let user_is : u ≡ v = (eq_iff u v).0 same in
        let there : get_msal_cache c r v (λ w. row) ≡ ok value = rw (← user_is) found in
        get_msal_cache_at v (write_cache u row caches) row (rw same) ∙ there ∙ rw same
  ]

  module _ (aead : IsAead c) (utf : IsUtf8 c) (key : Bytes)
      (has_key : get_key c r write_version ≡ ok key) (nonce : Bytes)
      (size : length nonce ≡ nonce_bytes) (u : String) where
    save_msal_cache-Represents :
        (blob : String) (caches : Caches) (m : String → Option String)
        → Represents caches m
        → (caches' : Caches) × (save_msal_cache c r nonce u blob caches ≡ (ok tt, caches'))
          × Represents caches' (assign_blob u (some blob) m)
    unfolding save_msal_cache get_msal_cache
    save_msal_cache-Represents blob caches m h =
        let (sealed, version, made, opened) =
          encrypt_opens c r aead utf key has_key nonce u "__msal__" "cache_data" (c.encode blob)
            size in
        let row : MsalTokenCache = record {
          cache_data_encrypted = sealed;
          key_version = version;
        } in
        let found : get_msal_cache c r u (λ v. some row) ≡ ok (some blob) =
          and_then_ok _ opened (and_then_ok _ (utf8_opens c r aead utf key has_key blob) refl) in
        (
          write_cache u (some row) caches,
          rw (save_msal_cache, made),
          write_cache-Represents u (some row) (some blob) caches m found h,
        )

    finish-Represents :
        {A : Type 0} (outcome : Result (A × Option String)) (caches : Caches)
        (m : String → Option String)
        → Represents caches m
        → let out : Result A × Caches = elim outcome [
          | err e ↦ (err e, caches)
          | ok o ↦ persist c r nonce u o.0 o.1 caches
        ] in
          (out.0 ≡ (locked_in_map u outcome m).0) × Represents out.1 (locked_in_map u outcome m).1
    unfolding persist
    finish-Represents (err e) caches m h = (refl, h)
    finish-Represents (ok (a, none)) caches m h = (refl, h)
    finish-Represents (ok (a, some blob)) caches m h =
        let (caches', saved, now_h) = save_msal_cache-Represents blob caches m h in
        rw (persist, ap (λ o. o.0) saved, ap (λ o. o.1) saved) (refl, now_h)

    -- Where each cache decodes to what a map has, the body of `locked_msal_cache` gets the map's blob, and
    -- the caches then decode to the map with the blob that the body set, or to the same map where it set
    -- none or raised.
    pub locked_msal_cache-Represents :
        {A : Type 0} (body : Option String → Result (A × Option String)) (caches : Caches)
        (m : String → Option String)
        → Represents caches m
        → ((locked_msal_cache c r nonce u body caches).0 ≡ (locked_in_map u (body (m u)) m).0)
          × Represents
              (locked_msal_cache c r nonce u body caches).1
              (locked_in_map u (body (m u)) m).1
    unfolding locked_msal_cache
    locked_msal_cache-Represents body caches m h =
        rw (locked_msal_cache, h u) (finish-Represents (body (m u)) caches m h)
