-- ===== src/TokenStore/Laws.antt =====
-- The token rows refine a plain map from user and provider to token data.
use bond_mcps.Prelude.{
  or_text, ℕ, String, ◌&&◌, Option, none, some, ◌==◌, if◌then◌else◌, present, ◌≡◌, refl, sym, ap,
  ◌∙◌, arith, length, Bool-cases, inl, inr, eq_iff, eq_refl,
}
use bond_mcps.Db.{err, Exception, Bytes, Result, ok, Result-cases}
use bond_mcps.Encryption.{
  Crypto, Resolver, nonce_bytes, write_version, get_key, encrypt, encrypt_optional, decrypt,
  decrypt_optional,
}
use bond_mcps.Encryption.Laws.{IsAead, IsUtf8, decrypt-encrypt}
use bond_mcps.TokenStore.{
  keep, locked_token, Run, TokenData, ProviderToken, Tokens, joined, scopes_str, encode_values,
  decode_row, get_token, save_token, update, merged, write_row, and_then, utf8_text,
  encode_optional,
}

-- The plain map
abbrev pub TokenMap : Type 0
TokenMap = String → String → Option TokenData

abbrev pub assign : String → String → Option TokenData → TokenMap → TokenMap
assign user_key provider value m u p = if user_key == u && provider == p then value else m u p

-- Token data as it comes back: an empty text of scopes is none, a list of them one text.
unfoldable pub as_stored : String → TokenData → TokenData
as_stored access content = record {
  access_token = some access;
  refresh_token = content.refresh_token;
  expires_at = content.expires_at;
  scopes = elim (present (scopes_str content.scopes)) [ none ↦ none | some s ↦ some (joined s) ];
  extras = content.extras;
}

pub and_then_ok :
    {A B : Type 0} {m : Result A} {a : A} {b : Result B} (f : A → Result B)
    → m ≡ ok a
    → f a ≡ b
    → and_then m f ≡ b
and_then_ok f h k = ap (λ m. and_then m f) h ∙ k

pub keep_lem :
    (new prior : Option String) (token : String)
    → present prior ≡ some token
    → keep present new prior ≡ some (or_text new token)
keep_lem none prior token h = rw (keep, h)
keep_lem (some s) prior token h = elim (Bool-cases (s == "")) [
  | inl empty ↦ rw (keep, empty, h)
  | inr full ↦ rw (keep, full)
]

module _ (c : Crypto) (r : Resolver) where
  -- Every row decodes to what the map has.
  abbrev pub Represents : Tokens → TokenMap → Type 0
  Represents tokens m = (u p : String) → get_token c r u p tokens ≡ ok (m u p)

  module _ {A : Type 0} (u p : String) (body : Option TokenData → Run A) (tokens : Tokens)
      (locked : Option TokenData) where
    pub locked_token-ok :
        (a : A)
        → get_token c r u p tokens ≡ ok locked
        → (body locked tokens).0 ≡ ok a
        → locked_token c r u p body tokens ≡ (ok a, (body locked tokens).1)
    locked_token-ok a h k = rw (locked_token, h, k)

    pub locked_token-err :
        (e : Exception)
        → get_token c r u p tokens ≡ ok locked
        → (body locked tokens).0 ≡ err e
        → locked_token c r u p body tokens ≡ (err e, tokens)
    locked_token-err e h k = rw (locked_token, h, k)

  get_token_at :
      (u p : String) (tokens : Tokens) (row : Option ProviderToken)
      → tokens u p ≡ row
      → get_token c r u p tokens ≡ get_token c r u p (λ v q. row)
  unfolding get_token
  get_token_at u p tokens row e = rw (get_token, e)

  -- One row is written, and decodes.
  pub write_row-Represents :
      (u p : String) (row : Option ProviderToken) (value : Option TokenData) (tokens : Tokens)
      (m : TokenMap)
      → get_token c r u p (λ v q. row) ≡ ok value
      → Represents tokens m
      → Represents (write_row u p row tokens) (assign u p value m)
  write_row-Represents u p row value tokens m found h v q = elim (Bool-cases (u == v && p == q)) [
    | inr other ↦
        get_token_at v q (write_row u p row tokens) (tokens v q) (rw other)
        ∙ sym (get_token_at v q tokens (tokens v q) refl)
        ∙ h v q
        ∙ rw other
    | inl same ↦
        let user_is : u ≡ v = (eq_iff u v).0 (ground arith) in
        let provider_is : p ≡ q = (eq_iff p q).0 (ground arith) in
        let there : get_token c r v q (λ u' p'. row) ≡ ok value =
          rw (← user_is, ← provider_is) found in
        get_token_at v q (write_row u p row tokens) row (rw same) ∙ there ∙ rw same
  ]

  save_token_refused :
      (nonce nonce' : Bytes) (u p : String) (content : TokenData) (tokens : Tokens)
      → present content.access_token ≡ none
      → save_token c r nonce nonce' u p content tokens ≡ (err Exception.value_error, tokens)
  unfolding save_token
  save_token_refused nonce nonce' u p content tokens missing = rw (save_token, missing)

  pub update_refused :
      (nonce nonce' : Bytes) (u p : String) (prior : Option TokenData) (new : TokenData)
      (tokens : Tokens)
      → present (merged prior new).access_token ≡ none
      → update c r nonce nonce' u p prior new tokens ≡ (err Exception.value_error, tokens)
  unfolding update
  update_refused nonce nonce' u p prior new tokens missing =
      let refused = save_token_refused nonce nonce' u p (merged prior new) tokens missing in
      rw (update, ap (λ o. o.0) refused, ap (λ o. o.1) refused)

  module _ (aead : IsAead c) (utf : IsUtf8 c) (key : Bytes)
      (has_key : get_key c r write_version ≡ ok key) where
    pub encrypt_opens :
        (nonce : Bytes) (u p f : String) (m : Bytes)
        → length nonce ≡ nonce_bytes
        → (blob : Bytes) × (version : ℕ) × (encrypt c r nonce u p f m ≡ ok (blob, version))
          × (decrypt c r u p f version blob ≡ ok m)
    unfolding encrypt
    encrypt_opens nonce u p f m size = elim (Result-cases (encrypt c r nonce u p f m)) [
      | inl ((blob, version), made) ↦
          (blob, version, made, decrypt-encrypt c r nonce u p f m aead size made)
      | inr (e, refused) ↦ ground (arith, has_key)
    ]

    optional_opens :
        (nonce : Bytes) (u p f : String) (m : Option String)
        → length nonce ≡ nonce_bytes
        → (sealed : Option (Bytes × ℕ)) × (encrypt_optional c r nonce u p f (encode_optional c r m)
            ≡ ok sealed)
          × (decrypt_optional c r u p f
                (elim sealed [ none ↦ none | some blob ↦ some blob.1 ])
                (elim sealed [ none ↦ none | some blob ↦ some blob.0 ])
              ≡ ok (encode_optional c r m))
    unfolding encrypt_optional decrypt_optional
    optional_opens nonce u p f none size = (none, refl, refl)
    optional_opens nonce u p f (some m) size =
        let (blob, version, made, opened) = encrypt_opens nonce u p f (c.encode m) size in
        (some (blob, version), rw (encrypt_optional, made), rw (decrypt_optional, opened))

    pub utf8_opens : (m : String) → utf8_text c r (c.encode m) ≡ ok m
    utf8_opens m = rw (utf8_text, utf.decodes m)

    text_opens :
        (m : Option String)
        → elim (encode_optional c r m) as (λ _. Result (Option String)) [
          | none ↦ ok none
          | some bytes ↦ and_then (utf8_text c r bytes) (λ s. ok (some s))
        ]
          ≡ ok m
    text_opens none = refl
    text_opens (some m) = and_then_ok _ (utf8_opens m) refl

    -- What is encoded for a user and provider decodes for them.
    pub decode_row-encode_values :
        (nonce nonce' : Bytes) (u p access : String) (content : TokenData)
        → length nonce ≡ nonce_bytes
        → length nonce' ≡ nonce_bytes
        → (row : ProviderToken) × (encode_values c r nonce nonce' u p access content ≡ ok row)
          × (decode_row c r u p row ≡ ok (as_stored access content))
    unfolding encode_values decode_row as_stored
    decode_row-encode_values nonce nonce' u p access content size size' =
        let (blob, version, made, opened) =
          encrypt_opens nonce u p "access_token" (c.encode access) size in
        let (sealed, made', opened') =
          optional_opens nonce' u p "refresh_token" content.refresh_token size' in
        let row : ProviderToken = record {
          access_token_encrypted = blob;
          refresh_token_encrypted = elim sealed [ none ↦ none | some blob ↦ some blob.0 ];
          refresh_token_key_version = elim sealed [ none ↦ none | some blob ↦ some blob.1 ];
          expires_at = content.expires_at;
          scopes = scopes_str content.scopes;
          extra_metadata = content.extras;
          key_version = version;
        } in
        (
          row,
          rw (encode_values, made, made'),
          and_then_ok _ opened (
              and_then_ok _ (utf8_opens access)
                (and_then_ok _ opened' (and_then_ok _ (text_opens content.refresh_token) refl))),
        )

    pub save_token-Represents :
        (nonce nonce' : Bytes) (u p access : String) (content : TokenData) (tokens : Tokens)
        (m : TokenMap)
        → length nonce ≡ nonce_bytes
        → length nonce' ≡ nonce_bytes
        → present content.access_token ≡ some access
        → Represents tokens m
        → (tokens' : Tokens) × (save_token c r nonce nonce' u p content tokens ≡ (ok tt, tokens'))
          × Represents tokens' (assign u p (some (as_stored access content)) m)
    unfolding save_token get_token
    save_token-Represents nonce nonce' u p access content tokens m size size' has h =
        let (row, made, opened) =
          decode_row-encode_values nonce nonce' u p access content size size' in
        let found : get_token c r u p (λ v q. some row) ≡ ok (some (as_stored access content)) =
          and_then_ok _ opened refl in
        (
          write_row u p (some row) tokens,
          rw (save_token, has, made),
          write_row-Represents u p (some row) (some (as_stored access content)) tokens m found h,
        )

    pub update-Represents :
        (nonce nonce' : Bytes) (u p access : String) (prior : Option TokenData) (new : TokenData)
        (tokens : Tokens) (m : TokenMap)
        → length nonce ≡ nonce_bytes
        → length nonce' ≡ nonce_bytes
        → present (merged prior new).access_token ≡ some access
        → Represents tokens m
        → (tokens' : Tokens) × (update c r nonce nonce' u p prior new tokens
            ≡ (ok (some (as_stored access (merged prior new))), tokens'))
          × Represents tokens' (assign u p (some (as_stored access (merged prior new))) m)
    unfolding update
    update-Represents nonce nonce' u p access prior new tokens m size size' has h =
        let (tokens', saved, now_h) =
          save_token-Represents nonce nonce' u p access (merged prior new) tokens m size size' has
            h in
        let own : assign u p (some (as_stored access (merged prior new))) m u p
            ≡ some (as_stored access (merged prior new)) =
          ground (arith, eq_refl u, eq_refl p) in
        let back = now_h u p ∙ ap (λ v. ok v) own in
        (tokens', rw (update, ap (λ o. o.0) saved, ap (λ o. o.1) saved, back), now_h)
