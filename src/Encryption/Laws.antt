-- ===== src/Encryption/Laws.antt =====
-- The encrypted columns: the laws of an AEAD, round trips, and the identity that a blob is bound to.
use Prim.Native.String
use Prim.Native.String.{[], ◌∷◌}
use text.Mathlib.TextLemmas.{nil-append, cons-append, cons-eq-cons}
use bond_mcps.Prelude.{
  show, ℕ, ◌<◌, String, ◌≡◌, refl, sym, ap, subst, ◌∙◌, true, false, none, some, arith, ◌++◌,
  length, has_char, Option, take, drop, take-append, drop-append, length-append,
}
use bond_mcps.Db.{Bytes, Result, ok, err, Exception, EncryptionError}
use bond_mcps.Encryption.{
  Crypto, Resolver, nonce_bytes, write_version, aad_text, aad, get_key, encrypt, decrypt,
}

-- AESGCM: what was sealed opens under the same key, nonce and associated data, and carries a tag.
pub record IsAead (c : Crypto) : Type 0 where
  pub opens :
      (key nonce plaintext aad : Bytes)
      → c.unseal key nonce (c.seal key nonce plaintext aad) aad ≡ some plaintext
  pub tagged : (key nonce plaintext aad : Bytes) → 0 < length (c.seal key nonce plaintext aad)

-- AESGCM: a ciphertext is authentic under the associated data that it was sealed with alone.
pub record IsBound (c : Crypto) : Type 0 where
  pub binds :
      (key nonce plaintext aad aad' : Bytes) {opened : Bytes}
      → c.unseal key nonce (c.seal key nonce plaintext aad) aad' ≡ some opened
      → aad ≡ aad'

-- `str.encode` loses nothing.
pub record IsUtf8 (c : Crypto) : Type 0 where
  pub decodes : (s : String) → c.decode (c.encode s) ≡ some s

-- The text holds no `|`.
abbrev pub NoBar : String → Type 0
NoBar s = has_char b'|' s ≡ false

has_char-bar : (t q : String) → has_char b'|' (String.◌++◌ t ("|" ∷ q)) ≡ true
unfolding has_char
has_char-bar [] q = rw nil-append
has_char-bar (c ∷ t) q = rw cons-append (ground (arith, has_char-bar t q))

-- A text with a `|` in it is not one with none.
no_bar_inside {ℓ} : {A : Type ℓ} (t r q : String) → NoBar r → r ≡ String.◌++◌ t ("|" ∷ q) → A
no_bar_inside t r q h e = cc (ap (has_char b'|') e, has_char-bar t q)

-- A text is split at its last `|` in one way.
last_bar :
    (s t r q : String)
    → NoBar r
    → NoBar q
    → String.◌++◌ s ("|" ∷ r) ≡ String.◌++◌ t ("|" ∷ q)
    → (s ≡ t) × (r ≡ q)
last_bar [] [] r q hr hq e = (refl, (cons-eq-cons.0 (rw (nil-append, nil-append) at e)).1)
last_bar [] (c ∷ t) r q hr hq e =
    no_bar_inside t r q hr (cons-eq-cons.0 (rw (nil-append, cons-append) at e)).1
last_bar (c ∷ s) [] r q hr hq e =
    no_bar_inside s q r hq (sym (cons-eq-cons.0 (rw (cons-append, nil-append) at e)).1)
last_bar (c ∷ s) (d ∷ t) r q hr hq e =
    let (heads, tails) = cons-eq-cons.0 (rw (cons-append, cons-append) at e) in
    let (front, back) = last_bar s t r q hr hq tails in (cc, back)

-- The associated data names its user, provider and field unambiguously, whatever the user key is,
-- if the providers and fields hold no `|`.
pub aad_text-injective :
    (user_key user_key' provider provider' field field' : String)
    → NoBar provider
    → NoBar provider'
    → NoBar field
    → NoBar field'
    → aad_text user_key provider field write_version
      ≡ aad_text user_key' provider' field' write_version
    → (user_key ≡ user_key') × (provider ≡ provider') × (field ≡ field')
unfolding aad_text show has_char
aad_text-injective u u' p p' f f' hp hp' hf hf' e =
    let (fronts, _) = last_bar _ _ _ _ refl refl e in
    let (middles, fields) = last_bar _ _ f f' hf hf' fronts in
    let (users, providers) = last_bar u u' p p' hp hp' middles in (users, providers, fields)

-- The plaintext of an opened blob.
unsealed_of :
    (o : Option Bytes) {m : Bytes}
    → elim o as (λ _. Result Bytes) [
      | none ↦ err (Exception.encryption EncryptionError.authentication_failed)
      | some plaintext ↦ ok plaintext
    ]
      ≡ ok m
    → o ≡ some m
unsealed_of o e = ground arith

encode-injective : {c : Crypto} → IsUtf8 c → (s t : String) → c.encode s ≡ c.encode t → s ≡ t
encode-injective {c} utf s t e = cc (utf.decodes s, utf.decodes t, ap c.decode e)

module _ (c : Crypto) where
  -- What a blob is made of.
  encrypt-eq-ok :
      (r : Resolver) (nonce : Bytes) (u p f : String) (m : Bytes) {blob : Bytes} {version : ℕ}
      → encrypt c r nonce u p f m ≡ ok (blob, version)
      → (key : Bytes) × (get_key c r write_version ≡ ok key)
        × (blob ≡ nonce ++ c.seal key nonce m (aad c u p f write_version))
        × (version ≡ write_version)
  unfolding encrypt
  encrypt-eq-ok r nonce u p f m made = ground arith

  -- Decryption of a nonce of 12 bytes with a ciphertext behind it.
  decrypt-append :
      (r : Resolver) (u p f : String) (nonce text : Bytes) {key : Bytes}
      → length nonce ≡ nonce_bytes
      → 0 < length text
      → get_key c r write_version ≡ ok key
      → decrypt c r u p f write_version (nonce ++ text)
        ≡ elim (c.unseal key nonce text (aad c u p f write_version)) [
          | none ↦ err (Exception.encryption EncryptionError.authentication_failed)
          | some plaintext ↦ ok plaintext
        ]
  unfolding decrypt
  decrypt-append r u p f nonce text size full found =
      let front : take nonce_bytes (nonce ++ text) ≡ nonce =
        subst (λ k. take k (nonce ++ text) ≡ nonce) size (take-append nonce text) in
      let back : drop nonce_bytes (nonce ++ text) ≡ text =
        subst (λ k. drop k (nonce ++ text) ≡ text) size (drop-append nonce text) in
      ground (arith, front, back, length-append nonce text)

  -- What `encrypt` made opens again under the same user, provider, field and key version, to the
  -- plaintext.
  pub decrypt-encrypt :
      (r : Resolver) (nonce : Bytes) (user_key provider field : String) (plaintext : Bytes)
      {blob : Bytes} {version : ℕ}
      → IsAead c
      → length nonce ≡ nonce_bytes
      → encrypt c r nonce user_key provider field plaintext ≡ ok (blob, version)
      → decrypt c r user_key provider field version blob ≡ ok plaintext
  decrypt-encrypt r nonce u p f m aead size made =
      let (key, found, blob_is, version_is) = encrypt-eq-ok r nonce u p f m made in
      let text = c.seal key nonce m (aad c u p f write_version) in
      rw (blob_is, version_is)
        (rw (decrypt-append r u p f nonce text size (aead.tagged _ _ _ _) found)
          (rw (aead.opens key nonce m (aad c u p f write_version))))

  -- A blob that `encrypt` made for one user, provider and field opens under no other, if providers
  -- and fields hold no `|`.
  pub encrypt_bound :
      (r : Resolver) (nonce : Bytes) (user_key provider field user_key' provider' field' : String)
      (plaintext opened : Bytes) {blob : Bytes} {version : ℕ}
      → IsAead c
      → IsBound c
      → IsUtf8 c
      → length nonce ≡ nonce_bytes
      → NoBar provider
      → NoBar provider'
      → NoBar field
      → NoBar field'
      → encrypt c r nonce user_key provider field plaintext ≡ ok (blob, version)
      → decrypt c r user_key' provider' field' version blob ≡ ok opened
      → (user_key ≡ user_key') × (provider ≡ provider') × (field ≡ field')
  unfolding aad
  encrypt_bound r nonce u p f u' p' f' m opened aead bound utf size hp hp' hf hf' made open_ok =
      let (key, found, blob_is, version_is) = encrypt-eq-ok r nonce u p f m made in
      let text = c.seal key nonce m (aad c u p f write_version) in
      let opened_is = decrypt-append r u' p' f' nonce text size (aead.tagged _ _ _ _) found in
      let unsealed : c.unseal key nonce text (aad c u' p' f' write_version) ≡ some opened =
        unsealed_of _ (sym opened_is ∙ (rw (blob_is, version_is) at open_ok)) in
      let same = bound.binds key nonce m _ _ unsealed in
      aad_text-injective u u' p p' f f' hp hp' hf hf' (encode-injective utf _ _ same)
