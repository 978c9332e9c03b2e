-- ===== src/Encryption.antt =====
-- auth/auth/encryption.py: AES-256-GCM over the columns of the token tables.
-- What the module calls of `cryptography`, `hashlib` and `base64` is a parameter, `Crypto`. A nonce
-- that the source draws from `os.urandom` is an argument. The key resolver's cache is left out.
pub mod Laws
use Prim.Native.Char.{Char}
use Prim.Native.String
use Prim.Native.String.{char_at}
use bond_mcps.Prelude.{
  show, ℕ, zero, suc, ◌+◌, ◌/◌, ◌%◌, String, Bool, Option, none, some, List, ◌++◌, ltb, leb, nat_eq,
  ◌==◌, if◌then◌else◌, length, take, drop, strip, present,
}
use bond_mcps.Db.{Bytes, Result, ok, err, Exception, EncryptionError}

-- `seal key nonce plaintext aad` is AESGCM(key).encrypt; `unseal` is its inverse, `none` for
-- InvalidTag. `digest` is the base64url text of the SHA-256 of an ASCII text.
pub record Crypto : Type 0 where
  pub digest : String → String
  pub seal : Bytes → Bytes → Bytes → Bytes → Bytes
  pub unseal : Bytes → Bytes → Bytes → Bytes → Option Bytes
  pub encode : String → Bytes
  pub decode : Bytes → Option String
  pub b64decode : String → Option Bytes

abbrev pub nonce_bytes : ℕ
nonce_bytes = 12

abbrev pub key_bytes : ℕ
key_bytes = 32

abbrev pub write_version : ℕ
write_version = 1

-- EncryptionKeyResolver: the environment's value, and the text of the key file if it exists.
pub record Resolver : Type 0 where
  pub env_value : Option String
  pub allow_file_fallback : Bool
  pub key_file : Option String

-- The text of `_aad`, before `.encode()`.
unfoldable pub aad_text : String → String → String → ℕ → String
aad_text user_key provider field key_version =
    String.◌++◌
      (String.◌++◌ (String.◌++◌ user_key (String.◌∷◌ "|" provider)) (String.◌∷◌ "|" field))
      (String.◌∷◌ "|" (String.◌∷◌ "v" (show key_version)))

module _ (c : Crypto) where
  unfoldable pub aad : String → String → String → ℕ → Bytes
  aad user_key provider field key_version = c.encode (aad_text user_key provider field key_version)

  unfoldable pub decode_key : String → Result Bytes
  decode_key value = elim (c.b64decode value) [
    | none ↦ err (Exception.encryption EncryptionError.key_not_base64)
    | some raw ↦
        if nat_eq (length raw) key_bytes
        then ok raw
        else err (Exception.encryption EncryptionError.key_length)
  ]

  unfoldable pub load_v1_key : Resolver → Result Bytes
  unfolding decode_key
  load_v1_key r = elim (present r.env_value) [
    | some value ↦ decode_key value
    | none ↦
        if r.allow_file_fallback
        then elim r.key_file [
          | some text ↦ decode_key (strip text)
          | none ↦ err (Exception.encryption EncryptionError.key_missing)
        ]
        else err (Exception.encryption EncryptionError.key_missing)
  ]

  unfoldable pub get_key : Resolver → ℕ → Result Bytes
  get_key r version =
      if nat_eq version write_version
      then load_v1_key r
      else err (Exception.encryption EncryptionError.unknown_version)

  -- The blob is the nonce with the ciphertext behind it.
  unfoldable pub encrypt : Resolver → Bytes → String → String → String → Bytes → Result (Bytes × ℕ)
  encrypt r nonce user_key provider field plaintext = elim (get_key r write_version) [
    | err e ↦ err e
    | ok key ↦ ok (
      nonce ++ c.seal key nonce plaintext (aad user_key provider field write_version),
      write_version,
    )
  ]

  unfoldable pub decrypt : Resolver → String → String → String → ℕ → Bytes → Result Bytes
  decrypt r user_key provider field key_version blob =
      if leb (length blob) nonce_bytes
      then err (Exception.encryption EncryptionError.blob_too_short)
      else elim (get_key r key_version) [
        | err e ↦ err e
        | ok key ↦
            elim (c.unseal key (take nonce_bytes blob) (drop nonce_bytes blob)
              (aad user_key provider field key_version)) [
                | none ↦ err (Exception.encryption EncryptionError.authentication_failed)
                | some plaintext ↦ ok plaintext
              ]
      ]

  unfoldable pub encrypt_optional :
      Resolver → Bytes → String → String → String → Option Bytes → Result (Option (Bytes × ℕ))
  encrypt_optional r nonce user_key provider field none = ok none
  encrypt_optional r nonce user_key provider field (some plaintext) =
      elim (encrypt r nonce user_key provider field plaintext) [
        | err e ↦ err e
        | ok sealed ↦ ok (some sealed)
      ]

  unfoldable pub decrypt_optional :
      Resolver → String → String → String → Option ℕ → Option Bytes → Result (Option Bytes)
  decrypt_optional r user_key provider field key_version none = ok none
  decrypt_optional r user_key provider field none (some blob) =
      err (Exception.encryption EncryptionError.version_missing)
  decrypt_optional r user_key provider field (some key_version) (some blob) =
      elim (decrypt r user_key provider field key_version blob) [
        | err e ↦ err e
        | ok plaintext ↦ ok (some plaintext)
      ]
