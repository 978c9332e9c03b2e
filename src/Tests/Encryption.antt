-- ===== src/Tests/Encryption.antt =====
-- The encryption at concrete inputs.
use bond_mcps.Prelude.{show, String, ◌++◌, ◌≡◌, refl, has_char}
use bond_mcps.Db.{Bytes, ok}
use bond_mcps.Encryption.{encrypt, decrypt, get_key, load_v1_key, decode_key, aad, aad_text}
use bond_mcps.Encryption.Laws.{decrypt-encrypt, encrypt_bound}
use bond_mcps.Tests.Setup.{crypto, crypto-IsAead, crypto-IsBound, crypto-IsUtf8, resolver, nonce}

abbrev user : String
user = "a|b"

abbrev provider : String
provider = "github"

abbrev field : String
field = "access_token"

-- A user key with a bar in it.
abbrev blob : Bytes
blob =
    nonce
    ++ crypto.seal (crypto.encode "0123456789abcdef0123456789abcdef") nonce (crypto.encode "token")
        (crypto.encode "a|b|github|access_token|v1")

made :
    encrypt crypto resolver nonce "a|b" "github" "access_token" (crypto.encode "token")
    ≡ ok (blob, 1)
unfolding encrypt get_key load_v1_key decode_key aad aad_text show
made = refl

decrypt-encrypt_example :
    decrypt crypto resolver "a|b" "github" "access_token" 1 blob ≡ ok (crypto.encode "token")
decrypt-encrypt_example =
    decrypt-encrypt crypto resolver nonce "a|b" "github" "access_token" (crypto.encode "token")
      crypto-IsAead refl made

opened : decrypt crypto resolver "a|b" "github" "access_token" 1 blob ≡ ok (crypto.encode "token")
opened =
    decrypt-encrypt crypto resolver nonce "a|b" "github" "access_token" (crypto.encode "token")
      crypto-IsAead refl made

encrypt_bound_example : (user ≡ user) × (provider ≡ provider) × (field ≡ field)
unfolding has_char
encrypt_bound_example =
    encrypt_bound crypto resolver nonce "a|b" "github" "access_token" "a|b" "github" "access_token"
      (crypto.encode "token") (crypto.encode "token") crypto-IsAead crypto-IsBound crypto-IsUtf8
      refl refl refl refl refl made opened
