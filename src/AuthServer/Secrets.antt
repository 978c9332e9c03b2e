-- ===== src/AuthServer/Secrets.antt =====
-- auth/auth/oauth_utils.py. `secrets.token_urlsafe` is an argument of what draws from it; the texts
-- it gives are ASCII.
use Prim.Native.Char.{code}
use Prim.Native.String.{String, [], ◌∷◌}
use bond_mcps.Prelude.{Bool, true, ◌&&◌, ltb, ◌==◌, if◌then◌else◌}
use bond_mcps.Db.{Result, ok, err, Exception}
use bond_mcps.Encryption.{Crypto}

-- Whether `value.encode("ascii")` succeeds.
unfoldable pub is_ascii : String → Bool
is_ascii [] = true
is_ascii (c ∷ s) = ltb (code c) 128 && is_ascii s

module _ (c : Crypto) where
  unfoldable pub sha256_b64u : String → Result String
  sha256_b64u value = if is_ascii value then ok (c.digest value) else err Exception.unicode_error

  -- `hmac.compare_digest` refuses a text that is not ASCII.
  unfoldable pub verify_pkce_s256 : String → String → Result Bool
  verify_pkce_s256 code_verifier code_challenge =
      if is_ascii code_verifier
      then if is_ascii code_challenge
        then ok (c.digest code_verifier == code_challenge)
        else err Exception.type_error
      else err Exception.unicode_error

  -- The pair of a verifier that was drawn and its challenge.
  abbrev pub generate_pkce_pair : String → String × String
  generate_pkce_pair verifier = (verifier, c.digest verifier)
