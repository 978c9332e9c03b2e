-- ===== src/JwtIdentity.antt =====
-- auth/auth/jwt_identity.py: which tokens an MCP server accepts. `JWTVerifier` of fastmcp is a record of
-- its arguments, and what it makes of a token is a parameter; so is what PyJWT reads of a token without
-- verifying it. The environment's variables are taken without the blanks around them.
pub mod Laws
use Prim.Native.String
use bond_mcps.Prelude.{
  String, Bool, true, false, ◌||◌, ◌&&◌, not, Option, none, some, List, [], ◌∷◌, ◌++◌, ◌==◌,
  if◌then◌else◌, split, strip, rstrip_slash, contains, is_some,
}
use bond_mcps.JsonValue.{Json, Fields, get_field, has_field, text_value}

-- A list of names, or a bare one
pub data Names : Type 0 where
  bare : String → Names
  several : List String → Names

abbrev pub names_of : Option Names → List String
names_of none = []
names_of (some (bare s)) = s ∷ []
names_of (some (several ss)) = ss

unfoldable pub parts_of : List String → List String
parts_of [] = []
parts_of (p ∷ ps) = let rest = parts_of ps in if strip p == "" then rest else strip p ∷ rest

-- `parts if len(parts) > 1 else parts[0]`, and None for no part
abbrev pub pack : List String → Option Names
pack [] = none
pack (s ∷ []) = some (bare s)
pack (s ∷ t ∷ ss) = some (several (s ∷ t ∷ ss))

-- `_parse_csv`
unfoldable pub parse_csv : String → Option Names
parse_csv env_value = if env_value == "" then none else pack (parts_of (split b',' env_value))

pub record Env : Type 0 where
  pub jwks_uri : String
  pub public_key : String
  pub shared_secret : String
  pub shared_secret_issuer : String
  pub issuer : String
  pub audience : String
  pub algorithm : String
  pub public_url : String

abbrev pub is_jwt_verification_enabled : Env → Bool
is_jwt_verification_enabled env = not (env.jwks_uri == "") || not (env.public_key == "")

-- `<BOND_MCPS_PUBLIC_URL>/mcp`, where the public URL is known
unfoldable pub canonical : Env → Option String
canonical env =
    let url = rstrip_slash env.public_url in
    if url == "" then none else some (String.◌++◌ url "/mcp")

-- `values.append(canonical)` where it is missing
abbrev pub with_canonical : Option String → List String → List String
with_canonical none values = values
with_canonical (some uri) values = if contains values uri then values else values ++ (uri ∷ [])

-- The audiences, of the explicit ones and the canonical one
abbrev pub merge_audience : Option Names → Option String → Option Names
merge_audience none none = none
merge_audience none (some uri) = some (bare uri)
merge_audience (some explicit) uri = pack (with_canonical uri (names_of (some explicit)))

-- `_resolve_audience`
unfoldable pub resolve_audience : Env → Option Names
resolve_audience env = merge_audience (parse_csv env.audience) (canonical env)

pub data KeySource : Type 0 where
  jwks : String → KeySource
  static_key : String → KeySource

pub record JwtVerifier : Type 0 where
  pub source : KeySource
  pub algorithm : String
  pub issuer : Option Names
  pub audience : Option Names

pub data TokenVerifier : Type 0 where
  single : JwtVerifier → TokenVerifier
  -- CompositeTokenVerifier
  composite : JwtVerifier → JwtVerifier → String → TokenVerifier

abbrev or_default : String → String → String
or_default s d = if s == "" then d else s

abbrev pub primary_verifier : Env → JwtVerifier
primary_verifier env = record {
  source = jwks env.jwks_uri;
  algorithm = "RS256";
  issuer = parse_csv env.issuer;
  audience = resolve_audience env;
}

abbrev pub secondary_issuer : Env → String
secondary_issuer env =
    if env.shared_secret_issuer == "" then "bond-ai" else env.shared_secret_issuer

abbrev pub secondary_verifier : Env → JwtVerifier
secondary_verifier env = record {
  source = static_key env.shared_secret;
  algorithm = "HS256";
  issuer = some (bare (secondary_issuer env));
  audience = resolve_audience env;
}

abbrev pub single_verifier : Env → KeySource → JwtVerifier
single_verifier env source = record {
  source = source;
  algorithm = if env.algorithm == "" then "RS256" else env.algorithm;
  issuer = parse_csv env.issuer;
  audience = resolve_audience env;
}

-- `build_verifier`; `none` is the JWTConfigError.
unfoldable pub build_verifier : Env → Option TokenVerifier
build_verifier env =
    if not (env.jwks_uri == "") && not (env.shared_secret == "")
    then if env.public_key == ""
      then some (composite (primary_verifier env) (secondary_verifier env) (secondary_issuer env))
      else none
    else if env.jwks_uri == ""
    then if env.public_key == ""
      then none
      else some (single (single_verifier env (static_key env.public_key)))
    else if env.public_key == ""
    then some (single (single_verifier env (jwks env.jwks_uri)))
    else none

-- What PyJWT reads of a token, and what a JWTVerifier makes of it.
pub record Library : Type 0 where
  -- `get_unverified_header`; `none` is an exception
  pub header : String → Option Fields
  -- `decode` without the signature; `none` is a DecodeError
  pub unverified : String → Option Fields
  pub verify : JwtVerifier → String → Option Fields

-- `header.get("alg", "") == "HS256"`
abbrev pub is_text : String → Json → Bool
is_text s value = elim (text_value value) [ none ↦ false | some t ↦ t == s ]

module _ (lib : Library) where
  -- The branch of an HS256 token
  unfoldable pub verify_secondary : JwtVerifier → String → String → Option Fields
  verify_secondary secondary issuer token = elim (lib.unverified token) [
    | none ↦ none
    | some claims ↦
        if is_text issuer (get_field "iss" claims) then lib.verify secondary token else none
  ]

  unfoldable pub verify_token : TokenVerifier → String → Option Fields
  verify_token (single v) token = lib.verify v token
  verify_token (composite primary secondary issuer) token = elim (lib.header token) [
    | none ↦ lib.verify primary token
    | some header ↦
        if is_text "HS256" (get_field "alg" header)
        then verify_secondary secondary issuer token
        else lib.verify primary token
  ]
