-- ===== src/TokenStore/Identity.antt =====
-- auth/auth/token_store.py: the user key that the token rows are read and written under.
use bond_mcps.Prelude.{
  String, Bool, false, ◌||◌, Option, none, some, ◌==◌, if◌then◌else◌, present, strip, has_prefix,
  or_text, not, ◌≡◌, refl, sym, ap, subst, ◌∙◌, ◌⊎◌, inl, inr, Bool-cases, Option-cases, arith,
}
use bond_mcps.JsonValue.{Fields, Json, get_field, text_value}

-- The environment: the variables, and `getpass.getuser()`.
pub record Env : Type 0 where
  pub user_id : Option String
  pub db_url : Option String
  pub jwks_uri : Option String
  pub public_key : Option String
  pub sub_claim : Option String
  pub login : String

-- What `get_access_token()` finds: no request or no library, no token, or the claims of a validated one.
pub data Access : Type 0 where
  no_request : Access
  no_token : Access
  validated : Fields → Access

pub data UserKey : Type 0 where
  key : String → UserKey
  -- DeploymentConfigError, and the RuntimeError of a token without the claim
  deployment_config_error : UserKey
  claim_missing : UserKey

unfoldable pub current_user_key : Env → UserKey
current_user_key env = elim (present env.user_id) [
  | some explicit ↦ key explicit
  | none ↦
      if has_prefix "postgres" (or_text env.db_url "")
      then deployment_config_error
      else key env.login
]

-- `bool(os.environ.get(name, "").strip())`
abbrev pub is_set : Option String → Bool
is_set value = not (strip (or_text value "") == "")

unfoldable pub jwt_mode_enabled : Env → Bool
jwt_mode_enabled env = is_set env.jwks_uri || is_set env.public_key

unfoldable pub get_sub_claim : Env → String
get_sub_claim env = or_text (some (strip (or_text env.sub_claim ""))) "sub"

-- The claim, where it is a text that is not blank
unfoldable pub key_of_claim : Json → UserKey
key_of_claim claim = elim (text_value claim) [
  | none ↦ claim_missing
  | some s ↦ if strip s == "" then claim_missing else key s
]

unfoldable pub resolve_user_key_for_request : Env → Access → UserKey
resolve_user_key_for_request env access =
    if jwt_mode_enabled env
    then elim access [
      | no_request ↦ current_user_key env
      | no_token ↦ current_user_key env
      | validated claims ↦ key_of_claim (get_field (get_sub_claim env) claims)
    ]
    else current_user_key env

-- The claims that decide: those of a validated token, where the URI of a JWKS or a public key is set
abbrev pub claims_of : Env → Access → Option Fields
claims_of env no_request = none
claims_of env no_token = none
claims_of env (validated claims) =
    if not (strip (or_text env.jwks_uri "") == "") || not (strip (or_text env.public_key "") == "")
    then some claims
    else none

-- Where a user key may come from.
pub data Source (env : Env) (access : Access) : String → Type 0 where
  from_claim :
      {claims : Fields} {s : String}
      → claims_of env access ≡ some claims
      → text_value (get_field (or_text (some (strip (or_text env.sub_claim ""))) "sub") claims)
        ≡ some s
      → (strip s == "") ≡ false
      → Source env access s
  from_env :
      {s : String}
      → claims_of env access ≡ none
      → present env.user_id ≡ some s
      → Source env access s
  from_login :
      claims_of env access ≡ none
      → present env.user_id ≡ none
      → has_prefix "postgres" (or_text env.db_url "") ≡ false
      → Source env access env.login

-- The result of `current_user_key`, by its two tests.
current_user_key-of :
    (env : Env)
    → ((s : String) × (present env.user_id ≡ some s) × (current_user_key env ≡ key s))
      ⊎ ((present env.user_id ≡ none)
          × (((has_prefix "postgres" (or_text env.db_url "") ≡ false)
                × (current_user_key env ≡ key env.login))
              ⊎ (current_user_key env ≡ deployment_config_error)))
unfolding current_user_key
current_user_key-of env = elim (Option-cases (present env.user_id)) [
  | inr (s, is) ↦ inl (s, is, rw (current_user_key, is))
  | inl missing ↦ inr (
    missing,
    elim (Bool-cases (has_prefix "postgres" (or_text env.db_url ""))) [
      | inl postgres ↦ inr (rw (current_user_key, missing, postgres))
      | inr other ↦ inl (other, rw (current_user_key, missing, other))
    ],
  )
]

key-injective : {s t : String} → key s ≡ key t → s ≡ t
key-injective h = ground arith

current_user_key_sound :
    (env : Env) (access : Access) (s : String)
    → claims_of env access ≡ none
    → current_user_key env ≡ key s
    → Source env access s
current_user_key_sound env access s no_claims h = elim (current_user_key-of env) [
  | inl (explicit, is, found) ↦
      from_env no_claims (is ∙ ap (λ t. some t) (key-injective (sym found ∙ h)))
  | inr (missing, inl (other, found)) ↦
      subst (λ t. Source env access t) (key-injective (sym found ∙ h))
        (from_login no_claims missing other)
  | inr (missing, inr refused) ↦ absurd (ground (arith, refused, h))
]

key_of_claim_sound :
    (claim : Json) (s : String)
    → key_of_claim claim ≡ key s
    → (text_value claim ≡ some s) × ((strip s == "") ≡ false)
unfolding key_of_claim
key_of_claim_sound claim s h = elim (Option-cases (text_value claim)) [
  | inl missing ↦ absurd (ground (arith, missing))
  | inr (t, is) ↦ elim (Bool-cases (strip t == "")) [
    | inl blank ↦ absurd (ground (arith, is, blank))
    | inr full ↦
        let same : t ≡ s = ground (arith, is, full) in
        (is ∙ ap (λ t. some t) same, rw (← same) full)
  ]
]

-- A user key of a request is the claim of its token that BOND_MCPS_JWT_SUB_CLAIM names, by default `sub`,
-- a text that is not blank, where the URI of a JWKS or a public key is set and the request has a validated
-- token. Otherwise it is BOND_MCPS_USER_ID, or without
-- that the login name, the last only where the database is no Postgres.
pub resolve_user_key_for_request_sound :
    (env : Env) (access : Access) (s : String)
    → resolve_user_key_for_request env access ≡ key s
    → Source env access s
unfolding resolve_user_key_for_request jwt_mode_enabled get_sub_claim
resolve_user_key_for_request_sound env no_request s h =
    current_user_key_sound env no_request s refl (ground (arith, h))
resolve_user_key_for_request_sound env no_token s h =
    current_user_key_sound env no_token s refl (ground (arith, h))
resolve_user_key_for_request_sound env (validated claims) s h =
    elim (Option-cases (claims_of env (validated claims))) [
      | inl off ↦ current_user_key_sound env (validated claims) s off (ground (arith, off, h))
      | inr (found, on) ↦
          let same : found ≡ claims = ground (arith, on) in
          let decided : key_of_claim (get_field (get_sub_claim env) claims) ≡ key s =
            ground (arith, on, h) in
          let (is, full) = key_of_claim_sound (get_field (get_sub_claim env) claims) s decided in
          from_claim (on ∙ ap (λ c. some c) same) is full
    ]
