-- ===== src/AuthServer/Upstream.antt =====
-- auth/auth/auth_server/upstream.py: the sign-in at an OIDC provider. What the provider answers is a
-- parameter, and so is the decoding of a token's payload; the discovery document, a token answer and a
-- payload are objects, and tokens, endpoints and emails in them are texts.
pub mod Laws
use Prim.Native.String
use bond_mcps.Prelude.{
  ℕ, String, Bool, true, false, not, ◌||◌, Option, none, some, List, [], ◌∷◌, ◌++◌, ◌==◌, nat_eq,
  if◌then◌else◌, strip, lower, split, contains, present, after_last, rstrip_slash, urlencode, map,
}
use bond_mcps.Db.{Bytes}
use bond_mcps.JsonValue.{Fields, Json, get_field, has_field, text_value}
use bond_mcps.AuthServer.Tokens.{UpstreamUserInfo}

pub data UpstreamProblem : Type 0 where
  -- UpstreamConfigError
  idp_unset unsupported_idp settings_missing discovery_failed : UpstreamProblem
  endpoint_missing : String → UpstreamProblem
  -- UpstreamAuthError
  exchange_failed tokens_missing malformed_token unreadable_token no_sub no_email : UpstreamProblem
  domain_refused : String → UpstreamProblem
  -- Python's KeyError
  key_error : UpstreamProblem

pub data Upstream {ℓ} (A : Type ℓ) : Type ℓ where
  answer : A → Upstream A
  problem : UpstreamProblem → Upstream A

-- The environment's variables
pub record Env : Type 0 where
  pub idp : String
  pub issuer : String
  pub client_id : String
  pub client_secret : String
  pub redirect_uri : String
  pub scopes : String
  pub allowed_domains : String
  pub prompt : String

-- The settings of an OIDCUpstreamIdP
pub record OidcUpstreamIdp : Type 0 where
  pub idp : String
  pub issuer : String
  pub client_id : String
  pub client_secret : String
  pub redirect_uri : String
  pub scopes : String
  pub allowed_domains : List String
  pub prompt : Option String

abbrev pub default_scopes : String
default_scopes = "openid email profile"

-- The pieces that are not blank
unfoldable pub stripped : List String → List String
stripped [] = []
stripped (p ∷ ps) = let rest = stripped ps in if strip p == "" then rest else strip p ∷ rest

unfoldable pub split_csv : String → List String
split_csv raw = stripped (split b',' raw)

unfoldable pub get_upstream_idp : Env → Upstream OidcUpstreamIdp
get_upstream_idp env =
    let idp = lower (strip env.idp) in
    if idp == ""
    then problem idp_unset
    else if not (contains ("cognito" ∷ "okta" ∷ []) idp)
    then problem unsupported_idp
    else if strip env.issuer == "" || strip env.client_id == "" || strip env.redirect_uri == ""
    then problem settings_missing
    else answer (record {
      idp = idp;
      issuer = rstrip_slash (strip env.issuer);
      client_id = strip env.client_id;
      client_secret = strip env.client_secret;
      redirect_uri = strip env.redirect_uri;
      scopes = if strip env.scopes == "" then default_scopes else strip env.scopes;
      allowed_domains = map lower (split_csv env.allowed_domains);
      prompt = present (some (strip env.prompt));
    })

-- A status and an object
pub record HttpAnswer : Type 0 where
  pub status : ℕ
  pub body : Fields

-- The provider, as httpx shows it, and `urlsafe_b64decode` with `json.loads` of a payload.
pub record Provider : Type 0 where
  pub discover : String → HttpAnswer
  -- the URL, the form and the credentials of basic authentication
  pub post : String → List (String × String) → Option (String × String) → HttpAnswer
  pub payload : String → Option Fields

-- `_decode_id_token_claims_unsafe`
unfoldable pub decode_claims : Provider → String → Upstream Fields
decode_claims provider token = elim (split b'.' token) [
  | header ∷ payload ∷ signature ∷ [] ↦ elim (provider.payload payload) [
    | none ↦ problem unreadable_token
    | some claims ↦ answer claims
  ]
  | _ ↦ problem malformed_token
]

-- The domain of an email, where it is one
abbrev pub domain_of : Option String → Option String
domain_of none = none
domain_of (some email) = elim (after_last b'@' email) [
  | none ↦ none
  | some domain ↦ some (lower domain)
]

-- The test of the sign-in domain; without a list every one passes.
unfoldable pub check_domain : List String → Option String → Option UpstreamProblem
check_domain [] email = none
check_domain (d ∷ ds) email = elim (domain_of email) [
  | none ↦ some no_email
  | some domain ↦ if contains (d ∷ ds) domain then none else some (domain_refused domain)
]

unfoldable pub user_of : List String → Fields → Upstream UpstreamUserInfo
user_of allowed_domains claims = elim (present (text_value (get_field "sub" claims))) [
  | none ↦ problem no_sub
  | some sub ↦ elim (check_domain allowed_domains (text_value (get_field "email" claims))) [
    | some refused ↦ problem refused
    | none ↦ answer (record { sub = sub; email = text_value (get_field "email" claims) })
  ]
]

-- `self._discovery`
abbrev pub Discovery : Type 0
Discovery = Option Fields

module _ (idp : OidcUpstreamIdp) (provider : Provider) where
  -- `_meta`, which keeps the document before it looks for the endpoints
  unfoldable pub meta : Discovery → Upstream Fields × Discovery
  meta (some document) = (answer document, some document)
  meta none =
      let found = provider.discover (String.◌++◌ idp.issuer "/.well-known/openid-configuration") in
      if nat_eq found.status 200
      then if has_field "authorization_endpoint" found.body
        then if has_field "token_endpoint" found.body
          then (answer found.body, some found.body)
          else (problem (endpoint_missing "token_endpoint"), some found.body)
        else (problem (endpoint_missing "authorization_endpoint"), some found.body)
      else (problem discovery_failed, none)

  -- `meta[key]`
  abbrev pub endpoint : String → Fields → Upstream String
  endpoint key document = elim (text_value (get_field key document)) [
    | none ↦ problem key_error
    | some url ↦ answer url
  ]

  unfoldable pub authorize_params : String → String → List (String × String)
  authorize_params state code_challenge =
      ("client_id", idp.client_id)
      ∷ ("response_type", "code")
      ∷ ("redirect_uri", idp.redirect_uri)
      ∷ ("scope", idp.scopes)
      ∷ ("state", state)
      ∷ ("code_challenge", code_challenge)
      ∷ ("code_challenge_method", "S256")
      ∷ elim idp.prompt [ none ↦ [] | some prompt ↦ ("prompt", prompt) ∷ [] ]

  unfoldable pub authorize_url :
      (String → Bytes) → String → String → Discovery → Upstream String × Discovery
  authorize_url encode state code_challenge discovery =
      let (found, discovery') = meta discovery in
      elim found [
        | problem e ↦ (problem e, discovery')
        | answer document ↦ elim (endpoint "authorization_endpoint" document) [
          | problem e ↦ (problem e, discovery')
          | answer url ↦ (
            answer (
                String.◌++◌ url
                  (String.◌++◌ "?" (urlencode encode (authorize_params state code_challenge)))),
            discovery',
          )
        ]
      ]

  -- The form of the exchange, and the credentials of a confidential client
  unfoldable pub exchange_form : String → String → List (String × String)
  exchange_form code code_verifier =
      ("grant_type", "authorization_code")
      ∷ ("code", code)
      ∷ ("redirect_uri", idp.redirect_uri)
      ∷ ("code_verifier", code_verifier)
      ∷ (if idp.client_secret == "" then ("client_id", idp.client_id) ∷ [] else [])

  abbrev pub credentials : Option (String × String)
  credentials = if idp.client_secret == "" then none else some (idp.client_id, idp.client_secret)

  -- What is made of the answer to the exchange
  unfoldable pub user_of_answer : HttpAnswer → Upstream UpstreamUserInfo
  user_of_answer reply =
      if nat_eq reply.status 200
      then elim (present (text_value (get_field "id_token" reply.body))) [
        | none ↦ problem tokens_missing
        | some id_token ↦ elim (present (text_value (get_field "access_token" reply.body))) [
          | none ↦ problem tokens_missing
          | some access_token ↦ elim (decode_claims provider id_token) [
            | problem e ↦ problem e
            | answer claims ↦ user_of idp.allowed_domains claims
          ]
        ]
      ]
      else problem exchange_failed

  unfoldable pub exchange_code : String → String → Discovery → Upstream UpstreamUserInfo × Discovery
  exchange_code code code_verifier discovery =
      let (found, discovery') = meta discovery in
      elim found [
        | problem e ↦ (problem e, discovery')
        | answer document ↦ elim (endpoint "token_endpoint" document) [
          | problem e ↦ (problem e, discovery')
          | answer url ↦ (
            user_of_answer (provider.post url (exchange_form code code_verifier) credentials),
            discovery',
          )
        ]
      ]
