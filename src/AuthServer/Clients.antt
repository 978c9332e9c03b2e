-- ===== src/AuthServer/Clients.antt =====
-- auth/auth/auth_server/clients.py: registered clients and the policy on their redirect URIs.
-- `hosts_raw` is the environment's BOND_MCPS_AS_ALLOWED_REDIRECT_HOSTS. The JSON of a request and of
-- BOND_MCPS_STATIC_CLIENTS is read before this model: a list of redirect URIs holds texts, and the
-- environment's value is one of the constructors of StaticClients.
pub mod Policy
pub mod Store
use Prim.Native.String
use bond_mcps.Prelude.{
  String, Bool, true, false, not, ◌&&◌, ◌||◌, Option, none, some, List, [], ◌∷◌, ◌==◌,
  if◌then◌else◌, is_some, present, or_text, contains, split, strip, lower, Url, urlparse, has_port,
}
use bond_mcps.Db.{
  Instant, Db, OAuthClient, get, put, Result, ok, err, Exception, RegistrationError, Exec, pure,
  raise, lift, gets, with_session, ◌>>=◌, ◌>>◌, modify, raise_if,
}

abbrev pub default_grant_types : List String
default_grant_types = "authorization_code" ∷ "refresh_token" ∷ []

abbrev pub default_response_types : List String
default_response_types = "code" ∷ []

pub record ClientRecord : Type 0 where
  pub client_id : String
  pub client_name : Option String
  pub redirect_uris : List String
  pub token_endpoint_auth_method : String
  pub grant_types : List String
  pub response_types : List String
  pub scope : Option String
  pub is_static : Bool

-- What `register_client` reads of the request; `redirect_uris` is `none` where it is missing or no list.
pub record Metadata : Type 0 where
  pub redirect_uris : Option (List String)
  pub client_name : Option String
  pub scope : Option String

pub record StaticEntry : Type 0 where
  pub client_id : Option String
  pub redirect_uris : Option (List String)
  pub client_name : Option String
  pub token_endpoint_auth_method : Option String
  pub grant_types : Option (List String)
  pub response_types : Option (List String)
  pub scope : Option String

pub data StaticClients : Type 0 where
  unset invalid_json not_a_list : StaticClients
  clients : List StaticEntry → StaticClients

abbrev pub or_default : {A : Type 0} → Option A → A → A
or_default none d = d
or_default (some a) d = a

-- A text under Python's truth test
abbrev pub truthy : Option String → Bool
truthy s = is_some (present s)

abbrev pub loopback_hosts : List String
loopback_hosts = "localhost" ∷ "127.0.0.1" ∷ "::1" ∷ []

-- `{h.strip().lower() for h in raw.split(",") if h.strip()}`
hosts_of : List String → List String
hosts_of [] = []
hosts_of (h ∷ hs) = let rest = hosts_of hs in if strip h == "" then rest else lower (strip h) ∷ rest

unfoldable pub allowed_hosts : Option String → List String
unfolding hosts_of
allowed_hosts hosts_raw = hosts_of (split b',' (or_text hosts_raw ""))

abbrev refused : RegistrationError → Result (Unit {0})
refused e = err (Exception.registration e)

-- The checks of `_ensure_allowed_redirect` on the parsed URI.
unfoldable pub ensure_allowed : Option String → Url → Result (Unit {0})
unfolding allowed_hosts
ensure_allowed hosts_raw parsed =
    let host = lower (or_text parsed.hostname "") in
    let allowed = allowed_hosts hosts_raw in
    if parsed.scheme == "" || parsed.netloc == ""
    then refused RegistrationError.malformed
    else if not (parsed.query == "") || not (parsed.fragment == "")
    then refused RegistrationError.has_query
    else if truthy parsed.username || truthy parsed.password
    then refused RegistrationError.has_userinfo
    else if parsed.scheme == "http"
    then if contains loopback_hosts host then ok tt else refused RegistrationError.not_loopback
    else if not (parsed.scheme == "https")
    then refused RegistrationError.bad_scheme
    else elim allowed [
      | [] ↦ refused RegistrationError.hosts_unset
      | h ∷ hs ↦ if contains (h ∷ hs) host then ok tt else refused RegistrationError.host_refused
    ]

abbrev row_of : ClientRecord → Instant → OAuthClient
row_of r created_at = record {
  client_name = r.client_name;
  redirect_uris = r.redirect_uris;
  token_endpoint_auth_method = r.token_endpoint_auth_method;
  grant_types = r.grant_types;
  response_types = r.response_types;
  scope = r.scope;
  is_static = r.is_static;
  created_at = created_at;
}

-- A row that is there keeps its time of creation.
unfoldable pub persist : Instant → ClientRecord → Bool → Exec (Unit {0})
persist now r replace = with_session do
  existing ← gets (λ db. get db.clients r.client_id)
  raise_if (is_some existing && not replace) (Exception.registration RegistrationError.collision)
  modify λ db. record db {
    clients =
        put r.client_id (row_of r (elim existing [ none ↦ now | some row ↦ row.created_at ]))
          db.clients;
  }

abbrev pub row_to_record : String → OAuthClient → ClientRecord
row_to_record client_id row = record {
  client_id = client_id;
  client_name = row.client_name;
  redirect_uris = row.redirect_uris;
  token_endpoint_auth_method = row.token_endpoint_auth_method;
  grant_types = row.grant_types;
  response_types = row.response_types;
  scope = row.scope;
  is_static = row.is_static;
}

-- The loopback carve-out: whether a registered URI admits the presented one.
unfoldable pub same_loopback : Url → Url → Bool
same_loopback presented reg =
    reg.scheme == "http"
    && (or_text reg.hostname "" == or_text presented.hostname "")
    && reg.path == presented.path
    && not (not (reg.query == "") || not (reg.fragment == ""))

module _ (is_bracketed : String → Bool) where
  unfoldable pub ensure_allowed_redirect : Option String → String → Result (Unit {0})
  ensure_allowed_redirect hosts_raw uri = elim (urlparse is_bracketed uri) [
    | none ↦ err Exception.value_error
    | some parsed ↦ ensure_allowed hosts_raw parsed
  ]

  unfoldable pub ensure_all : Option String → List String → Result (Unit {0})
  unfolding ensure_allowed_redirect
  ensure_all hosts_raw [] = ok tt
  ensure_all hosts_raw (uri ∷ uris) = elim (ensure_allowed_redirect hosts_raw uri) [
    | err e ↦ err e
    | ok _ ↦ ensure_all hosts_raw uris
  ]

  -- `secret` is the text that is drawn.
  unfoldable pub register_client : Option String → Instant → String → Metadata → Exec ClientRecord
  unfolding persist
  register_client hosts_raw now secret metadata = elim metadata.redirect_uris [
    | none ↦ raise (Exception.registration RegistrationError.uris_missing)
    | some [] ↦ raise (Exception.registration RegistrationError.uris_missing)
    | some (uri ∷ uris) ↦ do
      lift (ensure_all hosts_raw (uri ∷ uris))
      let client : ClientRecord = record {
        client_id = String.◌++◌ "bm-" secret;
        client_name = metadata.client_name;
        redirect_uris = uri ∷ uris;
        token_endpoint_auth_method = "none";
        grant_types = default_grant_types;
        response_types = default_response_types;
        scope = metadata.scope;
        is_static = false;
      }
      persist now client false
      pure client
  ]

  unfoldable pub record_from_static : Option String → StaticEntry → Result ClientRecord
  record_from_static hosts_raw entry = elim (present entry.client_id) [
    | none ↦ err (Exception.registration RegistrationError.no_client_id)
    | some client_id ↦ elim (or_default entry.redirect_uris []) [
      | [] ↦ err (Exception.registration RegistrationError.no_redirect_uris)
      | uri ∷ uris ↦ elim (ensure_all hosts_raw (uri ∷ uris)) [
        | err e ↦ err e
        | ok _ ↦ ok (record {
          client_id = client_id;
          client_name = entry.client_name;
          redirect_uris = uri ∷ uris;
          token_endpoint_auth_method = or_default entry.token_endpoint_auth_method "none";
          grant_types = or_default entry.grant_types default_grant_types;
          response_types = or_default entry.response_types default_response_types;
          scope = entry.scope;
          is_static = true;
        })
      ]
    ]
  ]

  -- One entry; an exception is logged.
  unfoldable pub seed_entry : Option String → Instant → StaticEntry → Db → Db
  unfolding record_from_static persist
  seed_entry hosts_raw now entry db = elim (record_from_static hosts_raw entry) [
    | err e ↦ db
    | ok client ↦ (persist now client true db).1
  ]

  unfoldable pub seed_entries : Option String → Instant → List StaticEntry → Db → Db
  unfolding seed_entry
  seed_entries hosts_raw now [] db = db
  seed_entries hosts_raw now (entry ∷ entries) db =
      seed_entries hosts_raw now entries (seed_entry hosts_raw now entry db)

  unfoldable pub ensure_statics_seeded : Option String → Instant → StaticClients → Db → Db
  unfolding seed_entries
  ensure_statics_seeded hosts_raw now statics db = if db.statics_seeded then db else elim statics [
    | StaticClients.clients entries ↦ record (seed_entries hosts_raw now entries db) {
      statics_seeded = true;
    }
    | _ ↦ record db { statics_seeded = true }
  ]

  unfoldable pub get_client :
      Option String → Instant → StaticClients → String → Db → Option ClientRecord × Db
  unfolding ensure_statics_seeded
  get_client hosts_raw now statics client_id db =
      let seeded = ensure_statics_seeded hosts_raw now statics db in
      elim (get seeded.clients client_id) [
        | none ↦ (none, seeded)
        | some row ↦ (some (row_to_record client_id row), seeded)
      ]

  -- `any(...)` over the parsed redirect URIs of the client.
  any_loopback : Url → List String → Result Bool
  unfolding same_loopback
  any_loopback presented [] = ok false
  any_loopback presented (uri ∷ uris) = elim (urlparse is_bracketed uri) [
    | none ↦ err Exception.value_error
    | some reg ↦
        let rest = any_loopback presented uris in
        if same_loopback presented reg then ok true else rest
  ]

  unfoldable pub is_redirect_uri_allowed : ClientRecord → String → Result Bool
  unfolding any_loopback
  is_redirect_uri_allowed client redirect_uri = elim (urlparse is_bracketed redirect_uri) [
    | none ↦ err Exception.value_error
    | some presented ↦
        if not (presented.query == "")
          || not (presented.fragment == "")
          || truthy presented.username
          || truthy presented.password
        then ok false
        else if contains client.redirect_uris redirect_uri
        then ok true
        else if not (presented.scheme == "http")
            || not (contains loopback_hosts (or_text presented.hostname ""))
        then ok false
        else if not (has_port presented)
        then ok false
        else any_loopback presented client.redirect_uris
  ]
