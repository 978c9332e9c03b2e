-- ===== src/AuthServer/Clients/Policy.antt =====
-- Where the authorization server may send a browser: the policy on redirect URIs, from registration to
-- the check at /oauth/authorize.
use bond_mcps.Prelude.{
  String, Bool, true, false, ◌==◌, ◌≡◌, ◌⊎◌, inl, inr, ◌↔◌, Option, some, List, [], ◌∷◌, arith,
  eq_iff, contains, or_text, lower, Url, urlparse, Bool-cases, Option-cases, ◌≢◌,
}
use bond_mcps.Db.{ok}
use bond_mcps.AuthServer.Clients.{
  ClientRecord, truthy, loopback_hosts, allowed_hosts, ensure_allowed, ensure_allowed_redirect,
  ensure_all, is_redirect_uri_allowed,
}

-- A plain http URL of a loopback host, or a plain https URL of a host that the deployment trusts.
pub record IsSafe (hosts_raw : Option String) (u : Url) : Type 0 where
  pub no_query : u.query ≡ ""
  pub no_fragment : u.fragment ≡ ""
  pub no_username : truthy u.username ≡ false
  pub no_password : truthy u.password ≡ false
  pub target :
      ((u.scheme ≡ "http") × (contains loopback_hosts (lower (or_text u.hostname "")) ≡ true))
      ⊎ ((u.scheme ≡ "https")
          × (contains (allowed_hosts hosts_raw) (lower (or_text u.hostname "")) ≡ true))

ensure_allowed-target :
    (hosts_raw : Option String) (u : Url)
    → ensure_allowed hosts_raw u ≡ ok tt
    → ((u.scheme ≡ "http") × (contains loopback_hosts (lower (or_text u.hostname "")) ≡ true))
      ⊎ ((u.scheme ≡ "https")
          × (contains (allowed_hosts hosts_raw) (lower (or_text u.hostname "")) ≡ true))
unfolding ensure_allowed
ensure_allowed-target hosts_raw u h = elim (Bool-cases (u.scheme == "http")) [
  | inl http ↦ inl (ground (arith, eq_iff u.scheme "http"), ground arith)
  | inr other ↦ inr (ground (arith, eq_iff u.scheme "https"), ground arith)
]

module _ (hosts_raw : Option String) (u : Url) (s : IsSafe hosts_raw u)
    (located : u.netloc ≢ "") where
  http_accepted :
      u.scheme ≡ "http"
      → contains loopback_hosts (lower (or_text u.hostname "")) ≡ true
      → ensure_allowed hosts_raw u ≡ ok tt
  unfolding ensure_allowed
  http_accepted http host =
      let query : (u.query == "") ≡ true = rw s.no_query in
      let fragment : (u.fragment == "") ≡ true = rw s.no_fragment in
      let empty_scheme : (u.scheme == "") ≡ false = rw http in
      let scheme : (u.scheme == "http") ≡ true = rw http in
      ground (arith, eq_iff u.netloc "", located, s.no_username, s.no_password)

  https_accepted :
      u.scheme ≡ "https"
      → contains (allowed_hosts hosts_raw) (lower (or_text u.hostname "")) ≡ true
      → ensure_allowed hosts_raw u ≡ ok tt
  unfolding ensure_allowed contains
  https_accepted https host =
      let query : (u.query == "") ≡ true = rw s.no_query in
      let fragment : (u.fragment == "") ≡ true = rw s.no_fragment in
      let empty_scheme : (u.scheme == "") ≡ false = rw https in
      let not_http : (u.scheme == "http") ≡ false = rw https in
      let scheme : (u.scheme == "https") ≡ true = rw https in
      ground (arith, eq_iff u.netloc "", located, s.no_username, s.no_password)

-- The policy accepts a URI that is safe and has a netloc, and no other.
pub ensure_allowed_iff :
    (hosts_raw : Option String) (u : Url)
    → (ensure_allowed hosts_raw u ≡ ok tt) ↔ (IsSafe hosts_raw u × (u.netloc ≢ ""))
unfolding ensure_allowed
ensure_allowed_iff hosts_raw u = (
  λ h. (
    record {
      no_query = ground (arith, eq_iff u.query "");
      no_fragment = ground (arith, eq_iff u.fragment "");
      no_username = ground arith;
      no_password = ground arith;
      target = ensure_allowed-target hosts_raw u h;
    },
    λ e. ground (arith, eq_iff u.netloc ""),
  ),
  λ s. elim s.0.target [
    | inl (http, host) ↦ http_accepted hosts_raw u s.0 s.1 http host
    | inr (https, host) ↦ https_accepted hosts_raw u s.0 s.1 https host
  ],
)

-- A URI of one of the loopback hosts in lower case.
loopback-lower :
    (host : Option String)
    → contains loopback_hosts (or_text host "") ≡ true
    → contains loopback_hosts (lower (or_text host "")) ≡ true
unfolding contains lower
loopback-lower host h = elim (Bool-cases (or_text host "" == "localhost")) [
  | inl a ↦ rw ((eq_iff (or_text host "") "localhost").0 a)
  | inr a ↦ elim (Bool-cases (or_text host "" == "127.0.0.1")) [
    | inl b ↦ rw ((eq_iff (or_text host "") "127.0.0.1").0 b)
    | inr b ↦
        let c : or_text host "" ≡ "::1" = ground (
          arith,
          eq_iff "localhost" (or_text host ""),
          eq_iff (or_text host "") "localhost",
          eq_iff "127.0.0.1" (or_text host ""),
          eq_iff (or_text host "") "127.0.0.1",
          eq_iff "::1" (or_text host ""),
        ) in
        rw c
  ]
]

module _ (is_bracketed : String → Bool) (hosts_raw : Option String) where
  ensure_all-member :
      (uris : List String) (uri : String)
      → ensure_all is_bracketed hosts_raw uris ≡ ok tt
      → contains uris uri ≡ true
      → ensure_allowed_redirect is_bracketed hosts_raw uri ≡ ok tt
  unfolding ensure_all contains
  ensure_all-member [] uri all_ok h = ground arith
  ensure_all-member (x ∷ uris) uri all_ok h = elim (Bool-cases (x == uri)) [
    | inl same ↦ rw (← (eq_iff x uri).0 same) (ground arith)
    | inr other ↦ ensure_all-member uris uri (ground arith) (ground arith)
  ]

  parsed_accepted :
      (uri : String) (u : Url)
      → urlparse is_bracketed uri ≡ some u
      → ensure_allowed_redirect is_bracketed hosts_raw uri ≡ ok tt
      → ensure_allowed hosts_raw u ≡ ok tt
  unfolding ensure_allowed_redirect
  parsed_accepted uri u parsed accepted = ground arith

  -- What the check at /oauth/authorize lets through: a URI that is registered, or one of loopback; it
  -- has no query, fragment or userinfo.
  pub is_redirect_uri_allowed_sound :
      (client : ClientRecord) (uri : String)
      → is_redirect_uri_allowed is_bracketed client uri ≡ ok true
      → (u : Url) × (urlparse is_bracketed uri ≡ some u)
        × ((contains client.redirect_uris uri ≡ true)
            ⊎ ((u.scheme ≡ "http") × (contains loopback_hosts (or_text u.hostname "") ≡ true)))
        × (u.query ≡ "")
        × (u.fragment ≡ "")
        × (truthy u.username ≡ false)
        × (truthy u.password ≡ false)
  unfolding is_redirect_uri_allowed
  is_redirect_uri_allowed_sound client uri h = elim (Option-cases (urlparse is_bracketed uri)) [
    | inl malformed ↦ ground arith
    | inr (u, parsed) ↦ (
      u,
      parsed,
      elim (Bool-cases (contains client.redirect_uris uri)) [
        | inl exact ↦ inl exact
        | inr other ↦ inr (ground (arith, eq_iff u.scheme "http"), ground arith)
      ],
      ground (arith, eq_iff u.query ""),
      ground (arith, eq_iff u.fragment ""),
      ground arith,
      ground arith,
    )
  ]

  -- No open redirect: for a client whose registered URIs passed the policy, a URI that the check at
  -- /oauth/authorize lets through is safe, on a loopback port that was never registered too.
  pub allowed_redirect-IsSafe :
      (client : ClientRecord) (uri : String)
      → ensure_all is_bracketed hosts_raw client.redirect_uris ≡ ok tt
      → is_redirect_uri_allowed is_bracketed client uri ≡ ok true
      → (u : Url) × (urlparse is_bracketed uri ≡ some u) × IsSafe hosts_raw u
  allowed_redirect-IsSafe client uri registered allowed =
      let (u, parsed, how, query, fragment, name, password) =
        is_redirect_uri_allowed_sound client uri allowed in
      elim how [
        | inl exact ↦ (
          u,
          parsed,
          ((ensure_allowed_iff hosts_raw u).0 (
              parsed_accepted uri u parsed
                (ensure_all-member client.redirect_uris uri registered exact))).0,
        )
        | inr (http, host) ↦ (
          u,
          parsed,
          record {
            no_query = query;
            no_fragment = fragment;
            no_username = name;
            no_password = password;
            target = inl (http, loopback-lower u.hostname host);
          },
        )
      ]
