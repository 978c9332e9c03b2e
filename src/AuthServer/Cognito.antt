-- ===== src/AuthServer/Cognito.antt =====
-- auth/auth/auth_server/cognito_lookup.py: the subject of an email, with its cache. `ListUsers` of Cognito
-- is a parameter; times are of the monotonic clock, in seconds.
pub mod Laws
use bond_mcps.Prelude.{
  ℕ, ◌+◌, String, Bool, true, false, Option, none, some, List, [], ◌∷◌, ◌==◌, ltb, if◌then◌else◌,
  strip, lower, has_prefix, present, or_text,
}

abbrev pub positive_ttl_seconds : ℕ
positive_ttl_seconds = 900

abbrev pub negative_ttl_seconds : ℕ
negative_ttl_seconds = 60

pub record Entry : Type 0 where
  pub sub : Option String
  pub expires_at : ℕ

abbrev pub Cache : Type 0
Cache = String → Option Entry

-- A user of Cognito: the attributes' names and values, and the Username.
pub record User : Type 0 where
  pub attributes : List (Option String × Option String)
  pub username : Option String

pub record Env : Type 0 where
  pub user_pool_id : Option String
  pub db_url : Option String

-- The value of the first attribute `sub` that has one
unfoldable pub sub_attribute : List (Option String × Option String) → Option String
sub_attribute [] = none
sub_attribute ((name, value) ∷ attributes) =
    let rest = sub_attribute attributes in
    if or_text name "" == "sub"
    then elim (present value) [ none ↦ rest | some v ↦ some v ]
    else rest

-- `_extract_sub`
unfoldable pub extract_sub : User → Option String
extract_sub user = elim (sub_attribute user.attributes) [
  | some v ↦ some v
  | none ↦ present user.username
]

module _ (env : Env) (list_users : String → String → Option (List User)) where
  -- `_lookup_uncached`; `list_users` is none where the call raises.
  unfoldable pub lookup_uncached : String → Option String
  lookup_uncached email =
      let pool = strip (or_text env.user_pool_id "") in
      if pool == ""
      then if has_prefix "postgres" (or_text env.db_url "") then none else some email
      else elim (list_users pool email) [
        | none ↦ none
        | some [] ↦ none
        | some (user ∷ users) ↦ extract_sub user
      ]

  abbrev pub ttl : Option String → ℕ
  ttl none = negative_ttl_seconds
  ttl (some sub) = positive_ttl_seconds

  -- The answer of the cache at a time
  abbrev pub cached : ℕ → String → Cache → Option (Option String)
  cached now email cache = elim (cache email) [
    | none ↦ none
    | some entry ↦ if ltb now entry.expires_at then some entry.sub else none
  ]

  abbrev pub write_entry : String → Entry → Cache → Cache
  write_entry email entry cache e = if email == e then some entry else cache e

  -- `resolve_cognito_sub`, with the times of its two looks at the clock
  unfoldable pub resolve_cognito_sub : ℕ → ℕ → String → Cache → Option String × Cache
  resolve_cognito_sub now now' address cache =
      let email = lower (strip address) in
      let sub = lookup_uncached email in
      if email == "" then (none, cache) else elim (cached now email cache) [
        | some found ↦ (found, cache)
        | none ↦ (sub, write_entry email (record { sub = sub; expires_at = now' + ttl sub }) cache)
      ]
