-- ===== src/TokenStore/MapRefresh.antt =====
-- What a refresh is to do on the plain map, and the step that does it.
use bond_mcps.Prelude.{
  Bool, ℕ, ◌+◌, ◌≤◌, ◌<◌, String, true, false, Option, none, some, ◌&&◌, ◌==◌, if◌then◌else◌,
  present, or_text, ◌≡◌, refl, ◌∙◌, ap, arith, Bool-cases, Option-cases, ◌⊎◌, inl, inr,
}
use bond_mcps.Db.{Result, ok, err, Exception}
use bond_mcps.JsonValue.{get_field, has_field}
use bond_mcps.TokenStore.{TokenData, merged, is_expired}
use bond_mcps.TokenStore.Refresh.{TokenResponse, Refreshed, raised, nothing, response, with_expiry}
use bond_mcps.TokenStore.Merging.{Distinct, get_field-merge_fields}
use bond_mcps.TokenStore.Laws.{TokenMap, assign, as_stored, keep_lem}

pub Refreshed-cases :
    (a : Refreshed)
    → ((a ≡ raised) ⊎ (a ≡ nothing)) ⊎ ((answer : TokenResponse) × (a ≡ response answer))
Refreshed-cases raised = inl (inl refl)
Refreshed-cases nothing = inl (inr refl)
Refreshed-cases (response answer) = inr (answer, refl)

-- The data has no end, or it ends more than a minute from now.
abbrev pub IsFresh : ℕ → TokenData → Type 0
IsFresh now prior =
    (prior.expires_at ≡ none) ⊎ ((e : ℕ) × (prior.expires_at ≡ some e) × (now + 60 < e))

-- The data ends within a minute, or has ended.
abbrev pub IsDue : ℕ → TokenData → Type 0
IsDue now prior = (e : ℕ) × (prior.expires_at ≡ some e) × (e ≤ now + 60)

-- What is stored for an answer that names an access token, where the prior data had a refresh token: the
-- new access token; the refresh token of the answer, or the prior one; the end that the answer gives; each
-- extra field of the answer, and the prior ones that it does not have.
pub record IsStored (now' : ℕ) (prior : TokenData) (token : String) (answer : TokenResponse)
    (access : String) (stored : TokenData) : Type 0 where
  pub access_token_is : stored.access_token ≡ some access
  pub refresh_token_is : stored.refresh_token ≡ some (or_text answer.content.refresh_token token)
  pub ends :
      ((answer.expires_in ≡ none) × (stored.expires_at ≡ answer.content.expires_at))
      ⊎ ((seconds : ℕ) × (answer.expires_in ≡ some seconds)
          × (stored.expires_at ≡ some (now' + seconds)))
  pub extras_are :
      (key : String)
      → get_field key stored.extras ≡ (
          if has_field key answer.content.extras
          then get_field key answer.content.extras
          else get_field key prior.extras)

module _ (u p : String) (now now' : ℕ) (do_refresh : String → Refreshed) (m : TokenMap) where
  -- What a refresh may return or raise, and the map behind it.
  pub data IsRefresh : Result (Option String) × TokenMap → Type 0 where
    missing : m u p ≡ none → IsRefresh (ok none, m)
    fresh :
        {prior : TokenData}
        → m u p ≡ some prior
        → IsFresh now prior
        → IsRefresh (ok prior.access_token, m)
    no_refresh_token :
        {prior : TokenData}
        → m u p ≡ some prior
        → IsDue now prior
        → present prior.refresh_token ≡ none
        → IsRefresh (ok none, m)
    no_answer :
        {prior : TokenData} {token : String}
        → m u p ≡ some prior
        → IsDue now prior
        → present prior.refresh_token ≡ some token
        → (do_refresh token ≡ raised) ⊎ (do_refresh token ≡ nothing)
        → IsRefresh (ok none, m)
    no_access_token :
        {prior : TokenData} {token : String} {answer : TokenResponse}
        → m u p ≡ some prior
        → IsDue now prior
        → present prior.refresh_token ≡ some token
        → do_refresh token ≡ response answer
        → answer.names_access_token ≡ false
        → IsRefresh (ok none, m)
    empty_access_token :
        {prior : TokenData} {token : String} {answer : TokenResponse}
        → m u p ≡ some prior
        → IsDue now prior
        → present prior.refresh_token ≡ some token
        → do_refresh token ≡ response answer
        → answer.names_access_token ≡ true
        → present answer.content.access_token ≡ none
        → IsRefresh (err Exception.value_error, m)
    refreshed :
        {prior stored : TokenData} {token access : String} {answer : TokenResponse}
        → m u p ≡ some prior
        → IsDue now prior
        → present prior.refresh_token ≡ some token
        → do_refresh token ≡ response answer
        → answer.names_access_token ≡ true
        → present answer.content.access_token ≡ some access
        → IsStored now' prior token answer access stored
        → IsRefresh (ok (some access), λ v q. if u == v && p == q then some stored else m v q)

-- The step on the map.
module _ (u p : String) (now now' : ℕ) (do_refresh : String → Refreshed) where
  abbrev pub store_in_map : TokenData → TokenData → TokenMap → Result (Option String) × TokenMap
  store_in_map prior new m = elim (present new.access_token) [
    | none ↦ (err Exception.value_error, m)
    | some access ↦
        (ok (some access), assign u p (some (as_stored access (merged (some prior) new))) m)
  ]

  abbrev pub refresh_in_map : Option TokenData → TokenMap → Result (Option String) × TokenMap
  refresh_in_map none m = (ok none, m)
  refresh_in_map (some prior) m =
      if is_expired now prior
      then elim (present prior.refresh_token) [
        | none ↦ (ok none, m)
        | some refresh_token ↦ elim (do_refresh refresh_token) [
          | raised ↦ (ok none, m)
          | nothing ↦ (ok none, m)
          | response answer ↦
              if answer.names_access_token
              then store_in_map prior (with_expiry now' answer) m
              else (ok none, m)
        ]
      ]
      else (ok prior.access_token, m)

is_expired-IsDue : (now : ℕ) (prior : TokenData) → is_expired now prior ≡ true → IsDue now prior
is_expired-IsDue now prior h = elim (Option-cases prior.expires_at) [
  | inl endless ↦ absurd (ground (arith, rw (is_expired, endless) at h))
  | inr (e, is) ↦ (e, is, ground (arith, rw (is_expired, is) at h))
]

is_expired-IsFresh :
    (now : ℕ) (prior : TokenData) → is_expired now prior ≡ false → IsFresh now prior
is_expired-IsFresh now prior h = elim (Option-cases prior.expires_at) [
  | inl endless ↦ inl endless
  | inr (e, is) ↦ inr (e, is, ground (arith, rw (is_expired, is) at h))
]

with_expiry_content :
    (now' : ℕ) (answer : TokenResponse)
    → ((with_expiry now' answer).access_token ≡ answer.content.access_token)
      × ((with_expiry now' answer).refresh_token ≡ answer.content.refresh_token)
      × ((with_expiry now' answer).extras ≡ answer.content.extras)
unfolding with_expiry
with_expiry_content now' answer = (ground arith, ground arith, ground arith)

with_expiry_ends :
    (now' : ℕ) (answer : TokenResponse)
    → ((answer.expires_in ≡ none)
        × ((with_expiry now' answer).expires_at ≡ answer.content.expires_at))
      ⊎ ((seconds : ℕ) × (answer.expires_in ≡ some seconds)
          × ((with_expiry now' answer).expires_at ≡ some (now' + seconds)))
unfolding with_expiry
with_expiry_ends now' answer = elim (Option-cases answer.expires_in) [
  | inl endless ↦ inl (endless, rw (with_expiry, endless))
  | inr (seconds, is) ↦ inr (seconds, is, rw (with_expiry, is))
]

merged-IsStored :
    (now' : ℕ) (prior : TokenData) (token : String) (answer : TokenResponse) (access : String)
    → present prior.refresh_token ≡ some token
    → Distinct answer.content.extras
    → IsStored now' prior token answer access
        (as_stored access (merged (some prior) (with_expiry now' answer)))
unfolding as_stored merged
merged-IsStored now' prior token answer access has distinct =
    let (_, refresh_same, extras_same) = with_expiry_content now' answer in
    record {
      access_token_is = refl;
      refresh_token_is =
          keep_lem (with_expiry now' answer).refresh_token prior.refresh_token token has
          ∙ ap (λ t. some (or_text t token)) refresh_same;
      ends = with_expiry_ends now' answer;
      extras_are = λ key.
          rw extras_same (get_field-merge_fields key answer.content.extras prior.extras distinct);
    }

module _ (u p : String) (now now' : ℕ) (do_refresh : String → Refreshed) (m : TokenMap)
    (distinct : (token : String) (answer : TokenResponse)
      → do_refresh token ≡ response answer
      → Distinct answer.content.extras) where
  named-IsRefresh :
      (prior : TokenData) (token : String) (answer : TokenResponse)
      → m u p ≡ some prior
      → IsDue now prior
      → present prior.refresh_token ≡ some token
      → do_refresh token ≡ response answer
      → answer.names_access_token ≡ true
      → IsRefresh u p now now' do_refresh m
          (store_in_map u p now now' do_refresh prior (with_expiry now' answer) m)
  named-IsRefresh prior token answer found due has got named =
      let same = (with_expiry_content now' answer).0 in
      elim (Option-cases (present answer.content.access_token)) [
        | inl empty ↦
            rw (store_in_map, same, empty) (empty_access_token found due has got named empty)
        | inr (access, given) ↦
            rw (store_in_map, same, given)
              (refreshed found due has got named given
                (merged-IsStored now' prior token answer access has (distinct token answer got)))
      ]

  answered-IsRefresh :
      (named : Bool) (prior : TokenData) (token : String) (answer : TokenResponse)
      → m u p ≡ some prior
      → IsDue now prior
      → present prior.refresh_token ≡ some token
      → do_refresh token ≡ response answer
      → answer.names_access_token ≡ named
      → IsRefresh u p now now' do_refresh m (
          if named
          then store_in_map u p now now' do_refresh prior (with_expiry now' answer) m
          else (ok none, m))
  answered-IsRefresh true prior token answer found due has got is =
      named-IsRefresh prior token answer found due has got is
  answered-IsRefresh false prior token answer found due has got is =
      no_access_token found due has got is

  pub refresh_in_map-IsRefresh :
      (locked : Option TokenData)
      → m u p ≡ locked
      → IsRefresh u p now now' do_refresh m (refresh_in_map u p now now' do_refresh locked m)
  refresh_in_map-IsRefresh none found = missing found
  refresh_in_map-IsRefresh (some prior) found = elim (Bool-cases (is_expired now prior)) [
    | inr early ↦ rw early (fresh found (is_expired-IsFresh now prior early))
    | inl old ↦
        let due = is_expired-IsDue now prior old in
        elim (Option-cases (present prior.refresh_token)) [
          | inl lacks ↦ rw (old, lacks) (no_refresh_token found due lacks)
          | inr (token, has) ↦ elim (Refreshed-cases (do_refresh token)) [
            | inl bad ↦ elim bad [
              | inl thrown ↦ rw (old, has, thrown) (no_answer found due has (inl thrown))
              | inr empty ↦ rw (old, has, empty) (no_answer found due has (inr empty))
            ]
            | inr (answer, got) ↦
                rw (old, has, got)
                  (answered-IsRefresh answer.names_access_token prior token answer found due has got
                    refl)
          ]
        ]
  ]
