-- ===== src/AuthServer/Cognito/Laws.antt =====
-- The cache of cognito_lookup.py: it answers what Cognito answered, and not for longer than its times.
use bond_mcps.Prelude.{
  ℕ, ◌+◌, ◌≤◌, ◌<◌, ltb, ltb→lt, String, false, Option, none, some, List, ◌==◌, ◌≡◌, refl, sym, ap,
  ◌∙◌, ◌⊎◌, inl, inr, arith, Bool-cases, Option-cases, eq_iff, strip, lower,
}
use bond_mcps.AuthServer.Cognito.{
  Entry, Cache, User, Env, lookup_uncached, cached, write_entry, resolve_cognito_sub, ttl,
}

-- Cognito over time: what `ListUsers` answers at each time.
abbrev pub History : Type 0
History = ℕ → String → String → Option (List User)

module _ (env : Env) (history : History) where
  -- Each entry is the answer of a lookup at an earlier time, and ends its time to live after it.
  abbrev pub IsHonest : ℕ → Cache → Type 0
  IsHonest now cache =
      (email : String)
      → (cache email ≡ none)
        ⊎ ((entry : Entry) × (at : ℕ) × (cache email ≡ some entry)
            × (at ≤ now)
            × (entry.sub ≡ lookup_uncached env (history at) email)
            × (entry.expires_at ≡ at + ttl env (history at) entry.sub))

  IsHonest-later :
      (now now' : ℕ) (cache : Cache) → now ≤ now' → IsHonest now cache → IsHonest now' cache
  IsHonest-later now now' cache later h e = elim (h e) [
    | inl missing ↦ inl missing
    | inr (entry, at, found, before, is, ends) ↦ inr (entry, at, found, omega arith, is, ends)
  ]

  write_entry-IsHonest :
      (now : ℕ) (email : String) (cache : Cache)
      → IsHonest now cache
      → IsHonest now (
          write_entry env
            (history now)
            email
            (record {
              sub = lookup_uncached env (history now) email;
              expires_at = now + ttl env (history now) (lookup_uncached env (history now) email);
            })
            cache)
  write_entry-IsHonest now email cache h e = elim (Bool-cases (email == e)) [
    | inr other ↦ elim (h e) [
      | inl missing ↦ inl (rw other missing)
      | inr (entry, at, found, before, is, ends) ↦ inr (entry, at, rw other found, before, is, ends)
    ]
    | inl same ↦
        let email_is : email ≡ e = (eq_iff email e).0 same in
        let entry : Entry = record {
          sub = lookup_uncached env (history now) email;
          expires_at = now + ttl env (history now) (lookup_uncached env (history now) email);
        } in
        inr (
          entry,
          now,
          rw same refl,
          omega arith,
          ap (λ s. lookup_uncached env (history now) s) email_is,
          refl,
        )
  ]

  -- An answer of the cache stands for an entry in time.
  cached-eq-some :
      (now : ℕ) (list_users : String → String → Option (List User)) (email : String) (cache : Cache)
      {found : Option String}
      → cached env list_users now email cache ≡ some found
      → (entry : Entry) × (cache email ≡ some entry)
        × (now < entry.expires_at)
        × (entry.sub ≡ found)
  cached-eq-some now list_users email cache hit = elim (Option-cases (cache email)) [
    | inl missing ↦ absurd (ground (arith, rw (cached, missing) at hit))
    | inr (entry, is) ↦ elim (Bool-cases (ltb now entry.expires_at)) [
      | inl in_time ↦ (
        entry,
        is,
        ltb→lt now entry.expires_at in_time,
        ground (arith, rw (cached, is, in_time) at hit),
      )
      | inr late ↦ absurd (ground (arith, rw (cached, is, late) at hit))
    ]
  ]

  -- An honest cache stays honest, and the answer for an address that is not blank is what Cognito answers at
  -- the time, or what it answered earlier: no longer ago than the time that an answer of its kind lives.
  pub resolve_cognito_sub-IsHonest :
      (now now' : ℕ) (address : String) (cache : Cache)
      → now ≤ now'
      → IsHonest now cache
      → (lower (strip address) == "") ≡ false
      → (at : ℕ) × (at ≤ now')
        × (now
            ≤ at
              + ttl env
                  (history at)
                  (resolve_cognito_sub env (history now') now now' address cache).0)
        × ((resolve_cognito_sub env (history now') now now' address cache).0
            ≡ lookup_uncached env (history at) (lower (strip address)))
        × IsHonest now' (resolve_cognito_sub env (history now') now now' address cache).1
  unfolding resolve_cognito_sub
  resolve_cognito_sub-IsHonest now now' address cache later h some_email =
      let email = lower (strip address) in
      let h' = IsHonest-later now now' cache later h in
      elim (Option-cases (cached env (history now') now email cache)) [
        | inl fresh ↦
            rw (resolve_cognito_sub, some_email, fresh)
              (now', omega arith, omega arith, refl, write_entry-IsHonest now' email cache h')
        | inr (found, hit) ↦
            let (entry, there, in_time, same) = cached-eq-some now (history now') email cache hit in
            elim (h email) [
              | inl missing ↦ absurd (ground (arith, missing, there))
              | inr (other, at, found', before, is, ends) ↦
                  let one : other ≡ entry = ground (arith, found', there) in
                  let sub_is : found ≡ lookup_uncached env (history at) email =
                    sym same ∙ (rw one at is) in
                  let ends' : entry.expires_at ≡ at + ttl env (history at) found =
                    rw (one, same) at ends in
                  rw (resolve_cognito_sub, some_email, hit)
                    (at, omega arith, omega (arith, ends'), sub_is, h')
            ]
      ]
