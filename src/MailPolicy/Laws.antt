-- ===== src/MailPolicy/Laws.antt =====
-- What the mail policy shows and hides.
use bond_mcps.Prelude.{
  String, true, false, ◌≡◌, ◌≢◌, ◌⊎◌, inl, inr, refl, ap, Option, none, some, List, [], ◌∷◌, ◌==◌,
  arith, contains, strip, lower, after_last, Bool-cases, Option-cases, ◌∙◌, eq_iff,
}
use bond_mcps.LastPart.{IsLastPart, after_last-IsLastPart, after_last_complete}
use bond_mcps.JsonValue.{
  Json, null, boolean, text, Fields, fields_of, get_field, has_field, is_null, is_true,
}
use bond_mcps.MailPolicy.{
  address_of, inside, sender_domain, sender_allowed, shown, keep, filter_messages,
  allowed_sender_domains,
}

-- The domain of an address: what is behind its last `@`, in lower case and without blanks, and not empty.
abbrev pub IsDomainOf : String → String → Type 0
IsDomainOf address domain =
    (part : String) × IsLastPart b'@' (strip address) part
    × (lower (strip part) ≡ domain)
    × (domain ≢ "")

-- The address of `{"emailAddress": {"address": ...}}`
abbrev pub HasAddress : Json → Json → Type 0
HasAddress node address =
    (fs email : Fields) × (fields_of node ≡ some fs)
    × (fields_of (get_field "emailAddress" fs) ≡ some email)
    × (get_field "address" email ≡ address)

abbrev pub HasNoAddress : Json → Type 0
HasNoAddress node =
    (fields_of node ≡ none)
    ⊎ (((fs : Fields) × (fields_of node ≡ some fs)
          × (fields_of (get_field "emailAddress" fs) ≡ none))
        ⊎ HasAddress node null)

-- An address of an allowed domain
abbrev pub IsFrom : List String → Json → Type 0
IsFrom domains node =
    (address domain : String) × HasAddress node (text address)
    × IsDomainOf address domain
    × (contains domains domain ≡ true)

-- A message that the policy lets through: a draft of the mailbox, or one from an address of an allowed
-- domain whose sender has no address, or one of an allowed domain too.
pub data IsInternal (domains : List String) (fs : Fields) : Type 0 where
  draft : get_field "isDraft" fs ≡ boolean true → IsInternal domains fs
  sent :
      IsFrom domains (get_field "from" fs)
      → HasNoAddress (get_field "sender" fs) ⊎ IsFrom domains (get_field "sender" fs)
      → IsInternal domains fs

text-sender_domain :
    (address : Json) (domain : String)
    → sender_domain address ≡ some domain
    → (s : String) × (address ≡ text s) × IsDomainOf s domain
unfolding sender_domain
text-sender_domain (text s) domain h = elim (Option-cases (after_last b'@' (strip s))) [
  | inl nowhere ↦ absurd (ground (arith, rw (sender_domain, nowhere) at h))
  | inr (part, found) ↦ elim (Bool-cases (lower (strip part) == "")) [
    | inl empty ↦ absurd (ground (arith, rw (sender_domain, found, empty) at h))
    | inr full ↦
        let same : lower (strip part) ≡ domain =
          ground (arith, rw (sender_domain, found, full) at h) in
        (
          s,
          refl,
          (
            part,
            after_last-IsLastPart b'@' (strip s) part found,
            same,
            λ e. ground (arith, full, eq_iff (lower (strip part)) "", same, e),
          ),
        )
  ]
]
text-sender_domain _ domain h = absurd (ground (arith, h))

sender_domain_complete :
    (s domain : String) → IsDomainOf s domain → sender_domain (text s) ≡ some domain
unfolding sender_domain
sender_domain_complete s domain (part, (front, c, is, once, split), same, full) =
    let found : after_last b'@' (strip s) ≡ some part =
      ap (after_last b'@') split ∙ after_last_complete b'@' front c part is once in
    let there : (domain == "") ≡ false = ground (arith, eq_iff domain "") in
    rw (sender_domain, found, same, there)

address_of-HasAddress :
    (node : Json) (s : String) → address_of node ≡ text s → HasAddress node (text s)
unfolding address_of
address_of-HasAddress node s h = elim (Option-cases (fields_of node)) [
  | inl other ↦ absurd (ground (arith, rw (address_of, other) at h))
  | inr (fs, are) ↦ elim (Option-cases (fields_of (get_field "emailAddress" fs))) [
    | inl other ↦ absurd (ground (arith, rw (address_of, are, other) at h))
    | inr (email, is) ↦ (fs, email, are, is, rw (address_of, are, is) at h)
  ]
]

address_of-HasNoAddress : (node : Json) → is_null (address_of node) ≡ true → HasNoAddress node
unfolding address_of
address_of-HasNoAddress node h = elim (Option-cases (fields_of node)) [
  | inl other ↦ inl other
  | inr (fs, are) ↦ elim (Option-cases (fields_of (get_field "emailAddress" fs))) [
    | inl other ↦ inr (inl (fs, are, other))
    | inr (email, is) ↦ inr (
        inr
          (fs, email, are, is, null_of (get_field "address" email) (rw (address_of, are, is) at h)))
  ]
]
  where
    null_of : (value : Json) → is_null value ≡ true → value ≡ null
    null_of value k = ground (arith, k)

HasAddress-address_of : (node address : Json) → HasAddress node address → address_of node ≡ address
unfolding address_of
HasAddress-address_of node address (fs, email, are, is, has) = rw (address_of, are, is, has)

HasNoAddress-address_of : (node : Json) → HasNoAddress node → address_of node ≡ null
unfolding address_of
HasNoAddress-address_of node (inl other) = rw (address_of, other)
HasNoAddress-address_of node (inr (inl (fs, are, other))) = rw (address_of, are, other)
HasNoAddress-address_of node (inr (inr has)) = HasAddress-address_of node null has

module _ (domains : List String) where
  inside-IsFrom : (node : Json) → inside domains (address_of node) ≡ true → IsFrom domains node
  inside-IsFrom node h = elim (Option-cases (sender_domain (address_of node))) [
    | inl nobody ↦ absurd (ground (arith, rw (inside, nobody) at h))
    | inr (domain, found) ↦
        let (s, is, good) = text-sender_domain (address_of node) domain found in
        (s, domain, address_of-HasAddress node s is, good, rw (inside, found) at h)
  ]

  IsFrom-inside : (node : Json) → IsFrom domains node → inside domains (address_of node) ≡ true
  IsFrom-inside node (s, domain, has, good, listed) =
      let found : sender_domain (address_of node) ≡ some domain =
        ap sender_domain (HasAddress-address_of node (text s) has)
        ∙ sender_domain_complete s domain good in
      rw (inside, found) listed

  true_of : (value : Json) → is_true value ≡ true → value ≡ boolean true
  true_of value h = ground (arith, h)

  -- The policy fails closed: what it allows is an object that is a draft, or comes from an address of an
  -- allowed domain, sent by nobody else or by an address of an allowed domain.
  pub sender_allowed_sound :
      (msg : Json)
      → sender_allowed domains msg ≡ true
      → (fs : Fields) × (fields_of msg ≡ some fs) × IsInternal domains fs
  unfolding sender_allowed
  sender_allowed_sound msg h = elim (Option-cases (fields_of msg)) [
    | inl junk ↦ ground arith
    | inr (fs, is) ↦ (
      fs,
      is,
      elim (Bool-cases (is_true (get_field "isDraft" fs))) [
        | inl holds ↦ draft (true_of (get_field "isDraft" fs) holds)
        | inr fails ↦ elim (Bool-cases (inside domains (address_of (get_field "from" fs)))) [
          | inr outside ↦ absurd (ground (arith, rw (sender_allowed, is, fails, outside) at h))
          | inl from ↦
              sent (inside-IsFrom (get_field "from" fs) from)
                (elim (Bool-cases (is_null (address_of (get_field "sender" fs)))) [
                  | inl alone ↦ inl (address_of-HasNoAddress (get_field "sender" fs) alone)
                  | inr other ↦ inr (
                      inside-IsFrom (get_field "sender" fs)
                        (rw (sender_allowed, is, fails, from, other) at h))
                ])
        ]
      ],
    )
  ]

  sender_allowed_complete :
      (msg : Json) (fs : Fields)
      → fields_of msg ≡ some fs
      → IsInternal domains fs
      → sender_allowed domains msg ≡ true
  unfolding sender_allowed
  sender_allowed_complete msg fs is (draft holds) = rw (sender_allowed, is, holds)
  sender_allowed_complete msg fs is (sent from (inl alone)) =
      let listed = IsFrom-inside (get_field "from" fs) from in
      let nobody = HasNoAddress-address_of (get_field "sender" fs) alone in
      rw (sender_allowed, is, listed, nobody) (ground arith)
  sender_allowed_complete msg fs is (sent from (inr other)) =
      let listed = IsFrom-inside (get_field "from" fs) from in
      let listed' = IsFrom-inside (get_field "sender" fs) other in
      rw (sender_allowed, is, listed, listed') (ground arith)

  -- A tombstone, or a message that the policy lets through
  abbrev pub IsShown : Json → Type 0
  IsShown msg =
      (fs : Fields) × (fields_of msg ≡ some fs)
      × ((has_field "@removed" fs ≡ true) ⊎ IsInternal domains fs)

  shown-IsShown : (msg : Json) → shown domains msg ≡ true → IsShown msg
  shown-IsShown msg h = elim (Option-cases (fields_of msg)) [
    | inl junk ↦ absurd (ground (arith, rw (shown, junk) at h))
    | inr (fs, is) ↦ elim (Bool-cases (has_field "@removed" fs)) [
      | inl gone ↦ (fs, is, inl gone)
      | inr there ↦
          let (fs', is', good) = sender_allowed_sound msg (rw (shown, is, there) at h) in
          (fs', is', inr good)
    ]
  ]

  IsShown-shown : (msg : Json) → IsShown msg → shown domains msg ≡ true
  IsShown-shown msg (fs, is, inl gone) = rw (shown, is, gone)
  IsShown-shown msg (fs, is, inr good) =
      let allowed = sender_allowed_complete msg fs is good in ground (arith, is, allowed)

-- The messages of a list that have a property, each at its place, and no others
pub data Filtered (P : Json → Type 0) : List Json → List Json → Type 0 where
  nothing : Filtered P [] []
  kept :
      {m : Json} {messages rest : List Json}
      → P m
      → Filtered P messages rest
      → Filtered P (m ∷ messages) (m ∷ rest)
  withheld :
      {m : Json} {messages rest : List Json}
      → (P m → ⊥)
      → Filtered P messages rest
      → Filtered P (m ∷ messages) rest

keep-Filtered :
    (domains : List String) (messages : List Json)
    → Filtered (IsShown domains) messages (keep domains messages)
unfolding keep
keep-Filtered domains [] = nothing
keep-Filtered domains (m ∷ messages) = elim (Bool-cases (shown domains m)) [
  | inl holds ↦
      rw (keep, holds) (kept (shown-IsShown domains m holds) (keep-Filtered domains messages))
  | inr fails ↦
      rw (keep, fails)
        (withheld (λ s. ground (arith, fails, IsShown-shown domains m s))
          (keep-Filtered domains messages))
]

-- A listing under a policy that is on: the answer is, in their order, the messages that are tombstones or
-- that the policy lets through, and no others.
pub filter_messages_sound :
    (raw : Option String) (d : String) (ds : List String) (messages : List Json)
    → allowed_sender_domains raw ≡ some (d ∷ ds)
    → (rest : List Json) × (filter_messages raw messages ≡ some rest)
      × Filtered (IsShown (d ∷ ds)) messages rest
unfolding filter_messages
filter_messages_sound raw d ds messages on =
    (keep (d ∷ ds) messages, rw (filter_messages, on), keep-Filtered (d ∷ ds) messages)
