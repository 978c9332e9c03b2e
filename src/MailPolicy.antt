-- ===== src/MailPolicy.antt =====
-- mcps/microsoft/ms_graph/mail_policy.py: the allowlist of sender domains and what it hides.
-- `raw` is the environment's MS_MAIL_ALLOWED_SENDER_DOMAINS; `none` is a MailPolicyConfigError. A set
-- of domains is a list. Messages are JSON values of Microsoft Graph; the keys of an object differ.
pub mod Laws
use Prim.Native.Char.{code}
use Prim.Native.String
use bond_mcps.Prelude.{
  ℕ, suc, String, Bool, true, false, not, ◌&&◌, ◌||◌, Option, none, some, List, [], ◌∷◌, ◌==◌, leb,
  nat_eq, if◌then◌else◌, contains, is_some, length, or_text, strip, lower, split, after_last,
}
use bond_mcps.JsonValue.{
  Json, null, boolean, number, float, text, array, object, get_field, has_field, fields_of, is_null,
  is_true,
}

chars : String → ℕ
chars String.[] = 0
chars (String.◌∷◌ c s) = suc (chars s)

abbrev letter_or_digit : ℕ → Bool
letter_or_digit c = (leb 97 c && leb c 122) || (leb 48 c && leb c 57)

-- The rest of a label: letters, digits and `-`, with no `-` at the end.
label_from : Bool → String → Bool
label_from after_dash String.[] = not after_dash
label_from after_dash (String.◌∷◌ c s) =
    let dash = label_from true s in
    let plain = label_from false s in
    if letter_or_digit (code c) then plain else nat_eq (code c) b'-' && dash

-- `[a-z0-9](?:[a-z0-9-]{0,61}[a-z0-9])?`
is_label : String → Bool
unfolding chars label_from
is_label String.[] = false
is_label (String.◌∷◌ c s) =
    letter_or_digit (code c) && label_from false s && leb (chars (String.◌∷◌ c s)) 63

all_labels : List String → Bool
unfolding is_label
all_labels [] = true
all_labels (s ∷ ss) = is_label s && all_labels ss

-- Whether `_DOMAIN_RE` matches.
unfoldable pub is_domain : String → Bool
unfolding chars all_labels
is_domain s =
    let labels = split b'.' s in all_labels labels && leb 2 (length labels) && leb (chars s) 253

without_at : String → String
without_at String.[] = String.[]
without_at (String.◌∷◌ c s) = if nat_eq (code c) b'@' then s else String.◌∷◌ c s

unfoldable pub domains_of : List String → Option (List String)
unfolding is_domain without_at
domains_of [] = some []
domains_of (entry ∷ entries) =
    let cleaned = without_at (lower (strip entry)) in
    let rest = domains_of entries in
    if cleaned == ""
    then rest
    else if is_domain cleaned
    then elim rest [ none ↦ none | some domains ↦ some (cleaned ∷ domains) ]
    else none

unfoldable pub allowed_sender_domains : Option String → Option (List String)
unfolding domains_of
allowed_sender_domains raw = domains_of (split b',' (or_text raw ""))

-- `enabled()`
unfoldable pub enabled : Option String → Option Bool
unfolding allowed_sender_domains
enabled raw = elim (allowed_sender_domains raw) [
  | none ↦ none
  | some [] ↦ some false
  | some (d ∷ ds) ↦ some true
]

unfoldable pub sender_domain : Json → Option String
sender_domain (text address) = elim (after_last b'@' (strip address)) [
  | none ↦ none
  | some domain ↦ if lower (strip domain) == "" then none else some (lower (strip domain))
]
sender_domain null = none
sender_domain (boolean b) = none
sender_domain (number n) = none
sender_domain (float z s) = none
sender_domain (array xs) = none
sender_domain (object fs) = none

-- `_address(node)`, with null for None
unfoldable pub address_of : Json → Json
unfolding get_field
address_of node = elim (fields_of node) [
  | none ↦ null
  | some fs ↦ elim (fields_of (get_field "emailAddress" fs)) [
    | none ↦ null
    | some email ↦ get_field "address" email
  ]
]

-- `sender_domain(address) in domains`
abbrev pub inside : List String → Json → Bool
inside domains address = elim (sender_domain address) [ none ↦ false | some d ↦ contains domains d ]

unfoldable pub sender_allowed : List String → Json → Bool
unfolding get_field address_of
sender_allowed domains msg = elim (fields_of msg) [
  | none ↦ false
  | some fs ↦
      let sender = address_of (get_field "sender" fs) in
      if is_true (get_field "isDraft" fs)
      then true
      else if not (inside domains (address_of (get_field "from" fs)))
      then false
      else is_null sender || inside domains sender
]

unfoldable pub message_allowed : Option String → Json → Option Bool
unfolding sender_allowed
message_allowed raw msg = elim (allowed_sender_domains raw) [
  | none ↦ none
  | some [] ↦ some true
  | some (d ∷ ds) ↦ some (sender_allowed (d ∷ ds) msg)
]

-- Whether a listing keeps a message.
abbrev pub shown : List String → Json → Bool
shown domains msg = elim (fields_of msg) [
  | none ↦ false
  | some fs ↦ has_field "@removed" fs || sender_allowed domains msg
]

unfoldable pub keep : List String → List Json → List Json
keep domains [] = []
keep domains (msg ∷ messages) =
    let rest = keep domains messages in if shown domains msg then msg ∷ rest else rest

unfoldable pub filter_messages : Option String → List Json → Option (List Json)
unfolding keep
filter_messages raw messages = elim (allowed_sender_domains raw) [
  | none ↦ none
  | some [] ↦ some messages
  | some (d ∷ ds) ↦ some (keep (d ∷ ds) messages)
]

-- A rule carries one of FORWARDING_ACTIONS.
unfoldable pub rule_forwards : Json → Bool
unfolding has_field
rule_forwards rule = elim (fields_of rule) [
  | none ↦ false
  | some fs ↦ elim (fields_of (get_field "actions" fs)) [
    | none ↦ false
    | some actions ↦
        has_field "forwardTo" actions
        || has_field "forwardAsAttachmentTo" actions
        || has_field "redirectTo" actions
  ]
]

-- `fetched` is the message that Graph answers with.
unfoldable pub check_message : Option String → Json → Option Bool
unfolding message_allowed
check_message raw fetched = message_allowed raw fetched
