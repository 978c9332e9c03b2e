-- ===== src/Tests/Mail.antt =====
-- The mail policy at concrete inputs.
use bond_mcps.Prelude.{
  String, true, ◌≡◌, refl, none, some, List, [], ◌∷◌, contains, strip, lstrip, rstrip, lower, split,
  after_last,
}
use bond_mcps.JsonValue.{Json, Fields, object, text, field, end, fields_of, get_field, has_field}
use bond_mcps.MailPolicy.{
  address_of, sender_domain, sender_allowed, keep, filter_messages, allowed_sender_domains,
  domains_of, is_domain,
}
use bond_mcps.MailPolicy.Laws.{
  Filtered, IsShown, IsInternal, sender_allowed_sound, filter_messages_sound,
}

abbrev from : String → Json
from address = object (
    field "from" (object (field "emailAddress" (object (field "address" (text address) end)) end))
      end)

abbrev mail : Json
mail = from "Ann@Corp.com"

abbrev spam : Json
spam = from "x@evil.example"

abbrev domains : List String
domains = "corp.com" ∷ []

allowed : sender_allowed domains mail ≡ true
unfolding sender_allowed get_field address_of sender_domain after_last strip lstrip rstrip lower
    contains
allowed = refl

sender_allowed_sound_example : (fs : Fields) × (fields_of mail ≡ some fs) × IsInternal domains fs
sender_allowed_sound_example = sender_allowed_sound domains mail allowed

configured : allowed_sender_domains (some " @Corp.com, ") ≡ some domains
unfolding allowed_sender_domains domains_of is_domain strip lstrip rstrip lower split
configured = refl

malformed : allowed_sender_domains (some "corp.com,*") ≡ none
unfolding allowed_sender_domains domains_of is_domain strip lstrip rstrip lower split
malformed = refl

filter_messages_sound_example :
    (rest : List Json) × (filter_messages (some " @Corp.com, ") (spam ∷ mail ∷ []) ≡ some rest)
    × Filtered (IsShown domains) (spam ∷ mail ∷ []) rest
filter_messages_sound_example =
    filter_messages_sound (some " @Corp.com, ") "corp.com" [] (spam ∷ mail ∷ []) configured

filter_messages_test : filter_messages (some " @Corp.com, ") (spam ∷ mail ∷ []) ≡ some (mail ∷ [])
unfolding filter_messages keep allowed_sender_domains domains_of is_domain has_field sender_allowed
    get_field address_of sender_domain after_last strip lstrip rstrip lower split contains
filter_messages_test = refl
