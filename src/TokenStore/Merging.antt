-- ===== src/TokenStore/Merging.antt =====
-- The merging of two dicts: what a key has behind it.
use bond_mcps.Prelude.{
  String, false, ◌==◌, if◌then◌else◌, ◌≡◌, refl, ◌∙◌, arith, Bool-cases, inl, inr, eq_iff,
}
use bond_mcps.JsonValue.{Json, Fields, end, field, get_field, has_field}
use bond_mcps.TokenStore.{set_field, merge_fields}

-- The keys of a dict differ.
unfoldable pub Distinct : Fields → Type 0
Distinct end = Unit
Distinct (field k value fs) = (has_field k fs ≡ false) × Distinct fs

get_field-set_field :
    (key k : String) (value : Json) (fs : Fields)
    → get_field key (set_field k value fs) ≡ (if k == key then value else get_field key fs)
unfolding get_field set_field
get_field-set_field key k value end = refl
get_field-set_field key k value (field k' other rest) = elim (Bool-cases (k' == k)) [
  | inl same ↦ elim (Bool-cases (k == key)) [
    | inl this ↦
        rw (set_field, get_field, same, this)
          (ground (arith, eq_iff k key, eq_iff k' key, eq_iff k' k))
    | inr that ↦
        rw (set_field, get_field, same, that)
          (ground (arith, eq_iff k key, eq_iff k' key, eq_iff k' k))
  ]
  | inr differ ↦
      rw (set_field, get_field, differ, get_field-set_field key k value rest)
        (ground (arith, eq_iff k key, eq_iff k' key, eq_iff k' k))
]

-- The new value of a key, or without one the prior one
pub get_field-merge_fields :
    (key : String) (new fs : Fields)
    → Distinct new
    → get_field key (merge_fields fs new)
      ≡ (if has_field key new then get_field key new else get_field key fs)
unfolding get_field has_field merge_fields Distinct
get_field-merge_fields key end fs distinct = refl
get_field-merge_fields key (field k value new) fs (once, distinct) =
    get_field-merge_fields key new (set_field k value fs) distinct ∙ elim (Bool-cases (k == key)) [
      | inl same ↦
          let is : k ≡ key = (eq_iff k key).0 same in
          let missing : has_field key new ≡ false = rw (← is) once in
          rw (missing, get_field-set_field key k value fs, has_field, get_field, same)
      | inr differ ↦ rw (get_field-set_field key k value fs, has_field, get_field, differ)
    ]
