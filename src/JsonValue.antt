-- ===== src/JsonValue.antt =====
-- JSON values as `json.loads` gives them, and what Python reads of them. The keys of an object differ.
use bond_mcps.Prelude.{
  String, Bool, true, false, not, ◌||◌, Option, none, some, List, [], ◌∷◌, ◌==◌, nat_eq,
  if◌then◌else◌,
}
use bond_mcps.Prelude.Int.{ℤ, pos, negsuc}

mutual
  pub data Json : Type 0 where
    null : Json
    boolean : Bool → Json
    number : ℤ → Json
    -- whether the float is zero, and its text
    float : Bool → String → Json
    text : String → Json
    array : Items → Json
    object : Fields → Json

  pub data Items : Type 0 where
    nil : Items
    cons : Json → Items → Items

  pub data Fields : Type 0 where
    end : Fields
    field : String → Json → Fields → Fields

-- `d.get(key)`, with null for None
unfoldable pub get_field : String → Fields → Json
get_field key end = null
get_field key (field k value rest) =
    let other = get_field key rest in if k == key then value else other

-- `key in d`
unfoldable pub has_field : String → Fields → Bool
has_field key end = false
has_field key (field k value rest) = k == key || has_field key rest

abbrev pub fields_of : Json → Option Fields
fields_of (object fs) = some fs
fields_of null = none
fields_of (boolean b) = none
fields_of (number n) = none
fields_of (float z s) = none
fields_of (text s) = none
fields_of (array xs) = none

abbrev pub is_null : Json → Bool
is_null null = true
is_null (object fs) = false
is_null (boolean b) = false
is_null (number n) = false
is_null (float z s) = false
is_null (text s) = false
is_null (array xs) = false

-- `value is True`
abbrev pub is_true : Json → Bool
is_true (boolean b) = b
is_true null = false
is_true (object fs) = false
is_true (number n) = false
is_true (float z s) = false
is_true (text s) = false
is_true (array xs) = false

-- Python's truth test
abbrev pub truth : Json → Bool
truth null = false
truth (boolean b) = b
truth (number (pos n)) = not (nat_eq n 0)
truth (number (negsuc n)) = true
truth (float z s) = not z
truth (text s) = not (s == "")
truth (array nil) = false
truth (array (cons x xs)) = true
truth (object end) = false
truth (object (field k x fs)) = true

-- `isinstance(x, int)`, with its number: a bool is an int.
abbrev pub int_value : Json → Option ℤ
int_value (number n) = some n
int_value (boolean true) = some (pos 1)
int_value (boolean false) = some (pos 0)
int_value null = none
int_value (float z s) = none
int_value (text s) = none
int_value (array xs) = none
int_value (object fs) = none

-- `isinstance(x, str)`
abbrev pub text_value : Json → Option String
text_value (text s) = some s
text_value null = none
text_value (boolean b) = none
text_value (number n) = none
text_value (float z s) = none
text_value (array xs) = none
text_value (object fs) = none

-- The elements of a list
unfoldable pub elements : Items → List Json
elements nil = []
elements (cons x xs) = x ∷ elements xs

-- A list of values
unfoldable pub items_of : List Json → Items
items_of [] = nil
items_of (x ∷ xs) = cons x (items_of xs)

-- `isinstance(x, list)`
abbrev pub list_value : Json → Option (List Json)
list_value (array xs) = some (elements xs)
list_value null = none
list_value (boolean b) = none
list_value (number n) = none
list_value (float z s) = none
list_value (text s) = none
list_value (object fs) = none
