-- ===== src/Prelude/Text.antt =====
-- Python's methods on `str`, for ASCII text.
use Prim.Native.Char.{Char, code}
use Prim.Native.String
use Prim.Native.String.{String, [], ◌∷◌, char_at}
use Prim.Native.Nat.{ℕ, ◌-◌}
use mathlib.Core.Path.{◌≡◌, refl}
use mathlib.Core.Bool.{Bool, true, false, ◌&&◌, ◌||◌}
use mathlib.Core.Option.{Option, none, some}
use mathlib.Core.List.{List}
use bond_mcps.Prelude.Tests.{leb, nat_eq, if◌then◌else◌}

abbrev pub is_space : ℕ → Bool
is_space c = nat_eq c 32 || (leb 9 c && leb c 13) || (leb 28 c && leb c 31)

unfoldable pub lstrip : String → String
lstrip [] = []
lstrip (c ∷ s) = let rest = lstrip s in if is_space (code c) then rest else c ∷ s

unfoldable pub rstrip : String → String
rstrip [] = []
rstrip (c ∷ s) = elim (rstrip s) [
  | [] ↦ if is_space (code c) then [] else c ∷ []
  | d ∷ r ↦ c ∷ d ∷ r
]

-- `s.strip()`
unfoldable pub strip : String → String
unfolding lstrip rstrip
strip s = rstrip (lstrip s)

-- `s.rstrip("/")`
unfoldable pub rstrip_slash : String → String
rstrip_slash [] = []
rstrip_slash (c ∷ s) = elim (rstrip_slash s) [
  | [] ↦ if nat_eq (code c) b'/' then [] else c ∷ []
  | d ∷ r ↦ c ∷ d ∷ r
]

-- `s.lstrip("/")`
unfoldable pub lstrip_slash : String → String
lstrip_slash [] = []
lstrip_slash (c ∷ s) = let rest = lstrip_slash s in if nat_eq (code c) b'/' then rest else c ∷ s

lower_char : Char → Char
lower_char c =
    if leb 65 (code c) && leb (code c) 90
    then char_at "abcdefghijklmnopqrstuvwxyz" (code c - 65)
    else c

-- `s.lower()`
unfoldable pub lower : String → String
unfolding lower_char
lower [] = []
lower (c ∷ s) = lower_char c ∷ lower s

-- `s.split(sep)` at one character, with the part that is being read.
split_from : ℕ → String → String → List String
split_from sep part [] = List.◌∷◌ part List.[]
split_from sep part (c ∷ s) =
    let closed = List.◌∷◌ part (split_from sep "" s) in
    let longer = split_from sep (String.◌++◌ part (c ∷ [])) s in
    if nat_eq (code c) sep then closed else longer

unfoldable pub split : ℕ → String → List String
unfolding split_from
split sep s = split_from sep "" s

-- `s.rpartition(c)`: the text behind the last occurrence of the character.
unfoldable pub after_last : ℕ → String → Option String
after_last sep [] = none
after_last sep (c ∷ s) = elim (after_last sep s) [
  | some r ↦ some r
  | none ↦ if nat_eq (code c) sep then some s else none
]

-- Whether a character occurs.
unfoldable pub has_char : ℕ → String → Bool
has_char k [] = false
has_char k (c ∷ s) = nat_eq (code c) k || has_char k s

-- `s.startswith(prefix)`
unfoldable pub has_prefix : String → String → Bool
has_prefix [] s = true
has_prefix (p ∷ prefix) [] = false
has_prefix (p ∷ prefix) (c ∷ s) = nat_eq (code p) (code c) && has_prefix prefix s

text_tests :
    (strip "  a b " ≡ "a b")
    × (lower "Ab-Z" ≡ "ab-z")
    × (after_last b'@' "a@b@c" ≡ some "c")
    × (rstrip_slash "x//" ≡ "x")
unfolding strip lower after_last rstrip_slash
text_tests = (refl, refl, refl, refl)
