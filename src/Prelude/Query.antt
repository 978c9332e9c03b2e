-- ===== src/Prelude/Query.antt =====
-- `urllib.parse.urlencode` of a list of pairs; `encode` is `str.encode`.
use Prim.Native.String
use Prim.Native.String.{String, char_at}
use Prim.Native.Nat.{ℕ, ◌-◌, ◌/◌, ◌%◌}
use mathlib.Core.Bool.{◌&&◌}
use mathlib.Core.List.{List, [], ◌∷◌}
use mathlib.Core.Option.{Option, none, some}
use mathlib.Core.Path.{◌≡◌, refl}
use bond_mcps.Prelude.Tests.{leb, nat_eq, if◌then◌else◌}

-- One byte: letters, digits and `_.-~` stand for themselves, a space is `+`, the others are `%XX`.
quote_byte : ℕ → String
quote_byte b =
    if leb 65 b && leb b 90
    then String.◌∷◌ (char_at "ABCDEFGHIJKLMNOPQRSTUVWXYZ" (b - 65)) ""
    else if leb 97 b && leb b 122
    then String.◌∷◌ (char_at "abcdefghijklmnopqrstuvwxyz" (b - 97)) ""
    else if leb 48 b && leb b 57
    then String.◌∷◌ (char_at "0123456789" (b - 48)) ""
    else if nat_eq b 45
    then "-"
    else if nat_eq b 95
    then "_"
    else if nat_eq b 46
    then "."
    else if nat_eq b 126
    then "~"
    else if nat_eq b 32
    then "+"
    else String.◌∷◌ "%" (
        String.◌∷◌ (char_at "0123456789ABCDEF" (b / 16))
          (String.◌∷◌ (char_at "0123456789ABCDEF" (b % 16)) ""))

-- The bytes of a text under `quote(text, safe=...)`; `safe` is one more character that stands for
-- itself, with its text.
quote_one : Option (ℕ × String) → ℕ → String
unfolding quote_byte
quote_one none b = if nat_eq b 32 then "%20" else quote_byte b
quote_one (some (code, itself)) b =
    if nat_eq b code then itself else if nat_eq b 32 then "%20" else quote_byte b

unfoldable pub quote_bytes : Option (ℕ × String) → List ℕ → String
unfolding quote_one
quote_bytes safe [] = ""
quote_bytes safe (b ∷ bs) = String.◌++◌ (quote_one safe b) (quote_bytes safe bs)

unfoldable pub quote_plus : List ℕ → String
unfolding quote_byte
quote_plus [] = ""
quote_plus (b ∷ bs) = String.◌++◌ (quote_byte b) (quote_plus bs)

unfoldable pub urlencode : (String → List ℕ) → List (String × String) → String
unfolding quote_plus
urlencode encode [] = ""
urlencode encode ((k, v) ∷ []) =
    String.◌++◌ (quote_plus (encode k)) (String.◌∷◌ "=" (quote_plus (encode v)))
urlencode encode ((k, v) ∷ p ∷ ps) =
    String.◌++◌ (String.◌++◌ (quote_plus (encode k)) (String.◌∷◌ "=" (quote_plus (encode v))))
      (String.◌∷◌ "&" (urlencode encode (p ∷ ps)))

quote_plus_test : quote_plus (97 ∷ 32 ∷ 47 ∷ 90 ∷ []) ≡ "a+%2FZ"
unfolding quote_plus
quote_plus_test = refl
