-- ===== src/Prelude/Int.antt =====
-- Signed integers over the native numbers, and Python's `int(text)`.
use Prim.Native.Char.{code}
use Prim.Native.String.{String, [], ◌∷◌}
use Prim.Native.Nat.{ℕ, zero, suc, ◌+◌, ◌-◌, ◌*◌}
use mathlib.Core.Bool.{Bool, true, false, ◌&&◌}
use mathlib.Core.Option.{Option, none, some}
use bond_mcps.Prelude.Tests.{leb, nat_eq, if◌then◌else◌}
use bond_mcps.Prelude.Text.{strip}

-- `negsuc n` is -(n + 1).
pub data ℤ : Type 0 where
  pos : ℕ → ℤ
  negsuc : ℕ → ℤ

abbrev pub neg_ℕ : ℕ → ℤ
neg_ℕ zero = pos 0
neg_ℕ (suc n) = negsuc n

-- The number that is at least 0, or 0.
abbrev pub pos_part : ℤ → ℕ
pos_part (pos n) = n
pos_part (negsuc n) = 0

abbrev is_digit : ℕ → Bool
is_digit c = leb 48 c && leb c 57

-- Digits with single underscores between them; `after_digit` tells that an underscore may follow.
digits_from : Bool → ℕ → String → Option ℕ
digits_from after_digit n [] = if after_digit then some n else none
digits_from after_digit n (c ∷ s) =
    let next = digits_from true (n * 10 + (code c - 48)) s in
    let skip = digits_from false n s in
    if is_digit (code c) then next else if after_digit && nat_eq (code c) 95 then skip else none

signed : String → Option ℤ
unfolding digits_from
signed [] = none
signed (c ∷ s) =
    if nat_eq (code c) 45
    then elim (digits_from false 0 s) [ none ↦ none | some n ↦ some (neg_ℕ n) ]
    else if nat_eq (code c) 43
    then elim (digits_from false 0 s) [ none ↦ none | some n ↦ some (pos n) ]
    else elim (digits_from false 0 (c ∷ s)) [ none ↦ none | some n ↦ some (pos n) ]

-- `int(text)` on ASCII text; `none` is the ValueError.
unfoldable pub int_of : String → Option ℤ
unfolding signed
int_of s = signed (strip s)
