-- ===== src/Prelude/Decimal.antt =====
-- `str(n)` of a number.
use Prim.Native.String
use Prim.Native.String.{String, char_at}
use Prim.Native.Nat.{ℕ, zero, suc, ◌/◌, ◌%◌}
use bond_mcps.Prelude.Tests.{ltb, if◌then◌else◌}

-- `str(n)`, with more fuel than the number has digits.
show_from : ℕ → ℕ → String
show_from zero n = ""
show_from (suc fuel) n =
    let last = String.◌∷◌ (char_at "0123456789" (n % 10)) "" in
    let front = show_from fuel (n / 10) in if ltb n 10 then last else String.◌++◌ front last

unfoldable pub show : ℕ → String
unfolding show_from
show n = show_from (suc n) n
