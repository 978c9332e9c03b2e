-- ===== src/Graph/Workbook/Columns.antt =====
-- The columns' letters of mcps/microsoft/ms_graph/workbook_edit.py: numbers to base 26 with the digits
-- A to Z for 1 to 26.
use Prim.Native.Char.{Char, code}
use Prim.Native.String.{char_at}
use bond_mcps.Prelude.{
  ℕ, zero, suc, ◌+◌, ◌-◌, ◌*◌, ◌/◌, ◌%◌, ◌≤◌, ◌<◌, String, ◌≡◌, refl, ap, ◌∙◌, arith, leb, nat_eq,
  Bool, true, subst, Bool-cases, inl, inr, ◌&&◌, if◌then◌else◌,
}

-- `ch.upper()` of an ASCII letter, as its code
abbrev pub upper_code : ℕ → ℕ
upper_code c = if leb 97 c && leb c 122 then c - 32 else c

-- The loop of `_col_to_index`, which reads letters.
unfoldable pub index_from : ℕ → String → ℕ
index_from idx String.[] = idx
index_from idx (String.◌∷◌ c s) = index_from (idx * 26 + (upper_code (code c) - 65 + 1)) s

unfoldable pub col_to_index : String → ℕ
unfolding index_from
col_to_index letters = index_from 0 letters

-- `chr(ord("A") + rem)`
unfoldable pub letter : ℕ → Char
letter rem = char_at "ABCDEFGHIJKLMNOPQRSTUVWXYZ" rem

-- The loop of `_index_to_col`; a round needs fuel.
unfoldable pub col_from : ℕ → ℕ → String → String
unfolding letter
col_from fuel zero letters = letters
col_from zero (suc idx) letters = letters
col_from (suc fuel) (suc idx) letters =
    col_from fuel (idx / 26) (String.◌∷◌ (letter (idx % 26)) letters)

unfoldable pub index_to_col : ℕ → String
unfolding col_from
index_to_col idx = col_from idx idx ""

columns_test : (index_to_col 703 ≡ "AAA") × (index_to_col 26 ≡ "Z") × (col_to_index "aZ" ≡ 52)
unfolding index_to_col col_to_index
columns_test = (refl, refl, refl)

-- Whether the letters below a bound are right
letters_right : ℕ → Bool
letters_right zero = true
letters_right (suc n) = nat_eq (upper_code (code (letter n)) - 65) n && letters_right n

letters_right_below :
    (n rem : ℕ) → letters_right n ≡ true → rem < n → upper_code (code (letter rem)) - 65 ≡ rem
unfolding letters_right
letters_right_below zero rem h below = absurd (omega arith)
letters_right_below (suc n) rem h below = elim (Bool-cases (nat_eq rem n)) [
  | inl same ↦
      let is : n ≡ rem = ground (arith, same) in
      let right : upper_code (code (letter n)) - 65 ≡ n = ground (arith, h) in
      subst (λ k. upper_code (code (letter k)) - 65 ≡ k) is right
  | inr other ↦ letters_right_below n rem (ground (arith, h)) (ground (arith, other))
]

code-letter : (rem : ℕ) → rem < 26 → upper_code (code (letter rem)) - 65 + 1 ≡ rem + 1
unfolding letters_right letter
code-letter rem h = ap (λ n. n + 1) (letters_right_below 26 rem refl h)

index_from-col_from :
    (fuel idx : ℕ) (letters : String)
    → idx ≤ fuel
    → index_from 0 (col_from fuel idx letters) ≡ index_from idx letters
unfolding index_from col_from
index_from-col_from fuel zero letters h = refl
index_from-col_from zero (suc idx) letters h = absurd (omega arith)
index_from-col_from (suc fuel) (suc idx) letters h =
    index_from-col_from fuel (idx / 26) (String.◌∷◌ (letter (idx % 26)) letters) (omega arith)
    ∙ ap (λ n. index_from n letters) (omega (arith, code-letter (idx % 26) (omega arith)))

-- The number of the letters of a column is the column: the fuel is enough, and no two columns have the
-- same letters.
pub col_to_index-index_to_col : (idx : ℕ) → col_to_index (index_to_col idx) ≡ idx
unfolding col_to_index index_to_col index_from
col_to_index-index_to_col idx = index_from-col_from idx idx "" (omega arith)
