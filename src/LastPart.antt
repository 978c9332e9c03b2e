-- ===== src/LastPart.antt =====
-- What `after_last` finds: the part of a text behind the last occurrence of a character.
use Prim.Native.Char.{Char, code}
use Prim.Native.String.{String, [], ◌∷◌, ◌++◌}
use text.Mathlib.TextLemmas.{nil-append, cons-append}
use bond_mcps.Prelude.{
  ℕ, true, false, none, some, ◌≡◌, refl, sym, ap, ◌∙◌, arith, nat_eq, has_char, after_last, inl,
  inr, Bool-cases, Option-cases,
}

pub after_last-none : (sep : ℕ) (s : String) → has_char sep s ≡ false → after_last sep s ≡ none
unfolding after_last has_char
after_last-none sep [] h = refl
after_last-none sep (c ∷ s) h =
    let behind = after_last-none sep s (ground (arith, h)) in
    let other : nat_eq (code c) sep ≡ false = ground (arith, h) in rw (after_last, behind, other)

has_char-after_last : (sep : ℕ) (s : String) → after_last sep s ≡ none → has_char sep s ≡ false
unfolding after_last has_char
has_char-after_last sep [] h = refl
has_char-after_last sep (c ∷ s) h = elim (Option-cases (after_last sep s)) [
  | inr (d, found) ↦ absurd (ground (arith, rw (after_last, found) at h))
  | inl nowhere ↦ elim (Bool-cases (nat_eq (code c) sep)) [
    | inl here ↦ absurd (ground (arith, rw (after_last, nowhere, here) at h))
    | inr other ↦ rw (has_char, other, has_char-after_last sep s nowhere)
  ]
]

-- A text in two parts, with a character between them that is not in the second one
abbrev pub IsLastPart : ℕ → String → String → Type 0
IsLastPart sep s part =
    (front : String) × (c : Char) × (code c ≡ sep)
    × (has_char sep part ≡ false)
    × (s ≡ front ++ (c ∷ part))

pub after_last-IsLastPart :
    (sep : ℕ) (s part : String) → after_last sep s ≡ some part → IsLastPart sep s part
unfolding after_last
after_last-IsLastPart sep [] part h = absurd (ground (arith, h))
after_last-IsLastPart sep (c ∷ s) part h = elim (Option-cases (after_last sep s)) [
  | inr (d, found) ↦
      let same : d ≡ part = ground (arith, rw (after_last, found) at h) in
      let (front, c', is, once, split) =
        after_last-IsLastPart sep s part (found ∙ ap (λ t. some t) same) in
      (c ∷ front, c', is, once, ap (λ t. c ∷ t) split ∙ sym (cons-append c front (c' ∷ part)))
  | inl nowhere ↦ elim (Bool-cases (nat_eq (code c) sep)) [
    | inr other ↦ absurd (ground (arith, rw (after_last, nowhere, other) at h))
    | inl here ↦
        let same : s ≡ part = ground (arith, rw (after_last, nowhere, here) at h) in
        (
          [],
          c,
          ground (arith, here),
          rw (← same) (has_char-after_last sep s nowhere),
          ap (λ t. c ∷ t) same ∙ sym (nil-append (c ∷ part)),
        )
  ]
]

pub after_last_complete :
    (sep : ℕ) (front : String) (c : Char) (part : String)
    → code c ≡ sep
    → has_char sep part ≡ false
    → after_last sep (front ++ (c ∷ part)) ≡ some part
unfolding after_last
after_last_complete sep [] c part is once =
    let here : nat_eq (code c) sep ≡ true = ground (arith, is) in
    rw (nil-append, after_last, after_last-none sep part once, here)
after_last_complete sep (c' ∷ front) c part is once =
    rw (cons-append, after_last, after_last_complete sep front c part is once)
