-- ===== src/Prelude/Lists.antt =====
-- Lists measured and cut by native numbers, under the library's names.
use Prim.Native.Nat.{ℕ, zero, suc, ◌+◌, ◌-◌, ◌≤◌, ◌<◌}
use mathlib.Core.Path.{◌≡◌, refl, ap, sym, subst, ◌∙◌}
use mathlib.Core.List.{List, [], ◌∷◌, ◌++◌}
use native.Mathlib.Omega.{arith}

module _ {ℓ} {A : Type ℓ} where
  abbrev pub length : List A → ℕ
  length [] = 0
  length (x ∷ xs) = suc (length xs)

  abbrev pub take : ℕ → List A → List A
  take zero xs = []
  take (suc n) [] = []
  take (suc n) (x ∷ xs) = x ∷ take n xs

  abbrev pub drop : ℕ → List A → List A
  drop zero xs = xs
  drop (suc n) [] = []
  drop (suc n) (x ∷ xs) = drop n xs

  pub length-append : (xs ys : List A) → length (xs ++ ys) ≡ length xs + length ys
  length-append [] ys = omega arith
  length-append (x ∷ xs) ys = omega (arith, length-append xs ys)

  pub take-append : (xs ys : List A) → take (length xs) (xs ++ ys) ≡ xs
  take-append [] ys = refl
  take-append (x ∷ xs) ys = ap (λ r. x ∷ r) (take-append xs ys)

  pub drop-append : (xs ys : List A) → drop (length xs) (xs ++ ys) ≡ ys
  drop-append [] ys = refl
  drop-append (x ∷ xs) ys = drop-append xs ys

  take-take : (n : ℕ) (xs : List A) → take (length (take n xs)) xs ≡ take n xs
  take-take zero xs = refl
  take-take (suc n) [] = refl
  take-take (suc n) (x ∷ xs) = ap (λ r. x ∷ r) (take-take n xs)

  take-nil : (n : ℕ) → take n [] ≡ []
  take-nil zero = refl
  take-nil (suc n) = refl

  -- A list is cut into what is before a position, and a piece behind it.
  pub take_step :
      (s n : ℕ) (xs : List A)
      → take (s + length (take n (drop s xs))) xs ≡ take s xs ++ take n (drop s xs)
  take_step zero n xs =
      subst (λ k. take k xs ≡ take n xs) {x = length (take n xs)} (omega arith) (take-take n xs)
  take_step (suc s) n [] = take-nil (suc s + length (take n [])) ∙ sym (take-nil n)
  take_step (suc s) n (x ∷ xs) =
      subst (λ k. take k (x ∷ xs) ≡ x ∷ (take s xs ++ take n (drop s xs)))
        {x = suc (s + length (take n (drop s xs)))} (omega arith)
        (ap (λ r. x ∷ r) (take_step s n xs))

  pub length-take-pos :
      (s n : ℕ) (xs : List A) → 0 < n → s < length xs → 0 < length (take n (drop s xs))
  length-take-pos zero zero xs h l = omega arith
  length-take-pos zero (suc n) [] h l = omega arith
  length-take-pos zero (suc n) (x ∷ xs) h l = omega arith
  length-take-pos (suc s) n [] h l = omega arith
  length-take-pos (suc s) n (x ∷ xs) h l = length-take-pos s n xs h (omega arith)

  pub length-take-le : (s n : ℕ) (xs : List A) → length (take n (drop s xs)) ≤ length xs - s
  length-take-le zero zero xs = omega arith
  length-take-le zero (suc n) [] = omega arith
  length-take-le zero (suc n) (x ∷ xs) = omega (arith, length-take-le zero n xs)
  length-take-le (suc s) zero [] = omega arith
  length-take-le (suc s) (suc n) [] = omega arith
  length-take-le (suc s) n (x ∷ xs) = omega (arith, length-take-le s n xs)

  pub take-all : (n : ℕ) (xs : List A) → length xs ≤ n → take n xs ≡ xs
  take-all zero [] h = refl
  take-all zero (x ∷ xs) h = absurd (omega arith)
  take-all (suc n) [] h = refl
  take-all (suc n) (x ∷ xs) h = ap (λ r. x ∷ r) (take-all n xs (omega arith))
