-- ===== src/Tests/Setup.antt =====
-- A concrete stand-in for the cryptography: the digest is the text itself, and a sealed blob is the
-- plaintext's length, the plaintext and the associated data. It has the laws that the theorems ask for.
use Prim.Native.Nat.{compare, Ordering}
use Prim.Native.Char.{Char, char, code, IsLt, IsScalar}
use bond_mcps.Prelude.{
  ℕ, String, Bool, true, false, ◌&&◌, Option, none, some, [], ◌∷◌, ◌++◌, ◌≡◌, refl, ap, sym, ◌∙◌,
  arith, nat_eq, length, take, drop, take-append, drop-append, if◌then◌else◌,
}
use bond_mcps.Db.{Bytes, Db, empty}
use bond_mcps.Encryption.{Crypto, Resolver}
use bond_mcps.Encryption.Laws.{IsAead, IsBound, IsUtf8}

abbrev Both : Ordering → Ordering → Type 0
Both Ordering.lt o = IsLt o
Both Ordering.eq o = ⊥
Both Ordering.gt o = ⊥

abbrev Scalar : Ordering → Ordering → Ordering → Type 0
Scalar Ordering.lt o p = Unit
Scalar Ordering.eq o p = Both o p
Scalar Ordering.gt o p = Both o p

abbrev below : (o : Ordering) → Option (IsLt o)
below Ordering.lt = some tt
below Ordering.eq = none
below Ordering.gt = none

abbrev both_of : (o p : Ordering) → Option (Both o p)
both_of Ordering.lt p = below p
both_of Ordering.eq p = none
both_of Ordering.gt p = none

abbrev scalar_of : (o p q : Ordering) → Option (Scalar o p q)
scalar_of Ordering.lt p q = some tt
scalar_of Ordering.eq p q = both_of p q
scalar_of Ordering.gt p q = both_of p q

below_complete : (o : Ordering) (h : IsLt o) → below o ≡ some h
below_complete Ordering.lt h = refl
below_complete Ordering.eq h = elim h [ ]
below_complete Ordering.gt h = elim h [ ]

both_complete : (o p : Ordering) (h : Both o p) → both_of o p ≡ some h
both_complete Ordering.lt p h = below_complete p h
both_complete Ordering.eq p h = elim h [ ]
both_complete Ordering.gt p h = elim h [ ]

scalar_complete : (o p q : Ordering) (h : Scalar o p q) → scalar_of o p q ≡ some h
scalar_complete Ordering.lt p q h = refl
scalar_complete Ordering.eq p q h = both_complete p q h
scalar_complete Ordering.gt p q h = both_complete p q h

abbrev char_with : (n : ℕ) → Option (IsScalar n) → Option Char
char_with n none = none
char_with n (some h) = some (char n h)

abbrev char_of : ℕ → Option Char
char_of n = char_with n (scalar_of (compare n 55296) (compare 57343 n) (compare n 1114112))

char_of-code : (k : Char) → char_of (code k) ≡ some k
char_of-code (char n h) =
    ap (char_with n) (scalar_complete (compare n 55296) (compare 57343 n) (compare n 1114112) h)

abbrev encode : String → Bytes
encode String.[] = []
encode (String.◌∷◌ k s) = code k ∷ encode s

abbrev push : Option Char → Option String → Option String
push (some k) (some s) = some (String.◌∷◌ k s)
push (some k) none = none
push none s = none

abbrev decode : Bytes → Option String
decode [] = some ""
decode (n ∷ ns) = push (char_of n) (decode ns)

decode-encode : (s : String) → decode (encode s) ≡ some s
decode-encode String.[] = refl
decode-encode (String.◌∷◌ k s) =
    ap (λ o. push o (decode (encode s))) (char_of-code k) ∙ ap (push (some k)) (decode-encode s)

abbrev same : Bytes → Bytes → Bool
same [] [] = true
same [] (y ∷ ys) = false
same (x ∷ xs) [] = false
same (x ∷ xs) (y ∷ ys) = nat_eq x y && same xs ys

same_refl : (xs : Bytes) → same xs xs ≡ true
same_refl [] = refl
same_refl (x ∷ xs) = ground (arith, same_refl xs)

same→≡ : (xs ys : Bytes) → same xs ys ≡ true → xs ≡ ys
same→≡ [] [] h = refl
same→≡ [] (y ∷ ys) h = ground arith
same→≡ (x ∷ xs) [] h = ground arith
same→≡ (x ∷ xs) (y ∷ ys) h =
    let rest : same xs ys ≡ true = ground arith in
    let heads : x ≡ y = ground arith in cc (same→≡ xs ys rest)

abbrev pub seal : Bytes → Bytes → Bytes → Bytes → Bytes
seal key nonce plaintext aad = length plaintext ∷ plaintext ++ aad

abbrev pub unseal : Bytes → Bytes → Bytes → Bytes → Option Bytes
unseal key nonce [] aad = none
unseal key nonce (n ∷ text) aad = if same (drop n text) aad then some (take n text) else none

abbrev pub crypto : Crypto
crypto = record {
  digest = λ s. s;
  seal = seal;
  unseal = unseal;
  encode = encode;
  decode = decode;
  b64decode = λ s. some (encode s);
}

pub crypto-IsAead : IsAead crypto
crypto-IsAead = record {
  opens = λ key nonce plaintext aad.
      rw (drop-append plaintext aad, same_refl aad, take-append plaintext aad);
  tagged = λ key nonce plaintext aad. omega arith;
}

pub crypto-IsBound : IsBound crypto
crypto-IsBound = record {
  binds = λ key nonce plaintext aad aad' {opened} e.
      let cut : drop (length plaintext) (plaintext ++ aad) ≡ aad = drop-append plaintext aad in
      let matched : same (drop (length plaintext) (plaintext ++ aad)) aad' ≡ true = ground arith in
      sym cut ∙ same→≡ _ aad' matched;
}

pub crypto-IsUtf8 : IsUtf8 crypto
crypto-IsUtf8 = record { decodes = decode-encode }

-- A key of 32 bytes in the environment.
abbrev pub resolver : Resolver
resolver = record {
  env_value = some "0123456789abcdef0123456789abcdef";
  allow_file_fallback = false;
  key_file = none;
}

abbrev pub nonce : Bytes
nonce = 1 ∷ 2 ∷ 3 ∷ 4 ∷ 5 ∷ 6 ∷ 7 ∷ 8 ∷ 9 ∷ 10 ∷ 11 ∷ 12 ∷ []

abbrev pub no_rows : Db
no_rows = record {
  clients = empty;
  pending = empty;
  codes = empty;
  refresh = empty;
  tickets = empty;
  statics_seeded = false;
}
