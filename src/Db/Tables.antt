-- ===== src/Db/Tables.antt =====
-- A SQL table with a text primary key: the partial map from key to row, and the keys that were ever
-- inserted.
use bond_mcps.Prelude.{
  ℕ, suc, ◌||◌, true, false, ◌≡◌, sym, inl, inr, arith, eq_iff, Bool-cases, Option-cases, String,
  Bool, Option, none, some, List, [], ◌∷◌, ◌==◌, contains, if◌then◌else◌,
}

pub record Table {ℓ} (V : Type ℓ) : Type ℓ where
  pub find : String → Option V
  pub keys : List String

module _ {ℓ} {V : Type ℓ} where
  abbrev pub empty : Table V
  empty = record { find = λ k. none; keys = [] }

  -- `session.get(Model, key)`
  abbrev pub get : Table V → String → Option V
  get t k = t.find k

  -- The row of one key is written.
  abbrev pub put : String → V → Table V → Table V
  put k v t = record {
    find = λ j. if k == j then some v else t.find j;
    keys = if contains t.keys k then t.keys else k ∷ t.keys;
  }

  -- `DELETE ... WHERE p`
  abbrev pub delete_where : (String → V → Bool) → Table V → Table V
  delete_where p t = record {
    find = λ j. elim (t.find j) [ none ↦ none | some v ↦ if p j v then none else some v ];
    keys = t.keys;
  }

  -- `UPDATE ... SET f WHERE p`
  abbrev pub update_where : (String → V → Bool) → (V → V) → Table V → Table V
  update_where p f t = record {
    find = λ j. elim (t.find j) [ none ↦ none | some v ↦ some (if p j v then f v else v) ];
    keys = t.keys;
  }

  any_at : (String → V → Bool) → (String → Option V) → List String → Bool
  any_at p find [] = false
  any_at p find (k ∷ ks) = elim (find k) [
    | none ↦ any_at p find ks
    | some v ↦ p k v || any_at p find ks
  ]

  -- Whether `SELECT ... WHERE p` meets a row.
  unfoldable pub exists_where : (String → V → Bool) → Table V → Bool
  unfolding any_at
  exists_where p t = any_at p t.find t.keys

  count_at : (String → V → Bool) → (String → Option V) → List String → ℕ
  count_at p find [] = 0
  count_at p find (k ∷ ks) =
      let rest = count_at p find ks in
      elim (find k) [ none ↦ rest | some v ↦ if p k v then suc rest else rest ]

  -- `SELECT COUNT(*) ... WHERE p`
  unfoldable pub count_where : (String → V → Bool) → Table V → ℕ
  unfolding count_at
  count_where p t = count_at p t.find t.keys

  exists_at :
      (p : String → V → Bool) (find : String → Option V) (ks : List String) (k : String) (v : V)
      → contains ks k ≡ true
      → find k ≡ some v
      → p k v ≡ true
      → any_at p find ks ≡ true
  unfolding any_at contains
  exists_at p find [] k v listed found holds = ground arith
  exists_at p find (j ∷ ks) k v listed found holds = elim (Bool-cases (j == k)) [
    | inl same ↦
        let is : k ≡ j = sym ((eq_iff j k).0 same) in
        let there : find j ≡ some v = rw (← is) found in
        let good : p j v ≡ true = rw (← is) holds in ground (arith, there, good)
    | inr other ↦
        let rest = exists_at p find ks k v (ground arith) found holds in
        elim (Option-cases (find j)) [
          | inl missing ↦ ground arith
          | inr (w, there) ↦ elim (Bool-cases (p j w)) [
            | inl hit ↦ ground arith
            | inr miss ↦ ground arith
          ]
        ]
  ]

  -- A row of a key that is listed is met.
  pub exists_where_lem :
      (p : String → V → Bool) (t : Table V) (k : String) (v : V)
      → contains t.keys k ≡ true
      → get t k ≡ some v
      → p k v ≡ true
      → exists_where p t ≡ true
  unfolding exists_where
  exists_where_lem p t k v listed found holds = exists_at p t.find t.keys k v listed found holds
