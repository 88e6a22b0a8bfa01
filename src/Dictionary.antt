-- ===== src/Dictionary.antt =====
-- `std::tr1::unordered_map` (and `std::map`) with number keys, as an association list. The order
-- of the entries is that of their first insertion; code that iterates over such a map is given an
-- arrangement of the entries as a parameter.
use data_distribution_simula.Base.{
  ℕ, ◌≡◌, refl, Option, none, some, List, [], ◌∷◌, ◌==◌, if◌then◌else◌, arith, Has, inl, inr, map,
  Bool-cases, suc, ap, length, ◌++◌,
}

module _ {ℓ} {V : Type ℓ} where
  -- `find(k)->second`, unless `find` returns `end()`
  unfoldable pub lookup : ℕ → List (ℕ × V) → Option V
  lookup k [] = none
  lookup k ((j, v) ∷ m) = if j == k then some v else lookup k m

  -- `m[k] = v`
  unfoldable pub assign : ℕ → V → List (ℕ × V) → List (ℕ × V)
  assign k v [] = (k, v) ∷ []
  assign k v ((j, w) ∷ m) = if j == k then (k, v) ∷ m else (j, w) ∷ assign k v m

  abbrev pub keys : List (ℕ × V) → List ℕ
  keys = map (λ e. e.0)

  pub lookup-assign :
      (k j : ℕ) (v : V) (m : List (ℕ × V))
      → lookup j (assign k v m) ≡ (if k == j then some v else lookup j m)
  unfolding lookup assign
  lookup-assign k j v [] = refl
  lookup-assign k j v ((i, w) ∷ m) = ground (arith, lookup-assign k j v m)

  pub Has-keys-assign : (k : ℕ) (v : V) (m : List (ℕ × V)) → Has k (keys (assign k v m))
  unfolding assign
  Has-keys-assign k v [] = inl refl
  Has-keys-assign k v ((j, w) ∷ m) = ground (arith, Has-keys-assign k v m)

  pub Has-keys-assign_of_Has :
      (k j : ℕ) (v : V) (m : List (ℕ × V)) → Has j (keys m) → Has j (keys (assign k v m))
  unfolding assign
  Has-keys-assign_of_Has k j v [] h = absurd h
  Has-keys-assign_of_Has k j v ((i, w) ∷ m) h = ground (arith, Has-keys-assign_of_Has k j v m)

  pub lookup-Has : (k : ℕ) (m : List (ℕ × V)) → Has k (keys m) → (v : V) × (lookup k m ≡ some v)
  unfolding lookup
  lookup-Has k [] h = absurd h
  lookup-Has k ((j, w) ∷ m) h = elim (Bool-cases (j == k)) [
    | inl e ↦ (w, rw e)
    | inr e ↦ elim h [
      | inl same ↦ absurd (ground arith)
      | inr rest ↦ let (v, found) = lookup-Has k m rest in (v, rw e found)
    ]
  ]

  pub Has-keys_of_lookup : (k : ℕ) (m : List (ℕ × V)) (v : V) → lookup k m ≡ some v → Has k (keys m)
  unfolding lookup
  Has-keys_of_lookup k [] v h = cc
  Has-keys_of_lookup k ((j, w) ∷ m) v h = elim (Bool-cases (j == k)) [
    | inl e ↦ inl (ground arith)
    | inr e ↦ inr (Has-keys_of_lookup k m v (ground arith))
  ]

  pub length-assign_new :
      (k : ℕ) (v : V) (m : List (ℕ × V)) → ¬ Has k (keys m) → length (assign k v m) ≡ suc (length m)
  unfolding assign
  length-assign_new k v [] h = refl
  length-assign_new k v ((j, w) ∷ m) h = elim (Bool-cases (j == k)) [
    | inl e ↦ absurd (h (inl (ground arith)))
    | inr e ↦ rw (e, assign) (ap suc (length-assign_new k v m (λ t. h (inr t))))
  ]

  pub keys-assign_known :
      (k : ℕ) (v w : V) (m : List (ℕ × V)) → lookup k m ≡ some v → keys (assign k w m) ≡ keys m
  unfolding lookup assign
  keys-assign_known k v w [] h = cc
  keys-assign_known k v w ((j, u) ∷ m) h = elim (Bool-cases (j == k)) [
    | inl e ↦ rw (e, assign) (ap (λ i. i ∷ keys m) (ground arith))
    | inr e ↦ rw (e, assign) (ap (λ l. j ∷ l) (keys-assign_known k v w m (ground arith)))
  ]

  pub keys-assign_new :
      (k : ℕ) (v : V) (m : List (ℕ × V))
      → ¬ Has k (keys m)
      → keys (assign k v m) ≡ keys m ++ (k ∷ [])
  unfolding assign
  keys-assign_new k v [] h = refl
  keys-assign_new k v ((j, w) ∷ m) h = elim (Bool-cases (j == k)) [
    | inl e ↦ absurd (h (inl (ground arith)))
    | inr e ↦ rw (e, assign) (ap (λ l. j ∷ l) (keys-assign_new k v m (λ t. h (inr t))))
  ]
