-- ===== src/RoundRobin/Layout.antt =====
-- The positions that `setDisks` spreads over the ring, of dadisi/DistRoundRobin.cpp.
use native.Mathlib.Nat.{zero-add}
use data_distribution_simula.ImprovedMap.{word}
use data_distribution_simula.Base.{
  ℕ, suc, refl, ap, inl, inr, List, [], arith, Bool-cases, length, Has, ◌+◌, ◌≤◌, ◌≡◌, ◌∷◌, ◌++◌,
  ◌==◌, sym, subst, true, length-append, All, IsAscending, All-map, Has-append_one, ◌*◌, ◌%◌, ◌<◌,
  ◌⊎◌, ◌∙◌, ◌-◌, ◌/◌, All-Has,
}
use data_distribution_simula.Dictionary.{
  keys, assign, Has-keys-assign_of_Has, Has-keys-assign, length-assign_new,
}
use data_distribution_simula.Disk.{Disk, copy}
use data_distribution_simula.ImprovedMap.Floor.{
  append_one-IsAscending, set_insert-eq-append, All-append_one,
}
use data_distribution_simula.RoundRobin.{spread, laid_out}

-- What the loop of `setDisks` keeps: the positions ascend, and each has an entry.
pub record IsLaidOut (table : List (ℕ × Disk)) (positions : List ℕ) : Type 0 where
  pub ascending : IsAscending positions
  pub stored : (k : ℕ) → Has k positions → Has k (keys table)
  pub placed : (k : ℕ) → Has k (keys table) → Has k positions
  pub counted : length table ≡ length positions

Has-append_one_left : (a k : ℕ) (xs : List ℕ) → Has a xs → Has a (xs ++ (k ∷ []))
Has-append_one_left a k [] h = absurd h
Has-append_one_left a k (x ∷ xs) h = elim h [
  | inl e ↦ inl e
  | inr m ↦ inr (Has-append_one_left a k xs m)
]

Has-append_one_self : (k : ℕ) (xs : List ℕ) → Has k (xs ++ (k ∷ []))
Has-append_one_self k [] = inl refl
Has-append_one_self k (x ∷ xs) = inr (Has-append_one_self k xs)

Has-keys-assign_inv :
    (k j : ℕ) (v : Disk) (m : List (ℕ × Disk))
    → Has j (keys (assign k v m))
    → (j ≡ k) ⊎ Has j (keys m)
unfolding assign
Has-keys-assign_inv k j v [] h = h
Has-keys-assign_inv k j v ((i, w) ∷ m) h = elim (Bool-cases (i == k)) [
  | inl e ↦ elim (rw (e, assign) at h) [ inl a ↦ inl a | inr t ↦ inr (inr t) ]
  | inr e ↦ elim (rw (e, assign) at h) [
    | inl a ↦ inr (inl a)
    | inr t ↦ elim (Has-keys-assign_inv k j v m t) [ inl a ↦ inl a | inr u ↦ inr (inr u) ]
  ]
]

lt_irrefl : (n : ℕ) → ¬ (n < n)
lt_irrefl n h = omega arith

-- One round of the loop.
step-IsLaidOut :
    (id : ℕ) (d : Disk) (table : List (ℕ × Disk)) (positions : List ℕ)
    → IsLaidOut table positions
    → All (λ x. x < id) positions
    → IsLaidOut (assign id d table) (positions ++ (id ∷ []))
step-IsLaidOut id d table positions l below = record {
  ascending = append_one-IsAscending id positions l.ascending below;
  stored = λ k h. elim (Has-append_one k id positions h) [
    | inl old ↦ Has-keys-assign_of_Has id k d table (l.stored k old)
    | inr new ↦ subst (λ j. Has j (keys (assign id d table))) (sym new) (Has-keys-assign id d table)
  ];
  placed = λ k h. elim (Has-keys-assign_inv id k d table h) [
    | inl new ↦
        subst (λ j. Has j (positions ++ (id ∷ []))) (sym new) (Has-append_one_self id positions)
    | inr old ↦ Has-append_one_left k id positions (l.placed k old)
  ];
  counted =
      let fresh =
        length-assign_new id d table
          (λ h. absurd (lt_irrefl id (All-Has (λ x. x < id) id positions below (l.placed id h)))) in
      omega (arith, fresh, l.counted, length-append positions (id ∷ []));
}

-- The loop, as long as the positions do not wrap.
spread-IsLaidOut :
    (distance id : ℕ) (d : Disk) (ds : List Disk) (table : List (ℕ × Disk)) (positions : List ℕ)
    → 0 < distance
    → id + length ds * distance < word
    → All (λ x. x < id) positions
    → IsLaidOut table positions
    → IsLaidOut
        (spread true distance id (d ∷ ds) table positions).0
        (spread true distance id (d ∷ ds) table positions).1
      × (length (spread true distance id (d ∷ ds) table positions).1
          ≡ length positions + suc (length ds))
unfolding spread
spread-IsLaidOut distance id d [] table positions pos fits below l =
    let same = set_insert-eq-append id positions below in
    (
      subst (λ p. IsLaidOut (assign id (copy d) table) p) (sym same)
          (step-IsLaidOut id d table positions l below),
      ap length same ∙ length-append positions (id ∷ []),
    )
spread-IsLaidOut distance id d (e ∷ ds) table positions pos fits below l =
    let same = set_insert-eq-append id positions below in
    let next : (id + distance) % word ≡ id + distance = grind arith in
    let rest =
      spread-IsLaidOut distance (id + distance) e ds (assign id (copy d) table)
        (positions ++ (id ∷ [])) pos (grind arith)
        (All-append_one (λ x. x < id + distance) id positions
          (All-map (λ x. x < id) (λ x. x < id + distance) positions (λ x lt. omega arith) below)
          (omega arith))
        (step-IsLaidOut id d table positions l below) in
    subst
      (λ (r : List (ℕ × Disk) × List ℕ).
        IsLaidOut r.0 r.1 × (length r.1 ≡ length positions + suc (suc (length ds))))
      (λ i. spread true distance (sym next i) (e ∷ ds) (assign id (copy d) table) (sym same i))
      (rest.0, rest.1 ∙ omega (arith, length-append positions (id ∷ [])))

distance_fits : (w m : ℕ) → suc m ≤ w → (0 < w / suc m) × (w / suc m / 2 + m * (w / suc m) ≤ w)
distance_fits w m h = let whole : w / suc m * suc m ≤ w = grind arith in (grind arith, omega arith)

pub laid_out-IsLaidOut :
    (d : Disk) (ds : List Disk)
    → suc (length ds) < word
    → IsLaidOut (laid_out true (d ∷ ds)).0 (laid_out true (d ∷ ds)).1
      × (length (laid_out true (d ∷ ds)).1 ≡ suc (length ds))
unfolding laid_out
laid_out-IsLaidOut d ds few =
    let (pos, fits) = distance_fits (word - 1) (length ds) (omega arith) in
    let (laid, count) =
      spread-IsLaidOut ((word - 1) / suc (length ds)) ((word - 1) / suc (length ds) / 2) d ds [] []
        pos (omega arith) tt
        (record {
          ascending = tt;
          stored = λ k h. absurd h;
          placed = λ k h. absurd h;
          counted = refl;
        }) in
    (laid, count ∙ zero-add (suc (length ds)))
