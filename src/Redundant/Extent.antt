-- ===== src/Redundant/Extent.antt =====
-- From `setDisks` to `placeExtent` of dadisi/DistRedundantShare.cpp: the disks of an extent.
use data_distribution_simula.Base.{
  ℕ, zero, suc, Option, sym, ap, subst, inl, inr, some, List, [], arith, length, get_elem?, All,
  Has, IsAscending, some-injective, ◌<◌, ◌≡◌, ◌≢◌, ◌∷◌, ◌∙◌, IsUnique, false, ltb, ◌^◌, ◌≤◌, refl,
  none, drop, replicate, length-replicate, length-map, >>=-eq-some,
}
use data_distribution_simula.Disk.{Disk}
use data_distribution_simula.Rational.{Rational}
use data_distribution_simula.Redundant.{
  RedundantShare, find_errors, correct_disks, init_value_caches, set_disks, place_extent, value_at,
}
use data_distribution_simula.Redundant.Disks.{new, RsDisk, insert_all, align_disks}
use data_distribution_simula.Redundant.Order.{
  Among, ids, disks_of, IsSmall, insert_all-All, insert_all-lem,
}
use data_distribution_simula.Redundant.Kept.{
  align_disks-disks, find_errors-disks, correct_disks-disks, init_value_caches-kept,
}
use data_distribution_simula.Redundant.Align.{align_disks-clean}
use data_distribution_simula.Redundant.Caches.{
  IsCached, find_errors-IsCounted, correct_disks-IsCounted, fill_errors-IsCached,
  hash_rows-value_at,
}
use data_distribution_simula.Redundant.Placement.{IsTight, IsTight-IsServing, place_from-Picks}
use data_distribution_simula.Rushr.Extent.{Picks}

-- Different disks of the list, one for each copy.
abbrev pub AreDifferent : ℕ → List Disk → List Disk → Type 0
AreDifferent copies disks placed =
    (length placed ≡ copies) × IsUnique (ids placed) × All (λ d. Among d disks) placed

Picks-head :
    (ds : List Disk) (s : ℕ) (servers : List ℕ) (a : Disk) (placed : List Disk)
    → Picks ds (s ∷ servers) (a ∷ placed)
    → get_elem? ds s ≡ some a
Picks-head ds s servers a placed picks = cc

Picks-tail :
    (ds : List Disk) (s : ℕ) (servers : List ℕ) (a : Disk) (placed : List Disk)
    → Picks ds (s ∷ servers) (a ∷ placed)
    → Picks ds servers placed
Picks-tail ds s servers a placed picks = cc

Has-get_elem? : (ds : List Disk) (i : ℕ) (d : Disk) → get_elem? ds i ≡ some d → Has d.id (ids ds)
Has-get_elem? [] i d h = absurd (cc)
Has-get_elem? (x ∷ ds) zero d h = inl (ap (λ d. d.id) (sym (some-injective h)))
Has-get_elem? (x ∷ ds) (suc i) d h = inr (Has-get_elem? ds i d h)

All-get_elem? :
    (P : Disk → Type 0) (ds : List Disk) (i : ℕ) (d : Disk)
    → All P ds
    → get_elem? ds i ≡ some d
    → P d
All-get_elem? P [] i d all h = absurd (cc)
All-get_elem? P (x ∷ ds) zero d all h = subst P (some-injective h) all.0
All-get_elem? P (x ∷ ds) (suc i) d all h = All-get_elem? P ds i d all.1 h

-- Disks at different indices of a list have different ids.
get_elem?-apart :
    (ds : List Disk) (i j : ℕ) (a b : Disk)
    → IsUnique (ids ds)
    → get_elem? ds i ≡ some a
    → get_elem? ds j ≡ some b
    → i < j
    → a.id ≢ b.id
get_elem?-apart [] i j a b unique p q h = cc
get_elem?-apart (d ∷ ds) i zero a b unique p q h = absurd (omega arith)
get_elem?-apart (d ∷ ds) zero (suc j) a b unique p q h = λ e. unique.0 (
    subst (λ k. Has k (ids ds)) (sym e ∙ ap (λ d. d.id) (sym (some-injective p)))
      (Has-get_elem? ds j b q))
get_elem?-apart (d ∷ ds) (suc i) (suc j) a b unique p q h =
    get_elem?-apart ds i j a b unique.1 p q (omega arith)

module _ (ds : List Disk) (unique : IsUnique (ids ds)) where
  Picks-apart :
      (i : ℕ) (a : Disk) (servers : List ℕ) (placed : List Disk)
      → get_elem? ds i ≡ some a
      → All (λ s. i < s) servers
      → Picks ds servers placed
      → ¬ Has a.id (ids placed)
  Picks-apart i a servers [] at behind picks h = h
  Picks-apart i a [] (b ∷ placed) at behind picks h = cc
  Picks-apart i a (s ∷ servers) (b ∷ placed) at behind picks h = elim h [
    | inl e ↦
        get_elem?-apart ds i s a b unique at (Picks-head ds s servers b placed picks) behind.0 e
    | inr m ↦ Picks-apart i a servers placed at behind.1 (Picks-tail ds s servers b placed picks) m
  ]

  Picks-IsUnique :
      (servers : List ℕ) (placed : List Disk)
      → IsAscending servers
      → Picks ds servers placed
      → IsUnique (ids placed)
  Picks-IsUnique servers [] ascending picks = tt
  Picks-IsUnique [] (a ∷ placed) ascending picks = absurd (cc)
  Picks-IsUnique (s ∷ servers) (a ∷ placed) ascending picks = (
    Picks-apart s a servers placed (Picks-head ds s servers a placed picks) ascending.0
        (Picks-tail ds s servers a placed picks),
    Picks-IsUnique servers placed ascending.1 (Picks-tail ds s servers a placed picks),
  )

Picks-All :
    (P : Disk → Type 0) (ds : List Disk) (servers : List ℕ) (placed : List Disk)
    → All P ds
    → Picks ds servers placed
    → All P placed
Picks-All P ds servers [] all picks = tt
Picks-All P ds [] (a ∷ placed) all picks = absurd (cc)
Picks-All P ds (s ∷ servers) (a ∷ placed) all picks = (
  All-get_elem? P ds s a all (Picks-head ds s servers a placed picks),
  Picks-All P ds servers placed all (Picks-tail ds s servers a placed picks),
)

none-All :
    {Q : Type 0} (rat : Rational Q) (disks : List Disk)
    → All (λ d. (new rat d).k_error ≡ none) disks
none-All rat [] = tt
none-All rat (d ∷ disks) = (refl, none-All rat disks)

module _ {Q : Type 0} (rat : Rational Q) (this : RedundantShare Q) (disks : List Disk) where
  -- The set-up, where it comes to its end, has the disks in the order of the set, and full tables.
  set_disks-kept :
      this.copies ≤ length disks
      → (r : RedundantShare Q) → set_disks rat this disks ≡ some r
      → (r.copies ≡ this.copies)
        × (disks_of r.disks ≡ disks_of (insert_all rat this.revert_id_order disks []))
        × ((i t : ℕ)
            → i < length r.disks
            → t < r.copies
            → (v : ℕ) × (value_at r.hash_values i t ≡ some v))
        × All (IsCached r.error_values) r.disks
  unfolding set_disks
  set_disks-kept few r run =
      let enough : ltb (length disks) this.copies ≡ false = ground arith in
      let ds = insert_all rat this.revert_id_order disks [] in
      let aligned = align_disks rat this.copies (length ds) ds in
      let empty : List (Option ℕ) = replicate this.copies none in
      let found = find_errors rat this.copies 0 aligned.0 empty in
      let (corrected, here, rest) =
        >>=-eq-some (correct_disks rat this.copies 1 (drop 1 found.1) found.0)
          (λ (corrected : List (RsDisk Q)).
            init_value_caches rat (record this { capacity = aligned.1; disks = corrected }))
          (rw enough at run) in
      let clean = align_disks-clean rat this.copies (length ds) ds (
        insert_all-All rat this.revert_id_order (λ d. d.k_error ≡ none) disks []
          (none-All rat disks) tt) in
      let counted =
        correct_disks-IsCounted rat this.copies 1 (drop 1 found.1) found.0 corrected
          (find_errors-IsCounted rat this.copies this.copies 0 aligned.0 empty clean (omega arith))
          here in
      let (copies, stays, rows, filled) =
        init_value_caches-kept rat (record this { capacity = aligned.1; disks = corrected }) r
          rest in
      (
        copies,
        ap disks_of stays
            ∙ correct_disks-disks rat this.copies 1 (drop 1 found.1) found.0 corrected here
            ∙ find_errors-disks rat this.copies 0 aligned.0 empty
            ∙ align_disks-disks rat this.copies (length ds) ds,
        (λ i t inside few.
            hash_rows-value_at rat this.copies corrected r.hash_values i t rows
              (omega (arith, ap length stays)) (omega (arith, copies))),
        rw stays
            (fill_errors-IsCached rat this.copies 0 corrected empty empty r.error_values
              r.error_disks counted (length-replicate this.copies none) filled).1,
      )

  -- Where `setDisks` comes to its end for disks with different ids of 64 bits, and capacities that are
  -- positive and below 2 ^ 32, no fewer of them than copies, and the numbers that the fractions leave
  -- in its tables are the greatest hash where just as many disks are left as copies, and have as many
  -- disks behind each disk as the copies for which its share is corrected: `placeExtent` never leaves
  -- its arrays, whatever a hash of 64 bits gives for each id and position. Every extent is placed on
  -- as many disks as there are copies, with different ids, and all of them are disks of the list.
  pub place_extent-AreDifferent :
      (hash : ℕ → ℕ → ℕ) (volume position : ℕ)
      → ((id position : ℕ) → hash id position < 2 ^ 64)
      → All IsSmall disks
      → IsUnique (ids disks)
      → this.copies ≤ length disks
      → (r : RedundantShare Q) → set_disks rat this disks ≡ some r
      → IsTight r
      → (placed : List Disk) × (place_extent hash r volume position ≡ some placed)
        × AreDifferent this.copies disks placed
  unfolding place_extent
  place_extent-AreDifferent hash volume position word small unique few r run tight =
      let (copies, same, rows, cached) = set_disks-kept few r run in
      let (ordered, len, among) = insert_all-lem rat this.revert_id_order disks small unique in
      let enough : r.copies ≤ length r.disks = omega (
        arith,
        copies,
        few,
        len,
        length-map r.disks (λ d. d.disk),
        ap length same,
        length-map (insert_all rat this.revert_id_order disks []) (λ d. d.disk),
      ) in
      let (servers, placed, placing, number, number', behind, ascending, picks) =
        place_from-Picks r (IsTight-IsServing r tight enough rows cached)
          (λ i d. hash d.disk.id position) (λ i d. word d.disk.id position) r.copies 0 (omega arith)
          (omega (arith, enough)) in
      (
        placed,
        placing,
        (
          number ∙ copies,
          Picks-IsUnique (disks_of r.disks) (rw same ordered.unique) servers placed ascending picks,
          Picks-All (λ d. Among d disks) (disks_of r.disks) servers placed (rw same among) picks,
        ),
      )
