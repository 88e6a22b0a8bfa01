-- ===== src/Rushr/Parts.antt =====
-- When `setDisks` of dadisi/DistRUSHr.cpp succeeds, and which clusters it makes.
use data_distribution_simula.Base.{
  ℕ, refl, sym, ap, inl, inr, true, none, some, List, [], map, arith, ltb, Bool-cases, length, All,
  Has, ◌≤◌, ◌<◌, ◌≡◌, ◌∷◌, ◌∙◌, IsUnique, ◌⊎◌,
}
use data_distribution_simula.Disk.{Disk}
use data_distribution_simula.Double.{Double}
use data_distribution_simula.Rushr.{Rushr, key, are_large, find_clusters, set_disks}
use data_distribution_simula.Rushr.Draw.{init_choices}
use data_distribution_simula.Rushr.Clusters.{part, find_clusters-IsFound, nothing, IsFound-nothing}
use data_distribution_simula.Rushr.Fill.{before, before-part, fill_clusters-part}
use data_distribution_simula.Rushr.Setup.{
  HasRoom, are_large-lem, length-map-part, init_groups-IsGrouped, parts-large, HasRoom-at, some_key,
}

are_large-All :
    (copies : ℕ) (cs : List (List Disk))
    → are_large copies cs ≡ true
    → All (λ c. copies ≤ length c) cs
unfolding are_large
are_large-All copies [] e = tt
are_large-All copies (c ∷ cs) e = elim (Bool-cases (ltb (length c) copies)) [
  | inl small ↦ absurd (ground arith)
  | inr large ↦ (ground arith, are_large-All copies cs (ground arith))
]

part-All :
    (copies : ℕ) (disks : List Disk) (ks : List ℕ) (k : ℕ)
    → All (λ c. copies ≤ length c) (map (λ k. part k disks) ks)
    → Has k ks
    → copies ≤ length (part k disks)
part-All copies disks [] k large there = absurd there
part-All copies disks (j ∷ ks) k (here, large) there = elim there [
  | inl e ↦ rw e here
  | inr t ↦ part-All copies disks ks k large t
]

HasRoom-of_large :
    (copies : ℕ) (disks ds : List Disk) (ks : List ℕ)
    → All (λ c. copies ≤ length c) (map (λ k. part k disks) ks)
    → All (λ d. Has (key d) ks) ds
    → All (λ d. copies ≤ length (part (key d) disks)) ds
HasRoom-of_large copies disks [] ks large every = tt
HasRoom-of_large copies disks (d ∷ ds) ks large (here, every) =
    (part-All copies disks ks (key d) large here, HasRoom-of_large copies disks ds ks large every)

-- For a list of disks that is not empty there are different keys, those of the disks, and one of two
-- things holds. Either every disk has as many disks of its key as there are copies, and `setDisks`
-- succeeds: the clusters are the disks of each key, in the order of the list, and the array of
-- choices has a place for each disk. Or some disk has not, and `setDisks` ends the program.
pub set_disks-part :
    {R : Type 0} (dbl : Double R) (this : Rushr R) (disks : List Disk)
    → 0 < length disks
    → (ks : List ℕ) × IsUnique ks
      × All (λ d. Has (key d) ks) disks
      × ((HasRoom this.copies disks
            × (r : Rushr R) × (set_disks dbl this disks ≡ some (r, init_choices (length disks)))
            × (r.clusters ≡ map (λ k. part k disks) ks)
            × (r.alldisks ≡ disks))
          ⊎ ((¬ HasRoom this.copies disks) × (set_disks dbl this disks ≡ none)))
unfolding set_disks
set_disks-part dbl this disks some_disk =
    let (ks, found, kept, every, back) =
      find_clusters-IsFound dbl disks nothing [] IsFound-nothing in
    let clusters = map (λ k. part k disks) ks in
    let count = length-map-part disks ks in
    let whole : before clusters (length clusters) ≡ length disks =
      ap (before clusters) count ∙ before-part disks ks found.unique every in
    let filled = fill_clusters-part disks ks (λ k. []) found.unique every in
    let final = find_clusters dbl disks nothing in
    (
      ks,
      found.unique,
      every,
      elim (Bool-cases (are_large this.copies clusters)) [
        | inl e ↦
            let large = are_large-All this.copies clusters e in
            let (r, made, grouped, groups, all, same, named) =
              init_groups-IsGrouped dbl this disks clusters final.weights
                (found.weighed ∙ sym count)
                (omega (arith, count, some_key disks ks some_disk every)) whole large in
            inl (
              HasRoom-of_large this.copies disks disks ks large every,
              r,
              rw (found.numbered, found.empty, filled, e) made,
              named,
              all,
            )
        | inr e ↦ inr (
          (λ room.
              let large = parts-large this.copies disks ks (λ k t.
                HasRoom-at this.copies disks disks room k
                  (elim (back k t) [ inl n ↦ absurd n | inr m ↦ m ])) in
              let good = are_large-lem this.copies clusters large in cc),
          rw (found.numbered, found.empty, filled, e) refl,
        )
      ],
    )
