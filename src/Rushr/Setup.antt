-- ===== src/Rushr/Setup.antt =====
-- What `setDisks` of dadisi/DistRUSHr.cpp leaves, where every cluster has room for the copies.
use data_distribution_simula.Base.{
  ℕ, suc, refl, ap, true, none, some, List, [], map, arith, length, All, ◌≤◌, ◌<◌, ◌≡◌, ◌∷◌, ◌∙◌,
  length-map, ◌-◌, inl, inr, Has, sym,
}
use data_distribution_simula.Disk.{Disk, copy}
use data_distribution_simula.Double.{Double}
use data_distribution_simula.Rushr.{
  Rushr, key, are_large, make_groups, init_groups, find_clusters, set_disks, total_weight,
  total_servers,
}
use data_distribution_simula.Rushr.Draw.{init_choices}
use data_distribution_simula.Rushr.Clusters.{part, find_clusters-IsFound, nothing, IsFound-nothing}
use data_distribution_simula.Rushr.Fill.{before, before-part, fill_clusters-part}
use data_distribution_simula.Rushr.Placement.{IsGrouped}
use data_distribution_simula.Rushr.Groups.{
  start, length-make_groups, make_groups-at, make_groups-IsGrouped,
}

pub are_large-lem :
    (copies : ℕ) (cs : List (List Disk))
    → All (λ c. copies ≤ length c) cs
    → are_large copies cs ≡ true
unfolding are_large
are_large-lem copies [] h = refl
are_large-lem copies (c ∷ cs) (here, rest) = ground (arith, are_large-lem copies cs rest)

pub map-copy : (disks : List Disk) → map copy disks ≡ disks
map-copy [] = refl
map-copy (d ∷ ds) = ap (λ l. d ∷ l) (map-copy ds)

-- Every disk has as many disks of its capacity, modulo 2 ^ 32, as there are copies.
abbrev pub HasRoom : ℕ → List Disk → Type 0
HasRoom copies disks = All (λ d. copies ≤ length (part (key d) disks)) disks

pub length-map-part :
    (disks : List Disk) (ks : List ℕ) → length (map (λ k. part k disks) ks) ≡ length ks
length-map-part disks ks = length-map ks (λ k. part k disks)

module _ {R : Type 0} (dbl : Double R) where
  pub init_groups-IsGrouped :
      (this : Rushr R) (disks : List Disk) (clusters : List (List Disk)) (weights : List R)
      → length weights ≡ length clusters
      → 0 < length clusters
      → before clusters (length clusters) ≡ length disks
      → All (λ c. this.copies ≤ length c) clusters
      → (r : Rushr R) × (init_groups dbl this disks clusters weights
          ≡ some (r, init_choices (length disks)))
        × IsGrouped r.groups this.copies (length disks) (before clusters)
        × (length r.groups ≡ length clusters)
        × (r.alldisks ≡ disks)
        × (r.copies ≡ this.copies)
        × (r.clusters ≡ clusters)
  unfolding init_groups start
  init_groups-IsGrouped this disks clusters weights sizes some_cluster whole large =
      let average =
        dbl.div (total_weight dbl clusters weights (dbl.of_signed 0))
          (dbl.of_signed (total_servers dbl clusters 0)) in
      let groups = make_groups dbl average clusters weights none in
      let count : length groups ≡ length clusters =
        length-make_groups dbl average clusters weights none sizes in
      let (g, found, total, sum, room) =
        make_groups-at dbl this.copies average clusters weights none sizes large
          (length clusters - 1) (omega arith) in
      let last : suc (length clusters - 1) ≡ length clusters = omega arith in
      let all_servers : g.cumulative_servers ≡ length disks =
        omega (arith, total, whole, ap (before clusters) last) in
      (
        record {
          copies = this.copies;
          j = length clusters;
          clusters = clusters;
          groups = groups;
          weights = weights;
          alldisks = map copy disks;
        },
        rw (count, found, all_servers) refl,
        make_groups-IsGrouped dbl average clusters weights this.copies (length disks) sizes whole
            large,
        count,
        map-copy disks,
        refl,
        refl,
      )

-- The clusters of the keys are large where the disks have room.
pub parts-large :
    (copies : ℕ) (disks : List Disk) (ks : List ℕ)
    → ((k : ℕ) → Has k ks → copies ≤ length (part k disks))
    → All (λ c. copies ≤ length c) (map (λ k. part k disks) ks)
parts-large copies disks [] h = tt
parts-large copies disks (k ∷ ks) h =
    (h k (inl refl), parts-large copies disks ks (λ j t. h j (inr t)))

pub HasRoom-at :
    (copies : ℕ) (disks : List Disk) (ds : List Disk)
    → All (λ d. copies ≤ length (part (key d) disks)) ds
    → (k : ℕ) → Has k (map key ds)
    → copies ≤ length (part k disks)
HasRoom-at copies disks [] room k h = absurd h
HasRoom-at copies disks (d ∷ ds) (here, rest) k h = elim h [
  | inl e ↦ rw e here
  | inr t ↦ HasRoom-at copies disks ds rest k t
]

pub some_key :
    (disks : List Disk) (ks : List ℕ)
    → 0 < length disks
    → All (λ d. Has (key d) ks) disks
    → 0 < length ks
some_key [] ks h every = absurd (omega arith)
some_key (d ∷ ds) [] h (here, every) = absurd here
some_key (d ∷ ds) (k ∷ ks) h every = omega arith

module _ {R : Type 0} (dbl : Double R) where
  -- Where there are disks, and they have room, `setDisks` makes the groups.
  pub set_disks-IsGrouped :
      (this : Rushr R) (disks : List Disk)
      → 0 < length disks
      → HasRoom this.copies disks
      → (r : Rushr R) × (cum : ℕ → ℕ) × (set_disks dbl this disks
          ≡ some (r, init_choices (length disks)))
        × IsGrouped r.groups this.copies (length disks) cum
        × (cum (length r.groups) ≡ length disks)
        × (0 < length r.groups)
        × (r.alldisks ≡ disks)
        × (r.copies ≡ this.copies)
  unfolding set_disks
  set_disks-IsGrouped this disks some_disk room =
      let (ks, found, kept, every, back) =
        find_clusters-IsFound dbl disks nothing [] IsFound-nothing in
      let clusters = map (λ k. part k disks) ks in
      let count = length-map-part disks ks in
      let whole : before clusters (length clusters) ≡ length disks =
        ap (before clusters) count ∙ before-part disks ks found.unique every in
      let large : All (λ c. this.copies ≤ length c) clusters =
        parts-large this.copies disks ks (λ k t.
          HasRoom-at this.copies disks disks room k
            (elim (back k t) [ inl n ↦ absurd n | inr m ↦ m ])) in
      let filled = fill_clusters-part disks ks (λ k. []) found.unique every in
      let final = find_clusters dbl disks nothing in
      let (r, e, grouped, groups, all, same, named) =
        init_groups-IsGrouped dbl this disks clusters final.weights (found.weighed ∙ sym count)
          (omega (arith, count, some_key disks ks some_disk every)) whole large in
      (
        r,
        before clusters,
        rw (found.numbered, found.empty, filled, are_large-lem this.copies clusters large) e,
        grouped,
        ap (before clusters) groups ∙ whole,
        omega (arith, groups, count, some_key disks ks some_disk every),
        all,
        same,
      )
