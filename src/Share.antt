-- ===== src/Share.antt =====
-- Share: the class `DistShare` of dadisi/DistShare.cpp, with the intervals of dadisi/ShareDisk.h.
--
-- The ring is cut at the borders of the intervals, and each border has a nearest-neighbour placement
-- of the disks that cover the point before it. Double precision and the hashes of texts are
-- parameters. A read through a null pointer and what `none` stands for in the modules that are called
-- are `none` or `faulted`.
pub mod Intervals
pub mod Cover
pub mod Setup
pub mod Distributors
pub mod Extent
pub mod Placement
pub mod Stretch
pub mod Threads
use data_distribution_simula.Base.{
  ℕ, zero, suc, Bool, true, false, Option, none, some, List, [], map, length, ltb, ◌+◌, ◌%◌, ◌^◌,
  ◌∷◌, ◌>>=◌, if◌then◌else◌,
}
use data_distribution_simula.Disk.{Disk, copy}
use data_distribution_simula.Double.{Double}
use data_distribution_simula.Dictionary.{lookup, assign}
use data_distribution_simula.Word.{add64, sub64}
use data_distribution_simula.ImprovedMap
use data_distribution_simula.ImprovedMap.{ImprovedMap}
use data_distribution_simula.NearestNeighbour
use data_distribution_simula.NearestNeighbour.{
  placed, faulted, unfinished, NearestNeighbour, Hashes, Placing, set_disks_multi,
}
use data_distribution_simula.Share.Intervals.{
  Outside, ShareDisk, lay_disks, all_filled, multiplicity,
}

pub record Share : Type 0 where
  pub copies : ℕ
  pub extent_size : ℕ
  -- null until `setDisks`
  pub disks : Option (List Disk)
  pub distributors : List (ℕ × NearestNeighbour)
  pub system_capacity : ℕ
  pub key_finder : Option ImprovedMap
  pub stretch_factor_const : ℕ
  pub static_stretch_factor : ℕ
  pub static_nn_copies : Bool
  pub nn_copies : ℕ
  pub nn_copies_factor : ℕ
  pub share_copies : ℕ
  pub copies_by_nn : Bool

-- The constructor, without options.
abbrev pub new : Share
new = record {
  copies = 1;
  extent_size = 0;
  disks = none;
  distributors = [];
  system_capacity = 0;
  key_finder = none;
  stretch_factor_const = 3;
  static_stretch_factor = 0;
  static_nn_copies = false;
  nn_copies = 0;
  nn_copies_factor = 400;
  share_copies = 1;
  copies_by_nn = false;
}

-- What the loop that stretches the intervals does: it finds intervals that fill the ring, faults, or
-- has not ended within its fuel.
pub data Stretching : Type 0 where
  laid : List ℕ → List ShareDisk → Stretching
  crashed : Stretching
  growing : Stretching

-- The sum of the capacities.
unfoldable pub system_capacity : List Disk → ℕ → ℕ
system_capacity [] sum = sum
system_capacity (d ∷ ds) sum = system_capacity ds (add64 sum d.capacity)

module _ {R : Type 0} (dbl : Double R) (log2 : R → R) where
  -- `getStretchFactor`
  unfoldable pub get_stretch_factor : Share → ℕ → R
  get_stretch_factor this size =
      if ltb 0 this.static_stretch_factor
      then dbl.of_unsigned this.static_stretch_factor
      else if ltb size 2
      then dbl.of_unsigned 1
      else dbl.mul (dbl.mul (dbl.of_unsigned this.stretch_factor_const) (dbl.of_unsigned 1))
          (log2 (dbl.mul (dbl.of_unsigned 1) (dbl.of_unsigned size)))

  -- `stretchFactor` before the loop.
  unfoldable pub first_stretch_factor : Share → ℕ → R
  unfolding get_stretch_factor
  first_stretch_factor this size =
      let factor = get_stretch_factor this size in
      if this.copies_by_nn then dbl.mul factor (dbl.of_signed this.copies) else factor

-- The `while` loop, which doubles the factor until the intervals fill the ring.
unfoldable pub stretch :
    {R : Type 0} → Double R → Outside R → Share → ℕ → List Disk → ℕ → R → Stretching
unfolding lay_disks all_filled
stretch dbl outside this capacity ds zero factor = growing
stretch dbl outside this capacity ds (suc fuel) factor =
    elim (lay_disks outside this.share_copies capacity factor ds ([], [])) [
      | none ↦ crashed
      | some (borders, s_disks) ↦ elim (all_filled this.copies_by_nn this.copies s_disks borders) [
        | true ↦ laid borders s_disks
        | false ↦ stretch dbl outside this capacity ds fuel (dbl.mul factor (dbl.of_signed 2))
      ]
    ]

-- A new `DistNearestNeighbour` after `setConfiguration` without disks. Its cut factor, which the
-- constructor leaves unset, is not read by `setDisksMulti`.
abbrev pub new_distributor : Share → NearestNeighbour
new_distributor this = record {
  extent_size = this.extent_size;
  copies = if this.copies_by_nn then this.copies else 1;
  cut_factor = 0;
  static_nn_copies = this.static_nn_copies;
  nn_copies = this.nn_copies;
  nn_copies_factor = this.nn_copies_factor;
  disk_distribution = [];
  disks = none;
  keys = [];
  key_finder = none;
}

-- The distributor of a border.
unfoldable pub distributor_at :
    Hashes → Share → List Disk → List ShareDisk → ℕ → Option NearestNeighbour
unfolding multiplicity set_disks_multi
distributor_at h this ds s_disks border =
    set_disks_multi h (new_distributor this) ds (multiplicity s_disks (sub64 border 1) [])

-- The loop over the borders, without threads.
unfoldable pub set_distributors :
    Hashes
    → Share
    → List Disk
    → List ShareDisk
    → List ℕ
    → List (ℕ × NearestNeighbour)
    → Option (List (ℕ × NearestNeighbour))
unfolding distributor_at assign
set_distributors h this ds s_disks [] distributors = some distributors
set_distributors h this ds s_disks (b ∷ borders) distributors =
    distributor_at h this ds s_disks b >>= λ dnn.
    set_distributors h this ds s_disks borders (assign b dnn distributors)

-- What `setDisks` does: it ends with the new state, faults, or is still stretching.
pub data Setting : Type 0 where
  set_up : Share → Setting
  failed : Setting
  stretching : Setting

-- The part of `setDisks` after the loop.
unfoldable pub set_intervals : Hashes → Share → List Disk → List ℕ → List ShareDisk → Option Share
unfolding set_distributors
set_intervals h this ds borders s_disks =
    set_distributors h this ds s_disks borders [] >>= λ distributors.
    ImprovedMap.new h.ceil_log2 (length ds) borders >>= λ finder.
    some (record this { distributors = distributors; key_finder = some finder })

-- `setDisks`, where it makes no threads
unfoldable pub set_disks :
    {R : Type 0} → Double R → (R → R) → Outside R → Hashes → Share → ℕ → List Disk → Setting
unfolding system_capacity first_stretch_factor stretch set_intervals
set_disks dbl log2 outside h this fuel ds =
    let capacity = system_capacity ds 0 in
    let next = record this { disks = some (map (λ d. copy d) ds); system_capacity = capacity } in
    elim (stretch dbl outside this capacity (map (λ d. copy d) ds) fuel
      (first_stretch_factor dbl log2 this (length ds))) [
        | crashed ↦ failed
        | growing ↦ stretching
        | laid borders s_disks ↦
            elim (set_intervals h next (map (λ d. copy d) ds) borders s_disks) [
              | none ↦ failed
              | some done ↦ set_up done
            ]
      ]

-- `setConfiguration`; the size of the extents is cut to 32 bits
unfoldable pub set_configuration :
    {R : Type 0} → Double R → (R → R) → Outside R → Hashes → Share → ℕ → List Disk → ℕ → ℕ → Setting
unfolding set_disks
set_configuration dbl log2 outside h this fuel ds extent_size copies =
    set_disks dbl log2 outside h
      (record this { extent_size = extent_size % 2 ^ 32; copies = copies }) fuel ds

-- `getDisks`
unfoldable pub get_disks : Share → Option (List Disk)
get_disks this = elim this.disks [ none ↦ none | some ds ↦ some (map (λ d. copy d) ds) ]

-- The hashes of `placeExtent`: `hashFunction` and `hashFunctionNN` of a volume, a position and an
-- index.
pub record Probes : Type 0 where
  pub of_share : ℕ → ℕ → ℕ → ℕ
  pub of_nn : ℕ → ℕ → ℕ → ℕ

-- The distributor of the closest border.
unfoldable pub distributor_of : Share → ℕ → Option NearestNeighbour
unfolding lookup
distributor_of this pos = this.key_finder >>= λ finder.
    ImprovedMap.find_closest finder pos >>= λ border. lookup border this.distributors

-- The front of a list of disks.
abbrev pub front : Placing → Option Disk
front (placed (d ∷ ds)) = some d
front (placed []) = none
front faulted = none
front unfinished = none

-- One round of the loop of `placeExtent`. The placement on one copy ends after one round of its own.
unfoldable pub probe_disk : Hashes → Probes → Share → ℕ → ℕ → ℕ → Option Disk
unfolding distributor_of NearestNeighbour.place_extent
probe_disk h probes this volume position i =
    distributor_of this (probes.of_share volume position i) >>= λ dnn.
    front (
      NearestNeighbour.place_extent h dnn 2 volume
        (probes.of_nn volume position ((i + 1) % 2 ^ 64)))

-- `placeExtent`, on fuel for its loop or for that of the distributor. The loop that collects disks
-- with different ids is the one of the nearest neighbours.
unfoldable pub place_extent : Hashes → Probes → Share → ℕ → ℕ → ℕ → Placing
unfolding probe_disk distributor_of NearestNeighbour.place_extent NearestNeighbour.place_from
place_extent h probes this fuel volume position =
    if this.copies_by_nn
    then elim (distributor_of this (probes.of_share volume position 0)) [
      | none ↦ faulted
      | some dnn ↦ NearestNeighbour.place_extent h dnn fuel volume position
    ]
    else NearestNeighbour.place_from (probe_disk h probes this volume position) this.copies fuel 0
        []
