-- ===== src/Tests.antt =====
-- Concrete runs: the data of the tests, and the theorems applied to them.
mod NearestNeighbour
mod RsCache
mod Doubles
mod Rushr
mod Rusht
mod Rationals
mod Redundant
mod Share
mod Helper
mod Hash
mod Partitions
use data_distribution_simula.Base.{
  ℕ, List, refl, inl, inr, true, Option, some, [], arith, ltb, Bool-cases, Has, ◌^◌, ◌≤◌, ◌≡◌, ◌∷◌,
  if◌then◌else◌, IsUnique, zero, suc, ap, Bool, false, none, leb, length, IsAscending, ◌+◌, ◌*◌,
  ◌/◌, ◌%◌,
}
use data_distribution_simula.Dictionary.{lookup, keys}
use data_distribution_simula.Disk.{Disk}
use data_distribution_simula.ImprovedMap
use data_distribution_simula.RoundRobin
use data_distribution_simula.RandSlice
use data_distribution_simula.ImprovedMap.Closest.{IsClosest, IsShift, find_closest-new}
use data_distribution_simula.RoundRobin.{Outside, RoundRobin, set_disks}
use data_distribution_simula.RoundRobin.Striped.{IsArrangement, Follows, place_extent-striped}
use data_distribution_simula.RoundRobin.Ring.{PlacesFrom, place_extent-PlacesFrom}
use data_distribution_simula.RandSlice.Collect.{
  Interval, Collected, collect_free_space, collect_free_space_even_odd,
}
use data_distribution_simula.RandSlice.Collect.Laws.{
  IsKnown, IsLeaves, owned, Collects, collect_free_space-Collects,
}
use data_distribution_simula.RandSlice.Collect.EvenOdd.{collect_free_space_even_odd-Collects}
use data_distribution_simula.RandSlice.Reuse.{Insertion, reuse_free_space, reuse_free_space_sort}
use data_distribution_simula.RandSlice.Reuse.Laws.{Reuses, reuse_free_space-Reuses}
use data_distribution_simula.RandSlice.Reuse.Sorted.{reuse_free_space_sort-Reuses}
use data_distribution_simula.RandSlice.Redistribute.{
  redistribute, Redistributes, redistribute-Redistributes,
}
use data_distribution_simula.RandSlice.Placement.{
  hash, placed, unfinished, partition_at, offset, too_far,
}
use data_distribution_simula.RandSlice.Placement.Laws.{fresh}
use data_distribution_simula.Word.{add64, mul64}
use data_distribution_simula.RandSlice.Placement.Distinct.{
  Selects, place_extent-Selects, place_extent-ends,
}

-- Partition 1 owns the blocks from 0 to 60 and from 100 to 120, partition 2 those between.
abbrev leaves : List (ℕ × ℕ)
leaves = (60, 2) ∷ (100, 1) ∷ (120, 0) ∷ []

abbrev old_partitions : List (ℕ × ℕ)
old_partitions = (1, 70) ∷ (2, 10) ∷ []

abbrev new_partitions : List (ℕ × ℕ)
new_partitions = (3, 50) ∷ (4, 30) ∷ []

leaves-IsLeaves : IsLeaves 0 leaves
leaves-IsLeaves = (omega arith, (omega arith, (omega arith, omega arith)))

leaves-IsKnown : IsKnown old_partitions 1 leaves
unfolding lookup
leaves-IsKnown = ((70, refl, omega arith), ((10, refl, omega arith), ((70, refl, omega arith), tt)))

old_partitions-IsUnique : IsUnique (keys old_partitions)
old_partitions-IsUnique =
    (λ h. elim h [ inl e ↦ absurd (omega (arith, e)) | inr n ↦ n ], (λ h. h, tt))

old_partitions-owned : (q n : ℕ) → lookup q old_partitions ≡ some n → n ≤ owned q 0 1 leaves
unfolding lookup
old_partitions-owned q n h = ground arith

redistribute_example :
    (r : List Interval × List Insertion) × (redistribute true true
        ((0, 1) ∷ leaves)
        old_partitions
        new_partitions
      ≡ some r)
    × Redistributes new_partitions r
redistribute_example =
    redistribute-Redistributes true true 0 1 leaves old_partitions new_partitions leaves-IsLeaves
      leaves-IsKnown old_partitions-IsUnique old_partitions-owned (omega arith, (omega arith, tt))
      refl

collect_free_space_example :
    (c : Collected) × (collect_free_space ((0, 1) ∷ leaves) old_partitions ≡ some c)
    × Collects 0 0 1 leaves (record { needed = old_partitions; free = [] }) c
collect_free_space_example =
    collect_free_space-Collects 0 1 leaves old_partitions leaves-IsLeaves leaves-IsKnown

collect_free_space_even_odd_example :
    (c : Collected) × (collect_free_space_even_odd ((0, 1) ∷ leaves) old_partitions ≡ some c)
    × Collects 0 0 1 leaves (record { needed = old_partitions; free = [] }) c
collect_free_space_even_odd_example =
    collect_free_space_even_odd-Collects 0 1 leaves old_partitions leaves-IsLeaves leaves-IsKnown

abbrev free_space : List Interval
free_space = (0, 20) ∷ (30, 30) ∷ (40, 100) ∷ []

reuse_free_space_example :
    Reuses free_space new_partitions (reuse_free_space free_space new_partitions)
reuse_free_space_example =
    reuse_free_space-Reuses free_space new_partitions
      ((omega arith, omega arith), ((omega arith, omega arith), ((omega arith, omega arith), tt)))
      (omega arith, (omega arith, tt)) (omega arith)

reuse_free_space_sort_example :
    Reuses free_space new_partitions (reuse_free_space_sort free_space new_partitions)
reuse_free_space_sort_example =
    reuse_free_space_sort-Reuses free_space new_partitions
      ((omega arith, omega arith), ((omega arith, omega arith), ((omega arith, omega arith), tt)))
      (omega arith, (omega arith, tt)) (omega arith)

-- The runs themselves.
reuse_free_space_run :
    reuse_free_space free_space new_partitions
    ≡ ((0, 0) ∷ (30, 30) ∷ (0, 0) ∷ [], (3, (0, 20)) ∷ (3, (40, 70)) ∷ (4, (70, 100)) ∷ [])
unfolding reuse_free_space
reuse_free_space_run = refl

-- Two disks, and a tree that gives the lower half of the keys to the one and the upper half to the
-- other.
abbrev disk : ℕ → Disk
disk i = record { id = i; capacity = 100; payload = 0 }

abbrev halves : ℕ → Option ℕ
halves key = some (if ltb key (2 ^ 63) then 1 else 2)

abbrev two_disks : List (ℕ × Disk)
two_disks = (1, disk 1) ∷ (2, disk 2) ∷ []

halves-known : (position i : ℕ) → Has (partition_at halves position i) (keys two_disks)
unfolding partition_at
halves-known position i = elim (Bool-cases (ltb (hash (add64 position i)) (2 ^ 63))) [
  | inl low ↦ inl (rw (low, partition_at) refl)
  | inr high ↦ inr (inl (rw (high, partition_at) refl))
]

halves-fresh : fresh (partition_at halves (mul64 7 offset)) 12 0 [] ≡ 2 ∷ 1 ∷ []
unfolding fresh partition_at hash
halves-fresh = refl

place_extent-Selects_example :
    (result : List Disk) × (RandSlice.Placement.place_extent halves two_disks 2 7 ≡ placed result)
    × Selects (partition_at halves (mul64 7 offset)) two_disks 2 12 result
unfolding too_far
place_extent-Selects_example =
    place_extent-Selects halves two_disks 2 7 12 refl (halves-known (mul64 7 offset)) (omega arith)
      (omega (arith, ap length halves-fresh))

place_extent-ends_example : ¬ (RandSlice.Placement.place_extent halves two_disks 3 7 ≡ unfinished)
place_extent-ends_example = place_extent-ends halves two_disks 3 7 (omega arith)

-- The logarithm of a number, rounded up, for numbers up to `2 ^ bits`.
unfoldable ceil_log2_to : ℕ → ℕ → ℕ
ceil_log2_to zero n = 0
ceil_log2_to (suc bits) n = if leb n 1 then 0 else suc (ceil_log2_to bits ((n + 1) / 2))

ceil_log2_to_le : (bits n : ℕ) → ceil_log2_to bits n ≤ bits
unfolding ceil_log2_to
ceil_log2_to_le zero n = omega arith
ceil_log2_to_le (suc bits) n = ground (arith, ceil_log2_to_le bits ((n + 1) / 2))

ceil_log2-IsShift : IsShift (ceil_log2_to 63)
unfolding ceil_log2_to
ceil_log2-IsShift n two large = (ground arith, ceil_log2_to_le 63 n)

abbrev positions : List ℕ
positions = 40 ∷ 2 ^ 62 ∷ 2 ^ 63 ∷ []

positions-IsAscending : IsAscending positions
positions-IsAscending = ((omega arith, (omega arith, tt)), ((omega arith, tt), (tt, tt)))

find_closest-new_example :
    (m : ImprovedMap.ImprovedMap) × (ImprovedMap.new (ceil_log2_to 63) 3 positions ≡ some m)
    × ((r : ℕ) × (ImprovedMap.find_closest m 7 ≡ some r) × IsClosest positions 7 r)
unfolding ImprovedMap.wanted_slices
find_closest-new_example =
    find_closest-new (ceil_log2_to 63) 3 40 (2 ^ 62 ∷ 2 ^ 63 ∷ []) 7 ceil_log2-IsShift
      positions-IsAscending (omega arith) (omega arith)

abbrev outside : Outside
outside = record {
  hash_position = λ p. p * 3 % 2 ^ 64;
  ceil_log2 = ceil_log2_to 63;
  arrange = λ table. table;
}

outside-IsArrangement : IsArrangement outside.arrange
outside-IsArrangement = record { reads = λ table k. refl; counted = λ table. refl }

abbrev three_disks : List Disk
three_disks = disk 10 ∷ disk 20 ∷ disk 30 ∷ []

abbrev round_robin : Bool → RoundRobin
round_robin use_im = record {
  extent_size = 1;
  copies = 2;
  use_hash = true;
  use_im = use_im;
  ring = none;
  disks = [];
  num_disks = 0;
}

place_extent-striped_example :
    (s : RoundRobin) × (set_disks outside (round_robin false) three_disks ≡ some s)
    × ((result : List Disk) × (RoundRobin.place_extent outside s 5 8 ≡ some result)
        × Follows outside (round_robin false) three_disks 5 8 result)
place_extent-striped_example =
    place_extent-striped outside (round_robin false) three_disks 5 8 outside-IsArrangement refl
      (omega arith) (omega arith) (omega arith)

place_extent-PlacesFrom_example :
    (s : RoundRobin) × (set_disks outside (round_robin true) three_disks ≡ some s)
    × ((result : List Disk) × (RoundRobin.place_extent outside s 5 8 ≡ some result)
        × PlacesFrom s (outside.hash_position 8) result)
place_extent-PlacesFrom_example =
    place_extent-PlacesFrom outside (round_robin true) (disk 10) (disk 20 ∷ disk 30 ∷ []) 5 8
      outside-IsArrangement ceil_log2-IsShift refl (omega arith) (omega arith) (omega arith)
      (λ p. omega arith)
