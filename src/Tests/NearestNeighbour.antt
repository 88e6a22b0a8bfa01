-- ===== src/Tests/NearestNeighbour.antt =====
-- Concrete runs of nearest-neighbour placement.
use data_distribution_simula.Base.{
  ℕ, refl, ap, inl, true, none, some, List, [], arith, ltb, length, Has, ◌+◌, ◌*◌, ◌%◌, ◌^◌, ◌<◌,
  ◌≡◌, ◌∷◌, if◌then◌else◌,
}
use data_distribution_simula.Tests.{disk, three_disks, ceil_log2_to, ceil_log2-IsShift}
use data_distribution_simula.ImprovedMap
use data_distribution_simula.Disk.{Disk}
use data_distribution_simula.Dictionary.{lookup}
use data_distribution_simula.NearestNeighbour.{
  Hashes, NearestNeighbour, set_disks_multi, nearest, place_extent, placed, unfinished, times,
  rounds, holds, get_nn_copies,
}
use data_distribution_simula.NearestNeighbour.Keys.{Answers, HasKeys, set_disks_multi-Answers}
use data_distribution_simula.NearestNeighbour.Distinct.{
  IsNearest, probe_of, fresh, place_extent-IsNearest,
}
use data_distribution_simula.NearestNeighbour.Endless.{place_extent-endless}

abbrev pub hashes : Hashes
hashes = record {
  of_disk = λ id i. (id * 2 ^ 58 + i * 2 ^ 56) % 2 ^ 64;
  of_copy = λ volume position i. (volume + position * 7 + i * 2 ^ 62) % 2 ^ 64;
  ceil_log2 = ceil_log2_to 63;
}

abbrev pub empty_state : ℕ → NearestNeighbour
empty_state copies = record {
  extent_size = 1;
  copies = copies;
  cut_factor = 0;
  static_nn_copies = true;
  nn_copies = 2;
  nn_copies_factor = 400;
  disk_distribution = [];
  disks = none;
  keys = [];
  key_finder = none;
}

abbrev once_each : List (ℕ × ℕ)
once_each = (10, 1) ∷ (20, 1) ∷ (30, 1) ∷ []

three_disks-HasKeys : HasKeys 2 once_each three_disks
unfolding times rounds lookup
three_disks-HasKeys = inl (omega arith, omega arith, omega arith)

set_disks_multi-Answers_example :
    (s : NearestNeighbour) × (set_disks_multi hashes (empty_state 2) three_disks once_each ≡ some s)
    × Answers s
unfolding get_nn_copies
set_disks_multi-Answers_example =
    set_disks_multi-Answers hashes (empty_state 2) three_disks once_each ceil_log2-IsShift
      (omega arith) (omega arith) three_disks-HasKeys

-- Disk 1 holds the lower half of the ring and disk 2 the upper one.
abbrev pub halved : ℕ → NearestNeighbour
halved copies = record (empty_state copies) {
  disk_distribution = (0, disk 1) ∷ (2 ^ 63, disk 2) ∷ [];
  disks = some (disk 1 ∷ disk 2 ∷ []);
  keys = 0 ∷ 2 ^ 63 ∷ [];
  key_finder =
      some (record { bit_shift = 64; slices = 1; keys = (0 ∷ 2 ^ 63 ∷ []) ∷ []; last_key = 0 });
}

abbrev pub half : ℕ → Disk
half pos = if ltb pos (2 ^ 63) then disk 1 else disk 2

pub halved-nearest : (copies pos : ℕ) → nearest (halved copies) pos ≡ some (half pos)
unfolding nearest ImprovedMap.find_closest ImprovedMap.closest_in ImprovedMap.at_or_before lookup
halved-nearest copies pos = ground arith

unfoldable pub halved-Answers : (copies : ℕ) → Answers (halved copies)
halved-Answers copies pos lt = (half pos, halved-nearest copies pos)

hashes-lt : (i : ℕ) → hashes.of_copy 5 8 i < 2 ^ 64
hashes-lt i = omega arith

halved-fresh :
    fresh (probe_of hashes (halved 2) 5 8 (halved-Answers 2) hashes-lt) 4 0 []
    ≡ disk 1 ∷ disk 2 ∷ []
unfolding fresh halved-Answers holds
halved-fresh = refl

place_extent-IsNearest_example :
    (result : List Disk) × (place_extent hashes (halved 2) 5 5 8 ≡ placed result)
    × IsNearest (probe_of hashes (halved 2) 5 8 (halved-Answers 2) hashes-lt) 2 4 result
place_extent-IsNearest_example =
    place_extent-IsNearest hashes (halved 2) 5 8 4 5 (halved-Answers 2) hashes-lt (omega arith)
      (omega arith) (omega (arith, ap length halved-fresh))

half-known : (pos : ℕ) → Has (half pos).id (1 ∷ 2 ∷ [])
half-known pos = ground arith

place_extent-endless_example : place_extent hashes (halved 3) 1000 5 8 ≡ unfinished
place_extent-endless_example =
    place_extent-endless hashes (halved 3) 5 8 1000 (1 ∷ 2 ∷ []) (λ i. half (hashes.of_copy 5 8 i))
      (λ i. halved-nearest 3 (hashes.of_copy 5 8 i)) (λ i. half-known (hashes.of_copy 5 8 i))
      (omega arith)
