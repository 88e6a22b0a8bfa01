-- ===== src/RoundRobin.antt =====
-- Round-robin placement: the class `DistRoundRobin` of dadisi/DistRoundRobin.cpp.
--
-- Positions, volumes and ids are 64-bit patterns, so that signed sums wrap as the compiled code
-- does; the number of copies is not negative. A read through a null pointer or `end()`, and the
-- division by a count of 0, are `none`.
pub mod Striped
pub mod Ring
pub mod Walk
pub mod Layout
use data_distribution_simula.Base.{
  ℕ, zero, suc, ◌+◌, ◌-◌, ◌*◌, ◌/◌, ◌%◌, Bool, Option, none, some, List, [], ◌∷◌, length, ◌==◌,
  if◌then◌else◌, map,
}
use data_distribution_simula.Dictionary.{lookup, assign}
use data_distribution_simula.Disk.{Disk, copy}
use data_distribution_simula.ImprovedMap
use data_distribution_simula.ImprovedMap.{ImprovedMap, word, set_insert}

pub record RoundRobin : Type 0 where
  pub extent_size : ℕ
  pub copies : ℕ
  pub use_hash : Bool
  pub use_im : Bool
  pub ring : Option ImprovedMap
  pub disks : List (ℕ × Disk)
  pub num_disks : ℕ

-- The loop of `setDisks`: the table of disks and the set of positions, from `id` on.
unfoldable pub spread :
    Bool → ℕ → ℕ → List Disk → List (ℕ × Disk) → List ℕ → List (ℕ × Disk) × List ℕ
unfolding assign set_insert
spread use_im distance id [] table positions = (table, positions)
spread use_im distance id (d ∷ ds) table positions =
    spread use_im distance (if use_im then (id + distance) % word else (id + 1) % word) ds
      (assign id (copy d) table) (if use_im then set_insert id positions else positions)

-- `distance` and the first `id`, and the loop.
unfoldable pub laid_out : Bool → List Disk → List (ℕ × Disk) × List ℕ
unfolding spread
laid_out use_im ds =
    let distance = (word - 1) / length ds in
    spread use_im distance (if use_im then distance / 2 else 0) ds [] []

-- A list of results, if there is one at every place.
unfoldable pub cons? : Disk → Option (List Disk) → Option (List Disk)
cons? d none = none
cons? d (some ds) = some (d ∷ ds)

-- `disks->find(key)`: the entries from the iterator on.
unfoldable pub find : ℕ → List (ℕ × Disk) → List (ℕ × Disk)
find key [] = []
find key (e ∷ es) = if e.0 == key then e ∷ es else find key es

-- `it++`, and back to `begin()` from `end()`.
unfoldable pub advance : List (ℕ × Disk) → List (ℕ × Disk) → List (ℕ × Disk)
advance [] all = all
advance (e ∷ es) all = e ∷ es

-- The loop of `placeExtent` over the iterator, with `n` copies left to place.
unfoldable pub walk : ℕ → List (ℕ × Disk) → List (ℕ × Disk) → Option (List Disk)
unfolding cons? advance
walk zero it all = some []
walk (suc n) [] all = none
walk (suc n) (e ∷ es) all = cons? (copy e.1) (walk n (advance es all) all)

-- The loop of `placeExtent` over the numbers of the disks, with `n` copies left and `i` placed.
unfoldable pub stripe : ℕ → ℕ → ℕ → ℕ → List (ℕ × Disk) → Option (List Disk)
unfolding cons? lookup
stripe zero i first num_disks table = some []
stripe (suc n) i first num_disks table =
    let rest = stripe n (i + 1) first num_disks table in
    elim (lookup ((first + i) % word % num_disks) table) [
      | none ↦ none
      | some d ↦ cons? (copy d) rest
    ]

-- The disk that the ring gives for a position, and those after it.
unfoldable pub place_ring : RoundRobin → ℕ → Option (List Disk)
unfolding find walk
place_ring s position = elim s.ring [
  | none ↦ none
  | some m ↦ elim (ImprovedMap.find_closest m position) [
    | none ↦ none
    | some key ↦ walk s.copies (find key s.disks) s.disks
  ]
]

-- The disks from the number that the position gives.
unfoldable pub place_striped : RoundRobin → ℕ → ℕ → Option (List Disk)
unfolding stripe
place_striped s volume position =
    if s.num_disks == 0
    then none
    else stripe s.copies 0 ((position + volume) % word * s.copies % word % s.num_disks) s.num_disks
        s.disks

-- What the class calls and does not implement: the hash of a position (`Distributor` applied to
-- its decimal digits), the C library's logarithm, and the order in which the table is visited.
pub record Outside : Type 0 where
  pub hash_position : ℕ → ℕ
  pub ceil_log2 : ℕ → ℕ
  pub arrange : List (ℕ × Disk) → List (ℕ × Disk)

module _ (o : Outside) where
  -- `setDisks` on a list that is not empty.
  unfoldable pub filled : RoundRobin → List Disk → RoundRobin
  unfolding laid_out
  filled s ds =
      let placed = laid_out s.use_im ds in
      record s {
        disks = o.arrange placed.0;
        num_disks = length ds;
        ring = if s.use_im then ImprovedMap.new o.ceil_log2 (length placed.1) placed.1 else s.ring;
      }

  -- `setDisks`. The division by the number of disks faults where there is none.
  unfoldable pub set_disks : RoundRobin → List Disk → Option RoundRobin
  unfolding filled
  set_disks s [] = none
  set_disks s (d ∷ ds) = some (filled s (d ∷ ds))

  -- `setConfiguration`
  unfoldable pub set_configuration : RoundRobin → List Disk → ℕ → ℕ → Option RoundRobin
  unfolding set_disks
  set_configuration s ds extent_size copies =
      set_disks (record s { copies = copies; extent_size = extent_size }) ds

  -- `placeExtent`
  unfoldable pub place_extent : RoundRobin → ℕ → ℕ → Option (List Disk)
  unfolding place_ring place_striped
  place_extent s volume position =
      let at = if s.use_hash then o.hash_position position else position in
      if s.use_im then place_ring s at else place_striped s volume at

-- `getDisks`
unfoldable pub get_disks : RoundRobin → List Disk
get_disks s = map (λ e. copy e.1) s.disks
