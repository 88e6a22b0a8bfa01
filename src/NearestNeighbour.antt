-- ===== src/NearestNeighbour.antt =====
-- Nearest-neighbour placement: the class `DistNearestNeighbour` of
-- dadisi/DistNearestNeighbour.cpp.
--
-- Each disk has many keys on the ring of 64-bit values, and a copy goes to the disk of the closest
-- key below its hash. Numbers of 32 and 64 bits are patterns. A read of a null pointer is
-- `faulted`.
pub mod Keys
pub mod Distinct
pub mod Endless
use data_distribution_simula.Base.{
  ℕ, zero, suc, ◌+◌, ◌-◌, ◌*◌, ◌/◌, ◌%◌, ◌^◌, Bool, true, false, not, Option, none, some, List, [],
  ◌∷◌, ◌++◌, ltb, ◌==◌, ◌&&◌, ◌||◌, length, if◌then◌else◌, map,
}
use data_distribution_simula.Dictionary.{lookup, assign}
use data_distribution_simula.Disk.{Disk, copy}
use data_distribution_simula.ImprovedMap
use data_distribution_simula.ImprovedMap.{ImprovedMap, set_insert}
use data_distribution_simula.Word.{sub64}

pub record NearestNeighbour : Type 0 where
  pub extent_size : ℕ
  pub copies : ℕ
  pub cut_factor : ℕ
  pub static_nn_copies : Bool
  pub nn_copies : ℕ
  pub nn_copies_factor : ℕ
  pub disk_distribution : List (ℕ × Disk)
  -- null until `setDisks`
  pub disks : Option (List Disk)
  pub keys : List ℕ
  pub key_finder : Option ImprovedMap

-- What the class calls and does not implement: the hash of the text of a disk's key and of a copy,
-- and the C library's logarithm.
pub record Hashes : Type 0 where
  pub of_disk : ℕ → ℕ → ℕ
  pub of_copy : ℕ → ℕ → ℕ → ℕ
  pub ceil_log2 : ℕ → ℕ

-- How often a disk is entered: `setDisks`, for one disk. The cut factor is unsigned, so the capacity
-- is taken as unsigned too.
unfoldable pub multiplicity_of : ℕ → Disk → ℕ
multiplicity_of cut_factor d =
    if cut_factor == 0
    then 1
    else if d.capacity % cut_factor == 0
    then d.capacity / cut_factor % 2 ^ 32
    else (d.capacity / cut_factor % 2 ^ 32 + 1) % 2 ^ 32

unfoldable pub multiplicities : ℕ → List Disk → List (ℕ × ℕ) → List (ℕ × ℕ)
unfolding multiplicity_of assign
multiplicities cut_factor [] multiplicity = multiplicity
multiplicities cut_factor (d ∷ ds) multiplicity =
    multiplicities cut_factor ds (assign d.id (multiplicity_of cut_factor d) multiplicity)

-- `getNNCopies`
unfoldable pub get_nn_copies : (ℕ → ℕ) → NearestNeighbour → List Disk → ℕ
get_nn_copies ceil_log2 s ds =
    if s.static_nn_copies
    then s.nn_copies
    else if ltb (length ds) 2
    then 1
    else s.nn_copies_factor * ceil_log2 (length ds) % 2 ^ 32

-- A signed pattern of 32 bits as the bound of a loop that counts from 0.
unfoldable pub rounds : ℕ → ℕ
rounds c = if ltb c (2 ^ 31) then c else 0

-- A key that is taken already stays with its disk.
unfoldable pub insert_new : ℕ → Disk → List (ℕ × Disk) → List (ℕ × Disk)
unfolding lookup assign
insert_new value d table = elim (lookup value table) [
  | none ↦ assign value d table
  | some other ↦ table
]

-- The loop over the keys of one disk, with `n` left, from `i` on.
unfoldable pub enter : (ℕ → ℕ → ℕ) → ℕ → ℕ → Disk → List (ℕ × Disk) → List (ℕ × Disk)
unfolding insert_new
enter of_disk zero i d table = table
enter of_disk (suc n) i d table = enter of_disk n (i + 1) d (insert_new (of_disk d.id i) d table)

-- `(*multiplicity)[id]`: 0 where there is no entry.
unfoldable pub times : ℕ → List (ℕ × ℕ) → ℕ
unfolding lookup
times id multiplicity = elim (lookup id multiplicity) [ none ↦ 0 | some m ↦ m ]

-- The loop over the disks of `setDisksMulti`: the disks kept, and the table.
unfoldable pub enter_all :
    (ℕ → ℕ → ℕ)
    → ℕ
    → List (ℕ × ℕ)
    → List Disk
    → List Disk
    → List (ℕ × Disk)
    → List Disk × List (ℕ × Disk)
unfolding times rounds enter
enter_all of_disk nn_copies multiplicity [] kept table = (kept, table)
enter_all of_disk nn_copies multiplicity (d ∷ ds) kept table =
    let m = times d.id multiplicity in
    let chosen = ltb 0 m && ltb m (2 ^ 31) in
    enter_all of_disk nn_copies multiplicity ds (if chosen then kept ++ (copy d ∷ []) else kept)
      (if chosen then enter of_disk (rounds (nn_copies * m % 2 ^ 32)) 0 (copy d) table else table)

-- The set of the keys of the table.
unfoldable pub key_set : List (ℕ × Disk) → List ℕ → List ℕ
unfolding set_insert
key_set [] keys = keys
key_set (e ∷ es) keys = key_set es (set_insert e.0 keys)

-- `(uint64_t) nnCopies`, of a signed pattern of 32 bits
unfoldable pub widen : ℕ → ℕ
widen c = if ltb c (2 ^ 31) then c else c + (2 ^ 64 - 2 ^ 32)

-- `setDisksMulti`. Without a key the constructor of the map reads through `end()`.
unfoldable pub set_disks_multi :
    Hashes → NearestNeighbour → List Disk → List (ℕ × ℕ) → Option NearestNeighbour
unfolding get_nn_copies enter_all key_set widen
set_disks_multi h s ds multiplicity =
    let nn_copies = get_nn_copies h.ceil_log2 s ds in
    let entered = enter_all h.of_disk nn_copies multiplicity ds [] [] in
    let keys = key_set entered.1 [] in
    elim (ImprovedMap.new h.ceil_log2 (widen nn_copies) keys) [
      | none ↦ none
      | some finder ↦ some (record s {
        nn_copies = nn_copies;
        disks = some entered.0;
        disk_distribution = entered.1;
        keys = set_insert 0 keys;
        key_finder = some finder;
      })
    ]

-- `setDisks`
unfoldable pub set_disks : Hashes → NearestNeighbour → List Disk → Option NearestNeighbour
unfolding multiplicities set_disks_multi
set_disks h s ds = set_disks_multi h s ds (multiplicities s.cut_factor ds [])

-- `setConfiguration`
unfoldable pub set_configuration :
    Hashes → NearestNeighbour → List Disk → ℕ → ℕ → Option NearestNeighbour
unfolding set_disks
set_configuration h s ds extent_size copies =
    set_disks h (record s { extent_size = extent_size; copies = copies }) ds

-- `getDisks`
unfoldable pub get_disks : NearestNeighbour → Option (List Disk)
get_disks s = elim s.disks [ none ↦ none | some ds ↦ some (map (λ d. copy d) ds) ]

-- `unfinished` is the fuel's end, not an outcome of the code.
pub data Placing : Type 0 where
  placed : List Disk → Placing
  faulted : Placing
  unfinished : Placing

-- Whether a disk with the id is in the result already.
unfoldable pub holds : ℕ → List Disk → Bool
holds id [] = false
holds id (d ∷ ds) = (id == d.id) || holds id ds

-- The disk of a hash: the one of the closest key.
unfoldable pub nearest : NearestNeighbour → ℕ → Option Disk
unfolding lookup
nearest s pos = elim s.key_finder [
  | none ↦ none
  | some finder ↦ elim (ImprovedMap.find_closest finder pos) [
    | none ↦ none
    | some key ↦ lookup key s.disk_distribution
  ]
]

-- The loop of `placeExtent`, given the disk of each probe.
unfoldable pub place_from : (ℕ → Option Disk) → ℕ → ℕ → ℕ → List Disk → Placing
unfolding holds
place_from probe copies zero i result = unfinished
place_from probe copies (suc fuel) i result = elim (ltb (length result) copies) [
  | false ↦ placed result
  | true ↦ elim (probe i) [
    | none ↦ faulted
    | some d ↦
        place_from probe copies fuel ((i + 1) % 2 ^ 64)
          (if holds d.id result then result else result ++ (copy d ∷ []))
  ]
]

-- `placeExtent`, for at most as many rounds as the fuel.
unfoldable pub place_extent : Hashes → NearestNeighbour → ℕ → ℕ → ℕ → Placing
unfolding nearest place_from
place_extent h s fuel volume position =
    place_from (λ i. nearest s (h.of_copy volume position i)) s.copies fuel 0 []
