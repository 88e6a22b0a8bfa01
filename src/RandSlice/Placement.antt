-- ===== src/RandSlice/Placement.antt =====
-- Placing an extent: `hash` and `placeExtent` of dadisi/DistRandSlice.cpp.
--
-- The interval tree is vendored code: a parameter gives the partition that `search_tree` finds for
-- a key, if it finds one. An `abort` and an `assert` that does not hold are `aborted`.
pub mod Laws
pub mod Distinct
use Prim.Native.Nat.{bit_xor}
use data_distribution_simula.Base.{
  ℕ, zero, suc, ◌+◌, ◌-◌, ◌/◌, ◌^◌, Bool, true, false, Option, none, some, List, [], ◌∷◌, ◌++◌, ltb,
  leb, ◌==◌, ◌&&◌, ◌||◌, length, if◌then◌else◌,
}
use data_distribution_simula.Dictionary.{lookup}
use data_distribution_simula.Disk.{Disk, copy}
use data_distribution_simula.Word.{add64, mul64, not64, shl64, sar64}

-- `hash`, on the bit pattern of the signed number.
unfoldable pub hash : ℕ → ℕ
hash i =
    let a = add64 (not64 i) (shl64 i 21) in
    let b = bit_xor a (sar64 a 24) in
    let c = add64 (add64 b (shl64 b 3)) (shl64 b 8) in
    let d = bit_xor c (sar64 c 14) in
    let e = add64 (add64 d (shl64 d 2)) (shl64 d 4) in
    let f = bit_xor e (sar64 e 28) in add64 f (shl64 f 31)

-- `offset`
abbrev pub offset : ℕ
offset = 200

-- `unfinished` is the fuel's end, not an outcome of the code.
pub data Placing : Type 0 where
  placed : List Disk → Placing
  aborted : Placing
  unfinished : Placing

-- Whether the partition has been selected already.
unfoldable pub found : ℕ → List ℕ → Bool
found partition_id [] = false
found partition_id (s ∷ selected) = (partition_id == s) || found partition_id selected

-- The partition of the probe `idx`: 0 where the tree finds none.
unfoldable pub partition_at : (ℕ → Option ℕ) → ℕ → ℕ → ℕ
unfolding hash
partition_at search_tree position idx = elim (search_tree (hash (add64 position idx))) [
  | none ↦ 0
  | some partition_id ↦ partition_id
]

-- The loop, given the partition of each probe.
unfoldable pub place_from : (ℕ → ℕ) → List (ℕ × Disk) → ℕ → ℕ → ℕ → List ℕ → List Disk → Placing
unfolding found lookup
place_from probe disks copies zero idx selected result = unfinished
place_from probe disks copies (suc fuel) idx selected result = elim (ltb (length result) copies) [
  | false ↦ placed result
  | true ↦ elim (found (probe idx) selected) [
    | true ↦ elim (leb (add64 idx 1) offset) [
      | false ↦ aborted
      | true ↦ place_from probe disks copies fuel (add64 idx 1) selected result
    ]
    | false ↦ elim (lookup (probe idx) disks) [
      | none ↦ aborted
      | some d ↦
          place_from probe disks copies fuel (add64 idx 1) (selected ++ (probe idx ∷ []))
            (result ++ (copy d ∷ []))
    ]
  ]
]

-- `position > INT64_MAX/offset-1`, for the pattern of a signed number
unfoldable pub too_far : ℕ → Bool
too_far position = ltb position (2 ^ 63) && ltb ((2 ^ 63 - 1) / offset - 1) position

-- `placeExtent`: at most `offset` probes meet a selected partition, and every other one adds a copy.
unfoldable pub place_extent : (ℕ → Option ℕ) → List (ℕ × Disk) → ℕ → ℕ → Placing
unfolding too_far partition_at place_from
place_extent search_tree disks copies position =
    if too_far position
    then aborted
    else place_from (partition_at search_tree (mul64 position offset)) disks copies
        (copies + offset + 2) 0 [] []
