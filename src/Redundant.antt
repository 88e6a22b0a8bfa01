-- ===== src/Redundant.antt =====
-- The redundant share: the class `DistRedundantShare` of dadisi/DistRedundantShare.cpp.
--
-- The fractions of GMP are a parameter. A value that `new` leaves unset, a read outside an array, a
-- division by 0 and a thrown exception are `none`. The numbers of copies and of disks are below
-- 2 ^ 31, and the file of debugging output is left out.
pub mod Disks
pub mod Correction
pub mod Order
pub mod Align
pub mod Kept
pub mod Caches
pub mod Placement
pub mod Extent
pub mod Failing
use data_distribution_simula.Base.{
  ℕ, zero, suc, Bool, Option, none, some, List, [], map, length, get_elem?, set, replicate, ltb,
  ◌+◌, ◌-◌, ◌^◌, ◌∷◌, ◌==◌, ◌>>=◌, if◌then◌else◌, drop,
}
use data_distribution_simula.Disk.{Disk, copy}
use data_distribution_simula.Helper.{Reading, read_uint64, create_mpz, returned}
use data_distribution_simula.Rational.{Rational}
use data_distribution_simula.Redundant.Disks.{RsDisk, insert_all, align_disks}
use data_distribution_simula.Redundant.Correction.{c_star}

pub record RedundantShare (Q : Type 0) : Type 0 where
  pub copies : ℕ
  pub extent_size : ℕ
  pub capacity : ℕ
  pub revert_id_order : Bool
  pub disks : List (RsDisk Q)
  pub hash_values : List (List ℕ)
  pub error_values : List (Option ℕ)
  pub error_disks : List (Option ℕ)

-- The constructor, which takes `-decID` as its only option.
abbrev pub new : {Q : Type 0} → Bool → RedundantShare Q
new revert = record {
  copies = 0;
  extent_size = 1;
  capacity = 0;
  revert_id_order = revert;
  disks = [];
  hash_values = [];
  error_values = [];
  error_disks = [];
}

-- `std::numeric_limits<uint64_t>::max()`
abbrev pub max_unit64 : ℕ
max_unit64 = 2 ^ 64 - 1

-- `read_uint64_t` of a big number, given its decimal text.
unfoldable pub read_number : List ℕ → Option ℕ
unfolding read_uint64
read_number text = elim (read_uint64 0 0 text 10) [ returned n ↦ some n | _ ↦ none ]

module _ {Q : Type 0} (rat : Rational Q) where
  -- The loop of `setDisks` over the disks, from index `i` on: how many copies are left after each
  -- disk whose share reaches one, and which disk exceeds it. An `errors` of -1 is `none`.
  unfoldable pub find_errors :
      ℕ → ℕ → List (RsDisk Q) → List (Option ℕ) → List (RsDisk Q) × List (Option ℕ)
  find_errors l i [] errors = ([], errors)
  find_errors l i (d ∷ ds) errors =
      let result = rat.mul d.check_c (rat.of_integer l) in
      let exact = find_errors (l - 1) (i + 1) ds (set errors (l - 1) none) in
      let beyond = find_errors (l - 1) (i + 1) ds (set errors (l - 1) (some i)) in
      let below = find_errors l (i + 1) ds errors in
      if rat.eq result (rat.of_integer 1)
      then (d ∷ exact.0, exact.1)
      else if rat.lt (rat.of_integer 1) result
      then ((record d { k_error = some (l - 1) }) ∷ beyond.0, beyond.1)
      else (d ∷ below.0, below.1)

  -- `checkNew`, for the disk `e` and the copy `i + 1`.
  unfoldable pub check_new : ℕ → ℕ → ℕ → List (RsDisk Q) → Option Q
  unfolding c_star create_mpz
  check_new copies i e disks = do
    c_new ← c_star rat disks copies e (i + 1)
    cap ←
        (if ltb (e + 1) (length disks)
          then (get_elem? disks (e + 1) >>= λ next.
              some (rat.add c_new (rat.of_integer (create_mpz next.c_position))))
          else some c_new)
    rat.div c_new cap

  -- The body of the loop that corrects the share of the disk `e`, for the copy `i + 1`.
  unfoldable pub correct_disk : ℕ → ℕ → ℕ → List (RsDisk Q) → Option (List (RsDisk Q))
  unfolding check_new
  correct_disk copies i e disks = check_new copies i e disks >>= λ check. get_elem? disks e >>= λ d.
      some (set disks e (record d { check_c_star = rat.mul check (rat.of_integer i) }))

  -- That loop, over the entries of `errors` from `i` on.
  unfoldable pub correct_disks :
      ℕ → ℕ → List (Option ℕ) → List (RsDisk Q) → Option (List (RsDisk Q))
  unfolding correct_disk
  correct_disks copies i [] disks = some disks
  correct_disks copies i (none ∷ errors) disks = correct_disks copies (i + 1) errors disks
  correct_disks copies i (some e ∷ errors) disks =
      correct_disk copies i e disks >>= correct_disks copies (i + 1) errors

  -- A value of the first cache of `initValueCaches`, for `base` and `copy`.
  unfoldable pub hash_value : Q → ℕ → Option ℕ
  unfolding read_number
  hash_value base copy =
      let value = rat.mul base (rat.of_integer (copy + 1)) in
      if rat.reaches value max_unit64 then some max_unit64 else read_number (rat.text value)

  -- The loop over the copies, with `n` left.
  unfoldable pub hash_row : Q → ℕ → ℕ → Option (List ℕ)
  unfolding hash_value
  hash_row base zero copy = some []
  hash_row base (suc n) copy = do
    v ← hash_value base copy
    rest ← hash_row base n (copy + 1)
    some (v ∷ rest)

  -- The loop of `initValueCaches` over the disks: the rows of `hashValues`.
  unfoldable pub hash_rows : ℕ → List (RsDisk Q) → Option (List (List ℕ))
  unfolding hash_row create_mpz
  hash_rows copies [] = some []
  hash_rows copies (d ∷ ds) = do
    row ← hash_row (rat.mul d.check_c (rat.of_integer (create_mpz max_unit64))) copies 0
    rest ← hash_rows copies ds
    some (row ∷ rest)

  -- The value of `errorValues` for a disk.
  unfoldable pub error_value : RsDisk Q → Option ℕ
  unfolding read_number create_mpz
  error_value d =
      read_number (rat.text (rat.mul d.check_c_star (rat.of_integer (create_mpz max_unit64))))

  -- The same loop: `errorValues` and `errorDisks`.
  unfoldable pub fill_errors :
      ℕ
      → List (RsDisk Q)
      → List (Option ℕ)
      → List (Option ℕ)
      → Option (List (Option ℕ) × List (Option ℕ))
  unfolding error_value
  fill_errors i [] values disks = some (values, disks)
  fill_errors i (d ∷ ds) values disks = elim d.k_error [
    | none ↦ fill_errors (i + 1) ds values disks
    | some zero ↦ fill_errors (i + 1) ds values disks
    | some (suc k) ↦ error_value d >>= λ v.
        fill_errors (i + 1) ds (set values k (some v)) (set disks (suc k) (some i))
  ]

  -- `initValueCaches`
  unfoldable pub init_value_caches : RedundantShare Q → Option (RedundantShare Q)
  unfolding hash_rows fill_errors
  init_value_caches this = hash_rows this.copies this.disks >>= λ rows.
      fill_errors 0 this.disks (replicate this.copies none) (replicate this.copies none)
      >>= λ errors.
          some (record this { hash_values = rows; error_values = errors.0; error_disks = errors.1 })

  -- `setDisks` of a list that is not null
  unfoldable pub set_disks : RedundantShare Q → List Disk → Option (RedundantShare Q)
  unfolding insert_all align_disks find_errors correct_disks init_value_caches
  set_disks this new_disks =
      if ltb (length new_disks) this.copies
      then some this
      else let rs_disks = insert_all rat this.revert_id_order new_disks [] in
        let aligned = align_disks rat this.copies (length rs_disks) rs_disks in
        let found = find_errors this.copies 0 aligned.0 (replicate this.copies none) in
        correct_disks this.copies 1 (drop 1 found.1) found.0 >>= λ disks.
        init_value_caches (record this { capacity = aligned.1; disks = disks })

  -- `setConfiguration`, which does not keep the size of the extents
  unfoldable pub set_configuration :
      RedundantShare Q → List Disk → ℕ → ℕ → Option (RedundantShare Q)
  unfolding set_disks
  set_configuration this disks extent_size copies =
      set_disks (record this { copies = copies }) disks

-- `getDisks`
unfoldable pub get_disks : {Q : Type 0} → RedundantShare Q → List Disk
get_disks this = map (λ d. copy d.disk) this.disks

-- `hashValues[i][to_place - 1]`, where `copy` is `to_place - 1`
abbrev pub value_at : List (List ℕ) → ℕ → ℕ → Option ℕ
value_at rows i copy = get_elem? rows i >>= λ row. get_elem? row copy

-- The value that the first disk of a search is tried with.
unfoldable pub first_value : {Q : Type 0} → RedundantShare Q → RsDisk Q → ℕ → ℕ → Option ℕ
first_value this d i copy = elim d.k_error [
  | none ↦ value_at this.hash_values i copy
  | some k ↦
      if k == suc copy
      then (get_elem? this.error_values copy >>= λ v. v)
      else value_at this.hash_values i copy
]

-- The inner loop of `placeExtent`, from the disk `i` with its value on, on fuel for the disks: the
-- index at which it ends. `dice` is the hash for the disk at an index.
unfoldable pub seek :
    {Q : Type 0} → RedundantShare Q → (ℕ → RsDisk Q → ℕ) → ℕ → ℕ → ℕ → RsDisk Q → ℕ → Option ℕ
seek this dice zero copy i d value = none
seek this dice (suc fuel) copy i d value =
    let rest = get_elem? this.disks (i + 1) >>= λ next.
    value_at this.hash_values (i + 1) copy >>= seek this dice fuel copy (i + 1) next in
    if ltb value (dice i d) then rest else some i

-- `placeCopy`, and the same lines in the loop of `placeExtent`, which differ in what they hash: the
-- index of a disk or its id. `copy` is one less than the argument of the source.
unfoldable pub place_copy : {Q : Type 0} → RedundantShare Q → (ℕ → RsDisk Q → ℕ) → ℕ → ℕ → Option ℕ
unfolding first_value seek
place_copy this dice copy first = do
  d ← get_elem? this.disks first
  value ← first_value this d first copy
  seek this dice (length this.disks) copy first d value

-- The loop of `placeExtent`, with `to_place` copies left and the disk `i` the next to be tried.
unfoldable pub place_from :
    {Q : Type 0} → RedundantShare Q → (ℕ → RsDisk Q → ℕ) → ℕ → ℕ → Option (List Disk)
unfolding place_copy
place_from this dice zero i = some []
place_from this dice (suc k) i = do
  index ← place_copy this dice k i
  d ← get_elem? this.disks index
  rest ← place_from this dice k (index + 1)
  some (copy d.disk ∷ rest)

-- `placeExtent`, given the hash of the text that is made of an id and a position
unfoldable pub place_extent :
    {Q : Type 0} → (ℕ → ℕ → ℕ) → RedundantShare Q → ℕ → ℕ → Option (List Disk)
unfolding place_from
place_extent hash this volume position =
    place_from this (λ i d. hash d.disk.id position) this.copies 0
