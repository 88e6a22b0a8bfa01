-- ===== src/Redundant/Disks.antt =====
-- The disks of the redundant share: the class `RSDisk` of dadisi/RSDisk.h, their order, and
-- `alignDisks` of dadisi/DistRedundantShare.cpp.
use data_distribution_simula.Base.{
  ℕ, Bool, Option, none, List, [], length, ltb, ◌+◌, ◌-◌, ◌/◌, ◌%◌, ◌^◌, ◌||◌, ◌∷◌, ◌==◌,
  if◌then◌else◌, true, false, set,
}
use data_distribution_simula.Word.{add64}
use data_distribution_simula.Disk.{Disk, copy}
use data_distribution_simula.Helper.{create_mpz}
use data_distribution_simula.Rational.{Rational}

-- `RSDisk`. A `kError` of -1 is `none`. The text of the id and the values in double precision, which
-- are only printed and saved, are left out.
pub record RsDisk (Q : Type 0) : Type 0 where
  pub disk : Disk
  pub aligned_capacity : ℕ
  pub c_position : ℕ
  pub check_c : Q
  pub check_c_star : Q
  pub k_error : Option ℕ

-- The constructor from a disk.
abbrev pub new : {Q : Type 0} → Rational Q → Disk → RsDisk Q
new rat d = record {
  disk = copy d;
  aligned_capacity = d.capacity;
  c_position = 0;
  check_c = rat.of_integer 0;
  check_c_star = rat.of_integer 0;
  k_error = none;
}

-- `a < b` of two signed numbers.
abbrev pub slt64 : ℕ → ℕ → Bool
slt64 a b = ltb ((a + 2 ^ 63) % 2 ^ 64) ((b + 2 ^ 63) % 2 ^ 64)

-- `rsDiskCompare`, or `rsDiskCompareRevertID` if the order of the ids is reverted: a disk of greater
-- capacity comes first.
unfoldable pub rs_disk_compare : {Q : Type 0} → Bool → RsDisk Q → RsDisk Q → Bool
rs_disk_compare revert ld rd =
    if slt64 rd.disk.capacity ld.disk.capacity
    then true
    else if slt64 ld.disk.capacity rd.disk.capacity
    then false
    else if revert
    then slt64 rd.disk.id ld.disk.id
    else slt64 ld.disk.id rd.disk.id

-- `insert` of the set, which keeps the order and drops a disk that neither precedes nor follows one
-- that is there.
unfoldable pub insert_disk : {Q : Type 0} → Bool → RsDisk Q → List (RsDisk Q) → List (RsDisk Q)
unfolding rs_disk_compare
insert_disk revert d [] = d ∷ []
insert_disk revert d (e ∷ es) =
    let rest = insert_disk revert d es in
    if rs_disk_compare revert d e
    then d ∷ e ∷ es
    else if rs_disk_compare revert e d
    then e ∷ rest
    else e ∷ es

-- The loop of `setDisks` that fills the set.
unfoldable pub insert_all :
    {Q : Type 0} → Rational Q → Bool → List Disk → List (RsDisk Q) → List (RsDisk Q)
unfolding insert_disk
insert_all rat revert [] set = set
insert_all rat revert (d ∷ ds) set = insert_all rat revert ds (insert_disk revert (new rat d) set)

-- The capacity that `alignDisks` gives to a disk: `i` is its counter, or 0 where that is negative,
-- and `total` what the smaller disks have.
abbrev pub aligned : ℕ → ℕ → ℕ → ℕ
aligned i capacity total =
    if i == 0 || ltb (capacity % 2 ^ 32) (total / i) then capacity else total / i

-- `alignDisks`, which goes through the set from its last disk to its first: the disks and the sum of
-- their capacities. `all` is the number of all disks, so the counter is `copies - all` at the last.
unfoldable pub align_disks :
    {Q : Type 0} → Rational Q → ℕ → ℕ → List (RsDisk Q) → List (RsDisk Q) × ℕ
unfolding create_mpz
align_disks rat copies all [] = ([], 0)
align_disks rat copies all (d ∷ ds) =
    let rest = align_disks rat copies all ds in
    let given = aligned (copies + length ds - all) d.disk.capacity rest.1 in
    let total = add64 rest.1 given in
    (
      (record d {
        aligned_capacity = given;
        c_position = total;
        check_c = rat.create (create_mpz given) (create_mpz total);
      })
          ∷ rest.0,
      total,
    )
