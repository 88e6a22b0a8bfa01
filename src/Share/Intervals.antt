-- ===== src/Share/Intervals.antt =====
-- The intervals of the disks on the ring: the class `ShareDisk` of dadisi/ShareDisk.h, and the loops
-- of `setDisks` of dadisi/DistShare.cpp that lay them out and test them.
--
-- A number of the big-number library is a natural number, since none is negative here; its product
-- with a stretch factor and its decimal text are parameters. A division by 0 and a thrown exception
-- are `none`.
use data_distribution_simula.Base.{
  ℕ, zero, suc, Bool, true, false, Option, none, some, List, [], length, ltb, ◌+◌, ◌-◌, ◌*◌, ◌/◌,
  ◌%◌, ◌^◌, ◌&&◌, ◌||◌, ◌∷◌, ◌++◌, ◌==◌, ◌>>=◌, if◌then◌else◌, not,
}
use data_distribution_simula.Disk.{Disk}
use data_distribution_simula.Dictionary.{assign}
use data_distribution_simula.Helper.{returned, read_int64, create_mpz}
use data_distribution_simula.ImprovedMap.{set_insert}
use data_distribution_simula.NearestNeighbour.{times}
use data_distribution_simula.Word.{sub64}

-- `ShareDisk`. The rounds are a pattern of 32 bits.
pub record ShareDisk : Type 0 where
  pub id : ℕ
  pub start : ℕ
  pub end : ℕ
  pub rounds : ℕ
  pub copy : ℕ

-- A signed pattern of 32 bits is greater than 0.
abbrev pub is_positive : ℕ → Bool
is_positive n = ltb 0 n && ltb n (2 ^ 31)

-- `coversPoint`
unfoldable pub covers_point : ShareDisk → ℕ → Bool
covers_point sd point =
    if is_positive sd.rounds
    then true
    else if ltb sd.start sd.end
    then ltb sd.start point && ltb point sd.end
    else ltb point sd.end || ltb sd.start point

-- `countCoversPoint`
unfoldable pub count_covers_point : ShareDisk → ℕ → ℕ
count_covers_point sd point =
    if ltb sd.start sd.end
    then if ltb sd.start point && ltb point sd.end then (sd.rounds + 1) % 2 ^ 32 else sd.rounds
    else if ltb point sd.end
    then (sd.rounds + 1) % 2 ^ 32
    else if ltb sd.start point
    then (sd.rounds + 1) % 2 ^ 32
    else sd.rounds

-- What the loops use of other code: the hash of a disk and a number, the product of a big number and
-- a number in double precision, and the decimal text of a big number.
pub record Outside (R : Type 0) : Type 0 where
  pub of_disk : ℕ → ℕ → ℕ
  pub scale : ℕ → R → ℕ
  pub text : ℕ → List ℕ

abbrev pub max_int64 : ℕ
max_int64 = 2 ^ 64 - 1

-- The end of an interval that starts at `start`: a great number is read from its text.
unfoldable pub interval_end : (ℕ → List ℕ) → ℕ → ℕ → Option ℕ
unfolding read_int64 create_mpz
interval_end text length start =
    let tmp = (length + create_mpz start) % create_mpz max_int64 in
    if ltb (2 ^ 32 - 1) tmp
    then elim (read_int64 0 0 (text tmp) 10) [ returned n ↦ some n | _ ↦ none ]
    else some tmp

-- `rounds`, which the conversion cuts to 32 bits
unfoldable pub interval_rounds : ℕ → ℕ
unfolding create_mpz
interval_rounds length =
    if ltb (create_mpz max_int64) length then length / create_mpz max_int64 % 2 ^ 32 else 0

module _ {R : Type 0} (outside : Outside R) where
  -- `length` of a disk, unless the system has no capacity
  unfoldable pub interval_length : ℕ → R → Disk → Option ℕ
  unfolding create_mpz
  interval_length system_capacity stretch_factor d =
      if create_mpz system_capacity == 0
      then none
      else some (
          outside.scale (create_mpz d.capacity * create_mpz max_int64) stretch_factor
          / create_mpz system_capacity)

  -- The loop over the copies of an interval, with `n` left, from `i` on: the borders and the disks.
  unfoldable pub lay_copies :
      ℕ → Disk → ℕ → ℕ → List ℕ × List ShareDisk → Option (List ℕ × List ShareDisk)
  unfolding interval_end interval_rounds set_insert
  lay_copies length d zero i laid = some laid
  lay_copies length d (suc n) i (borders, s_disks) =
      interval_end outside.text length (outside.of_disk d.id i) >>= λ end.
      lay_copies length d n (i + 1) (
        set_insert end (set_insert (outside.of_disk d.id i) borders),
        s_disks
            ++ (record {
              id = d.id;
              start = outside.of_disk d.id i;
              end = end;
              rounds = interval_rounds length;
              copy = i;
            }
                ∷ []),
      )

  -- The loop over the disks.
  unfoldable pub lay_disks :
      ℕ → ℕ → R → List Disk → List ℕ × List ShareDisk → Option (List ℕ × List ShareDisk)
  unfolding interval_length lay_copies
  lay_disks copies system_capacity stretch_factor [] laid = some laid
  lay_disks copies system_capacity stretch_factor (d ∷ ds) laid =
      interval_length system_capacity stretch_factor d >>= λ length.
      lay_copies length d copies 0 laid >>= lay_disks copies system_capacity stretch_factor ds

-- Whether a disk covers the point.
unfoldable pub is_filled : List ShareDisk → ℕ → Bool
unfolding count_covers_point
is_filled [] p = false
is_filled (sd ∷ sds) p = is_positive (count_covers_point sd p) || is_filled sds p

-- The ids of disks that cover the point, at most as many as there are copies.
unfoldable pub covering_ids : ℕ → List ShareDisk → ℕ → List ℕ → List ℕ
unfolding count_covers_point set_insert
covering_ids copies [] p ids = ids
covering_ids copies (sd ∷ sds) p ids =
    if ltb (length ids) copies
    then covering_ids copies sds p
        (if is_positive (count_covers_point sd p) then set_insert sd.id ids else ids)
    else ids

-- `allFilled`: the test of the point before each border.
unfoldable pub all_filled : Bool → ℕ → List ShareDisk → List ℕ → Bool
unfolding is_filled covering_ids
all_filled copies_by_nn copies s_disks [] = true
all_filled copies_by_nn copies s_disks (b ∷ borders) =
    let p = sub64 b 1 in
    (if copies_by_nn
      then not (ltb (length (covering_ids copies s_disks p [])) copies)
      else is_filled s_disks p)
    && all_filled copies_by_nn copies s_disks borders

-- How often the disks cover a point: `multi`, for a distributor.
unfoldable pub multiplicity : List ShareDisk → ℕ → List (ℕ × ℕ) → List (ℕ × ℕ)
unfolding count_covers_point times assign
multiplicity [] p multi = multi
multiplicity (sd ∷ sds) p multi =
    multiplicity sds p (assign sd.id ((times sd.id multi + count_covers_point sd p) % 2 ^ 32) multi)
