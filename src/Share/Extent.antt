-- ===== src/Share/Extent.antt =====
-- From `setDisks` to `placeExtent` of dadisi/DistShare.cpp.
use data_distribution_simula.Base.{
  ℕ, zero, suc, refl, subst, inl, inr, true, List, [], map, Bool-cases, Option-cases, length, All,
  Has, IsAscending, All-map, ◌<◌, ◌≡◌, ◌∷◌, some, arith, set, length-map, ◌*◌, ◌^◌, ◌≤◌,
  if◌then◌else◌,
}
use data_distribution_simula.Disk.{Disk, copy}
use data_distribution_simula.Double.{Double}
use data_distribution_simula.ImprovedMap.{wanted_slices}
use data_distribution_simula.ImprovedMap.Closest.{IsShift, IsClosest}
use data_distribution_simula.NearestNeighbour.{NearestNeighbour, Hashes, get_nn_copies}
use data_distribution_simula.NearestNeighbour.Distinct.{ids}
use data_distribution_simula.NearestNeighbour.Keys.{Answers}
use data_distribution_simula.Share.{
  Share, laid, set_up, stretch, first_stretch_factor, system_capacity, set_disks, distributor_at,
  distributor_of, new_distributor,
}
use data_distribution_simula.Share.Intervals.{Outside, ShareDisk, lay_disks, all_filled}
use data_distribution_simula.Share.Cover.{cover_sum}
use data_distribution_simula.Share.Setup.{lay_disks-IsLaid}
use data_distribution_simula.Share.Distributors.{all_filled-is_filled, set_intervals-Answers}

abbrev pub copied : List Disk → List Disk
copied = map (λ d. copy d)

Has-self : (ds : List Disk) → All (λ d. Has d.id (ids ds)) ds
Has-self [] = tt
Has-self (d ∷ ds) = (
  inl refl,
  All-map (λ e. Has e.id (ids ds)) (λ e. Has e.id (ids (d ∷ ds))) ds (λ e h. inr h) (Has-self ds),
)

wanted-le : (n k : ℕ) (ks : List ℕ) → 0 < n → n ≤ 2 ^ 63 → wanted_slices n (k ∷ ks) ≤ 2 ^ 63
unfolding wanted_slices
wanted-le n k ks positive small = ground arith

module _ {R : Type 0} (dbl : Double R) (outside : Outside R) (this : Share) where
  -- The intervals that end the loop fill the ring, in the sense of its test.
  stretch-laid :
      (capacity : ℕ) (ds : List Disk) (fuel : ℕ) (factor : R) (borders : List ℕ)
      (sds : List ShareDisk)
      → 0 < length ds
      → 0 < this.share_copies
      → stretch dbl outside this capacity ds fuel factor ≡ laid borders sds
      → IsAscending borders
        × All (λ sd. Has sd.id (ids ds)) sds
        × (0 < length borders)
        × (all_filled this.copies_by_nn this.copies sds borders ≡ true)
  unfolding stretch
  stretch-laid capacity ds zero factor borders sds some_disk positive run = absurd (cc)
  stretch-laid capacity ds (suc fuel) factor borders sds some_disk positive run =
      elim (Option-cases (lay_disks outside this.share_copies capacity factor ds ([], []))) [
        | inl e ↦ absurd (cc (rw (e, stretch) at run))
        | inr ((bs, found), e) ↦
            elim (Bool-cases (all_filled this.copies_by_nn this.copies found bs)) [
              | inr bare ↦
                  stretch-laid capacity ds fuel (dbl.mul factor (dbl.of_signed 2)) borders sds
                    some_disk positive (rw (e, stretch, bare) at run)
              | inl filled ↦
                  let same : laid bs found ≡ laid borders sds = rw (e, stretch, filled) at run in
                  let (is, some_border) =
                    lay_disks-IsLaid outside (ids ds) this.share_copies capacity factor ds ([], [])
                      (bs, found) (Has-self ds) (record { ascending = tt; known = tt }) positive
                      e in
                  let eb : bs ≡ borders = cc in
                  let es : found ≡ sds = cc in
                  (
                    subst IsAscending eb is.ascending,
                    subst (All (λ sd. Has sd.id (ids ds))) es is.known,
                    subst (λ l. 0 < length l) eb (some_border (inl some_disk)),
                    rw (← eb, ← es) filled,
                  )
            ]
      ]

module _ {R : Type 0} (dbl : Double R) (log2 : R → R) (outside : Outside R) (h : Hashes)
    (this : Share) (fuel : ℕ) (ds : List Disk) where
  -- Where the loop that stretches the intervals ends within its fuel, at least one disk and one copy are
  -- given and intervals are laid out, there are at most 2 ^ 63 disks, the C library's logarithm gives a
  -- shift between 1 and 63, and a disk gets at least one key, and fewer than 2 ^ 31 for all intervals of
  -- all disks and their rounds: then `setDisks` ends, and every position below 2 ^ 64 has a distributor
  -- in which every hash has a disk. It is that of the closest border below the position, and its disks
  -- are those that cover the point before that border; it places all copies, or one, as `copiesByNN`
  -- says. The number of copies and that flag stay.
  pub set_disks-Answers :
      (borders : List ℕ) (sds : List ShareDisk)
      → 0 < length ds
      → 0 < this.copies
      → 0 < this.share_copies
      → length ds ≤ 2 ^ 63
      → IsShift h.ceil_log2
      → 0 < get_nn_copies h.ceil_log2 (new_distributor this) (copied ds)
      → get_nn_copies h.ceil_log2 (new_distributor this) (copied ds) * cover_sum sds < 2 ^ 31
      → stretch dbl outside this
          (system_capacity ds 0)
          (copied ds)
          fuel
          (first_stretch_factor dbl log2 this (length ds))
        ≡ laid borders sds
      → (done : Share) × (set_disks dbl log2 outside h this fuel ds ≡ set_up done)
        × ((pos : ℕ)
            → pos < 2 ^ 64
            → (border : ℕ) × (dnn : NearestNeighbour) × IsClosest borders pos border
              × (distributor_at h this (copied ds) sds border ≡ some dnn)
              × (distributor_of done pos ≡ some dnn)
              × (dnn.copies ≡ (if this.copies_by_nn then this.copies else 1))
              × Answers dnn)
        × (done.copies ≡ this.copies)
        × (done.copies_by_nn ≡ this.copies_by_nn)
  unfolding set_disks
  set_disks-Answers [] sds some_disk one_copy some_interval many shift some_key room run =
      let (ascending, known, some_border, filled) =
        stretch-laid dbl outside this (system_capacity ds 0) (copied ds) fuel
          (first_stretch_factor dbl log2 this (length ds)) [] sds
          (omega (arith, length-map ds (λ d. copy d))) some_interval run in
      absurd (omega arith)
  set_disks-Answers (k ∷ ks) sds some_disk one_copy some_interval many shift some_key room run =
      let (ascending, known, some_border, filled) =
        stretch-laid dbl outside this (system_capacity ds 0) (copied ds) fuel
          (first_stretch_factor dbl log2 this (length ds)) (k ∷ ks) sds
          (omega (arith, length-map ds (λ d. copy d))) some_interval run in
      let next = record this { disks = some (copied ds); system_capacity = system_capacity ds 0 } in
      let len = length-map ds (λ d. copy d) in
      let (done, set, answers, copies, by_nn) =
        set_intervals-Answers h next (copied ds) sds shift known some_key room k ks ascending
          (wanted-le (length (copied ds)) k ks (omega (arith, len)) (omega (arith, len)))
          (all_filled-is_filled this.copies_by_nn this.copies sds (k ∷ ks) one_copy filled) in
      (done, rw (run, set_disks, set) refl, answers, copies, by_nn)
