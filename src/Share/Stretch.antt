-- ===== src/Share/Stretch.antt =====
-- The loop of `setDisks` of dadisi/DistShare.cpp that stretches the intervals: where it ends.
use data_distribution_simula.Base.{
  ℕ, zero, suc, refl, inl, inr, Bool, true, false, some, List, [], arith, ltb, Bool-cases, ◌+◌, ◌-◌,
  ◌*◌, ◌/◌, ◌%◌, ◌^◌, ◌<◌, ◌≡◌, ◌⊎◌, ◌∷◌, ◌++◌, ◌==◌,
}
use data_distribution_simula.Disk.{Disk}
use data_distribution_simula.Double.{Double}
use data_distribution_simula.Helper.{create_mpz}
use data_distribution_simula.Helper.RoundTrip.{printed, read_int64-printed_decimal}
use data_distribution_simula.ImprovedMap.{set_insert}
use data_distribution_simula.Word.{sub64}
use data_distribution_simula.Share.{Share, laid, stretch}
use data_distribution_simula.Share.Intervals.{
  Outside, ShareDisk, max_int64, is_positive, count_covers_point, interval_end, interval_length,
  interval_rounds, lay_copies, lay_disks, is_filled, all_filled,
}

-- Every point is covered.
abbrev pub Fills : List ShareDisk → Type 0
Fills sds = (p : ℕ) → is_filled sds p ≡ true

is_filled-append_left :
    (xs ys : List ShareDisk) (p : ℕ) → is_filled xs p ≡ true → is_filled (xs ++ ys) p ≡ true
unfolding is_filled
is_filled-append_left [] ys p h = absurd (cc)
is_filled-append_left (x ∷ xs) ys p h = elim (Bool-cases (is_positive (count_covers_point x p))) [
  | inl here ↦ rw here refl
  | inr other ↦ rw other (is_filled-append_left xs ys p (rw other at h))
]

is_filled-append_right :
    (xs ys : List ShareDisk) (p : ℕ) → is_filled ys p ≡ true → is_filled (xs ++ ys) p ≡ true
unfolding is_filled
is_filled-append_right [] ys p h = h
is_filled-append_right (x ∷ xs) ys p h = elim (Bool-cases (is_positive (count_covers_point x p))) [
  | inl here ↦ rw here refl
  | inr other ↦ rw other (is_filled-append_right xs ys p h)
]

-- An interval that goes round the ring covers every point.
round-Fills : (sd : ShareDisk) → 0 < sd.rounds → sd.rounds < 2 ^ 31 - 1 → Fills (sd ∷ [])
unfolding is_filled count_covers_point
round-Fills sd positive small p = ground arith

all_filled-Fills :
    (by_nn : Bool) (copies : ℕ) (sds : List ShareDisk) (borders : List ℕ)
    → by_nn ≡ false
    → Fills sds
    → all_filled by_nn copies sds borders ≡ true
unfolding all_filled
all_filled-Fills by_nn copies sds [] separate fills = refl
all_filled-Fills by_nn copies sds (b ∷ borders) separate fills =
    rw (separate, fills (sub64 b 1), all_filled-Fills by_nn copies sds borders separate fills) refl

-- The rounds of an interval of that length: at least one, and a signed number of 32 bits.
abbrev pub IsRound : ℕ → Type 0
IsRound size = (0 < interval_rounds size) × (interval_rounds size < 2 ^ 31 - 1)

-- The length of the interval of a disk.
abbrev pub disk_length : {R : Type 0} → Outside R → ℕ → R → Disk → ℕ
disk_length outside capacity factor d =
    outside.scale (create_mpz d.capacity * create_mpz max_int64) factor / create_mpz capacity

-- Some disk's interval goes round the ring.
abbrev pub SomeRound : {R : Type 0} → Outside R → ℕ → R → List Disk → Type 0
SomeRound outside capacity factor [] = ⊥
SomeRound outside capacity factor (d ∷ ds) =
    IsRound (disk_length outside capacity factor d) ⊎ SomeRound outside capacity factor ds

module _ {R : Type 0} (outside : Outside R)
    (decimal : (n : ℕ) → outside.text n ≡ printed 10 n) where
  interval_end-eq-some :
      (size start : ℕ) → (end : ℕ) × (interval_end outside.text size start ≡ some end)
  unfolding interval_end
  interval_end-eq-some size start =
      let tmp = (size + create_mpz start) % create_mpz max_int64 in
      elim (Bool-cases (ltb (2 ^ 32 - 1) tmp)) [
        | inl great ↦ (tmp % 2 ^ 64, rw (great, decimal tmp, read_int64-printed_decimal tmp) refl)
        | inr little ↦ (tmp, rw little refl)
      ]

  lay_copies-Fills :
      (size : ℕ) (d : Disk) (n i : ℕ) (before : List ℕ × List ShareDisk)
      → (after : List ℕ × List ShareDisk) × (lay_copies outside size d n i before ≡ some after)
        × (Fills before.1 ⊎ ((0 < n) × IsRound size) → Fills after.1)
  unfolding lay_copies
  lay_copies-Fills size d zero i before =
      (before, refl, λ h. elim h [ inl fills ↦ fills | inr (n, round) ↦ absurd (omega arith) ])
  lay_copies-Fills size d (suc n) i (borders, s_disks) =
      let start = outside.of_disk d.id i in
      let (end, here) = interval_end-eq-some size start in
      let sd : ShareDisk = record {
        id = d.id;
        start = start;
        end = end;
        rounds = interval_rounds size;
        copy = i;
      } in
      let (after, rest, fills) =
        lay_copies-Fills size d n (i + 1)
          (set_insert end (set_insert start borders), s_disks ++ (sd ∷ [])) in
      (
        after,
        rw here rest,
        λ h. fills (
            inl (λ p. elim h [
              | inl full ↦ is_filled-append_left s_disks (sd ∷ []) p (full p)
              | inr (positive, (one, small)) ↦
                  is_filled-append_right s_disks (sd ∷ []) p (round-Fills sd one small p)
            ])),
      )

  module _ (copies capacity : ℕ) (factor : R) (nonzero : (create_mpz capacity == 0) ≡ false) where
    lay_disks-Fills :
        (ds : List Disk) (before : List ℕ × List ShareDisk)
        → (after : List ℕ × List ShareDisk) × (lay_disks outside copies capacity factor ds before
            ≡ some after)
          × (Fills before.1 ⊎ ((0 < copies) × SomeRound outside capacity factor ds) → Fills after.1)
    unfolding lay_disks interval_length
    lay_disks-Fills [] before =
        (before, refl, λ h. elim h [ inl fills ↦ fills | inr (n, round) ↦ absurd round ])
    lay_disks-Fills (d ∷ ds) before =
        let size = disk_length outside capacity factor d in
        let (next, here, fills) = lay_copies-Fills size d copies 0 before in
        let (after, rest, fills') = lay_disks-Fills ds next in
        (
          after,
          rw (nonzero, here) rest,
          λ h. elim h [
            | inl full ↦ fills' (inl (fills (inl full)))
            | inr (some_copy, inl round) ↦ fills' (inl (fills (inr (some_copy, round))))
            | inr (some_copy, inr later) ↦ fills' (inr (some_copy, later))
          ],
        )

-- The factor after `k` rounds of the loop.
abbrev pub doubled : {R : Type 0} → Double R → ℕ → R → R
doubled dbl zero factor = factor
doubled dbl (suc k) factor = doubled dbl k (dbl.mul factor (dbl.of_signed 2))

module _ {R : Type 0} (dbl : Double R) (outside : Outside R) (this : Share) where
  -- Where a disk's interval goes round the ring once the factor has been doubled `k` times, the loop
  -- ends within `k + 1` rounds: for a text of a big number that is its decimal one, a system with a
  -- capacity, intervals that are laid out, and copies that have distributors of their own.
  pub stretch-ends :
      (capacity : ℕ) (ds : List Disk) (k fuel : ℕ) (factor : R)
      → ((n : ℕ) → outside.text n ≡ printed 10 n)
      → (create_mpz capacity == 0) ≡ false
      → 0 < this.share_copies
      → this.copies_by_nn ≡ false
      → SomeRound outside capacity (doubled dbl k factor) ds
      → k < fuel
      → (borders : List ℕ) × (sds : List ShareDisk) × (stretch dbl outside this capacity ds fuel
            factor
          ≡ laid borders sds)
  unfolding stretch
  stretch-ends capacity ds k zero factor decimal nonzero some_copy separate round enough =
      absurd (omega arith)
  stretch-ends capacity ds zero (suc fuel) factor decimal nonzero some_copy separate round enough =
      let ((bs, sds), here, fills) =
        lay_disks-Fills outside decimal this.share_copies capacity factor nonzero ds ([], []) in
      let full =
        all_filled-Fills this.copies_by_nn this.copies sds bs separate
          (fills (inr (some_copy, round))) in
      (bs, sds, rw (here, stretch, full) refl)
  stretch-ends capacity ds (suc k) (suc fuel) factor decimal nonzero some_copy separate round
        enough =
      let ((bs, sds), here, fills) =
        lay_disks-Fills outside decimal this.share_copies capacity factor nonzero ds ([], []) in
      elim (Bool-cases (all_filled this.copies_by_nn this.copies sds bs)) [
        | inl full ↦ (bs, sds, rw (here, stretch, full) refl)
        | inr bare ↦
            let (bs', sds', run) =
              stretch-ends capacity ds k fuel (dbl.mul factor (dbl.of_signed 2)) decimal nonzero
                some_copy separate round (omega arith) in
            (bs', sds', rw (here, stretch, bare) run)
      ]
