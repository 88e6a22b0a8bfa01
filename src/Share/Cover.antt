-- ===== src/Share/Cover.antt =====
-- What the intervals of dadisi/ShareDisk.h cover, and how often the disks cover a point.
use data_distribution_simula.Base.{
  ℕ, refl, inl, inr, List, [], arith, ltb, Bool-cases, ◌+◌, ◌-◌, ◌%◌, ◌^◌, ◌≤◌, ◌<◌, ◌≡◌, ◌&&◌, ◌∷◌,
  ◌==◌, ◌∙◌, if◌then◌else◌,
}
use data_distribution_simula.Dictionary.{assign, lookup-assign}
use data_distribution_simula.NearestNeighbour.{times}
use data_distribution_simula.Share.Intervals.{
  ShareDisk, count_covers_point, covers_point, is_positive, multiplicity,
}

-- How far `b` is from `a`, going up the ring.
abbrev pub distance : ℕ → ℕ → ℕ
distance a b = (b + 2 ^ 64 - a) % 2 ^ 64

-- The length of an interval: the whole ring where it ends at its start.
abbrev pub span : ShareDisk → ℕ
span sd = if sd.start == sd.end then 2 ^ 64 else distance sd.start sd.end

-- A point of the ring is covered once for each round, and once more if it lies between the start and
-- the end of the interval, without them, going up the ring from the start; an interval that ends at
-- its start has every other point of the ring between them.
pub count_covers_point-distance :
    (sd : ShareDisk) (point : ℕ)
    → sd.start < 2 ^ 64
    → sd.end < 2 ^ 64
    → point < 2 ^ 64
    → count_covers_point sd point ≡ (
        if ltb 0 (distance sd.start point) && ltb (distance sd.start point) (span sd)
        then (sd.rounds + 1) % 2 ^ 32
        else sd.rounds)
unfolding count_covers_point
count_covers_point-distance sd point hs he hp = ground arith

-- `coversPoint` and `countCoversPoint` agree on whether a point is covered at all, while the rounds do
-- not reach the greatest signed number of 32 bits.
pub covers_point-count :
    (sd : ShareDisk) (point : ℕ)
    → sd.rounds < 2 ^ 31 - 1
    → covers_point sd point ≡ is_positive (count_covers_point sd point)
unfolding covers_point count_covers_point
covers_point-count sd point h = ground arith

-- The greatest number of times that the disks can cover a point.
abbrev pub cover_sum : List ShareDisk → ℕ
cover_sum [] = 0
cover_sum (sd ∷ sds) = cover_sum sds + sd.rounds + 1

-- How often the disks with an id cover a point.
abbrev pub covers : ℕ → List ShareDisk → ℕ → ℕ
covers id [] p = 0
covers id (sd ∷ sds) p = covers id sds p + (if sd.id == id then count_covers_point sd p else 0)

count_covers_point-le : (sd : ShareDisk) (p : ℕ) → count_covers_point sd p ≤ sd.rounds + 1
unfolding count_covers_point
count_covers_point-le sd p = ground arith

pub covers-le : (id : ℕ) (sds : List ShareDisk) (p : ℕ) → covers id sds p ≤ cover_sum sds
covers-le id [] p = omega arith
covers-le id (sd ∷ sds) p = ground (arith, covers-le id sds p, count_covers_point-le sd p)

times-assign :
    (k j v : ℕ) (m : List (ℕ × ℕ)) → times j (assign k v m) ≡ (if k == j then v else times j m)
unfolding times
times-assign k j v m = elim (Bool-cases (k == j)) [
  | inl same ↦ rw (lookup-assign k j v m, times, same) refl
  | inr other ↦ rw (lookup-assign k j v m, times, other) refl
]

-- The table that a distributor is given counts them, while the sums stay below 2 ^ 32.
pub times-multiplicity :
    (id : ℕ) (sds : List ShareDisk) (p : ℕ) (multi : List (ℕ × ℕ))
    → ((j : ℕ) → times j multi + cover_sum sds < 2 ^ 32)
    → times id (multiplicity sds p multi) ≡ times id multi + covers id sds p
unfolding multiplicity
times-multiplicity id [] p multi room = omega arith
times-multiplicity id (sd ∷ sds) p multi room =
    let next = assign sd.id ((times sd.id multi + count_covers_point sd p) % 2 ^ 32) multi in
    let counted = λ (j : ℕ).
      times-assign sd.id j ((times sd.id multi + count_covers_point sd p) % 2 ^ 32) multi in
    let room' : (j : ℕ) → times j next + cover_sum sds < 2 ^ 32 =
      λ j. ground (arith, counted j, room j, room sd.id, count_covers_point-le sd p) in
    times-multiplicity id sds p next room'
    ∙ ground (arith, counted id, room id, room sd.id, count_covers_point-le sd p)
