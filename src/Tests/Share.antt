-- ===== src/Tests/Share.antt =====
-- Concrete runs of the placement with stretched intervals.
use data_distribution_simula.Base.{
  ℕ, refl, inl, Option, none, Bool, Has, All-Has, ◌≤◌, some, List, [], arith, ltb, length, ◌+◌, ◌*◌,
  ◌/◌, ◌%◌, ◌^◌, ◌<◌, ◌≡◌, ◌∷◌, ◌∙◌, sym, some-injective, if◌then◌else◌, false, true, ◌&&◌,
}
use data_distribution_simula.Tests.{disk, ceil_log2-IsShift}
use data_distribution_simula.Tests.Doubles.{fixed}
use data_distribution_simula.Tests.NearestNeighbour.{hashes, halved, halved-Answers}
use data_distribution_simula.Disk.{Disk}
use data_distribution_simula.Dictionary.{lookup}
use data_distribution_simula.Helper.{create_mpz}
use data_distribution_simula.Helper.RoundTrip.{printed}
use data_distribution_simula.ImprovedMap
use data_distribution_simula.ImprovedMap.Closest.{IsClosest}
use data_distribution_simula.NearestNeighbour.{NearestNeighbour, placed, get_nn_copies, holds}
use data_distribution_simula.NearestNeighbour.Keys.{Answers}
use data_distribution_simula.NearestNeighbour.Distinct.{IsNearest, fresh}
use data_distribution_simula.Share
use data_distribution_simula.Share.{
  laid, stretch, set_up, set_disks, Probes, probe_disk, place_extent, distributor_of,
  distributor_at, set_distributors, system_capacity, first_stretch_factor,
}
use data_distribution_simula.Share.Intervals.{
  Outside, ShareDisk, count_covers_point, interval_rounds, multiplicity,
}
use data_distribution_simula.Share.Cover.{distance, span, count_covers_point-distance}
use data_distribution_simula.Share.Extent.{copied, set_disks-Answers}
use data_distribution_simula.Share.Distributors.{IsMade}
use data_distribution_simula.Share.Threads.{
  WorkPackage, Thread, work_packages, started, turn, interleave,
}
use data_distribution_simula.Share.Threads.Equal.{
  IsRunning, AreTerminated, interleave-set_distributors, turn-ends,
}
use data_distribution_simula.Share.Stretch.{stretch-ends}
use data_distribution_simula.Share.Placement.{
  Hosts, disk_of, probe_disk-eq-some, place_extent-IsNearest_of_probes,
}

abbrev outside : Outside ℕ
outside = record {
  of_disk = λ id i. id * 2 ^ 61 % 2 ^ 64;
  scale = λ n factor. n * factor / 1_000_000;
  text = printed 10;
}

abbrev two_disks : List Disk
two_disks = disk 1 ∷ disk 2 ∷ []

abbrev log2 : ℕ → ℕ
log2 n = 1_000_000

abbrev state : Share.Share
state = record Share.new { copies = 2; static_nn_copies = true; nn_copies = 2 }

abbrev run : Share.Stretching
run =
    stretch fixed outside state (system_capacity two_disks 0) (copied two_disks) 3
      (first_stretch_factor fixed log2 state 2)

-- An interval that goes round the end of the ring.
abbrev wrapped : ShareDisk
wrapped = record { id = 1; start = 2 ^ 63; end = 5; rounds = 1; copy = 0 }

count_covers_point-distance_example : count_covers_point wrapped 3 ≡ (
    if ltb 0 (distance (2 ^ 63) 3) && ltb (distance (2 ^ 63) 3) (span wrapped)
    then (1 + 1) % 2 ^ 32
    else 1)
count_covers_point-distance_example =
    count_covers_point-distance wrapped 3 (omega arith) (omega arith) (omega arith)

stretch-ends_example :
    (borders : List ℕ) × (sds : List ShareDisk) × (stretch fixed outside state 200 two_disks 3
        1_000_000
      ≡ laid borders sds)
unfolding interval_rounds create_mpz
stretch-ends_example =
    stretch-ends fixed outside state 200 two_disks 2 3 1_000_000 (λ n. refl) refl (omega arith) refl
      (inl (omega arith, omega arith)) (omega arith)

abbrev borders : List ℕ
borders = 2 ^ 61 ∷ 2 ^ 62 ∷ 11_529_215_046_068_469_759 ∷ 13_835_058_055_282_163_711 ∷ []

abbrev intervals : List ShareDisk
intervals =
    record { id = 1; start = 2 ^ 61; end = 11_529_215_046_068_469_759; rounds = 1; copy = 0 }
    ∷ record { id = 2; start = 2 ^ 62; end = 13_835_058_055_282_163_711; rounds = 1; copy = 0 }
    ∷ []

run-laid : run ≡ laid borders intervals
unfolding stretch first_stretch_factor system_capacity printed
run-laid = refl

set_disks-Answers_example :
    (done : Share.Share) × (set_disks fixed log2 outside hashes state 3 two_disks ≡ set_up done)
    × ((pos : ℕ)
        → pos < 2 ^ 64
        → (border : ℕ) × (dnn : NearestNeighbour) × IsClosest borders pos border
          × (distributor_at hashes state (copied two_disks) intervals border ≡ some dnn)
          × (distributor_of done pos ≡ some dnn)
          × (dnn.copies ≡ 1)
          × Answers dnn)
    × (done.copies ≡ 2)
    × (done.copies_by_nn ≡ false)
unfolding get_nn_copies
set_disks-Answers_example =
    set_disks-Answers fixed log2 outside hashes state 3 two_disks borders intervals (omega arith)
      (omega arith) (omega arith) (omega arith) ceil_log2-IsShift (omega arith) (omega arith)
      run-laid

-- One border, the distributor of which has two disks.
abbrev hosting : Share.Share
hosting = record state {
  distributors = (0, halved 1) ∷ [];
  key_finder = some (record { bit_shift = 64; slices = 1; keys = (0 ∷ []) ∷ []; last_key = 0 });
}

abbrev probes : Probes
probes = record {
  of_share = λ volume position i. (volume + position + i) % 2 ^ 64;
  of_nn = λ volume position i. i * 2 ^ 62 % 2 ^ 64;
}

hosting-found : (pos : ℕ) → distributor_of hosting pos ≡ some (halved 1)
unfolding distributor_of ImprovedMap.find_closest ImprovedMap.closest_in ImprovedMap.at_or_before
    lookup
hosting-found pos = ground arith

hosting-Hosts : Hosts hosting
hosting-Hosts pos lt = (halved 1, hosting-found pos, refl, halved-Answers 1)

copy-lt : (pos i : ℕ) → hashes.of_copy 5 pos i < 2 ^ 64
copy-lt pos i = omega arith

abbrev share-lt : (i : ℕ) → probes.of_share 5 8 i < 2 ^ 64
share-lt i = omega arith

abbrev met : ℕ → Disk
met = disk_of hashes probes hosting 5 8 hosting-Hosts share-lt copy-lt

met-eq : (i : ℕ) (d : Disk) → probe_disk hashes probes hosting 5 8 i ≡ some d → met i ≡ d
met-eq i d e =
    some-injective
      (sym (probe_disk-eq-some hashes probes hosting 5 8 hosting-Hosts share-lt copy-lt i).1 ∙ e)

met-rounds : (met 0 ≡ disk 2) × (met 1 ≡ disk 2) × (met 2 ≡ disk 1) × (met 3 ≡ disk 1)
unfolding probe_disk ImprovedMap.find_closest
met-rounds =
    (met-eq 0 (disk 2) refl, met-eq 1 (disk 2) refl, met-eq 2 (disk 1) refl, met-eq 3 (disk 1) refl)

fresh-rounds :
    (probe : ℕ → Disk)
    → (probe 0 ≡ disk 2) × (probe 1 ≡ disk 2) × (probe 2 ≡ disk 1) × (probe 3 ≡ disk 1)
    → length (fresh probe 4 0 []) ≡ 2
unfolding fresh holds
fresh-rounds probe (first, second, third, last) = rw (first, second, third, last) refl

place_extent-IsNearest_of_probes_example :
    (result : List Disk) × (place_extent hashes probes hosting 5 5 8 ≡ placed result)
    × IsNearest met 2 4 result
place_extent-IsNearest_of_probes_example =
    place_extent-IsNearest_of_probes hashes probes hosting 5 8 hosting-Hosts share-lt copy-lt 4 5
      refl (omega arith) (omega arith) (omega (arith, fresh-rounds met met-rounds))

-- The threads.
is_some : Option NearestNeighbour → Bool
is_some none = false
is_some (some dnn) = true

eq-some :
    (m : Option NearestNeighbour) → is_some m ≡ true → (dnn : NearestNeighbour) × (m ≡ some dnn)
unfolding is_some
eq-some none h = absurd (cc)
eq-some (some dnn) h = (dnn, refl)

borders-IsMade : (b : ℕ) → Has b borders → IsMade hashes state (copied two_disks) intervals b
unfolding is_some distributor_at get_nn_copies ImprovedMap.new
borders-IsMade b has =
    All-Has (IsMade hashes state (copied two_disks) intervals) b borders
      (
        eq-some (distributor_at hashes state (copied two_disks) intervals (2 ^ 61)) refl,
        (
          eq-some (distributor_at hashes state (copied two_disks) intervals (2 ^ 62)) refl,
          (
            eq-some
                (distributor_at hashes state (copied two_disks) intervals
                  11_529_215_046_068_469_759)
                refl,
            (
              eq-some
                  (distributor_at hashes state (copied two_disks) intervals
                    13_835_058_055_282_163_711)
                  refl,
              tt,
            ),
          ),
        ),
      )
      has

-- Both threads take packages in turn, and the second is the faster one.
abbrev order : List ℕ
order = 0 ∷ 1 ∷ 1 ∷ 1 ∷ 1 ∷ 1 ∷ 1 ∷ 0 ∷ 1 ∷ 0 ∷ 1 ∷ 1 ∷ 0 ∷ 1 ∷ []

abbrev finished : List WorkPackage × List (ℕ × NearestNeighbour) × List Thread
finished =
    elim (interleave hashes state (copied two_disks) order (work_packages intervals borders) []
      (started 2)) [ none ↦ ([], [], []) | some r ↦ r ]

finished-run :
    interleave hashes state
      (copied two_disks)
      order
      (work_packages intervals borders)
      []
      (started 2)
    ≡ some finished
unfolding interleave ImprovedMap.new multiplicity
finished-run = refl

finished-AreTerminated : AreTerminated finished.2
unfolding interleave ImprovedMap.new multiplicity
finished-AreTerminated = (refl, (refl, tt))

interleave-set_distributors_example :
    (table : List (ℕ × NearestNeighbour)) × (set_distributors hashes state
        (copied two_disks)
        intervals
        borders
        []
      ≡ some table)
    × ((b : ℕ) → Has b borders → lookup b finished.1 ≡ lookup b table)
interleave-set_distributors_example =
    interleave-set_distributors hashes state (copied two_disks) intervals borders borders-IsMade 2
      order finished (omega arith) finished-run finished-AreTerminated

-- The first thread is at work, and the second one is about to take a package again.
abbrev begun : List WorkPackage × List (ℕ × NearestNeighbour) × List Thread
begun =
    elim (interleave hashes state (copied two_disks) (0 ∷ 1 ∷ 1 ∷ 1 ∷ [])
      (work_packages intervals borders) [] (started 2)) [ none ↦ ([], [], []) | some r ↦ r ]

begun-run :
    interleave hashes state
      (copied two_disks)
      (0 ∷ 1 ∷ 1 ∷ 1 ∷ [])
      (work_packages intervals borders)
      []
      (started 2)
    ≡ some begun
unfolding interleave ImprovedMap.new multiplicity
begun-run = refl

begun-IsRunning : IsRunning begun.2 0
unfolding interleave ImprovedMap.new multiplicity
begun-IsRunning = λ e. cc

turn-ends_example :
    (next : List WorkPackage × List (ℕ × NearestNeighbour) × List Thread) × (turn hashes state
        (copied two_disks)
        begun.0
        begun.1
        begun.2
        0
      ≡ some next)
    × (5 ≤ 14)
turn-ends_example =
    turn-ends hashes state (copied two_disks) intervals borders borders-IsMade 2
      (0 ∷ 1 ∷ 1 ∷ 1 ∷ []) begun 0 (omega arith) begun-run begun-IsRunning
