-- ===== src/NearestNeighbour/Endless.antt =====
-- Too many copies, of dadisi/DistNearestNeighbour.cpp.
use data_distribution_simula.Base.{
  ℕ, Has, zero, suc, refl, sym, inl, inr, true, false, Option, some, List, [], arith, ltb,
  Bool-cases, length, length-append, ◌+◌, ◌≤◌, ◌<◌, ◌≡◌, ◌||◌, ◌∷◌, ◌++◌, ◌==◌, if◌then◌else◌,
}
use data_distribution_simula.Disk.{Disk}
use data_distribution_simula.NearestNeighbour.{
  unfinished, holds, place_from, Hashes, NearestNeighbour, nearest, place_extent,
}

holds-append :
    (id : ℕ) (ds : List Disk) (d : Disk) → holds id (ds ++ (d ∷ [])) ≡ (holds id ds || (id == d.id))
unfolding holds
holds-append id [] d = ground arith
holds-append id (e ∷ ds) d = ground (arith, holds-append id ds d)

-- How many of the ids are not among the disks.
unfoldable absent : List ℕ → List Disk → ℕ
absent [] ds = 0
absent (k ∷ ks) ds = (if holds k ds then 0 else 1) + absent ks ds

absent-append_le :
    (ks : List ℕ) (ds : List Disk) (d : Disk) → absent ks (ds ++ (d ∷ [])) ≤ absent ks ds
unfolding absent
absent-append_le [] ds d = omega arith
absent-append_le (k ∷ ks) ds d = ground (arith, holds-append k ds d, absent-append_le ks ds d)

absent-append_lt :
    (ks : List ℕ) (ds : List Disk) (d : Disk)
    → Has d.id ks
    → holds d.id ds ≡ false
    → absent ks (ds ++ (d ∷ [])) < absent ks ds
unfolding absent
absent-append_lt [] ds d h new = absurd h
absent-append_lt (k ∷ ks) ds d h new = elim h [
  | inl e ↦
      let out : holds k ds ≡ false = rw (sym e) new in
      ground (arith, holds-append k ds d, absent-append_le ks ds d)
  | inr t ↦ ground (arith, holds-append k ds d, absent-append_lt ks ds d t new)
]

absent-nil : (ks : List ℕ) → absent ks [] ≡ length ks
unfolding absent holds
absent-nil [] = refl
absent-nil (k ∷ ks) = omega (arith, absent-nil ks)

-- While the ids that are left are too few for the copies that are missing, the loop goes on.
place_from-endless :
    (find : ℕ → Option Disk) (probe : ℕ → Disk) (known : List ℕ) (copies fuel i : ℕ)
    (result : List Disk)
    → ((j : ℕ) → find j ≡ some (probe j))
    → ((j : ℕ) → Has (probe j).id known)
    → length result + absent known result < copies
    → place_from find copies fuel i result ≡ unfinished
unfolding place_from
place_from-endless find probe known copies zero i result total has few = refl
place_from-endless find probe known copies (suc fuel) i result total has few =
    let left : ltb (length result) copies ≡ true = ground arith in
    elim (Bool-cases (holds (probe i).id result)) [
      | inl again ↦
          rw (left, total i, again, place_from)
            (place_from-endless find probe known copies fuel _ result total has few)
      | inr new ↦
          rw (left, total i, new, place_from)
            (place_from-endless find probe known copies fuel _ (result ++ (probe i ∷ [])) total has
              (omega (
                arith,
                few,
                length-append result (probe i ∷ []),
                absent-append_lt known result (probe i) (has i) new,
              )))
    ]

-- Where every hash has a disk, and more copies are asked for than there are different ids of disks
-- in the table, `placeExtent` never ends: no number of rounds is enough.
pub place_extent-endless :
    (h : Hashes) (s : NearestNeighbour) (volume position fuel : ℕ) (known : List ℕ)
    (probe : ℕ → Disk)
    → ((i : ℕ) → nearest s (h.of_copy volume position i) ≡ some (probe i))
    → ((i : ℕ) → Has (probe i).id known)
    → length known < s.copies
    → place_extent h s fuel volume position ≡ unfinished
unfolding place_extent
place_extent-endless h s volume position fuel known probe total has few =
    place_from-endless (λ i. nearest s (h.of_copy volume position i)) probe known s.copies fuel 0 []
      total has (omega (arith, absent-nil known, few))
