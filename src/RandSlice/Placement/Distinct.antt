-- ===== src/RandSlice/Placement/Distinct.antt =====
-- The copies of an extent lie on different partitions, of dadisi/DistRandSlice.cpp.
use data_distribution_simula.Base.{
  ℕ, IsUnique, All, zero, suc, sym, ap, inl, inr, false, Option, some, List, [], arith, Bool-cases,
  length, take, length-map, Has, All-map, All-Has, ◌+◌, ◌^◌, ◌≤◌, ◌<◌, ◌≡◌, ◌∷◌, ◌++◌, ◌==◌, ◌∙◌,
  length-take, subst, ◌-◌,
}
use data_distribution_simula.Dictionary.{keys, lookup}
use data_distribution_simula.Disk.{Disk}
use data_distribution_simula.Word.{mul64}
use data_distribution_simula.RandSlice.Placement.{
  placed, unfinished, offset, found, too_far, partition_at, place_extent,
}
use data_distribution_simula.RandSlice.Placement.Laws.{
  fresh, IsPlacedOn, place_from-ends, place_from-fresh,
}

found-append_one :
    (p x : ℕ) (selected : List ℕ)
    → found p (selected ++ (x ∷ [])) ≡ false
    → (found p selected ≡ false) × ((p == x) ≡ false)
unfolding found
found-append_one p x [] h = ground arith
found-append_one p x (s ∷ selected) h = ground (arith, found-append_one p x selected)

fresh-IsUnique :
    (probe : ℕ → ℕ) (k idx : ℕ) (selected : List ℕ)
    → All (λ p. found p selected ≡ false) (fresh probe k idx selected)
      × IsUnique (fresh probe k idx selected)
unfolding fresh
fresh-IsUnique probe zero idx selected = (tt, tt)
fresh-IsUnique probe (suc k) idx selected = elim (Bool-cases (found (probe idx) selected)) [
  | inl again ↦ rw (again, fresh) (fresh-IsUnique probe k (idx + 1) selected)
  | inr new ↦
      let (others, apart) = fresh-IsUnique probe k (idx + 1) (selected ++ (probe idx ∷ [])) in
      rw (new, fresh)
        (
          (new, All-map _ _ _ (λ p h. (found-append_one p (probe idx) selected h).0) others),
          (
            (λ h.
                let twice =
                  (found-append_one (probe idx) (probe idx) selected
                    (All-Has _ (probe idx) _ others h)).1 in
                absurd (ground arith)),
            apart,
          ),
        )
]

Has-take : (n a : ℕ) (xs : List ℕ) → Has a (take n xs) → Has a xs
Has-take zero a xs h = absurd h
Has-take (suc n) a [] h = absurd h
Has-take (suc n) a (x ∷ xs) h = elim h [ inl e ↦ inl e | inr t ↦ inr (Has-take n a xs t) ]

IsUnique-take : (n : ℕ) (xs : List ℕ) → IsUnique xs → IsUnique (take n xs)
IsUnique-take zero xs u = tt
IsUnique-take (suc n) [] u = tt
IsUnique-take (suc n) (x ∷ xs) u = (λ h. u.0 (Has-take n x xs h), IsUnique-take n xs u.1)

-- `placeExtent` ends: for any number of copies that a 32-bit number holds, the fuel is enough.
pub place_extent-ends :
    (search_tree : ℕ → Option ℕ) (disks : List (ℕ × Disk)) (copies position : ℕ)
    → copies < 2 ^ 32
    → ¬ (place_extent search_tree disks copies position ≡ unfinished)
unfolding place_extent
place_extent-ends search_tree disks copies position small = elim (Bool-cases (too_far position)) [
  | inl far ↦ rw (far, place_extent) (λ h. cc)
  | inr near ↦
      rw (near, place_extent)
        (place_from-ends (partition_at search_tree (mul64 position offset)) disks copies
          (copies + offset + 2) 0 [] [] (omega arith) (omega arith))
]

-- What `placeExtent` selects: the first `copies` different partitions that the probes meet.
pub record Selects (probe : ℕ → ℕ) (disks : List (ℕ × Disk)) (copies k : ℕ) (result : List Disk)
    : Type 0 where
  pub placed_on : IsPlacedOn disks (take copies (fresh probe k 0 [])) result
  pub apart : IsUnique (take copies (fresh probe k 0 []))
  pub enough : length result ≡ copies

IsPlacedOn-length :
    (disks : List (ℕ × Disk)) (ids : List ℕ) (ds : List Disk)
    → IsPlacedOn disks ids ds
    → length ds ≡ length ids
IsPlacedOn-length disks ids ds h =
    sym (length-map ds some) ∙ sym (ap length h) ∙ length-map ids (λ p. lookup p disks)

IsPlacedOn-Selects :
    (probe : ℕ → ℕ) (disks : List (ℕ × Disk)) (copies k : ℕ) (ds : List Disk)
    → copies ≤ length (fresh probe k 0 [])
    → IsPlacedOn disks (take (copies - 0) (fresh probe k 0 [])) ds
    → Selects probe disks copies k ds
IsPlacedOn-Selects probe disks copies k ds many at =
    let ids = fresh probe k 0 [] in
    let same : copies - 0 ≡ copies = omega arith in
    let on : IsPlacedOn disks (take copies ids) ds =
      subst (λ n. IsPlacedOn disks (take n ids) ds) same at in
    record {
      placed_on = on;
      apart = IsUnique-take copies ids (fresh-IsUnique probe k 0 []).1;
      enough =
          IsPlacedOn-length disks (take copies ids) ds on
          ∙ length-take copies ids
          ∙ omega (arith, many);
    }

-- If the position is not too far, every probe gives a partition that has a disk, and the first `k`
-- probes, at most 200, meet at least `copies` different partitions: `placeExtent` gives exactly
-- `copies` disks, those of the first `copies` different partitions in the order of the probes.
pub place_extent-Selects :
    (search_tree : ℕ → Option ℕ) (disks : List (ℕ × Disk)) (copies position k : ℕ)
    → too_far position ≡ false
    → ((i : ℕ) → Has (partition_at search_tree (mul64 position offset) i) (keys disks))
    → k ≤ offset
    → copies ≤ length (fresh (partition_at search_tree (mul64 position offset)) k 0 [])
    → (result : List Disk) × (place_extent search_tree disks copies position ≡ placed result)
      × Selects (partition_at search_tree (mul64 position offset)) disks copies k result
unfolding place_extent
place_extent-Selects search_tree disks copies position k near known low many =
    let probe = partition_at search_tree (mul64 position offset) in
    let (result, run, at) =
      place_from-fresh probe disks copies k (copies + offset + 2) 0 [] [] (omega arith)
        (omega arith) known (omega arith) in
    (result, rw (near, place_extent) run, IsPlacedOn-Selects probe disks copies k result many at)
