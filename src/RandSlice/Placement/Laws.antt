-- ===== src/RandSlice/Placement/Laws.antt =====
-- The loop that places the copies ends, and selects the first different partitions, of
-- dadisi/DistRandSlice.cpp.
use mathlib.Core.List.{append-nil, append_assoc}
use data_distribution_simula.Base.{
  ℕ, zero, suc, inl, inr, List, [], arith, ltb, leb, Bool-cases, Option-cases, length,
  length-append, ◌+◌, ◌-◌, ◌%◌, ◌^◌, ◌<◌, ◌≡◌, ◌∷◌, ◌++◌, true, some, map, take, Has, ◌≤◌,
  if◌then◌else◌, refl, sym, ap, subst, false, ◌∙◌,
}
use data_distribution_simula.Dictionary.{lookup, keys, lookup-Has}
use data_distribution_simula.Disk.{Disk, copy}
use data_distribution_simula.RandSlice.Placement.{placed, unfinished, offset, found, place_from}

-- Every round leaves fewer copies to place, or fewer probes that may meet a selected partition.
pub place_from-ends :
    (probe : ℕ → ℕ) (disks : List (ℕ × Disk)) (copies fuel idx : ℕ) (selected : List ℕ)
    (result : List Disk)
    → idx + fuel < 2 ^ 63
    → (copies - length result) + (offset + 1 - idx) < fuel
    → ¬ (place_from probe disks copies fuel idx selected result ≡ unfinished)
unfolding place_from
place_from-ends probe disks copies zero idx selected result small enough = absurd (omega arith)
place_from-ends probe disks copies (suc fuel) idx selected result small enough =
    let next : (idx + 1) % 2 ^ 64 ≡ idx + 1 = omega arith in
    elim (Bool-cases (ltb (length result) copies)) [
      | inr done ↦ rw (done, place_from) (λ h. cc)
      | inl more ↦ elim (Bool-cases (found (probe idx) selected)) [
        | inl again ↦ elim (Bool-cases (leb (idx + 1) offset)) [
          | inl few ↦
              rw (more, again, next, few, next, place_from)
                (place_from-ends probe disks copies fuel (idx + 1) selected result (ground arith)
                  (ground arith))
          | inr many ↦ rw (more, again, next, many, place_from) (λ h. cc)
        ]
        | inr new ↦ elim (Option-cases (lookup (probe idx) disks)) [
          | inl unknown ↦ rw (more, new, unknown, place_from) (λ h. cc)
          | inr (d, known) ↦
              rw (more, new, known, next, place_from)
                (place_from-ends probe disks copies fuel (idx + 1) _ (result ++ (copy d ∷ []))
                  (ground (arith, length-append result (copy d ∷ [])))
                  (ground (arith, length-append result (copy d ∷ []))))
        ]
      ]
    ]

-- The partitions of the next `k` probes from `idx` on that are new, in their order.
unfoldable pub fresh : (ℕ → ℕ) → ℕ → ℕ → List ℕ → List ℕ
unfolding found
fresh probe zero idx selected = []
fresh probe (suc k) idx selected =
    if found (probe idx) selected
    then fresh probe k (idx + 1) selected
    else probe idx ∷ fresh probe k (idx + 1) (selected ++ (probe idx ∷ []))

fresh-again :
    (probe : ℕ → ℕ) (k idx : ℕ) (selected : List ℕ)
    → found (probe idx) selected ≡ true
    → fresh probe (suc k) idx selected ≡ fresh probe k (idx + 1) selected
unfolding fresh
fresh-again probe k idx selected h = rw (h, fresh) refl

fresh-new :
    (probe : ℕ → ℕ) (k idx : ℕ) (selected : List ℕ)
    → found (probe idx) selected ≡ false
    → fresh probe (suc k) idx selected
      ≡ probe idx ∷ fresh probe k (idx + 1) (selected ++ (probe idx ∷ []))
unfolding fresh
fresh-new probe k idx selected h = rw (h, fresh) refl

-- The disks of a list of partitions.
abbrev pub IsPlacedOn : List (ℕ × Disk) → List ℕ → List Disk → Type 0
IsPlacedOn disks ids ds = map (λ p. lookup p disks) ids ≡ map some ds

-- One round that meets a selected partition, and one that places a copy.
step-again :
    (probe : ℕ → ℕ) (disks : List (ℕ × Disk)) (copies fuel idx : ℕ) (selected : List ℕ)
    (result : List Disk)
    → length result < copies
    → found (probe idx) selected ≡ true
    → idx < offset
    → place_from probe disks copies (suc fuel) idx selected result
      ≡ place_from probe disks copies fuel (idx + 1) selected result
unfolding place_from
step-again probe disks copies fuel idx selected result more again few =
    let left : ltb (length result) copies ≡ true = ground arith in
    let next : (idx + 1) % 2 ^ 64 ≡ idx + 1 = omega arith in
    let allowed : leb (idx + 1) offset ≡ true = ground arith in
    rw (left, again, next, allowed, next, place_from) refl

step-new :
    (probe : ℕ → ℕ) (disks : List (ℕ × Disk)) (copies fuel idx : ℕ) (selected : List ℕ)
    (result : List Disk) (d : Disk)
    → length result < copies
    → found (probe idx) selected ≡ false
    → lookup (probe idx) disks ≡ some d
    → idx < offset
    → place_from probe disks copies (suc fuel) idx selected result
      ≡ place_from probe disks copies fuel
          (idx + 1)
          (selected ++ (probe idx ∷ []))
          (result ++ (d ∷ []))
unfolding place_from
step-new probe disks copies fuel idx selected result d more new disk few =
    let left : ltb (length result) copies ≡ true = ground arith in
    let next : (idx + 1) % 2 ^ 64 ≡ idx + 1 = omega arith in
    rw (left, new, disk, next, place_from) refl

-- The loop ends where there are enough copies.
place_from-done :
    (probe : ℕ → ℕ) (disks : List (ℕ × Disk)) (copies fuel idx : ℕ) (selected ids : List ℕ)
    (result : List Disk)
    → copies ≤ length result
    → (ds : List Disk) × (place_from probe disks copies (suc fuel) idx selected result
        ≡ placed (result ++ ds))
      × IsPlacedOn disks (take (copies - length result) ids) ds
unfolding place_from
place_from-done probe disks copies fuel idx selected ids result enough =
    let done : ltb (length result) copies ≡ false = ground arith in
    let none_left : copies - length result ≡ 0 = omega arith in
    ([], rw (done, place_from) (ap placed (sym (append-nil result))), rw none_left refl)

-- One more copy.
IsPlacedOn-take-suc :
    (disks : List (ℕ × Disk)) (n m p : ℕ) (ids : List ℕ) (d : Disk) (ds : List Disk)
    → n ≡ suc m
    → lookup p disks ≡ some d
    → IsPlacedOn disks (take m ids) ds
    → IsPlacedOn disks (take n (p ∷ ids)) (d ∷ ds)
IsPlacedOn-take-suc disks n m p ids d ds e disk at =
    rw e (ap (λ o. o ∷ map (λ q. lookup q disks) (take m ids)) disk ∙ ap (◌∷◌ (some d)) at)

pub place_from-fresh :
    (probe : ℕ → ℕ) (disks : List (ℕ × Disk)) (copies k fuel idx : ℕ) (selected : List ℕ)
    (result : List Disk)
    → idx + k ≤ offset
    → k < fuel
    → ((i : ℕ) → Has (probe i) (keys disks))
    → copies ≤ length result + length (fresh probe k idx selected)
    → (ds : List Disk) × (place_from probe disks copies fuel idx selected result
        ≡ placed (result ++ ds))
      × IsPlacedOn disks (take (copies - length result) (fresh probe k idx selected)) ds
unfolding place_from fresh
place_from-fresh probe disks copies k zero idx selected result low enough known many =
    absurd (omega arith)
place_from-fresh probe disks copies zero (suc fuel) idx selected result low enough known many =
    place_from-done probe disks copies fuel idx selected [] result (omega arith)
place_from-fresh probe disks copies (suc k) (suc fuel) idx selected result low enough known many =
    elim (Bool-cases (ltb (length result) copies)) [
      | inr done ↦
          place_from-done probe disks copies fuel idx selected (fresh probe (suc k) idx selected)
            result (ground arith)
      | inl more ↦ elim (Bool-cases (found (probe idx) selected)) [
        | inl again ↦
            let (ds, run, at) =
              place_from-fresh probe disks copies k fuel (idx + 1) selected result (omega arith)
                (omega arith) known
                (subst (λ l. copies ≤ length result + length l)
                  (fresh-again probe k idx selected again) many) in
            (
              ds,
              step-again probe disks copies fuel idx selected result (ground arith) again
                    (omega arith)
                  ∙ run,
              subst (λ l. IsPlacedOn disks (take (copies - length result) l) ds)
                  (sym (fresh-again probe k idx selected again)) at,
            )
        | inr new ↦
            let (d, disk) = lookup-Has (probe idx) disks (known idx) in
            let (ds, run, at) =
              place_from-fresh probe disks copies k fuel (idx + 1) (selected ++ (probe idx ∷ []))
                (result ++ (d ∷ [])) (omega arith) (omega arith) known
                (omega (
                  arith,
                  length-append result (d ∷ []),
                  ap length (fresh-new probe k idx selected new),
                  many,
                )) in
            (
              d ∷ ds,
              step-new probe disks copies fuel idx selected result d (ground arith) new disk
                    (omega arith)
                  ∙ run
                  ∙ ap placed (append_assoc result (d ∷ []) ds),
              subst (λ l. IsPlacedOn disks (take (copies - length result) l) (d ∷ ds))
                  (sym (fresh-new probe k idx selected new))
                  (IsPlacedOn-take-suc disks (copies - length result)
                    (copies - length (result ++ (d ∷ []))) (probe idx) _ d ds
                    (ground (arith, length-append result (d ∷ []))) disk at),
            )
      ]
    ]
