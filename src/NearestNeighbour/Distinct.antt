-- ===== src/NearestNeighbour/Distinct.antt =====
-- The copies of an extent lie on different disks, of dadisi/DistNearestNeighbour.cpp.
use mathlib.Core.List.{append-nil, append_assoc}
use data_distribution_simula.Base.{
  ℕ, zero, suc, refl, sym, ap, inl, inr, true, false, Option, some, List, [], arith, ltb,
  Bool-cases, length, length-append, take, ◌+◌, ◌-◌, ◌%◌, ◌^◌, ◌≤◌, ◌<◌, ◌≡◌, ◌∷◌, ◌++◌, ◌∙◌,
  if◌then◌else◌, map, length-take, All, Has, All-map, All-Has, ◌==◌, IsUnique,
}
use data_distribution_simula.Disk.{Disk}
use data_distribution_simula.NearestNeighbour.Keys.{Answers}
use data_distribution_simula.NearestNeighbour.{
  placed, holds, place_from, Hashes, place_extent, NearestNeighbour, nearest,
}

-- The disks of the next `k` probes that are new: those whose ids are not met before.
unfoldable pub fresh : (ℕ → Disk) → ℕ → ℕ → List Disk → List Disk
unfolding holds
fresh probe zero i result = []
fresh probe (suc k) i result =
    if holds (probe i).id result
    then fresh probe k (i + 1) result
    else probe i ∷ fresh probe k (i + 1) (result ++ (probe i ∷ []))

place_from-done :
    (probe : ℕ → Option Disk) (copies fuel i : ℕ) (result ds : List Disk)
    → copies ≤ length result
    → place_from probe copies (suc fuel) i result
      ≡ placed (result ++ take (copies - length result) ds)
unfolding place_from
place_from-done probe copies fuel i result ds enough =
    let done : ltb (length result) copies ≡ false = ground arith in
    let none_left : copies - length result ≡ 0 = omega arith in
    rw (done, none_left, place_from) (ap placed (sym (append-nil result)))

step-again :
    (probe : ℕ → Option Disk) (copies fuel i : ℕ) (result : List Disk) (d : Disk)
    → length result < copies
    → i < 2 ^ 63
    → probe i ≡ some d
    → holds d.id result ≡ true
    → place_from probe copies (suc fuel) i result ≡ place_from probe copies fuel (i + 1) result
unfolding place_from
step-again probe copies fuel i result d more low at again =
    let left : ltb (length result) copies ≡ true = ground arith in
    let next : (i + 1) % 2 ^ 64 ≡ i + 1 = omega arith in rw (left, at, again, next, place_from) refl

step-new :
    (probe : ℕ → Option Disk) (copies fuel i : ℕ) (result : List Disk) (d : Disk)
    → length result < copies
    → i < 2 ^ 63
    → probe i ≡ some d
    → holds d.id result ≡ false
    → place_from probe copies (suc fuel) i result
      ≡ place_from probe copies fuel (i + 1) (result ++ (d ∷ []))
unfolding place_from
step-new probe copies fuel i result d more low at new =
    let left : ltb (length result) copies ≡ true = ground arith in
    let next : (i + 1) % 2 ^ 64 ≡ i + 1 = omega arith in rw (left, at, new, next, place_from) refl

fresh-again :
    (probe : ℕ → Disk) (k i : ℕ) (result : List Disk)
    → holds (probe i).id result ≡ true
    → fresh probe (suc k) i result ≡ fresh probe k (i + 1) result
unfolding fresh
fresh-again probe k i result h = rw (h, fresh) refl

fresh-new :
    (probe : ℕ → Disk) (k i : ℕ) (result : List Disk)
    → holds (probe i).id result ≡ false
    → fresh probe (suc k) i result ≡ probe i ∷ fresh probe k (i + 1) (result ++ (probe i ∷ []))
unfolding fresh
fresh-new probe k i result h = rw (h, fresh) refl

take-append_one :
    (copies : ℕ) (result : List Disk) (d : Disk) (ds : List Disk)
    → length result < copies
    → result ++ take (copies - length result) (d ∷ ds)
      ≡ (result ++ (d ∷ [])) ++ take (copies - length (result ++ (d ∷ []))) ds
take-append_one copies result d ds more =
    let e : copies - length result ≡ suc (copies - length (result ++ (d ∷ []))) =
      omega (arith, length-append result (d ∷ [])) in
    ap (λ n. result ++ take n (d ∷ ds)) e ∙ sym (append_assoc result (d ∷ []) _)

-- The loop gives the new disks of the probes, as many as are asked for.
place_from-fresh :
    (find : ℕ → Option Disk) (probe : ℕ → Disk) (copies k fuel i : ℕ) (result : List Disk)
    → i + k < 2 ^ 63
    → k < fuel
    → ((j : ℕ) → find j ≡ some (probe j))
    → copies ≤ length result + length (fresh probe k i result)
    → place_from find copies fuel i result
      ≡ placed (result ++ take (copies - length result) (fresh probe k i result))
unfolding fresh
place_from-fresh find probe copies k zero i result low enough known many = absurd (omega arith)
place_from-fresh find probe copies zero (suc fuel) i result low enough known many =
    place_from-done find copies fuel i result [] (omega arith)
place_from-fresh find probe copies (suc k) (suc fuel) i result low enough known many =
    elim (Bool-cases (ltb (length result) copies)) [
      | inr done ↦
          place_from-done find copies fuel i result (fresh probe (suc k) i result) (ground arith)
      | inl more ↦ elim (Bool-cases (holds (probe i).id result)) [
        | inl again ↦
            let same = fresh-again probe k i result again in
            step-again find copies fuel i result (probe i) (ground arith) (omega arith) (known i)
              again
            ∙ place_from-fresh find probe copies k fuel (i + 1) result (omega arith) (omega arith)
                known (omega (arith, ap length same, many))
            ∙ ap (λ l. placed (result ++ take (copies - length result) l)) (sym same)
        | inr new ↦
            let same = fresh-new probe k i result new in
            step-new find copies fuel i result (probe i) (ground arith) (omega arith) (known i) new
            ∙ place_from-fresh find probe copies k fuel (i + 1) (result ++ (probe i ∷ []))
                (omega arith) (omega arith) known
                (omega (arith, length-append result (probe i ∷ []), ap length same, many))
            ∙ ap placed (sym (take-append_one copies result (probe i) _ (ground arith)))
            ∙ ap (λ l. placed (result ++ take (copies - length result) l)) (sym same)
      ]
    ]

-- The ids of the new disks differ.
holds-append_one :
    (id : ℕ) (d : Disk) (ds : List Disk)
    → holds id (ds ++ (d ∷ [])) ≡ false
    → (holds id ds ≡ false) × ((id == d.id) ≡ false)
unfolding holds
holds-append_one id d [] h = ground arith
holds-append_one id d (e ∷ ds) h = ground (arith, holds-append_one id d ds)

abbrev pub ids : List Disk → List ℕ
ids = map (λ d. d.id)

fresh-ids :
    (probe : ℕ → Disk) (k i : ℕ) (result : List Disk)
    → All (λ id. holds id result ≡ false) (ids (fresh probe k i result))
      × IsUnique (ids (fresh probe k i result))
unfolding fresh
fresh-ids probe zero i result = (tt, tt)
fresh-ids probe (suc k) i result = elim (Bool-cases (holds (probe i).id result)) [
  | inl again ↦ rw (again, fresh) (fresh-ids probe k (i + 1) result)
  | inr new ↦
      let (others, apart) = fresh-ids probe k (i + 1) (result ++ (probe i ∷ [])) in
      rw (new, fresh)
        (
          (new, All-map _ _ _ (λ id h. (holds-append_one id (probe i) result h).0) others),
          (
            (λ h.
                let twice =
                  (holds-append_one (probe i).id (probe i) result
                    (All-Has _ (probe i).id _ others h)).1 in
                absurd (ground arith)),
            apart,
          ),
        )
]

Has-ids-take : (n a : ℕ) (ds : List Disk) → Has a (ids (take n ds)) → Has a (ids ds)
Has-ids-take zero a ds h = absurd h
Has-ids-take (suc n) a [] h = absurd h
Has-ids-take (suc n) a (d ∷ ds) h = elim h [ inl e ↦ inl e | inr t ↦ inr (Has-ids-take n a ds t) ]

IsUnique-ids-take : (n : ℕ) (ds : List Disk) → IsUnique (ids ds) → IsUnique (ids (take n ds))
IsUnique-ids-take zero ds u = tt
IsUnique-ids-take (suc n) [] u = tt
IsUnique-ids-take (suc n) (d ∷ ds) u =
    (λ h. u.0 (Has-ids-take n d.id ds h), IsUnique-ids-take n ds u.1)

-- What `placeExtent` gives: the first `copies` disks with different ids that the probes meet.
pub record IsNearest (probe : ℕ → Disk) (copies k : ℕ) (result : List Disk) : Type 0 where
  pub chosen : result ≡ take copies (fresh probe k 0 [])
  pub apart : IsUnique (ids result)
  pub enough : length result ≡ copies

-- The loop, for probes that do not fault, of which the first `k` meet enough ids.
pub place_from-IsNearest :
    (find : ℕ → Option Disk) (probe : ℕ → Disk) (copies k fuel : ℕ)
    → ((j : ℕ) → find j ≡ some (probe j))
    → k < 2 ^ 63
    → k < fuel
    → copies ≤ length (fresh probe k 0 [])
    → (result : List Disk) × (place_from find copies fuel 0 [] ≡ placed result)
      × IsNearest probe copies k result
place_from-IsNearest find probe copies k fuel known small enough many =
    let all : copies - 0 ≡ copies = omega arith in
    (
      take copies (fresh probe k 0 []),
      place_from-fresh find probe copies k fuel 0 [] (omega arith) enough known
            (omega (arith, many))
          ∙ ap (λ n. placed (take n (fresh probe k 0 []))) all,
      record {
        chosen = refl;
        apart = IsUnique-ids-take copies (fresh probe k 0 []) (fresh-ids probe k 0 []).1;
        enough = length-take copies (fresh probe k 0 []) ∙ omega (arith, many);
      },
    )

-- One probe meets one id.
pub fresh-one : (probe : ℕ → Disk) → length (fresh probe 1 0 []) ≡ 1
unfolding fresh
fresh-one probe = refl

-- The disk that the table gives for a hash below 2 ^ 64.
abbrev pub probe_of :
    (h : Hashes) (s : NearestNeighbour) (volume position : ℕ)
    → Answers s
    → ((i : ℕ) → h.of_copy volume position i < 2 ^ 64)
    → ℕ
    → Disk
probe_of h s volume position answers lt i = (answers (h.of_copy volume position i) (lt i)).0

-- Where every hash below 2 ^ 64 has a disk, the hashes are below 2 ^ 64, `k` is below 2 ^ 63, and
-- the first `k` probes meet at least `copies` different ids, more
-- than `k` rounds are enough for `placeExtent`: it gives exactly `copies` disks, the first with
-- different ids in the order of the probes.
pub place_extent-IsNearest :
    (h : Hashes) (s : NearestNeighbour) (volume position k fuel : ℕ) (answers : Answers s)
    (lt : (i : ℕ) → h.of_copy volume position i < 2 ^ 64)
    → k < 2 ^ 63
    → k < fuel
    → s.copies ≤ length (fresh (probe_of h s volume position answers lt) k 0 [])
    → (result : List Disk) × (place_extent h s fuel volume position ≡ placed result)
      × IsNearest (probe_of h s volume position answers lt) s.copies k result
unfolding place_extent
place_extent-IsNearest h s volume position k fuel answers lt small enough many =
    place_from-IsNearest (λ i. nearest s (h.of_copy volume position i))
      (probe_of h s volume position answers lt) s.copies k fuel
      (λ j. (answers (h.of_copy volume position j) (lt j)).1) small enough many
