-- ===== src/NearestNeighbour/Keys.antt =====
-- Every hash has a disk, of dadisi/DistNearestNeighbour.cpp.
use data_distribution_simula.Base.{
  ℕ, All, Has, IsAscending, zero, suc, inl, inr, List, [], arith, ltb, Bool-cases, Option-cases,
  length, set, All-map, ◌+◌, ◌*◌, ◌%◌, ◌^◌, ◌<◌, ◌≡◌, ◌⊎◌, ◌∷◌, ◌==◌, refl, ap, subst, true, some,
  ◌≤◌, ◌&&◌, ◌∙◌, sym,
}
use data_distribution_simula.Dictionary.{keys, lookup, assign, lookup-Has}
use data_distribution_simula.Disk.{Disk, copy}
use data_distribution_simula.ImprovedMap
use data_distribution_simula.ImprovedMap.{set_insert}
use data_distribution_simula.ImprovedMap.Closest.{IsShift, find_closest-new, IsClosest}
use data_distribution_simula.NearestNeighbour.{
  insert_new, enter, rounds, times, key_set, enter_all, NearestNeighbour, nearest, widen,
  set_disks_multi, Hashes, get_nn_copies,
}

Has-set_insert : (a k : ℕ) (xs : List ℕ) → Has a (set_insert k xs) → (a ≡ k) ⊎ Has a xs
unfolding set_insert
Has-set_insert a k [] h = h
Has-set_insert a k (x ∷ xs) h = elim (Bool-cases (k == x)) [
  | inl same ↦ inr (rw (same, set_insert) at h)
  | inr other ↦ elim (Bool-cases (ltb k x)) [
    | inl less ↦ rw (other, less, set_insert) at h
    | inr more ↦ elim (rw (other, more, set_insert) at h) [
      | inl e ↦ inr (inl e)
      | inr t ↦ elim (Has-set_insert a k xs t) [ inl e ↦ inl e | inr u ↦ inr (inr u) ]
    ]
  ]
]

All-set_insert : (P : ℕ → Type 0) (k : ℕ) (xs : List ℕ) → P k → All P xs → All P (set_insert k xs)
unfolding set_insert
All-set_insert P k [] h hs = (h, tt)
All-set_insert P k (x ∷ xs) h hs = elim (Bool-cases (k == x)) [
  | inl same ↦ rw (same, set_insert) hs
  | inr other ↦ elim (Bool-cases (ltb k x)) [
    | inl less ↦ rw (other, less, set_insert) (h, hs)
    | inr more ↦ rw (other, more, set_insert) (hs.0, All-set_insert P k xs h hs.1)
  ]
]

pub set_insert-IsAscending : (k : ℕ) (xs : List ℕ) → IsAscending xs → IsAscending (set_insert k xs)
unfolding set_insert
set_insert-IsAscending k [] asc = (tt, tt)
set_insert-IsAscending k (x ∷ xs) asc = elim (Bool-cases (k == x)) [
  | inl same ↦ rw (same, set_insert) asc
  | inr other ↦ elim (Bool-cases (ltb k x)) [
    | inl less ↦
        let lt : k < x = ground arith in
        rw (other, less, set_insert)
          ((lt, All-map (λ y. x < y) (λ y. k < y) xs (λ y h. omega (arith, lt, h)) asc.0), asc)
    | inr more ↦
        rw (other, more, set_insert)
          (All-set_insert (λ y. x < y) k xs (ground arith) asc.0, set_insert-IsAscending k xs asc.1)
  ]
]

-- The set of the keys of the table holds these and no others, in ascending order.
key_set-IsAscending :
    (table : List (ℕ × Disk)) (set : List ℕ) → IsAscending set → IsAscending (key_set table set)
unfolding key_set
key_set-IsAscending [] set asc = asc
key_set-IsAscending (e ∷ es) set asc =
    key_set-IsAscending es (set_insert e.0 set) (set_insert-IsAscending e.0 set asc)

Has-key_set :
    (a : ℕ) (table : List (ℕ × Disk)) (set : List ℕ)
    → Has a (key_set table set)
    → Has a (keys table) ⊎ Has a set
unfolding key_set
Has-key_set a [] set h = inr h
Has-key_set a (e ∷ es) set h = elim (Has-key_set a es (set_insert e.0 set) h) [
  | inl t ↦ inl (inr t)
  | inr t ↦ elim (Has-set_insert a e.0 set t) [ inl same ↦ inl (inl same) | inr u ↦ inr u ]
]

set_insert-length : (k : ℕ) (xs : List ℕ) → 0 < length (set_insert k xs)
unfolding set_insert
set_insert-length k [] = omega arith
set_insert-length k (x ∷ xs) = ground arith

key_set-length :
    (table : List (ℕ × Disk)) (set : List ℕ)
    → 0 < length table + length set
    → 0 < length (key_set table set)
unfolding key_set
key_set-length [] set h = omega arith
key_set-length (e ∷ es) set h =
    key_set-length es (set_insert e.0 set) (omega (arith, set_insert-length e.0 set))

-- The table only grows.
assign-length : (k : ℕ) (d : Disk) (table : List (ℕ × Disk)) → 0 < length (assign k d table)
unfolding assign
assign-length k d [] = omega arith
assign-length k d (e ∷ table) = ground arith

insert_new-length : (k : ℕ) (d : Disk) (table : List (ℕ × Disk)) → 0 < length (insert_new k d table)
unfolding insert_new lookup
insert_new-length k d [] = assign-length k d []
insert_new-length k d (e ∷ table) = elim (Option-cases (lookup k (e ∷ table))) [
  | inl new ↦ rw (new, insert_new) (assign-length k d (e ∷ table))
  | inr (other, old) ↦ rw (old, insert_new) (omega arith)
]

enter-length :
    (of_disk : ℕ → ℕ → ℕ) (n i : ℕ) (d : Disk) (table : List (ℕ × Disk))
    → 0 < n + length table
    → 0 < length (enter of_disk n i d table)
unfolding enter
enter-length of_disk zero i d table h = omega arith
enter-length of_disk (suc n) i d table h =
    enter-length of_disk n (i + 1) d (insert_new (of_disk d.id i) d table)
      (omega (arith, insert_new-length (of_disk d.id i) d table))

-- One of the disks gets a key.
abbrev pub HasKeys : ℕ → List (ℕ × ℕ) → List Disk → Type 0
HasKeys nn_copies multiplicity [] = ⊥
HasKeys nn_copies multiplicity (d ∷ ds) =
    ((0 < times d.id multiplicity)
      × (times d.id multiplicity < 2 ^ 31)
      × (0 < rounds (nn_copies * times d.id multiplicity % 2 ^ 32)))
    ⊎ HasKeys nn_copies multiplicity ds

enter_all-grows :
    (of_disk : ℕ → ℕ → ℕ) (nn_copies : ℕ) (m : List (ℕ × ℕ)) (ds kept : List Disk)
    (table : List (ℕ × Disk))
    → 0 < length table
    → 0 < length (enter_all of_disk nn_copies m ds kept table).1
unfolding enter_all
enter_all-grows of_disk nn_copies m [] kept table h = h
enter_all-grows of_disk nn_copies m (d ∷ ds) kept table h =
    elim (Bool-cases (ltb 0 (times d.id m) && ltb (times d.id m) (2 ^ 31))) [
      | inl chosen ↦
          rw (chosen, enter_all)
            (enter_all-grows of_disk nn_copies m ds _ _ (
              enter-length of_disk (rounds (nn_copies * times d.id m % 2 ^ 32)) 0 (copy d) table
                (omega arith)))
      | inr skipped ↦ rw (skipped, enter_all) (enter_all-grows of_disk nn_copies m ds kept table h)
    ]

enter_all-HasKeys :
    (of_disk : ℕ → ℕ → ℕ) (nn_copies : ℕ) (m : List (ℕ × ℕ)) (ds kept : List Disk)
    (table : List (ℕ × Disk))
    → HasKeys nn_copies m ds
    → 0 < length (enter_all of_disk nn_copies m ds kept table).1
unfolding enter_all
enter_all-HasKeys of_disk nn_copies m [] kept table h = absurd h
enter_all-HasKeys of_disk nn_copies m (d ∷ ds) kept table h = elim h [
  | inl (pos, small, some_round) ↦
      let chosen : (ltb 0 (times d.id m) && ltb (times d.id m) (2 ^ 31)) ≡ true = ground arith in
      rw (chosen, enter_all)
        (enter_all-grows of_disk nn_copies m ds _ _ (
          enter-length of_disk (rounds (nn_copies * times d.id m % 2 ^ 32)) 0 (copy d) table
            (omega arith)))
  | inr later ↦ enter_all-HasKeys of_disk nn_copies m ds _ _ later
]

List-cases : (xs : List ℕ) → 0 < length xs → (k : ℕ) × (ks : List ℕ) × (xs ≡ k ∷ ks)
List-cases [] h = absurd (omega arith)
List-cases (k ∷ ks) h = (k, ks, refl)

-- A hash below 2 ^ 64 has a disk in the table.
abbrev pub Answers : NearestNeighbour → Type 0
Answers s = (pos : ℕ) → pos < 2 ^ 64 → (d : Disk) × (nearest s pos ≡ some d)

nearest-eq-some :
    (s : NearestNeighbour) (finder : ImprovedMap.ImprovedMap) (pos key : ℕ) (d : Disk)
    → s.key_finder ≡ some finder
    → ImprovedMap.find_closest finder pos ≡ some key
    → lookup key s.disk_distribution ≡ some d
    → nearest s pos ≡ some d
unfolding nearest
nearest-eq-some s finder pos key d built found at = rw (built, nearest, found) at

wanted_slices_le :
    (n k : ℕ) (ks : List ℕ)
    → 0 < n
    → n < 2 ^ 31
    → ImprovedMap.wanted_slices (widen n) (k ∷ ks) ≤ 2 ^ 63
unfolding ImprovedMap.wanted_slices widen
wanted_slices_le n k ks pos small = ground arith

unsome : (m m' : ImprovedMap.ImprovedMap) → some m ≡ some m' → m ≡ m'
unsome m m' h = cc

-- The key that is found has a disk.
key_answers :
    (finder : ImprovedMap.ImprovedMap) (table : List (ℕ × Disk)) (pos key : ℕ) (keys_of : List ℕ)
    → keys_of ≡ key_set table []
    → ImprovedMap.find_closest finder pos ≡ some key
    → IsClosest keys_of pos key
    → (key : ℕ) × (d : Disk) × (ImprovedMap.find_closest finder pos ≡ some key)
      × (lookup key table ≡ some d)
key_answers finder table pos key keys_of same found closest =
    let (d, at) =
      elim (Has-key_set key table [] (subst (Has key) same closest.0))
        as (λ h. (v : Disk) × (lookup key table ≡ some v)) [
          | inl h ↦ lookup-Has key table h
          | inr h ↦ absurd h
        ] in
    (key, d, found, at)

-- The map over the keys of a table that is not empty gives, for each hash, a key of the table.
finder_answers :
    (ceil_log2 : ℕ → ℕ) (n : ℕ) (table : List (ℕ × Disk))
    → IsShift ceil_log2
    → 0 < n
    → n < 2 ^ 31
    → 0 < length table
    → (finder : ImprovedMap.ImprovedMap) × (ImprovedMap.new ceil_log2 (widen n) (key_set table [])
        ≡ some finder)
      × ((pos : ℕ)
          → pos < 2 ^ 64
          → (key : ℕ) × (d : Disk) × (ImprovedMap.find_closest finder pos ≡ some key)
            × (lookup key table ≡ some d))
finder_answers ceil_log2 n table shift pos small full =
    let (k, ks, split) = List-cases (key_set table []) (key_set-length table [] (omega arith)) in
    let asc : IsAscending (k ∷ ks) = subst IsAscending split (key_set-IsAscending table [] tt) in
    let answers = find_closest-new ceil_log2 (widen n) k ks in
    let (finder, built, first) =
      answers 0 shift asc (wanted_slices_le n k ks pos small) (omega arith) in
    (
      finder,
      ap (ImprovedMap.new ceil_log2 (widen n)) split ∙ built,
      λ at lt.
          let (other, built', (key, found, closest)) =
            answers at shift asc (wanted_slices_le n k ks pos small) lt in
          let same : other ≡ finder = unsome other finder (sym built' ∙ built) in
          key_answers finder table at key (k ∷ ks) (sym split)
            (subst (λ m. ImprovedMap.find_closest m at ≡ some key) same found) closest,
    )

-- Where the number of keys of a disk is positive and below 2 ^ 31, some disk gets a key, and the C
-- library's logarithm gives a shift between 1 and 63, `setDisksMulti` does not fault, and afterwards every hash below 2 ^ 64 has a disk in the table: the search does not fault,
-- and the key that it finds is one of the table.
pub set_disks_multi-Answers :
    (h : Hashes) (s : NearestNeighbour) (ds : List Disk) (multiplicity : List (ℕ × ℕ))
    → IsShift h.ceil_log2
    → 0 < get_nn_copies h.ceil_log2 s ds
    → get_nn_copies h.ceil_log2 s ds < 2 ^ 31
    → HasKeys (get_nn_copies h.ceil_log2 s ds) multiplicity ds
    → (s' : NearestNeighbour) × (set_disks_multi h s ds multiplicity ≡ some s') × Answers s'
unfolding set_disks_multi
set_disks_multi-Answers h s ds multiplicity shift pos small some_key =
    let n = get_nn_copies h.ceil_log2 s ds in
    let entered = enter_all h.of_disk n multiplicity ds [] [] in
    let (finder, built, answers) =
      finder_answers h.ceil_log2 n entered.1 shift pos small
        (enter_all-HasKeys h.of_disk n multiplicity ds [] [] some_key) in
    (
      record s {
        nn_copies = n;
        disks = some entered.0;
        disk_distribution = entered.1;
        keys = set_insert 0 (key_set entered.1 []);
        key_finder = some finder;
      },
      rw (set_disks_multi, built) refl,
      λ at lt.
          let (key, d, found, stored) = answers at lt in
          (d, nearest-eq-some _ finder at key d refl found stored),
    )
