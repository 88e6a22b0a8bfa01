-- ===== src/ImprovedMap/Closest.antt =====
-- What `findClosest` of dadisi/ImprovedMap.cpp returns on a map that its constructor built.
use native.Mathlib.Nat.{pow-suc, one-le-pow}
use Prim.Native.Nat.add
use data_distribution_simula.Base.{
  ℕ, zero, suc, ◌+◌, ◌-◌, ◌*◌, ◌/◌, ◌^◌, ◌≤◌, ◌<◌, ◌≡◌, refl, ◌⊎◌, inl, inr, none, some, List, [],
  ◌∷◌, arith, All, Has, IsAscending, All-map, All-Has, Option-cases, Bool-cases, ◌==◌, leb,
  if◌then◌else◌, ap, ◌∙◌, sym, subst, false, ◌≢◌, get_elem?, set,
}
use data_distribution_simula.ImprovedMap.{
  ImprovedMap, word, last_from, closing_key, one_slice, many_slices, wanted_slices, new, closest_in,
  find_closest,
}
use data_distribution_simula.ImprovedMap.Floor.{floor, floor_above, at_or_before-floor}
use data_distribution_simula.ImprovedMap.Slices.{IsReady, target, fill_slices_lem}

-- The stored key that is closest below on the ring: the largest one not above `key`, or the
-- largest of all if every one is above `key`.
abbrev pub IsClosest : List ℕ → ℕ → ℕ → Type 0
IsClosest keys key r =
    Has r keys
    × (((r ≤ key) × All (λ y. y ≤ key → y ≤ r) keys)
        ⊎ (All (λ y. key < y) keys × All (λ y. y ≤ r) keys))

-- What the code relies on of `ceil(log2(n * 1.0))`: it is a shift between 1 and 63.
abbrev pub IsShift : (ℕ → ℕ) → Type 0
IsShift ceil_log2 = (n : ℕ) → 2 ≤ n → n ≤ 2 ^ 63 → (1 ≤ ceil_log2 n) × (ceil_log2 n ≤ 63)

-- The largest element not above `key`.
abbrev IsFloor : List ℕ → ℕ → ℕ → Type 0
IsFloor xs key r = Has r xs × (r ≤ key) × All (λ y. y ≤ key → y ≤ r) xs

floor-eq-none : (xs : List ℕ) (key : ℕ) → floor xs key ≡ none → All (λ y. key < y) xs
unfolding floor
floor-eq-none [] key h = tt
floor-eq-none (x ∷ xs) key h = (ground arith, floor-eq-none xs key (ground arith))

floor-eq-some :
    (xs : List ℕ) (key r : ℕ) → IsAscending xs → floor xs key ≡ some r → IsFloor xs key r
unfolding floor
floor-eq-some [] key r asc h = cc
floor-eq-some (x ∷ xs) key r asc h = elim (Bool-cases (leb x key)) [
  | inr over ↦ absurd (
      let over' : key < x = ground arith in
      let none_left =
        floor_above xs key (All-map (λ y. x < y) (λ y. key < y) xs (λ y lt. omega arith) asc.0) in
      ground arith)
  | inl under ↦ elim (Option-cases (floor xs key)) [
    | inl e ↦
        let found : r ≡ x = ground arith in
        let above = floor-eq-none xs key e in
        (
          inl found,
          ground arith,
          (
            ground arith,
            All-map (λ y. key < y) (λ y. y ≤ key → y ≤ r) xs (λ y lt le. omega arith) above,
          ),
        )
    | inr (q, e) ↦
        let found : r ≡ q = ground arith in
        let (has, le, above) = floor-eq-some xs key q asc.1 e in
        subst (λ t. IsFloor (x ∷ xs) key t) (sym found)
          (inr has, le, (λ le'. omega (arith, below xs q has asc.0), above))
  ]
]
  where
    below : (ys : List ℕ) (q : ℕ) → Has q ys → All (λ y. x < y) ys → x < q
    below ys q has above = All-Has (λ y. x < y) q ys above has

last_from_lem :
    (x : ℕ) (xs : List ℕ)
    → IsAscending (x ∷ xs)
    → Has (last_from x xs) (x ∷ xs) × All (λ y. y ≤ last_from x xs) (x ∷ xs)
unfolding last_from
last_from_lem x [] asc = (inl refl, (omega arith, tt))
last_from_lem x (y ∷ ys) asc =
    let (has, above) = last_from_lem y ys asc.1 in (inr has, (omega arith, above))

pow_mul : (a b : ℕ) → 2 ^ a * 2 ^ b ≡ 2 ^ (a + b)
pow_mul zero b = rw add.zero (omega arith)
pow_mul (suc a) b =
    rw (add.suc, pow-suc 2 a, pow-suc 2 (a + b))
      (omega (arith, ap (λ (t : ℕ). t * 2) (pow_mul a b)))

closest_in-floor :
    (last : ℕ) (set : List ℕ) (key u : ℕ)
    → IsAscending set
    → floor set key ≡ some u
    → closest_in last set key ≡ some (if u == 0 then last else u)
unfolding closest_in floor
closest_in-floor last [] key u asc h = cc
closest_in-floor last (x ∷ xs) key u asc h =
    ground (arith, at_or_before-floor none (x ∷ xs) key asc)

-- What the slice finds, turned into the answer.
closest_in_lem :
    (k : ℕ) (ks set : List ℕ) (key : ℕ)
    → IsAscending (k ∷ ks)
    → IsAscending set
    → floor set key ≡ target (k ∷ ks) none key
    → (r : ℕ) × (closest_in (closing_key k ks) set key ≡ some r) × IsClosest (k ∷ ks) key r
unfolding closing_key
closest_in_lem k ks set key asc asc' reads =
    let last = closing_key k ks in
    elim (Option-cases (floor (k ∷ ks) key)) [
      | inr (u, e) ↦
          let (has, le, above) = floor-eq-some (k ∷ ks) key u asc e in
          let nought : u ≡ 0 → k ≡ 0 = least u has in
          (
            u,
            closest_in-floor last set key u asc' (ground arith) ∙ ground (arith, nought),
            (has, inl (le, above)),
          )
      | inl e ↦
          let (has, above) = last_from_lem k ks asc in
          let over = floor-eq-none (k ∷ ks) key e in
          (
            last_from k ks,
            closest_in-floor last set key 0 asc' (ground arith) ∙ ground arith,
            (has, inr (over, above)),
          )
    ]
  where
    least : (u : ℕ) → Has u (k ∷ ks) → u ≡ 0 → k ≡ 0
    least u (inl e) z = omega arith
    least u (inr t) z = omega (arith, All-Has (λ y. k < y) u ks asc.0 t)

-- A key falls into the slice that its leading bits give.
slice_of :
    (slices size key : ℕ)
    → slices * size ≡ word
    → 0 < size
    → key < word
    → (key / size < slices) × (key / size * size ≤ key) × (key < key / size * size + size)
slice_of slices size key fits pos lt = (grind arith, grind arith, grind arith)

start-IsReady : (size k : ℕ) (ks : List ℕ) → IsAscending (k ∷ ks) → IsReady (0 * size) (k ∷ ks) none
start-IsReady size k ks asc = record { ascending = asc; above = from_nought (k ∷ ks); before = tt }
  where
    from_nought : (xs : List ℕ) → All (λ x. 0 * size ≤ x) xs
    from_nought [] = tt
    from_nought (x ∷ xs) = (omega arith, from_nought xs)

-- The steps of `findClosest`, once the slice is known.
find_closest-eq-some :
    (m : ImprovedMap) (key : ℕ) (set : List ℕ) (r : ℕ)
    → m.bit_shift ≢ 64
    → get_elem? m.keys (key / 2 ^ m.bit_shift) ≡ some set
    → closest_in m.last_key set key ≡ some r
    → find_closest m key ≡ some r
unfolding find_closest
find_closest-eq-some m key set r h at found =
    let many : (m.bit_shift == 64) ≡ false = ground arith in rw (many, find_closest) (rw at found)

wanted_slices_pos : (init k : ℕ) (ks : List ℕ) → 1 ≤ wanted_slices init (k ∷ ks)
unfolding wanted_slices
wanted_slices_pos init k ks = ground arith

module _ (k : ℕ) (ks : List ℕ) (key : ℕ) (asc : IsAscending (k ∷ ks)) where
  -- A map answers with the closest key.
  abbrev Answers : ImprovedMap → Type 0
  Answers m = (r : ℕ) × (find_closest m key ≡ some r) × IsClosest (k ∷ ks) key r

  find_closest-one_slice : Answers (one_slice k ks)
  unfolding one_slice find_closest
  find_closest-one_slice =
      let (set, at, asc', reads) =
        fill_slices_lem 1 (word - 1) 0 (k ∷ ks) none 0 key (omega arith) (omega arith)
          (start-IsReady (word - 1) k ks asc) (omega arith) (omega arith)
          (λ h. absurd (omega arith)) in
      let (r, found, closest) = closest_in_lem k ks set key asc asc' reads in
      (r, ground arith, closest)

  find_closest-many_slices :
      (key_shift : ℕ)
      → 1 ≤ key_shift
      → key_shift ≤ 63
      → key < word
      → Answers (many_slices key_shift k ks)
  unfolding many_slices find_closest
  find_closest-many_slices key_shift lo hi lt =
      let size = 2 ^ (64 - key_shift) in
      let e : key_shift + (64 - key_shift) ≡ 64 = omega arith in
      let fits : 2 ^ key_shift * size ≡ word =
        pow_mul key_shift (64 - key_shift) ∙ ap (λ n. 2 ^ n) e in
      let pos : 0 < size = one-le-pow (64 - key_shift) 2 (omega arith) in
      let (inside, at_start, at_end) = slice_of (2 ^ key_shift) size key fits pos lt in
      let (set, at, asc', reads) =
        fill_slices_lem (2 ^ key_shift) size 0 (k ∷ ks) none (key / size) key (omega arith) pos
          (start-IsReady size k ks asc) inside (omega arith) (λ h. omega arith) in
      let (r, found, closest) = closest_in_lem k ks set key asc asc' reads in
      (
        r,
        find_closest-eq-some (many_slices key_shift k ks) key set r (omega arith) at found,
        closest,
      )

-- A map built from a non-empty set of keys answers every 64-bit value, without an undefined
-- read, with the key that is closest below on the ring: the largest stored key not above the
-- value, or the largest of all if every stored key is above it. The number of slices asked for
-- does not matter, as long as it (or, where it is 0, the number of keys) is at most 2 ^ 63 and
-- the C library's logarithm gives a shift between 1 and 63.
pub find_closest-new :
    (ceil_log2 : ℕ → ℕ) (init k : ℕ) (ks : List ℕ) (key : ℕ)
    → IsShift ceil_log2
    → IsAscending (k ∷ ks)
    → wanted_slices init (k ∷ ks) ≤ 2 ^ 63
    → key < word
    → (m : ImprovedMap) × (new ceil_log2 init (k ∷ ks) ≡ some m)
      × ((r : ℕ) × (find_closest m key ≡ some r) × IsClosest (k ∷ ks) key r)
unfolding new
find_closest-new ceil_log2 init k ks key shift asc small lt =
    let n = wanted_slices init (k ∷ ks) in
    let pos : 1 ≤ n = wanted_slices_pos init k ks in
    elim (Bool-cases (n == 1)) [
      | inl one ↦ (one_slice k ks, rw one, find_closest-one_slice k ks key asc)
      | inr many ↦
          let (lo, hi) = shift n (ground arith) small in
          (
            many_slices (ceil_log2 n) k ks,
            rw many,
            find_closest-many_slices k ks key asc (ceil_log2 n) lo hi lt,
          )
    ]
