-- ===== src/ImprovedMap.antt =====
-- The map from a hash value to the closest stored key below it on the ring of 64-bit values:
-- the class `ImprovedMap` of dadisi/ImprovedMap.cpp.
--
-- A `std::set<uint64_t>` is the ascending list of its elements, and an iterator into it the list
-- that is left to visit. What C++ leaves undefined (a read through `end()`, a step back from
-- `begin()`, an index out of the array of slices) is `none`.
pub mod Floor
mod Slices
pub mod Closest
use data_distribution_simula.Base.{
  ℕ, zero, suc, ◌+◌, ◌-◌, ◌*◌, ◌/◌, ◌%◌, ◌^◌, Bool, true, false, ◌&&◌, Option, none, some, List, [],
  ◌∷◌, length, get_elem?, ltb, leb, ◌==◌, if◌then◌else◌, set,
}

-- 2 ^ 64, the modulus of `uint64_t`
abbrev pub word : ℕ
word = 2 ^ 64

pub record ImprovedMap : Type 0 where
  pub bit_shift : ℕ
  pub slices : ℕ
  pub keys : List (List ℕ)
  pub last_key : ℕ

-- `std::set::insert`
unfoldable pub set_insert : ℕ → List ℕ → List ℕ
set_insert k [] = k ∷ []
set_insert k (x ∷ xs) =
    if k == x then x ∷ xs else if ltb k x then k ∷ x ∷ xs else x ∷ set_insert k xs

-- `*set.rbegin()`, of a set that begins with `x`
unfoldable pub last_from : ℕ → List ℕ → ℕ
last_from x [] = x
last_from x (y ∷ ys) = last_from y ys

-- What the loops over the keys carry: the set of the slice at hand, the keys from `key` on, and
-- `previousKey`, which is read only once `firstPlaced` is true.
pub record Filling : Type 0 where
  pub slice_set : List ℕ
  pub rest : List ℕ
  pub previous : Option ℕ

-- The `while` loops: keys go into the slice as long as they pass the test.
unfoldable pub fill : (ℕ → Bool) → List ℕ → List ℕ → Option ℕ → Filling
unfolding set_insert
fill test set [] previous = record { slice_set = set; rest = []; previous = previous }
fill test set (k ∷ ks) previous =
    let more = fill test (set_insert k set) ks (some k) in
    if test k then more else record { slice_set = set; rest = k ∷ ks; previous = previous }

-- What a slice holds before its keys: the key before it (0 if there is none), unless a key stands
-- exactly at its start.
unfoldable pub slice_head : ℕ → List ℕ → Option ℕ → List ℕ
slice_head start [] none = 0 ∷ []
slice_head start [] (some p) = p ∷ []
slice_head start (k ∷ ks) none = if ltb start k then 0 ∷ [] else []
slice_head start (k ∷ ks) (some p) = if ltb start k then p ∷ [] else []

-- The body of the `for` loop; `last` tells the last slice.
unfoldable pub fill_slice : Bool → ℕ → ℕ → List ℕ → Option ℕ → Filling
unfolding fill slice_head
fill_slice last slice_size slice rest previous =
    let start = slice * slice_size % word in
    let finish = (start + slice_size) % word in
    let head = slice_head start rest previous in
    if last
    then fill (λ _. true) head rest previous
    else fill (λ k. leb start k && ltb k finish) head rest previous

-- The `for` loop, with `n` slices left, from `slice` on. The last one is `slice == slices - 1`.
unfoldable pub fill_slices : ℕ → ℕ → ℕ → List ℕ → Option ℕ → List (List ℕ)
unfolding fill_slice
fill_slices zero slice_size slice rest previous = []
fill_slices (suc zero) slice_size slice rest previous =
    (fill_slice true slice_size slice rest previous).slice_set ∷ []
fill_slices (suc (suc n)) slice_size slice rest previous =
    let f = fill_slice false slice_size slice rest previous in
    f.slice_set ∷ fill_slices (suc n) slice_size (suc slice) f.rest f.previous

-- `lastKey`: the ring has only to be closed if there is no key 0.
unfoldable pub closing_key : ℕ → List ℕ → ℕ
unfolding last_from
closing_key k ks = if k == 0 then 0 else last_from k ks

-- The two cases of the constructor, at the keys `k ∷ ks`: one slice, or a power of two.
unfoldable pub one_slice : ℕ → List ℕ → ImprovedMap
unfolding fill_slices closing_key
one_slice k ks = record {
  bit_shift = 64;
  slices = 1;
  keys = fill_slices 1 (word - 1) 0 (k ∷ ks) none;
  last_key = closing_key k ks;
}

unfoldable pub many_slices : ℕ → ℕ → List ℕ → ImprovedMap
unfolding fill_slices closing_key
many_slices key_shift k ks = record {
  bit_shift = 64 - key_shift;
  slices = 2 ^ key_shift;
  keys = fill_slices (2 ^ key_shift) (2 ^ (64 - key_shift)) 0 (k ∷ ks) none;
  last_key = closing_key k ks;
}

-- `initSlices`, corrected where it is 0.
unfoldable pub wanted_slices : ℕ → List ℕ → ℕ
wanted_slices init_slices init_keys =
    if init_slices == 0 then if length init_keys == 0 then 1 else length init_keys else init_slices

-- The constructor. An empty set of keys is read through its `end()`. `ceil(log2(n * 1.0))`, which
-- the C library computes, is a parameter.
unfoldable pub new : (ℕ → ℕ) → ℕ → List ℕ → Option ImprovedMap
unfolding wanted_slices one_slice many_slices
new ceil_log2 init_slices [] = none
new ceil_log2 init_slices (k ∷ ks) =
    let n = wanted_slices init_slices (k ∷ ks) in
    some (if n == 1 then one_slice k ks else many_slices (ceil_log2 n) k ks)

-- `lower_bound(key)`, then the step back if it is past the end or above the key. `before` is the
-- element in front of the iterator.
unfoldable pub at_or_before : Option ℕ → List ℕ → ℕ → Option ℕ
at_or_before before [] key = before
at_or_before before (x ∷ xs) key =
    let further = at_or_before (some x) xs key in
    if ltb x key then further else if x == key then some x else before

-- What `findClosest` does with the set of the key's slice.
unfoldable pub closest_in : ℕ → List ℕ → ℕ → Option ℕ
unfolding at_or_before
closest_in last_key [] key = some last_key
closest_in last_key (x ∷ xs) key = elim (at_or_before none (x ∷ xs) key) [
  | none ↦ none
  | some up ↦ some (if up == 0 then last_key else up)
]

-- `findClosest`
unfoldable pub find_closest : ImprovedMap → ℕ → Option ℕ
unfolding closest_in
find_closest m key =
    let slice_key = if m.bit_shift == 64 then 0 else key / 2 ^ m.bit_shift in
    elim (get_elem? m.keys slice_key) [
      | none ↦ none
      | some slice_set ↦ closest_in m.last_key slice_set key
    ]
