-- ===== src/ImprovedMap/Floor.antt =====
-- The largest element of an ascending list that is not above a key, and what `lower_bound` with
-- the step back finds, `set_insert` and the loops over the keys of dadisi/ImprovedMap.cpp.
use data_distribution_simula.Base.{
  ℕ, ◌≤◌, ◌<◌, ◌≡◌, refl, Bool, true, Option, none, some, List, [], ◌∷◌, ◌++◌, leb, if◌then◌else◌,
  Bool-cases, ap, arith, All, IsAscending, inl, inr, All-map, set,
}
use data_distribution_simula.ImprovedMap.{set_insert, fill, at_or_before}

-- The later of two results.
abbrev pub later : Option ℕ → Option ℕ → Option ℕ
later (some a) b = some a
later none b = b

unfoldable pub floor : List ℕ → ℕ → Option ℕ
floor [] key = none
floor (x ∷ xs) key = if leb x key then later (floor xs key) (some x) else floor xs key

pub floor_above : (xs : List ℕ) (key : ℕ) → All (λ y. key < y) xs → floor xs key ≡ none
unfolding floor
floor_above [] key h = refl
floor_above (x ∷ xs) key h = ground (arith, floor_above xs key h.1)

pub at_or_before-floor :
    (before : Option ℕ) (xs : List ℕ) (key : ℕ)
    → IsAscending xs
    → at_or_before before xs key ≡ later (floor xs key) before
unfolding at_or_before floor
at_or_before-floor before [] key h = refl
at_or_before-floor before (x ∷ xs) key h =
    let above : key ≤ x → floor xs key ≡ none =
      λ le. floor_above xs key (All-map (λ y. x < y) (λ y. key < y) xs (λ y lt. omega arith) h.0) in
    ground (arith, at_or_before-floor (some x) xs key h.1, above)

-- Every element of the first list is below every element of the second.
abbrev pub Precedes : List ℕ → List ℕ → Type 0
Precedes xs [] = Unit
Precedes xs (k ∷ ks) = All (λ x. x < k) xs

-- An element above all others goes to the end.
pub set_insert-eq-append :
    (k : ℕ) (xs : List ℕ) → All (λ x. x < k) xs → set_insert k xs ≡ xs ++ (k ∷ [])
unfolding set_insert
set_insert-eq-append k [] h = refl
set_insert-eq-append k (x ∷ xs) h = ground (arith, set_insert-eq-append k xs h.1)

pub All-append_one {κ} :
    (P : ℕ → Type κ) (k : ℕ) (xs : List ℕ) → All P xs → P k → All P (xs ++ (k ∷ []))
All-append_one P k [] h p = (p, tt)
All-append_one P k (x ∷ xs) h p = (h.0, All-append_one P k xs h.1 p)

pub append_one-IsAscending :
    (k : ℕ) (xs : List ℕ) → IsAscending xs → All (λ x. x < k) xs → IsAscending (xs ++ (k ∷ []))
append_one-IsAscending k [] asc h = (tt, tt)
append_one-IsAscending k (x ∷ xs) asc h =
    (All-append_one (λ y. x < y) k xs asc.0 h.0, append_one-IsAscending k xs asc.1 h.1)

floor-append_gt :
    (k : ℕ) (xs : List ℕ) (key : ℕ) → key < k → floor (xs ++ (k ∷ [])) key ≡ floor xs key
unfolding floor
floor-append_gt k [] key lt = ground arith
floor-append_gt k (x ∷ xs) key lt = ground (arith, floor-append_gt k xs key lt)

floor-append_le :
    (k : ℕ) (xs : List ℕ) (key : ℕ)
    → k ≤ key
    → All (λ x. x < k) xs
    → floor (xs ++ (k ∷ [])) key ≡ some k
unfolding floor
floor-append_le k [] key le h = ground arith
floor-append_le k (x ∷ xs) key le h = ground (arith, floor-append_le k xs key le h.1)

append_one-Precedes :
    (k : ℕ) (xs ks : List ℕ)
    → All (λ x. x < k) xs
    → All (λ y. k < y) ks
    → Precedes (xs ++ (k ∷ [])) ks
append_one-Precedes k xs [] h above = tt
append_one-Precedes k xs (y ∷ ys) h above =
    All-append_one (λ x. x < y) k xs (All-map (λ x. x < k) (λ x. x < y) xs (λ x lt. omega arith) h)
      above.0

-- What a `while` loop over the keys leaves: `key` is any value at which the slice will be asked.
module _ (test : ℕ → Bool) (key : ℕ) where
  -- The slice reads as its old contents and the keys, if those up to `key` all pass the test.
  pub fill-floor :
      (set rest : List ℕ) (previous : Option ℕ)
      → IsAscending set
      → IsAscending rest
      → Precedes set rest
      → All (λ x. x ≤ key → test x ≡ true) rest
      → IsAscending (fill test set rest previous).slice_set
        × (floor (fill test set rest previous).slice_set key
            ≡ later (floor rest key) (floor set key))
  unfolding fill floor
  fill-floor set [] previous asc asc' pre h = (asc, refl)
  fill-floor set (k ∷ ks) previous asc asc' pre h = elim (Bool-cases (test k)) [
    | inl e ↦
        let same = set_insert-eq-append k set pre in
        let (sorted, reads) =
          fill-floor (set_insert k set) ks (some k) (rw same (append_one-IsAscending k set asc pre))
            asc'.1 (rw same (append_one-Precedes k set ks pre asc'.0)) h.1 in
        rw e (
          sorted,
          ground (
            arith,
            reads,
            ap (λ s. floor s key) same,
            floor-append_le k set key,
            floor-append_gt k set key,
          ),
        )
    | inr e ↦
        let above : key < k = ground arith in
        let none_left =
          floor_above ks key
            (All-map (λ y. k < y) (λ y. key < y) ks (λ y lt. omega arith) asc'.0) in
        rw e (asc, ground arith)
  ]

  -- The keys left and the last one placed read as before, if only keys up to `key` pass the test.
  pub fill-rest :
      (set rest : List ℕ) (previous : Option ℕ)
      → All (λ x. test x ≡ true → x ≤ key) rest
      → later (floor (fill test set rest previous).rest key) (fill test set rest previous).previous
        ≡ later (floor rest key) previous
  unfolding fill floor
  fill-rest set [] previous h = refl
  fill-rest set (k ∷ ks) previous h =
      ground (arith, fill-rest (set_insert k set) ks (some k) h.1, h.0)
