-- ===== src/ImprovedMap/Slices.antt =====
-- What the slices built by the constructor of dadisi/ImprovedMap.cpp hold.
use data_distribution_simula.Base.{
  ℕ, zero, suc, ◌+◌, ◌*◌, ◌%◌, ◌≤◌, ◌<◌, ◌≡◌, refl, Bool, true, false, ◌&&◌, Option, none, some,
  List, [], ◌∷◌, ltb, leb, Bool-cases, arith, All, IsAscending, inl, inr, All-map, get_elem?, ap,
  ◌∙◌, set,
}
use data_distribution_simula.ImprovedMap.{
  word, set_insert, fill, slice_head, fill_slice, fill_slices,
}
use data_distribution_simula.ImprovedMap.Floor.{later, floor, Precedes, fill-floor, fill-rest}

-- The last key placed, if any, is in front of `start`.
abbrev pub Before : ℕ → Option ℕ → Type 0
Before start none = Unit
Before start (some p) = p < start

-- What holds of the keys left and of `previousKey` where a slice starts.
pub record IsReady (start : ℕ) (rest : List ℕ) (previous : Option ℕ) : Type 0 where
  pub ascending : IsAscending rest
  pub above : All (λ x. start ≤ x) rest
  pub before : Before start previous

-- What the slice of `key` has to find: the closest key, or 0.
abbrev pub target : List ℕ → Option ℕ → ℕ → Option ℕ
target rest previous key = later (later (floor rest key) previous) (some 0)

slice_head_lem :
    (start : ℕ) (rest : List ℕ) (previous : Option ℕ) (key : ℕ)
    → IsReady start rest previous
    → start ≤ key
    → IsAscending (slice_head start rest previous)
      × Precedes (slice_head start rest previous) rest
      × (later (floor rest key) (floor (slice_head start rest previous) key)
          ≡ target rest previous key)
unfolding slice_head floor
slice_head_lem start [] none key r le = (ground arith, tt, ground arith)
slice_head_lem start [] (some p) key r le = (ground arith, tt, ground arith)
slice_head_lem start (k ∷ ks) none key r le = elim (Bool-cases (ltb start k)) [
  | inl e ↦ rw e ((tt, tt), (ground arith, tt), ground arith)
  | inr e ↦ rw e (tt, tt, ground arith)
]
slice_head_lem start (k ∷ ks) (some p) key r le = elim (Bool-cases (ltb start k)) [
  | inl e ↦ rw e ((tt, tt), (ground arith, tt), ground arith)
  | inr e ↦ rw e (tt, tt, ground arith)
]

-- The test of the inner loop of every slice but the last.
abbrev in_slice : ℕ → ℕ → ℕ → Bool
in_slice start finish k = leb start k && ltb k finish

fill-IsReady :
    (start finish : ℕ) (set rest : List ℕ) (previous : Option ℕ)
    → IsAscending rest
    → All (λ x. start ≤ x) rest
    → Before finish previous
    → IsReady finish
        (fill (in_slice start finish) set rest previous).rest
        (fill (in_slice start finish) set rest previous).previous
unfolding fill
fill-IsReady start finish set [] previous asc above before = record {
  ascending = tt;
  above = tt;
  before = before;
}
fill-IsReady start finish set (k ∷ ks) previous asc above before =
    elim (Bool-cases (in_slice start finish k)) [
      | inl e ↦
          rw e
            (fill-IsReady start finish (set_insert k set) ks (some k) asc.1 above.1 (ground arith))
      | inr e ↦
          let over : finish ≤ k = ground arith in
          rw e (record {
            ascending = asc;
            above = (over, All-map (λ y. k < y) (λ y. finish ≤ y) ks (λ y lt. omega arith) asc.0);
            before = before;
          })
    ]

Before-le : (a b : ℕ) (o : Option ℕ) → a ≤ b → Before a o → Before b o
Before-le a b none le h = tt
Before-le a b (some p) le h = omega arith

module _ (size slice : ℕ) (rest : List ℕ) (previous : Option ℕ)
    (r : IsReady (slice * size) rest previous) where
  -- The last slice takes all the keys that are left.
  fill_slice-last :
      (key : ℕ)
      → slice * size < word
      → slice * size ≤ key
      → IsAscending (fill_slice true size slice rest previous).slice_set
        × (floor (fill_slice true size slice rest previous).slice_set key
            ≡ target rest previous key)
  unfolding fill_slice
  fill_slice-last key fits lo =
      let e : slice * size % word ≡ slice * size = omega arith in
      let (asc, pre, reads) = slice_head_lem (slice * size) rest previous key r lo in
      let (asc', reads') =
        fill-floor (λ _. true) key _ rest previous asc r.ascending pre
          (All-map (λ x. slice * size ≤ x) (λ x. x ≤ key → true ≡ true) rest (λ x le h. refl)
            r.above) in
      rw e (asc', reads' ∙ reads)

  module _ (fits : slice * size + size < word) (pos : 0 < size) where
    -- Any other slice takes those below its end.
    fill_slice-inner :
        (key : ℕ)
        → slice * size ≤ key
        → key < slice * size + size
        → IsAscending (fill_slice false size slice rest previous).slice_set
          × (floor (fill_slice false size slice rest previous).slice_set key
              ≡ target rest previous key)
    unfolding fill_slice
    fill_slice-inner key lo hi =
        let e : slice * size % word ≡ slice * size = omega arith in
        let e' : (slice * size + size) % word ≡ slice * size + size = omega arith in
        let (asc, pre, reads) = slice_head_lem (slice * size) rest previous key r lo in
        let (asc', reads') =
          fill-floor (in_slice (slice * size) (slice * size + size)) key _ rest previous asc
            r.ascending pre
            (All-map (λ x. slice * size ≤ x) _ rest (λ x le h. ground arith) r.above) in
        rw (e, e') (asc', reads' ∙ reads)

    fill_slice-IsReady :
        IsReady
          (suc slice * size)
          (fill_slice false size slice rest previous).rest
          (fill_slice false size slice rest previous).previous
    unfolding fill_slice
    fill_slice-IsReady =
        let e : slice * size % word ≡ slice * size = omega arith in
        let e' : (slice * size + size) % word ≡ slice * size + size = omega arith in
        let e'' : suc slice * size ≡ slice * size + size = omega arith in
        rw (e, e', e'')
          (fill-IsReady _ _ _ rest previous r.ascending r.above
            (Before-le (slice * size) _ previous (omega arith) r.before))

    -- A later key reads the same from what is left.
    fill_slice-target :
        (key : ℕ)
        → slice * size + size ≤ key
        → target
            (fill_slice false size slice rest previous).rest
            (fill_slice false size slice rest previous).previous
            key
          ≡ target rest previous key
    unfolding fill_slice
    fill_slice-target key lo =
        let e : slice * size % word ≡ slice * size = omega arith in
        let e' : (slice * size + size) % word ≡ slice * size + size = omega arith in
        rw (e, e')
          (ap (λ o. later o (some 0))
            (fill-rest (in_slice (slice * size) (slice * size + size)) key _ rest previous
              (All-map (λ x. slice * size ≤ x) _ rest (λ x le h. ground arith) r.above)))

-- The slice that a key falls into finds the closest key, or 0.
pub fill_slices_lem :
    (n size slice : ℕ) (rest : List ℕ) (previous : Option ℕ) (j key : ℕ)
    → (slice + n) * size ≤ word
    → 0 < size
    → IsReady (slice * size) rest previous
    → j < n
    → (slice + j) * size ≤ key
    → (suc j < n → key < (slice + j) * size + size)
    → (set : List ℕ) × (get_elem? (fill_slices n size slice rest previous) j ≡ some set)
      × IsAscending set
      × (floor set key ≡ target rest previous key)
unfolding fill_slices
fill_slices_lem zero size slice rest previous j key fits pos r lt lo hi = absurd (omega arith)
fill_slices_lem (suc zero) size slice rest previous zero key fits pos r lt lo hi =
    let (asc, reads) = fill_slice-last size slice rest previous r key (omega arith) (omega arith) in
    (_, refl, asc, reads)
fill_slices_lem (suc zero) size slice rest previous (suc j) key fits pos r lt lo hi =
    absurd (omega arith)
fill_slices_lem (suc (suc n)) size slice rest previous zero key fits pos r lt lo hi =
    let room : slice * size + size < word = grind arith in
    let (asc, reads) =
      fill_slice-inner size slice rest previous r room pos key (omega arith) (omega arith) in
    (_, refl, asc, reads)
fill_slices_lem (suc (suc n)) size slice rest previous (suc j) key fits pos r lt lo hi =
    let room : slice * size + size < word = grind arith in
    let later_key : slice * size + size ≤ key = grind arith in
    let f = fill_slice false size slice rest previous in
    let (set, at, asc, reads) =
      fill_slices_lem (suc n) size (suc slice) f.rest f.previous j key (omega arith) pos
        (fill_slice-IsReady size slice rest previous r room pos) (omega arith) (omega arith)
        (λ h. omega arith) in
    (set, at, asc, reads ∙ fill_slice-target size slice rest previous r room pos key later_key)
