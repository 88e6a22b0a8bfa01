-- ===== src/Redundant/Placement.antt =====
-- The search of `placeExtent` of dadisi/DistRedundantShare.cpp for the disk of each copy.
use native.Mathlib.Decide.{dec_lt}
use data_distribution_simula.Base.{
  ℕ, zero, suc, refl, Option, some, List, [], arith, length, get_elem?, All, ◌+◌, ◌≤◌, ◌<◌, ◌≡◌,
  ◌∷◌, ap, get_elem?-lt, inl, inr, ltb, ltb→lt, Bool-cases, Option-cases, subst, some-injective,
  ==_iff, ◌==◌, ◌∙◌, ◌^◌, IsAscending, All-map, get_elem?-map,
}
use data_distribution_simula.Redundant.{
  max_unit64, value_at, RedundantShare, seek, first_value, place_copy, place_from, Disk,
}
use data_distribution_simula.Redundant.Disks.{RsDisk}
use data_distribution_simula.Redundant.Caches.{IsCached}
use data_distribution_simula.Rushr.Extent.{Picks}
use data_distribution_simula.Redundant.Order.{disks_of}

-- A value that a disk at the index `i` of `n` disks is tried with for `t + 1` copies: the greatest
-- hash where there are no more disks than copies left.
abbrev IsTried : ℕ → ℕ → ℕ → Option ℕ → Type 0
IsTried n i t value = (v : ℕ) × (value ≡ some v) × (n ≤ suc t + i → max_unit64 ≤ v)

-- The tables have the values that a search can read, where `t + 1` copies have at least as many disks
-- left.
pub record IsServing {Q : Type 0} (this : RedundantShare Q) : Type 0 where
  pub few : this.copies ≤ length this.disks
  pub value :
      (i t : ℕ)
      → t < this.copies
      → suc t + i ≤ length this.disks
      → IsTried (length this.disks) i t (value_at this.hash_values i t)
  pub first :
      (i t : ℕ) (d : RsDisk Q)
      → get_elem? this.disks i ≡ some d
      → t < this.copies
      → suc t + i ≤ length this.disks
      → IsTried (length this.disks) i t (first_value this d i t)

-- The numbers of the tables: where just as many disks are left as copies, a value is the greatest hash,
-- and a disk has at least as many disks behind it as the copies for which its share is corrected.
pub record IsTight {Q : Type 0} (this : RedundantShare Q) : Type 0 where
  pub last :
      (i t v : ℕ)
      → t < this.copies
      → suc t + i ≡ length this.disks
      → value_at this.hash_values i t ≡ some v
      → max_unit64 ≤ v
  pub behind :
      (i k : ℕ) (d : RsDisk Q)
      → get_elem? this.disks i ≡ some d
      → d.k_error ≡ some (suc k)
      → suc k + i < length this.disks

All-get_elem?_of_disks :
    {Q : Type 0} (P : RsDisk Q → Type 0) (ds : List (RsDisk Q)) (i : ℕ) (d : RsDisk Q)
    → All P ds
    → get_elem? ds i ≡ some d
    → P d
All-get_elem?_of_disks P [] i d all h = absurd (cc)
All-get_elem?_of_disks P (x ∷ ds) zero d all h = subst P (some-injective h) all.0
All-get_elem?_of_disks P (x ∷ ds) (suc i) d all h = All-get_elem?_of_disks P ds i d all.1 h

module _ {Q : Type 0} (this : RedundantShare Q) (tight : IsTight this)
    (few : this.copies ≤ length this.disks)
    (rows : (i t : ℕ)
      → i < length this.disks
      → t < this.copies
      → (v : ℕ) × (value_at this.hash_values i t ≡ some v))
    (cached : All (IsCached this.error_values) this.disks) where
  value-IsTried :
      (i t : ℕ)
      → t < this.copies
      → suc t + i ≤ length this.disks
      → IsTried (length this.disks) i t (value_at this.hash_values i t)
  value-IsTried i t some_copy le =
      let (v, found) = rows i t (omega arith) some_copy in
      (v, found, λ h. tight.last i t v some_copy (omega arith) found)

  -- Full tables with such numbers serve every search.
  pub IsTight-IsServing : IsServing this
  unfolding first_value
  IsTight-IsServing = record {
    few = few;
    value = value-IsTried;
    first = λ i t d at some_copy le. elim (Option-cases d.k_error) [
      | inl e ↦ rw e (value-IsTried i t some_copy le)
      | inr (k, e) ↦ elim (Bool-cases (k == suc t)) [
        | inr other ↦ rw (e, other) (value-IsTried i t some_copy le)
        | inl same ↦
            let error : d.k_error ≡ some (suc t) = e ∙ ap some ((==_iff k (suc t)).0 same) in
            let (v, holds) =
              All-get_elem?_of_disks (IsCached this.error_values) this.disks i d cached at t
                error in
            (
              v,
              rw (e, same, holds) refl,
              λ h. absurd (let behind = tight.behind i t d at error in omega arith),
            )
      ]
    ];
  }

module _ {Q : Type 0} (this : RedundantShare Q) (ready : IsServing this) (dice : ℕ → RsDisk Q → ℕ)
    (small : (i : ℕ) (d : RsDisk Q) → dice i d < 2 ^ 64) where
  abbrev n : ℕ
  n = length this.disks

  -- A value that is too small leaves a disk behind.
  tried-next :
      (i t v : ℕ) (d : RsDisk Q)
      → (n ≤ suc t + i → max_unit64 ≤ v)
      → v < dice i d
      → suc t + suc i ≤ n
  tried-next i t v d last h = elim (dec_lt (suc t + i) n) [
    | yes lt ↦ omega arith
    | no ge ↦ absurd (omega (arith, last (omega arith), small i d, h))
  ]

  -- The search ends at a disk behind which there is one for each copy that is left.
  seek-ends :
      (fuel t i value : ℕ) (d : RsDisk Q)
      → t < this.copies
      → n ≤ fuel + i
      → suc t + i ≤ n
      → (value < dice i d → suc t + suc i ≤ n)
      → (j : ℕ) × (seek this dice fuel t i d value ≡ some j) × (i ≤ j) × (suc t + j ≤ n)
  unfolding seek
  seek-ends zero t i value d few enough le next = absurd (omega arith)
  seek-ends (suc fuel) t i value d few enough le next = elim (Bool-cases (ltb value (dice i d))) [
    | inr stop ↦ (i, rw stop refl, omega arith, le)
    | inl go ↦
        let room : suc t + suc i ≤ n = next (ltb→lt _ _ go) in
        let e : i + 1 ≡ suc i = omega arith in
        let (d', at) = get_elem?-lt this.disks (suc i) (omega arith) in
        let (v, found, last) = ready.value (suc i) t few room in
        let (j, ends, le', room') =
          seek-ends fuel t (suc i) v d' few (omega arith) room (tried-next (suc i) t v d' last) in
        (j, rw (go, e, at, found) ends, omega arith, room')
  ]

  -- So does the choice for one copy.
  place_copy-ends :
      (t i : ℕ)
      → t < this.copies
      → suc t + i ≤ n
      → (j : ℕ) × (place_copy this dice t i ≡ some j) × (i ≤ j) × (suc t + j ≤ n)
  unfolding place_copy
  place_copy-ends t i few le =
      let (d, at) = get_elem?-lt this.disks i (omega arith) in
      let (v, first, last) = ready.first i t d at few le in
      let (j, ends, after, room) =
        seek-ends n t i v d few (omega arith) le (tried-next i t v d last) in
      (j, rw (at, first) ends, after, room)

  -- The disks of the copies stand behind one another.
  pub place_from-Picks :
      (t i : ℕ)
      → t ≤ this.copies
      → t + i ≤ n
      → (servers : List ℕ) × (placed : List Disk) × (place_from this dice t i ≡ some placed)
        × (length placed ≡ t)
        × (length servers ≡ t)
        × All (λ s. i ≤ s) servers
        × IsAscending servers
        × Picks (disks_of this.disks) servers placed
  unfolding place_from
  place_from-Picks zero i few le = ([], [], refl, refl, refl, tt, tt, refl)
  place_from-Picks (suc t) i few le =
      let (j, ends, after, room) = place_copy-ends t i (omega arith) le in
      let (d, at) = get_elem?-lt this.disks j (omega arith) in
      let (servers, placed, run, len, len', behind, ascending, picks) =
        place_from-Picks t (suc j) (omega arith) (omega arith) in
      let next : j + 1 ≡ suc j = omega arith in
      (
        j ∷ servers,
        d.disk ∷ placed,
        rw (ends, at, next, run) refl,
        ap suc len,
        ap suc len',
        (after, All-map (λ s. suc j ≤ s) (λ s. i ≤ s) servers (λ s h. omega arith) behind),
        (behind, ascending),
        rw (get_elem?-map this.disks j (λ d. d.disk) at, picks) refl,
      )
