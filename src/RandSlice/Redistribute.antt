-- ===== src/RandSlice/Redistribute.antt =====
-- Moving blocks from the old partitions to the new ones: `redistribute` of
-- dadisi/DistRandSlice.cpp.
--
-- The tree is given by its leaves and is not written before the free space is known; the calls of
-- `insert_front` are returned, with what is left of the free space.
use data_distribution_simula.Base.{
  IsUnique, ℕ, Bool, Option, none, some, List, refl, sym, subst, inl, inr, [], arith, ==_iff,
  Bool-cases, Has, ◌-◌, ◌^◌, ◌≤◌, ◌<◌, ◌≡◌, ◌∷◌, ◌==◌, if◌then◌else◌, true, false, All,
}
use data_distribution_simula.Dictionary.{keys, lookup, lookup-Has, Has-keys_of_lookup}
use data_distribution_simula.RandSlice.Collect.{
  Interval, Collected, collect_free_space, collect_free_space_even_odd,
}
use data_distribution_simula.RandSlice.Collect.Laws.{
  total, blocks, IsSpaced, owned, Collects, IsLeaves, IsKnown, collect_free_space-Collects,
}
use data_distribution_simula.RandSlice.Reuse.{Insertion, reuse_free_space, reuse_free_space_sort}
use data_distribution_simula.RandSlice.Reuse.Sorted.{reuse_free_space_sort-Reuses}
use data_distribution_simula.RandSlice.Collect.EvenOdd.{collect_free_space_even_odd-Collects}
use data_distribution_simula.RandSlice.Reuse.Laws.{
  cover, ranges, received, due, IsFree, Reuses, reuse_free_space-Reuses,
}

-- `redistribute`, with the flags `m_use_even_odd_collection` and `m_use_sorted_assimilation`.
unfoldable pub redistribute :
    Bool
    → Bool
    → List (ℕ × ℕ)
    → List (ℕ × ℕ)
    → List (ℕ × ℕ)
    → Option (List Interval × List Insertion)
unfolding collect_free_space collect_free_space_even_odd reuse_free_space reuse_free_space_sort
redistribute even_odd sorted leaves old_partitions new_partitions =
    elim (if even_odd
      then collect_free_space_even_odd leaves old_partitions
      else collect_free_space leaves old_partitions) [
        | none ↦ none
        | some c ↦ some (
            if sorted
            then reuse_free_space_sort c.free new_partitions
            else reuse_free_space c.free new_partitions)
      ]

total-eq-zero :
    (m : List (ℕ × ℕ)) → IsUnique (keys m) → ((q n : ℕ) → lookup q m ≡ some n → n ≡ 0) → total m ≡ 0
unfolding lookup
total-eq-zero [] u h = refl
total-eq-zero ((j, w) ∷ m) (new, u) h =
    let here : w ≡ 0 = h j w (ground arith) in
    let rest = total-eq-zero m u (λ q n e. elim (Bool-cases (j == q)) [
      | inl same ↦ absurd (
          new
            (subst (λ k. Has k (keys m)) (sym ((==_iff j q).0 same)) (Has-keys_of_lookup q m n e)))
      | inr other ↦ h q n (rw (other, lookup) e)
    ]) in
    omega (arith, here, rest)

-- If each partition owns what is needed of it, nothing is needed after collecting.
needed-eq-zero :
    (low pid : ℕ) (leaves needed : List (ℕ × ℕ)) (c : Collected)
    → IsUnique (keys needed)
    → ((q n : ℕ) → lookup q needed ≡ some n → n ≤ owned q low pid leaves)
    → Collects low low pid leaves (record { needed = needed; free = [] }) c
    → total c.needed ≡ 0
needed-eq-zero low pid leaves needed c u enough r =
    total-eq-zero c.needed (subst IsUnique (sym r.same_keys) u) (λ q n e.
      let (v, before) =
        lookup-Has q needed (subst (Has q) r.same_keys (Has-keys_of_lookup q c.needed n e)) in
      let after = r.lessened q v before in let le = enough q v before in ground arith)

-- Intervals that are apart are well formed, and no block is in two of them.
IsFree-of_IsSpaced :
    (from : ℕ) (free : List Interval)
    → IsSpaced from (2 ^ 64 - 1) free
    → IsFree free × (from < 2 ^ 64)
IsFree-of_IsSpaced from [] s = (tt, omega arith)
IsFree-of_IsSpaced from (e ∷ es) (le, lt, s) =
    let (rest, below) = IsFree-of_IsSpaced e.1 es s in (((omega arith, below), rest), omega arith)

cover_le_one :
    (from limit x : ℕ) (free : List Interval)
    → IsSpaced from limit free
    → (cover x free ≤ 1) × (x < from → cover x free ≡ 0)
unfolding cover
cover_le_one from limit x [] s = (omega arith, λ h. refl)
cover_le_one from limit x (e ∷ es) (le, lt, s) =
    let (one, zero_below) = cover_le_one e.1 limit x es s in (ground arith, λ h. ground arith)

-- What redistributing promises: each new partition is given as many blocks as it is due, no block
-- is given twice, no free space is left.
pub record Redistributes (ps : List (ℕ × ℕ)) (r : List Interval × List Insertion) : Type 0 where
  pub given : (q : ℕ) → received q r.1 ≡ due q ps
  pub apart : (x : ℕ) → cover x (ranges r.1) ≤ 1
  pub used : blocks r.0 ≡ 0

Reuses-Redistributes :
    (low pid : ℕ) (leaves needed ps : List (ℕ × ℕ)) (c : Collected)
    (r : List Interval × List Insertion)
    → IsUnique (keys needed)
    → ((q n : ℕ) → lookup q needed ≡ some n → n ≤ owned q low pid leaves)
    → total needed ≡ total ps
    → Collects low low pid leaves (record { needed = needed; free = [] }) c
    → Reuses c.free ps r
    → Redistributes ps r
Reuses-Redistributes low pid leaves needed ps c r u enough balanced collects reuses = record {
  given = reuses.given;
  apart =
      λ x. omega (arith, reuses.kept x, (cover_le_one low (2 ^ 64 - 1) x c.free collects.spaced).0);
  used = omega (
    arith,
    reuses.size,
    collects.conserved,
    balanced,
    needed-eq-zero low pid leaves needed c u enough collects,
  );
}

-- Either way of collecting.
collect-Collects :
    (even_odd : Bool) (low pid : ℕ) (leaves needed : List (ℕ × ℕ))
    → IsLeaves low leaves
    → IsKnown needed pid leaves
    → (c : Collected) × ((if even_odd
          then collect_free_space_even_odd ((low, pid) ∷ leaves) needed
          else collect_free_space ((low, pid) ∷ leaves) needed)
        ≡ some c)
      × Collects low low pid leaves (record { needed = needed; free = [] }) c
collect-Collects true low pid leaves needed asc known =
    collect_free_space_even_odd-Collects low pid leaves needed asc known
collect-Collects false low pid leaves needed asc known =
    collect_free_space-Collects low pid leaves needed asc known

-- Either way of giving.
reuse-Reuses :
    (sorted : Bool) (free : List Interval) (ps : List (ℕ × ℕ))
    → IsFree free
    → All (λ p. p.1 < 2 ^ 64) ps
    → total ps ≤ blocks free
    → Reuses free ps (if sorted then reuse_free_space_sort free ps else reuse_free_space free ps)
reuse-Reuses true free ps f bounds enough = reuse_free_space_sort-Reuses free ps f bounds enough
reuse-Reuses false free ps f bounds enough = reuse_free_space-Reuses free ps f bounds enough

-- With any of the flags, on a tree whose leaves ascend, where each old partition has one entry and
-- owns what is taken from it, and as much is taken as is due in all
-- (with each number below 2 ^ 64): `redistribute` does not fault,
-- each new partition is given as many blocks as it is due, no block is given twice, and all the
-- free space is used.
pub redistribute-Redistributes :
    (even_odd sorted : Bool) (low pid : ℕ) (leaves needed ps : List (ℕ × ℕ))
    → IsLeaves low leaves
    → IsKnown needed pid leaves
    → IsUnique (keys needed)
    → ((q n : ℕ) → lookup q needed ≡ some n → n ≤ owned q low pid leaves)
    → All (λ p. p.1 < 2 ^ 64) ps
    → total needed ≡ total ps
    → (r : List Interval × List Insertion) × (redistribute even_odd sorted
          ((low, pid) ∷ leaves)
          needed
          ps
        ≡ some r)
      × Redistributes ps r
unfolding redistribute
redistribute-Redistributes even_odd sorted low pid leaves needed ps asc known u enough bounds
      balanced =
    let (c, run, collects) = collect-Collects even_odd low pid leaves needed asc known in
    let less : total ps ≤ blocks c.free = omega (
      arith,
      collects.conserved,
      balanced,
      needed-eq-zero low pid leaves needed c u enough collects,
    ) in
    let reuses =
      reuse-Reuses sorted c.free ps (IsFree-of_IsSpaced low c.free collects.spaced).0 bounds less in
    (
      if sorted then reuse_free_space_sort c.free ps else reuse_free_space c.free ps,
      rw (redistribute, run),
      Reuses-Redistributes low pid leaves needed ps c _ u enough balanced collects reuses,
    )
