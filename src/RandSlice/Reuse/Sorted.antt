-- ===== src/RandSlice/Reuse/Sorted.antt =====
-- Sorting the free intervals and the new partitions first, of dadisi/DistRandSlice.cpp.
use data_distribution_simula.Base.{
  ℕ, All, refl, sym, ap, inl, inr, Bool, List, [], arith, ltb, leb, Bool-cases, ◌+◌, ◌-◌, ◌^◌, ◌≤◌,
  ◌<◌, ◌≡◌, ◌&&◌, ◌∷◌, ◌==◌, ◌∙◌, if◌then◌else◌,
}
use data_distribution_simula.RandSlice.Collect.{Interval}
use data_distribution_simula.RandSlice.Collect.Laws.{blocks, total}
use data_distribution_simula.RandSlice.Reuse.{
  insert, sort, cmp_free_intervals, cmp_partitions, reuse_free_space_sort,
}
use data_distribution_simula.RandSlice.Reuse.Laws.{
  cover, due, IsFree, Reuses, reuse_free_space-Reuses,
}

-- A sum over a list does not see its order.
sum : (Interval → ℕ) → List Interval → ℕ
sum f [] = 0
sum f (x ∷ xs) = f x + sum f xs

sum-insert :
    (f : Interval → ℕ) (before : Interval → Interval → Bool) (x : Interval) (xs : List Interval)
    → sum f (insert before x xs) ≡ f x + sum f xs
unfolding insert sum
sum-insert f before x [] = refl
sum-insert f before x (y ∷ ys) = elim (Bool-cases (before y x)) [
  | inl e ↦ rw (e, insert) (omega (arith, sum-insert f before x ys))
  | inr e ↦ rw (e, insert) refl
]

sum-sort :
    (f : Interval → ℕ) (before : Interval → Interval → Bool) (xs : List Interval)
    → sum f (sort before xs) ≡ sum f xs
unfolding sort sum
sum-sort f before [] = refl
sum-sort f before (x ∷ xs) =
    sum-insert f before x (sort before xs) ∙ ap (◌+◌ (f x)) (sum-sort f before xs)

All-insert :
    (P : Interval → Type 0) (before : Interval → Interval → Bool) (x : Interval)
    (xs : List Interval)
    → P x
    → All P xs
    → All P (insert before x xs)
unfolding insert
All-insert P before x [] h hs = (h, tt)
All-insert P before x (y ∷ ys) h hs = elim (Bool-cases (before y x)) [
  | inl e ↦ rw (e, insert) (hs.0, All-insert P before x ys h hs.1)
  | inr e ↦ rw (e, insert) (h, hs)
]

All-sort :
    (P : Interval → Type 0) (before : Interval → Interval → Bool) (xs : List Interval)
    → All P xs
    → All P (sort before xs)
unfolding sort
All-sort P before [] h = tt
All-sort P before (x ∷ xs) h = All-insert P before x (sort before xs) h.0 (All-sort P before xs h.1)

blocks-eq-sum : (free : List Interval) → blocks free ≡ sum (λ e. e.1 - e.0) free
unfolding sum
blocks-eq-sum [] = refl
blocks-eq-sum (e ∷ es) = ap (◌+◌ (e.1 - e.0)) (blocks-eq-sum es)

total-eq-sum : (ps : List (ℕ × ℕ)) → total ps ≡ sum (λ e. e.1) ps
unfolding sum
total-eq-sum [] = refl
total-eq-sum (e ∷ es) = ap (◌+◌ e.1) (total-eq-sum es)

cover-eq-sum :
    (x : ℕ) (free : List Interval)
    → cover x free ≡ sum (λ e. if leb e.0 x && ltb x e.1 then 1 else 0) free
unfolding sum cover
cover-eq-sum x [] = refl
cover-eq-sum x (e ∷ es) = ap (◌+◌ (if leb e.0 x && ltb x e.1 then 1 else 0)) (cover-eq-sum x es)

due-eq-sum : (q : ℕ) (ps : List (ℕ × ℕ)) → due q ps ≡ sum (λ e. if e.0 == q then e.1 else 0) ps
unfolding sum due
due-eq-sum q [] = refl
due-eq-sum q (e ∷ es) = ap (◌+◌ (if e.0 == q then e.1 else 0)) (due-eq-sum q es)

blocks-sort :
    (before : Interval → Interval → Bool) (free : List Interval)
    → blocks (sort before free) ≡ blocks free
blocks-sort before free =
    blocks-eq-sum (sort before free) ∙ sum-sort _ before free ∙ sym (blocks-eq-sum free)

total-sort : (before : ℕ × ℕ → ℕ × ℕ → Bool) (ps : List (ℕ × ℕ)) → total (sort before ps) ≡ total ps
total-sort before ps = total-eq-sum (sort before ps) ∙ sum-sort _ before ps ∙ sym (total-eq-sum ps)

cover-sort :
    (x : ℕ) (before : Interval → Interval → Bool) (free : List Interval)
    → cover x (sort before free) ≡ cover x free
cover-sort x before free =
    cover-eq-sum x (sort before free) ∙ sum-sort _ before free ∙ sym (cover-eq-sum x free)

due-sort :
    (q : ℕ) (before : ℕ × ℕ → ℕ × ℕ → Bool) (ps : List (ℕ × ℕ)) → due q (sort before ps) ≡ due q ps
due-sort q before ps = due-eq-sum q (sort before ps) ∙ sum-sort _ before ps ∙ sym (due-eq-sum q ps)

-- `reuse_free_space_sort` promises the same of the free space and the partitions as they were given.
pub reuse_free_space_sort-Reuses :
    (free : List Interval) (ps : List (ℕ × ℕ))
    → IsFree free
    → All (λ p. p.1 < 2 ^ 64) ps
    → total ps ≤ blocks free
    → Reuses free ps (reuse_free_space_sort free ps)
unfolding reuse_free_space_sort
reuse_free_space_sort-Reuses free ps f bounds enough =
    let r =
      reuse_free_space-Reuses (sort cmp_free_intervals free) (sort cmp_partitions ps)
        (All-sort _ cmp_free_intervals free f) (All-sort _ cmp_partitions ps bounds)
        (omega (arith, blocks-sort cmp_free_intervals free, total-sort cmp_partitions ps)) in
    record {
      kept = λ x. sym (cover-sort x cmp_free_intervals free) ∙ r.kept x;
      given = λ q. r.given q ∙ due-sort q cmp_partitions ps;
      size =
          omega (arith, r.size, blocks-sort cmp_free_intervals free, total-sort cmp_partitions ps);
    }
