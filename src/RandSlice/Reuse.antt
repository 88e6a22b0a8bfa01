-- ===== src/RandSlice/Reuse.antt =====
-- Giving the free space to the new partitions: `reuse_free_space` and `reuse_free_space_sort` of
-- dadisi/DistRandSlice.cpp.
--
-- The calls of `insert_front` on the interval tree are returned, in their order.
pub mod Laws
pub mod Sorted
use data_distribution_simula.Base.{
  ℕ, Bool, true, false, List, [], ltb, ◌∷◌, ◌++◌, ◌==◌, if◌then◌else◌,
}
use data_distribution_simula.Word.{add64, sub64}
use data_distribution_simula.RandSlice.Collect.{Interval}

-- A call `insert_front(first, second, pid)`: the partition, and the two ends.
abbrev pub Insertion : Type 0
Insertion = ℕ × Interval

pub record Assimilated : Type 0 where
  pub free : List Interval
  pub calls : List Insertion
  -- `psize` after the loop
  pub missing : ℕ

-- Adds what the loop did with the interval at hand to what it does with those that follow.
unfoldable pub resume : Interval → List Insertion → Assimilated → Assimilated
resume e calls a = record { free = e ∷ a.free; calls = calls ++ a.calls; missing = a.missing }

-- The inner loop, over the free intervals, for one partition.
unfoldable pub assimilate : ℕ → ℕ → List Interval → Assimilated
unfolding resume
assimilate pid psize [] = record { free = []; calls = []; missing = psize }
assimilate pid psize (e ∷ es) =
    let isize = sub64 e.1 e.0 in
    elim (psize == 0) [
      | true ↦ record { free = e ∷ es; calls = []; missing = psize }
      | false ↦ elim (isize == 0) [
        | true ↦ resume e [] (assimilate pid psize es)
        | false ↦ elim (ltb psize isize) [
          | true ↦ record {
            free = (add64 e.0 psize, e.1) ∷ es;
            calls = (pid, (e.0, add64 e.0 psize)) ∷ [];
            missing = 0;
          }
          | false ↦ resume (0, 0) ((pid, e) ∷ []) (assimilate pid (sub64 psize isize) es)
        ]
      ]
    ]

-- The loop over the new partitions.
unfoldable pub reuse_free_space : List Interval → List (ℕ × ℕ) → List Interval × List Insertion
unfolding assimilate
reuse_free_space free [] = (free, [])
reuse_free_space free ((pid, psize) ∷ ps) =
    let a = assimilate pid psize free in let r = reuse_free_space a.free ps in (r.0, a.calls ++ r.1)

-- `std::list::sort` with a comparison: stable, so `x` goes in front of the first that is not
-- before it.
unfoldable pub insert : (Interval → Interval → Bool) → Interval → List Interval → List Interval
insert before x [] = x ∷ []
insert before x (y ∷ ys) = if before y x then y ∷ insert before x ys else x ∷ y ∷ ys

unfoldable pub sort : (Interval → Interval → Bool) → List Interval → List Interval
unfolding insert
sort before [] = []
sort before (x ∷ xs) = insert before x (sort before xs)

unfoldable pub cmp_free_intervals : Interval → Interval → Bool
cmp_free_intervals a b = ltb (sub64 b.1 b.0) (sub64 a.1 a.0)

unfoldable pub cmp_partitions : ℕ × ℕ → ℕ × ℕ → Bool
cmp_partitions a b = ltb b.1 a.1

-- The intervals and the partitions by decreasing size, and the same loop.
unfoldable pub reuse_free_space_sort : List Interval → List (ℕ × ℕ) → List Interval × List Insertion
unfolding sort cmp_free_intervals cmp_partitions reuse_free_space
reuse_free_space_sort free ps =
    reuse_free_space (sort cmp_free_intervals free) (sort cmp_partitions ps)
