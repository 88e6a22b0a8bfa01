-- ===== src/RandSlice/Collect.antt =====
-- Shrinking the partitions: `collect_free_space` and `collect_free_space_even_odd` of
-- dadisi/DistRandSlice.cpp.
--
-- The interval tree is visited leaf by leaf: a leaf is the start of an interval and the partition
-- that it belongs to, and the last leaf only marks the end of the space. An interval of free space
-- is its two ends. `none` is a read through `end()`: an empty tree, or an unknown partition.
pub mod Laws
pub mod EvenOdd
use data_distribution_simula.Base.{
  ℕ, Bool, true, false, not, Option, none, some, List, [], ltb, ◌&&◌, ◌∷◌, ◌++◌, ◌==◌,
  if◌then◌else◌,
}
use data_distribution_simula.Dictionary.{lookup, assign}
use data_distribution_simula.Word.{add64, sub64}

abbrev pub Interval : Type 0
Interval = ℕ × ℕ

-- The blocks still to take from each partition, and the free space found.
pub record Collected : Type 0 where
  pub needed : List (ℕ × ℕ)
  pub free : List Interval

-- Adds the interval, as an extension of the last one where they touch.
unfoldable pub extend : ℕ → ℕ → List Interval → List Interval
extend low high [] = (low, high) ∷ []
extend low high (e ∷ []) = if e.1 == low then (e.0, high) ∷ [] else e ∷ (low, high) ∷ []
extend low high (e ∷ f ∷ es) = e ∷ extend low high (f ∷ es)

-- One interval of the partition `pid`: the whole of it is taken, or as much as is still needed.
unfoldable pub collect_one : ℕ → ℕ → ℕ → Collected → Option Collected
unfolding lookup assign extend
collect_one low high pid c =
    let size = sub64 high low in
    elim (lookup pid c.needed) [
      | none ↦ none
      | some wanted ↦ some (
          if wanted == 0
          then c
          else if ltb size wanted
          then record {
            needed = assign pid (sub64 wanted size) c.needed;
            free = extend low high c.free;
          }
          else record {
            needed = assign pid (sub64 wanted wanted) c.needed;
            free = extend low (add64 low wanted) c.free;
          })
    ]

-- The loop over the leaves, with the start and the partition of the interval at hand.
unfoldable pub collect_from : ℕ → ℕ → List (ℕ × ℕ) → Collected → Option Collected
unfolding collect_one
collect_from low pid [] c = some c
collect_from low pid ((key, v) ∷ leaves) c = elim (key == low) [
  | true ↦ collect_from low pid leaves c
  | false ↦ elim (collect_one low key pid c) [
    | none ↦ none
    | some c' ↦ collect_from key v leaves c'
  ]
]

unfoldable pub collect_free_space : List (ℕ × ℕ) → List (ℕ × ℕ) → Option Collected
unfolding collect_from
collect_free_space [] needed = none
collect_free_space ((key, v) ∷ leaves) needed =
    collect_from key v ((key, v) ∷ leaves) (record { needed = needed; free = [] })

-- The variant takes every other partial interval from its upper end.
pub record Alternating : Type 0 where
  pub collected : Collected
  pub last_was_complete : Bool
  pub even : Bool

-- `free_space.empty() || free_space.back().second != low`
unfoldable pub starts_anew : ℕ → List Interval → Bool
starts_anew low [] = true
starts_anew low (e ∷ []) = not (e.1 == low)
starts_anew low (e ∷ f ∷ es) = starts_anew low (f ∷ es)

unfoldable pub collect_alternating : ℕ → ℕ → ℕ → Alternating → Option Alternating
unfolding lookup assign extend starts_anew
collect_alternating low high pid a =
    let size = sub64 high low in
    let c = a.collected in
    elim (lookup pid c.needed) [
      | none ↦ none
      | some wanted ↦ some (
          if wanted == 0
          then a
          else if ltb size wanted
          then record {
            collected = record {
              needed = assign pid (sub64 wanted size) c.needed;
              free = extend low high c.free;
            };
            last_was_complete = true;
            even = if a.last_was_complete then false else a.even;
          }
          else record {
            collected = record {
              needed = assign pid (sub64 wanted wanted) c.needed;
              free =
                  if starts_anew low c.free && a.even
                  then c.free ++ ((sub64 high wanted, high) ∷ [])
                  else extend low (add64 low wanted) c.free;
            };
            last_was_complete = false;
            even = not a.even;
          })
    ]

unfoldable pub collect_alternating_from : ℕ → ℕ → List (ℕ × ℕ) → Alternating → Option Alternating
unfolding collect_alternating
collect_alternating_from low pid [] a = some a
collect_alternating_from low pid ((key, v) ∷ leaves) a = elim (key == low) [
  | true ↦ collect_alternating_from low pid leaves a
  | false ↦ elim (collect_alternating low key pid a) [
    | none ↦ none
    | some a' ↦ collect_alternating_from key v leaves a'
  ]
]

unfoldable pub collect_free_space_even_odd : List (ℕ × ℕ) → List (ℕ × ℕ) → Option Collected
unfolding collect_alternating_from
collect_free_space_even_odd [] needed = none
collect_free_space_even_odd ((key, v) ∷ leaves) needed =
    elim (collect_alternating_from key v ((key, v) ∷ leaves) (record {
      collected = record { needed = needed; free = [] };
      last_was_complete = false;
      even = false;
    })) [ none ↦ none | some a ↦ some a.collected ]
