-- ===== src/RandSlice/Collect/Laws.antt =====
-- What collecting free space takes from each partition of dadisi/DistRandSlice.cpp.
use data_distribution_simula.Base.{
  ℕ, some, List, [], arith, ◌+◌, ◌-◌, ◌^◌, ◌≤◌, ◌<◌, ◌≡◌, ◌∷◌, ◌==◌, if◌then◌else◌, refl, inl, inr,
  ltb, Bool-cases, ◌%◌, ap, true, false, ◌∙◌,
}
use data_distribution_simula.Dictionary.{keys, keys-assign_known, lookup, assign, lookup-assign}
use data_distribution_simula.RandSlice.Collect.{
  Interval, Collected, extend, collect_one, collect_from, collect_free_space,
}

-- The number of blocks in a list of intervals, and in all partitions of a table.
abbrev pub blocks : List Interval → ℕ
blocks [] = 0
blocks (e ∷ es) = e.1 - e.0 + blocks es

abbrev pub total : List (ℕ × ℕ) → ℕ
total [] = 0
total (e ∷ es) = e.1 + total es

-- Intervals that are not empty, ascend without overlap from `from` on, and end by `limit`.
abbrev pub IsSpaced : ℕ → ℕ → List Interval → Type 0
IsSpaced from limit [] = from ≤ limit
IsSpaced from limit (e ∷ es) = (from ≤ e.0) × (e.0 < e.1) × IsSpaced e.1 limit es

-- Leaves that ascend from `low` on, below 2 ^ 64.
abbrev pub IsLeaves : ℕ → List (ℕ × ℕ) → Type 0
IsLeaves low [] = low < 2 ^ 64
IsLeaves low (e ∷ es) = (low < e.0) × IsLeaves e.0 es

-- The blocks that a partition owns, in the intervals from `low` on.
abbrev pub owned : ℕ → ℕ → ℕ → List (ℕ × ℕ) → ℕ
owned q low pid [] = 0
owned q low pid (e ∷ es) = (if pid == q then e.0 - low else 0) + owned q e.0 e.1 es

blocks-extend :
    (low high from : ℕ) (free : List Interval)
    → IsSpaced from low free
    → low < high
    → (blocks (extend low high free) ≡ blocks free + (high - low))
      × IsSpaced from high (extend low high free)
unfolding extend
blocks-extend low high from [] s lt = (omega arith, omega arith)
blocks-extend low high from (e ∷ []) s lt = (ground arith, ground arith)
blocks-extend low high from (e ∷ f ∷ es) s lt =
    let (size, spaced) = blocks-extend low high e.1 (f ∷ es) s.2 lt in
    (omega (arith, size), (s.0, s.1, spaced))

pub IsSpaced-le :
    (from a b : ℕ) (free : List Interval) → IsSpaced from a free → a ≤ b → IsSpaced from b free
IsSpaced-le from a b [] s le = omega arith
IsSpaced-le from a b (e ∷ es) s le = (s.0, s.1, IsSpaced-le e.1 a b es s.2 le)

pub total-assign :
    (k v w : ℕ) (m : List (ℕ × ℕ)) → lookup k m ≡ some v → total (assign k w m) + v ≡ total m + w
unfolding lookup assign
total-assign k v w [] h = cc
total-assign k v w ((j, u) ∷ m) h = ground (arith, total-assign k v w m)

-- What one interval changes: nothing is lost between what is needed and what is free, the free
-- intervals stay apart, and only the owner of the interval needs less.
pub record Takes (from high pid size : ℕ) (c c' : Collected) : Type 0 where
  pub conserved : total c'.needed + blocks c'.free ≡ total c.needed + blocks c.free
  pub spaced : IsSpaced from high c'.free
  pub same_keys : keys c'.needed ≡ keys c.needed
  pub lessened :
      (q n : ℕ)
      → lookup q c.needed ≡ some n
      → lookup q c'.needed ≡ some (n - (if pid == q then size else 0))

module _ (from low high pid w : ℕ) (c : Collected) (here : lookup pid c.needed ≡ some w)
    (bound : w < 2 ^ 64) (lt : low < high) (limit : high < 2 ^ 64)
    (s : IsSpaced from low c.free) where
  pub keep-Takes : w ≡ 0 → Takes from high pid (high - low) c c
  keep-Takes e = record {
    conserved = refl;
    spaced = IsSpaced-le from low high c.free s (omega arith);
    same_keys = refl;
    lessened = λ q n h. ground arith;
  }

  pub whole-Takes :
      high - low < w
      → Takes from high pid (high - low) c (record {
        needed = assign pid (w - (high - low)) c.needed;
        free = extend low high c.free;
      })
  whole-Takes more =
      let (size, spaced) = blocks-extend low high from c.free s lt in
      record {
        conserved = omega (arith, size, total-assign pid w (w - (high - low)) c.needed here);
        spaced = spaced;
        same_keys = keys-assign_known pid w (w - (high - low)) c.needed here;
        lessened = λ q n h. ground (arith, lookup-assign pid q (w - (high - low)) c.needed);
      }

  pub part-Takes :
      0 < w
      → w ≤ high - low
      → Takes from high pid
          (high - low)
          c
          (record { needed = assign pid 0 c.needed; free = extend low (low + w) c.free })
  part-Takes pos less =
      let (size, spaced) = blocks-extend low (low + w) from c.free s (omega arith) in
      record {
        conserved = omega (arith, size, total-assign pid w 0 c.needed here);
        spaced = IsSpaced-le from (low + w) high _ spaced (omega arith);
        same_keys = keys-assign_known pid w 0 c.needed here;
        lessened = λ q n h. ground (arith, lookup-assign pid q 0 c.needed);
      }

  collect_one-Takes :
      (c' : Collected) × (collect_one low high pid c ≡ some c')
      × Takes from high pid (high - low) c c'
  unfolding collect_one
  collect_one-Takes =
      let e : (high + 2 ^ 64 - low) % 2 ^ 64 ≡ high - low = omega arith in
      let all : (w + 2 ^ 64 - w) % 2 ^ 64 ≡ 0 = omega arith in
      elim (Bool-cases (w == 0)) [
        | inl none_left ↦ (c, rw (here, none_left, collect_one), keep-Takes (ground arith))
        | inr some_left ↦ elim (Bool-cases (ltb (high - low) w)) [
          | inl more ↦
              let left : (w + 2 ^ 64 - (high - low)) % 2 ^ 64 ≡ w - (high - low) = ground arith in
              (_, rw (here, some_left, e, more, left, collect_one), whole-Takes (ground arith))
          | inr less ↦
              let up : (low + w) % 2 ^ 64 ≡ low + w = ground arith in
              (
                _,
                rw (here, some_left, e, less, all, up, collect_one),
                part-Takes (ground arith) (ground arith),
              )
        ]
      ]

-- The owner of every interval has an entry, below 2 ^ 64.
abbrev pub IsKnown : List (ℕ × ℕ) → ℕ → List (ℕ × ℕ) → Type 0
IsKnown needed pid [] = Unit
IsKnown needed pid (e ∷ es) =
    ((n : ℕ) × (lookup pid needed ≡ some n) × (n < 2 ^ 64)) × IsKnown needed e.1 es

-- What the loop over the intervals from `low` on changes.
pub record Collects (from low pid : ℕ) (leaves : List (ℕ × ℕ)) (c c' : Collected) : Type 0 where
  pub conserved : total c'.needed + blocks c'.free ≡ total c.needed + blocks c.free
  pub spaced : IsSpaced from (2 ^ 64 - 1) c'.free
  pub same_keys : keys c'.needed ≡ keys c.needed
  pub lessened :
      (q n : ℕ)
      → lookup q c.needed ≡ some n
      → lookup q c'.needed ≡ some (n - owned q low pid leaves)

pub Takes-IsKnown :
    (from high p size pid : ℕ) (leaves : List (ℕ × ℕ)) (c c' : Collected)
    → Takes from high p size c c'
    → IsKnown c.needed pid leaves
    → IsKnown c'.needed pid leaves
Takes-IsKnown from high p size pid [] c c' t k = tt
Takes-IsKnown from high p size pid (e ∷ es) c c' t ((n, h, b), k) =
    ((_, t.lessened pid n h, omega arith), Takes-IsKnown from high p size e.1 es c c' t k)

pub IsLeaves-lt : (low : ℕ) (leaves : List (ℕ × ℕ)) → IsLeaves low leaves → low < 2 ^ 64
IsLeaves-lt low [] h = h
IsLeaves-lt low (e ∷ es) h = omega (arith, IsLeaves-lt e.0 es h.1)

collect_from-Collects :
    (from low pid : ℕ) (leaves : List (ℕ × ℕ)) (c : Collected)
    → IsLeaves low leaves
    → IsKnown c.needed pid leaves
    → IsSpaced from low c.free
    → (c' : Collected) × (collect_from low pid leaves c ≡ some c')
      × Collects from low pid leaves c c'
unfolding collect_from
collect_from-Collects from low pid [] c asc known s = (
  c,
  refl,
  record {
    conserved = refl;
    spaced = IsSpaced-le from low (2 ^ 64 - 1) c.free s (omega arith);
    same_keys = refl;
    lessened = λ q n h. h ∙ ap some (omega arith);
  },
)
collect_from-Collects from low pid ((key, v) ∷ leaves) c (lt, asc) ((w, here, bound), known) s =
    let distinct : (key == low) ≡ false = ground arith in
    let (c', step, t) =
      collect_one-Takes from low key pid w c here bound lt (IsLeaves-lt key leaves asc) s in
    let (c'', run, r) =
      collect_from-Collects from key v leaves c' asc
        (Takes-IsKnown from key pid (key - low) v leaves c c' t known) t.spaced in
    (
      c'',
      rw (distinct, collect_from, step) run,
      record {
        conserved = r.conserved ∙ t.conserved;
        spaced = r.spaced;
        same_keys = r.same_keys ∙ t.same_keys;
        lessened = λ q n h. r.lessened q _ (t.lessened q n h) ∙ ap some (ground arith);
      },
    )

-- Collecting free space on a tree whose leaves ascend, and whose partitions all have an entry, does
-- not fault. What is still needed and what is free add up to what was needed before; the free
-- intervals are not empty, ascend without overlap and stay inside the space; and each partition
-- gives what is needed of it, or all that it owns if that is less.
pub collect_free_space-Collects :
    (low pid : ℕ) (leaves needed : List (ℕ × ℕ))
    → IsLeaves low leaves
    → IsKnown needed pid leaves
    → (c : Collected) × (collect_free_space ((low, pid) ∷ leaves) needed ≡ some c)
      × Collects low low pid leaves (record { needed = needed; free = [] }) c
unfolding collect_free_space collect_from
collect_free_space-Collects low pid leaves needed asc known =
    let same : (low == low) ≡ true = ground arith in
    let (c, run, r) =
      collect_from-Collects low low pid leaves (record { needed = needed; free = [] }) asc known
        (omega arith) in
    (c, rw (same, collect_free_space, collect_from) run, r)
