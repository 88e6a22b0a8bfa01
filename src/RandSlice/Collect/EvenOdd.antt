-- ===== src/RandSlice/Collect/EvenOdd.antt =====
-- The variant of collecting that alternates between the two ends of partial intervals, of
-- dadisi/DistRandSlice.cpp.
use data_distribution_simula.Base.{
  ℕ, refl, ap, inl, inr, true, false, some, List, [], arith, ltb, Bool-cases, ◌+◌, ◌-◌, ◌%◌, ◌^◌,
  ◌≤◌, ◌<◌, ◌≡◌, ◌&&◌, ◌∷◌, ◌++◌, ◌==◌, ◌∙◌, not, if◌then◌else◌,
}
use data_distribution_simula.Dictionary.{keys-assign_known, lookup, assign, lookup-assign}
use data_distribution_simula.RandSlice.Collect.{
  Interval, Collected, Alternating, extend, collect_alternating, collect_alternating_from,
  collect_free_space_even_odd, starts_anew,
}
use data_distribution_simula.RandSlice.Collect.Laws.{
  blocks, IsSpaced, IsLeaves, Takes, Collects, IsKnown, IsSpaced-le, IsLeaves-lt, total-assign,
  keep-Takes, whole-Takes, part-Takes, Takes-IsKnown,
}

blocks-append_one :
    (low start high from : ℕ) (free : List Interval)
    → IsSpaced from low free
    → low ≤ start
    → start < high
    → (blocks (free ++ ((start, high) ∷ [])) ≡ blocks free + (high - start))
      × IsSpaced from high (free ++ ((start, high) ∷ []))
blocks-append_one low start high from [] s le lt = (omega arith, omega arith)
blocks-append_one low start high from (e ∷ es) s le lt =
    let (size, spaced) = blocks-append_one low start high e.1 es s.2 le lt in
    (omega (arith, size), (s.0, s.1, spaced))

module _ (from low high pid w : ℕ) (a : Alternating) (here : lookup pid a.collected.needed ≡ some w)
    (bound : w < 2 ^ 64) (lt : low < high) (limit : high < 2 ^ 64)
    (s : IsSpaced from low a.collected.free) where
  upper-Takes :
      0 < w
      → w ≤ high - low
      → Takes from high pid (high - low) a.collected (record {
        needed = assign pid 0 a.collected.needed;
        free = a.collected.free ++ ((high - w, high) ∷ []);
      })
  upper-Takes pos less =
      let (size, spaced) =
        blocks-append_one low (high - w) high from a.collected.free s (omega arith) (omega arith) in
      record {
        conserved = omega (arith, size, total-assign pid w 0 a.collected.needed here);
        spaced = spaced;
        same_keys = keys-assign_known pid w 0 a.collected.needed here;
        lessened = λ q n h. ground (arith, lookup-assign pid q 0 a.collected.needed);
      }

  collect_alternating-Takes :
      (a' : Alternating) × (collect_alternating low high pid a ≡ some a')
      × Takes from high pid (high - low) a.collected a'.collected
  unfolding collect_alternating
  collect_alternating-Takes =
      let c = a.collected in
      let e : (high + 2 ^ 64 - low) % 2 ^ 64 ≡ high - low = omega arith in
      let all : (w + 2 ^ 64 - w) % 2 ^ 64 ≡ 0 = omega arith in
      elim (Bool-cases (w == 0)) [
        | inl none_left ↦ (
          a,
          rw (here, none_left, collect_alternating),
          keep-Takes from low high pid w c here bound lt limit s (ground arith),
        )
        | inr some_left ↦ elim (Bool-cases (ltb (high - low) w)) [
          | inl more ↦
              let left : (w + 2 ^ 64 - (high - low)) % 2 ^ 64 ≡ w - (high - low) = ground arith in
              (
                record {
                  collected = record {
                    needed = assign pid (w - (high - low)) c.needed;
                    free = extend low high c.free;
                  };
                  last_was_complete = true;
                  even = if a.last_was_complete then false else a.even;
                },
                rw (here, some_left, e, more, left, collect_alternating),
                whole-Takes from low high pid w c here bound lt limit s (ground arith),
              )
          | inr less ↦
              let up : (low + w) % 2 ^ 64 ≡ low + w = ground arith in
              let down : (high + 2 ^ 64 - w) % 2 ^ 64 ≡ high - w = ground arith in
              elim (Bool-cases (starts_anew low c.free && a.even)) [
                | inl upper ↦ (
                  record {
                    collected = record {
                      needed = assign pid 0 c.needed;
                      free = c.free ++ ((high - w, high) ∷ []);
                    };
                    last_was_complete = false;
                    even = not a.even;
                  },
                  rw (here, some_left, e, less, all, upper, down, collect_alternating),
                  upper-Takes (ground arith) (ground arith),
                )
                | inr lower ↦ (
                  record {
                    collected = record {
                      needed = assign pid 0 c.needed;
                      free = extend low (low + w) c.free;
                    };
                    last_was_complete = false;
                    even = not a.even;
                  },
                  rw (here, some_left, e, less, all, lower, up, collect_alternating),
                  part-Takes from low high pid w c here bound lt limit s (ground arith)
                      (ground arith),
                )
              ]
        ]
      ]

collect_alternating_from-Collects :
    (from low pid : ℕ) (leaves : List (ℕ × ℕ)) (a : Alternating)
    → IsLeaves low leaves
    → IsKnown a.collected.needed pid leaves
    → IsSpaced from low a.collected.free
    → (a' : Alternating) × (collect_alternating_from low pid leaves a ≡ some a')
      × Collects from low pid leaves a.collected a'.collected
unfolding collect_alternating_from
collect_alternating_from-Collects from low pid [] a asc known s = (
  a,
  refl,
  record {
    conserved = refl;
    spaced = IsSpaced-le from low (2 ^ 64 - 1) a.collected.free s (omega arith);
    same_keys = refl;
    lessened = λ q n h. h ∙ ap some (omega arith);
  },
)
collect_alternating_from-Collects from low pid ((key, v) ∷ leaves) a (lt, asc)
      ((w, here, bound), known) s =
    let distinct : (key == low) ≡ false = ground arith in
    let (a', step, t) =
      collect_alternating-Takes from low key pid w a here bound lt (IsLeaves-lt key leaves asc) s in
    let (a'', run, r) =
      collect_alternating_from-Collects from key v leaves a' asc
        (Takes-IsKnown from key pid (key - low) v leaves a.collected a'.collected t known)
        t.spaced in
    (
      a'',
      rw (distinct, collect_alternating_from, step) run,
      record {
        conserved = r.conserved ∙ t.conserved;
        spaced = r.spaced;
        same_keys = r.same_keys ∙ t.same_keys;
        lessened = λ q n h. r.lessened q _ (t.lessened q n h) ∙ ap some (ground arith);
      },
    )

-- The alternating variant promises the same: it does not fault, loses no blocks, keeps the free
-- intervals apart and in the space, and takes from each partition what is needed of it, or all that
-- it owns if that is less.
pub collect_free_space_even_odd-Collects :
    (low pid : ℕ) (leaves needed : List (ℕ × ℕ))
    → IsLeaves low leaves
    → IsKnown needed pid leaves
    → (c : Collected) × (collect_free_space_even_odd ((low, pid) ∷ leaves) needed ≡ some c)
      × Collects low low pid leaves (record { needed = needed; free = [] }) c
unfolding collect_free_space_even_odd collect_alternating_from
collect_free_space_even_odd-Collects low pid leaves needed asc known =
    let same : (low == low) ≡ true = ground arith in
    let (a, run, r) =
      collect_alternating_from-Collects low low pid leaves
        (record {
          collected = record { needed = needed; free = [] };
          last_was_complete = false;
          even = false;
        })
        asc known (omega arith) in
    (a.collected, rw (same, collect_free_space_even_odd, collect_alternating_from, run), r)
