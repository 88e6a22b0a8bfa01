-- ===== src/RandSlice/Reuse/Laws.antt =====
-- What giving the free space to the new partitions keeps, of dadisi/DistRandSlice.cpp.
use data_distribution_simula.Base.{
  All, map, refl, ap, inl, inr, [], arith, ltb, leb, Bool-cases, ◌+◌, ◌-◌, ◌%◌, ◌^◌, ◌≤◌, ◌<◌, ◌≡◌,
  ◌&&◌, ◌==◌, if◌then◌else◌,
}
use data_distribution_simula.RandSlice.Collect.Laws.{blocks, total}
use data_distribution_simula.RandSlice.Reuse.{
  Insertion, Assimilated, resume, assimilate, reuse_free_space, ℕ, List, Interval, ◌++◌, ◌∷◌,
}

-- How many of the intervals hold the block `x`.
unfoldable pub cover : ℕ → List Interval → ℕ
cover x [] = 0
cover x (e ∷ es) = (if leb e.0 x && ltb x e.1 then 1 else 0) + cover x es

abbrev pub ranges : List Insertion → List Interval
ranges = map (λ c. c.1)

-- The blocks that the calls give to the partition `q`.
unfoldable pub received : ℕ → List Insertion → ℕ
received q [] = 0
received q ((p, e) ∷ cs) = (if p == q then e.1 - e.0 else 0) + received q cs

-- The blocks that the partition `q` is to get.
unfoldable pub due : ℕ → List (ℕ × ℕ) → ℕ
due q [] = 0
due q ((p, n) ∷ ps) = (if p == q then n else 0) + due q ps

abbrev pub IsFree : List Interval → Type 0
IsFree = All (λ e. (e.0 ≤ e.1) × (e.1 < 2 ^ 64))

cover-append : (x : ℕ) (xs ys : List Interval) → cover x (xs ++ ys) ≡ cover x xs + cover x ys
unfolding cover
cover-append x [] ys = omega arith
cover-append x (e ∷ es) ys = omega (arith, cover-append x es ys)

ranges-append : (xs ys : List Insertion) → ranges (xs ++ ys) ≡ ranges xs ++ ranges ys
ranges-append [] ys = refl
ranges-append (x ∷ xs) ys = ap (◌∷◌ x.1) (ranges-append xs ys)

received-append :
    (q : ℕ) (xs ys : List Insertion) → received q (xs ++ ys) ≡ received q xs + received q ys
unfolding received
received-append q [] ys = omega arith
received-append q ((p, e) ∷ es) ys = omega (arith, received-append q es ys)

-- What one run of the inner loop does: each block of the free space stays free or is given, as often
-- as it was there; the partition gets what it needs, or all there is.
record Assimilates (pid psize : ℕ) (free : List Interval) (a : Assimilated) : Type 0 where
  well : IsFree a.free
  kept : (x : ℕ) → cover x free ≡ cover x a.free + cover x (ranges a.calls)
  given : (q : ℕ) → received q a.calls ≡ (if pid == q then psize - a.missing else 0)
  size : blocks a.free + (psize - a.missing) ≡ blocks free
  left : a.missing ≡ psize - blocks free

stop-Assimilates :
    (pid psize : ℕ) (free : List Interval)
    → IsFree free
    → psize ≡ psize - blocks free
    → Assimilates pid psize free (record { free = free; calls = []; missing = psize })
unfolding cover received
stop-Assimilates pid psize free f none_left = record {
  well = f;
  kept = λ x. omega arith;
  given = λ q. ground arith;
  size = omega arith;
  left = none_left;
}

skip-Assimilates :
    (pid psize : ℕ) (e : Interval) (es : List Interval) (a : Assimilated)
    → e.0 ≤ e.1
    → e.1 < 2 ^ 64
    → e.1 ≡ e.0
    → Assimilates pid psize es a
    → Assimilates pid psize (e ∷ es) (resume e [] a)
unfolding resume cover
skip-Assimilates pid psize e es a le lt empty r = record {
  well = ((le, lt), r.well);
  kept = λ x. omega (arith, r.kept x);
  given = r.given;
  size = omega (arith, r.size);
  left = omega (arith, r.left);
}

whole-Assimilates :
    (pid psize : ℕ) (e : Interval) (es : List Interval) (a : Assimilated)
    → e.0 ≤ e.1
    → e.1 < 2 ^ 64
    → e.1 - e.0 ≤ psize
    → Assimilates pid (psize - (e.1 - e.0)) es a
    → Assimilates pid psize (e ∷ es) (resume (0, 0) ((pid, e) ∷ []) a)
unfolding resume cover received
whole-Assimilates pid psize e es a le lt less r = record {
  well = ((omega arith, omega arith), r.well);
  kept = λ x. ground (arith, r.kept x);
  given = λ q. ground (arith, r.given q, r.left);
  size = omega (arith, r.size, r.left);
  left = omega (arith, r.left);
}

part-Assimilates :
    (pid psize : ℕ) (e : Interval) (es : List Interval)
    → e.0 ≤ e.1
    → e.1 < 2 ^ 64
    → psize < e.1 - e.0
    → IsFree es
    → Assimilates pid psize (e ∷ es) (record {
      free = (e.0 + psize, e.1) ∷ es;
      calls = (pid, (e.0, e.0 + psize)) ∷ [];
      missing = 0;
    })
unfolding cover received
part-Assimilates pid psize e es le lt less f = record {
  well = ((omega arith, lt), f);
  kept = λ x. ground arith;
  given = λ q. ground arith;
  size = omega arith;
  left = omega arith;
}

assimilate-Assimilates :
    (pid psize : ℕ) (free : List Interval)
    → IsFree free
    → psize < 2 ^ 64
    → Assimilates pid psize free (assimilate pid psize free)
unfolding assimilate
assimilate-Assimilates pid psize [] f bound = stop-Assimilates pid psize [] tt (omega arith)
assimilate-Assimilates pid psize (e ∷ es) ((le, lt), f) bound =
    let size : (e.1 + 2 ^ 64 - e.0) % 2 ^ 64 ≡ e.1 - e.0 = omega arith in
    elim (Bool-cases (psize == 0)) [
      | inl done ↦
          rw (done, assimilate) (stop-Assimilates pid psize (e ∷ es) ((le, lt), f) (ground arith))
      | inr more ↦ elim (Bool-cases ((e.1 - e.0) == 0)) [
        | inl empty ↦
            rw (more, size, empty, assimilate)
              (skip-Assimilates pid psize e es _ le lt (ground arith)
                (assimilate-Assimilates pid psize es f bound))
        | inr full ↦ elim (Bool-cases (ltb psize (e.1 - e.0))) [
          | inl part ↦
              let up : (e.0 + psize) % 2 ^ 64 ≡ e.0 + psize = ground arith in
              rw (more, size, full, size, part, up, assimilate)
                (part-Assimilates pid psize e es le lt (ground arith) f)
          | inr whole ↦
              let down : (psize + 2 ^ 64 - (e.1 - e.0)) % 2 ^ 64 ≡ psize - (e.1 - e.0) =
                ground arith in
              rw (more, size, full, size, whole, size, down, assimilate)
                (whole-Assimilates pid psize e es _ le lt (ground arith)
                  (assimilate-Assimilates pid (psize - (e.1 - e.0)) es f (omega arith)))
        ]
      ]
    ]

-- What the loop over the new partitions does with the free space: each block stays free or is given,
-- as often as it was there; each partition gets what it is due.
pub record Reuses (free : List Interval) (ps : List (ℕ × ℕ)) (r : List Interval × List Insertion)
    : Type 0 where
  pub kept : (x : ℕ) → cover x free ≡ cover x r.0 + cover x (ranges r.1)
  pub given : (q : ℕ) → received q r.1 ≡ due q ps
  pub size : blocks r.0 + total ps ≡ blocks free

step-Reuses :
    (pid psize : ℕ) (ps : List (ℕ × ℕ)) (free : List Interval) (a : Assimilated)
    (r : List Interval × List Insertion)
    → psize ≤ blocks free
    → Assimilates pid psize free a
    → Reuses a.free ps r
    → Reuses free ((pid, psize) ∷ ps) (r.0, a.calls ++ r.1)
unfolding due
step-Reuses pid psize ps free a r enough one rest = record {
  kept = λ x. omega (
    arith,
    one.kept x,
    rest.kept x,
    ap (cover x) (ranges-append a.calls r.1),
    cover-append x (ranges a.calls) (ranges r.1),
  );
  given = λ q. ground (arith, one.given q, one.left, rest.given q, received-append q a.calls r.1);
  size = omega (arith, one.size, one.left, rest.size);
}

-- `reuse_free_space`, where the free space is enough: each block of it stays free or is given by one
-- of the calls, as often as it was free, each partition is given as many blocks as it is due, and
-- what is left is the rest.
pub reuse_free_space-Reuses :
    (free : List Interval) (ps : List (ℕ × ℕ))
    → IsFree free
    → All (λ p. p.1 < 2 ^ 64) ps
    → total ps ≤ blocks free
    → Reuses free ps (reuse_free_space free ps)
unfolding reuse_free_space cover received due
reuse_free_space-Reuses free [] f bounds enough = record {
  kept = λ x. omega arith;
  given = λ q. refl;
  size = omega arith;
}
reuse_free_space-Reuses free ((pid, psize) ∷ ps) f (bound, bounds) enough =
    let one = assimilate-Assimilates pid psize free f bound in
    step-Reuses pid psize ps free (assimilate pid psize free) _ (omega arith) one (
      reuse_free_space-Reuses (assimilate pid psize free).free ps one.well bounds
        (omega (arith, one.size, one.left)))
