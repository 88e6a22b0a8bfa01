-- ===== src/Redundant/Correction.antt =====
-- The probabilities of dadisi/DistRedundantShare.cpp: `P`, `r`, `r2`, `ki` and `cStar`, from which
-- the share of a disk is corrected that would get more than one copy. The caches of these functions
-- are compiled only under macros that nothing defines.
--
-- A read outside the array of disks and a division by 0 are `none`.
use data_distribution_simula.Base.{
  ℕ, zero, suc, Option, none, some, List, get_elem?, ltb, leb, ◌+◌, ◌-◌, ◌==◌, ◌>>=◌, if◌then◌else◌,
  Bool,
}
use data_distribution_simula.Word.{mul64}
use data_distribution_simula.Helper.{create_mpz}
use data_distribution_simula.Rational.{Rational}
use data_distribution_simula.Redundant.Disks.{RsDisk}

module _ {Q : Type 0} (rat : Rational Q) (disks : List (RsDisk Q)) where
  -- `disks[i]->getCheckC()`
  abbrev check : ℕ → Option Q
  check i = get_elem? disks i >>= λ d. some d.check_c

  -- The loop of `P`, over the `n` disks from `a` on, the last one first.
  unfoldable pub p_loop : ℕ → ℕ → ℕ → Q → Option Q
  p_loop zero a l result = some result
  p_loop (suc n) a l result = check (a + n) >>= λ c.
      let next = rat.mul result (rat.sub (rat.of_integer 1) (rat.mul (rat.of_integer l) c)) in
      let rest = p_loop n a l next in
      if rat.lt next (rat.of_integer 0) then some (rat.of_integer 0) else rest

  -- `P`
  unfoldable pub p : ℕ → ℕ → ℕ → Option Q
  unfolding p_loop
  p a b l =
      if ltb b a
      then some (rat.of_integer 0)
      else if a == b
      then some (rat.of_integer 1)
      else check (b - 1) >>= λ before.
          if rat.lt (rat.of_integer 1) (rat.mul before (rat.of_integer l))
          then some (rat.of_integer 0)
          else p_loop (b - a) a l (rat.of_integer 1)

  -- The case `o == m` of `r_inner` and of `r2_inner`.
  unfoldable pub r_last : ℕ → ℕ → ℕ → Option Q
  unfolding p
  r_last m j i = check i >>= λ c.
      let result = rat.mul (rat.of_integer m) c in
      p j i m >>= λ gap.
      some (rat.mul (if rat.lt (rat.of_integer 1) result then rat.of_integer 1 else result) gap)

  -- The loop of `r_inner` and of `r2_inner` over `n` disks from `v` on, given the recursive call.
  unfoldable pub r_loop : (ℕ → Option Q) → ℕ → ℕ → ℕ → ℕ → Q → Option Q
  unfolding p
  r_loop inner m j zero v result = some result
  r_loop inner m j (suc n) v result = do
    c ← check v
    gap ← p j v m
    step ← inner (v + 1)
    r_loop inner m j n (v + 1) (rat.add result (rat.mul (rat.mul c gap) step))

  -- `r_inner`, where `m` is `o + more`
  unfoldable pub r_inner : ℕ → ℕ → ℕ → ℕ → Option Q
  unfolding r_last r_loop
  r_inner o zero j i = r_last o j i
  r_inner o (suc more) j i =
      r_loop (λ v. r_inner o more v i) (o + suc more) j (i + 1 - suc more - j) j (rat.of_integer 0)
      >>= λ result. some (rat.mul result (rat.of_integer (o + suc more)))

  -- `r2_inner`
  unfoldable pub r2_inner : ℕ → ℕ → ℕ → ℕ → Option Q
  unfolding r_last r_loop
  r2_inner o zero j i = r_last o j i
  r2_inner o (suc more) j i =
      r_loop (λ v. r2_inner o more v i) (o + suc more) j (i - suc more - j) j (rat.of_integer 0)
      >>= λ result. some (rat.mul result (rat.of_integer (o + suc more)))

  -- `disks[i - 1]->getCheckC() * o > 1`, where `end` is `i + 1`
  abbrev exceeds : ℕ → ℕ → Option Bool
  exceeds end o =
      if ltb end 2
      then none
      else check (end - 2) >>= λ c. some (rat.lt (rat.of_integer 1) (rat.mul c (rat.of_integer o)))

  -- `r`. The last argument is `i + 1`, since `i` can be -1.
  unfoldable pub r : ℕ → ℕ → ℕ → ℕ → Option Q
  unfolding r_inner
  r o m j end =
      if ltb m o
      then some (rat.of_integer 0)
      else if leb end j
      then some (rat.of_integer 0)
      else if leb (end + o) (j + m)
      then some (rat.of_integer 0)
      else exceeds end o >>= λ beyond.
          if beyond then some (rat.of_integer 0) else r_inner o (m - o) j (end - 1)

  -- `r2`, with the same last argument
  unfoldable pub r2 : ℕ → ℕ → ℕ → ℕ → Option Q
  unfolding r2_inner
  r2 o m j end =
      if ltb m o
      then some (rat.of_integer 0)
      else if leb end j
      then some (rat.of_integer 0)
      else if leb (end + o) (j + m + 1)
      then some (rat.of_integer 0)
      else exceeds end o >>= λ beyond.
          if beyond then some (rat.of_integer 0) else r2_inner o (m - o) j (end - 1)

  -- The loop of `ki`, from `o` down to 1.
  unfoldable pub ki_loop : ℕ → ℕ → ℕ → ℕ → Q → Option Q
  unfolding r r2
  ki_loop copies i l zero result = some result
  ki_loop copies i l (suc o) result =
      (if suc o + 1 == l then r2 (suc o) copies 0 (i + 1) else r (suc o) copies 0 (i + 1))
      >>= λ part. ki_loop copies i l o (rat.sub result part)

  -- `ki`
  unfoldable pub ki : ℕ → ℕ → ℕ → Option Q
  unfolding ki_loop create_mpz
  ki copies i l = do
    d ← get_elem? disks i
    first ← get_elem? disks 0
    ki_loop copies i l copies
        (rat.create (create_mpz (mul64 copies d.aligned_capacity)) (create_mpz first.c_position))

  -- `cStar`
  unfoldable pub c_star : ℕ → ℕ → ℕ → Option Q
  unfolding ki r create_mpz
  c_star copies i l = do
    k ← ki copies i l
    before ← r l copies 0 i
    tmp ← rat.div (rat.mul (rat.create 1 (l - 1)) k) before
    next ← get_elem? disks (i + 1)
    rat.div (rat.mul (rat.of_integer (create_mpz next.c_position)) tmp)
        (rat.sub (rat.of_integer 1) tmp)
