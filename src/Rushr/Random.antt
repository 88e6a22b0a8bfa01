-- ===== src/Rushr/Random.antt =====
-- The generator of Wichmann and Hill that the RUSH classes share: `seed`, `wh_random`, `jumpahead`
-- and `expmod` of dadisi/DistRUSHr.h (and the same functions of dadisi/DistRUSHp.h).
--
-- A `long` that is not negative is its value. The keys are the positions of blocks, which the code
-- never makes negative.
use data_distribution_simula.Base.{
  ℕ, ◌+◌, zero, suc, Option, none, some, ◌*◌, ◌/◌, ◌%◌, ◌==◌, if◌then◌else◌,
}
use data_distribution_simula.Double.{Double}

-- The three numbers that the code keeps in `x`, `y` and `z`.
pub record Generator : Type 0 where
  pub x : ℕ
  pub y : ℕ
  pub z : ℕ

-- `seed`
unfoldable pub seed : ℕ → Generator
seed seed_to_set =
    let second = seed_to_set / 30268 in
    let third = second / 30306 in
    record { x = seed_to_set % 30268 + 1; y = second % 30306 + 1; z = third % 30322 + 1 }

-- The assignments of `wh_random`.
unfoldable pub next : Generator → Generator
next g = record { x = 171 * g.x % 30269; y = 172 * g.y % 30307; z = 170 * g.z % 30323 }

-- What `wh_random` returns when it has made them.
unfoldable pub drawn : {R : Type 0} → Double R → Generator → R
drawn dbl g =
    dbl.fmod
      (dbl.add
        (dbl.add (dbl.div (dbl.of_signed g.x) (dbl.of_signed 30269))
          (dbl.div (dbl.of_signed g.y) (dbl.of_signed 30307)))
        (dbl.div (dbl.of_signed g.z) (dbl.of_signed 30323)))
      (dbl.of_signed 1)

-- The loop of `expmod`, with fuel for the number of bits of the exponent.
unfoldable pub expmod_loop : ℕ → ℕ → ℕ → ℕ → ℕ → Option ℕ
expmod_loop fuel n zero y accum = some accum
expmod_loop zero n (suc x) y accum = none
expmod_loop (suc fuel) n (suc x) y accum =
    expmod_loop fuel n (suc x / 2) (y * y % n) (if suc x % 2 == 1 then accum * y % n else accum)

-- `expmod`
unfoldable pub expmod : ℕ → ℕ → ℕ → Option ℕ
unfolding expmod_loop
expmod a b n = expmod_loop (suc b) n b (a % n) 1

-- The generator from three results.
abbrev together : (ℕ → ℕ → ℕ → Generator) → Option ℕ → Option ℕ → Option ℕ → Option Generator
together f (some p) (some q) (some r) = some (f p q r)
together f (some p) (some q) none = none
together f (some p) none r = none
together f none q r = none

-- `jumpahead`
unfoldable pub jumpahead : ℕ → Generator → Option Generator
unfolding expmod
jumpahead jumps g =
    together (λ p q r. record { x = g.x * p % 30269; y = g.y * q % 30307; z = g.z * r % 30323 })
      (expmod 171 jumps 30269) (expmod 172 jumps 30307) (expmod 170 jumps 30323)

-- `jumps` calls of `wh_random`
unfoldable pub steps : ℕ → Generator → Generator
steps zero g = g
steps (suc n) g = steps n (next g)
