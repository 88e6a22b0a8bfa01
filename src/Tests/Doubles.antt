-- ===== src/Tests/Doubles.antt =====
-- Numbers for the tests: fixed point, in units of a millionth, in place of double precision.
use data_distribution_simula.Base.{ℕ, arith, ltb, ◌+◌, ◌-◌, ◌*◌, ◌/◌, ◌%◌, ◌^◌, ◌≤◌, ◌<◌, ◌≡◌, ◌==◌}
use data_distribution_simula.Double.{Double, IsUnsigned}
use data_distribution_simula.Rushr.Random.{drawn}
use data_distribution_simula.Rushr.Draw.{choose}
use data_distribution_simula.Rushr.Draw.Restore.{IsRandom}

abbrev pub unit : ℕ
unit = 1_000_000

abbrev pub fixed : Double ℕ
fixed = record {
  of_unsigned = λ n. n * 1_000_000;
  of_signed = λ n. n * 1_000_000;
  add = λ a b. a + b;
  sub = λ a b. a - b;
  mul = λ a b. a * b / 1_000_000;
  div = λ a b. a * 1_000_000 / b;
  lt = λ a b. ltb a b;
  eq = λ a b. a == b;
  fmod = λ a b. a % b;
  floor = λ a. a / 1_000_000 * 1_000_000;
  round = λ a. (a + 500_000) / 1_000_000 * 1_000_000;
  to_int = λ a. a / 1_000_000;
  to_unsigned = λ a. a / 1_000_000 % 2 ^ 64;
  to_signed = λ a. a / 1_000_000 % 2 ^ 64;
}

pub fixed-IsUnsigned : IsUnsigned fixed
fixed-IsUnsigned x = omega arith

scaled : (d m : ℕ) → d < 1_000_000 → 0 < m → d * (m * 1_000_000) / 1_000_000 / 1_000_000 < m
scaled d m h positive =
    let e : d * (m * 1_000_000) ≡ d * m * 1_000_000 = omega arith in
    let below : d * m ≤ 999_999 * m = grind arith in omega (arith, e, below)

pub fixed-IsRandom : IsRandom fixed
unfolding choose drawn
fixed-IsRandom g m positive small = scaled (drawn fixed g) m (omega arith) positive
