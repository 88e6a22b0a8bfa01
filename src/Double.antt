-- ===== src/Double.antt =====
-- Arithmetic in double precision, which the placement classes use for shares and weights. The
-- numbers and their operations are a parameter: the type, and what the code does with its values.
use data_distribution_simula.Base.{ℕ, Bool, ◌^◌, ◌<◌}

pub record Double (R : Type 0) : Type 0 where
  -- conversions from `uint64_t` and from the bit pattern of an `int64_t`
  pub of_unsigned : ℕ → R
  pub of_signed : ℕ → R
  pub add : R → R → R
  pub sub : R → R → R
  pub mul : R → R → R
  pub div : R → R → R
  -- `a < b`
  pub lt : R → R → Bool
  pub floor : R → R
  pub round : R → R
  -- `a == b`, and the C function `fmod`
  pub eq : R → R → Bool
  pub fmod : R → R → R
  -- conversion to `int`, as a pattern of 32 bits
  pub to_int : R → ℕ
  -- conversion to `uint64_t`, and to `int64_t` as a bit pattern
  pub to_unsigned : R → ℕ
  pub to_signed : R → ℕ

-- A conversion to `uint64_t` gives a number of 64 bits.
abbrev pub IsUnsigned : {R : Type 0} → Double R → Type 0
IsUnsigned {R} dbl = (x : R) → dbl.to_unsigned x < 2 ^ 64
