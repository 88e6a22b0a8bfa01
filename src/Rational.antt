-- ===== src/Rational.antt =====
-- The fractions of the big-number library GMP, with which dadisi/DistRedundantShare.cpp computes
-- shares. The numbers and their operations are a parameter, and no law of their arithmetic is used:
-- the library asks for operands in lowest terms, and the code does not reduce those it creates.
use data_distribution_simula.Base.{ℕ, Bool, Option, none, List, ◌≡◌}

pub record Rational (Q : Type 0) : Type 0 where
  -- `mpq_class(num, den)`, which does not reduce the fraction, and `mpq_class(num)`
  pub create : ℕ → ℕ → Q
  pub of_integer : ℕ → Q
  pub add : Q → Q → Q
  pub sub : Q → Q → Q
  pub mul : Q → Q → Q
  -- `a / b`, unless `b` is 0
  pub div : Q → Q → Option Q
  -- `a < b`, and `a == b`
  pub lt : Q → Q → Bool
  pub eq : Q → Q → Bool
  -- `a.get_num() / a.get_den() >= n`, and `get_str(10)` of that quotient
  pub reaches : Q → ℕ → Bool
  pub text : Q → List ℕ

-- A division by 0 does not return.
abbrev pub IsGuarded : {Q : Type 0} → Rational Q → Type 0
IsGuarded {Q} rat = (q : Q) → rat.div q (rat.of_integer 0) ≡ none
