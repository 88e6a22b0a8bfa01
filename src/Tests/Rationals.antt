-- ===== src/Tests/Rationals.antt =====
-- Fractions for the tests, exact by their values: the difference of two numbers over a third, which
-- are not reduced.

use data_distribution_simula.Base.{
  ℕ, refl, none, some, ◌∷◌, ltb, leb, false, ◌+◌, ◌-◌, ◌*◌, ◌/◌, ◌==◌, if◌then◌else◌,
}
use data_distribution_simula.Helper.RoundTrip.{printed}
use data_distribution_simula.Rational.{Rational, IsGuarded}

pub record Fraction : Type 0 where
  pub plus : ℕ
  pub minus : ℕ
  pub den : ℕ

abbrev pub fraction : ℕ → ℕ → ℕ → Fraction
fraction a b d = record { plus = a; minus = b; den = d }

abbrev pub fractions : Rational Fraction
fractions = record {
  create = λ a b. fraction a 0 b;
  of_integer = λ n. fraction n 0 1;
  add = λ x y.
      fraction (x.plus * y.den + y.plus * x.den) (x.minus * y.den + y.minus * x.den)
        (x.den * y.den);
  sub = λ x y.
      fraction (x.plus * y.den + y.minus * x.den) (x.minus * y.den + y.plus * x.den)
        (x.den * y.den);
  mul = λ x y.
      fraction (x.plus * y.plus + x.minus * y.minus) (x.plus * y.minus + x.minus * y.plus)
        (x.den * y.den);
  div = λ x y.
      if y.plus == y.minus
      then none
      else if ltb y.minus y.plus
      then some (fraction (x.plus * y.den) (x.minus * y.den) (x.den * (y.plus - y.minus)))
      else some (fraction (x.minus * y.den) (x.plus * y.den) (x.den * (y.minus - y.plus)));
  lt = λ x y. ltb (x.plus * y.den + y.minus * x.den) (y.plus * x.den + x.minus * y.den);
  eq = λ x y. x.plus * y.den + y.minus * x.den == y.plus * x.den + x.minus * y.den;
  reaches = λ x n. if ltb x.plus x.minus then false else leb n ((x.plus - x.minus) / x.den);
  text = λ x.
      if ltb x.plus x.minus
      then b'-' ∷ printed 10 ((x.minus - x.plus) / x.den)
      else printed 10 ((x.plus - x.minus) / x.den);
}

pub fractions-IsGuarded : IsGuarded fractions
fractions-IsGuarded x = refl
