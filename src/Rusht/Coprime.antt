-- ===== src/Rusht/Coprime.antt =====
-- Steps of a prime go round a cycle that is shorter without meeting a place twice, for `rusht` of
-- dadisi/DistRUSHt.cpp.
use native.Mathlib.Nat.{mod-add-div', mul-div_cancel_left}
use native.Mathlib.Decide.{dec_lt}
use data_distribution_simula.Base.{
  ℕ, ap, inl, inr, arith, ◌+◌, ◌-◌, ◌*◌, ◌/◌, ◌%◌, ◌≤◌, ◌<◌, ◌≡◌, ◌≢◌, ◌⊎◌, ◌∙◌, zero, suc, sym,
}

abbrev pub Divides : ℕ → ℕ → Type 0
Divides p n = (q : ℕ) × (n ≡ p * q)

-- Where a prime divides a product, it divides a factor.
abbrev pub IsPrime : ℕ → Type 0
IsPrime p = (a b : ℕ) → Divides p (a * b) → Divides p a ⊎ Divides p b

difference : (n x y : ℕ) → n * x ≤ n * y → n * y ≡ n * x + n * (y - x)
difference n x y h = elim (dec_lt y x) [
  | yes less ↦
      let e : x ≡ y + (x - y) = omega arith in
      let none_left : y - x ≡ 0 = omega arith in
      omega (arith, ap (λ (t : ℕ). n * t) e, ap (λ (t : ℕ). n * t) none_left)
  | no more ↦ let e : y ≡ x + (y - x) = omega arith in omega (arith, ap (λ (t : ℕ). n * t) e)
]

no_multiple : (m k n : ℕ) → 0 < n → n < m → n ≢ m * k
no_multiple m zero n h small e = omega arith
no_multiple m (suc k) n h small e = omega arith

same_place-Divides : (a d n : ℕ) → 0 < n → a % n ≡ (a + d) % n → Divides n d
same_place-Divides a d n some_place e =
    let x = a / n in
    let y = (a + d) / n in
    let first = mod-add-div' a n in
    let second = mod-add-div' (a + d) n in
    let more : n * x ≤ n * y = omega (arith, first, second, e) in
    (y - x, omega (arith, first, second, e, difference n x y more))

pub distinct_steps :
    (p n a r d : ℕ) → IsPrime p → n < p → 0 < d → d < n → (a + r * p) % n ≢ (a + (r + d) * p) % n
distinct_steps p n a r d prime small positive inside e =
    let sum : a + (r + d) * p ≡ a + r * p + d * p = omega arith in
    let (q, product) =
      same_place-Divides (a + r * p) (d * p) n (omega arith) (e ∙ ap (λ t. t % n) sum) in
    let even : n * q ≡ p * d = omega (arith, product) in
    elim (prime n q (d, even)) [
      | inl (k, whole) ↦ no_multiple p k n (omega arith) small whole
      | inr (k, part) ↦
          let product : p * (n * k) ≡ p * d = omega (arith, even, ap (λ (t : ℕ). n * t) part) in
          let same : d ≡ n * k =
            sym (mul-div_cancel_left d (omega arith))
            ∙ ap (λ t. t / p) (sym product)
            ∙ mul-div_cancel_left (n * k) (omega arith) in
          no_multiple n k d positive inside same
    ]
