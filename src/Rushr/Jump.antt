-- ===== src/Rushr/Jump.antt =====
-- Jumping ahead is stepping many times, of dadisi/DistRUSHr.h.
use native.Mathlib.Nat.{
  pow-zero, pow-suc, mod-add-div', mod-mod, mod-eq_of_lt, add-mul-mod_self_left,
}
use data_distribution_simula.Base.{
  ℕ, zero, suc, refl, sym, ap, arith, ◌+◌, ◌*◌, ◌/◌, ◌%◌, ◌^◌, ◌≡◌, inl, inr, some, Bool-cases, ◌≤◌,
  ◌<◌, ◌==◌, ◌∙◌,
}
use data_distribution_simula.Rushr.Random.{Generator, next, expmod_loop, expmod, jumpahead, steps}

-- A factor may be reduced first.
mod_mul : (a b n : ℕ) → a % n * b % n ≡ a * b % n
mod_mul a b n =
    let e : a * b ≡ a % n * b + n * (a / n * b) =
      omega (arith, ap (λ (t : ℕ). t * b) (mod-add-div' a n)) in
    rw e (sym (add-mul-mod_self_left (a % n * b) n (a / n * b)))

mul_mod : (a b n : ℕ) → a * (b % n) % n ≡ a * b % n
mul_mod a b n =
    let e : a * (b % n) ≡ b % n * a = omega arith in
    let f : a * b ≡ b * a = omega arith in rw (e, f) (mod_mul b a n)

pow_mod : (a n k : ℕ) → (a % n) ^ k % n ≡ a ^ k % n
pow_mod a n zero = rw (pow-zero (a % n), pow-zero a) refl
pow_mod a n (suc k) =
    let e : (a % n) ^ k * (a % n) % n ≡ (a % n) ^ k % n * a % n =
      mul_mod ((a % n) ^ k) a n ∙ sym (mod_mul ((a % n) ^ k) a n) in
    rw (pow-suc (a % n) k, pow-suc a k, e, pow_mod a n k) (mod_mul (a ^ k) a n)

pow_square : (y k : ℕ) → (y * y) ^ k ≡ y ^ (2 * k)
pow_square y zero = let e : 2 * 0 ≡ 0 = omega arith in rw (e, pow-zero (y * y), pow-zero y) refl
pow_square y (suc k) =
    let e : 2 * suc k ≡ suc (suc (2 * k)) = omega arith in
    rw (e, pow-suc (y * y) k, pow-suc y (suc (2 * k)), pow-suc y (2 * k), pow_square y k)
      (omega arith)

-- One round of the loop of `expmod`, with the exponent `2 * k + r`.
round_even : (a y n k : ℕ) → a * (y * y % n) ^ k % n ≡ a * y ^ (2 * k) % n
round_even a y n k =
    sym (mul_mod a ((y * y % n) ^ k) n)
    ∙ rw (pow_mod (y * y) n k, pow_square y k) (mul_mod a (y ^ (2 * k)) n)

round_odd : (a y n k : ℕ) → a * y % n * (y * y % n) ^ k % n ≡ a * y ^ suc (2 * k) % n
round_odd a y n k =
    round_even (a * y % n) y n k
    ∙ mod_mul (a * y) (y ^ (2 * k)) n
    ∙ rw (pow-suc y (2 * k)) (ap (λ t. t % n) (omega arith))

expmod_loop_lem :
    (fuel n x y accum : ℕ)
    → x ≤ fuel
    → accum % n ≡ accum
    → expmod_loop fuel n x y accum ≡ some (accum * y ^ x % n)
unfolding expmod_loop
expmod_loop_lem fuel n zero y accum enough reduced =
    ap some
      (sym reduced ∙ ap (λ (t : ℕ). t % n) (omega (arith, ap (λ (t : ℕ). accum * t) (pow-zero y))))
expmod_loop_lem zero n (suc x) y accum enough reduced = absurd (omega arith)
expmod_loop_lem (suc fuel) n (suc x) y accum enough reduced = elim (Bool-cases (suc x % 2 == 1)) [
  | inl e ↦
      let odd : suc x ≡ suc (2 * (suc x / 2)) = ground arith in
      rw (e, expmod_loop)
        (expmod_loop_lem fuel n (suc x / 2) (y * y % n) (accum * y % n) (omega arith)
            (mod-mod (accum * y) n)
          ∙ ap some (round_odd accum y n (suc x / 2))
          ∙ ap (λ (t : ℕ). some (accum * y ^ t % n)) (sym odd))
  | inr e ↦
      let even : suc x ≡ 2 * (suc x / 2) = ground arith in
      rw (e, expmod_loop)
        (expmod_loop_lem fuel n (suc x / 2) (y * y % n) accum (omega arith) reduced
          ∙ ap some (round_even accum y n (suc x / 2))
          ∙ ap (λ (t : ℕ). some (accum * y ^ t % n)) (sym even))
]

expmod_lem : (a b n : ℕ) → 1 < n → expmod a b n ≡ some (a ^ b % n)
unfolding expmod
expmod_lem a b n h =
    expmod_loop_lem (suc b) n b (a % n) 1 (omega arith) (mod-eq_of_lt h)
    ∙ ap some (ap (λ (t : ℕ). t % n) (omega arith) ∙ pow_mod a n b)

-- One number of the generator after `k` steps, by its multiplier.
coordinate : (x a k n : ℕ) → a * x % n * (a ^ k % n) % n ≡ x * (a ^ suc k % n) % n
coordinate x a k n =
    mod_mul (a * x) (a ^ k % n) n
    ∙ mul_mod (a * x) (a ^ k) n
    ∙ ap (λ (t : ℕ). t % n) (omega (arith, ap (λ (t : ℕ). x * t) (pow-suc a k)))
    ∙ sym (mul_mod x (a ^ suc k) n)

-- The generator's numbers are reduced, as they are from `seed` on.
abbrev pub IsReduced : Generator → Type 0
IsReduced g = (g.x < 30269) × (g.y < 30307) × (g.z < 30323)

abbrev jump : ℕ → Generator → Generator
jump k g = record {
  x = g.x * (171 ^ k % 30269) % 30269;
  y = g.y * (172 ^ k % 30307) % 30307;
  z = g.z * (170 ^ k % 30323) % 30323;
}

start : (x a n : ℕ) → 1 < n → x < n → x * (a ^ 0 % n) % n ≡ x
start x a n one h =
    let e : a ^ 0 % n ≡ 1 = ap (λ (t : ℕ). t % n) (pow-zero a) ∙ mod-eq_of_lt one in
    let f : x * 1 ≡ x = omega arith in rw (e, f) (mod-eq_of_lt h)

-- Two generators with equal numbers.
same_generator : (g h : Generator) → g.x ≡ h.x → g.y ≡ h.y → g.z ≡ h.z → g ≡ h
same_generator g h p q r = λ i. record { x = p i; y = q i; z = r i }

jump-steps : (k : ℕ) (g : Generator) → IsReduced g → jump k g ≡ steps k g
unfolding steps next
jump-steps zero g (p, q, r) =
    same_generator (jump 0 g) g (start g.x 171 30269 (omega arith) p)
      (start g.y 172 30307 (omega arith) q) (start g.z 170 30323 (omega arith) r)
jump-steps (suc k) g h =
    same_generator (jump (suc k) g) (jump k (next g)) (sym (coordinate g.x 171 k 30269))
      (sym (coordinate g.y 172 k 30307)) (sym (coordinate g.z 170 k 30323))
    ∙ jump-steps k (next g) (omega arith, omega arith, omega arith)

-- From reduced numbers on, `jumpahead` ends, and it leaves the generator where as many calls of
-- `wh_random` leave it.
pub jumpahead-steps :
    (jumps : ℕ) (g : Generator) → IsReduced g → jumpahead jumps g ≡ some (steps jumps g)
unfolding jumpahead
jumpahead-steps jumps g h =
    rw
      (
        expmod_lem 171 jumps 30269 (omega arith),
        expmod_lem 172 jumps 30307 (omega arith),
        expmod_lem 170 jumps 30323 (omega arith),
      )
      (ap some (jump-steps jumps g h))
