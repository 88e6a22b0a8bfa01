-- ===== src/Bitwise.antt =====
-- Laws of `&`, `|` and `^` at every width, for the hashes.
use Prim.Native.Nat.{bit_and, bit_or, digits, bitwise, differ, bit_and-bitwise, bit_or-bitwise}
use native.Mathlib.Nat.{pow-suc}
use data_distribution_simula.Base.{
  ℕ, zero, suc, min, max, refl, ap, arith, ◌+◌, ◌*◌, ◌/◌, ◌%◌, ◌^◌, ◌≤◌, ◌<◌, ◌≡◌, sym, ◌-◌, ◌∙◌,
}

-- What the recursion on binary digits gives does not depend on fuel that it does not use.
module _ (ends : ℕ → ℕ) (pair : ℕ → ℕ → ℕ) where
  spare : (x y fuel : ℕ) → x ≤ fuel → digits ends pair (suc fuel) x y ≡ digits ends pair fuel x y
  spare zero y zero enough = refl
  spare zero y (suc fuel) enough = refl
  spare (suc x) y zero enough = absurd (omega arith)
  spare (suc x) y (suc fuel) enough =
      let half = spare (suc x / 2) (y / 2) fuel (omega arith) in
      ap (λ upper. upper * 2 + pair (suc x % 2) (y % 2)) half

  spares :
      (extra x y fuel : ℕ)
      → x ≤ fuel
      → digits ends pair (extra + fuel) x y ≡ digits ends pair fuel x y
  spares zero x y fuel enough =
      let same : zero + fuel ≡ fuel = omega arith in ap (λ n. digits ends pair n x y) same
  spares (suc extra) x y fuel enough =
      let same : suc extra + fuel ≡ suc (extra + fuel) = omega arith in
      ap (λ n. digits ends pair n x y) same
      ∙ spare x y (extra + fuel) (omega arith)
      ∙ spares extra x y fuel enough

  -- The lowest bit, and the bits above it.
  lowest :
      ((y : ℕ) → ends y ≡ ends (y / 2) * 2 + pair 0 (y % 2))
      → (x y : ℕ)
      → bitwise ends pair x y ≡ bitwise ends pair (x / 2) (y / 2) * 2 + pair (x % 2) (y % 2)
  lowest at_end zero y = at_end y
  lowest at_end (suc x) y =
      let half = suc x / 2 in
      let whole : x - half + half ≡ x = omega arith in
      ap (λ upper. upper * 2 + pair (suc x % 2) (y % 2))
        (ap (λ n. digits ends pair n half (y / 2)) (sym whole)
          ∙ spares (x - half) half (y / 2) half (omega arith))

  -- The width of the operands is that of the result.
  digits-lt :
      ((x y : ℕ) → x < 2 → y < 2 → pair x y < 2)
      → ((k b : ℕ) → b < 2 ^ k → ends b < 2 ^ k)
      → (n k a b : ℕ) → a < 2 ^ k
      → b < 2 ^ k
      → digits ends pair n a b < 2 ^ k
  digits-lt bit end zero k a b p q = end k b q
  digits-lt bit end (suc n) k zero b p q = end k b q
  digits-lt bit end (suc n) zero (suc a) b p q = absurd (omega arith)
  digits-lt bit end (suc n) (suc k) (suc a) b p q =
      let rest =
        digits-lt bit end n k (suc a / 2) (b / 2) (omega (arith, pow-suc 2 k))
          (omega (arith, pow-suc 2 k)) in
      omega (arith, pow-suc 2 k, rest, bit (suc a % 2) (b % 2) (omega arith) (omega arith))

pub bit_or_halves : (x y : ℕ) → bit_or x y ≡ bit_or (x / 2) (y / 2) * 2 + max (x % 2) (y % 2)
bit_or_halves x y =
    bit_or-bitwise x y
    ∙ lowest (λ y. y) max (λ y. omega arith) x y
    ∙ ap (λ upper. upper * 2 + max (x % 2) (y % 2)) (sym (bit_or-bitwise (x / 2) (y / 2)))

pub bit_and_halves : (x y : ℕ) → bit_and x y ≡ bit_and (x / 2) (y / 2) * 2 + min (x % 2) (y % 2)
bit_and_halves x y =
    bit_and-bitwise x y
    ∙ lowest (λ y. 0) min (λ y. omega arith) x y
    ∙ ap (λ upper. upper * 2 + min (x % 2) (y % 2)) (sym (bit_and-bitwise (x / 2) (y / 2)))

differ-lt : (x y : ℕ) → x < 2 → y < 2 → differ x y < 2
differ-lt zero y p q = q
differ-lt (suc x) zero p q = p
differ-lt (suc zero) (suc zero) p q = omega arith
differ-lt (suc zero) (suc (suc y)) p q = absurd (omega arith)
differ-lt (suc (suc x)) (suc y) p q = absurd (omega arith)

bit_and-lt : (k a b : ℕ) → a < 2 ^ k → b < 2 ^ k → bit_and a b < 2 ^ k
bit_and-lt k a b p q = omega (
  arith,
  bit_and-bitwise a b,
  digits-lt (λ b. 0) min (λ x y p q. omega arith) (λ k b h. omega arith) a k a b p q,
)

half_mul_pow : (q k : ℕ) → q * 2 ^ suc k ≡ 2 * (q * 2 ^ k)
half_mul_pow q k = omega (arith, ap (λ (t : ℕ). q * t) (pow-suc 2 k))

half_of_even : (a b : ℕ) → a ≡ 2 * b → a / 2 ≡ b
half_of_even a b e = omega arith

-- Two numbers whose bits do not meet: `|` is the sum.
pub bit_or_fields : (k q r : ℕ) → r < 2 ^ k → bit_or r (q * 2 ^ k) ≡ q * 2 ^ k + r
bit_or_fields zero q r h =
    let none_left : r ≡ 0 = omega arith in
    rw none_left (omega (arith, bit_or-bitwise 0 (q * 2 ^ 0)))
bit_or_fields (suc k) q r h = omega (
  arith,
  bit_or_halves r (q * 2 ^ suc k),
  half_mul_pow q k,
  ap (bit_or (r / 2)) (half_of_even (q * 2 ^ suc k) (q * 2 ^ k) (half_mul_pow q k)),
  pow-suc 2 k,
  bit_or_fields k q (r / 2) (omega (arith, pow-suc 2 k)),
)

pub bit_and-shift : (k a b : ℕ) → bit_and (a * 2 ^ k) (b * 2 ^ k) ≡ bit_and a b * 2 ^ k
bit_and-shift zero a b =
    let e : a * 2 ^ 0 ≡ a = omega arith in
    let f : b * 2 ^ 0 ≡ b = omega arith in
    let g : bit_and a b * 2 ^ 0 ≡ bit_and a b = omega arith in rw (e, f, g) refl
bit_and-shift (suc k) a b = omega (
  arith,
  bit_and_halves (a * 2 ^ suc k) (b * 2 ^ suc k),
  half_mul_pow a k,
  half_mul_pow b k,
  half_mul_pow (bit_and a b) k,
  ap (λ t. bit_and t (b * 2 ^ suc k / 2))
      (half_of_even (a * 2 ^ suc k) (a * 2 ^ k) (half_mul_pow a k)),
  ap (bit_and (a * 2 ^ k)) (half_of_even (b * 2 ^ suc k) (b * 2 ^ k) (half_mul_pow b k)),
  bit_and-shift k a b,
)

-- A mask of ones keeps the bits under it.
pub bit_and_ones : (k a m : ℕ) → a < 2 ^ k → m + 1 ≡ 2 ^ k → bit_and a m ≡ a
bit_and_ones zero a m h e = omega (arith, bit_and-lt 0 a m h (omega arith))
bit_and_ones (suc k) a m h e = omega (
  arith,
  pow-suc 2 k,
  bit_and_halves a m,
  bit_and_ones k (a / 2) (m / 2) (omega (arith, pow-suc 2 k)) (omega (arith, pow-suc 2 k)),
)
