-- ===== src/Hash/Digest.antt =====
-- The hash of a digest, the method `gcrypt` of dadisi/Distributor.cpp: its loop over masks reads a
-- number.
use Prim.Native.Nat.{bit_and, bit_or}
use native.Mathlib.Nat.{pow-suc, pow-le-pow_right, mod-eq_of_lt}
use data_distribution_simula.Base.{
  ℕ, zero, suc, refl, some, List, [], arith, length, ap, take, All, ◌+◌, ◌*◌, ◌%◌, ◌^◌, ◌≤◌, ◌<◌,
  ◌≡◌, ◌∷◌, ◌∙◌,
}
use data_distribution_simula.Word.{shl64}
use data_distribution_simula.Bitwise.{bit_and_ones, bit_or_fields, bit_and-shift}
use data_distribution_simula.Hash.{Library, little_endian, gather, gcrypt}

abbrev pub AreBytes : List ℕ → Type 0
AreBytes = All (λ b. b < 256)

-- The mask of byte `i`, and the number that a byte becomes there.
abbrev at_byte : ℕ → ℕ
at_byte i = 2 ^ (8 * i)

at_byte-suc : (i : ℕ) → at_byte (suc i) ≡ 256 * at_byte i
at_byte-suc i =
    let e : 8 * suc i ≡ suc (suc (suc (suc (suc (suc (suc (suc (8 * i)))))))) = omega arith in
    rw e (omega (arith, pow-suc 2))

at_byte-le : (i : ℕ) → i < 8 → at_byte i ≤ 2 ^ 56
at_byte-le i h = pow-le-pow_right (omega arith) {i = 8 * i} {j = 56} (omega arith)

-- One round of the loop of `gcrypt`.
put_byte :
    (i j r : ℕ)
    → i < 8
    → j < 256
    → r < at_byte i
    → bit_or r (bit_and (shl64 (bit_and j 255) (8 * i)) (255 * at_byte i)) ≡ j * at_byte i + r
put_byte i j r h byte low =
    let same : bit_and j 255 ≡ j = bit_and_ones 8 j 255 byte (omega arith) in
    let small : j * at_byte i ≤ 255 * 2 ^ 56 = grind (arith, at_byte-le i h) in
    let shifted : shl64 j (8 * i) ≡ j * at_byte i = mod-eq_of_lt (omega (arith, small)) in
    rw (same, shifted, bit_and-shift (8 * i) j 255, same) (bit_or_fields (8 * i) j r low)

-- The rounds of the loop of `gcrypt` from byte `i` on.
gather-little_endian :
    (n i r : ℕ) (run : List ℕ)
    → i + n ≡ 8
    → AreBytes run
    → n ≤ length run
    → r < at_byte i
    → gather n i run (255 * at_byte i % 2 ^ 64) r
      ≡ some (r + at_byte i * little_endian (take n run))
unfolding gather little_endian
gather-little_endian zero i r run e bytes enough low = ap some (omega arith)
gather-little_endian (suc n) i r [] e bytes enough low = absurd (omega arith)
gather-little_endian (suc n) i r (j ∷ run) e (byte, bytes) enough low =
    let bound = at_byte-le i (omega arith) in
    let mask : 255 * at_byte i % 2 ^ 64 ≡ 255 * at_byte i = omega (arith, bound) in
    let next : shl64 (255 * at_byte i) 8 ≡ 255 * at_byte (suc i) % 2 ^ 64 =
      omega (arith, at_byte-suc i) in
    let small : j * at_byte i ≤ 255 * at_byte i = grind arith in
    let one_more : i + 1 ≡ suc i = omega arith in
    let rest =
      gather-little_endian n (suc i) (j * at_byte i + r) run (omega arith) bytes (omega arith)
        (omega (arith, at_byte-suc i)) in
    rw (mask, next, one_more, put_byte i j r (omega arith) byte low, rest, at_byte-suc i)
      (ap some (omega arith))

-- Where the digest is at least 8 bytes, the hash is its first 8 bytes, read with the lowest one first.
pub gcrypt-little_endian :
    (lib : Library) (text : List ℕ)
    → AreBytes (lib.digest text)
    → 8 ≤ length (lib.digest text)
    → gcrypt lib text ≡ some (little_endian (take 8 (lib.digest text)))
unfolding gcrypt
gcrypt-little_endian lib text bytes enough =
    gather-little_endian 8 0 0 (lib.digest text) refl bytes enough (omega arith)
    ∙ ap some (omega arith)
