-- ===== src/Helper/RoundTrip.antt =====
-- What dadisi/helper.cpp reads of a printed number.
use mathlib.Core.List.{append_assoc, append-nil}
use native.Mathlib.Decide.{dec_lt}
use data_distribution_simula.Base.{
  ℕ, zero, suc, refl, ap, true, false, Option, none, some, List, [], arith, ltb, lt→ltb, ◌+◌, ◌-◌,
  ◌/◌, ◌%◌, ◌^◌, ◌≤◌, ◌<◌, ◌≡◌, ◌∷◌, ◌++◌, if◌then◌else◌, subst, inl, inr, Bool-cases, ◌==◌, ◌∙◌,
  leb, ◌&&◌, sym,
}
use data_distribution_simula.Word.{add64, mul64, sub64}
use data_distribution_simula.Helper.{
  returned, skip_blanks, octal, decimal, hexadecimal, digits, read_base, read_digits, negated,
  read_signed, read_unsigned, read_int64, read_uint64, create_mpz,
}

-- The digits of a number, the first of which is not 0 unless it is the only one.
abbrev pub digit : ℕ → ℕ
digit d = if ltb d 10 then b'0' + d else b'a' + (d - 10)

unfoldable pub printed_within : ℕ → ℕ → ℕ → List ℕ
printed_within zero base n = digit n ∷ []
printed_within (suc fuel) base n =
    let upper = printed_within fuel base (n / base) in
    if ltb n base then digit n ∷ [] else upper ++ (digit (n % base) ∷ [])

unfoldable pub printed : ℕ → ℕ → List ℕ
unfolding printed_within
printed base n = printed_within n base n

-- The text ends here for the reader of digits.
abbrev pub IsEnd : (ℕ → Option ℕ) → List ℕ → Type 0
IsEnd value [] = Unit
IsEnd value (c ∷ cs) = value c ≡ none

digits-IsEnd :
    (value : ℕ → Option ℕ) (base : ℕ) (rest : List ℕ) (r : ℕ)
    → IsEnd value rest
    → digits value base rest r ≡ r
unfolding digits
digits-IsEnd value base [] r end = refl
digits-IsEnd value base (c ∷ cs) r end = rw (end, digits) refl

-- A base whose digits are read as they are printed.
record IsBase (value : ℕ → Option ℕ) (base : ℕ) : Type 0 where
  large : 1 < base
  digit_value : (d : ℕ) → d < base → value (digit d) ≡ some d
  step : (n : ℕ) → add64 (mul64 (n / base % 2 ^ 64) base) (n % base) ≡ n % 2 ^ 64
  smaller : (n : ℕ) → base ≤ n → n / base < n
  remainder : (n : ℕ) → n % base < base

digits_step :
    (value : ℕ → Option ℕ) (base c d : ℕ) (cs : List ℕ) (r : ℕ)
    → value c ≡ some d
    → digits value base (c ∷ cs) r ≡ digits value base cs (add64 (mul64 r base) d)
unfolding digits
digits_step value base c d cs r e = rw (e, digits) refl

digits-printed_within :
    (value : ℕ → Option ℕ) (base : ℕ)
    → IsBase value base
    → (fuel n : ℕ) (rest : List ℕ) → n ≤ fuel
    → digits value base (printed_within fuel base n ++ rest) 0 ≡ digits value base rest (n % 2 ^ 64)
unfolding printed_within
digits-printed_within value base b zero n rest enough =
    let none_left : n ≡ 0 = omega arith in
    rw none_left (
      digits_step value base (digit 0) 0 rest 0 (b.digit_value 0 (omega (arith, b.large)))
      ∙ ap (digits value base rest) (omega arith))
digits-printed_within value base b (suc fuel) n rest enough = elim (dec_lt n base) [
  | yes small ↦
      let one_digit : ltb n base ≡ true = lt→ltb n base small in
      rw one_digit (
        digits_step value base (digit n) n rest 0 (b.digit_value n small)
        ∙ ap (digits value base rest) (omega arith))
  | no large ↦
      let more_digits : ltb n base ≡ false = ground arith in
      let upper = printed_within fuel base (n / base) in
      let low = digit (n % base) in
      let shorter = b.smaller n (omega arith) in
      let read = digits-printed_within value base b fuel (n / base) (low ∷ rest) (omega arith) in
      let last =
        digits_step value base low (n % base) rest (n / base % 2 ^ 64)
          (b.digit_value (n % base) (b.remainder n)) in
      rw (more_digits, append_assoc upper (low ∷ []) rest)
        (read ∙ last ∙ ap (digits value base rest) (b.step n))
]

octal-IsBase : IsBase octal 8
unfolding octal
octal-IsBase = record {
  large = omega arith;
  digit_value = λ d h. ground arith;
  step = λ n. omega arith;
  smaller = λ n h. omega arith;
  remainder = λ n. omega arith;
}

decimal-IsBase : IsBase decimal 10
unfolding decimal
decimal-IsBase = record {
  large = omega arith;
  digit_value = λ d h. ground arith;
  step = λ n. omega arith;
  smaller = λ n h. omega arith;
  remainder = λ n. omega arith;
}

hexadecimal-IsBase : IsBase hexadecimal 16
unfolding hexadecimal
hexadecimal-IsBase = record {
  large = omega arith;
  digit_value = λ d h. ground arith;
  step = λ n. omega arith;
  smaller = λ n h. omega arith;
  remainder = λ n. omega arith;
}

-- The test of the loop that skips blanks never holds.
pub skip_blanks_none : (text : List ℕ) → skip_blanks text ≡ text
unfolding skip_blanks
skip_blanks_none [] = refl
skip_blanks_none (c ∷ cs) =
    let never : (c == b' ') && leb c 0 ≡ false = elim (Bool-cases (c == b' ')) [
      | inl e ↦ let blank : c ≡ b' ' = ground arith in rw blank refl
      | inr e ↦ rw e refl
    ] in
    rw never (ap (λ l. c ∷ l) (skip_blanks_none cs))

digit-large : (d : ℕ) → b'0' ≤ digit d
digit-large d = ground arith

printed_within-start :
    (fuel base n : ℕ) → (c : ℕ) × (cs : List ℕ) × (printed_within fuel base n ≡ c ∷ cs) × (b'0' ≤ c)
unfolding printed_within
printed_within-start zero base n = (digit n, [], refl, digit-large n)
printed_within-start (suc fuel) base n = elim (Bool-cases (ltb n base)) [
  | inl e ↦ rw e (digit n, [], refl, digit-large n)
  | inr e ↦
      let (c, cs, upper, large) = printed_within-start fuel base (n / base) in
      rw (e, upper) (c, cs ++ (digit (n % base) ∷ []), refl, large)
]

-- A text that starts with a digit is read by its base.
pub read_uint64-start :
    (fuel before base c : ℕ) (cs : List ℕ)
    → b'0' ≤ c
    → 0 < base
    → read_uint64 fuel before (c ∷ cs) base ≡ read_base fuel (base, c ∷ cs, before)
unfolding read_uint64 read_unsigned read_digits
read_uint64-start fuel before base c cs large named =
    let plain : c == b'-' ≡ false = ground arith in
    let given : base == 0 ≡ false = ground arith in
    ap (read_unsigned fuel before base) (skip_blanks_none (c ∷ cs)) ∙ rw (plain, given) refl

pub read_int64-start :
    (fuel before base c : ℕ) (cs : List ℕ)
    → b'0' ≤ c
    → 0 < base
    → read_int64 fuel before (c ∷ cs) base ≡ read_base fuel (base, c ∷ cs, before)
unfolding read_int64 read_signed read_digits
read_int64-start fuel before base c cs large named =
    let plain : c == b'-' ≡ false = ground arith in
    let given : base == 0 ≡ false = ground arith in
    ap (read_signed fuel before base) (skip_blanks_none (c ∷ cs)) ∙ rw (plain, given) refl

read_int64-minus :
    (fuel before base : ℕ) (cs : List ℕ)
    → 0 < base
    → read_int64 fuel before (b'-' ∷ cs) base ≡ negated (read_base fuel (base, cs, b'-'))
unfolding read_int64 read_signed read_digits
read_int64-minus fuel before base cs named =
    let given : base == 0 ≡ false = ground arith in
    ap (read_signed fuel before base) (skip_blanks_none (b'-' ∷ cs)) ∙ rw given refl

-- The numbers of a base, read by the switch.
module _ (value : ℕ → Option ℕ) (base : ℕ) (b : IsBase value base)
    (switched : (fuel before : ℕ) (text : List ℕ)
      → read_base fuel (base, text, before) ≡ returned (digits value base text 0)) where
  digits-printed :
      (n : ℕ) (rest : List ℕ)
      → IsEnd value rest
      → digits value base (printed base n ++ rest) 0 ≡ n % 2 ^ 64
  unfolding printed
  digits-printed n rest end =
      digits-printed_within value base b n n rest (omega arith)
      ∙ digits-IsEnd value base rest (n % 2 ^ 64) end

  read_uint64-printed :
      (fuel before n : ℕ) (rest : List ℕ)
      → IsEnd value rest
      → read_uint64 fuel before (printed base n ++ rest) base ≡ returned (n % 2 ^ 64)
  unfolding printed
  read_uint64-printed fuel before n rest end =
      let (c, cs, e, large) = printed_within-start n base n in
      let text : printed base n ++ rest ≡ c ∷ (cs ++ rest) = ap (λ l. l ++ rest) e in
      let whole =
        subst (λ t. digits value base t 0 ≡ n % 2 ^ 64) text (digits-printed n rest end) in
      ap (λ t. read_uint64 fuel before t base) text
      ∙ read_uint64-start fuel before base c (cs ++ rest) large (omega (arith, b.large))
      ∙ switched fuel before (c ∷ (cs ++ rest))
      ∙ ap returned whole

  read_int64-printed :
      (fuel before n : ℕ) (rest : List ℕ)
      → IsEnd value rest
      → read_int64 fuel before (b'-' ∷ (printed base n ++ rest)) base
        ≡ returned (sub64 0 (n % 2 ^ 64))
  unfolding negated
  read_int64-printed fuel before n rest end =
      read_int64-minus fuel before base (printed base n ++ rest) (omega (arith, b.large))
      ∙ ap negated
          (switched fuel b'-' (printed base n ++ rest) ∙ ap returned (digits-printed n rest end))

-- A number printed in the base 8, 10 or 16, with any text after it that does not start with a digit,
-- is read back by that base: as the number modulo 2 ^ 64 without a sign, and as its negative modulo
-- 2 ^ 64 after a minus sign.
pub read-printed :
    (fuel before n : ℕ) (rest : List ℕ)
    → IsEnd octal rest
    → IsEnd decimal rest
    → IsEnd hexadecimal rest
    → ((read_uint64 fuel before (printed 8 n ++ rest) 8 ≡ returned (n % 2 ^ 64))
        × (read_int64 fuel before (b'-' ∷ (printed 8 n ++ rest)) 8
            ≡ returned (sub64 0 (n % 2 ^ 64))))
      × ((read_uint64 fuel before (printed 10 n ++ rest) 10 ≡ returned (n % 2 ^ 64))
          × (read_int64 fuel before (b'-' ∷ (printed 10 n ++ rest)) 10
              ≡ returned (sub64 0 (n % 2 ^ 64))))
      × ((read_uint64 fuel before (printed 16 n ++ rest) 16 ≡ returned (n % 2 ^ 64))
          × (read_int64 fuel before (b'-' ∷ (printed 16 n ++ rest)) 16
              ≡ returned (sub64 0 (n % 2 ^ 64))))
unfolding read_base
read-printed fuel before n rest end8 end10 end16 = (
  (
    read_uint64-printed octal 8 octal-IsBase (λ f b t. refl) fuel before n rest end8,
    read_int64-printed octal 8 octal-IsBase (λ f b t. refl) fuel before n rest end8,
  ),
  (
    read_uint64-printed decimal 10 decimal-IsBase (λ f b t. refl) fuel before n rest end10,
    read_int64-printed decimal 10 decimal-IsBase (λ f b t. refl) fuel before n rest end10,
  ),
  (
    read_uint64-printed hexadecimal 16 hexadecimal-IsBase (λ f b t. refl) fuel before n rest end16,
    read_int64-printed hexadecimal 16 hexadecimal-IsBase (λ f b t. refl) fuel before n rest end16,
  ),
)

-- Splitting a pattern of 64 bits and putting it together again gives the pattern: a negative number
-- becomes one that is 2 ^ 64 greater.
pub create_mpz_lem : (num : ℕ) → num < 2 ^ 64 → create_mpz num ≡ num
unfolding create_mpz
create_mpz_lem num h = omega arith

-- Without a sign the two readers agree on a printed number.
pub read_int64-printed_decimal : (n : ℕ) → read_int64 0 0 (printed 10 n) 10 ≡ returned (n % 2 ^ 64)
unfolding printed
read_int64-printed_decimal n =
    let (c, cs, e, large) = printed_within-start n 10 n in
    let read : read_uint64 0 0 (printed 10 n) 10 ≡ returned (n % 2 ^ 64) =
      subst (λ text. read_uint64 0 0 text 10 ≡ returned (n % 2 ^ 64)) (append-nil (printed 10 n))
        (read-printed 0 0 n [] tt tt tt).1.0 in
    ap (λ text. read_int64 0 0 text 10) e
    ∙ read_int64-start 0 0 10 c cs large (omega arith)
    ∙ sym (read_uint64-start 0 0 10 c cs large (omega arith))
    ∙ ap (λ text. read_uint64 0 0 text 10) (sym e)
    ∙ read
