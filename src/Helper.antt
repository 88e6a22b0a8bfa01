-- ===== src/Helper.antt =====
-- Reading numbers from texts, and splitting them for the big-number library: dadisi/helper.cpp.
--
-- A text is the list of its bytes before the terminating 0. A number of 64 bits is its pattern;
-- where a signed number overflows, which the language leaves undefined, it wraps around.
pub mod RoundTrip
pub mod Endless
use data_distribution_simula.Base.{
  ℕ, zero, suc, Option, none, some, List, [], leb, ◌+◌, ◌-◌, ◌*◌, ◌%◌, ◌^◌, ◌&&◌, ◌∷◌, ◌==◌,
  if◌then◌else◌,
}
use data_distribution_simula.Word.{add64, sub64, mul64, shl64, shr64}

-- What a call does: it returns a number, throws 1, or has not returned within its fuel.
pub data Reading : Type 0 where
  returned : ℕ → Reading
  thrown : Reading
  unfinished : Reading

-- The loop that skips blanks.
unfoldable pub skip_blanks : List ℕ → List ℕ
skip_blanks [] = []
skip_blanks (c ∷ cs) =
    let rest = skip_blanks cs in if (c == b' ') && leb c 0 then rest else c ∷ rest

-- The value of a digit in each base.
unfoldable pub octal : ℕ → Option ℕ
octal c = if leb b'0' c && leb c b'7' then some (c - b'0') else none

unfoldable pub decimal : ℕ → Option ℕ
decimal c = if leb b'0' c && leb c b'9' then some (c - b'0') else none

unfoldable pub hexadecimal : ℕ → Option ℕ
hexadecimal c =
    if leb b'0' c && leb c b'9'
    then some (c - b'0')
    else if leb b'a' c && leb c b'f'
    then some (c - b'a' + 10)
    else if leb b'A' c && leb c b'F'
    then some (c - b'A' + 10)
    else none

-- The loops of the bases 8, 10 and 16, which multiply what they have by the base (by a shift for 8
-- and 16) and add the digit.
unfoldable pub digits : (ℕ → Option ℕ) → ℕ → List ℕ → ℕ → ℕ
digits value base [] result = result
digits value base (c ∷ cs) result = elim (value c) [
  | none ↦ result
  | some d ↦ digits value base cs (add64 (mul64 result base) d)
]

-- The loop of the base 2, on fuel: it adds the byte before the one that it has tested, and comes
-- back to that one.
unfoldable pub binary : ℕ → ℕ → List ℕ → ℕ → Reading
binary zero before text result = unfinished
binary (suc fuel) before [] result = returned result
binary (suc fuel) before (c ∷ cs) result =
    let rest = binary fuel before (c ∷ cs) (sub64 (add64 (shl64 result 1) before) b'0') in
    if leb b'0' c && leb c b'1' then rest else returned result

-- The base that a text names by its start, with the rest of the text and the byte before it.
unfoldable pub named_base : ℕ → List ℕ → ℕ × List ℕ × ℕ
named_base before [] = (10, [], before)
named_base before (c ∷ []) = if c == b'0' then (8, [], c) else (10, c ∷ [], before)
named_base before (c ∷ d ∷ cs) =
    if c == b'0'
    then if d == b'x' then (16, cs, d) else (8, d ∷ cs, c)
    else (10, c ∷ d ∷ cs, before)

-- The switch.
unfoldable pub read_base : ℕ → ℕ × List ℕ × ℕ → Reading
unfolding octal decimal hexadecimal digits binary
read_base fuel (base, text, before) =
    if base == 2
    then binary fuel before text 0
    else if base == 8
    then returned (digits octal 8 text 0)
    else if base == 10
    then returned (digits decimal 10 text 0)
    else if base == 16
    then returned (digits hexadecimal 16 text 0)
    else returned 0

unfoldable pub read_digits : ℕ → ℕ → ℕ → List ℕ → Reading
unfolding named_base read_base
read_digits fuel base before text =
    read_base fuel (if base == 0 then named_base before text else (base, text, before))

unfoldable pub negated : Reading → Reading
negated (returned n) = returned (sub64 0 n)
negated thrown = thrown
negated unfinished = unfinished

-- What follows the blanks, for `readInt64_t` and for `readUint64_t`.
unfoldable pub read_signed : ℕ → ℕ → ℕ → List ℕ → Reading
unfolding read_digits negated
read_signed fuel before base [] = thrown
read_signed fuel before base (c ∷ cs) =
    if c == b'-'
    then negated (read_digits fuel base c cs)
    else read_digits fuel base before (c ∷ cs)

unfoldable pub read_unsigned : ℕ → ℕ → ℕ → List ℕ → Reading
unfolding read_digits
read_unsigned fuel before base [] = thrown
read_unsigned fuel before base (c ∷ cs) =
    if c == b'-' then thrown else read_digits fuel base before (c ∷ cs)

-- `readInt64_t`, where `before` is the byte in memory before the text
unfoldable pub read_int64 : ℕ → ℕ → List ℕ → ℕ → Reading
unfolding skip_blanks read_signed
read_int64 fuel before value base = read_signed fuel before base (skip_blanks value)

-- `readUint64_t`
unfoldable pub read_uint64 : ℕ → ℕ → List ℕ → ℕ → Reading
unfolding skip_blanks read_unsigned
read_uint64 fuel before value base = read_unsigned fuel before base (skip_blanks value)

-- `create_mpz`: the number is made of its upper and its lower 32 bits, whose conversions to the
-- number type of the library keep them.
unfoldable pub create_mpz : ℕ → ℕ
create_mpz num =
    let upper = shr64 num 32 % 2 ^ 32 in
    let lower = shr64 (shl64 num 32) 32 % 2 ^ 32 in upper * 2 ^ 32 + lower
