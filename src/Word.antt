-- ===== src/Word.antt =====
-- Arithmetic on 64-bit and 32-bit patterns (`uint64_t`, `int64_t`, `uint32_t`), shared by the
-- modules. A signed value is its bit pattern.
use data_distribution_simula.Base.{ℕ, ltb, ◌+◌, ◌-◌, ◌*◌, ◌/◌, ◌%◌, ◌^◌, if◌then◌else◌}

-- `a + b`, `a - b`, `a * b`, `~a`
abbrev pub add64 : ℕ → ℕ → ℕ
add64 a b = (a + b) % 2 ^ 64

abbrev pub sub64 : ℕ → ℕ → ℕ
sub64 a b = (a + 2 ^ 64 - b) % 2 ^ 64

abbrev pub mul64 : ℕ → ℕ → ℕ
mul64 a b = a * b % 2 ^ 64

abbrev pub not64 : ℕ → ℕ
not64 a = 2 ^ 64 - 1 - a

-- `a << k`; `a >> k` of an unsigned, and of a signed value, which copies the sign.
abbrev pub shl64 : ℕ → ℕ → ℕ
shl64 a k = a * 2 ^ k % 2 ^ 64

abbrev pub shr64 : ℕ → ℕ → ℕ
shr64 a k = a / 2 ^ k

abbrev pub sar64 : ℕ → ℕ → ℕ
sar64 a k = if ltb a (2 ^ 63) then a / 2 ^ k else a / 2 ^ k + (2 ^ 64 - 2 ^ (64 - k))
