-- ===== src/Hash.antt =====
-- The hashes of texts: the class `Distributor` of dadisi/Distributor.cpp.
--
-- A text and a message are lists of bytes, and the machine stores the lowest byte first. What other
-- code computes is a parameter: SHA-1, the C library's `rand`, and the digest of the gcrypt library.
-- A thrown exception and an `abort` are `none`.
pub mod Digest
pub mod Folding
use Prim.Native.Nat.{bit_and, bit_or, bit_xor}
use data_distribution_simula.Base.{
  ℕ, zero, suc, ◌+◌, ◌*◌, ◌%◌, ◌/◌, ◌^◌, Bool, Option, none, some, List, [], ◌∷◌, length, set,
  get_or, take, replicate, ◌==◌, if◌then◌else◌, true,
}
use data_distribution_simula.Word.{add64, mul64, shl64}

pub record Distributor : Type 0 where
  pub base_message : List ℕ
  pub internel_hash : Bool
  pub internal_hash_algorithm : ℕ
  pub a : ℕ
  pub b : ℕ

pub record Library : Type 0 where
  -- `SHA1` of a message of 64 bytes, unless it fails
  pub sha1 : List ℕ → Option ℕ
  -- the numbers that `rand` gives in turn after `srand(seed)`
  pub rand : ℕ → ℕ → ℕ
  -- `gcry_md_hash_buffer`
  pub digest : List ℕ → List ℕ

abbrev pub hash_sha1 : ℕ
hash_sha1 = 1

abbrev pub hash_xor : ℕ
hash_xor = 2

abbrev pub hash_rand : ℕ
hash_rand = 3

abbrev pub hash_mt : ℕ
hash_mt = 4

-- The constructor.
abbrev pub new : Distributor
new = record {
  base_message = replicate 64 0;
  internel_hash = true;
  internal_hash_algorithm = hash_sha1;
  a = add64 5_000_000_000_000_000_000 5_000_000_000_000_000_051;
  b = 13;
}

-- `setBaseMessage`, which copies 64 bytes
unfoldable pub set_base_message : List ℕ → Distributor → Distributor
set_base_message message d = record d { base_message = take 64 message }

-- The loop that folds the text into the message: byte `i` into byte `i % width`.
unfoldable pub fold_in : ℕ → ℕ → List ℕ → List ℕ → List ℕ
fold_in width i [] message = message
fold_in width i (c ∷ cs) message =
    fold_in width (i + 1) cs (set message (i % width) (bit_xor (get_or message (i % width) 0) c))

-- `newMessage`. The size of the text is kept in a `uint16_t`.
unfoldable pub mixed : ℕ → Distributor → List ℕ → List ℕ
unfolding fold_in
mixed width d text = fold_in width 0 (take (length text % 2 ^ 16) text) (take width d.base_message)

-- The number that the bytes are in memory.
unfoldable pub little_endian : List ℕ → ℕ
little_endian [] = 0
little_endian (b ∷ bs) = b + 256 * little_endian bs

-- The tempering of a 32-bit word, as in the Mersenne Twister.
unfoldable pub tempered : ℕ → ℕ
tempered y =
    let a = bit_xor y (y / 2 ^ 11) in
    let b = bit_xor a (bit_and (a * 2 ^ 7 % 2 ^ 32) 0x9d2c5680) in
    let c = bit_xor b (bit_and (b * 2 ^ 15 % 2 ^ 32) 0xefc60000) in bit_xor c (c / 2 ^ 18)

-- `myMTRand`
unfoldable pub my_mt_rand : Distributor → List ℕ → ℕ
unfolding mixed little_endian tempered
my_mt_rand d text =
    let seed = little_endian (mixed 4 d text) in
    let seed2 = (1_812_433_253 * bit_xor seed (seed / 2 ^ 30) + 1) % 2 ^ 32 in
    bit_or (shl64 (tempered seed) 32) (tempered seed2)

-- `myRand`: every call of `rand` replaces what the ones before gave.
unfoldable pub my_rand : Library → Distributor → List ℕ → ℕ
unfolding mixed little_endian
my_rand lib d text = lib.rand (little_endian (mixed 4 d text)) 3

-- `myLC`
unfoldable pub my_lc : Distributor → List ℕ → ℕ
unfolding mixed little_endian
my_lc d text = add64 (mul64 (little_endian (mixed 8 d text)) d.a) d.b

-- `mySHA1`
unfoldable pub my_sha1 : Library → Distributor → List ℕ → Option ℕ
unfolding mixed
my_sha1 lib d text = lib.sha1 (mixed 64 d text)

-- The loop of `gcrypt` over the first bytes of the digest, with `n` left, from byte `i` on. A digest
-- that is too short is read past its end.
unfoldable pub gather : ℕ → ℕ → List ℕ → ℕ → ℕ → Option ℕ
gather zero i run mask result = some result
gather (suc n) i [] mask result = none
gather (suc n) i (j ∷ run) mask result =
    let tmp = bit_and (shl64 (bit_and j 0xff) (8 * i)) mask in
    gather n (i + 1) run (shl64 mask 8) (bit_or result tmp)

-- `gcrypt`
unfoldable pub gcrypt : Library → List ℕ → Option ℕ
unfolding gather
gcrypt lib text = gather 8 0 (lib.digest text) 0xff 0

-- `hashFunctionInt64`
unfoldable pub hash_function_int64 : Library → Distributor → List ℕ → Option ℕ
unfolding my_sha1 my_lc my_rand my_mt_rand gcrypt
hash_function_int64 lib d text =
    if d.internel_hash
    then if d.internal_hash_algorithm == hash_sha1
      then my_sha1 lib d text
      else if d.internal_hash_algorithm == hash_xor
      then some (my_lc d text)
      else if d.internal_hash_algorithm == hash_rand
      then some (my_rand lib d text)
      else if d.internal_hash_algorithm == hash_mt
      then some (my_mt_rand d text)
      else none
    else gcrypt lib text
