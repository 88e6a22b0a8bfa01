-- ===== src/Tests/Hash.antt =====
-- Hashes of short texts.
use data_distribution_simula.Base.{
  ℕ, refl, some, List, [], arith, length, get_or, take, ◌+◌, ◌%◌, ◌^◌, ◌≡◌, ◌∷◌,
}
use data_distribution_simula.Hash.{Library, new, gcrypt, little_endian, mixed}
use data_distribution_simula.Hash.Digest.{AreBytes, gcrypt-little_endian}
use data_distribution_simula.Hash.Folding.{column, xor_all, mixed-column}

abbrev bytes : List ℕ
bytes = 1 ∷ 2 ∷ 3 ∷ 4 ∷ 5 ∷ 6 ∷ 7 ∷ 255 ∷ 9 ∷ []

abbrev stub : Library
stub = record {
  sha1 = λ message. some (length message);
  rand = λ seed i. (seed + i) % 2 ^ 31;
  digest = λ text. bytes;
}

bytes-AreBytes : AreBytes bytes
bytes-AreBytes = omega arith

gcrypt-little_endian_example : gcrypt stub (1 ∷ []) ≡ some (little_endian (take 8 bytes))
gcrypt-little_endian_example = gcrypt-little_endian stub (1 ∷ []) bytes-AreBytes (omega arith)

-- A text of ten bytes goes round a message of four.
abbrev text : List ℕ
text = 1 ∷ 2 ∷ 3 ∷ 4 ∷ 5 ∷ 6 ∷ 7 ∷ 8 ∷ 16 ∷ 32 ∷ []

mixed-column_example : get_or (mixed 4 new text) 1 0 ≡ xor_all 0 (column 4 1 0 text)
mixed-column_example = mixed-column 4 1 new text (omega arith) (omega arith)

text-column : column 4 1 0 text ≡ 2 ∷ 6 ∷ 32 ∷ []
text-column = refl

mixed-run : mixed 4 new text ≡ 20 ∷ 36 ∷ 4 ∷ 12 ∷ []
unfolding mixed
mixed-run = refl
