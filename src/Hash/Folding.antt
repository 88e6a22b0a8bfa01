-- ===== src/Hash/Folding.antt =====
-- How a text is folded into the message that is hashed: `newMessage` of `myMTRand`, `myRand`, `myLC`
-- and `mySHA1` of dadisi/Distributor.cpp.
use Prim.Native.Nat.{bit_xor}
use native.Mathlib.Nat.{mod-lt}
use data_distribution_simula.Base.{
  ℕ, zero, suc, refl, inl, inr, List, [], arith, length, set, get_or, take, length-take, length-set,
  Bool-cases, ◌+◌, ◌%◌, ◌^◌, ◌≤◌, ◌<◌, ◌≡◌, ◌∷◌, ◌∙◌, ◌==◌, if◌then◌else◌, ==_iff,
}
use data_distribution_simula.Hash.{Distributor, fold_in, mixed}

-- The bytes of a text that stand at the places `k`, `k + width`, `k + 2 * width` and so on, where the
-- text starts at the place `i`.
abbrev pub column : ℕ → ℕ → ℕ → List ℕ → List ℕ
column width k i [] = []
column width k i (c ∷ cs) =
    if i % width == k then c ∷ column width k (i + 1) cs else column width k (i + 1) cs

-- All of them, added to a byte without carry.
abbrev pub xor_all : ℕ → List ℕ → ℕ
xor_all b [] = b
xor_all b (c ∷ cs) = xor_all (bit_xor b c) cs

get_or-set :
    (xs : List ℕ) (i k v : ℕ)
    → i < length xs
    → get_or (set xs i v) k 0 ≡ (if i == k then v else get_or xs k 0)
get_or-set [] i k v h = absurd (omega arith)
get_or-set (x ∷ xs) zero zero v h = refl
get_or-set (x ∷ xs) zero (suc k) v h = ground arith
get_or-set (x ∷ xs) (suc i) zero v h = ground arith
get_or-set (x ∷ xs) (suc i) (suc k) v h = get_or-set xs i k v (omega arith) ∙ ground arith

fold_in-column :
    (width i k : ℕ) (text message : List ℕ)
    → 0 < width
    → length message ≡ width
    → get_or (fold_in width i text message) k 0
      ≡ xor_all (get_or message k 0) (column width k i text)
unfolding fold_in
fold_in-column width i k [] message positive len = refl
fold_in-column width i k (c ∷ cs) message positive len =
    let j = i % width in
    let v = bit_xor (get_or message j 0) c in
    let below : j < length message = omega (arith, len, mod-lt i positive) in
    let rest =
      fold_in-column width (i + 1) k cs (set message j v) positive (length-set message j v ∙ len) in
    elim (Bool-cases (j == k)) [
      | inl same ↦
          let e : j ≡ k = (==_iff j k).0 same in
          rest ∙ rw (get_or-set message j k v below, same, e) refl
      | inr other ↦ rest ∙ rw (get_or-set message j k v below, other) refl
    ]

-- Where the base message has at least `width` bytes, the byte `k` of the message is the byte `k` of the
-- base message with every `width`-th byte of the text from the byte `k` on, all added without carry.
-- Of the text only as many bytes count as its length leaves modulo 2 ^ 16.
pub mixed-column :
    (width k : ℕ) (d : Distributor) (text : List ℕ)
    → 0 < width
    → width ≤ length d.base_message
    → get_or (mixed width d text) k 0
      ≡ xor_all
          (get_or (take width d.base_message) k 0)
          (column width k 0 (take (length text % 2 ^ 16) text))
unfolding mixed
mixed-column width k d text positive enough =
    fold_in-column width 0 k (take (length text % 2 ^ 16) text) (take width d.base_message) positive
      (length-take width d.base_message ∙ omega (arith, enough))
