-- ===== src/Helper/Endless.antt =====
-- How the readers of dadisi/helper.cpp fail.
use data_distribution_simula.Base.{
  ℕ, zero, suc, refl, true, List, [], arith, leb, ◌≤◌, ◌≡◌, ◌&&◌, ◌∷◌, ◌∙◌, ap,
}
use data_distribution_simula.Word.{add64, sub64, shl64}
use data_distribution_simula.Helper.{
  thrown, unfinished, skip_blanks, binary, read_base, read_signed, read_unsigned, read_int64,
  read_uint64,
}
use data_distribution_simula.Helper.RoundTrip.{
  skip_blanks_none, read_uint64-start, read_int64-start,
}

binary-unfinished :
    (fuel before c : ℕ) (cs : List ℕ) (result : ℕ)
    → b'0' ≤ c
    → c ≤ b'1'
    → binary fuel before (c ∷ cs) result ≡ unfinished
unfolding binary
binary-unfinished zero before c cs result low high = refl
binary-unfinished (suc fuel) before c cs result low high =
    let test : leb b'0' c && leb c b'1' ≡ true = ground arith in
    rw test
      (binary-unfinished fuel before c cs (sub64 (add64 (shl64 result 1) before) b'0') low high)

-- Both readers throw at an empty text, whatever the base. The unsigned one throws at a minus sign.
-- With the base 2, neither returns within any fuel, where the text starts with 0 or 1.
pub read-fails :
    (fuel before c base : ℕ) (cs : List ℕ)
    → b'0' ≤ c
    → c ≤ b'1'
    → ((read_int64 fuel before [] base ≡ thrown) × (read_uint64 fuel before [] base ≡ thrown))
      × (read_uint64 fuel before (b'-' ∷ cs) base ≡ thrown)
      × ((read_int64 fuel before (c ∷ cs) 2 ≡ unfinished)
          × (read_uint64 fuel before (c ∷ cs) 2 ≡ unfinished))
unfolding read_int64 read_uint64 read_signed read_unsigned skip_blanks read_base
read-fails fuel before c base cs low high =
    let endless = binary-unfinished fuel before c cs 0 low high in
    (
      (refl, refl),
      ap (read_unsigned fuel before base) (skip_blanks_none (b'-' ∷ cs)),
      (
        read_int64-start fuel before 2 c cs low (omega arith) ∙ endless,
        read_uint64-start fuel before 2 c cs low (omega arith) ∙ endless,
      ),
    )
