-- ===== src/Tests/Helper.antt =====
-- Reading short texts.
use data_distribution_simula.Base.{refl, [], arith, ◌%◌, ◌^◌, ◌≡◌, ◌∷◌, ◌++◌}
use data_distribution_simula.Word.{sub64}
use data_distribution_simula.Helper.{
  Reading, returned, thrown, unfinished, read_int64, read_uint64, create_mpz,
}
use data_distribution_simula.Helper.RoundTrip.{printed, read-printed, create_mpz_lem}
use data_distribution_simula.Helper.Endless.{read-fails}

read-printed_example :
    ((read_uint64 9 0 (printed 8 255 ++ (b';' ∷ [])) 8 ≡ returned (255 % 2 ^ 64))
      × (read_int64 9 0 (b'-' ∷ (printed 8 255 ++ (b';' ∷ []))) 8
          ≡ returned (sub64 0 (255 % 2 ^ 64))))
    × ((read_uint64 9 0 (printed 10 255 ++ (b';' ∷ [])) 10 ≡ returned (255 % 2 ^ 64))
        × (read_int64 9 0 (b'-' ∷ (printed 10 255 ++ (b';' ∷ []))) 10
            ≡ returned (sub64 0 (255 % 2 ^ 64))))
    × ((read_uint64 9 0 (printed 16 255 ++ (b';' ∷ [])) 16 ≡ returned (255 % 2 ^ 64))
        × (read_int64 9 0 (b'-' ∷ (printed 16 255 ++ (b';' ∷ []))) 16
            ≡ returned (sub64 0 (255 % 2 ^ 64))))
unfolding data_distribution_simula.Helper.octal data_distribution_simula.Helper.decimal
    data_distribution_simula.Helper.hexadecimal
read-printed_example = read-printed 9 0 255 (b';' ∷ []) refl refl refl

read-fails_example :
    ((read_int64 9 0 [] 2 ≡ thrown) × (read_uint64 9 0 [] 2 ≡ thrown))
    × (read_uint64 9 0 (b'-' ∷ []) 2 ≡ thrown)
    × ((read_int64 9 0 (b'1' ∷ []) 2 ≡ unfinished) × (read_uint64 9 0 (b'1' ∷ []) 2 ≡ unfinished))
read-fails_example = read-fails 9 0 b'1' 2 [] (omega arith) (omega arith)

create_mpz_lem_example : create_mpz 18446744073709551615 ≡ 18446744073709551615
create_mpz_lem_example = create_mpz_lem 18446744073709551615 (omega arith)
