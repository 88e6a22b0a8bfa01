-- ===== src/Redundant/Caches.antt =====
-- What the caches that `initValueCaches` of dadisi/DistRedundantShare.cpp fills hold: a row of values
-- for each disk, and a value for each disk whose share has been corrected.
use data_distribution_simula.Base.{
  ℕ, zero, suc, refl, sym, ap, subst, inl, inr, Option, none, some, List, [], arith, Option-cases,
  Bool-cases, length, get_elem?, get_elem?-lt, set, length-set, get_elem?-set_self, All,
  some-injective, ◌+◌, ◌-◌, ◌≤◌, ◌<◌, ◌≡◌, ◌∷◌, ◌∙◌, ◌>>=◌, >>=-eq-some,
}
use data_distribution_simula.Rational.{Rational}
use data_distribution_simula.Redundant.{
  error_value, fill_errors, find_errors, check_new, correct_disk, correct_disks, hash_value,
  hash_row, hash_rows, value_at, create_mpz, max_unit64,
}
use data_distribution_simula.Redundant.Disks.{RsDisk}

-- The copy for which a share is corrected is one of the copies.
abbrev pub IsCounted : {Q : Type 0} → ℕ → RsDisk Q → Type 0
IsCounted copies d = (k : ℕ) → d.k_error ≡ some (suc k) → suc k < copies

-- The cache has a value at an index, and it has one for a disk with an error.
abbrev pub Holds : List (Option ℕ) → ℕ → Type 0
Holds values j = (v : ℕ) × (get_elem? values j ≡ some (some v))

abbrev pub IsCached : {Q : Type 0} → List (Option ℕ) → RsDisk Q → Type 0
IsCached values d = (k : ℕ) → d.k_error ≡ some (suc k) → Holds values k

set-Holds :
    (values : List (Option ℕ)) (k j v : ℕ) → Holds values j → Holds (set values k (some v)) j
set-Holds [] k j v (w, h) = (w, h)
set-Holds (x ∷ values) zero zero v (w, h) = (v, refl)
set-Holds (x ∷ values) zero (suc j) v (w, h) = (w, h)
set-Holds (x ∷ values) (suc k) zero v (w, h) = (w, h)
set-Holds (x ∷ values) (suc k) (suc j) v (w, h) = set-Holds values k j v (w, h)

module _ {Q : Type 0} (rat : Rational Q) (copies : ℕ) where
  pub find_errors-IsCounted :
      (l i : ℕ) (ds : List (RsDisk Q)) (errors : List (Option ℕ))
      → All (λ d. d.k_error ≡ none) ds
      → l ≤ copies
      → All (IsCounted copies) (find_errors rat l i ds errors).0
  unfolding find_errors
  find_errors-IsCounted l i [] errors clean few = tt
  find_errors-IsCounted l i (d ∷ ds) errors clean few =
      let plain : IsCounted copies d = λ k e. cc (clean.0) in
      elim (Bool-cases (rat.eq (rat.mul d.check_c (rat.of_integer l)) (rat.of_integer 1))) [
        | inl same ↦ rw same (
          plain,
          find_errors-IsCounted (l - 1) (i + 1) ds (set errors (l - 1) none) clean.1 (omega arith),
        )
        | inr differs ↦
            elim (Bool-cases (rat.lt (rat.of_integer 1) (rat.mul d.check_c (rat.of_integer l)))) [
              | inl more ↦
                  rw (differs, more)
                    (
                      (λ k e. omega (arith, some-injective e)),
                      find_errors-IsCounted (l - 1) (i + 1) ds (set errors (l - 1) (some i)) clean.1
                          (omega arith),
                    )
              | inr less ↦
                  rw (differs, less) (plain, find_errors-IsCounted l (i + 1) ds errors clean.1 few)
            ]
      ]

  set-IsCounted :
      (e : ℕ) (ds : List (RsDisk Q)) (d : RsDisk Q) (star : Q)
      → get_elem? ds e ≡ some d
      → All (IsCounted copies) ds
      → All (IsCounted copies) (set ds e (record d { check_c_star = star }))
  set-IsCounted e [] d star at all = tt
  set-IsCounted zero (x ∷ ds) d star at all =
      (subst (IsCounted copies) (some-injective at) all.0, all.1)
  set-IsCounted (suc e) (x ∷ ds) d star at all = (all.0, set-IsCounted e ds d star at all.1)

  pub correct_disks-IsCounted :
      (i : ℕ) (errors : List (Option ℕ)) (ds found : List (RsDisk Q))
      → All (IsCounted copies) ds
      → correct_disks rat copies i errors ds ≡ some found
      → All (IsCounted copies) found
  unfolding correct_disks correct_disk
  correct_disks-IsCounted i [] ds found all run =
      subst (All (IsCounted copies)) (some-injective run) all
  correct_disks-IsCounted i (none ∷ errors) ds found all run =
      correct_disks-IsCounted (i + 1) errors ds found all run
  correct_disks-IsCounted i (some e ∷ errors) ds found all run =
      let written = λ (q : Q) (d : RsDisk Q).
        set ds e (record d { check_c_star = rat.mul q (rat.of_integer i) }) in
      let (next, here, rest) = >>=-eq-some (correct_disk rat copies i e ds) _ run in
      let (q, h, then_write) =
        >>=-eq-some (check_new rat copies i e ds) (λ q. get_elem? ds e >>= λ d. some (written q d))
          here in
      let (d, at, last) = >>=-eq-some (get_elem? ds e) (λ d. some (written q d)) then_write in
      correct_disks-IsCounted (i + 1) errors next found
        (subst (All (IsCounted copies)) (some-injective last)
          (set-IsCounted e ds d (rat.mul q (rat.of_integer i)) at all))
        rest

  fill-one :
      (i : ℕ) (d : RsDisk Q) (ds : List (RsDisk Q)) (values disks : List (Option ℕ)) (e : Option ℕ)
      → d.k_error ≡ e
      → fill_errors rat i (d ∷ ds) values disks ≡ elim e [
        | none ↦ fill_errors rat (i + 1) ds values disks
        | some zero ↦ fill_errors rat (i + 1) ds values disks
        | some (suc k) ↦ error_value rat d >>= λ v.
            fill_errors rat (i + 1) ds (set values k (some v)) (set disks (suc k) (some i))
      ]
  unfolding fill_errors
  fill-one i d ds values disks e h = rw h refl

  -- What the loop does to the values: those that are there stay, and each disk gets its own.
  pub fill_errors-IsCached :
      (i : ℕ) (ds : List (RsDisk Q)) (values disks filled found : List (Option ℕ))
      → All (IsCounted copies) ds
      → length values ≡ copies
      → fill_errors rat i ds values disks ≡ some (filled, found)
      → ((j : ℕ) → Holds values j → Holds filled j) × All (IsCached filled) ds
  unfolding fill_errors
  fill_errors-IsCached i [] values disks filled found counted len run =
      let same : values ≡ filled = ap (λ p. p.0) (some-injective run) in
      ((λ j h. subst (λ l. Holds l j) same h), tt)
  fill_errors-IsCached i (d ∷ ds) values disks filled found counted len run =
      let step = λ (values disks : List (Option ℕ)).
        fill_errors-IsCached (i + 1) ds values disks filled found counted.1 in
      elim (Option-cases d.k_error) [
        | inl e ↦
            let (kept, own) =
              step values disks len (sym (fill-one i d ds values disks none e) ∙ run) in
            (kept, ((λ k h. cc), own))
        | inr (zero, e) ↦
            let (kept, own) =
              step values disks len (sym (fill-one i d ds values disks (some zero) e) ∙ run) in
            (kept, ((λ k h. cc), own))
        | inr (suc k, e) ↦
            let (v, here, rest) =
              >>=-eq-some (error_value rat d)
                (λ v.
                  fill_errors rat (i + 1) ds (set values k (some v)) (set disks (suc k) (some i)))
                (sym (fill-one i d ds values disks (some (suc k)) e) ∙ run) in
            let (kept, own) =
              step (set values k (some v)) (set disks (suc k) (some i))
                (length-set values k (some v) ∙ len) rest in
            let small : suc k < copies = counted.0 k e in
            (
              (λ j h. kept j (set-Holds values k j v h)),
              (
                (λ m h.
                    let same : k ≡ m = omega (arith, some-injective (sym e ∙ h)) in
                    subst (Holds filled) same
                      (kept k (v, get_elem?-set_self values k (some v) (omega arith)))),
                own,
              ),
            )
      ]

  -- Each row has a value for each copy.
  hash_row-length :
      (base : Q) (n copy : ℕ) (row : List ℕ) → hash_row rat base n copy ≡ some row → length row ≡ n
  unfolding hash_row
  hash_row-length base zero copy row run = ap length (sym (some-injective run))
  hash_row-length base (suc n) copy row run =
      let (v, here, later) = >>=-eq-some (hash_value rat base copy) _ run in
      let (rest, more, last) =
        >>=-eq-some (hash_row rat base n (copy + 1)) (λ rest. some (v ∷ rest)) later in
      ap length (sym (some-injective last)) ∙ ap suc (hash_row-length base n (copy + 1) rest more)

  pub hash_rows-value_at :
      (ds : List (RsDisk Q)) (rows : List (List ℕ)) (i t : ℕ)
      → hash_rows rat copies ds ≡ some rows
      → i < length ds
      → t < copies
      → (v : ℕ) × (value_at rows i t ≡ some v)
  unfolding hash_rows
  hash_rows-value_at [] rows i t run inside few = absurd (omega arith)
  hash_rows-value_at (d ∷ ds) rows i t run inside few =
      let base = rat.mul d.check_c (rat.of_integer (create_mpz max_unit64)) in
      let (row, here, later) = >>=-eq-some (hash_row rat base copies 0) _ run in
      let (rest, more, last) =
        >>=-eq-some (hash_rows rat copies ds) (λ rest. some (row ∷ rest)) later in
      subst (λ rows. (v : ℕ) × (value_at rows i t ≡ some v)) (some-injective last)
        (elim i as (λ i. i < suc (length ds) → (v : ℕ) × (value_at (row ∷ rest) i t ≡ some v)) [
          | zero ↦ λ inside.
              get_elem?-lt row t (omega (arith, few, hash_row-length base copies 0 row here))
          | suc j ↦ λ inside. hash_rows-value_at ds rest j t more (omega arith) few
        ]
          inside)
