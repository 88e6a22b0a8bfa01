-- ===== src/Redundant/Kept.antt =====
-- What the loops of `setDisks` of dadisi/DistRedundantShare.cpp leave as it is: the disks and their
-- order.
use data_distribution_simula.Base.{
  ℕ, zero, suc, refl, sym, ap, inl, inr, Option, none, some, List, [], Bool-cases, get_elem?, set,
  some-injective, ◌+◌, ◌-◌, ◌≡◌, ◌∷◌, ◌∙◌, ◌>>=◌, >>=-eq-some, replicate,
}
use data_distribution_simula.Rational.{Rational}
use data_distribution_simula.Redundant.{
  RedundantShare, find_errors, correct_disk, correct_disks, check_new, init_value_caches, hash_rows,
  fill_errors,
}
use data_distribution_simula.Redundant.Disks.{RsDisk, align_disks}
use data_distribution_simula.Redundant.Order.{disks_of}

module _ {Q : Type 0} (rat : Rational Q) where
  pub align_disks-disks :
      (copies all : ℕ) (ds : List (RsDisk Q))
      → disks_of (align_disks rat copies all ds).0 ≡ disks_of ds
  unfolding align_disks
  align_disks-disks copies all [] = refl
  align_disks-disks copies all (d ∷ ds) = ap (◌∷◌ d.disk) (align_disks-disks copies all ds)

  pub find_errors-disks :
      (l i : ℕ) (ds : List (RsDisk Q)) (errors : List (Option ℕ))
      → disks_of (find_errors rat l i ds errors).0 ≡ disks_of ds
  unfolding find_errors
  find_errors-disks l i [] errors = refl
  find_errors-disks l i (d ∷ ds) errors =
      elim (Bool-cases (rat.eq (rat.mul d.check_c (rat.of_integer l)) (rat.of_integer 1))) [
        | inl same ↦
            rw same
              (ap (◌∷◌ d.disk) (find_errors-disks (l - 1) (i + 1) ds (set errors (l - 1) none)))
        | inr differs ↦
            elim (Bool-cases (rat.lt (rat.of_integer 1) (rat.mul d.check_c (rat.of_integer l)))) [
              | inl more ↦
                  rw (differs, more)
                    (ap (◌∷◌ d.disk)
                      (find_errors-disks (l - 1) (i + 1) ds (set errors (l - 1) (some i))))
              | inr less ↦
                  rw (differs, less) (ap (◌∷◌ d.disk) (find_errors-disks l (i + 1) ds errors))
            ]
      ]

  set-disks :
      (e : ℕ) (ds : List (RsDisk Q)) (d : RsDisk Q) (star : Q)
      → get_elem? ds e ≡ some d
      → disks_of (set ds e (record d { check_c_star = star })) ≡ disks_of ds
  set-disks e [] d star at = refl
  set-disks zero (x ∷ ds) d star at = ap (λ x. x.disk ∷ disks_of ds) (sym (some-injective at))
  set-disks (suc e) (x ∷ ds) d star at = ap (◌∷◌ x.disk) (set-disks e ds d star at)

  pub correct_disk-disks :
      (copies i e : ℕ) (ds found : List (RsDisk Q))
      → correct_disk rat copies i e ds ≡ some found
      → disks_of found ≡ disks_of ds
  unfolding correct_disk
  correct_disk-disks copies i e ds found run =
      let written = λ (q : Q) (d : RsDisk Q).
        set ds e (record d { check_c_star = rat.mul q (rat.of_integer i) }) in
      let (q, h, rest) =
        >>=-eq-some (check_new rat copies i e ds) (λ q. get_elem? ds e >>= λ d. some (written q d))
          run in
      let (d, at, last) = >>=-eq-some (get_elem? ds e) (λ d. some (written q d)) rest in
      ap disks_of (sym (some-injective last)) ∙ set-disks e ds d (rat.mul q (rat.of_integer i)) at

  pub correct_disks-disks :
      (copies i : ℕ) (errors : List (Option ℕ)) (ds found : List (RsDisk Q))
      → correct_disks rat copies i errors ds ≡ some found
      → disks_of found ≡ disks_of ds
  unfolding correct_disks
  correct_disks-disks copies i [] ds found run = ap disks_of (sym (some-injective run))
  correct_disks-disks copies i (none ∷ errors) ds found run =
      correct_disks-disks copies (i + 1) errors ds found run
  correct_disks-disks copies i (some e ∷ errors) ds found run =
      let (next, here, rest) = >>=-eq-some (correct_disk rat copies i e ds) _ run in
      correct_disks-disks copies (i + 1) errors next found rest
      ∙ correct_disk-disks copies i e ds next here

  pub init_value_caches-kept :
      (this r : RedundantShare Q)
      → init_value_caches rat this ≡ some r
      → (r.copies ≡ this.copies)
        × (r.disks ≡ this.disks)
        × (hash_rows rat this.copies this.disks ≡ some r.hash_values)
        × (fill_errors rat 0 this.disks (replicate this.copies none) (replicate this.copies none)
            ≡ some (r.error_values, r.error_disks))
  unfolding init_value_caches
  init_value_caches-kept this r run =
      let empty : List (Option ℕ) = replicate this.copies none in
      let done = λ (rows : List (List ℕ)) (errors : List (Option ℕ) × List (Option ℕ)).
        record this { hash_values = rows; error_values = errors.0; error_disks = errors.1 } in
      let (rows, here, rest) =
        >>=-eq-some (hash_rows rat this.copies this.disks)
          (λ rows. fill_errors rat 0 this.disks empty empty >>= λ errors. some (done rows errors))
          run in
      let (errors, fill, last) =
        >>=-eq-some (fill_errors rat 0 this.disks empty empty) (λ errors. some (done rows errors))
          rest in
      let same : done rows errors ≡ r = some-injective last in
      (
        ap (λ r. r.copies) (sym same),
        ap (λ r. r.disks) (sym same),
        here ∙ ap (λ r. some r.hash_values) same,
        fill ∙ ap (λ r. some (r.error_values, r.error_disks)) same,
      )
