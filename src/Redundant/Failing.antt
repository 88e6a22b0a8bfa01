-- ===== src/Redundant/Failing.antt =====
-- The corrections of dadisi/DistRedundantShare.cpp that cannot end: those of the shares of the first
-- two disks and of the last one.
use data_distribution_simula.Base.{
  ℕ, zero, suc, refl, ap, inl, inr, Option, none, some, List, [], arith, Bool-cases, Option-cases,
  length, get_elem?, length-map, drop, replicate, false, ltb, leb, ◌+◌, ◌-◌, ◌≤◌, ◌<◌, ◌≡◌, ◌⊎◌,
  ◌∷◌, ◌∙◌, ◌>>=◌, sym,
}
use data_distribution_simula.Disk.{Disk}
use data_distribution_simula.Rational.{Rational, IsGuarded}
use data_distribution_simula.Redundant.{
  RedundantShare, find_errors, check_new, correct_disk, correct_disks, set_disks,
}
use data_distribution_simula.Redundant.Disks.{RsDisk, insert_all, align_disks}
use data_distribution_simula.Redundant.Correction.{r, ki, c_star}
use data_distribution_simula.Redundant.Order.{disks_of}
use data_distribution_simula.Redundant.Kept.{
  align_disks-disks, find_errors-disks, correct_disk-disks,
}

>>=-none {ℓ κ} :
    {A : Type ℓ} {B : Type κ} (m : Option A) (f : A → Option B)
    → ((a : A) → f a ≡ none)
    → (m >>= f) ≡ none
>>=-none none f h = refl
>>=-none (some a) f h = h a

get_elem?-none {ℓ} : {A : Type ℓ} (xs : List A) (i : ℕ) → length xs ≤ i → get_elem? xs i ≡ none
get_elem?-none [] i h = refl
get_elem?-none (x ∷ xs) zero h = absurd (omega arith)
get_elem?-none (x ∷ xs) (suc i) h = get_elem?-none xs i (omega arith)

get_elem?-drop_one {ℓ} :
    {A : Type ℓ} (xs : List A) (k : ℕ) → get_elem? (drop 1 xs) k ≡ get_elem? xs (suc k)
get_elem?-drop_one [] k = refl
get_elem?-drop_one (x ∷ xs) k = refl

same-length :
    {Q : Type 0} (ds es : List (RsDisk Q)) → disks_of ds ≡ disks_of es → length ds ≡ length es
same-length ds es same =
    sym (length-map ds (λ d. d.disk)) ∙ ap length same ∙ length-map es (λ d. d.disk)

-- A disk without two others before it, or without one behind it.
abbrev pub IsOuter : ℕ → ℕ → Type 0
IsOuter n e = (e < 2) ⊎ (n ≤ e + 1)

module _ {Q : Type 0} (rat : Rational Q) (guarded : IsGuarded rat) where
  -- `r` of no disks is 0, and `r` of one disk is 0 or reads the disk before the array.
  r-low :
      (ds : List (RsDisk Q)) (o m end : ℕ)
      → end < 2
      → (r rat ds o m 0 end ≡ some (rat.of_integer 0)) ⊎ (r rat ds o m 0 end ≡ none)
  unfolding r
  r-low ds o m zero low = inl (ground arith)
  r-low ds o m (suc zero) low = elim (Bool-cases (ltb m o)) [
    | inl h ↦ inl (rw h refl)
    | inr h ↦ elim (Bool-cases (leb (1 + o) (0 + m))) [
      | inl g ↦ inl (rw (h, g) refl)
      | inr g ↦ inr (rw (h, g) refl)
    ]
  ]
  r-low ds o m (suc (suc end)) low = absurd (omega arith)

  c_star-outer :
      (ds : List (RsDisk Q)) (copies i l : ℕ)
      → IsOuter (length ds) i
      → c_star rat ds copies i l ≡ none
  unfolding c_star
  c_star-outer ds copies i l (inl low) = >>=-none (ki rat ds copies i l) _ (λ k.
      elim (r-low ds l copies i low) [
        | inl e ↦ rw (e, guarded (rat.mul (rat.create 1 (l - 1)) k)) refl
        | inr e ↦ rw e refl
      ])
  c_star-outer ds copies i l (inr last) = >>=-none (ki rat ds copies i l) _ (λ k.
      >>=-none (r rat ds l copies 0 i) _ (λ before.
        >>=-none (rat.div (rat.mul (rat.create 1 (l - 1)) k) before) _
          (λ tmp. rw (get_elem?-none ds (i + 1) last) refl)))

  correct_disk-outer :
      (copies i e : ℕ) (ds : List (RsDisk Q))
      → IsOuter (length ds) e
      → correct_disk rat copies i e ds ≡ none
  unfolding correct_disk check_new
  correct_disk-outer copies i e ds outer = rw (c_star-outer ds copies e (i + 1) outer) refl

  correct_disks-outer :
      (copies i : ℕ) (errors : List (Option ℕ)) (ds : List (RsDisk Q)) (k e : ℕ)
      → get_elem? errors k ≡ some (some e)
      → IsOuter (length ds) e
      → correct_disks rat copies i errors ds ≡ none
  unfolding correct_disks
  correct_disks-outer copies i [] ds k e at outer = absurd (cc)
  correct_disks-outer copies i (none ∷ errors) ds zero e at outer = absurd (cc)
  correct_disks-outer copies i (none ∷ errors) ds (suc k) e at outer =
      correct_disks-outer copies (i + 1) errors ds k e at outer
  correct_disks-outer copies i (some x ∷ errors) ds zero e at outer =
      let same : x ≡ e = cc in rw (same, correct_disk-outer copies i e ds outer) refl
  correct_disks-outer copies i (some x ∷ errors) ds (suc k) e at outer =
      elim (Option-cases (correct_disk rat copies i x ds)) [
        | inl none_left ↦ rw none_left refl
        | inr (next, here) ↦
            let kept = same-length next ds (correct_disk-disks rat copies i x ds next here) in
            rw here (correct_disks-outer copies (i + 1) errors next k e at (rw kept outer))
      ]

  -- Where there are as many disks as copies, a division by 0 does not return, and the share of a disk is
  -- noted as too large, for another copy than the first, that is one of the first two or the last in
  -- the order of the set: `setDisks` does not come to its end, whatever the fractions are.
  pub set_disks-outer :
      (this : RedundantShare Q) (disks : List Disk) (k e : ℕ)
      → this.copies ≤ length disks
      → get_elem?
          (find_errors rat this.copies 0
            (align_disks rat this.copies
              (length (insert_all rat this.revert_id_order disks []))
              (insert_all rat this.revert_id_order disks [])).0
            (replicate this.copies none)).1
          (suc k)
        ≡ some (some e)
      → IsOuter (length (insert_all rat this.revert_id_order disks [])) e
      → set_disks rat this disks ≡ none
  unfolding set_disks
  set_disks-outer this disks k e few at outer =
      let enough : ltb (length disks) this.copies ≡ false = ground arith in
      let ds = insert_all rat this.revert_id_order disks [] in
      let aligned = align_disks rat this.copies (length ds) ds in
      let found = find_errors rat this.copies 0 aligned.0 (replicate this.copies none) in
      let kept : length found.0 ≡ length ds = same-length found.0 ds (
        find_errors-disks rat this.copies 0 aligned.0 (replicate this.copies none)
        ∙ align_disks-disks rat this.copies (length ds) ds) in
      rw
        (
          enough,
          correct_disks-outer this.copies 1 (drop 1 found.1) found.0 k e
              (get_elem?-drop_one found.1 k ∙ at) (rw kept outer),
        )
        refl
