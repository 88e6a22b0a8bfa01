-- ===== src/Share/Setup.antt =====
-- The set-up of dadisi/DistShare.cpp: what the intervals are that it lays out, and that each border
-- gets a distributor.
use data_distribution_simula.Base.{
  ℕ, zero, suc, subst, inl, inr, some, List, [], arith, length, All, Has, IsAscending,
  some-injective, ◌+◌, ◌<◌, ◌≡◌, ◌⊎◌, ◌∷◌, ◌++◌, ◌>>=◌, >>=-eq-some,
}
use data_distribution_simula.Disk.{Disk}
use data_distribution_simula.ImprovedMap.{set_insert}
use data_distribution_simula.NearestNeighbour.Keys.{set_insert-IsAscending}
use data_distribution_simula.Share.Intervals.{
  Outside, ShareDisk, lay_copies, lay_disks, interval_end, interval_length, interval_rounds,
}

-- The borders ascend, and the disks of the intervals are those of the list.
pub record IsLaid (names : List ℕ) (laid : List ℕ × List ShareDisk) : Type 0 where
  pub ascending : IsAscending laid.0
  pub known : All (λ sd. Has sd.id names) laid.1

set_insert-length : (k : ℕ) (xs : List ℕ) → 0 < length (set_insert k xs)
unfolding set_insert
set_insert-length k [] = omega arith
set_insert-length k (x ∷ xs) = ground arith

All-append_one {ℓ} :
    {A : Type ℓ} (P : A → Type 0) (xs : List A) (x : A) → All P xs → P x → All P (xs ++ (x ∷ []))
All-append_one P [] x h p = (p, tt)
All-append_one P (y ∷ xs) x h p = (h.0, All-append_one P xs x h.1 p)

module _ {R : Type 0} (outside : Outside R) (names : List ℕ) where
  lay_copies-IsLaid :
      (size : ℕ) (d : Disk) (n i : ℕ) (laid laid' : List ℕ × List ShareDisk)
      → Has d.id names
      → IsLaid names laid
      → lay_copies outside size d n i laid ≡ some laid'
      → IsLaid names laid' × ((0 < n) ⊎ (0 < length laid.0) → 0 < length laid'.0)
  unfolding lay_copies
  lay_copies-IsLaid size d zero i laid laid' has is run =
      let same : laid ≡ laid' = some-injective run in
      (
        subst (IsLaid names) same is,
        λ h. elim h [ inl p ↦ absurd (omega arith) | inr p ↦ subst (λ l. 0 < length l.0) same p ],
      )
  lay_copies-IsLaid size d (suc n) i (borders, s_disks) laid' has is run =
      let start = outside.of_disk d.id i in
      let step = λ (end : ℕ). lay_copies outside size d n (i + 1) (
        set_insert end (set_insert start borders),
        s_disks
            ++ (record {
              id = d.id;
              start = start;
              end = end;
              rounds = interval_rounds size;
              copy = i;
            }
                ∷ []),
      ) in
      let (end, here, rest) = >>=-eq-some (interval_end outside.text size start) step run in
      let next : IsLaid names (
        set_insert end (set_insert start borders),
        s_disks
            ++ (record {
              id = d.id;
              start = start;
              end = end;
              rounds = interval_rounds size;
              copy = i;
            }
                ∷ []),
      ) =
        record {
          ascending =
              set_insert-IsAscending end (set_insert start borders)
                (set_insert-IsAscending start borders is.ascending);
          known = All-append_one _ s_disks _ is.known has;
        } in
      let (after, some_border) = lay_copies-IsLaid size d n (i + 1) _ laid' has next rest in
      (after, λ h. some_border (inr (set_insert-length end (set_insert start borders))))

  pub lay_disks-IsLaid :
      (copies capacity : ℕ) (factor : R) (ds : List Disk) (laid laid' : List ℕ × List ShareDisk)
      → All (λ d. Has d.id names) ds
      → IsLaid names laid
      → 0 < copies
      → lay_disks outside copies capacity factor ds laid ≡ some laid'
      → IsLaid names laid' × ((0 < length ds) ⊎ (0 < length laid.0) → 0 < length laid'.0)
  unfolding lay_disks
  lay_disks-IsLaid copies capacity factor [] laid laid' has is positive run =
      let same : laid ≡ laid' = some-injective run in
      (
        subst (IsLaid names) same is,
        λ h. elim h [ inl p ↦ absurd (omega arith) | inr p ↦ subst (λ l. 0 < length l.0) same p ],
      )
  lay_disks-IsLaid copies capacity factor (d ∷ ds) laid laid' has is positive run =
      let (size, measured, rest) =
        >>=-eq-some (interval_length outside capacity factor d)
          (λ size.
            lay_copies outside size d copies 0 laid >>= lay_disks outside copies capacity factor ds)
          run in
      let (next, here, later) =
        >>=-eq-some (lay_copies outside size d copies 0 laid)
          (lay_disks outside copies capacity factor ds) rest in
      let (is', some_border) = lay_copies-IsLaid size d copies 0 laid next has.0 is here in
      let (is'', some_border') =
        lay_disks-IsLaid copies capacity factor ds next laid' has.1 is' positive later in
      (is'', λ h. some_border' (inr (some_border (inl positive))))
