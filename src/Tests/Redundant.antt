-- ===== src/Tests/Redundant.antt =====
-- The redundant share on small sets of disks.
use data_distribution_simula.Base.{
  ℕ, zero, suc, subst, some-injective, ap, ◌∙◌, inl, get_elem?, refl, false, Option, none, some,
  List, [], map, arith, length, All, ◌+◌, ◌-◌, ◌*◌, ◌%◌, ◌^◌, ◌≤◌, ◌<◌, ◌≡◌, ◌∷◌,
}
use data_distribution_simula.Disk.{Disk}
use data_distribution_simula.Redundant.{
  RedundantShare, new, set_disks, place_extent, find_errors, correct_disks, init_value_caches,
  value_at,
}
use data_distribution_simula.Redundant.Disks
use data_distribution_simula.Redundant.Disks.{
  RsDisk, insert_all, insert_disk, align_disks, rs_disk_compare,
}
use data_distribution_simula.Redundant.Correction.{r}
use data_distribution_simula.Redundant.Order.{disks_of}
use data_distribution_simula.Redundant.Align.{IsGiven, Ranked, given_sum, align_disks-fits}
use data_distribution_simula.Redundant.Extent.{AreDifferent, place_extent-AreDifferent}
use data_distribution_simula.Redundant.Placement.{IsTight}
use data_distribution_simula.Redundant.Failing.{set_disks-outer}
use data_distribution_simula.Helper.RoundTrip.{printed}
use data_distribution_simula.Tests.Rationals.{Fraction, fractions, fractions-IsGuarded}

abbrev disk : ℕ → ℕ → Disk
disk id capacity = record { id = id; capacity = capacity; payload = 0 }

abbrev two_copies : RedundantShare Fraction
two_copies = record (new false) { copies = 2 }

abbrev hash : ℕ → ℕ → ℕ
hash id position = (id * 11_400_714_819_323_198_485 + position * 7_000_000_000_000_000_001) % 2 ^ 64

hash-small : (id position : ℕ) → hash id position < 2 ^ 64
hash-small id position = omega arith

-- A disk that has to be cut.
abbrev large_first : List (RsDisk Fraction)
large_first = map (Disks.new fractions) (disk 1 100 ∷ disk 2 10 ∷ disk 3 5 ∷ [])

align_disks-fits_example :
    (disks_of (align_disks fractions 2 3 large_first).0 ≡ disks_of large_first)
    × ((align_disks fractions 2 3 large_first).1
        ≡ given_sum fractions 2 3 (align_disks fractions 2 3 large_first).0)
    × All
        (λ d.
          (0 < d.aligned_capacity)
          × (d.aligned_capacity ≤ d.disk.capacity)
          × (2 * d.aligned_capacity ≤ (align_disks fractions 2 3 large_first).1))
        (align_disks fractions 2 3 large_first).0
    × Ranked (IsGiven fractions 2 3) (align_disks fractions 2 3 large_first).0
align_disks-fits_example =
    align_disks-fits fractions 2 large_first (omega arith) (omega arith) (omega arith) (omega arith)

-- Three disks of the same capacity and two small ones, of which one exceeds its share.
abbrev uneven : List Disk
uneven = disk 1 20 ∷ disk 2 20 ∷ disk 3 20 ∷ disk 4 5 ∷ disk 5 4 ∷ []

abbrev or_new : Option (RedundantShare Fraction) → RedundantShare Fraction
or_new none = new false
or_new (some r) = r

uneven_ready :
    set_disks fractions two_copies uneven ≡ some (or_new (set_disks fractions two_copies uneven))
unfolding set_disks insert_all align_disks find_errors correct_disks init_value_caches printed
uneven_ready = refl

abbrev uneven_set : RedundantShare Fraction
uneven_set = or_new (set_disks fractions two_copies uneven)

uneven-last :
    (i t v : ℕ)
    → t < 2
    → suc t + i ≡ 5
    → value_at uneven_set.hash_values i t ≡ some v
    → 2 ^ 64 - 1 ≤ v
unfolding set_disks insert_all align_disks find_errors correct_disks init_value_caches printed
uneven-last i zero v few e found =
    let four : i ≡ 4 = omega arith in
    let value = subst (λ i. value_at uneven_set.hash_values i 0 ≡ some v) four found in
    omega (arith, some-injective value)
uneven-last i (suc zero) v few e found =
    let three : i ≡ 3 = omega arith in
    let value = subst (λ i. value_at uneven_set.hash_values i 1 ≡ some v) three found in
    omega (arith, some-injective value)
uneven-last i (suc (suc t)) v few e found = absurd (omega arith)

-- The third disk is the one with an error.
uneven-behind :
    (i k : ℕ) (d : RsDisk Fraction)
    → get_elem? uneven_set.disks i ≡ some d
    → d.k_error ≡ some (suc k)
    → suc k + i < 5
unfolding set_disks insert_all align_disks find_errors correct_disks init_value_caches printed
uneven-behind zero k d at e = absurd (cc)
uneven-behind (suc zero) k d at e = absurd (cc)
uneven-behind (suc (suc zero)) k d at e =
    omega (arith, some-injective (ap (λ d. d.k_error) (some-injective at) ∙ e))
uneven-behind (suc (suc (suc zero))) k d at e = absurd (cc)
uneven-behind (suc (suc (suc (suc zero)))) k d at e = absurd (cc)
uneven-behind (suc (suc (suc (suc (suc i))))) k d at e = absurd (cc)

uneven-IsTight : IsTight uneven_set
unfolding set_disks insert_all align_disks find_errors correct_disks init_value_caches printed
uneven-IsTight = record { last = uneven-last; behind = uneven-behind }

-- The share of the third disk, after its correction.
uneven_corrected : uneven_set.error_values ≡ some 14_296_226_657_124_902_501 ∷ none ∷ []
unfolding set_disks insert_all align_disks find_errors correct_disks init_value_caches printed
uneven_corrected = refl

place_extent-AreDifferent_example :
    (placed : List Disk) × (place_extent hash uneven_set 0 17 ≡ some placed)
    × AreDifferent 2 uneven placed
place_extent-AreDifferent_example =
    place_extent-AreDifferent fractions two_copies uneven hash 0 17 hash-small (omega arith)
      (omega arith) (omega arith) uneven_set uneven_ready uneven-IsTight

abbrev similar : List Disk
similar = disk 3 8 ∷ disk 1 10 ∷ disk 2 9 ∷ []

-- The second disk is noted for the second copy.
similar_noted :
    get_elem?
      (find_errors fractions 2 0
        (align_disks fractions 2
          (length (insert_all fractions false similar []))
          (insert_all fractions false similar [])).0
        (none ∷ none ∷ [])).1
      1
    ≡ some (some 1)
unfolding insert_all align_disks find_errors
similar_noted = refl

set_disks-outer_example : set_disks fractions two_copies similar ≡ none
set_disks-outer_example =
    set_disks-outer fractions fractions-IsGuarded two_copies similar 0 1 (omega arith) similar_noted
      (inl (omega arith))
