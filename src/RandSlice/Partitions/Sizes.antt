-- ===== src/RandSlice/Partitions/Sizes.antt =====
-- The first sizes of the partitions, of dadisi/DistRandSlice.cpp.
use mathlib.Core.List.{append_assoc}
use data_distribution_simula.Base.{
  ℕ, IsUnique, Has-append_one, sym, ap, subst, inl, inr, Bool, false, List, [], map, arith,
  Bool-cases, All, Has, ◌+◌, ◌-◌, ◌%◌, ◌^◌, ◌<◌, ◌≡◌, ◌∷◌, ◌++◌, ◌==◌, ◌∙◌, refl,
}
use data_distribution_simula.Dictionary.{keys, assign, keys-assign_new}
use data_distribution_simula.Disk.{Disk}
use data_distribution_simula.Double.{Double, IsUnsigned}
use data_distribution_simula.RandSlice.Collect.Laws.{total}
use data_distribution_simula.RandSlice.Partitions.{
  Tree, RandSlice, done, interval_end, is_last, lay_out, create_partitions, proportion, vspace_max,
  add_capacities,
}

pub total-assign_new :
    (k v : ℕ) (m : List (ℕ × ℕ)) → ¬ Has k (keys m) → total (assign k v m) ≡ total m + v
unfolding assign
total-assign_new k v [] h = omega arith
total-assign_new k v ((j, w) ∷ m) h = elim (Bool-cases (j == k)) [
  | inl e ↦ absurd (h (inl (ground arith)))
  | inr e ↦ rw (e, assign) (omega (arith, total-assign_new k v m (λ t. h (inr t))))
]

-- None of the numbers is a key of the table.
abbrev pub AreNew : List ℕ → List (ℕ × ℕ) → Type 0
AreNew ks m = All (λ k. ¬ Has k (keys m)) ks

pub AreNew-assign :
    (k v : ℕ) (ks : List ℕ) (m : List (ℕ × ℕ))
    → ¬ Has k ks
    → ¬ Has k (keys m)
    → AreNew ks m
    → AreNew ks (assign k v m)
AreNew-assign k v [] m new absent h = tt
AreNew-assign k v (j ∷ ks) m new absent (here, rest) = (
  λ t. elim (Has-append_one j k (keys m) (subst (Has j) (keys-assign_new k v m absent) t)) [
    | inl old ↦ here old
    | inr same ↦ new (inl (sym same))
  ],
  AreNew-assign k v ks m (λ t. new (inr t)) absent rest,
)

pub AreNew-nil : (ks : List ℕ) → AreNew ks []
AreNew-nil [] = tt
AreNew-nil (k ∷ ks) = (λ h. h, AreNew-nil ks)

abbrev pub ids : List Disk → List ℕ
ids = map (λ d. d.id)

module _ {R : Type 0} (dbl : Double R) (unsigned : IsUnsigned dbl) where
  interval_end-lt : (sum i0 : ℕ) (d : Disk) (last : Bool) → interval_end dbl sum i0 d last < 2 ^ 64
  unfolding interval_end
  interval_end-lt sum i0 d last = ground (
    arith,
    unsigned (
        dbl.floor (
          dbl.add (dbl.of_unsigned i0)
            (dbl.mul (proportion dbl d.capacity sum) (dbl.of_unsigned (2 ^ 64 - 1))))),
  )

  lay_out-total :
      {T : Type 0} (tree : Tree T) (sum i0 : ℕ) (d : Disk) (ds : List Disk) (sizes : List (ℕ × ℕ))
      (t : T)
      → i0 < 2 ^ 64
      → IsUnique (ids (d ∷ ds))
      → AreNew (ids (d ∷ ds)) sizes
      → ((total (lay_out dbl tree sum i0 (d ∷ ds) sizes t).0 + i0) % 2 ^ 64
          ≡ (total sizes + (2 ^ 64 - 1)) % 2 ^ 64)
        × (keys (lay_out dbl tree sum i0 (d ∷ ds) sizes t).0 ≡ keys sizes ++ ids (d ∷ ds))
  unfolding lay_out is_last interval_end
  lay_out-total tree sum i0 d [] sizes t lt unique (new, news) = (
    omega (arith, total-assign_new d.id ((2 ^ 64 - 1 + 2 ^ 64 - i0) % 2 ^ 64) sizes new),
    keys-assign_new d.id _ sizes new,
  )
  lay_out-total tree sum i0 d (e ∷ ds) sizes t lt (apart, unique) (new, news) =
      let i1 = interval_end dbl sum i0 d false in
      let v = (i1 + 2 ^ 64 - i0) % 2 ^ 64 in
      let (sums, names) =
        lay_out-total tree sum i1 e ds (assign d.id v sizes) (tree.insert_front i0 i1 d.id t)
          (interval_end-lt sum i0 d false) unique
          (AreNew-assign d.id v (ids (e ∷ ds)) sizes apart new news) in
      (
        omega (arith, sums, total-assign_new d.id v sizes new, interval_end-lt sum i0 d false),
        names
            ∙ ap (λ l. l ++ ids (e ∷ ds)) (keys-assign_new d.id v sizes new)
            ∙ append_assoc (keys sizes) (d.id ∷ []) (ids (e ∷ ds)),
      )

-- Where a conversion to `uint64_t` gives a number of 64 bits, `create_partitions` on a list of disks
-- that is not empty, with different ids, does not fault: each disk has one partition, and the sizes
-- of the partitions add up to the whole space (modulo 2 ^ 64), whatever the rounding of the shares.
pub create_partitions-total :
    {R T : Type 0} (dbl : Double R) (tree : Tree T) (s : RandSlice T) (d : Disk) (ds : List Disk)
    → IsUnsigned dbl
    → IsUnique (ids (d ∷ ds))
    → (s' : RandSlice T) × (create_partitions dbl tree s (d ∷ ds) ≡ done s')
      × (keys s'.partitions ≡ ids (d ∷ ds))
      × (total s'.partitions % 2 ^ 64 ≡ vspace_max)
unfolding create_partitions
create_partitions-total dbl tree s d ds unsigned unique =
    let sum = add_capacities (d ∷ ds) s.capacity in
    let (sums, names) =
      lay_out-total dbl unsigned tree sum 0 d ds [] (tree.create 0 vspace_max d.id) (omega arith)
        unique (AreNew-nil (ids (d ∷ ds))) in
    (_, refl, names, omega (arith, sums))
