-- ===== src/RandSlice/Partitions/Balance.antt =====
-- The sizes of the partitions after disks are added, of dadisi/DistRandSlice.cpp.
use mathlib.Core.List.{append-nil, append_assoc}
use data_distribution_simula.Base.{
  ℕ, IsUnique, Has-append_one, refl, sym, subst, inl, inr, false, some, List, [], arith, ==_iff,
  Bool-cases, All, Has, ◌+◌, ◌-◌, ◌%◌, ◌^◌, ◌<◌, ◌≡◌, ◌∷◌, ◌++◌, ◌==◌, ◌∙◌, ap,
}
use data_distribution_simula.Dictionary.{
  keys, lookup, assign, lookup-assign, lookup-Has, keys-assign_new, keys-assign_known,
  Has-keys_of_lookup,
}
use data_distribution_simula.Disk.{Disk}
use data_distribution_simula.Double.{Double, IsUnsigned}
use data_distribution_simula.RandSlice.Collect.Laws.{total, total-assign}
use data_distribution_simula.RandSlice.Partitions.{
  Shrunk, shrink, grow, add_to_last, balance, enter_sizes, resized, share, proportion,
  proportion_unsigned,
}
use data_distribution_simula.RandSlice.Partitions.Sizes.{
  AreNew, AreNew-assign, total-assign_new, ids,
}

total-append : (xs ys : List (ℕ × ℕ)) → total (xs ++ ys) ≡ total xs + total ys
total-append [] ys = omega arith
total-append (x ∷ xs) ys = omega (arith, total-append xs ys)

keys-append : (xs ys : List (ℕ × ℕ)) → keys (xs ++ ys) ≡ keys xs ++ keys ys
keys-append [] ys = refl
keys-append (x ∷ xs) ys = ap (λ l. x.0 ∷ l) (keys-append xs ys)

-- The entry of an old partition that the loop has not reached: its size still stands in the table,
-- nothing is taken from it, and its disk is known.
abbrev Pending : List (ℕ × Disk) → Shrunk → ℕ × ℕ → Type 0
Pending disks acc e =
    (lookup e.0 acc.sizes ≡ some e.1)
    × (e.1 < 2 ^ 64)
    × (¬ Has e.0 (keys acc.old_partitions))
    × Has e.0 (keys disks)

-- One round of the loop.
abbrev shrunk_by : ℕ → ℕ → ℕ → Shrunk → Shrunk
shrunk_by k old new acc = record {
  old_partitions = assign k ((old + 2 ^ 64 - new) % 2 ^ 64) acc.old_partitions;
  sizes = assign k new acc.sizes;
  to_remove = (acc.to_remove + (old + 2 ^ 64 - new) % 2 ^ 64) % 2 ^ 64;
}

ne_of_Has : (j k : ℕ) (ks : List ℕ) → ¬ Has k ks → Has j ks → (k == j) ≡ false
ne_of_Has j k ks absent h = elim (Bool-cases (k == j)) [
  | inl e ↦ absurd (absent (subst (λ i. Has i ks) (sym ((==_iff k j).0 e)) h))
  | inr e ↦ e
]

Pending-shrunk_by :
    (disks : List (ℕ × Disk)) (k old new : ℕ) (acc : Shrunk) (ps : List (ℕ × ℕ))
    → ¬ Has k (keys acc.old_partitions)
    → ¬ Has k (keys ps)
    → All (Pending disks acc) ps
    → All (Pending disks (shrunk_by k old new acc)) ps
Pending-shrunk_by disks k old new acc [] fresh absent h = tt
Pending-shrunk_by disks k old new acc (e ∷ ps) fresh absent ((size, small, untaken, known), rest) =
    let other : (k == e.0) ≡ false = ne_of_Has e.0 k (keys (e ∷ ps)) absent (inl refl) in
    (
      (
        lookup-assign k e.0 new acc.sizes ∙ rw other size,
        small,
        λ t.
            elim (Has-append_one e.0 k (keys acc.old_partitions)
              (subst (Has e.0) (keys-assign_new k _ acc.old_partitions fresh) t)) [
                | inl before ↦ untaken before
                | inr same ↦ absent (inl (sym same))
              ],
        known,
      ),
      Pending-shrunk_by disks k old new acc ps fresh (λ t. absent (inr t)) rest,
    )

-- What the loop keeps: what is taken from the partitions adds up to `to_remove`, and with the sizes
-- that stand in the table to what there was.
record Shrinks (acc acc' : Shrunk) : Type 0 where
  taken :
      (total acc'.old_partitions + acc.to_remove) % 2 ^ 64
      ≡ (total acc.old_partitions + acc'.to_remove) % 2 ^ 64
  kept : (total acc'.sizes + acc'.to_remove) % 2 ^ 64 ≡ (total acc.sizes + acc.to_remove) % 2 ^ 64
  same_keys : keys acc'.sizes ≡ keys acc.sizes
  bounded : acc'.to_remove < 2 ^ 64

step-Shrinks :
    (k old new : ℕ) (acc acc' : Shrunk)
    → lookup k acc.sizes ≡ some old
    → old < 2 ^ 64
    → new < 2 ^ 64
    → ¬ Has k (keys acc.old_partitions)
    → Shrinks (shrunk_by k old new acc) acc'
    → Shrinks acc acc'
step-Shrinks k old new acc acc' at small size untaken s = record {
  taken = omega (
    arith,
    s.taken,
    total-assign_new k ((old + 2 ^ 64 - new) % 2 ^ 64) acc.old_partitions untaken,
  );
  kept = omega (arith, s.kept, total-assign k old new acc.sizes at);
  same_keys = s.same_keys ∙ keys-assign_known k old new acc.sizes at;
  bounded = s.bounded;
}

module _ {R : Type 0} (dbl : Double R) (unsigned : IsUnsigned dbl) where
  share-lt : (p : R) → share dbl p < 2 ^ 64
  unfolding share
  share-lt p = unsigned (dbl.floor (dbl.mul p (dbl.of_unsigned (2 ^ 64 - 1))))

  shrink-Shrinks :
      (new_capacity : ℕ) (disks : List (ℕ × Disk)) (ps : List (ℕ × ℕ)) (acc : Shrunk)
      → IsUnique (keys ps)
      → All (Pending disks acc) ps
      → acc.to_remove < 2 ^ 64
      → (acc' : Shrunk) × (shrink dbl new_capacity disks ps acc ≡ some acc') × Shrinks acc acc'
  unfolding shrink
  shrink-Shrinks new_capacity disks [] acc unique pending below =
      (acc, refl, record { taken = refl; kept = refl; same_keys = refl; bounded = below })
  shrink-Shrinks new_capacity disks ((k, old) ∷ ps) acc (absent, unique)
        ((size, small, untaken, known), rest) below =
      let (d, disk) = lookup-Has k disks known in
      let new = share dbl (proportion_unsigned dbl d.capacity new_capacity) in
      let (acc', run, s) =
        shrink-Shrinks new_capacity disks ps (shrunk_by k old new acc) unique
          (Pending-shrunk_by disks k old new acc ps untaken absent rest) (omega arith) in
      (
        acc',
        rw (disk, shrink) run,
        step-Shrinks k old new acc acc' size small
            (share-lt (proportion_unsigned dbl d.capacity new_capacity)) untaken s,
      )

  grow-total :
      (new_capacity : ℕ) (ds : List Disk) (acc : List (ℕ × ℕ)) (to_add : ℕ)
      → to_add ≡ total acc % 2 ^ 64
      → ((grow dbl new_capacity ds acc to_add).1
          ≡ total (grow dbl new_capacity ds acc to_add).0 % 2 ^ 64)
        × (keys (grow dbl new_capacity ds acc to_add).0 ≡ keys acc ++ ids ds)
  unfolding grow
  grow-total new_capacity [] acc to_add e = (e, sym (append-nil (keys acc)))
  grow-total new_capacity (d ∷ ds) acc to_add e =
      let size = share dbl (proportion dbl d.capacity new_capacity) in
      let (sums, names) =
        grow-total new_capacity ds (acc ++ ((d.id, size) ∷ [])) ((to_add + size) % 2 ^ 64)
          (omega (arith, e, total-append acc ((d.id, size) ∷ []))) in
      (
        sums,
        names
            ∙ ap (λ l. l ++ ids ds) (keys-append acc ((d.id, size) ∷ []))
            ∙ append_assoc (keys acc) (d.id ∷ []) (ids ds),
      )

add_to_last-total :
    (r : ℕ) (e : ℕ × ℕ) (es : List (ℕ × ℕ))
    → (l : List (ℕ × ℕ)) × (add_to_last r (e ∷ es) ≡ some l)
      × (total l % 2 ^ 64 ≡ (total (e ∷ es) + r) % 2 ^ 64)
      × (keys l ≡ keys (e ∷ es))
unfolding add_to_last
add_to_last-total r e [] = ((e.0, (e.1 + r) % 2 ^ 64) ∷ [], refl, omega arith, refl)
add_to_last-total r e (f ∷ es) =
    let (l, run, sums, names) = add_to_last-total r f es in
    (e ∷ l, rw run refl, omega (arith, sums), ap (λ k. e.0 ∷ k) names)

balance-total :
    (to_remove to_add : ℕ) (e : ℕ × ℕ) (es : List (ℕ × ℕ))
    → to_remove < 2 ^ 64
    → to_add ≡ total (e ∷ es) % 2 ^ 64
    → (l : List (ℕ × ℕ)) × (balance to_remove to_add (e ∷ es) ≡ some l)
      × (total l % 2 ^ 64 ≡ to_remove)
      × (keys l ≡ keys (e ∷ es))
unfolding balance
balance-total to_remove to_add e es small added = elim (Bool-cases (to_remove == to_add)) [
  | inl same ↦ (e ∷ es, rw same refl, ground (arith, added), refl)
  | inr other ↦
      let (l, run, sums, names) = add_to_last-total ((to_remove + 2 ^ 64 - to_add) % 2 ^ 64) e es in
      (l, rw (other, balance) run, omega (arith, sums, added), names)
]

balance-total_of_keys :
    (to_remove to_add k : ℕ) (ks : List ℕ) (ps : List (ℕ × ℕ))
    → to_remove < 2 ^ 64
    → to_add ≡ total ps % 2 ^ 64
    → keys ps ≡ k ∷ ks
    → (l : List (ℕ × ℕ)) × (balance to_remove to_add ps ≡ some l)
      × (total l % 2 ^ 64 ≡ to_remove)
      × (keys l ≡ keys ps)
balance-total_of_keys to_remove to_add k ks [] small added names = cc
balance-total_of_keys to_remove to_add k ks (e ∷ es) small added names =
    balance-total to_remove to_add e es small added

enter_sizes-total :
    (ps sizes : List (ℕ × ℕ))
    → IsUnique (keys ps)
    → AreNew (keys ps) sizes
    → total (enter_sizes ps sizes) ≡ total sizes + total ps
unfolding enter_sizes
enter_sizes-total [] sizes unique news = omega arith
enter_sizes-total ((k, v) ∷ ps) sizes (absent, unique) (new, news) = omega (
  arith,
  enter_sizes-total ps (assign k v sizes) unique
      (AreNew-assign k v (keys ps) sizes absent new news),
  total-assign_new k v sizes new,
)

-- Every entry of the table, before the loop.
Pending-All :
    (disks : List (ℕ × Disk)) (whole ps : List (ℕ × ℕ))
    → ((k v : ℕ) → lookup k ps ≡ some v → lookup k whole ≡ some v)
    → IsUnique (keys ps)
    → All (λ e. e.1 < 2 ^ 64) ps
    → ((k : ℕ) → Has k (keys ps) → Has k (keys disks))
    → All (Pending disks (record { old_partitions = []; sizes = whole; to_remove = 0 })) ps
unfolding lookup
Pending-All disks whole [] at unique small known = tt
Pending-All disks whole ((k, v) ∷ ps) at (absent, unique) (here, small) known = (
  (at k v (ground arith), here, λ h. h, known k (inl refl)),
  Pending-All disks whole ps
      (λ j w e.
        at j w (rw (ne_of_Has j k (keys ps) absent (Has-keys_of_lookup j ps w e), lookup) e))
      unique small (λ j h. known j (inr h)),
)

AreNew-of_keys : (ks : List ℕ) (m m' : List (ℕ × ℕ)) → keys m ≡ keys m' → AreNew ks m → AreNew ks m'
AreNew-of_keys ks m m' e h = subst (λ l. All (λ k. ¬ Has k l) ks) e h

-- What the resizing promises: as much is taken from the old partitions as the new ones are due, and
-- the sizes of all of them add up to what they did before (both modulo 2 ^ 64).
pub record IsBalanced (sizes : List (ℕ × ℕ)) (new_disks : List Disk) (shrunk : Shrunk)
    (new_partitions : List (ℕ × ℕ)) : Type 0 where
  pub due : total new_partitions % 2 ^ 64 ≡ total shrunk.old_partitions % 2 ^ 64
  pub kept : total (enter_sizes new_partitions shrunk.sizes) % 2 ^ 64 ≡ total sizes % 2 ^ 64
  pub named : keys new_partitions ≡ ids new_disks

-- The sizes that `add_partitions` computes, where a conversion to `uint64_t` gives a number of 64
-- bits, for a table of partitions that each have one entry below 2 ^ 64 and a disk, and for new disks
-- (at least one) with ids that are different and new: no fault, one new partition for each new disk,
-- as much taken from the old partitions as the new ones are due, and a table of sizes that adds up to
-- what it did before, both modulo 2 ^ 64, whatever the rounding.
pub resized-IsBalanced :
    {R : Type 0} (dbl : Double R) (sizes : List (ℕ × ℕ)) (disks : List (ℕ × Disk)) (d : Disk)
    (ds : List Disk) (new_capacity : ℕ)
    → IsUnsigned dbl
    → IsUnique (keys sizes)
    → All (λ e. e.1 < 2 ^ 64) sizes
    → ((k : ℕ) → Has k (keys sizes) → Has k (keys disks))
    → IsUnique (ids (d ∷ ds))
    → AreNew (ids (d ∷ ds)) sizes
    → (shrunk : Shrunk) × (new_partitions : List (ℕ × ℕ)) × (resized dbl sizes disks
          (d ∷ ds)
          new_capacity
        ≡ some (shrunk, new_partitions))
      × IsBalanced sizes (d ∷ ds) shrunk new_partitions
unfolding resized
resized-IsBalanced dbl sizes disks d ds new_capacity unsigned unique small known apart news =
    let start : Shrunk = record { old_partitions = []; sizes = sizes; to_remove = 0 } in
    let (shrunk, run, s) =
      shrink-Shrinks dbl unsigned new_capacity disks sizes start unique
        (Pending-All disks sizes sizes (λ k v e. e) unique small known) (omega arith) in
    let (added, names) = grow-total dbl unsigned new_capacity (d ∷ ds) [] 0 (omega arith) in
    let grown = grow dbl new_capacity (d ∷ ds) [] 0 in
    let (new_partitions, balanced, due, same) =
      balance-total_of_keys shrunk.to_remove grown.1 d.id (ids ds) grown.0 s.bounded added names in
    let named : keys new_partitions ≡ ids (d ∷ ds) = same ∙ names in
    let enters = enter_sizes-total new_partitions shrunk.sizes (subst IsUnique (sym named) apart) (
      AreNew-of_keys (keys new_partitions) sizes shrunk.sizes (sym s.same_keys)
        (subst (λ l. AreNew l sizes) (sym named) news)) in
    (
      shrunk,
      new_partitions,
      rw (run, resized, balanced) refl,
      record {
        due = omega (arith, due, s.taken);
        kept = omega (arith, enters, due, s.kept);
        named = named;
      },
    )
