-- ===== src/Redundant/Order.antt =====
-- The set of disks that `setDisks` of dadisi/DistRedundantShare.cpp fills: its order and its members.
use data_distribution_simula.Base.{
  ℕ, Bool, true, false, List, [], map, arith, ltb, All, ◌+◌, ◌%◌, ◌^◌, ◌≤◌, ◌<◌, ◌≡◌, ◌⊎◌, ◌∷◌,
  refl, inl, inr, Bool-cases, Has, ◌≢◌, IsUnique, suc, sym, ap, subst, length, All-map, ◌∙◌,
  All-map_of, All-of_map,
}
use data_distribution_simula.Disk.{Disk}
use data_distribution_simula.Rational.{Rational}
use data_distribution_simula.Redundant.Disks.{
  RsDisk, slt64, rs_disk_compare, insert_disk, insert_all, new,
}

-- `d` stands in the list.
abbrev pub Among : Disk → List Disk → Type 0
Among d [] = ⊥
Among d (x ∷ xs) = (d ≡ x) ⊎ Among d xs

abbrev pub disks_of : {Q : Type 0} → List (RsDisk Q) → List Disk
disks_of = map (λ d. d.disk)

abbrev pub ids : List Disk → List ℕ
ids = map (λ d. d.id)

-- The capacities fall, from the first disk to the last.
abbrev pub Falls : List Disk → Type 0
Falls [] = Unit
Falls (d ∷ ds) = All (λ e. e.capacity ≤ d.capacity) ds × Falls ds

-- An id of 64 bits, and a capacity that is positive and below 2 ^ 32.
abbrev pub IsSmall : Disk → Type 0
IsSmall d = (d.id < 2 ^ 64) × (0 < d.capacity) × (d.capacity < 2 ^ 32)

slt64-ltb : (a b : ℕ) → a < 2 ^ 32 → b < 2 ^ 32 → slt64 a b ≡ ltb a b
slt64-ltb a b ha hb =
    let ea : (a + 2 ^ 63) % 2 ^ 64 ≡ a + 2 ^ 63 = omega arith in
    let eb : (b + 2 ^ 63) % 2 ^ 64 ≡ b + 2 ^ 63 = omega arith in rw (ea, eb) (ground arith)

slt64-total : (a b : ℕ) → a < 2 ^ 64 → b < 2 ^ 64 → slt64 a b ≡ false → slt64 b a ≡ false → a ≡ b
slt64-total a b ha hb p q =
    let h : (b + 2 ^ 63) % 2 ^ 64 ≤ (a + 2 ^ 63) % 2 ^ 64 = ground arith in
    let k : (a + 2 ^ 63) % 2 ^ 64 ≤ (b + 2 ^ 63) % 2 ^ 64 = ground arith in omega arith

module _ {Q : Type 0} (revert : Bool) where
  -- Of two disks with different ids one precedes the other.
  compare-total :
      (d e : RsDisk Q)
      → IsSmall d.disk
      → IsSmall e.disk
      → rs_disk_compare revert d e ≡ false
      → rs_disk_compare revert e d ≡ false
      → d.disk.id ≡ e.disk.id
  unfolding rs_disk_compare
  compare-total d e hd he p q = ground (
    arith,
    slt64-ltb d.disk.capacity e.disk.capacity hd.2 he.2,
    slt64-ltb e.disk.capacity d.disk.capacity he.2 hd.2,
    slt64-total d.disk.id e.disk.id hd.0 he.0,
  )

  -- A disk that precedes another one has no smaller capacity.
  compare-capacity :
      (d e : RsDisk Q)
      → IsSmall d.disk
      → IsSmall e.disk
      → rs_disk_compare revert d e ≡ true
      → e.disk.capacity ≤ d.disk.capacity
  unfolding rs_disk_compare
  compare-capacity d e hd he p = ground (
    arith,
    slt64-ltb d.disk.capacity e.disk.capacity hd.2 he.2,
    slt64-ltb e.disk.capacity d.disk.capacity he.2 hd.2,
  )

-- What the set keeps: small disks, in the order of their capacities, with different ids.
pub record IsOrdered {Q : Type 0} (es : List (RsDisk Q)) : Type 0 where
  pub small : All IsSmall (disks_of es)
  pub falls : Falls (disks_of es)
  pub unique : IsUnique (ids (disks_of es))

-- A disk inserted in front of, or behind, the first one of a list.
data Insertion {Q : Type 0} (d e : RsDisk Q) (es inserted rest : List (RsDisk Q)) : Type 0 where
  before :
      e.disk.capacity ≤ d.disk.capacity → inserted ≡ d ∷ e ∷ es → Insertion d e es inserted rest
  behind : d.disk.capacity ≤ e.disk.capacity → inserted ≡ e ∷ rest → Insertion d e es inserted rest

module _ {Q : Type 0} (revert : Bool) where
  insert_disk-cases :
      (d e : RsDisk Q) (es : List (RsDisk Q))
      → IsSmall d.disk
      → IsSmall e.disk
      → d.disk.id ≢ e.disk.id
      → Insertion d e es (insert_disk revert d (e ∷ es)) (insert_disk revert d es)
  unfolding insert_disk
  insert_disk-cases d e es hd he differ = elim (Bool-cases (rs_disk_compare revert d e)) [
    | inl p ↦ before (compare-capacity revert d e hd he p) (rw p refl)
    | inr p ↦ elim (Bool-cases (rs_disk_compare revert e d)) [
      | inl q ↦ behind (compare-capacity revert e d he hd q) (rw (p, q) refl)
      | inr q ↦ absurd (differ (compare-total revert d e hd he p q))
    ]
  ]

  insert_disk-All :
      (P : RsDisk Q → Type 0) (d : RsDisk Q) (es : List (RsDisk Q))
      → P d
      → All P es
      → All P (insert_disk revert d es)
  unfolding insert_disk
  insert_disk-All P d [] p ps = (p, tt)
  insert_disk-All P d (e ∷ es) p ps = elim (Bool-cases (rs_disk_compare revert d e)) [
    | inl h ↦ rw h (p, ps)
    | inr h ↦ elim (Bool-cases (rs_disk_compare revert e d)) [
      | inl k ↦ rw (h, k) (ps.0, insert_disk-All P d es p ps.1)
      | inr k ↦ rw (h, k) ps
    ]
  ]

  insert_disk-All-disks_of :
      (P : Disk → Type 0) (d : RsDisk Q) (es : List (RsDisk Q))
      → P d.disk
      → All P (disks_of es)
      → All P (disks_of (insert_disk revert d es))
  insert_disk-All-disks_of P d es p ps =
      All-map_of P (λ e. e.disk) (insert_disk revert d es)
        (insert_disk-All (λ e. P e.disk) d es p (All-of_map P (λ e. e.disk) es ps))

  later :
      (a : ℕ) (d e : RsDisk Q) (es : List (RsDisk Q))
      → (Has a (ids (disks_of (insert_disk revert d es)))
          → (a ≡ d.disk.id) ⊎ Has a (ids (disks_of es)))
      → (a ≡ e.disk.id) ⊎ Has a (ids (disks_of (insert_disk revert d es)))
      → (a ≡ d.disk.id) ⊎ Has a (ids (disks_of (e ∷ es)))
  later a d e es ih (inl k) = inr (inl k)
  later a d e es ih (inr k) = elim (ih k) [ inl m ↦ inl m | inr m ↦ inr (inr m) ]

  Has-ids-insert_disk :
      (a : ℕ) (d : RsDisk Q) (es : List (RsDisk Q))
      → Has a (ids (disks_of (insert_disk revert d es)))
      → (a ≡ d.disk.id) ⊎ Has a (ids (disks_of es))
  unfolding insert_disk
  Has-ids-insert_disk a d [] h = elim h [ inl e ↦ inl e | inr n ↦ absurd n ]
  Has-ids-insert_disk a d (e ∷ es) h = elim (Bool-cases (rs_disk_compare revert d e)) [
    | inl p ↦ rw p at h
    | inr p ↦ elim (Bool-cases (rs_disk_compare revert e d)) [
      | inl q ↦ later a d e es (Has-ids-insert_disk a d es) (rw (p, q) at h)
      | inr q ↦ inr (rw (p, q) at h)
    ]
  ]

  insert_disk-nil : (d : RsDisk Q) → insert_disk revert d [] ≡ d ∷ []
  unfolding insert_disk
  insert_disk-nil d = refl

  insert_disk-length :
      (d : RsDisk Q) (es : List (RsDisk Q))
      → IsSmall d.disk
      → All IsSmall (disks_of es)
      → ¬ Has d.disk.id (ids (disks_of es))
      → length (insert_disk revert d es) ≡ suc (length es)
  insert_disk-length d [] hd small fresh = ap length (insert_disk-nil d)
  insert_disk-length d (e ∷ es) hd small fresh =
      elim (insert_disk-cases d e es hd small.0 (λ k. fresh (inl k))) [
        | before le eq ↦ ap length eq
        | behind le eq ↦
            ap length eq ∙ ap suc (insert_disk-length d es hd small.1 (λ k. fresh (inr k)))
      ]

  insert_disk-IsOrdered :
      (d : RsDisk Q) (es : List (RsDisk Q))
      → IsSmall d.disk
      → ¬ Has d.disk.id (ids (disks_of es))
      → IsOrdered es
      → IsOrdered (insert_disk revert d es)
  insert_disk-IsOrdered d [] hd fresh o =
      subst IsOrdered (sym (insert_disk-nil d))
        (record { small = (hd, tt); falls = (tt, tt); unique = ((λ n. n), tt) })
  insert_disk-IsOrdered d (e ∷ es) hd fresh o =
      let new : d.disk.id ≢ e.disk.id = λ k. fresh (inl k) in
      elim (insert_disk-cases d e es hd o.small.0 new) [
        | before le eq ↦ subst IsOrdered (sym eq) (record {
          small = (hd, o.small);
          falls = (
            (
              le,
              All-map (λ f. f.capacity ≤ e.disk.capacity) (λ f. f.capacity ≤ d.disk.capacity)
                  (disks_of es) (λ f h. omega arith) o.falls.0,
            ),
            o.falls,
          );
          unique = (fresh, o.unique);
        })
        | behind le eq ↦
            let rest =
              insert_disk-IsOrdered d es hd (λ k. fresh (inr k))
                (record { small = o.small.1; falls = o.falls.1; unique = o.unique.1 }) in
            subst IsOrdered (sym eq) (record {
              small = (o.small.0, rest.small);
              falls = (
                insert_disk-All-disks_of (λ f. f.capacity ≤ e.disk.capacity) d es le o.falls.0,
                rest.falls,
              );
              unique = (
                λ k. elim (Has-ids-insert_disk e.disk.id d es k) [
                  | inl m ↦ new (sym m)
                  | inr m ↦ o.unique.0 m
                ],
                rest.unique,
              );
            })
      ]

module _ {Q : Type 0} (rat : Rational Q) (revert : Bool) where
  pub insert_all-All :
      (P : RsDisk Q → Type 0) (ds : List Disk) (chosen : List (RsDisk Q))
      → All (λ d. P (new rat d)) ds
      → All P chosen
      → All P (insert_all rat revert ds chosen)
  unfolding insert_all
  insert_all-All P [] chosen ps qs = qs
  insert_all-All P (d ∷ ds) chosen ps qs =
      insert_all-All P ds (insert_disk revert (new rat d) chosen) ps.1
        (insert_disk-All revert P (new rat d) chosen ps.0 qs)

  insert_all-IsOrdered :
      (ds : List Disk) (chosen : List (RsDisk Q))
      → All IsSmall ds
      → IsUnique (ids ds)
      → IsOrdered chosen
      → ((a : ℕ) → Has a (ids ds) → ¬ Has a (ids (disks_of chosen)))
      → IsOrdered (insert_all rat revert ds chosen)
        × (length (insert_all rat revert ds chosen) ≡ length ds + length chosen)
  unfolding insert_all
  insert_all-IsOrdered [] chosen small unique o apart = (o, omega arith)
  insert_all-IsOrdered (d ∷ ds) chosen small unique o apart =
      let fresh : ¬ Has d.id (ids (disks_of chosen)) = apart d.id (inl refl) in
      let next = insert_disk revert (new rat d) chosen in
      let longer : length next ≡ suc (length chosen) =
        insert_disk-length revert (new rat d) chosen small.0 o.small fresh in
      let (ordered, grown) =
        insert_all-IsOrdered ds next small.1 unique.1
          (insert_disk-IsOrdered revert (new rat d) chosen small.0 fresh o)
          (λ a h k. elim (Has-ids-insert_disk revert a (new rat d) chosen k) [
            | inl e ↦ unique.0 (subst (λ x. Has x (ids ds)) e h)
            | inr m ↦ apart a (inr h) m
          ]) in
      (ordered, omega (arith, grown, longer))

  Among-self : (ds : List Disk) → All (λ d. Among d ds) ds
  Among-self [] = tt
  Among-self (d ∷ ds) = (
    inl refl,
    All-map (λ e. Among e ds) (λ e. Among e (d ∷ ds)) ds (λ e h. inr h) (Among-self ds),
  )

  -- Of small disks with different ids the set drops none, and it has no others.
  pub insert_all-lem :
      (ds : List Disk)
      → All IsSmall ds
      → IsUnique (ids ds)
      → IsOrdered (insert_all rat revert ds [])
        × (length (insert_all rat revert ds []) ≡ length ds)
        × All (λ d. Among d ds) (disks_of (insert_all rat revert ds []))
  insert_all-lem ds small unique =
      let none_yet : IsOrdered {Q = Q} [] = record { small = tt; falls = tt; unique = tt } in
      let (ordered, grown) = insert_all-IsOrdered ds [] small unique none_yet (λ a h n. n) in
      (
        ordered,
        omega (arith, grown),
        All-map_of (λ d. Among d ds) (λ d. d.disk) (insert_all rat revert ds [])
            (insert_all-All (λ d. Among d.disk ds) ds [] (Among-self ds) tt),
      )
