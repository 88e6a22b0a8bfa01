-- ===== src/Share/Distributors.antt =====
-- The distributors of dadisi/DistShare.cpp: where the intervals fill the ring, each border gets one
-- that answers every hash.
use data_distribution_simula.ImprovedMap.{wanted_slices}
use native.Mathlib.Nat.{mul-le-mul_right, mul-le-mul_left}
use data_distribution_simula.Base.{
  ℕ, refl, sym, ap, inl, inr, Bool, true, false, List, [], arith, ltb, Bool-cases, length, All, Has,
  ◌*◌, ◌^◌, ◌≤◌, ◌<◌, ◌≡◌, ◌∷◌, not, lt→ltb, ◌&&◌, ◌||◌, if◌then◌else◌, subst, some, ==_iff,
  IsAscending, All-map, All-Has, some-injective, ◌==◌, ◌∙◌, Option-cases,
}
use data_distribution_simula.Disk.{Disk}
use data_distribution_simula.ImprovedMap
use data_distribution_simula.NearestNeighbour.{
  enter_all, key_set, widen, times, rounds, Hashes, get_nn_copies, NearestNeighbour,
  set_disks_multi,
}
use data_distribution_simula.NearestNeighbour.Distinct.{ids}
use data_distribution_simula.NearestNeighbour.Keys.{HasKeys, Answers, set_disks_multi-Answers}
use data_distribution_simula.Word.{sub64}
use data_distribution_simula.Share.Intervals.{
  ShareDisk, is_positive, count_covers_point, is_filled, covering_ids, all_filled,
}
use data_distribution_simula.Share.{
  Share, new_distributor, distributor_at, set_distributors, set_intervals, lookup, distributor_of,
  multiplicity, assign,
}
use data_distribution_simula.ImprovedMap.Closest.{IsShift, IsClosest, find_closest-new}
use data_distribution_simula.Dictionary.{lookup-assign}
use data_distribution_simula.Share.Cover.{covers, cover_sum, covers-le, times-multiplicity}

or_false : (a b : Bool) → (a || b) ≡ false → (a ≡ false) × (b ≡ false)
or_false true b h = absurd (cc)
or_false false b h = (refl, h)

and_true : (a b : Bool) → (a && b) ≡ true → (a ≡ true) × (b ≡ true)
and_true true b h = (refl, h)
and_true false b h = absurd (cc)

-- Ids that are collected belong to disks that cover the point.
covering_ids-none :
    (copies : ℕ) (sds : List ShareDisk) (p : ℕ) (found : List ℕ)
    → is_filled sds p ≡ false
    → covering_ids copies sds p found ≡ found
unfolding covering_ids is_filled
covering_ids-none copies [] p found h = refl
covering_ids-none copies (sd ∷ sds) p found h =
    let (here, later) = or_false (is_positive (count_covers_point sd p)) (is_filled sds p) h in
    elim (Bool-cases (ltb (length found) copies)) [
      | inl more ↦ rw (more, here) (covering_ids-none copies sds p found later)
      | inr enough ↦ rw enough refl
    ]

tested :
    (by_nn : Bool) (copies : ℕ) (sds : List ShareDisk) (p : ℕ)
    → 0 < copies
    → (if by_nn then not (ltb (length (covering_ids copies sds p [])) copies) else is_filled sds p)
      ≡ true
    → is_filled sds p ≡ true
tested false copies sds p positive h = h
tested true copies sds p positive h = elim (Bool-cases (is_filled sds p)) [
  | inl filled ↦ filled
  | inr bare ↦
      let few : ltb (length (covering_ids copies sds p [])) copies ≡ true =
        rw (covering_ids-none copies sds p [] bare) (lt→ltb 0 copies positive) in
      absurd (cc (few, h))
]

-- Either test makes sure that a disk covers each point that is tested.
pub all_filled-is_filled :
    (by_nn : Bool) (copies : ℕ) (sds : List ShareDisk) (borders : List ℕ)
    → 0 < copies
    → all_filled by_nn copies sds borders ≡ true
    → All (λ b. is_filled sds (sub64 b 1) ≡ true) borders
unfolding all_filled
all_filled-is_filled by_nn copies sds [] positive h = tt
all_filled-is_filled by_nn copies sds (b ∷ borders) positive h =
    let (here, later) = and_true _ (all_filled by_nn copies sds borders) h in
    (
      tested by_nn copies sds (sub64 b 1) positive here,
      all_filled-is_filled by_nn copies sds borders positive later,
    )

-- A point that is filled is covered by a disk with one of the names.
is_filled-covers :
    (names : List ℕ) (sds : List ShareDisk) (p : ℕ)
    → All (λ sd. Has sd.id names) sds
    → is_filled sds p ≡ true
    → (id : ℕ) × Has id names × (0 < covers id sds p)
unfolding is_filled
is_filled-covers names [] p known h = absurd (cc)
is_filled-covers names (sd ∷ sds) p known h =
    elim (Bool-cases (is_positive (count_covers_point sd p))) [
      | inl here ↦ (sd.id, known.0, ground arith)
      | inr other ↦
          let (id, has, positive) = is_filled-covers names sds p known.1 (rw other at h) in
          (id, has, omega (arith, positive))
    ]

-- A disk that is counted gets keys.
HasKeys-of_times :
    (nn_copies id : ℕ) (multi : List (ℕ × ℕ)) (ds : List Disk)
    → Has id (ids ds)
    → 0 < nn_copies
    → 0 < times id multi
    → nn_copies * times id multi < 2 ^ 31
    → HasKeys nn_copies multi ds
unfolding rounds
HasKeys-of_times nn_copies id multi [] has positive counted room = absurd has
HasKeys-of_times nn_copies id multi (d ∷ ds) has positive counted room = elim has [
  | inr later ↦ inr (HasKeys-of_times nn_copies id multi ds later positive counted room)
  | inl same ↦
      let e : times d.id multi ≡ times id multi = ap (λ k. times k multi) (sym same) in
      let le : 1 * times id multi ≤ nn_copies * times id multi =
        mul-le-mul_right (times id multi) positive in
      let some_key : 1 * 1 ≤ nn_copies * times id multi = omega (arith, le) in
      inl (omega (arith, e, le), omega (arith, e, le), rw e (ground (arith, some_key)))
]

-- A distributor places as many copies as it has been configured for.
distributor_at-copies :
    (h : Hashes) (this : Share) (ds : List Disk) (sds : List ShareDisk) (b : ℕ)
    (dnn : NearestNeighbour)
    → distributor_at h this ds sds b ≡ some dnn
    → dnn.copies ≡ (if this.copies_by_nn then this.copies else 1)
unfolding distributor_at set_disks_multi
distributor_at-copies h this ds sds b dnn run =
    let n = get_nn_copies h.ceil_log2 (new_distributor this) ds in
    let entered = enter_all h.of_disk n (multiplicity sds (sub64 b 1) []) ds [] [] in
    elim (Option-cases (ImprovedMap.new h.ceil_log2 (widen n) (key_set entered.1 []))) [
      | inl e ↦ absurd (cc (rw (e, set_disks_multi) at run))
      | inr (finder, e) ↦ sym (
          ap (λ (s : NearestNeighbour). s.copies) (some-injective (rw (e, set_disks_multi) at run)))
    ]

-- The border gets a distributor.
abbrev pub IsMade : Hashes → Share → List Disk → List ShareDisk → ℕ → Type 0
IsMade h this ds sds b = (dnn : NearestNeighbour) × (distributor_at h this ds sds b ≡ some dnn)

module _ (h : Hashes) (this : Share) (ds : List Disk) (sds : List ShareDisk) where
  -- What the table of distributors holds.
  pub set_distributors-lookup :
      (borders : List ℕ) (table : List (ℕ × NearestNeighbour))
      → All (IsMade h this ds sds) borders
      → (filled : List (ℕ × NearestNeighbour)) × (set_distributors h this ds sds borders table
          ≡ some filled)
        × ((b : ℕ)
            → lookup b table ≡ distributor_at h this ds sds b
            → lookup b filled ≡ distributor_at h this ds sds b)
        × ((b : ℕ) → Has b borders → lookup b filled ≡ distributor_at h this ds sds b)
  unfolding set_distributors
  set_distributors-lookup [] table all = (table, refl, (λ b e. e), λ b m. absurd m)
  set_distributors-lookup (x ∷ borders) table ((dnn, at), all) =
      let (filled, run, kept, own) = set_distributors-lookup borders (assign x dnn table) all in
      let here : lookup x (assign x dnn table) ≡ distributor_at h this ds sds x =
        rw (lookup-assign x x dnn table, at) (ground arith) in
      let stays : (b : ℕ)
          → lookup b table ≡ distributor_at h this ds sds b
          → lookup b (assign x dnn table) ≡ distributor_at h this ds sds b =
        λ b e. elim (Bool-cases (x == b)) [
          | inl same ↦
              subst (λ c. lookup c (assign x dnn table) ≡ distributor_at h this ds sds c)
                ((==_iff x b).0 same) here
          | inr other ↦ rw (lookup-assign x b dnn table, other) e
        ] in
      (
        filled,
        rw at run,
        (λ b e. kept b (stays b e)),
        (λ b m. elim m [
          | inl same ↦
              subst (λ c. lookup c filled ≡ distributor_at h this ds sds c) (sym same) (kept x here)
          | inr later ↦ own b later
        ]),
      )

module _ (h : Hashes) (this : Share) (ds : List Disk) (sds : List ShareDisk)
    (shift : IsShift h.ceil_log2) (known : All (λ sd. Has sd.id (ids ds)) sds) where
  -- The number of keys for a disk that covers a point once.
  abbrev keys_each : ℕ
  keys_each = get_nn_copies h.ceil_log2 (new_distributor this) ds

  -- The distributor of a border answers every hash.
  abbrev HasDistributor : ℕ → Type 0
  HasDistributor b =
      (dnn : NearestNeighbour) × (distributor_at h this ds sds b ≡ some dnn) × Answers dnn

  module _ (some_key : 0 < keys_each) (room : keys_each * cover_sum sds < 2 ^ 31) where
    distributor_at-Answers : (b : ℕ) → is_filled sds (sub64 b 1) ≡ true → HasDistributor b
    unfolding distributor_at times
    distributor_at-Answers b filled =
        let p = sub64 b 1 in
        let (id, has, positive) = is_filled-covers (ids ds) sds p known filled in
        let le : covers id sds p ≤ cover_sum sds = covers-le id sds p in
        let whole : 1 * cover_sum sds ≤ keys_each * cover_sum sds =
          mul-le-mul_right (cover_sum sds) some_key in
        let counted : times id (multiplicity sds p []) ≡ covers id sds p =
          omega (arith, times-multiplicity id sds p [] (λ j. omega (arith, whole, room))) in
        let bound : keys_each * covers id sds p ≤ keys_each * cover_sum sds =
          mul-le-mul_left keys_each le in
        let small : keys_each < 2 ^ 31 =
          omega (arith, room, bound, mul-le-mul_left keys_each positive) in
        set_disks_multi-Answers h (new_distributor this) ds (multiplicity sds p []) shift some_key
          small
          (HasKeys-of_times keys_each id (multiplicity sds p []) ds has some_key
            (omega (arith, counted, positive)) (rw counted (omega (arith, bound, room))))

    -- A position goes to the distributor of the closest border below it.
    pub set_intervals-Answers :
        (k : ℕ) (ks : List ℕ)
        → IsAscending (k ∷ ks)
        → wanted_slices (length ds) (k ∷ ks) ≤ 2 ^ 63
        → All (λ b. is_filled sds (sub64 b 1) ≡ true) (k ∷ ks)
        → (done : Share) × (set_intervals h this ds (k ∷ ks) sds ≡ some done)
          × ((pos : ℕ)
              → pos < 2 ^ 64
              → (border : ℕ) × (dnn : NearestNeighbour) × IsClosest (k ∷ ks) pos border
                × (distributor_at h this ds sds border ≡ some dnn)
                × (distributor_of done pos ≡ some dnn)
                × (dnn.copies ≡ (if this.copies_by_nn then this.copies else 1))
                × Answers dnn)
          × (done.copies ≡ this.copies)
          × (done.copies_by_nn ≡ this.copies_by_nn)
    unfolding set_intervals distributor_of
    set_intervals-Answers k ks ascending slices filled =
        let all : All HasDistributor (k ∷ ks) =
          All-map _ HasDistributor (k ∷ ks) (λ b e. distributor_at-Answers b e) filled in
        let (table, run, kept, own) =
          set_distributors-lookup h this ds sds (k ∷ ks) []
            (All-map HasDistributor (IsMade h this ds sds) (k ∷ ks) (λ b d. (d.0, d.1)) all) in
        let answers =
          λ (pos : ℕ). find_closest-new h.ceil_log2 (length ds) k ks pos shift ascending slices in
        let (finder, built, first) = answers 0 (omega arith) in
        (
          record this { distributors = table; key_finder = some finder },
          rw (run, built) refl,
          (λ pos lt.
              let (other, built', (border, found, closest)) = answers pos lt in
              let same : other ≡ finder = some-injective (sym built' ∙ built) in
              let (dnn, at, answers) = All-Has HasDistributor border (k ∷ ks) all closest.0 in
              let found' : ImprovedMap.find_closest finder pos ≡ some border =
                subst (λ m. ImprovedMap.find_closest m pos ≡ some border) same found in
              (
                border,
                dnn,
                closest,
                at,
                rw found' (own border closest.0 ∙ at),
                distributor_at-copies h this ds sds border dnn at,
                answers,
              )),
          refl,
          refl,
        )
