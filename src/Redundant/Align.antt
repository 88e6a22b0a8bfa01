-- ===== src/Redundant/Align.antt =====
-- The capacities that `alignDisks` of dadisi/DistRedundantShare.cpp gives to the disks.
use native.Mathlib.Decide.{dec_lt}
use native.Mathlib.Nat.{mul-le-mul_left, mul-le-mul_right, mul_comm, add-mul}
use data_distribution_simula.Base.{
  ℕ, zero, suc, inl, inr, arith, ltb, Bool-cases, ◌+◌, ◌*◌, ◌/◌, ◌%◌, ◌^◌, ◌≤◌, ◌<◌, ◌≡◌, ◌⊎◌, ◌||◌,
  ◌==◌, List, [], length, All, ◌-◌, ◌∷◌, refl, ap, All-map, sym, subst, none,
}
use data_distribution_simula.Rational.{Rational}
use data_distribution_simula.Disk.{Disk}
use data_distribution_simula.Helper.{create_mpz}
use data_distribution_simula.Helper.RoundTrip.{create_mpz_lem}
use data_distribution_simula.Redundant.Order.{IsSmall, Falls, disks_of}
use data_distribution_simula.Word.{add64}
use data_distribution_simula.Redundant.Disks.{aligned, RsDisk, align_disks}

times-quotient : (c total : ℕ) → c * (total / c) ≤ total
times-quotient zero total = omega arith
times-quotient (suc c) total = let e : total / suc c * suc c ≤ total = grind arith in grind arith

quotient-le : (c x total : ℕ) → 0 < c → c * x ≤ total → x ≤ total / c
quotient-le c x total h k =
    let e : total < (total / c + 1) * c = grind arith in
    elim (dec_lt (total / c) x) [
      | no le ↦ omega arith
      | yes lt ↦
          let m : (total / c + 1) * c ≤ x * c = grind arith in
          absurd (omega (arith, e, m, k, mul_comm x c))
    ]

-- What a disk gets with the counter `i`, where the smaller disks have got `total`.
module _ (i capacity total : ℕ) (small : capacity < 2 ^ 32) where
  pub aligned-le : aligned i capacity total ≤ capacity
  aligned-le = ground arith

  pub aligned-ge : (last : ℕ) → last ≤ capacity → i * last ≤ total → last ≤ aligned i capacity total
  aligned-ge last h k = ground (arith, quotient-le i last total)

  aligned-times : i * aligned i capacity total ≤ total
  aligned-times = elim (Bool-cases (i == 0 || ltb (capacity % 2 ^ 32) (total / i))) [
    | inr cut ↦ rw cut (times-quotient i total)
    | inl whole ↦ rw whole (
        let e : capacity % 2 ^ 32 ≡ capacity = omega arith in
        let le : (i ≡ 0) ⊎ (capacity ≤ total / i) = ground arith in
        elim le [
          | inl z ↦ rw z (omega arith)
          | inr h ↦
              let m : i * capacity ≤ i * (total / i) = mul-le-mul_left i h in
              omega (arith, m, times-quotient i total)
        ])
  ]

  -- If the disk is cut, one unit more would be too much.
  aligned-maximal : aligned i capacity total < capacity → total < i * suc (aligned i capacity total)
  aligned-maximal h = elim (Bool-cases (i == 0 || ltb (capacity % 2 ^ 32) (total / i))) [
    | inl whole ↦ absurd (ground arith)
    | inr cut ↦ rw cut (
        let positive : 0 < i = ground arith in
        let e : total < suc (total / i) * i = grind arith in
        omega (arith, e, mul_comm i (suc (total / i))))
  ]

-- `P` holds of every element with the number of those behind it.
abbrev pub Ranked : {A : Type 0} → (A → ℕ → Type 0) → List A → Type 0
Ranked P [] = Unit
Ranked P (x ∷ xs) = P x (length xs) × Ranked P xs

module _ {Q : Type 0} (rat : Rational Q) (copies all : ℕ) where
  -- What `alignDisks` leaves in a disk with `p` smaller ones.
  pub record IsGiven (d : RsDisk Q) (p : ℕ) : Type 0 where
    pub positive : 0 < d.aligned_capacity
    pub within : d.aligned_capacity ≤ d.disk.capacity
    pub share : d.check_c ≡ rat.create d.aligned_capacity d.c_position
    pub part : d.aligned_capacity ≤ d.c_position
    pub spread : d.c_position ≤ suc p * d.aligned_capacity
    pub fits : (copies + suc p - all) * d.aligned_capacity ≤ d.c_position
    pub word : d.c_position < 2 ^ 64
    -- A disk that is cut gets as much as fits the smaller ones.
    pub maximal :
        d.aligned_capacity < d.disk.capacity
        → d.c_position < (copies + p - all) * suc d.aligned_capacity + d.aligned_capacity

  -- What has been given in all.
  abbrev pub given_sum : List (RsDisk Q) → ℕ
  given_sum [] = 0
  given_sum (d ∷ ds) = given_sum ds + d.aligned_capacity

  -- The greatest capacity that has been given.
  abbrev top : List (RsDisk Q) → ℕ
  top [] = 0
  top (d ∷ ds) = d.aligned_capacity

  -- The greatest capacity there is.
  abbrev most : List Disk → ℕ
  most [] = 0
  most (d ∷ ds) = d.capacity

  -- What is known of the disks that have been aligned.
  record IsAligned (source : List Disk) (ds : List (RsDisk Q)) (total : ℕ) : Type 0 where
    same : disks_of ds ≡ source
    sum : total ≡ given_sum ds
    given : Ranked IsGiven ds
    below : All (λ d. d.aligned_capacity ≤ top ds) ds
    within : top ds ≤ most source
    positive : 0 < length ds → 0 < top ds
    spread : total ≤ length ds * top ds
    fits : (copies + length ds - all) * top ds ≤ total

  most-le :
      (x : Disk) (ds : List Disk) → All (λ e. e.capacity ≤ x.capacity) ds → most ds ≤ x.capacity
  most-le x [] h = omega arith
  most-le x (d ∷ ds) h = h.0

  -- The counter rises by one with each disk that gets `g`.
  counter-fits :
      (p g total : ℕ)
      → copies ≤ all
      → (copies + p - all) * g ≤ total
      → (copies + suc p - all) * g ≤ total + g
  counter-fits p g total few h = elim (dec_lt (copies + p) all) [
    | yes lt ↦
        let le : copies + suc p - all ≤ 0 = omega arith in
        let m : (copies + suc p - all) * g ≤ 0 * g = mul-le-mul_right g le in omega arith
    | no ge ↦
        let e : copies + suc p - all ≡ suc (copies + p - all) = omega arith in
        rw e (omega (arith, add-mul (copies + p - all) 1 g))
  ]

  -- A disk on top of the ones that have been aligned.
  module _ (few : copies ≤ all) (room : all < 2 ^ 32) where
    add-IsAligned :
        (d : RsDisk Q) (source : List Disk) (ds : List (RsDisk Q)) (total : ℕ)
        → IsSmall d.disk
        → All (λ e. e.capacity ≤ d.disk.capacity) source
        → suc (length ds) ≤ all
        → IsAligned source ds total
        → (given : ℕ) → given ≡ aligned (copies + length ds - all) d.disk.capacity total
        → (top ds ≤ given)
          × (given ≤ d.disk.capacity)
          × (0 < given)
          × (total + given ≤ suc (length ds) * given)
          × ((copies + suc (length ds) - all) * given ≤ total + given)
          × (total + given < 2 ^ 64)
          × (given < d.disk.capacity → total < (copies + length ds - all) * suc given)
    add-IsAligned d source ds total small falls more a given e =
        let i = copies + length ds - all in
        let le : given ≤ d.disk.capacity = rw e (aligned-le i d.disk.capacity total small.2) in
        let ge : top ds ≤ given = rw e (
          aligned-ge i d.disk.capacity total small.2 (top ds)
            (omega (arith, a.within, most-le d.disk source falls)) a.fits) in
        let maximal : given < d.disk.capacity → total < i * suc given =
          subst (λ g. g < d.disk.capacity → total < i * suc g) (sym e)
            (aligned-maximal i d.disk.capacity total small.2) in
        let times : i * given ≤ total = rw e (aligned-times i d.disk.capacity total small.2) in
        let grown : length ds * top ds ≤ length ds * given = mul-le-mul_left (length ds) ge in
        let spread : total + given ≤ suc (length ds) * given =
          omega (arith, a.spread, grown, add-mul (length ds) 1 given) in
        let bound : suc (length ds) * given ≤ 2 ^ 32 * given =
          mul-le-mul_right given (omega arith) in
        let positive : 0 < given = elim (dec_lt 0 (length ds)) [
          | yes one ↦ omega (arith, a.positive one)
          | no lone ↦
              let z : copies + length ds - all ≡ 0 = omega arith in
              let whole : given ≡ d.disk.capacity = ground arith in omega (arith, small.1)
        ] in
        (
          ge,
          le,
          positive,
          spread,
          counter-fits (length ds) given total few times,
          omega (arith, small.2),
          maximal,
        )

    cons-IsAligned :
        (d : RsDisk Q) (source : List Disk) (ds : List (RsDisk Q)) (total given position : ℕ)
        (share : Q)
        → IsAligned source ds total
        → (top ds ≤ given)
          × (given ≤ d.disk.capacity)
          × (0 < given)
          × (total + given ≤ suc (length ds) * given)
          × ((copies + suc (length ds) - all) * given ≤ total + given)
          × (total + given < 2 ^ 64)
          × (given < d.disk.capacity → total < (copies + length ds - all) * suc given)
        → position ≡ total + given
        → share ≡ rat.create given position
        → IsAligned
            (d.disk ∷ source)
            ((record d { aligned_capacity = given; c_position = position; check_c = share }) ∷ ds)
            position
    cons-IsAligned d source ds total given position share a
          (ge, le, positive, spread, fits, word, maximal) e q =
        record {
          same = ap (◌∷◌ d.disk) a.same;
          sum = omega (arith, a.sum);
          given = (
            record {
              positive = positive;
              within = le;
              share = q;
              part = omega arith;
              spread = rw e spread;
              fits = rw e fits;
              word = omega arith;
              maximal = λ h. omega (arith, maximal h);
            },
            a.given,
          );
          below = (
            omega arith,
            All-map (λ f. f.aligned_capacity ≤ top ds) (λ f. f.aligned_capacity ≤ given) ds
                (λ f h. omega arith) a.below,
          );
          within = le;
          positive = λ h. positive;
          spread = rw e spread;
          fits = rw e fits;
        }

    -- The disks in their order, with what they have been given.
    align_disks-IsAligned :
        (ds : List (RsDisk Q))
        → All IsSmall (disks_of ds)
        → Falls (disks_of ds)
        → length ds ≤ all
        → IsAligned
            (disks_of ds)
            (align_disks rat copies all ds).0
            (align_disks rat copies all ds).1
          × (length (align_disks rat copies all ds).0 ≡ length ds)
    unfolding align_disks
    align_disks-IsAligned [] small falls le = (
      record {
        same = refl;
        sum = refl;
        given = tt;
        below = tt;
        within = omega arith;
        positive = λ h. h;
        spread = omega arith;
        fits = omega arith;
      },
      refl,
    )
    align_disks-IsAligned (d ∷ ds) small falls le =
        let (a, same_length) = align_disks-IsAligned ds small.1 falls.1 (omega arith) in
        let rest = align_disks rat copies all ds in
        let given = aligned (copies + length ds - all) d.disk.capacity rest.1 in
        let (ge, within, positive, spread, fits, word, maximal) =
          add-IsAligned d (disks_of ds) rest.0 rest.1 small.0 falls.0 (omega arith) a given
            (rw same_length refl) in
        let exact : add64 rest.1 given ≡ rest.1 + given = omega arith in
        (
          cons-IsAligned d (disks_of ds) rest.0 rest.1 given (add64 rest.1 given)
              (rat.create (create_mpz given) (create_mpz (add64 rest.1 given))) a
              (ge, within, positive, spread, fits, word, maximal) exact
              (rw
                (
                  create_mpz_lem given (omega arith),
                  create_mpz_lem (add64 rest.1 given) (omega arith),
                )
                refl),
          ap suc same_length,
        )

    -- Whatever the first disk of the list has got, the others have no more.
    Ranked-bounds :
        (bound total : ℕ) (ds : List (RsDisk Q))
        → Ranked IsGiven ds
        → All (λ d. d.aligned_capacity ≤ bound) ds
        → copies * bound ≤ total
        → All
            (λ d.
              (0 < d.aligned_capacity)
              × (d.aligned_capacity ≤ d.disk.capacity)
              × (copies * d.aligned_capacity ≤ total))
            ds
    Ranked-bounds bound total [] given below fits = tt
    Ranked-bounds bound total (d ∷ ds) given below fits =
        let m : copies * d.aligned_capacity ≤ copies * bound = mul-le-mul_left copies below.0 in
        (
          (given.0.positive, given.0.within, omega arith),
          Ranked-bounds bound total ds given.1 below.1 fits,
        )

module _ {Q : Type 0} (rat : Rational Q) where
  -- Of a set of disks with ids of 64 bits and capacities that fall, are positive and below 2 ^ 32, with
  -- no fewer disks than copies and fewer than 2 ^ 32, `alignDisks` keeps every disk in its place and
  -- returns the sum of what it gives. Every disk is given a positive capacity, not above its own, and
  -- `copies` times it is at most that sum. `cPosition` is below 2 ^ 64; it is at least the given
  -- capacity, at least that times the copies less the number of the disks before it, and at most that
  -- times the number of the disks from it on; `checkC` is the given capacity over `cPosition`. And
  -- where a disk with `p` smaller ones is given less than its own capacity, one unit more, times the
  -- counter `copies + p - all`, would be above what the smaller disks are given.
  pub align_disks-fits :
      (copies : ℕ) (ds : List (RsDisk Q))
      → All IsSmall (disks_of ds)
      → Falls (disks_of ds)
      → copies ≤ length ds
      → length ds < 2 ^ 32
      → (disks_of (align_disks rat copies (length ds) ds).0 ≡ disks_of ds)
        × ((align_disks rat copies (length ds) ds).1
            ≡ given_sum rat copies (length ds) (align_disks rat copies (length ds) ds).0)
        × All
            (λ d.
              (0 < d.aligned_capacity)
              × (d.aligned_capacity ≤ d.disk.capacity)
              × (copies * d.aligned_capacity ≤ (align_disks rat copies (length ds) ds).1))
            (align_disks rat copies (length ds) ds).0
        × Ranked (IsGiven rat copies (length ds)) (align_disks rat copies (length ds) ds).0
  align_disks-fits copies ds small falls few room =
      let (a, same_length) =
        align_disks-IsAligned rat copies (length ds) few room ds small falls (omega arith) in
      let whole : copies + length (align_disks rat copies (length ds) ds).0 - length ds ≡ copies =
        omega (arith, same_length) in
      (
        a.same,
        a.sum,
        Ranked-bounds rat copies (length ds) few room
            (top rat copies (length ds) (align_disks rat copies (length ds) ds).0) _ _ a.given
            a.below (rw whole at a.fits),
        a.given,
      )

-- `alignDisks` sets no `kError`.
pub align_disks-clean :
    {Q : Type 0} (rat : Rational Q) (copies all : ℕ) (ds : List (RsDisk Q))
    → All (λ d. d.k_error ≡ none) ds
    → All (λ d. d.k_error ≡ none) (align_disks rat copies all ds).0
unfolding align_disks
align_disks-clean rat copies all [] h = tt
align_disks-clean rat copies all (d ∷ ds) h = (h.0, align_disks-clean rat copies all ds h.1)
