-- ===== src/RoundRobin/Striped.antt =====
-- Placement by number, without the ring, of dadisi/DistRoundRobin.cpp.
use data_distribution_simula.Base.{
  ℕ, List, ◌≡◌, ◌<◌, length, get_elem?, zero, suc, refl, false, some, [], arith, ◌+◌, ◌%◌, ◌∷◌, sym,
  ap, get_elem?-lt, ◌*◌, ◌^◌, if◌then◌else◌, ◌∙◌, ◌-◌, ◌/◌, subst,
}
use native.Mathlib.Nat.{add-zero, zero-add}
use data_distribution_simula.Dictionary.{lookup, assign, lookup-assign}
use data_distribution_simula.Disk.{Disk, copy}
use data_distribution_simula.ImprovedMap.{word}
use data_distribution_simula.RoundRobin.{
  RoundRobin, Outside, spread, stripe, filled, laid_out, set_disks, place_striped, place_extent,
}

-- What the code relies on of the order in which a table is visited: each entry is found and
-- counted as before.
pub record IsArrangement (arrange : List (ℕ × Disk) → List (ℕ × Disk)) : Type 0 where
  pub reads : (table : List (ℕ × Disk)) (k : ℕ) → lookup k (arrange table) ≡ lookup k table
  pub counted : (table : List (ℕ × Disk)) → length (arrange table) ≡ length table

spread-below :
    (distance id k : ℕ) (ds : List Disk) (table : List (ℕ × Disk)) (positions : List ℕ)
    → id + length ds < word
    → k < id
    → lookup k (spread false distance id ds table positions).0 ≡ lookup k table
unfolding spread
spread-below distance id k [] table positions fits lt = refl
spread-below distance id k (d ∷ ds) table positions fits lt =
    let e : (id + 1) % word ≡ id + 1 = omega arith in
    rw (e, spread)
      (ground (
        arith,
        spread-below distance (id + 1) k ds (assign id (copy d) table) positions (omega arith)
            (omega arith),
        lookup-assign id k (copy d) table,
      ))

-- The table holds each disk under its number.
spread-at :
    (distance id j : ℕ) (ds : List Disk) (table : List (ℕ × Disk)) (positions : List ℕ)
    → id + length ds < word
    → j < length ds
    → lookup (id + j) (spread false distance id ds table positions).0 ≡ get_elem? ds j
unfolding spread
spread-at distance id j [] table positions fits lt = absurd (omega arith)
spread-at distance id zero (d ∷ ds) table positions fits lt =
    let e : (id + 1) % word ≡ id + 1 = omega arith in
    rw (e, spread)
      (ground (
        arith,
        spread-below distance (id + 1) (id + 0) ds (assign id (copy d) table) positions
            (omega arith) (omega arith),
        lookup-assign id (id + 0) (copy d) table,
      ))
spread-at distance id (suc j) (d ∷ ds) table positions fits lt =
    let e : (id + 1) % word ≡ id + 1 = omega arith in
    let e' : id + suc j ≡ id + 1 + j = omega arith in
    rw (e', e, spread)
      (spread-at distance (id + 1) j ds (assign id (copy d) table) positions (omega arith)
        (omega arith))

stripe-eq-some :
    (n i first num : ℕ) (table : List (ℕ × Disk)) (d : Disk) (result : List Disk)
    → lookup ((first + i) % word % num) table ≡ some d
    → stripe n (i + 1) first num table ≡ some result
    → stripe (suc n) i first num table ≡ some (d ∷ result)
unfolding stripe
stripe-eq-some n i first num table d result found run = rw (found, stripe, run)

-- The result list holds, at each place, the disk whose number follows from the first one.
stripe_lem :
    (n i first : ℕ) (ds : List Disk) (table : List (ℕ × Disk))
    → ((j : ℕ) → j < length ds → lookup j table ≡ get_elem? ds j)
    → 0 < length ds
    → first + i + n < word
    → (result : List Disk) × (stripe n i first (length ds) table ≡ some result)
      × (length result ≡ n)
      × ((j : ℕ) → j < n → get_elem? result j ≡ get_elem? ds ((first + i + j) % length ds))
unfolding stripe
stripe_lem zero i first ds table reads pos fits = ([], refl, refl, λ j lt. absurd (omega arith))
stripe_lem (suc n) i first ds table reads pos fits =
    let at = (first + i) % length ds in
    let e : (first + i) % word ≡ first + i = omega arith in
    let inside : at < length ds = grind arith in
    let (d, here) = get_elem?-lt ds at inside in
    let (result, run, count, each) = stripe_lem n (i + 1) first ds table reads pos (omega arith) in
    (
      d ∷ result,
      stripe-eq-some n i first (length ds) table d result (rw e (reads at inside ∙ here)) run,
      ap suc count,
      each_place d result (here, each),
    )
  where
    each_place :
        (d : Disk) (result : List Disk)
        → (get_elem? ds ((first + i) % length ds) ≡ some d)
          × ((j : ℕ)
              → j < n
              → get_elem? result j ≡ get_elem? ds ((first + (i + 1) + j) % length ds))
        → (j : ℕ) → j < suc n
        → get_elem? (d ∷ result) j ≡ get_elem? ds ((first + i + j) % length ds)
    each_place d result h zero lt = rw add-zero (sym h.0)
    each_place d result h (suc j) lt =
        let e : first + (i + 1) + j ≡ first + i + suc j = omega arith in
        rw (← e) (h.1 j (omega arith))

laid_out-at :
    (ds : List Disk) (j : ℕ)
    → length ds < word
    → j < length ds
    → lookup j (laid_out false ds).0 ≡ get_elem? ds j
unfolding laid_out
laid_out-at ds j few lt =
    subst (λ i. lookup i (spread false ((word - 1) / length ds) 0 ds [] []).0 ≡ get_elem? ds j)
      (zero-add j) (spread-at ((word - 1) / length ds) 0 j ds [] [] (omega arith) lt)

place_striped-eq-stripe :
    (s : RoundRobin) (volume position : ℕ)
    → 0 < s.num_disks
    → place_striped s volume position
      ≡ stripe s.copies 0
          ((position + volume) % word * s.copies % word % s.num_disks)
          s.num_disks
          s.disks
unfolding place_striped
place_striped-eq-stripe s volume position h = ground arith

pub set_disks-filled :
    (o : Outside) (s : RoundRobin) (ds : List Disk)
    → 0 < length ds
    → set_disks o s ds ≡ some (filled o s ds)
unfolding set_disks
set_disks-filled o s [] h = absurd (omega arith)
set_disks-filled o s (d ∷ ds) h = refl

-- The number of the first disk of an extent.
abbrev pub first_disk : Outside → RoundRobin → ℕ → ℕ → ℕ → ℕ
first_disk o s n volume position =
    ((if s.use_hash then o.hash_position position else position) + volume)
    % word
    * s.copies
    % word
    % n

place_extent-eq-place_striped :
    (o : Outside) (s : RoundRobin) (volume position : ℕ)
    → s.use_im ≡ false
    → place_extent o s volume position
      ≡ place_striped s volume (if s.use_hash then o.hash_position position else position)
unfolding place_extent
place_extent-eq-place_striped o s volume position h = ground arith

-- The disks of `result` are those of `ds` from the first one on.
abbrev pub Follows : Outside → RoundRobin → List Disk → ℕ → ℕ → List Disk → Type 0
Follows o s ds volume position result =
    (length result ≡ s.copies)
    × ((j : ℕ)
        → j < s.copies
        → get_elem? result j
          ≡ get_elem? ds ((first_disk o s (length ds) volume position + j) % length ds))

place_extent-Follows :
    (o : Outside) (s : RoundRobin) (ds : List Disk) (volume position : ℕ)
    → s.use_im ≡ false
    → s.num_disks ≡ length ds
    → ((j : ℕ) → j < length ds → lookup j s.disks ≡ get_elem? ds j)
    → 0 < length ds
    → length ds < 2 ^ 63
    → s.copies < 2 ^ 31
    → (result : List Disk) × (place_extent o s volume position ≡ some result)
      × Follows o s ds volume position result
place_extent-Follows o s ds volume position numbered count reads pos few c =
    let (result, run, size, each) =
      stripe_lem s.copies 0 (first_disk o s (length ds) volume position) ds s.disks reads pos
        (omega arith) in
    (
      result,
      place_extent-eq-place_striped o s volume position numbered
          ∙ place_striped-eq-stripe s volume _ (omega arith)
          ∙ subst
              (λ n. stripe s.copies 0 (first_disk o s n volume position) n s.disks ≡ some result)
              (sym count) run,
      (size, ends result each),
    )
  where
    first : ℕ
    first = first_disk o s (length ds) volume position

    ends :
        (result : List Disk)
        → ((j : ℕ) → j < s.copies → get_elem? result j ≡ get_elem? ds ((first + 0 + j) % length ds))
        → (j : ℕ) → j < s.copies
        → get_elem? result j ≡ get_elem? ds ((first + j) % length ds)
    ends result each j lt =
        subst (λ k. get_elem? result j ≡ get_elem? ds ((k + j) % length ds)) (add-zero first)
          (each j lt)

-- Without the ring, for at least one and fewer than 2 ^ 63 disks, fewer than 2 ^ 31 copies, and a
-- visiting order that keeps the entries of the table, `setDisks` then `placeExtent` does not fault,
-- and gives `copies` disks: those
-- of the list that follow one another, round its end, from the one that the position (hashed
-- first where the class is told so) and the volume give.
pub place_extent-striped :
    (o : Outside) (s : RoundRobin) (ds : List Disk) (volume position : ℕ)
    → IsArrangement o.arrange
    → s.use_im ≡ false
    → 0 < length ds
    → length ds < 2 ^ 63
    → s.copies < 2 ^ 31
    → (s' : RoundRobin) × (set_disks o s ds ≡ some s')
      × ((result : List Disk) × (place_extent o s' volume position ≡ some result)
          × Follows o s ds volume position result)
unfolding filled
place_extent-striped o s ds volume position arrangement numbered some_disk few c = (
  filled o s ds,
  set_disks-filled o s ds some_disk,
  place_extent-Follows o (filled o s ds) ds volume position numbered refl
      (λ j lt. arrangement.reads _ j ∙ table_reads j lt) some_disk few c,
)
  where
    table_reads : (j : ℕ) → j < length ds → lookup j (laid_out s.use_im ds).0 ≡ get_elem? ds j
    table_reads j lt =
        subst (λ b. lookup j (laid_out b ds).0 ≡ get_elem? ds j) (sym numbered)
          (laid_out-at ds j (omega arith) lt)
