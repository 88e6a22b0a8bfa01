-- ===== src/RoundRobin/Ring.antt =====
-- Placement through the ring of positions, of dadisi/DistRoundRobin.cpp.
use mathlib.Core.List.{append_assoc}
use data_distribution_simula.ImprovedMap.{word, ImprovedMap}
use data_distribution_simula.Base.{
  ℕ, suc, refl, ap, inl, inr, some, List, [], arith, length, take, Has, ◌+◌, ◌≤◌, ◌≡◌, ◌∷◌, ◌++◌,
  sym, subst, true, length-append, IsAscending, ◌<◌, ◌∙◌, length-map, take-append_le, All-Has,
  All-of_Has, ◌^◌, if◌then◌else◌,
}
use data_distribution_simula.Dictionary.{keys, lookup-Has, Has-keys_of_lookup}
use data_distribution_simula.Disk.{Disk}
use data_distribution_simula.ImprovedMap
use data_distribution_simula.ImprovedMap.Closest.{IsClosest, IsShift, find_closest-new}
use data_distribution_simula.RoundRobin.Striped.{IsArrangement, set_disks-filled}
use data_distribution_simula.RoundRobin.{
  find, walk, laid_out, RoundRobin, place_ring, Outside, set_disks, place_extent, filled,
}
use data_distribution_simula.RoundRobin.Walk.{find_lem, disks_of, walk-wrap}
use data_distribution_simula.RoundRobin.Layout.{laid_out-IsLaidOut}

-- What placement through the ring gives: disks that follow one another in the order of the table,
-- round its end, from the one whose position is the closest below the position asked for.
pub record PlacesFrom (s : RoundRobin) (position : ℕ) (result : List Disk) : Type 0 where
  pub before : List (ℕ × Disk)
  pub key : ℕ
  pub first : Disk
  pub after : List (ℕ × Disk)
  pub split : s.disks ≡ before ++ ((key, first) ∷ after)
  pub closest : IsClosest (keys s.disks) position key
  pub taken : result ≡ take s.copies (disks_of ((key, first) ∷ after) ++ disks_of before)

place_ring-eq-walk :
    (s : RoundRobin) (position key : ℕ) (m : ImprovedMap)
    → s.ring ≡ some m
    → ImprovedMap.find_closest m position ≡ some key
    → place_ring s position ≡ walk s.copies (find key s.disks) s.disks
unfolding place_ring
place_ring-eq-walk s position key m e found = rw (e, place_ring, found)

disks_of-append : (xs ys : List (ℕ × Disk)) → disks_of (xs ++ ys) ≡ disks_of xs ++ disks_of ys
disks_of-append [] ys = refl
disks_of-append (x ∷ xs) ys = ap (◌∷◌ x.1) (disks_of-append xs ys)

take_round :
    (n : ℕ) (front back : List Disk)
    → n ≤ length front + length back
    → take n (back ++ (front ++ back)) ≡ take n (back ++ front)
take_round n front back h =
    ap (take n) (sym (append_assoc back front back))
    ∙ take-append_le n (back ++ front) back (omega (arith, length-append back front))

place_ring-PlacesFrom :
    (s : RoundRobin) (position key : ℕ) (m : ImprovedMap)
    → s.ring ≡ some m
    → ImprovedMap.find_closest m position ≡ some key
    → IsClosest (keys s.disks) position key
    → s.copies ≤ length s.disks
    → (result : List Disk) × (place_ring s position ≡ some result) × PlacesFrom s position result
place_ring-PlacesFrom s position key m e found closest few =
    let (before, d, after, start, split) = find_lem key s.disks closest.0 in
    let enough : s.copies ≤ length before + suc (length after) =
      omega (arith, few, ap length split, length-append before ((key, d) ∷ after)) in
    (
      take s.copies (disks_of ((key, d) ∷ after) ++ disks_of before),
      place_ring-eq-walk s position key m e found
          ∙ ap (λ it. walk s.copies it s.disks) start
          ∙ walk-wrap s.copies (key, d) after s.disks (omega (arith, few))
          ∙ ap some (
              ap (λ l. take s.copies (disks_of ((key, d) ∷ after) ++ l))
                (ap disks_of split ∙ disks_of-append before ((key, d) ∷ after))
              ∙ take_round s.copies (disks_of before) (disks_of ((key, d) ∷ after)) (
                  omega (
                    arith,
                    enough,
                    length-map before (λ e. e.1),
                    length-map ((key, d) ∷ after) (λ e. e.1),
                  ))),
      record {
        before = before;
        key = key;
        first = d;
        after = after;
        split = split;
        closest = closest;
        taken = refl;
      },
    )

-- The keys of the table are the positions, in the order in which the table is visited.
keys-arrange :
    (arrange : List (ℕ × Disk) → List (ℕ × Disk)) (table : List (ℕ × Disk)) (k : ℕ)
    → IsArrangement arrange
    → Has k (keys table)
    → Has k (keys (arrange table))
keys-arrange arrange table k a h =
    let (v, found) = lookup-Has k table h in
    Has-keys_of_lookup k (arrange table) v (a.reads table k ∙ found)

keys-arrange_inv :
    (arrange : List (ℕ × Disk) → List (ℕ × Disk)) (table : List (ℕ × Disk)) (k : ℕ)
    → IsArrangement arrange
    → Has k (keys (arrange table))
    → Has k (keys table)
keys-arrange_inv arrange table k a h =
    let (v, found) = lookup-Has k (arrange table) h in
    Has-keys_of_lookup k table v (sym (a.reads table k) ∙ found)

IsClosest-arrange :
    (table : List (ℕ × Disk)) (positions : List ℕ) (position key : ℕ)
    → ((k : ℕ) → Has k positions → Has k (keys table))
    → ((k : ℕ) → Has k (keys table) → Has k positions)
    → IsClosest positions position key
    → IsClosest (keys table) position key
IsClosest-arrange table positions position key to from (has, best) = (
  to key has,
  elim best [
    | inl (le, most) ↦
        inl (le, All-of_Has _ (keys table) (λ a h. All-Has _ a positions most (from a h)))
    | inr (over, most) ↦ inr (
      All-of_Has _ (keys table) (λ a h. All-Has _ a positions over (from a h)),
      All-of_Has _ (keys table) (λ a h. All-Has _ a positions most (from a h)),
    )
  ],
)

wanted_slices-length :
    (k : ℕ) (ks : List ℕ) (n : ℕ)
    → n ≡ length (k ∷ ks)
    → n ≤ 2 ^ 63
    → ImprovedMap.wanted_slices n (k ∷ ks) ≤ 2 ^ 63
unfolding ImprovedMap.wanted_slices
wanted_slices-length k ks n e few = ground arith

-- The ring over the positions answers.
ring_answers :
    (ceil_log2 : ℕ → ℕ) (positions : List ℕ) (n position : ℕ)
    → IsShift ceil_log2
    → IsAscending positions
    → length positions ≡ suc n
    → suc n ≤ 2 ^ 63
    → position < word
    → (m : ImprovedMap) × (ImprovedMap.new ceil_log2 (length positions) positions ≡ some m)
      × ((key : ℕ) × (ImprovedMap.find_closest m position ≡ some key)
          × IsClosest positions position key)
ring_answers ceil_log2 [] n position shift asc count few lt = absurd (omega arith)
ring_answers ceil_log2 (k ∷ ks) n position shift asc count few lt =
    let few' : length (k ∷ ks) ≤ 2 ^ 63 = omega arith in
    find_closest-new ceil_log2 (length (k ∷ ks)) k ks position shift asc
      (wanted_slices-length k ks (length (k ∷ ks)) refl few') lt

filled-ring :
    (o : Outside) (s : RoundRobin) (ds : List Disk)
    → s.use_im ≡ true
    → (filled o s ds).ring
      ≡ ImprovedMap.new o.ceil_log2 (length (laid_out true ds).1) (laid_out true ds).1
unfolding filled
filled-ring o s ds e =
    subst
      (λ b.
        (if b
          then ImprovedMap.new o.ceil_log2 (length (laid_out b ds).1) (laid_out b ds).1
          else s.ring)
        ≡ ImprovedMap.new o.ceil_log2 (length (laid_out true ds).1) (laid_out true ds).1)
      (sym e) refl

filled-disks :
    (o : Outside) (s : RoundRobin) (ds : List Disk)
    → s.use_im ≡ true
    → (filled o s ds).disks ≡ o.arrange (laid_out true ds).0
unfolding filled
filled-disks o s ds e = ap (λ b. o.arrange (laid_out b ds).0) e

filled-same :
    (o : Outside) (s : RoundRobin) (ds : List Disk)
    → ((filled o s ds).copies ≡ s.copies)
      × ((filled o s ds).use_im ≡ s.use_im)
      × ((filled o s ds).use_hash ≡ s.use_hash)
unfolding filled
filled-same o s ds = (refl, refl, refl)

place_extent-eq-place_ring :
    (o : Outside) (s : RoundRobin) (volume position : ℕ)
    → s.use_im ≡ true
    → place_extent o s volume position
      ≡ place_ring s (if s.use_hash then o.hash_position position else position)
unfolding place_extent
place_extent-eq-place_ring o s volume position h = ground arith

filled-PlacesFrom :
    (o : Outside) (s : RoundRobin) (d : Disk) (ds : List Disk) (at : ℕ)
    → IsArrangement o.arrange
    → IsShift o.ceil_log2
    → s.use_im ≡ true
    → suc (length ds) ≤ 2 ^ 63
    → s.copies ≤ suc (length ds)
    → at < word
    → (result : List Disk) × (place_ring (filled o s (d ∷ ds)) at ≡ some result)
      × PlacesFrom (filled o s (d ∷ ds)) at result
filled-PlacesFrom o s d ds at a shift ring few c lt =
    let (laid, count) = laid_out-IsLaidOut d ds (omega arith) in
    let table = (laid_out true (d ∷ ds)).0 in
    let (m, made, (key, found, closest)) =
      ring_answers o.ceil_log2 (laid_out true (d ∷ ds)).1 (length ds) at shift laid.ascending count
        few lt in
    let same = filled-disks o s (d ∷ ds) ring in
    place_ring-PlacesFrom (filled o s (d ∷ ds)) at key m (filled-ring o s (d ∷ ds) ring ∙ made)
      found
      (subst (λ l. IsClosest (keys l) at key) (sym same)
        (IsClosest-arrange (o.arrange table) (laid_out true (d ∷ ds)).1 at key
          (λ k h. keys-arrange o.arrange table k a (laid.stored k h))
          (λ k h. laid.placed k (keys-arrange_inv o.arrange table k a h)) closest))
      (omega
        (arith, (filled-same o s (d ∷ ds)).0, ap length same, a.counted table, laid.counted, count))

-- With the ring, `setDisks` then `placeExtent` does not fault for at most as many copies as there
-- are disks. It gives `copies` disks that follow one another in the order of the table, from the
-- one whose position is the closest below the extent's on the ring; so no entry is used twice. There
-- are at most 2 ^ 63 disks, positions and their hashes are below 2 ^ 64, the visiting order keeps the
-- entries of the table, and the C library's logarithm gives a shift between 1 and 63.
pub place_extent-PlacesFrom :
    (o : Outside) (s : RoundRobin) (d : Disk) (ds : List Disk) (volume position : ℕ)
    → IsArrangement o.arrange
    → IsShift o.ceil_log2
    → s.use_im ≡ true
    → suc (length ds) ≤ 2 ^ 63
    → s.copies ≤ suc (length ds)
    → position < word
    → ((p : ℕ) → o.hash_position p < word)
    → (s' : RoundRobin) × (set_disks o s (d ∷ ds) ≡ some s')
      × ((result : List Disk) × (place_extent o s' volume position ≡ some result)
          × PlacesFrom s' (if s.use_hash then o.hash_position position else position) result)
place_extent-PlacesFrom o s d ds volume position a shift ring few c lt hash_lt =
    let at = if s.use_hash then o.hash_position position else position in
    let inside : at < word = ground (arith, hash_lt position) in
    let (result, run, places) = filled-PlacesFrom o s d ds at a shift ring few c inside in
    (
      filled o s (d ∷ ds),
      set_disks-filled o s (d ∷ ds) (omega arith),
      (
        result,
        place_extent-eq-place_ring o (filled o s (d ∷ ds)) volume position
              ((filled-same o s (d ∷ ds)).1 ∙ ring)
            ∙ ap
                (λ b.
                  place_ring (filled o s (d ∷ ds))
                    (if b then o.hash_position position else position))
                (filled-same o s (d ∷ ds)).2
            ∙ run,
        places,
      ),
    )
