-- ===== src/Rusht/Extent.antt =====
-- From `setDisks` to `placeExtent` of dadisi/DistRUSHt.cpp: the disks of an extent.
use native.Mathlib.Nat.{mul-le-mul_left}
use data_distribution_simula.Base.{
  ℕ, suc, refl, sym, ap, subst, inl, inr, some, List, [], map, arith, length, get_elem?,
  get_elem?-lt, All, ◌+◌, ◌-◌, ◌*◌, ◌^◌, ◌≤◌, ◌<◌, ◌≡◌, ◌∷◌, ◌∙◌, IsUnique,
}
use data_distribution_simula.Disk.{Disk, copy}
use data_distribution_simula.Double.{Double}
use data_distribution_simula.Rushr.{find_clusters}
use data_distribution_simula.Rushr.Clusters.{part, find_clusters-IsFound, nothing, IsFound-nothing}
use data_distribution_simula.Rushr.Fill.{before, before-part, fill_clusters-part}
use data_distribution_simula.Rushr.Extent.{Picks}
use data_distribution_simula.Rushr.Setup.{
  HasRoom, parts-large, HasRoom-at, some_key, are_large-lem, map-copy, length-map-part,
}
use data_distribution_simula.Rusht.{
  Node, Rusht, server_counts, largest, average_weights, set_disks, Outside, random_key, prime_index,
  place_from, place_extent, weight_sum,
}
use data_distribution_simula.Rusht.Tree.{
  AllLeaves, IsGuided, get_subcluster-AllLeaves, construct_tree-AllLeaves,
}
use data_distribution_simula.Rusht.Coprime.{IsPrime}
use data_distribution_simula.Rusht.Setup.{
  IsTable, All-get_elem?, lowest_prime_index-greater, largest-get_elem?, largest-before,
  server_counts-get_elem?,
}
use data_distribution_simula.Rusht.Placement.{place_from-Picks}

-- What a leaf says of its cluster.
abbrev pub IsCluster : List (List Disk) → ℕ → ℕ → ℕ → Type 0
IsCluster cs copies n i =
    (get_elem? (server_counts cs 0) i ≡ some (before cs i))
    × (before cs i + n ≤ before cs (length cs))
    × (copies ≤ n)
    × (n ≤ largest cs 0)

clusters-IsCluster :
    (cs : List (List Disk)) (copies : ℕ)
    → All (λ c. copies ≤ length c) cs
    → (i : ℕ) (c : List Disk) → get_elem? cs i ≡ some c
    → IsCluster cs copies (length c) i
clusters-IsCluster cs copies large i c e =
    let (found, sum, room) = server_counts-get_elem? cs 0 i c e in
    (
      found ∙ ap some (omega arith),
      omega (arith, sum, room),
      All-get_elem? (λ c. copies ≤ length c) cs i c large e,
      largest-get_elem? cs 0 i c e,
    )

length-average_weights :
    {R : Type 0} (dbl : Double R) (average : R) (ws : List R)
    → length (average_weights dbl average ws) ≡ length ws
unfolding average_weights
length-average_weights dbl average [] = refl
length-average_weights dbl average (w ∷ ws) = ap suc (length-average_weights dbl average ws)

-- The object after `setDisks`.
pub record IsSetUp {R : Type 0} (this : Rusht R) (primes : List ℕ) (disks : List Disk) (copies : ℕ)
    (root : Node R) (r : Rusht R) : Type 0 where
  pub clusters : List (List Disk)
  pub counts : r.cumulative_server_counts ≡ server_counts clusters 0
  pub whole : before clusters (length clusters) ≡ length disks
  pub leaves : AllLeaves (IsCluster clusters copies) root
  pub rooted : r.root ≡ some root
  pub disks_kept : r.alldisks ≡ disks
  pub copies_kept : r.copies ≡ copies
  pub inside : r.lowest_prime_index < length primes
  pub greater :
      (j q : ℕ) → r.lowest_prime_index ≤ j → get_elem? primes j ≡ some q → largest clusters 0 < q

module _ {R : Type 0} (dbl : Double R) where
  -- Where there are disks, they have room, and the table has a prime for them: `setDisks` succeeds.
  set_disks-IsSetUp :
      (primes : List ℕ) (this : Rusht R) (disks : List Disk)
      → IsTable primes (length disks)
      → 0 < length disks
      → HasRoom this.copies disks
      → (r : Rusht R) × (root : Node R) × (set_disks dbl primes this disks ≡ some r)
        × IsSetUp this primes disks this.copies root r
  unfolding set_disks
  set_disks-IsSetUp primes this disks table some_disk room =
      let (ks, found, kept, every, back) =
        find_clusters-IsFound dbl disks nothing [] IsFound-nothing in
      let clusters = map (λ k. part k disks) ks in
      let count = length-map-part disks ks in
      let whole : before clusters (length clusters) ≡ length disks =
        ap (before clusters) count ∙ before-part disks ks found.unique every in
      let large : All (λ c. this.copies ≤ length c) clusters =
        parts-large this.copies disks ks (λ k t.
          HasRoom-at this.copies disks disks room k
            (elim (back k t) [ inl n ↦ absurd n | inr m ↦ m ])) in
      let filled = fill_clusters-part disks ks (λ k. []) found.unique every in
      let final = find_clusters dbl disks nothing in
      let average =
        dbl.div (weight_sum dbl clusters final.weights (dbl.of_signed 0))
          (dbl.of_unsigned (length disks)) in
      let weights = average_weights dbl average final.weights in
      let (root, built, leaves) =
        construct_tree-AllLeaves dbl (IsCluster clusters this.copies) clusters weights
          (length-average_weights dbl average final.weights ∙ found.weighed ∙ sym count)
          (omega (arith, count, some_key disks ks some_disk every))
          (clusters-IsCluster clusters this.copies large) in
      let (k, p, at_k, size_lt) = table.greater in
      let fits = largest-before clusters 0 (length disks) (omega arith) (omega (arith, whole)) in
      let (low, lowest, inside, greater) =
        lowest_prime_index-greater primes (largest clusters 0) k p table.ascending at_k
          (omega arith) in
      (
        record {
          copies = this.copies;
          lowest_prime_index = low;
          cumulative_server_counts = server_counts clusters 0;
          clusters = clusters;
          root = some root;
          weights = weights;
          alldisks = map copy disks;
        },
        root,
        rw
            (
              found.numbered,
              found.empty,
              filled,
              are_large-lem this.copies clusters large,
              built,
              lowest,
            )
            refl,
        record {
          clusters = clusters;
          counts = refl;
          whole = whole;
          leaves = leaves;
          rooted = refl;
          disks_kept = map-copy disks;
          copies_kept = refl;
          inside = inside;
          greater = greater;
        },
      )

-- The index of a prime is one of the table from the lowest one on, as the hash lies between 0 and 1.
abbrev pub IsSpread : {R : Type 0} → Double R → Outside R → Type 0
IsSpread dbl outside =
    (low key i : ℕ)
    → low < length outside.primes
    → (low ≤ prime_index dbl outside low key i)
      × (prime_index dbl outside low key i < length outside.primes)

-- A random key is a number of 31 bits, as the hash lies between 0 and 1.
abbrev pub IsKey : {R : Type 0} → Double R → Outside R → Type 0
IsKey dbl outside = (key i : ℕ) → random_key dbl outside key i < 2 ^ 31

sum-small :
    (key random n p : ℕ)
    → key < 2 ^ 62
    → random < 2 ^ 31
    → n < 2 ^ 31
    → p < 2 ^ 31
    → key + random + n * p < 2 ^ 63
sum-small key random n p hk hr hn hp =
    let first : n * p ≤ n * (2 ^ 31 - 1) = mul-le-mul_left n (omega arith) in
    omega (arith, first, hk, hr, hn)

module _ {R : Type 0} (dbl : Double R) (outside : Outside R) where
  place_extent-from :
      (r : Rusht R) (n : ℕ) (root : Node R) (disks : List Disk) (volume position : ℕ)
      (placed : List Disk)
      → r.root ≡ some root
      → r.copies ≡ n
      → place_from dbl outside r root position n 0 ≡ some placed
      → place_extent dbl outside r volume position ≡ some placed
  unfolding place_extent
  place_extent-from r n root disks volume position placed rooted copies e =
      simp (rooted, copies, e) refl

  -- Where there are fewer than 2 ^ 31 disks, and at least one, every capacity (as an `int`) is that of
  -- as many disks as there are copies, the table of primes, each below 2 ^ 31, is in order and goes
  -- beyond the number of disks, the hash chooses an index of the table and a random key of 31 bits,
  -- the position is not negative and below 2 ^ 62, and its key is not led to a child that is not
  -- there: `setDisks` succeeds, no sum overflows, and `placeExtent` gives the disks at as many
  -- different indices as there are copies.
  pub place_extent-distinct :
      (this : Rusht R) (disks : List Disk) (volume position : ℕ)
      → IsTable outside.primes (length disks)
      → IsSpread dbl outside
      → IsKey dbl outside
      → position < 2 ^ 62
      → 0 < length disks
      → length disks < 2 ^ 31
      → HasRoom this.copies disks
      → ((r : Rusht R) (root : Node R)
          → set_disks dbl outside.primes this disks ≡ some r
          → r.root ≡ some root
          → IsGuided dbl outside position root)
      → (r : Rusht R) × (servers : List ℕ) × (placed : List Disk) × (set_disks dbl outside.primes
            this disks
          ≡ some r)
        × (place_extent dbl outside r volume position ≡ some placed)
        × (length servers ≡ this.copies)
        × IsUnique servers
        × Picks disks servers placed
  place_extent-distinct this disks volume position table spread keys low some_disk few room guided =
      let (r, root, e, s) = set_disks-IsSetUp dbl outside.primes this disks table some_disk room in
      let (n, i, found, (counts, fits, large, most)) =
        get_subcluster-AllLeaves dbl outside (IsCluster s.clusters this.copies) root position
          s.leaves (guided r root e s.rooted) in
      let (from_low, in_table) = spread r.lowest_prime_index position i s.inside in
      let index = prime_index dbl outside r.lowest_prime_index position i in
      let (p, prime_at) = get_elem?-lt outside.primes index in_table in
      let (servers, placed, placing, count, unique, picks, later) =
        place_from-Picks dbl outside r root position n i (before s.clusters i) p found prime_at
          (ap (λ l. get_elem? l i) s.counts ∙ counts)
          (omega (arith, fits, s.whole, ap length s.disks_kept))
          (All-get_elem? IsPrime outside.primes index p table.prime prime_at)
          (omega (arith, s.greater index p from_low prime_at, most))
          (sum-small position (random_key dbl outside position i) n p low (keys position i)
            (omega (arith, fits, s.whole, few))
            (All-get_elem? (λ p. p < 2 ^ 31) outside.primes index p table.small prime_at))
          this.copies 0 (omega (arith, large)) in
      (
        r,
        servers,
        placed,
        e,
        place_extent-from r this.copies root disks volume position placed s.rooted s.copies_kept
            placing,
        count,
        unique,
        subst (λ l. Picks l servers placed) s.disks_kept picks,
      )
