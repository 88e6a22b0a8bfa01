-- ===== src/Rusht/Placement.antt =====
-- The replicas of an extent in one cluster, of `rusht` and `placeExtent` of dadisi/DistRUSHt.cpp.
use native.Mathlib.Nat.{mod-lt, mul-le-mul_right}
use data_distribution_simula.Base.{
  ℕ, zero, suc, refl, true, false, ltb, leb, some, List, [], arith, length, get_elem?, get_elem?-lt,
  All, All-map, All-Has, ◌+◌, ◌-◌, ◌*◌, ◌%◌, ◌^◌, ◌==◌, ◌≤◌, ◌<◌, ◌≡◌, ◌≢◌, ◌∷◌, IsUnique,
}
use data_distribution_simula.Disk.{Disk}
use data_distribution_simula.Double.{Double}
use data_distribution_simula.Rushr.Extent.{Picks}
use data_distribution_simula.Rusht.{
  Node, Rusht, Outside, get_subcluster, random_key, prime_index, sum_of, server_of, rusht,
  place_from,
}
use data_distribution_simula.Rusht.Coprime.{IsPrime, distinct_steps}

module _ {R : Type 0} (dbl : Double R) (outside : Outside R) (this : Rusht R) (root : Node R)
    (key n i offset p : ℕ) (found : get_subcluster dbl outside root key ≡ some (n, i))
    (prime_at : get_elem? outside.primes (prime_index dbl outside this.lowest_prime_index key i)
      ≡ some p)
    (counts : get_elem? this.cumulative_server_counts i ≡ some offset)
    (room : offset + n ≤ length this.alldisks) (prime : IsPrime p) (small : n < p)
    (below : key + random_key dbl outside key i + n * p < 2 ^ 63) where
  -- The server of a replica.
  abbrev server : ℕ → ℕ
  server replica = offset + (key + random_key dbl outside key i + replica * p) % n

  -- A replica of which there is a server does not overflow.
  steps-lt : (replica : ℕ) → replica < n → key + random_key dbl outside key i + replica * p < 2 ^ 63
  steps-lt replica h =
      let le : replica * p ≤ n * p = mul-le-mul_right p (omega arith) in omega (arith, le, below)

  sum_of-some :
      (replica : ℕ)
      → replica < n
      → sum_of key (random_key dbl outside key i) (replica * p)
        ≡ some (key + random_key dbl outside key i + replica * p)
  unfolding sum_of
  sum_of-some replica h =
      let lt = steps-lt replica h in
      let product : leb (2 ^ 63) (replica * p) ≡ false = ground (arith, lt) in
      let plain : ltb key (2 ^ 63) ≡ true = ground (arith, lt) in
      let fits : leb (2 ^ 63) (key + random_key dbl outside key i + replica * p) ≡ false =
        ground (arith, lt) in
      rw (product, plain, fits) refl

  server_of-some :
      (replica : ℕ)
      → replica < n
      → server_of offset (key + random_key dbl outside key i + replica * p) n
        ≡ some (server replica)
  unfolding server_of
  server_of-some replica h =
      let lt = steps-lt replica h in
      let some_server : (n == 0) ≡ false = ground arith in
      let plain : ltb (key + random_key dbl outside key i + replica * p) (2 ^ 63) ≡ true =
        ground (arith, lt) in
      rw (some_server, plain) refl

  rusht_lem :
      (replica : ℕ) → replica < n → rusht dbl outside this root key replica ≡ some (server replica)
  unfolding rusht
  rusht_lem replica h =
      rw (found, prime_at, counts, sum_of-some replica h, server_of-some replica h) refl

  server-lt : (replica : ℕ) → 0 < n → server replica < length this.alldisks
  server-lt replica h =
      let below = mod-lt (key + random_key dbl outside key i + replica * p) h in
      omega (arith, below)

  -- A server of a replica from `replica` on.
  abbrev IsLater : ℕ → ℕ → Type 0
  IsLater replica s = (t : ℕ) × (replica ≤ t) × (t < n) × (s ≡ server t)

  server-later : (replica s : ℕ) → IsLater (suc replica) s → server replica ≢ s
  server-later replica s (t, later, inside, e) same =
      let start = key + random_key dbl outside key i in
      let sum : replica + (t - replica) ≡ t = omega arith in
      distinct_steps p n start replica (t - replica) prime small (omega arith) (omega arith)
        (rw sum (omega (arith, same, e)))

  -- The loop of `placeExtent` takes different disks.
  pub place_from-Picks :
      (m replica : ℕ)
      → replica + m ≤ n
      → (servers : List ℕ) × (placed : List Disk) × (place_from dbl outside this root key m replica
          ≡ some placed)
        × (length servers ≡ m)
        × IsUnique servers
        × Picks this.alldisks servers placed
        × All (IsLater replica) servers
  unfolding place_from
  place_from-Picks zero replica h = ([], [], refl, refl, tt, refl, tt)
  place_from-Picks (suc m) replica h =
      let s = server replica in
      let (d, at_s) = get_elem?-lt this.alldisks s (server-lt replica (omega arith)) in
      let (servers, placed, rest, count, unique, picks, later) =
        place_from-Picks m (suc replica) (omega arith) in
      let next : replica + 1 ≡ suc replica = omega arith in
      (
        s ∷ servers,
        d ∷ placed,
        rw (rusht_lem replica (omega arith), at_s, next, rest) refl,
        omega (arith, count),
        (
          (λ there.
              server-later replica s (All-Has (IsLater (suc replica)) s servers later there) refl),
          unique,
        ),
        rw (at_s, picks) refl,
        (
          (replica, omega arith, omega arith, refl),
          All-map (IsLater (suc replica)) (IsLater replica) servers
              (λ s (t, after, inside, e). (t, omega arith, inside, e)) later,
        ),
      )
