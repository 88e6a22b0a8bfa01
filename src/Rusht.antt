-- ===== src/Rusht.antt =====
-- RUSH_T placement: the class `DistRUSHt` of dadisi/DistRUSHt.cpp, and the searches of the table of
-- primes in dadisi/Prime.cpp.
--
-- The clusters are found as RUSH_R does, and a binary tree over them leads each key to one of them.
-- The hash of a key and the table of primes are parameters. `exit` and an access outside an array or
-- through a null pointer are `none`, and so is a sum of 64 bits that overflows. A position is a
-- pattern of 64 bits with a sign; the number of copies is one of 32 bits without.
pub mod Tree
pub mod Coprime
pub mod Setup
pub mod Placement
pub mod Extent
use data_distribution_simula.Base.{
  ℕ, zero, suc, Option, none, some, List, [], map, ltb, leb, length, get_elem?, ◌+◌, ◌-◌, ◌*◌, ◌%◌,
  ◌^◌, ◌∷◌, ◌==◌, ◌>>=◌, if◌then◌else◌,
}
use data_distribution_simula.Disk.{Disk, copy}
use data_distribution_simula.Double.{Double}
use data_distribution_simula.Rushr.{find_clusters, fill_clusters, are_large}

-- `Node`: a cluster with its number of servers, or an inner node, which may have no right child.
pub data Node (R : Type 0) : Type 0 where
  sub_cluster : (server_count index : ℕ) (weight : R) → Node R
  inner : (left right : Node R) (index : ℕ) (weight normalized_weight : R) → Node R
  single : (left : Node R) (index : ℕ) (weight normalized_weight : R) → Node R

pub record Rusht (R : Type 0) : Type 0 where
  pub copies : ℕ
  pub lowest_prime_index : ℕ
  pub cumulative_server_counts : List ℕ
  pub clusters : List (List Disk)
  pub root : Option (Node R)
  pub weights : List R
  pub alldisks : List Disk

abbrev pub weight_of : {R : Type 0} → Node R → R
weight_of (sub_cluster n i w) = w
weight_of (inner l r i w m) = w
weight_of (single l i w m) = w

module _ {R : Type 0} (dbl : Double R) where
  -- `init_internal_node`: the weight of a child that is not there is the zero of `calloc`.
  abbrev pub init_internal_node : Node R → Option (Node R) → ℕ → Node R
  init_internal_node left none index =
      let weight = dbl.add (weight_of left) (dbl.of_signed 0) in
      single left index weight (dbl.div (weight_of left) weight)
  init_internal_node left (some right) index =
      let weight = dbl.add (weight_of left) (weight_of right) in
      inner left right index weight (dbl.div (weight_of left) weight)

  -- `init_subtree_node`, for each of the clusters
  unfoldable pub init_subtree_nodes : List (List Disk) → List R → ℕ → List (Node R)
  init_subtree_nodes [] ws index = []
  init_subtree_nodes (c ∷ cs) [] index = []
  init_subtree_nodes (c ∷ cs) (w ∷ ws) index =
      sub_cluster (length c) index (dbl.mul (dbl.of_signed (length c)) w)
      ∷ init_subtree_nodes cs ws (index + 1)

  -- One level of `construct_tree`, with the next index.
  unfoldable pub next_level : List (Node R) → ℕ → List (Node R) × ℕ
  next_level [] index = ([], index)
  next_level (n ∷ []) index = (init_internal_node n none index ∷ [], index + 1)
  next_level (n ∷ m ∷ nodes) index =
      let rest = next_level nodes (index + 1) in
      (init_internal_node n (some m) index ∷ rest.0, rest.1)

  -- The loop of `construct_tree`, on fuel for the number of levels.
  unfoldable pub build_levels : ℕ → List (Node R) → ℕ → Option (Node R)
  unfolding next_level
  build_levels fuel [] index = none
  build_levels fuel (n ∷ []) index = some n
  build_levels zero (n ∷ m ∷ nodes) index = none
  build_levels (suc fuel) (n ∷ m ∷ nodes) index =
      let level = next_level (n ∷ m ∷ nodes) index in build_levels fuel level.0 level.1

  -- `construct_tree`
  unfoldable pub construct_tree : List (List Disk) → List R → Option (Node R)
  unfolding init_subtree_nodes build_levels
  construct_tree clusters weights =
      build_levels (length clusters) (init_subtree_nodes clusters weights 0) (length clusters)

-- `get_cumulative_server_counts`
unfoldable pub server_counts : List (List Disk) → ℕ → List ℕ
server_counts [] total = []
server_counts (c ∷ cs) total = total ∷ server_counts cs (total + length c)

-- The loop of `get_lowest_prime_index` over the clusters.
unfoldable pub largest : List (List Disk) → ℕ → ℕ
largest [] most = most
largest (c ∷ cs) most = largest cs (if ltb most (length c) then length c else most)

-- `Prime::getLowestPrimeIndex`
unfoldable pub lowest_prime_index : List ℕ → ℕ → Option ℕ
lowest_prime_index [] n = none
lowest_prime_index (p ∷ primes) n =
    let rest = lowest_prime_index primes n in
    if leb p n then (rest >>= λ i. some (suc i)) else some 0

-- The loop that divides the weights by their average.
unfoldable pub average_weights : {R : Type 0} → Double R → R → List R → List R
average_weights dbl average [] = []
average_weights dbl average (w ∷ ws) = dbl.div w average ∷ average_weights dbl average ws

module _ {R : Type 0} (dbl : Double R) where
  -- The loop that adds up `weights[i] * clusters[i]->size()`.
  unfoldable pub weight_sum : List (List Disk) → List R → R → R
  weight_sum [] ws sum = sum
  weight_sum (c ∷ cs) [] sum = sum
  weight_sum (c ∷ cs) (w ∷ ws) sum =
      weight_sum cs ws (dbl.add sum (dbl.mul w (dbl.of_unsigned (length c))))

  -- `setDisks`, given the table of primes
  unfoldable pub set_disks : List ℕ → Rusht R → List Disk → Option (Rusht R)
  unfolding find_clusters fill_clusters are_large weight_sum average_weights construct_tree
      server_counts largest lowest_prime_index
  set_disks primes this disks =
      let found =
        find_clusters dbl disks
          (record { cluster_index = []; index = 0; clusters = []; weights = [] }) in
      fill_clusters found.cluster_index disks found.clusters >>= λ clusters.
      if are_large this.copies clusters
      then (let average =
            dbl.div (weight_sum clusters found.weights (dbl.of_signed 0))
              (dbl.of_unsigned (length disks)) in
          let weights = average_weights dbl average found.weights in
          construct_tree dbl clusters weights >>= λ root.
          lowest_prime_index primes (largest clusters 0) >>= λ lowest. some (record {
            copies = this.copies;
            lowest_prime_index = lowest;
            cumulative_server_counts = server_counts clusters 0;
            clusters = clusters;
            root = some root;
            weights = weights;
            alldisks = map copy disks;
          }))
      else none

-- `key + random_key + replica_id * random_prime`, of which the key alone can be negative, unless the
-- product or the sum leaves the signed numbers of 64 bits.
unfoldable pub sum_of : ℕ → ℕ → ℕ → Option ℕ
sum_of key random_key steps =
    if leb (2 ^ 63) steps
    then none
    else if ltb key (2 ^ 63)
    then (if leb (2 ^ 63) (key + random_key + steps) then none else some (key + random_key + steps))
    else if leb (2 ^ 64 + 2 ^ 63) (key + random_key + steps)
    then none
    else some ((key + random_key + steps) % 2 ^ 64)

-- The server at an offset: the remainder of a negative sum is not positive, and an index before the
-- array is no server. A cluster without servers is a division by 0.
unfoldable pub server_of : ℕ → ℕ → ℕ → Option ℕ
server_of offset sum server_count =
    if server_count == 0
    then none
    else if ltb sum (2 ^ 63)
    then some (offset + sum % server_count)
    else if ltb offset ((2 ^ 64 - sum) % server_count)
    then none
    else some (offset - (2 ^ 64 - sum) % server_count)

-- What the placement uses of other code: `hash`, and the table of primes with `Prime::getSize()`.
pub record Outside (R : Type 0) : Type 0 where
  pub hash : ℕ → ℕ → ℕ → R
  pub primes : List ℕ

module _ {R : Type 0} (dbl : Double R) (outside : Outside R) where
  -- `get_subcluster`: the number of servers of the cluster, and its index.
  unfoldable pub get_subcluster : Node R → ℕ → Option (ℕ × ℕ)
  get_subcluster (sub_cluster n index w) key = some (n, index)
  get_subcluster (inner left right index w normalized) key =
      let l = get_subcluster left key in
      let r = get_subcluster right key in
      if dbl.lt (outside.hash key index 0) normalized then l else r
  get_subcluster (single left index w normalized) key =
      let l = get_subcluster left key in
      if dbl.lt (outside.hash key index 0) normalized then l else none

  -- `random_key`, and the index of `random_prime`
  unfoldable pub random_key : ℕ → ℕ → ℕ
  random_key key index = dbl.to_int (dbl.mul (outside.hash key index 0) (dbl.of_signed 40_031))

  unfoldable pub prime_index : ℕ → ℕ → ℕ → ℕ
  prime_index lowest key index = dbl.to_int (
      dbl.add (dbl.of_signed lowest) (
        dbl.round (
          dbl.mul (outside.hash key index 1) (dbl.of_signed (length outside.primes - lowest - 1)))))

  -- `rusht`
  unfoldable pub rusht : Rusht R → Node R → ℕ → ℕ → Option ℕ
  unfolding get_subcluster random_key prime_index sum_of server_of
  rusht this root key replica = do
    leaf ← get_subcluster root key
    random_prime ← get_elem? outside.primes (prime_index this.lowest_prime_index key leaf.1)
    offset ← get_elem? this.cumulative_server_counts leaf.1
    sum ← sum_of key (random_key key leaf.1) (replica * random_prime)
    server_of offset sum leaf.0

  -- The loop of `placeExtent`, with `n` replicas left, from `replica` on.
  unfoldable pub place_from : Rusht R → Node R → ℕ → ℕ → ℕ → Option (List Disk)
  unfolding rusht
  place_from this root key zero replica = some []
  place_from this root key (suc n) replica = do
    server ← rusht this root key replica
    d ← get_elem? this.alldisks server
    rest ← place_from this root key n (replica + 1)
    some (copy d ∷ rest)

  -- `placeExtent`
  unfoldable pub place_extent : Rusht R → ℕ → ℕ → Option (List Disk)
  unfolding place_from
  place_extent this volume position =
      this.root >>= λ root. place_from this root position this.copies 0
