-- ===== src/Rushr.antt =====
-- RUSH_R placement: the class `DistRUSHr` of dadisi/DistRUSHr.cpp.
--
-- Disks of equal capacity form a cluster, and the clusters give out servers from the last to the
-- first. The maps `clusters` and `groups`, whose keys are 0, 1, 2, ..., are lists; a count of disks
-- is its value. The static array `n_choices`, which all objects share, is passed along. What a
-- placement writes through the pointer `servers` is a list that grows. `exit`, a thrown exception,
-- and an access outside an array or through a null pointer are `none`.
pub mod Random
pub mod Jump
pub mod Draw
pub mod Placement
pub mod Clusters
pub mod Fill
pub mod Groups
pub mod Setup
pub mod Parts
pub mod Extent
use data_distribution_simula.Base.{
  ℕ, zero, suc, Bool, true, false, Option, none, some, List, [], ltb, length, ◌+◌, ◌%◌, ◌^◌, ◌∷◌,
  ◌++◌, ◌>>=◌, if◌then◌else◌, map, get_elem?, get_or, ◌-◌, ◌*◌,
}
use data_distribution_simula.Dictionary.{lookup, assign}
use data_distribution_simula.Disk.{Disk, copy}
use data_distribution_simula.Double.{Double}
use data_distribution_simula.Rushr.Random.{Generator, seed, jumpahead}
use data_distribution_simula.Rushr.Draw.{init_choices, draw_k_of_n, i_sample}

-- `RUSHrGroup`
pub record Group (R : Type 0) : Type 0 where
  pub servers : ℕ
  pub cumulative_servers : ℕ
  pub weight : R
  pub weighted_servers : R
  pub weighted_cumulative_servers : R

pub record Rushr (R : Type 0) : Type 0 where
  pub copies : ℕ
  pub j : ℕ
  pub clusters : List (List Disk)
  pub groups : List (Group R)
  pub weights : List R
  pub alldisks : List Disk

-- `cluster_index`, whose keys are `int`, with the clusters and weights found so far.
pub record Found (R : Type 0) : Type 0 where
  pub cluster_index : List (ℕ × ℕ)
  pub index : ℕ
  pub clusters : List (List Disk)
  pub weights : List R

-- A capacity as a key of `cluster_index`.
abbrev pub key : Disk → ℕ
key d = d.capacity % 2 ^ 32

module _ {R : Type 0} (dbl : Double R) where
  -- The body of the `if` in the loop below.
  abbrev pub new_cluster : Disk → Found R → Found R
  new_cluster d found = record {
    cluster_index = assign (key d) found.index found.cluster_index;
    index = found.index + 1;
    clusters = found.clusters ++ ([] ∷ []);
    weights = found.weights ++ (dbl.of_signed d.capacity ∷ []);
  }

  -- The loop of `setDisks` that finds the clusters.
  unfoldable pub find_clusters : List Disk → Found R → Found R
  unfolding lookup
  find_clusters [] found = found
  find_clusters (d ∷ ds) found =
      find_clusters ds
        (elim (lookup (key d) found.cluster_index) [ some i ↦ found | none ↦ new_cluster d found ])

-- `clusters[i]->push_back(d)`
unfoldable pub push_back : ℕ → Disk → List (List Disk) → Option (List (List Disk))
push_back i d [] = none
push_back zero d (c ∷ cs) = some ((c ++ (d ∷ [])) ∷ cs)
push_back (suc i) d (c ∷ cs) = push_back i d cs >>= λ rest. some (c ∷ rest)

-- The loop that puts the disks into their clusters.
unfoldable pub fill_clusters :
    List (ℕ × ℕ) → List Disk → List (List Disk) → Option (List (List Disk))
unfolding lookup push_back
fill_clusters cluster_index [] clusters = some clusters
fill_clusters cluster_index (d ∷ ds) clusters = do
  i ← lookup (key d) cluster_index
  more ← push_back i d clusters
  fill_clusters cluster_index ds more

-- The loop that compares the clusters with the copies.
unfoldable pub are_large : ℕ → List (List Disk) → Bool
are_large copies [] = true
are_large copies (c ∷ cs) = if ltb (length c) copies then false else are_large copies cs

module _ {R : Type 0} (dbl : Double R) where
  -- The sums over the clusters: `number_of_servers` and `total_weight`.
  unfoldable pub total_servers : List (List Disk) → ℕ → ℕ
  total_servers [] sum = sum
  total_servers (c ∷ cs) sum = total_servers cs (sum + length c)

  unfoldable pub total_weight : List (List Disk) → List R → R → R
  total_weight [] ws sum = sum
  total_weight (c ∷ cs) [] sum = sum
  total_weight (c ∷ cs) (w ∷ ws) sum =
      total_weight cs ws (dbl.add sum (dbl.mul (dbl.of_unsigned (length c)) w))

  -- The loop that fills the groups, after the group before, if there is one.
  unfoldable pub make_groups : R → List (List Disk) → List R → Option (Group R) → List (Group R)
  make_groups average [] ws previous = []
  make_groups average (c ∷ cs) [] previous = []
  make_groups average (c ∷ cs) (w ∷ ws) previous =
      let weight = dbl.div w average in
      let own = dbl.mul weight (dbl.of_signed (length c)) in
      let group : Group R = record {
        servers = length c;
        cumulative_servers = elim previous [
          | none ↦ length c
          | some p ↦ length c + p.cumulative_servers
        ];
        weight = weight;
        weighted_servers = own;
        weighted_cumulative_servers = elim previous [
          | none ↦ own
          | some p ↦ dbl.add own p.weighted_cumulative_servers
        ];
      } in
      group ∷ make_groups average cs ws (some group)

  -- The rest of `setDisks`, where the clusters are large enough.
  unfoldable pub init_groups :
      Rushr R → List Disk → List (List Disk) → List R → Option (Rushr R × List ℕ)
  unfolding total_servers total_weight make_groups
  init_groups this disks clusters weights =
      let average =
        dbl.div (total_weight clusters weights (dbl.of_signed 0))
          (dbl.of_signed (total_servers clusters 0)) in
      let groups = make_groups average clusters weights none in
      get_elem? groups (length groups - 1) >>= λ last. some (
        record {
          copies = this.copies;
          j = length clusters;
          clusters = clusters;
          groups = groups;
          weights = weights;
          alldisks = map copy disks;
        },
        init_choices last.cumulative_servers,
      )

  -- `setDisks`: the object and `n_choices`.
  unfoldable pub set_disks : Rushr R → List Disk → Option (Rushr R × List ℕ)
  unfolding find_clusters fill_clusters are_large init_groups
  set_disks this disks =
      let found =
        find_clusters dbl disks
          (record { cluster_index = []; index = 0; clusters = []; weights = [] }) in
      fill_clusters found.cluster_index disks found.clusters >>= λ clusters.
      if are_large this.copies clusters then init_groups this disks clusters found.weights else none

  -- `setConfiguration`
  unfoldable pub set_configuration : Rushr R → List Disk → ℕ → ℕ → Option (Rushr R × List ℕ)
  unfolding set_disks
  set_configuration this disks extentsize copies = set_disks (record this { copies = copies }) disks

-- `servers_in_previous_clusters`
unfoldable pub previous_servers : {R : Type 0} → List (Group R) → ℕ → Option ℕ
previous_servers groups zero = some 0
previous_servers groups (suc before) =
    get_elem? groups before >>= λ group. some group.cumulative_servers

-- `mandatory_number_to_assign`
unfoldable pub mandatory : ℕ → ℕ → ℕ
mandatory previous remaining = if ltb previous remaining then remaining - previous else 0

module _ {R : Type 0} (dbl : Double R) where
  -- The call of `draw_k_of_n`, and the loop that shifts the servers.
  unfoldable pub draw_servers : ℕ → ℕ → ℕ → Generator → List ℕ → Option (List ℕ × List ℕ)
  unfolding draw_k_of_n
  draw_servers number servers previous generator n_choices =
      if ltb 0 number
      then (draw_k_of_n dbl number servers n_choices generator
          >>= λ (results, n_choices, generator). some (map (λ s. s + previous) results, n_choices))
      else some ([], n_choices)

  -- `number_assigned` of one round of `RUSHr`, and the generator after its draws.
  unfoldable pub number_assigned : Group R → ℕ → ℕ → Generator → ℕ × Generator
  unfolding i_sample
  number_assigned group must remaining generator =
      let (sampled, generator) =
        i_sample dbl (remaining - must) (dbl.sub group.weighted_servers (dbl.of_signed must))
          (dbl.sub group.weighted_cumulative_servers (dbl.of_signed must)) group.weight generator in
      (must + sampled, generator)

  -- One round of `RUSHr`, in cluster `cluster` with `remaining` replicas: the servers that it
  -- assigns, and `n_choices`.
  unfoldable pub assign_servers : List (Group R) → ℕ → ℕ → ℕ → List ℕ → Option (List ℕ × List ℕ)
  unfolding jumpahead previous_servers mandatory number_assigned draw_servers
  assign_servers groups key cluster remaining n_choices = do
    generator ← jumpahead ((cluster + 2) * 7) (seed key)
    previous ← previous_servers groups cluster
    group ← get_elem? groups cluster
    let (number, generator) =
        number_assigned group (mandatory previous remaining) remaining generator
    draw_servers number group.servers previous generator n_choices

  -- The loop of `RUSHr` over the clusters below `left`.
  unfoldable pub rush_loop : List (Group R) → ℕ → ℕ → ℕ → List ℕ → List ℕ → Option (List ℕ × List ℕ)
  unfolding assign_servers
  rush_loop groups key zero remaining servers n_choices = some (servers, n_choices)
  rush_loop groups key (suc cluster) zero servers n_choices = some (servers, n_choices)
  rush_loop groups key (suc cluster) (suc more) servers n_choices =
      assign_servers groups key cluster (suc more) n_choices >>= λ (assigned, n_choices).
      rush_loop groups key cluster (suc more - length assigned) (servers ++ assigned) n_choices

  -- `RUSHr`
  unfoldable pub rushr : Rushr R → ℕ → ℕ → List ℕ → Option (List ℕ × List ℕ)
  unfolding rush_loop
  rushr this key number_of_replicas n_choices =
      rush_loop this.groups key (length this.groups) number_of_replicas [] n_choices

-- The loop of `placeExtent`, with `n` rounds left, from copy `i` on. Where no server was written
-- stands the zero of `memset`.
unfoldable pub collect : List Disk → List ℕ → ℕ → ℕ → Option (List Disk)
collect alldisks servers zero i = some []
collect alldisks servers (suc n) i = do
  d ← get_elem? alldisks (get_or servers i 0)
  rest ← collect alldisks servers n (i + 1)
  some (copy d ∷ rest)

module _ {R : Type 0} (dbl : Double R) where
  -- `placeExtent`
  unfoldable pub place_extent : Rushr R → ℕ → ℕ → List ℕ → Option (List Disk × List ℕ)
  unfolding rushr collect
  place_extent this volume position n_choices = do
    (servers, n_choices) ← rushr dbl this position this.copies n_choices
    disks ← collect this.alldisks servers this.copies 0
    some (disks, n_choices)
