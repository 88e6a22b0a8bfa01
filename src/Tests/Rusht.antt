-- ===== src/Tests/Rusht.antt =====
-- RUSH_T on four disks in two clusters.
use data_distribution_simula.Base.{
  ℕ, zero, suc, refl, ap, subst, inl, inr, none, some, List, [], arith, length, some-injective, ◌+◌,
  ◌-◌, ◌*◌, ◌/◌, ◌%◌, ◌^◌, ◌<◌, ◌≡◌, ◌⊎◌, ◌∷◌, ◌∙◌, IsUnique,
}
use data_distribution_simula.Disk.{Disk}
use data_distribution_simula.Dictionary.{lookup, assign}
use data_distribution_simula.Tests.Doubles.{fixed}
use data_distribution_simula.Rushr.{find_clusters, fill_clusters, push_back, are_large}
use data_distribution_simula.Rushr.Clusters.{part}
use data_distribution_simula.Rushr.Setup.{HasRoom}
use data_distribution_simula.Rushr.Extent.{Picks}
use data_distribution_simula.Rusht.{
  Node, Rusht, Outside, sum_of, server_of, set_disks, place_extent, random_key, prime_index,
  weight_sum, average_weights, construct_tree, init_subtree_nodes, build_levels, next_level,
  server_counts, largest, lowest_prime_index,
}
use data_distribution_simula.Rusht.Tree.{IsGuided}
use data_distribution_simula.Rusht.Coprime.{IsPrime}
use data_distribution_simula.Rusht.Setup.{IsTable}
use data_distribution_simula.Rusht.Extent.{IsSpread, IsKey, place_extent-distinct}

abbrev disk : ℕ → ℕ → Disk
disk id capacity = record { id = id; capacity = capacity; payload = 0 }

abbrev disks : List Disk
disks = disk 1 100 ∷ disk 2 100 ∷ disk 3 200 ∷ disk 4 200 ∷ []

abbrev two_copies : Rusht ℕ
two_copies = record {
  copies = 2;
  lowest_prime_index = 0;
  cumulative_server_counts = [];
  clusters = [];
  root = none;
  weights = [];
  alldisks = [];
}

abbrev outside : Outside ℕ
outside = record { hash = λ key index level. 500_000; primes = 3 ∷ 5 ∷ [] }

residue3 : (c a b q u : ℕ) → a ≡ 3 * u + c → c < 3 → a * b ≡ 3 * q → (c ≡ 0) ⊎ (b % 3 ≡ 0)
residue3 zero a b q u e h product = inl refl
residue3 (suc zero) a b q u e h product = inr (omega (arith, ap (λ (t : ℕ). t * b) e))
residue3 (suc (suc zero)) a b q u e h product = inr (omega (arith, ap (λ (t : ℕ). t * b) e))
residue3 (suc (suc (suc c))) a b q u e h product = absurd (omega arith)

three-IsPrime : IsPrime 3
three-IsPrime a b (q, product) =
    elim (residue3 (a % 3) a b q (a / 3) (omega arith) (omega arith) product) [
      | inl e ↦ inl (a / 3, omega arith)
      | inr e ↦ inr (b / 3, omega arith)
    ]

residue5 : (c a b q u : ℕ) → a ≡ 5 * u + c → c < 5 → a * b ≡ 5 * q → (c ≡ 0) ⊎ (b % 5 ≡ 0)
residue5 zero a b q u e h product = inl refl
residue5 (suc zero) a b q u e h product = inr (omega (arith, ap (λ (t : ℕ). t * b) e))
residue5 (suc (suc zero)) a b q u e h product = inr (omega (arith, ap (λ (t : ℕ). t * b) e))
residue5 (suc (suc (suc zero))) a b q u e h product = inr (omega (arith, ap (λ (t : ℕ). t * b) e))
residue5 (suc (suc (suc (suc zero)))) a b q u e h product =
    inr (omega (arith, ap (λ (t : ℕ). t * b) e))
residue5 (suc (suc (suc (suc (suc c))))) a b q u e h product = absurd (omega arith)

five-IsPrime : IsPrime 5
five-IsPrime a b (q, product) =
    elim (residue5 (a % 5) a b q (a / 5) (omega arith) (omega arith) product) [
      | inl e ↦ inl (a / 5, omega arith)
      | inr e ↦ inr (b / 5, omega arith)
    ]

primes-IsTable : IsTable (3 ∷ 5 ∷ []) 4
primes-IsTable = record {
  ascending = omega arith;
  prime = (three-IsPrime, (five-IsPrime, tt));
  small = omega arith;
  greater = (1, 5, refl, omega arith);
}

outside-IsSpread : IsSpread fixed outside
unfolding prime_index
outside-IsSpread zero key i h = (omega arith, omega arith)
outside-IsSpread (suc zero) key i h = (omega arith, omega arith)
outside-IsSpread (suc (suc low)) key i h = absurd (omega arith)

outside-IsKey : IsKey fixed outside
unfolding random_key
outside-IsKey key i = omega arith

disks-HasRoom : HasRoom 2 disks
unfolding part
disks-HasRoom = omega arith

guided :
    (r : Rusht ℕ) (root : Node ℕ)
    → set_disks fixed (3 ∷ 5 ∷ []) two_copies disks ≡ some r
    → r.root ≡ some root
    → IsGuided fixed outside 17 root
unfolding set_disks find_clusters fill_clusters push_back are_large weight_sum average_weights
    construct_tree init_subtree_nodes build_levels next_level server_counts largest
    lowest_prime_index lookup assign
guided r root e f =
    subst (IsGuided fixed outside 17) (some-injective (ap (λ r. r.root) (some-injective e) ∙ f))
      (tt, tt)

place_extent-distinct_example :
    (r : Rusht ℕ) × (servers : List ℕ) × (placed : List Disk) × (set_disks fixed
        (3 ∷ 5 ∷ [])
        two_copies
        disks
      ≡ some r)
    × (place_extent fixed outside r 0 17 ≡ some placed)
    × (length servers ≡ 2)
    × IsUnique servers
    × Picks disks servers placed
place_extent-distinct_example =
    place_extent-distinct fixed outside two_copies disks 0 17 primes-IsTable outside-IsSpread
      outside-IsKey (omega arith) (omega arith) (omega arith) disks-HasRoom guided

-- A position just below the greatest one overflows, and a negative one has an index before the array.
sum_of-overflow : sum_of (2 ^ 63 - 1) 20_015 3 ≡ none
unfolding sum_of
sum_of-overflow = refl

server_of-before : server_of 0 (2 ^ 64 - 1) 2 ≡ none
unfolding server_of
server_of-before = refl
