-- ===== src/Tests/Partitions.antt =====
-- The sizes of partitions of three disks.
use data_distribution_simula.Base.{
  ℕ, false, none, List, [], ◌%◌, ◌^◌, ◌≡◌, ◌∷◌, IsUnique, some, arith,
}
use data_distribution_simula.Dictionary.{keys}
use data_distribution_simula.Disk.{Disk}
use data_distribution_simula.Tests.Doubles.{fixed, fixed-IsUnsigned}
use data_distribution_simula.RandSlice.Partitions.{
  Tree, RandSlice, done, Shrunk, vspace_max, create_partitions, resized,
}
use data_distribution_simula.RandSlice.Partitions.Sizes.{ids, create_partitions-total}
use data_distribution_simula.RandSlice.Collect.Laws.{total}
use data_distribution_simula.RandSlice.Partitions.Balance.{IsBalanced, resized-IsBalanced}

abbrev disk : ℕ → ℕ → Disk
disk id capacity = record { id = id; capacity = capacity; payload = 0 }

abbrev three : List Disk
three = disk 1 10 ∷ disk 2 20 ∷ disk 3 30 ∷ []

-- An interval tree as the list of the intervals that were inserted.
abbrev tree : Tree (List (ℕ × ℕ))
tree = record {
  create = λ low high value. (low, value) ∷ (high, value) ∷ [];
  insert_front = λ low high value t. (low, value) ∷ t;
  build_tree = λ t. t;
  leaves = λ t. t;
}

abbrev empty : RandSlice (List (ℕ × ℕ))
empty = record {
  extent_size = 1;
  copies = 2;
  disks = none;
  num_disks = 0;
  partitions = [];
  num_partitions = 0;
  interval_tree = none;
  capacity = 0;
  use_even_odd_collection = false;
  use_sorted_assimilation = false;
}

ids-IsUnique : IsUnique (ids three)
ids-IsUnique = omega arith

create_partitions-total_example :
    (s : RandSlice (List (ℕ × ℕ))) × (create_partitions fixed tree empty three ≡ done s)
    × (keys s.partitions ≡ ids three)
    × (total s.partitions % 2 ^ 64 ≡ vspace_max)
create_partitions-total_example =
    create_partitions-total fixed tree empty (disk 1 10) (disk 2 20 ∷ disk 3 30 ∷ [])
      fixed-IsUnsigned ids-IsUnique

abbrev sizes : List (ℕ × ℕ)
sizes = (7, 1000) ∷ (8, 2000) ∷ []

abbrev old_disks : List (ℕ × Disk)
old_disks = (7, disk 7 10) ∷ (8, disk 8 20) ∷ []

resized-IsBalanced_example :
    (shrunk : Shrunk) × (new_partitions : List (ℕ × ℕ)) × (resized fixed sizes old_disks three 90
      ≡ some (shrunk, new_partitions))
    × IsBalanced sizes three shrunk new_partitions
resized-IsBalanced_example =
    resized-IsBalanced fixed sizes old_disks (disk 1 10) (disk 2 20 ∷ disk 3 30 ∷ []) 90
      fixed-IsUnsigned (omega arith) (omega arith) (λ k h. h) ids-IsUnique (omega arith)
