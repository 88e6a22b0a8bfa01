-- ===== src/Tests/Rushr.antt =====
-- RUSH_R on five disks.
use data_distribution_simula.Base.{
  ℕ, some, List, [], arith, length, ◌≡◌, ◌∷◌, IsUnique, none, map, All, Has, ◌⊎◌,
}
use data_distribution_simula.Disk.{Disk}
use data_distribution_simula.Tests.Doubles.{fixed, fixed-IsRandom}
use data_distribution_simula.Rushr.{Rushr, set_disks, place_extent, key}
use data_distribution_simula.Rushr.Random.{Generator, seed, jumpahead, steps}
use data_distribution_simula.Rushr.Jump.{jumpahead-steps}
use data_distribution_simula.Rushr.Draw.{init_choices, draw_k_of_n}
use data_distribution_simula.Rushr.Draw.Distinct.{IsDraw, draw_k_of_n-IsDraw}
use data_distribution_simula.Rushr.Clusters.{part}
use data_distribution_simula.Rushr.Setup.{HasRoom}
use data_distribution_simula.Rushr.Parts.{set_disks-part}
use data_distribution_simula.Rushr.Extent.{Picks, place_extent-Picks}

abbrev disk : ℕ → ℕ → Disk
disk id capacity = record { id = id; capacity = capacity; payload = 0 }

abbrev disks : List Disk
disks = disk 1 100 ∷ disk 2 100 ∷ disk 3 200 ∷ disk 4 200 ∷ disk 5 200 ∷ []

abbrev two_copies : Rushr ℕ
two_copies = record { copies = 2; j = 0; clusters = []; groups = []; weights = []; alldisks = [] }

disks-HasRoom : HasRoom 2 disks
unfolding part
disks-HasRoom = omega arith

place_extent-Picks_example :
    (r : Rushr ℕ) × (choices : List ℕ) × (servers : List ℕ) × (placed : List Disk) × (set_disks
        fixed two_copies disks
      ≡ some (r, choices))
    × (place_extent fixed r 0 17 choices ≡ some (placed, choices))
    × (length servers ≡ 2)
    × IsUnique servers
    × Picks disks servers placed
place_extent-Picks_example =
    place_extent-Picks fixed two_copies disks 0 17 fixed-IsRandom (omega arith) (omega arith)
      disks-HasRoom

draw_k_of_n-IsDraw_example :
    (results : List ℕ) × (h : Generator) × (draw_k_of_n fixed 2 3 (init_choices 5) (seed 17)
      ≡ some (results, init_choices 5, h))
    × IsDraw 2 3 results
draw_k_of_n-IsDraw_example =
    draw_k_of_n-IsDraw fixed fixed-IsRandom 2 3 5 (seed 17) (omega arith) (omega arith)
      (omega arith)

abbrev some_generator : Generator
some_generator = record { x = 18; y = 1; z = 1 }

jumpahead-steps_example : jumpahead 14 some_generator ≡ some (steps 14 some_generator)
jumpahead-steps_example = jumpahead-steps 14 some_generator (omega arith, omega arith, omega arith)

set_disks-part_example :
    (ks : List ℕ) × IsUnique ks
    × All (λ d. Has (key d) ks) disks
    × ((HasRoom 2 disks
          × (r : Rushr ℕ) × (set_disks fixed two_copies disks ≡ some (r, init_choices 5))
          × (r.clusters ≡ map (λ k. part k disks) ks)
          × (r.alldisks ≡ disks))
        ⊎ ((¬ HasRoom 2 disks) × (set_disks fixed two_copies disks ≡ none)))
set_disks-part_example = set_disks-part fixed two_copies disks (omega arith)
