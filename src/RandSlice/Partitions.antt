-- ===== src/RandSlice/Partitions.antt =====
-- The partitions and their sizes: the constructor, `setConfiguration`, `setDisks`,
-- `create_partitions` and `add_partitions` of dadisi/DistRandSlice.cpp.
--
-- The interval tree is vendored code: its type and its operations are a parameter.
pub mod Sizes
pub mod Balance
use data_distribution_simula.Base.{
  ℕ, zero, suc, ◌+◌, ◌-◌, ◌^◌, Bool, true, false, Option, none, some, List, [], ◌∷◌, ◌++◌, length,
  ltb, ◌==◌, if◌then◌else◌, map,
}
use data_distribution_simula.Dictionary.{lookup, assign}
use data_distribution_simula.Disk.{Disk, copy}
use data_distribution_simula.Double.{Double}
use data_distribution_simula.Word.{add64, sub64}
use data_distribution_simula.RandSlice.Reuse.{Insertion}
use data_distribution_simula.RandSlice.Redistribute.{redistribute}

-- `VSPACE_MAX`
abbrev pub vspace_max : ℕ
vspace_max = 2 ^ 64 - 1

pub record Tree (T : Type 0) : Type 0 where
  -- `flat_segment_tree(low, high, value)`
  pub create : ℕ → ℕ → ℕ → T
  pub insert_front : ℕ → ℕ → ℕ → T → T
  pub build_tree : T → T
  -- the leaves, in order, with the one that `end()` stands at
  pub leaves : T → List (ℕ × ℕ)

pub record RandSlice (T : Type 0) : Type 0 where
  pub extent_size : ℕ
  pub copies : ℕ
  pub disks : Option (List (ℕ × Disk))
  pub num_disks : ℕ
  pub partitions : List (ℕ × ℕ)
  pub num_partitions : ℕ
  pub interval_tree : Option T
  pub capacity : ℕ
  pub use_even_odd_collection : Bool
  pub use_sorted_assimilation : Bool

-- A thrown `logic_error`, and a read that the language leaves undefined.
pub data Outcome (A : Type 0) : Type 0 where
  done : A → Outcome A
  thrown : Outcome A
  faulted : Outcome A

-- The flags that the constructor reads; it throws at any other argument.
pub data Argument : Type 0 where
  even_odd : Argument
  sort_free : Argument
  other : Argument

unfoldable pub configured : {T : Type 0} → List Argument → RandSlice T → Outcome (RandSlice T)
configured [] s = done s
configured (even_odd ∷ args) s = configured args (record s { use_even_odd_collection = true })
configured (sort_free ∷ args) s = configured args (record s { use_sorted_assimilation = true })
configured (other ∷ args) s = thrown

-- The constructor.
unfoldable pub construct : {T : Type 0} → List Argument → Outcome (RandSlice T)
unfolding configured
construct args = configured args (record {
  extent_size = 0;
  copies = 0;
  disks = none;
  num_disks = 0;
  partitions = [];
  num_partitions = 0;
  interval_tree = none;
  capacity = 0;
  use_even_odd_collection = false;
  use_sorted_assimilation = false;
})

-- The loops that enter the disks into a table, and that add up their capacities.
unfoldable pub enter_disks : List Disk → List (ℕ × Disk) → List (ℕ × Disk)
unfolding assign
enter_disks [] table = table
enter_disks (d ∷ ds) table = enter_disks ds (assign d.id (copy d) table)

unfoldable pub add_capacities : List Disk → ℕ → ℕ
add_capacities [] sum = sum
add_capacities (d ∷ ds) sum = add_capacities ds (add64 sum d.capacity)

unfoldable pub is_last : List Disk → Bool
is_last [] = true
is_last (d ∷ ds) = false

-- What the loop over the old partitions of `add_partitions` leaves: the blocks to take from each,
-- the new sizes, and `num_blocks_to_remove`.
pub record Shrunk : Type 0 where
  pub old_partitions : List (ℕ × ℕ)
  pub sizes : List (ℕ × ℕ)
  pub to_remove : ℕ

module _ {R : Type 0} (dbl : Double R) where
  -- `p`, of a capacity that is signed and of one that is unsigned
  unfoldable pub proportion : ℕ → ℕ → R
  proportion capacity total =
      dbl.div (dbl.mul (dbl.of_signed capacity) (dbl.of_unsigned 1)) (dbl.of_unsigned total)

  unfoldable pub proportion_unsigned : ℕ → ℕ → R
  proportion_unsigned capacity total =
      dbl.div (dbl.mul (dbl.of_unsigned capacity) (dbl.of_unsigned 1)) (dbl.of_unsigned total)

  -- `(uint64_t)floor(p*VSPACE_MAX)`
  unfoldable pub share : R → ℕ
  share p = dbl.to_unsigned (dbl.floor (dbl.mul p (dbl.of_unsigned vspace_max)))

  -- `i1`: the end of the interval from `i0` on, which is that of the space for the last disk.
  unfoldable pub interval_end : ℕ → ℕ → Disk → Bool → ℕ
  unfolding proportion
  interval_end total i0 d last =
      let p = proportion d.capacity total in
      let i1 =
        dbl.to_unsigned
          (dbl.floor (dbl.add (dbl.of_unsigned i0) (dbl.mul p (dbl.of_unsigned vspace_max)))) in
      if last then vspace_max else if ltb vspace_max i1 then vspace_max else i1

  -- The loop of `create_partitions` over the disks: the sizes, and the intervals in the tree.
  unfoldable pub lay_out :
      {T : Type 0} → Tree T → ℕ → ℕ → List Disk → List (ℕ × ℕ) → T → List (ℕ × ℕ) × T
  unfolding interval_end is_last assign
  lay_out tree total i0 [] sizes t = (sizes, t)
  lay_out tree total i0 (d ∷ ds) sizes t =
      let i1 = interval_end total i0 d (is_last ds) in
      lay_out tree total i1 ds (assign d.id (sub64 i1 i0) sizes) (tree.insert_front i0 i1 d.id t)

  -- `create_partitions`
  unfoldable pub create_partitions :
      {T : Type 0} → Tree T → RandSlice T → List Disk → Outcome (RandSlice T)
  unfolding enter_disks add_capacities lay_out
  create_partitions tree s [] = faulted
  create_partitions tree s (d ∷ ds) =
      let capacity = add_capacities (d ∷ ds) s.capacity in
      let laid = lay_out tree capacity 0 (d ∷ ds) [] (tree.create 0 vspace_max d.id) in
      done (record s {
        disks = some (enter_disks (d ∷ ds) []);
        capacity = capacity;
        num_disks = length (d ∷ ds);
        partitions = laid.0;
        num_partitions = length laid.0;
        interval_tree = some (tree.build_tree laid.1);
      })

  -- The loop over the old partitions. The table of sizes is written at the keys that are visited.
  unfoldable pub shrink : ℕ → List (ℕ × Disk) → List (ℕ × ℕ) → Shrunk → Option Shrunk
  unfolding lookup assign proportion_unsigned share
  shrink new_capacity disks [] acc = some acc
  shrink new_capacity disks ((part_id, old_size) ∷ ps) acc = elim (lookup part_id disks) [
    | none ↦ none
    | some d ↦
        let new_size = share (proportion_unsigned d.capacity new_capacity) in
        shrink new_capacity disks ps (record {
          old_partitions = assign part_id (sub64 old_size new_size) acc.old_partitions;
          sizes = assign part_id new_size acc.sizes;
          to_remove = add64 acc.to_remove (sub64 old_size new_size);
        })
  ]

  -- The loop over the new disks: `new_partitions`, and `num_blocks_to_add`.
  unfoldable pub grow : ℕ → List Disk → List (ℕ × ℕ) → ℕ → List (ℕ × ℕ) × ℕ
  unfolding proportion share
  grow new_capacity [] new_partitions to_add = (new_partitions, to_add)
  grow new_capacity (d ∷ ds) new_partitions to_add =
      let size = share (proportion d.capacity new_capacity) in
      grow new_capacity ds (new_partitions ++ ((d.id, size) ∷ [])) (add64 to_add size)

-- `new_partitions.back().second += r`
unfoldable pub add_to_last : ℕ → List (ℕ × ℕ) → Option (List (ℕ × ℕ))
add_to_last r [] = none
add_to_last r (e ∷ []) = some ((e.0, add64 e.1 r) ∷ [])
add_to_last r (e ∷ f ∷ es) = elim (add_to_last r (f ∷ es)) [ none ↦ none | some l ↦ some (e ∷ l) ]

-- The difference goes to the last of the new partitions.
unfoldable pub balance : ℕ → ℕ → List (ℕ × ℕ) → Option (List (ℕ × ℕ))
unfolding add_to_last
balance to_remove to_add new_partitions =
    if to_remove == to_add
    then some new_partitions
    else add_to_last (sub64 to_remove to_add) new_partitions

-- `(*m_partitions)[part_id] = part_size`, for each of the new partitions
unfoldable pub enter_sizes : List (ℕ × ℕ) → List (ℕ × ℕ) → List (ℕ × ℕ)
unfolding assign
enter_sizes [] sizes = sizes
enter_sizes (p ∷ ps) sizes = enter_sizes ps (assign p.0 p.1 sizes)

-- The calls of `insert_front` in their order.
unfoldable pub insert_all : {T : Type 0} → Tree T → List Insertion → T → T
insert_all tree [] t = t
insert_all tree ((pid, (low, high)) ∷ cs) t = insert_all tree cs (tree.insert_front low high pid t)

-- What `add_partitions` does once the sizes are known: `redistribute`, and the members.
unfoldable pub move_blocks :
    {T : Type 0}
    → Tree T
    → RandSlice T
    → List Disk
    → T
    → List (ℕ × Disk)
    → ℕ
    → Shrunk
    → List (ℕ × ℕ)
    → Outcome (RandSlice T)
unfolding redistribute insert_all enter_disks enter_sizes
move_blocks tree s new_disks t disks new_capacity shrunk new_partitions =
    elim (redistribute s.use_even_odd_collection s.use_sorted_assimilation (tree.leaves t)
      shrunk.old_partitions new_partitions) [
        | none ↦ faulted
        | some r ↦ done (record s {
          disks = some (enter_disks new_disks disks);
          num_disks = add64 s.num_disks (length new_disks);
          partitions = enter_sizes new_partitions shrunk.sizes;
          num_partitions = add64 s.num_partitions (length new_partitions);
          interval_tree = some (tree.build_tree (insert_all tree r.1 t));
          capacity = new_capacity;
        })
      ]

module _ {R : Type 0} (dbl : Double R) where
  -- The old partitions shrunk, and the new ones with their sizes balanced.
  unfoldable pub resized :
      List (ℕ × ℕ) → List (ℕ × Disk) → List Disk → ℕ → Option (Shrunk × List (ℕ × ℕ))
  unfolding shrink grow balance
  resized sizes disks new_disks new_capacity =
      elim (shrink dbl new_capacity disks sizes
        (record { old_partitions = []; sizes = sizes; to_remove = 0 })) [
          | none ↦ none
          | some shrunk ↦
              let grown = grow dbl new_capacity new_disks [] 0 in
              elim (balance shrunk.to_remove grown.1 grown.0) [
                | none ↦ none
                | some new_partitions ↦ some (shrunk, new_partitions)
              ]
        ]

  -- `add_partitions`, where there are disks and a tree.
  unfoldable pub add_partitions :
      {T : Type 0} → Tree T → RandSlice T → List (ℕ × Disk) → T → List Disk → Outcome (RandSlice T)
  unfolding resized move_blocks add_capacities
  add_partitions tree s disks t new_disks =
      let new_capacity = add64 s.capacity (add_capacities new_disks 0) in
      elim (resized s.partitions disks new_disks new_capacity) [
        | none ↦ faulted
        | some sizes ↦ move_blocks tree s new_disks t disks new_capacity sizes.0 sizes.1
      ]

  -- `setDisks`
  unfoldable pub set_disks : {T : Type 0} → Tree T → RandSlice T → List Disk → Outcome (RandSlice T)
  unfolding create_partitions add_partitions
  set_disks tree s ds = elim s.disks [
    | none ↦ create_partitions dbl tree s ds
    | some disks ↦ elim s.interval_tree [
      | none ↦ faulted
      | some t ↦ add_partitions tree s disks t ds
    ]
  ]

  -- `setConfiguration`
  unfoldable pub set_configuration :
      {T : Type 0} → Tree T → RandSlice T → List Disk → ℕ → ℕ → Outcome (RandSlice T)
  unfolding set_disks
  set_configuration tree s ds extent_size copies =
      if extent_size == 1
      then set_disks tree (record s { extent_size = extent_size; copies = copies }) ds
      else thrown

-- `getDisks`, where there are disks
unfoldable pub get_disks : List (ℕ × Disk) → List Disk
get_disks disks = map (λ e. copy e.1) disks

-- `getNumIntervals`: the leaves in front of `end()`
unfoldable pub get_num_intervals : {T : Type 0} → Tree T → T → ℕ
get_num_intervals tree t = length (tree.leaves t) - 1
