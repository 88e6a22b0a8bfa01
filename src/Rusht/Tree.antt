-- ===== src/Rusht/Tree.antt =====
-- The tree of clusters of dadisi/DistRUSHt.cpp: it is built, and every key finds a cluster in it.
use data_distribution_simula.Base.{
  ℕ, zero, suc, refl, ap, subst, inl, inr, true, some, List, [], arith, Bool-cases, length,
  get_elem?, All, ◌+◌, ◌*◌, ◌≤◌, ◌<◌, ◌≡◌, ◌∷◌,
}
use data_distribution_simula.Disk.{Disk}
use data_distribution_simula.Double.{Double}
use data_distribution_simula.Rusht.{
  Node, sub_cluster, inner, single, init_subtree_nodes, next_level, build_levels, construct_tree,
  Outside, get_subcluster,
}

-- Every cluster of a tree satisfies `P`, of its size and its index.
abbrev pub AllLeaves : {R : Type 0} → (ℕ → ℕ → Type 0) → Node R → Type 0
AllLeaves P (sub_cluster n index w) = P n index
AllLeaves P (inner left right index w normalized) = AllLeaves P left × AllLeaves P right
AllLeaves P (single left index w normalized) = AllLeaves P left

-- A key is led to the left where there is no right child.
abbrev pub IsGuided : {R : Type 0} → Double R → Outside R → ℕ → Node R → Type 0
IsGuided dbl outside key (sub_cluster n index w) = Unit
IsGuided dbl outside key (inner left right index w normalized) =
    IsGuided dbl outside key left × IsGuided dbl outside key right
IsGuided dbl outside key (single left index w normalized) =
    IsGuided dbl outside key left × (dbl.lt (outside.hash key index 0) normalized ≡ true)

module _ {R : Type 0} (dbl : Double R) (outside : Outside R) (P : ℕ → ℕ → Type 0) where
  pub get_subcluster-AllLeaves :
      (root : Node R) (key : ℕ)
      → AllLeaves P root
      → IsGuided dbl outside key root
      → (n : ℕ) × (index : ℕ) × (get_subcluster dbl outside root key ≡ some (n, index)) × P n index
  unfolding get_subcluster
  get_subcluster-AllLeaves (sub_cluster n index w) key leaf guided = (n, index, refl, leaf)
  get_subcluster-AllLeaves (inner left right index w normalized) key (l, r) (gl, gr) =
      elim (Bool-cases (dbl.lt (outside.hash key index 0) normalized)) [
        | inl e ↦
            let (n, i, found, p) = get_subcluster-AllLeaves left key l gl in
            (n, i, rw (e, found) refl, p)
        | inr e ↦
            let (n, i, found, p) = get_subcluster-AllLeaves right key r gr in
            (n, i, rw (e, found) refl, p)
      ]
  get_subcluster-AllLeaves (single left index w normalized) key l (gl, to_left) =
      let (n, i, found, p) = get_subcluster-AllLeaves left key l gl in
      (n, i, rw (to_left, found) refl, p)

module _ {R : Type 0} (dbl : Double R) (P : ℕ → ℕ → Type 0) where
  next_level-AllLeaves :
      (nodes : List (Node R)) (index : ℕ)
      → All (AllLeaves P) nodes
      → All (AllLeaves P) (next_level dbl nodes index).0
        × (2 * length (next_level dbl nodes index).0 ≤ suc (length nodes))
        × (length nodes ≤ 2 * length (next_level dbl nodes index).0)
  unfolding next_level
  next_level-AllLeaves [] index h = (tt, omega arith, omega arith)
  next_level-AllLeaves (n ∷ []) index (here, h) = ((here, tt), omega arith, omega arith)
  next_level-AllLeaves (n ∷ m ∷ nodes) index (here, (next, h)) =
      let (rest, small, large) = next_level-AllLeaves nodes (index + 1) h in
      (((here, next), rest), omega (arith, small), omega (arith, large))

  build_levels-AllLeaves :
      (fuel : ℕ) (nodes : List (Node R)) (index : ℕ)
      → 0 < length nodes
      → length nodes ≤ suc fuel
      → All (AllLeaves P) nodes
      → (root : Node R) × (build_levels dbl fuel nodes index ≡ some root) × AllLeaves P root
  unfolding build_levels
  build_levels-AllLeaves fuel [] index nonempty enough h = absurd (omega arith)
  build_levels-AllLeaves fuel (n ∷ []) index nonempty enough (here, h) = (n, refl, here)
  build_levels-AllLeaves zero (n ∷ m ∷ nodes) index nonempty enough h = absurd (omega arith)
  build_levels-AllLeaves (suc fuel) (n ∷ m ∷ nodes) index nonempty enough h =
      let (all, small, large) = next_level-AllLeaves (n ∷ m ∷ nodes) index h in
      let level = next_level dbl (n ∷ m ∷ nodes) index in
      build_levels-AllLeaves fuel level.0 level.1 (omega (arith, large)) (omega (arith, small)) all

  length-init_subtree_nodes :
      (cs : List (List Disk)) (ws : List R) (index : ℕ)
      → length ws ≡ length cs
      → length (init_subtree_nodes dbl cs ws index) ≡ length cs
  unfolding init_subtree_nodes
  length-init_subtree_nodes [] ws index e = refl
  length-init_subtree_nodes (c ∷ cs) [] index e = absurd (omega arith)
  length-init_subtree_nodes (c ∷ cs) (w ∷ ws) index e =
      ap suc (length-init_subtree_nodes cs ws (index + 1) (omega arith))

  init_subtree_nodes-AllLeaves :
      (cs : List (List Disk)) (ws : List R) (index : ℕ)
      → length ws ≡ length cs
      → ((i : ℕ) (c : List Disk) → get_elem? cs i ≡ some c → P (length c) (index + i))
      → All (AllLeaves P) (init_subtree_nodes dbl cs ws index)
  unfolding init_subtree_nodes
  init_subtree_nodes-AllLeaves [] ws index e h = tt
  init_subtree_nodes-AllLeaves (c ∷ cs) [] index e h = absurd (omega arith)
  init_subtree_nodes-AllLeaves (c ∷ cs) (w ∷ ws) index e h = (
    subst (P (length c)) (omega arith) (h 0 c refl),
    init_subtree_nodes-AllLeaves cs ws (index + 1) (omega arith)
        (λ i d found. subst (P (length d)) (omega arith) (h (suc i) d found)),
  )

  -- The tree over some clusters is built, and its leaves are the clusters.
  pub construct_tree-AllLeaves :
      (cs : List (List Disk)) (ws : List R)
      → length ws ≡ length cs
      → 0 < length cs
      → ((i : ℕ) (c : List Disk) → get_elem? cs i ≡ some c → P (length c) i)
      → (root : Node R) × (construct_tree dbl cs ws ≡ some root) × AllLeaves P root
  unfolding construct_tree
  construct_tree-AllLeaves cs ws e nonempty h =
      let count = length-init_subtree_nodes cs ws 0 e in
      build_levels-AllLeaves (length cs) (init_subtree_nodes dbl cs ws 0) (length cs)
        (omega (arith, count)) (omega (arith, count))
        (init_subtree_nodes-AllLeaves cs ws 0 e
          (λ i c found. subst (P (length c)) (omega arith) (h i c found)))
