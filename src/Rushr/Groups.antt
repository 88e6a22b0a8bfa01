-- ===== src/Rushr/Groups.antt =====
-- The groups of clusters that `setDisks` of dadisi/DistRUSHr.cpp makes count the servers.
use data_distribution_simula.Base.{
  ℕ, zero, suc, refl, ap, Option, none, some, List, [], arith, length, get_elem?, All, ◌+◌, ◌≤◌,
  ◌<◌, ◌≡◌, ◌∷◌, ◌∙◌, ◌-◌, subst,
}
use data_distribution_simula.Disk.{Disk}
use data_distribution_simula.Double.{Double}
use data_distribution_simula.Rushr.{Group, make_groups}
use data_distribution_simula.Rushr.Fill.{before}
use data_distribution_simula.Rushr.Placement.{IsGrouped}

before-le_suc : (cs : List (List Disk)) (c : ℕ) → before cs c ≤ before cs (suc c)
unfolding before
before-le_suc [] zero = omega arith
before-le_suc [] (suc c) = omega arith
before-le_suc (x ∷ cs) zero = omega arith
before-le_suc (x ∷ cs) (suc c) = omega (arith, before-le_suc cs c)

before-le : (cs : List (List Disk)) (c k : ℕ) → before cs c ≤ before cs (c + k)
before-le cs c zero = let e : c + 0 ≡ c = omega arith in rw e (omega arith)
before-le cs c (suc k) =
    let e : c + suc k ≡ suc (c + k) = omega arith in
    rw e (omega (arith, before-le cs c k, before-le_suc cs (c + k)))

module _ {R : Type 0} (dbl : Double R) where
  -- The servers before the first group that `make_groups` makes.
  unfoldable pub start : Option (Group R) → ℕ
  start none = 0
  start (some g) = g.cumulative_servers

  start_next :
      (n : ℕ) (previous : Option (Group R))
      → (elim previous as (λ p. ℕ) [ none ↦ n | some p ↦ n + p.cumulative_servers ])
        ≡ n + start previous
  unfolding start
  start_next n none = omega arith
  start_next n (some p) = refl

  pub length-make_groups :
      (average : R) (cs : List (List Disk)) (ws : List R) (previous : Option (Group R))
      → length ws ≡ length cs
      → length (make_groups dbl average cs ws previous) ≡ length cs
  unfolding make_groups
  length-make_groups average [] ws previous e = refl
  length-make_groups average (c ∷ cs) [] previous e = absurd (omega arith)
  length-make_groups average (c ∷ cs) (w ∷ ws) previous e =
      ap suc (length-make_groups average cs ws (some _) (omega arith))

  -- Group `c` counts its own servers and those of the groups before.
  pub make_groups-at :
      (copies : ℕ) (average : R) (cs : List (List Disk)) (ws : List R) (previous : Option (Group R))
      → length ws ≡ length cs
      → All (λ c. copies ≤ length c) cs
      → (c : ℕ) → c < length cs
      → (g : Group R) × (get_elem? (make_groups dbl average cs ws previous) c ≡ some g)
        × (g.cumulative_servers ≡ before cs (suc c) + start previous)
        × (before cs (suc c) ≡ g.servers + before cs c)
        × (copies ≤ g.servers)
  unfolding make_groups before start
  make_groups-at copies average [] ws previous e large c h = absurd (omega arith)
  make_groups-at copies average (x ∷ cs) [] previous e large c h = absurd (omega arith)
  make_groups-at copies average (x ∷ cs) (w ∷ ws) previous e (here, large) zero h =
      (_, refl, start_next (length x) previous ∙ omega arith, omega arith, here)
  make_groups-at copies average (x ∷ cs) (w ∷ ws) previous e (here, large) (suc c) h =
      let (g, found, total, sum, room) =
        make_groups-at copies average cs ws (some _) (omega arith) large c (omega arith) in
      (g, found, omega (arith, total, start_next (length x) previous), omega (arith, sum), room)

before-le_length :
    (cs : List (List Disk)) (c : ℕ) → c ≤ length cs → before cs c ≤ before cs (length cs)
before-le_length cs c h =
    subst (λ n. before cs c ≤ before cs n) (omega arith) (before-le cs c (length cs - c))

module _ {R : Type 0} (dbl : Double R) where
  pub make_groups-IsGrouped :
      (average : R) (clusters : List (List Disk)) (weights : List R) (copies size : ℕ)
      → length weights ≡ length clusters
      → before clusters (length clusters) ≡ size
      → All (λ c. copies ≤ length c) clusters
      → IsGrouped (make_groups dbl average clusters weights none) copies size (before clusters)
  unfolding before start
  make_groups-IsGrouped average clusters weights copies size sizes whole large = record {
    first = refl;
    group_at = λ c h.
        let inside : c < length clusters =
          omega (arith, length-make_groups dbl average clusters weights none sizes) in
        let (g, found, total, sum, room) =
          make_groups-at dbl copies average clusters weights none sizes large c inside in
        (
          g,
          found,
          omega (arith, total),
          sum,
          room,
          omega (arith, whole, before-le_length clusters (suc c) inside),
        );
  }
