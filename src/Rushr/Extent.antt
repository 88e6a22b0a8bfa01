-- ===== src/Rushr/Extent.antt =====
-- From `setDisks` to `placeExtent` of dadisi/DistRUSHr.cpp: the disks of an extent.
use data_distribution_simula.Base.{
  ℕ, zero, suc, refl, ap, some, List, [], map, arith, length, get_elem?, All, ◌+◌, ◌<◌, ◌≡◌, ◌∷◌,
  drop, get_elem?-lt, get_or, ◌-◌, subst, ◌^◌, IsUnique,
}
use data_distribution_simula.Disk.{Disk}
use data_distribution_simula.Double.{Double}
use data_distribution_simula.Rushr.{Rushr, set_disks, rush_loop, rushr, collect, place_extent}
use data_distribution_simula.Rushr.Draw.{init_choices}
use data_distribution_simula.Rushr.Draw.Restore.{IsRandom}
use data_distribution_simula.Rushr.Placement.{rush_loop-lem}
use data_distribution_simula.Rushr.Setup.{HasRoom, set_disks-IsGrouped}

-- The servers, as indices of disks, name the disks that are placed.
abbrev pub Picks : List Disk → List ℕ → List Disk → Type 0
Picks disks servers placed = map some placed ≡ map (get_elem? disks) servers

drop_all {ℓ} : {A : Type ℓ} (xs : List A) (i : ℕ) → i ≡ length xs → drop i xs ≡ []
drop_all [] zero e = refl
drop_all [] (suc i) e = refl
drop_all (x ∷ xs) zero e = absurd (omega arith)
drop_all (x ∷ xs) (suc i) e = drop_all xs i (omega arith)

drop-get_or : (xs : List ℕ) (i : ℕ) → i < length xs → drop i xs ≡ get_or xs i 0 ∷ drop (suc i) xs
drop-get_or [] i h = absurd (omega arith)
drop-get_or (x ∷ xs) zero h = refl
drop-get_or (x ∷ xs) (suc i) h = drop-get_or xs i (omega arith)

get_or-lt : (n : ℕ) (xs : List ℕ) (i : ℕ) → All (λ s. s < n) xs → i < length xs → get_or xs i 0 < n
get_or-lt n [] i h k = absurd (omega arith)
get_or-lt n (x ∷ xs) zero (here, rest) k = here
get_or-lt n (x ∷ xs) (suc i) (here, rest) k = get_or-lt n xs i rest (omega arith)

-- The loop of `placeExtent` reads the servers in their order.
collect-Picks :
    (disks : List Disk) (servers : List ℕ) (n i : ℕ)
    → All (λ s. s < length disks) servers
    → n + i ≡ length servers
    → (placed : List Disk) × (collect disks servers n i ≡ some placed)
      × Picks disks (drop i servers) placed
unfolding collect
collect-Picks disks servers zero i inside e = ([], refl, rw (drop_all servers i (omega arith)) refl)
collect-Picks disks servers (suc n) i inside e =
    let s = get_or servers i 0 in
    let (d, found) =
      get_elem?-lt disks s (get_or-lt (length disks) servers i inside (omega arith)) in
    let (placed, rest, picks) = collect-Picks disks servers n (suc i) inside (omega arith) in
    let next : i + 1 ≡ suc i = omega arith in
    (
      d ∷ placed,
      rw (found, next, rest) refl,
      rw (drop-get_or servers i (omega arith), found, picks) refl,
    )

module _ {R : Type 0} (dbl : Double R) where
  place_extent-from :
      (r : Rushr R) (n : ℕ) (disks : List Disk) (servers : List ℕ) (placed : List Disk)
      (volume position : ℕ) (choices : List ℕ)
      → r.copies ≡ n
      → r.alldisks ≡ disks
      → rush_loop dbl r.groups position (length r.groups) n [] choices ≡ some (servers, choices)
      → collect disks servers n 0 ≡ some placed
      → place_extent dbl r volume position choices ≡ some (placed, choices)
  unfolding place_extent rushr
  place_extent-from r n disks servers placed volume position choices same all rushed collected =
      simp (same, all, rushed, collected) refl

  -- Where there are disks, fewer than 2 ^ 31, every capacity (as an `int`) is that of as many disks as
  -- there are copies, and the generator's numbers lie in their range: `setDisks` succeeds, and for
  -- every position `placeExtent` gives the disks at as many different indices as there are copies, and
  -- it leaves the shared array of choices as it was.
  pub place_extent-Picks :
      (this : Rushr R) (disks : List Disk) (volume position : ℕ)
      → IsRandom dbl
      → 0 < length disks
      → length disks < 2 ^ 31
      → HasRoom this.copies disks
      → (r : Rushr R) × (choices : List ℕ) × (servers : List ℕ) × (placed : List Disk) × (set_disks
            dbl this disks
          ≡ some (r, choices))
        × (place_extent dbl r volume position choices ≡ some (placed, choices))
        × (length servers ≡ this.copies)
        × IsUnique servers
        × Picks disks servers placed
  place_extent-Picks this disks volume position random some_disk small room =
      let (r, cum, e, grouped, whole, some_group, all, same) =
        set_disks-IsGrouped dbl this disks some_disk room in
      let (group, found, total, sum, large, fits) =
        grouped.group_at (length r.groups - 1) (omega arith) in
      let last : suc (length r.groups - 1) ≡ length r.groups = omega arith in
      let (servers, rushed, count, unique, inside) =
        rush_loop-lem dbl random r.groups this.copies (length disks) cum grouped small position
          (length r.groups) this.copies [] (omega arith) (omega arith)
          (omega (arith, ap cum last)) in
      let (placed, collected, picks) =
        collect-Picks disks servers this.copies 0
          (subst (λ n. All (λ s. s < n) servers) whole inside) (omega (arith, count)) in
      (
        r,
        init_choices (length disks),
        servers,
        placed,
        e,
        place_extent-from r this.copies disks servers placed volume position
            (init_choices (length disks)) same all rushed collected,
        count,
        unique,
        picks,
      )
