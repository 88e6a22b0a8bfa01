-- ===== src/Rushr/Placement.antt =====
-- The servers that `RUSHr` of dadisi/DistRUSHr.cpp writes: as many as asked for, all different.
use mathlib.Core.List.{append-nil, append_assoc}
use data_distribution_simula.Base.{
  ℕ, zero, suc, refl, inl, inr, some, List, [], map, arith, length, get_elem?, length-map, All, Has,
  All-Has, ◌+◌, ◌-◌, ◌^◌, ◌≤◌, ◌<◌, ◌≡◌, ◌∷◌, ◌++◌, ◌∙◌, IsUnique, sym, ap, length-append, All-map,
  Has-append, ◌*◌, true, ltb, lt→ltb, subst,
}
use data_distribution_simula.Double.{Double}
use data_distribution_simula.Rushr.{
  Group, previous_servers, mandatory, number_assigned, draw_servers, assign_servers, rush_loop,
}
use data_distribution_simula.Rushr.Random.{Generator, seed, steps}
use data_distribution_simula.Rushr.Jump.{IsReduced, jumpahead-steps}
use data_distribution_simula.Rushr.Draw.{init_choices}
use data_distribution_simula.Rushr.Draw.Restore.{IsRandom}
use data_distribution_simula.Rushr.Draw.Distinct.{draw_k_of_n-IsDraw, i_sample-le}

-- `cum` gives the servers before each cluster; every cluster has room for all the copies.
pub record IsGrouped {R : Type 0} (groups : List (Group R)) (copies size : ℕ) (cum : ℕ → ℕ)
    : Type 0 where
  pub first : cum 0 ≡ 0
  pub group_at :
      (c : ℕ)
      → c < length groups
      → (g : Group R) × (get_elem? groups c ≡ some g)
        × (g.cumulative_servers ≡ cum (suc c))
        × (cum (suc c) ≡ g.servers + cum c)
        × (copies ≤ g.servers)
        × (cum (suc c) ≤ size)

seed-IsReduced : (key : ℕ) → IsReduced (seed key)
unfolding seed
seed-IsReduced key = (omega arith, omega arith, omega arith)

-- Servers of one cluster.
abbrev IsBetween : ℕ → ℕ → List ℕ → Type 0
IsBetween low high = All (λ s. (low ≤ s) × (s < high))

shift-IsUnique : (p : ℕ) (xs : List ℕ) → IsUnique xs → IsUnique (map (λ s. s + p) xs)
shift-IsUnique p [] h = tt
shift-IsUnique p (x ∷ xs) (new, rest) = ((λ m. new (unshift xs m)), shift-IsUnique p xs rest)
  where
    unshift : (xs : List ℕ) → Has (x + p) (map (λ s. s + p) xs) → Has x xs
    unshift [] m = m
    unshift (y ∷ ys) m = elim m [ inl e ↦ inl (omega arith) | inr t ↦ inr (unshift ys t) ]

shift-IsBetween :
    (p n : ℕ) (xs : List ℕ) → All (λ s. s < n) xs → IsBetween p (n + p) (map (λ s. s + p) xs)
shift-IsBetween p n [] h = tt
shift-IsBetween p n (x ∷ xs) (here, rest) =
    ((omega arith, omega arith), shift-IsBetween p n xs rest)

IsUnique-append_IsBetween :
    (low high : ℕ) (xs ys : List ℕ)
    → IsUnique xs
    → IsBetween low high xs
    → IsUnique ys
    → All (λ s. s < low) ys
    → IsUnique (xs ++ ys)
IsUnique-append_IsBetween low high [] ys unique between others small = others
IsUnique-append_IsBetween low high (x ∷ xs) ys (new, unique) ((above, below), between) others
      small =
    (
      λ m. elim (Has-append x xs ys m) [
        | inl h ↦ new h
        | inr h ↦ let less : x < low = All-Has (λ s. s < low) x ys small h in omega arith
      ],
      IsUnique-append_IsBetween low high xs ys unique between others small,
    )

All-append_lt :
    (n : ℕ) (xs ys : List ℕ)
    → All (λ s. s < n) xs
    → All (λ s. s < n) ys
    → All (λ s. s < n) (xs ++ ys)
All-append_lt n [] ys h k = k
All-append_lt n (x ∷ xs) ys (here, rest) k = (here, All-append_lt n xs ys rest k)

module _ {R : Type 0} (dbl : Double R) where
  number_assigned-between :
      (group : Group R) (must remaining : ℕ) (g : Generator)
      → must ≤ remaining
      → (must ≤ (number_assigned dbl group must remaining g).0)
        × ((number_assigned dbl group must remaining g).0 ≤ remaining)
  unfolding number_assigned
  number_assigned-between group must remaining g h =
      let sampled =
        i_sample-le dbl (remaining - must) (dbl.sub group.weighted_servers (dbl.of_signed must))
          (dbl.sub group.weighted_cumulative_servers (dbl.of_signed must)) group.weight g in
      (omega arith, omega (arith, sampled))

  draw_servers-IsBetween :
      (number n previous size : ℕ) (g : Generator)
      → IsRandom dbl
      → number ≤ n
      → n ≤ size
      → n < 2 ^ 31
      → (results : List ℕ) × (draw_servers dbl number n previous g (init_choices size)
          ≡ some (results, init_choices size))
        × (length results ≡ number)
        × IsUnique results
        × IsBetween previous (n + previous) results
  unfolding draw_servers
  draw_servers-IsBetween zero n previous size g random fits room small = ([], refl, refl, tt, tt)
  draw_servers-IsBetween (suc number) n previous size g random fits room small =
      let (drawn, h, e, (count, unique, below)) =
        draw_k_of_n-IsDraw dbl random (suc number) n size g fits room small in
      let some_drawn : ltb 0 (suc number) ≡ true = lt→ltb 0 (suc number) (omega arith) in
      (
        map (λ s. s + previous) drawn,
        rw (some_drawn, e) refl,
        length-map drawn (λ s. s + previous) ∙ count,
        shift-IsUnique previous drawn unique,
        shift-IsBetween previous n drawn below,
      )

  module _ (random : IsRandom dbl) (groups : List (Group R)) (copies size : ℕ) (cum : ℕ → ℕ)
      (grouped : IsGrouped groups copies size cum) (small : size < 2 ^ 31) where
    previous_servers_lem : (c : ℕ) → c < length groups → previous_servers groups c ≡ some (cum c)
    unfolding previous_servers
    previous_servers_lem zero h = ap some (sym grouped.first)
    previous_servers_lem (suc before) h =
        let (g, found, total, sum, large, room) = grouped.group_at before (omega arith) in
        rw found (ap some total)

    -- One round assigns what the clusters before cannot hold, and at most what is left.
    assign_servers-IsBetween :
        (key cluster remaining : ℕ)
        → cluster < length groups
        → remaining ≤ copies
        → (results : List ℕ) × (assign_servers dbl groups key cluster remaining (init_choices size)
            ≡ some (results, init_choices size))
          × (length results ≤ remaining)
          × (remaining ≤ length results + cum cluster)
          × IsUnique results
          × IsBetween (cum cluster) (cum (suc cluster)) results
    unfolding assign_servers mandatory
    assign_servers-IsBetween key cluster remaining inside few =
        let (group, found, total, sum, large, room) = grouped.group_at cluster inside in
        let generator = steps ((cluster + 2) * 7) (seed key) in
        let jumped = jumpahead-steps ((cluster + 2) * 7) (seed key) (seed-IsReduced key) in
        let must = mandatory (cum cluster) remaining in
        let must_le : must ≤ remaining = ground arith in
        let must_ge : remaining ≤ must + cum cluster = ground arith in
        let (least, most) = number_assigned-between group must remaining generator must_le in
        let (number, after) = number_assigned dbl group must remaining generator in
        let (results, drawn, count, unique, between) =
          draw_servers-IsBetween number group.servers (cum cluster) size after random (omega arith)
            (omega arith) (omega arith) in
        (
          results,
          rw (jumped, previous_servers_lem cluster inside, found) drawn,
          omega arith,
          omega arith,
          unique,
          subst (λ h. IsBetween (cum cluster) h results) (sym sum) between,
        )

    -- The loop over the clusters below `left` assigns all that remains.
    pub rush_loop-lem :
        (key left remaining : ℕ) (servers : List ℕ)
        → left ≤ length groups
        → remaining ≤ copies
        → remaining ≤ cum left
        → (results : List ℕ) × (rush_loop dbl groups key left remaining servers (init_choices size)
            ≡ some (servers ++ results, init_choices size))
          × (length results ≡ remaining)
          × IsUnique results
          × All (λ s. s < cum left) results
    unfolding rush_loop
    rush_loop-lem key zero remaining servers inside few fits =
        ([], rw (append-nil servers) refl, omega (arith, grouped.first), tt, tt)
    rush_loop-lem key (suc cluster) zero servers inside few fits =
        ([], rw (append-nil servers) refl, refl, tt, tt)
    rush_loop-lem key (suc cluster) (suc more) servers inside few fits =
        let (group, found, total, sum, large, room) = grouped.group_at cluster (omega arith) in
        let (assigned, e, most, least, unique, between) =
          assign_servers-IsBetween key cluster (suc more) (omega arith) few in
        let (rest, f, count, others, small) =
          rush_loop-lem key cluster (suc more - length assigned) (servers ++ assigned) (omega arith)
            (omega arith) (omega arith) in
        (
          assigned ++ rest,
          rw (e, f) (ap (λ l. some (l, init_choices size)) (append_assoc servers assigned rest)),
          omega (arith, length-append assigned rest),
          IsUnique-append_IsBetween (cum cluster) (cum (suc cluster)) assigned rest unique between
              others small,
          All-append_lt (cum (suc cluster)) assigned rest
              (All-map (λ s. (cum cluster ≤ s) × (s < cum (suc cluster)))
                (λ s. s < cum (suc cluster)) assigned (λ s h. h.1) between)
              (All-map (λ s. s < cum cluster) (λ s. s < cum (suc cluster)) rest (λ s h. omega arith)
                small),
        )
