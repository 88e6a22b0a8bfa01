-- ===== src/RoundRobin/Walk.antt =====
-- The walk over the table of disks from a position on, of dadisi/DistRoundRobin.cpp.
use data_distribution_simula.Base.{
  ℕ, zero, suc, refl, ap, inl, inr, some, List, [], map, arith, Bool-cases, length, take, Has, ◌+◌,
  ◌≤◌, ◌≡◌, ◌∷◌, ◌++◌, ◌==◌,
}
use data_distribution_simula.Dictionary.{keys}
use data_distribution_simula.Disk.{Disk}
use data_distribution_simula.RoundRobin.{find, advance, walk}

-- The iterator `find` returns splits the table in front of the key.
pub find_lem :
    (key : ℕ) (table : List (ℕ × Disk))
    → Has key (keys table)
    → (before : List (ℕ × Disk)) × (d : Disk) × (after : List (ℕ × Disk)) × (find key table
        ≡ (key, d) ∷ after)
      × (table ≡ before ++ ((key, d) ∷ after))
unfolding find
find_lem key [] h = absurd h
find_lem key ((k, d) ∷ es) h = elim (Bool-cases (k == key)) [
  | inl e ↦
      let same : k ≡ key = ground arith in
      ([], d, es, rw e (ap (λ n. (n, d) ∷ es) same), ap (λ n. (n, d) ∷ es) same)
  | inr e ↦ elim h [
    | inl same ↦ absurd (ground arith)
    | inr rest ↦
        let (before, d', after, found, split) = find_lem key es rest in
        ((k, d) ∷ before, d', after, rw e found, ap (λ l. (k, d) ∷ l) split)
  ]
]

-- The disks of a part of the table.
abbrev pub disks_of : List (ℕ × Disk) → List Disk
disks_of = map (λ e. e.1)

walk-eq-some :
    (n : ℕ) (e : ℕ × Disk) (es all : List (ℕ × Disk)) (result : List Disk)
    → walk n (advance es all) all ≡ some result
    → walk (suc n) (e ∷ es) all ≡ some (e.1 ∷ result)
unfolding walk
walk-eq-some n e es all result run = rw run

-- As long as the entries last, the loop takes them in order.
walk-take :
    (n : ℕ) (es all : List (ℕ × Disk)) → n ≤ length es → walk n es all ≡ some (take n (disks_of es))
unfolding walk
walk-take zero es all h = refl
walk-take (suc n) [] all h = absurd (omega arith)
walk-take (suc zero) (e ∷ []) all h = refl
walk-take (suc (suc n)) (e ∷ []) all h = absurd (omega arith)
walk-take (suc n) (e ∷ f ∷ es) all h =
    walk-eq-some n e (f ∷ es) all _ (walk-take n (f ∷ es) all (omega arith))

-- Then it goes on from the first entry.
pub walk-wrap :
    (n : ℕ) (e : ℕ × Disk) (es all : List (ℕ × Disk))
    → n ≤ suc (length es) + length all
    → walk n (e ∷ es) all ≡ some (take n (disks_of (e ∷ es) ++ disks_of all))
unfolding walk
walk-wrap zero e es all h = refl
walk-wrap (suc n) e [] all h = walk-eq-some n e [] all _ (walk-take n all all (omega arith))
walk-wrap (suc n) e (f ∷ es) all h =
    walk-eq-some n e (f ∷ es) all _ (walk-wrap n f es all (omega arith))
