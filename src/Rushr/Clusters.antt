-- ===== src/Rushr/Clusters.antt =====
-- The clusters that `setDisks` of dadisi/DistRUSHr.cpp makes: the disks of each key, in order.

use data_distribution_simula.Base.{
  ℕ, suc, refl, sym, ap, inl, inr, none, some, List, [], map, arith, Bool-cases, Option-cases,
  length, All, Has, Has-append_one, ◌+◌, ◌≡◌, ◌⊎◌, ◌∷◌, ◌++◌, ◌==◌, ◌∙◌, if◌then◌else◌, IsUnique,
  length-append, Has-append_left, Has-append_right,
}
use data_distribution_simula.Dictionary.{lookup, assign}
use data_distribution_simula.Disk.{Disk}
use data_distribution_simula.Double.{Double}
use data_distribution_simula.Rushr.{Found, key, find_clusters, new_cluster}

-- The disks of a key.
unfoldable pub part : ℕ → List Disk → List Disk
part k [] = []
part k (d ∷ ds) = let rest = part k ds in if key d == k then d ∷ rest else rest

-- The keys, numbered from `i` on.
unfoldable pub indexed : ℕ → List ℕ → List (ℕ × ℕ)
indexed i [] = []
indexed i (k ∷ ks) = (k, i) ∷ indexed (suc i) ks

-- A key is found exactly when it is there.
lookup-indexed-none : (k i : ℕ) (ks : List ℕ) → lookup k (indexed i ks) ≡ none → ¬ Has k ks
unfolding lookup indexed
lookup-indexed-none k i [] e h = absurd h
lookup-indexed-none k i (j ∷ ks) e h = elim h [
  | inl same ↦ absurd (ground arith)
  | inr there ↦ lookup-indexed-none k (suc i) ks (ground arith) there
]

lookup-indexed-some : (k i n : ℕ) (ks : List ℕ) → lookup k (indexed i ks) ≡ some n → Has k ks
unfolding lookup indexed
lookup-indexed-some k i n [] e = absurd (cc)
lookup-indexed-some k i n (j ∷ ks) e = elim (Bool-cases (j == k)) [
  | inl same ↦ inl (ground arith)
  | inr other ↦ inr (lookup-indexed-some k (suc i) n ks (ground arith))
]

assign-indexed :
    (k i n : ℕ) (ks : List ℕ)
    → ¬ Has k ks
    → n ≡ i + length ks
    → assign k n (indexed i ks) ≡ indexed i (ks ++ (k ∷ []))
unfolding assign indexed
assign-indexed k i n [] new e = let same : n ≡ i = omega (arith, e) in rw same refl
assign-indexed k i n (j ∷ ks) new e = elim (Bool-cases (j == k)) [
  | inl same ↦ absurd (new (inl (ground arith)))
  | inr other ↦
      rw (other, assign)
        (ap (λ l. (j, i) ∷ l) (assign-indexed k (suc i) n ks (λ t. new (inr t)) (omega (arith, e))))
]

IsUnique-append_one : (k : ℕ) (ks : List ℕ) → IsUnique ks → ¬ Has k ks → IsUnique (ks ++ (k ∷ []))
IsUnique-append_one k [] unique new = ((λ h. h), tt)
IsUnique-append_one k (j ∷ ks) (other, unique) new = (
  λ h. elim (Has-append_one j k ks h) [ inl t ↦ other t | inr e ↦ new (inl (sym e)) ],
  IsUnique-append_one k ks unique (λ t. new (inr t)),
)

-- What `setDisks` has found: the keys `ks`, each with its number, an empty cluster and a weight.
pub record IsFound {R : Type 0} (found : Found R) (ks : List ℕ) : Type 0 where
  pub numbered : found.cluster_index ≡ indexed 0 ks
  pub counted : found.index ≡ length ks
  pub empty : found.clusters ≡ map (λ k. []) ks
  pub weighed : length found.weights ≡ length ks
  pub unique : IsUnique ks

map-append_one {κ} :
    {A : Type κ} (f : ℕ → A) (k : ℕ) (ks : List ℕ) → map f (ks ++ (k ∷ [])) ≡ map f ks ++ (f k ∷ [])
map-append_one f k [] = refl
map-append_one f k (j ∷ ks) = ap (λ l. f j ∷ l) (map-append_one f k ks)

module _ {R : Type 0} (dbl : Double R) where
  new_cluster-IsFound :
      (d : Disk) (found : Found R) (ks : List ℕ)
      → IsFound found ks
      → ¬ Has (key d) ks
      → IsFound (new_cluster dbl d found) (ks ++ (key d ∷ []))
  new_cluster-IsFound d found ks h new = record {
    numbered =
        ap (assign (key d) found.index) h.numbered
        ∙ assign-indexed (key d) 0 found.index ks new (omega (arith, h.counted));
    counted = omega (arith, h.counted, length-append ks (key d ∷ []));
    empty = rw (h.empty) (sym (map-append_one (λ k. []) (key d) ks));
    weighed = omega (
      arith,
      h.weighed,
      length-append ks (key d ∷ []),
      length-append found.weights (dbl.of_signed d.capacity ∷ []),
    );
    unique = IsUnique-append_one (key d) ks h.unique new;
  }

  -- The loop finds the keys of all the disks.
  pub find_clusters-IsFound :
      (ds : List Disk) (found : Found R) (ks : List ℕ)
      → IsFound found ks
      → (all : List ℕ) × IsFound (find_clusters dbl ds found) all
        × ((k : ℕ) → Has k ks → Has k all)
        × All (λ d. Has (key d) all) ds
        × ((k : ℕ) → Has k all → Has k ks ⊎ Has k (map key ds))
  unfolding find_clusters
  find_clusters-IsFound [] found ks h = (ks, h, (λ k t. t), tt, (λ k t. inl t))
  find_clusters-IsFound (d ∷ ds) found ks h =
      elim (Option-cases (lookup (key d) found.cluster_index)) [
        | inl e ↦
            let new = lookup-indexed-none (key d) 0 ks (ap (lookup (key d)) (sym h.numbered) ∙ e) in
            let (all, done, kept, every, back) =
              find_clusters-IsFound ds (new_cluster dbl d found) (ks ++ (key d ∷ []))
                (new_cluster-IsFound d found ks h new) in
            rw (e, find_clusters)
              (
                all,
                done,
                (λ k t. kept k (Has-append_left k ks (key d ∷ []) t)),
                (kept (key d) (Has-append_right (key d) ks (key d ∷ []) (inl refl)), every),
                (λ k t. elim (back k t) [
                  | inl l ↦ elim (Has-append_one k (key d) ks l) [
                    | inl o ↦ inl o
                    | inr n ↦ inr (inl n)
                  ]
                  | inr r ↦ inr (inr r)
                ]),
              )
        | inr (i, e) ↦
            let (all, done, kept, every, back) = find_clusters-IsFound ds found ks h in
            rw (e, find_clusters)
              (
                all,
                done,
                kept,
                (
                  kept (key d) (
                      lookup-indexed-some (key d) 0 i ks
                        (ap (lookup (key d)) (sym h.numbered) ∙ e)),
                  every,
                ),
                (λ k t. elim (back k t) [ inl l ↦ inl l | inr r ↦ inr (inr r) ]),
              )
      ]

-- What there is before the loop.
abbrev pub nothing : {R : Type 0} → Found R
nothing = record { cluster_index = []; index = 0; clusters = []; weights = [] }

pub IsFound-nothing : {R : Type 0} → IsFound {R = R} nothing []
unfolding indexed
IsFound-nothing = record {
  numbered = refl;
  counted = refl;
  empty = refl;
  weighed = refl;
  unique = tt;
}
