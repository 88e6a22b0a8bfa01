-- ===== src/Rushr/Fill.antt =====
-- Filling the clusters, of `setDisks` of dadisi/DistRUSHr.cpp: each disk goes to the cluster of its
-- key, and every disk is in one cluster.
use mathlib.Core.List.{append-nil, append_assoc}
use data_distribution_simula.Base.{
  ℕ, zero, suc, refl, sym, ap, subst, inl, inr, true, false, some, List, [], map, arith, Bool-cases,
  length, All, Has, ◌+◌, ◌≡◌, ◌∷◌, ◌++◌, ◌==◌, if◌then◌else◌, IsUnique, ◌∙◌,
}
use data_distribution_simula.Dictionary.{lookup}
use data_distribution_simula.Disk.{Disk}
use data_distribution_simula.Rushr.{key, push_back, fill_clusters}
use data_distribution_simula.Rushr.Clusters.{part, indexed}

-- The disks in the cluster of `k` after one more.
unfoldable added : (ℕ → List Disk) → Disk → ℕ → List Disk
added f d k = if key d == k then f k ++ (d ∷ []) else f k

map-cong {ℓ} :
    {B : Type ℓ} (f g : ℕ → B) (ks : List ℕ) → ((k : ℕ) → f k ≡ g k) → map f ks ≡ map g ks
map-cong f g [] h = refl
map-cong f g (k ∷ ks) h = rw (h k, map-cong f g ks h) refl

map-added_new :
    (f : ℕ → List Disk) (d : Disk) (ks : List ℕ) → ¬ Has (key d) ks → map (added f d) ks ≡ map f ks
unfolding added
map-added_new f d [] new = refl
map-added_new f d (k ∷ ks) new = elim (Bool-cases (key d == k)) [
  | inl same ↦ absurd (new (inl (ground arith)))
  | inr other ↦ rw (other, map-added_new f d ks (λ t. new (inr t))) refl
]

-- The cluster that a key's number names is that of the key.
push_back-indexed :
    (ks : List ℕ) (i : ℕ) (d : Disk) (f : ℕ → List Disk)
    → IsUnique ks
    → Has (key d) ks
    → (n : ℕ) × (lookup (key d) (indexed i ks) ≡ some (i + n))
      × (push_back n d (map f ks) ≡ some (map (added f d) ks))
unfolding lookup indexed push_back added
push_back-indexed [] i d f unique there = absurd there
push_back-indexed (k ∷ ks) i d f (new, unique) there = elim (Bool-cases (k == key d)) [
  | inl same ↦
      let e : k ≡ key d = ground arith in
      let back : key d == k ≡ true = ground arith in
      let others = map-added_new f d ks (subst (λ t. ¬ Has t ks) e new) in
      (0, rw same (ap some (omega arith)), rw (back, others) refl)
  | inr other ↦
      let back : key d == k ≡ false = ground arith in
      let (n, found, pushed) =
        push_back-indexed ks (suc i) d f unique
          (elim there [ inl e ↦ absurd (ground arith) | inr t ↦ t ]) in
      (suc n, rw (other, found) (ap some (omega arith)), rw (pushed, back) refl)
]

added-append :
    (f : ℕ → List Disk) (d : Disk) (ds : List Disk) (k : ℕ)
    → added f d k ++ part k ds ≡ f k ++ part k (d ∷ ds)
unfolding added part
added-append f d ds k = elim (Bool-cases (key d == k)) [
  | inl e ↦ rw e (append_assoc (f k) (d ∷ []) (part k ds))
  | inr e ↦ rw e refl
]

-- The clusters are the disks of each key.
pub fill_clusters-part :
    (ds : List Disk) (ks : List ℕ) (f : ℕ → List Disk)
    → IsUnique ks
    → All (λ d. Has (key d) ks) ds
    → fill_clusters (indexed 0 ks) ds (map f ks) ≡ some (map (λ k. f k ++ part k ds) ks)
unfolding fill_clusters part
fill_clusters-part [] ks f unique every =
    ap some (map-cong f (λ k. f k ++ []) ks (λ k. sym (append-nil (f k))))
fill_clusters-part (d ∷ ds) ks f unique (here, every) =
    let (n, found, pushed) = push_back-indexed ks 0 d f unique here in
    let zero_n : 0 + n ≡ n = omega arith in
    let rest = fill_clusters-part ds ks (added f d) unique every in
    rw (found, zero_n, pushed, rest)
      (ap some (
        map-cong (λ k. added f d k ++ part k ds) (λ k. f k ++ part k (d ∷ ds)) ks
          (λ k. added-append f d ds k)))

-- The disks in the first clusters.
unfoldable pub before : List (List Disk) → ℕ → ℕ
before clusters zero = 0
before [] (suc c) = 0
before (cluster ∷ clusters) (suc c) = length cluster + before clusters c

before_empty : (ks : List ℕ) → before (map (λ k. part k []) ks) (length ks) ≡ 0
unfolding before part
before_empty [] = refl
before_empty (k ∷ ks) = omega (arith, before_empty ks)

-- One more disk of the key `j` is in one more place.
module _ (j : ℕ) (g h : ℕ → List Disk)
    (more : (k : ℕ) → length (g k) ≡ (if j == k then suc (length (h k)) else length (h k))) where
  before_same :
      (ks : List ℕ) → ¬ Has j ks → before (map g ks) (length ks) ≡ before (map h ks) (length ks)
  unfolding before
  before_same [] new = refl
  before_same (k ∷ ks) new =
      let rest = before_same ks (λ t. new (inr t)) in
      elim (Bool-cases (j == k)) [
        | inl e ↦ absurd (new (inl (ground arith)))
        | inr e ↦
            let size : length (g k) ≡ length (h k) = more k ∙ rw e refl in omega (arith, size, rest)
      ]

  before_more :
      (ks : List ℕ)
      → IsUnique ks
      → Has j ks
      → before (map g ks) (length ks) ≡ suc (before (map h ks) (length ks))
  unfolding before
  before_more [] unique there = absurd there
  before_more (k ∷ ks) (new, unique) there = elim (Bool-cases (j == k)) [
    | inl e ↦
        let same : k ≡ j = ground arith in
        let size : length (g k) ≡ suc (length (h k)) = more k ∙ rw e refl in
        omega (arith, size, before_same ks (subst (λ t. ¬ Has t ks) same new))
    | inr e ↦
        let size : length (g k) ≡ length (h k) = more k ∙ rw e refl in
        let rest : Has j ks = elim there [ inl here ↦ absurd (ground arith) | inr t ↦ t ] in
        omega (arith, size, before_more ks unique rest)
  ]

length-part :
    (d : Disk) (ds : List Disk) (k : ℕ)
    → length (part k (d ∷ ds))
      ≡ (if key d == k then suc (length (part k ds)) else length (part k ds))
unfolding part
length-part d ds k = ground arith

-- Every disk is in one cluster.
pub before-part :
    (ds : List Disk) (ks : List ℕ)
    → IsUnique ks
    → All (λ d. Has (key d) ks) ds
    → before (map (λ k. part k ds) ks) (length ks) ≡ length ds
before-part [] ks unique every = before_empty ks
before-part (d ∷ ds) ks unique (here, every) =
    before_more (key d) (λ k. part k (d ∷ ds)) (λ k. part k ds) (length-part d ds) ks unique here
    ∙ ap suc (before-part ds ks unique every)
