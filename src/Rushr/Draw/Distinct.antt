-- ===== src/Rushr/Draw/Distinct.antt =====
-- `draw_k_of_n` of dadisi/DistRUSHr.cpp draws servers without repetition.
use data_distribution_simula.Base.{
  ℕ, zero, suc, refl, inl, inr, some, List, map, arith, Bool-cases, length, length-map, All, Has,
  All-of_Has, ◌+◌, ◌-◌, ◌^◌, ◌≤◌, ◌<◌, ◌≡◌, ◌∙◌, IsUnique, subst,
}
use data_distribution_simula.Double.{Double}
use data_distribution_simula.Rushr.Random.{Generator}
use data_distribution_simula.Rushr.Draw.{
  choices_from, init_choices, draw_k_of_n, sample_loop, i_sample, next, drawn,
}
use data_distribution_simula.Rushr.Draw.Exchange.{slice, init_choices-Views, length-choices_from}
use data_distribution_simula.Rushr.Draw.Restore.{
  IsRandom, IsShuffled, IsShuffled-none, shuffle-IsShuffled, restore-identity,
  IsRestoring-of_IsShuffled,
}

-- The places of a run of the array.
Has-map-choices_from :
    (k b v : ℕ) (f : ℕ → ℕ)
    → Has v (map f (choices_from b k))
    → (p : ℕ) × (b ≤ p) × (p < b + k) × (v ≡ f p)
unfolding choices_from
Has-map-choices_from zero b v f h = absurd h
Has-map-choices_from (suc k) b v f h = elim h [
  | inl e ↦ (b, omega arith, omega arith, e)
  | inr t ↦
      let (p, low, high, e) = Has-map-choices_from k (b + 1) v f t in
      (p, omega arith, omega arith, e)
]

map-choices_from-IsUnique :
    (k b : ℕ) (f : ℕ → ℕ) → ((p q : ℕ) → f p ≡ f q → p ≡ q) → IsUnique (map f (choices_from b k))
unfolding choices_from
map-choices_from-IsUnique zero b f injective = tt
map-choices_from-IsUnique (suc k) b f injective = (
  λ h.
      let (p, low, high, e) = Has-map-choices_from k (b + 1) (f b) f h in
      let same = injective b p e in omega arith,
  map-choices_from-IsUnique k (b + 1) f injective,
)

-- A draw of `k` servers out of `n`, where the array of choices has `size` places.
abbrev pub IsDraw : ℕ → ℕ → List ℕ → Type 0
IsDraw k n results = (length results ≡ k) × IsUnique results × All (λ s. s < n) results

module _ {R : Type 0} (dbl : Double R) (random : IsRandom dbl) where
  -- Where the generator's numbers lie in their range, the array of choices holds every server at its
  -- own place, `k` is at most `n`, and `n` is at most the size of the array and below 2 ^ 31: the
  -- function draws `k` different servers below `n`, and the array is again as it was.
  pub draw_k_of_n-IsDraw :
      (k n size : ℕ) (g : Generator)
      → k ≤ n
      → n ≤ size
      → n < 2 ^ 31
      → (results : List ℕ) × (h : Generator) × (draw_k_of_n dbl k n (init_choices size) g
          ≡ some (results, init_choices size, h))
        × IsDraw k n results
  unfolding draw_k_of_n
  draw_k_of_n-IsDraw k n size g fits room small =
      let (shuffled, f, h, e, view, mixed) =
        shuffle-IsShuffled dbl random k 0 n (init_choices size) size (λ p. p) g (omega arith) room
          small (init_choices-Views size) (IsShuffled-none n) in
      let base_k : n - k + k ≡ n = omega arith in
      let none_before : 0 + k ≡ k = omega arith in
      let (after, restored, same) =
        restore-identity k 0 (n - k) n shuffled size f (omega arith) room view (
          IsRestoring-of_IsShuffled n (n - k) k f base_k
            (subst (λ t. IsShuffled n t f) none_before mixed)) in
      let run = slice k (n - k) shuffled size f view (omega arith) in
      let results = map f (choices_from (n - k) k) in
      (
        results,
        h,
        rw (e, restored, same, run) refl,
        (
          length-map (choices_from (n - k) k) f ∙ length-choices_from k (n - k),
          map-choices_from-IsUnique k (n - k) f mixed.injective,
          All-of_Has (λ s. s < n) results
              (λ v t.
                let (p, low, high, at_p) = Has-map-choices_from k (n - k) v f t in
                rw at_p (mixed.below p (omega arith))),
        ),
      )

module _ {R : Type 0} (dbl : Double R) where
  sample_loop-le :
      (r : ℕ) (n total : R) (positives : ℕ) (g : Generator)
      → (sample_loop dbl r n total positives g).0 ≤ positives + r
  unfolding sample_loop
  sample_loop-le zero n total positives g = omega arith
  sample_loop-le (suc r) n total positives g =
      let rest = λ (n : R) (positives : ℕ).
        sample_loop-le r n (dbl.sub total (dbl.of_signed 1)) positives (next g) in
      elim (Bool-cases (dbl.lt (drawn dbl (next g)) (dbl.div n total))) [
        | inl e ↦
            rw (e, sample_loop) (omega (arith, rest (dbl.sub n (dbl.of_signed 1)) (positives + 1)))
        | inr e ↦ rw (e, sample_loop) (omega (arith, rest n positives))
      ]

  -- `i_sample` counts at most its rounds.
  pub i_sample-le : (r : ℕ) (n total w : R) (g : Generator) → (i_sample dbl r n total w g).0 ≤ r
  unfolding i_sample
  i_sample-le r n total w g = elim (Bool-cases (dbl.eq w (dbl.of_signed 0))) [
    | inl e ↦ rw e (omega arith)
    | inr e ↦ rw e (omega (arith, sample_loop-le r (dbl.div n w) (dbl.div total w) 0 g))
  ]
