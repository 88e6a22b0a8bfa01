-- ===== src/Rushr/Draw/Restore.antt =====
-- The rounds of `draw_k_of_n` of dadisi/DistRUSHr.cpp: what the exchanges keep, and that the last
-- loop undoes them.
use native.Mathlib.Decide.{dec_lt, ℕ_discrete}
use data_distribution_simula.Base.{
  ℕ, suc, refl, inl, inr, arith, Bool-cases, ◌+◌, ◌-◌, ◌≤◌, ◌<◌, ◌≡◌, ◌⊎◌, ◌==◌, zero, sym, ap,
  subst, true, some, List, ltb, lt→ltb, ◌^◌, ◌≢◌, ◌∙◌, if◌then◌else◌, set, ◌&&◌,
}
use data_distribution_simula.Double.{Double}
use data_distribution_simula.Rushr.Random.{Generator, next}
use data_distribution_simula.Rushr.Draw.{init_choices, choose, shuffle, restore}
use data_distribution_simula.Rushr.Draw.Exchange.{
  Views, Views-set, Views-exchange, Views-init_choices, assigned, transposed,
}

-- The array after `i` rounds over `n` servers.
pub record IsShuffled (n i : ℕ) (f : ℕ → ℕ) : Type 0 where
  pub injective : (p q : ℕ) → f p ≡ f q → p ≡ q
  pub below : (p : ℕ) → p < n → f p < n
  pub above : (p : ℕ) → n ≤ p → f p ≡ p
  -- a server that is not at its own place is drawn
  pub displaced : (p : ℕ) → p + i < n → (f p ≡ p) ⊎ ((q : ℕ) × (n ≤ q + i) × (q < n) × (f q ≡ p))

pub IsShuffled-none : (n : ℕ) → IsShuffled n 0 (λ p. p)
IsShuffled-none n = record {
  injective = λ p q e. e;
  below = λ p h. h;
  above = λ p h. refl;
  displaced = λ p h. inl refl;
}

transposed-injective : (l c p q : ℕ) → transposed l c p ≡ transposed l c q → p ≡ q
transposed-injective l c p q e = ground arith

transposed_last : (l c : ℕ) → transposed l c l ≡ c
transposed_last l c = ground arith

transposed_other : (l c p : ℕ) → p ≢ l → p ≢ c → transposed l c p ≡ p
transposed_other l c p h k = ground arith

displaced-exchange :
    (n i : ℕ) (f : ℕ → ℕ) (c : ℕ)
    → IsShuffled n i f
    → i < n
    → c + i < n
    → (p : ℕ) → p + suc i < n
    → (f (transposed (n - 1 - i) c p) ≡ p)
      ⊎ ((q : ℕ) × (n ≤ q + suc i) × (q < n) × (f (transposed (n - 1 - i) c q) ≡ p))
displaced-exchange n i f c shuffled inside choice p h = elim (shuffled.displaced p (omega arith)) [
  | inl e ↦ elim (Bool-cases (p == c)) [
    | inl same ↦
        let here : p ≡ c = ground arith in
        inr (
          n - 1 - i,
          omega arith,
          omega arith,
          rw (transposed_last (n - 1 - i) c) (ap f (sym here) ∙ e),
        )
    | inr other ↦
        inl rw (transposed_other (n - 1 - i) c p (omega arith) (λ t. absurd (ground arith))) e
  ]
  | inr (q, late, q_lt, e) ↦
      inr
        (q, omega arith, q_lt, rw (transposed_other (n - 1 - i) c q (omega arith) (omega arith)) e)
]

IsShuffled-exchange :
    (n i : ℕ) (f : ℕ → ℕ) (c : ℕ)
    → IsShuffled n i f
    → i < n
    → c + i < n
    → IsShuffled n (suc i) (λ p. f (transposed (n - 1 - i) c p))
IsShuffled-exchange n i f c shuffled inside choice = record {
  injective = λ p q e.
      transposed-injective (n - 1 - i) c p q
        (shuffled.injective (transposed (n - 1 - i) c p) (transposed (n - 1 - i) c q) e);
  below = λ p h. shuffled.below (transposed (n - 1 - i) c p) (ground arith);
  above = λ p h.
      let same : transposed (n - 1 - i) c p ≡ p = ground arith in rw same (shuffled.above p h);
  displaced = displaced-exchange n i f c shuffled inside choice;
}

-- The numbers that the generator gives lie in the range that the code asks for.
abbrev pub IsRandom : {R : Type 0} → Double R → Type 0
IsRandom dbl = (g : Generator) (m : ℕ) → 0 < m → m < 2 ^ 31 → choose dbl g m < m

module _ {R : Type 0} (dbl : Double R) (random : IsRandom dbl) where
  -- The first loop ends, and it has shuffled the array.
  pub shuffle-IsShuffled :
      (k i n : ℕ) (cs : List ℕ) (size : ℕ) (f : ℕ → ℕ) (g : Generator)
      → i + k ≤ n
      → n ≤ size
      → n < 2 ^ 31
      → Views cs size f
      → IsShuffled n i f
      → (after : List ℕ) × (final : ℕ → ℕ) × (h : Generator) × (shuffle dbl k i n cs g
          ≡ some (after, h))
        × Views after size final
        × IsShuffled n (i + k) final
  unfolding shuffle
  shuffle-IsShuffled zero i n cs size f g fits room small view shuffled =
      let e : i + 0 ≡ i = omega arith in
      (cs, f, g, refl, view, subst (λ t. IsShuffled n t f) (sym e) shuffled)
  shuffle-IsShuffled (suc k) i n cs size f g fits room small view shuffled =
      let c = choose dbl (next g) (n - i) in
      let c_lt : c < n - i = random (next g) (n - i) (omega arith) (omega arith) in
      let (once, swapped, places) =
        Views-exchange cs size f (n - 1 - i) c view (omega arith) (omega arith) in
      let (after, final, h, e, final_view, final_shuffled) =
        shuffle-IsShuffled k (suc i) n once size (λ p. f (transposed (n - 1 - i) c p)) (next g)
          (omega arith) room small places
          (IsShuffled-exchange n i f c shuffled (omega arith) (omega arith)) in
      let inside : ltb i n ≡ true = lt→ltb i n (omega arith) in
      let next_round : i + 1 ≡ suc i = omega arith in
      let count : suc i + k ≡ i + suc k = omega arith in
      (
        after,
        final,
        h,
        rw (inside, swapped, next_round) e,
        final_view,
        subst (λ t. IsShuffled n t final) count final_shuffled,
      )

-- The array after `i` rounds of the last loop.
pub record IsRestoring (n base i : ℕ) (f : ℕ → ℕ) : Type 0 where
  pub low : (p : ℕ) → p < base → (f p ≡ p) ⊎ ((q : ℕ) × (base + i ≤ q) × (q < n) × (f q ≡ p))
  pub middle : (p : ℕ) → base ≤ p → p < base + i → f p ≡ p
  pub above : (p : ℕ) → n ≤ p → f p ≡ p

-- The array after one round.
abbrev put_back : (ℕ → ℕ) → ℕ → ℕ → ℕ → ℕ
put_back f base place p =
    if p == place then place else if ltb (f place) base && (p == f place) then f place else f p

put_back_keeps : (f : ℕ → ℕ) (base place p : ℕ) → f p ≡ p → put_back f base place p ≡ p
put_back_keeps f base place p e = ground arith

put_back_drawn :
    (f : ℕ → ℕ) (base place p : ℕ)
    → p < base
    → base ≤ place
    → f place ≡ p
    → put_back f base place p ≡ p
put_back_drawn f base place p small h e = ground arith

put_back_other :
    (f : ℕ → ℕ) (base place p : ℕ) → base ≤ p → p ≢ place → put_back f base place p ≡ f p
put_back_other f base place p h other = ground arith

put_back-low :
    (n base i : ℕ) (f : ℕ → ℕ)
    → IsRestoring n base i f
    → (p : ℕ) → p < base
    → (put_back f base (base + i) p ≡ p)
      ⊎ ((q : ℕ) × (base + suc i ≤ q) × (q < n) × (put_back f base (base + i) q ≡ p))
put_back-low n base i f h p small = elim (h.low p small) [
  | inl e ↦ inl (put_back_keeps f base (base + i) p e)
  | inr (q, late, q_lt, e) ↦ elim (ℕ_discrete q (base + i)) [
    | yes here ↦ inl (put_back_drawn f base (base + i) p small (omega arith) (ap f (sym here) ∙ e))
    | no later ↦
        inr (q, omega arith, q_lt, put_back_other f base (base + i) q (omega arith) later ∙ e)
  ]
]

put_back-IsRestoring :
    (n base i : ℕ) (f : ℕ → ℕ)
    → IsRestoring n base i f
    → base + i < n
    → IsRestoring n base (suc i) (put_back f base (base + i))
put_back-IsRestoring n base i f h inside = record {
  low = put_back-low n base i f h;
  middle = λ p big small. elim (ℕ_discrete p (base + i)) [
    | yes here ↦ ground arith
    | no other ↦ put_back_other f base (base + i) p big other ∙ h.middle p big (omega arith)
  ];
  above = λ p big. put_back_keeps f base (base + i) p (h.above p big);
}

Views-put_back :
    (cs : List ℕ) (size base place : ℕ) (f : ℕ → ℕ)
    → Views cs size f
    → base ≤ place
    → place < size
    → Views
        (set (if ltb (f place) base then set cs (f place) (f place) else cs) place place)
        size
        (put_back f base place)
Views-put_back cs size base place f view above inside = elim (Bool-cases (ltb (f place) base)) [
  | inl e ↦
      let (long, places) =
        Views-set (set cs (f place) (f place)) size (assigned f (f place) (f place)) place place
          (Views-set cs size f (f place) (f place) view (ground arith)) inside in
      rw e (long, λ p h. places p h ∙ ap some (ground arith))
  | inr e ↦
      let (long, places) = Views-set cs size f place place view inside in
      rw e (long, λ p h. places p h ∙ ap some (ground arith))
]

-- The last loop ends, and it leaves every server at its own place.
pub restore-identity :
    (k i base n : ℕ) (cs : List ℕ) (size : ℕ) (f : ℕ → ℕ)
    → base + i + k ≡ n
    → n ≤ size
    → Views cs size f
    → IsRestoring n base i f
    → (after : List ℕ) × (restore k i base cs ≡ some after) × (after ≡ init_choices size)
unfolding restore
restore-identity zero i base n cs size f e room view h = (
  cs,
  refl,
  Views-init_choices cs size f view (λ p inside. elim (dec_lt p base) [
    | yes small ↦ elim (h.low p small) [
      | inl fixed ↦ fixed
      | inr (q, late, q_lt, away) ↦ absurd (omega arith)
    ]
    | no big ↦ elim (dec_lt p n) [
      | yes in_n ↦ h.middle p (omega arith) (omega arith)
      | no out ↦ h.above p (omega arith)
    ]
  ]),
)
restore-identity (suc k) i base n cs size f e room view h =
    let one_more : i + 1 ≡ suc i = omega arith in
    rw (view.1 (base + i) (omega arith), one_more)
      (restore-identity k (suc i) base n
        (set (if ltb (f (base + i)) base then set cs (f (base + i)) (f (base + i)) else cs)
          (base + i) (base + i))
        size (put_back f base (base + i)) (omega arith) room
        (Views-put_back cs size base (base + i) f view (omega arith) (omega arith))
        (put_back-IsRestoring n base i f h (omega arith)))

-- What the first loop leaves is a start of the last one.
pub IsRestoring-of_IsShuffled :
    (n base k : ℕ) (f : ℕ → ℕ) → base + k ≡ n → IsShuffled n k f → IsRestoring n base 0 f
IsRestoring-of_IsShuffled n base k f e h = record {
  low = λ p small. elim (h.displaced p (omega arith)) [
    | inl fixed ↦ inl fixed
    | inr (q, late, q_lt, away) ↦ inr (q, omega arith, q_lt, away)
  ];
  middle = λ p big small. absurd (omega arith);
  above = h.above;
}
