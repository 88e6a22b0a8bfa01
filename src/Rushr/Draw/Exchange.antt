-- ===== src/Rushr/Draw/Exchange.antt =====
-- An array of choices as a function, and what an exchange does to it, for `draw_k_of_n` of
-- dadisi/DistRUSHr.cpp.
use data_distribution_simula.Base.{
  ℕ, zero, suc, refl, sym, ap, inl, inr, some, List, [], map, arith, Bool-cases, length, get_elem?,
  set, length-set, get_elem?-set_self, get_elem?-set_ne, take, drop, ◌+◌, ◌≤◌, ◌<◌, ◌≡◌, ◌≢◌, ◌∷◌,
  ◌==◌, ◌∙◌, if◌then◌else◌, some-injective,
}
use data_distribution_simula.Rushr.Draw.{choices_from, init_choices, exchange}

-- The list has `size` entries, and `f` gives them.
abbrev pub Views : List ℕ → ℕ → (ℕ → ℕ) → Type 0
Views cs size f = (length cs ≡ size) × ((p : ℕ) → p < size → get_elem? cs p ≡ some (f p))

-- A place after one assignment.
abbrev pub assigned : (ℕ → ℕ) → ℕ → ℕ → ℕ → ℕ
assigned f i v p = if p == i then v else f p

pub Views-set :
    (cs : List ℕ) (size : ℕ) (f : ℕ → ℕ) (i v : ℕ)
    → Views cs size f
    → i < size
    → Views (set cs i v) size (assigned f i v)
Views-set cs size f i v (long, view) inside = (
  length-set cs i v ∙ long,
  λ p h. elim (Bool-cases (p == i)) [
    | inl e ↦
        let same : p ≡ i = ground arith in
        rw (e, same) (get_elem?-set_self cs i v (omega (arith, long)))
    | inr e ↦
        let other : i ≢ p = λ q. absurd (ground arith) in
        rw (e, get_elem?-set_ne cs v other) (view p h)
  ],
)

-- The exchange of two places.
abbrev pub transposed : ℕ → ℕ → ℕ → ℕ
transposed l c p = if p == c then l else if p == l then c else p

pub Views-exchange :
    (cs : List ℕ) (size : ℕ) (f : ℕ → ℕ) (l c : ℕ)
    → Views cs size f
    → l < size
    → c < size
    → (after : List ℕ) × (exchange cs l c ≡ some after)
      × Views after size (λ p. f (transposed l c p))
unfolding exchange
Views-exchange cs size f l c view in_l in_c =
    let after = set (set cs l (f c)) c (f l) in
    let (long, places) =
      Views-set (set cs l (f c)) size (assigned f l (f c)) c (f l)
        (Views-set cs size f l (f c) view in_l) in_c in
    (
      after,
      rw (view.1 l in_l, view.1 c in_c) refl,
      (long, λ p h. places p h ∙ ap some (ground arith)),
    )

-- The array at the start is the identity, and nothing else is.
choices_from-get : (n i p : ℕ) → p < n → get_elem? (choices_from i n) p ≡ some (i + p)
unfolding choices_from
choices_from-get zero i p h = absurd (omega arith)
choices_from-get (suc n) i zero h = ap some (omega arith)
choices_from-get (suc n) i (suc p) h =
    choices_from-get n (i + 1) p (omega arith) ∙ ap some (omega arith)

pub length-choices_from : (n i : ℕ) → length (choices_from i n) ≡ n
unfolding choices_from
length-choices_from zero i = refl
length-choices_from (suc n) i = ap suc (length-choices_from n (i + 1))

pub init_choices-Views : (n : ℕ) → Views (init_choices n) n (λ p. p)
unfolding init_choices
init_choices-Views n =
    (length-choices_from n 0, λ p h. choices_from-get n 0 p h ∙ ap some (omega arith))

-- Lists with the same places are equal.
same_places :
    (xs ys : List ℕ)
    → length xs ≡ length ys
    → ((p : ℕ) → p < length xs → get_elem? xs p ≡ get_elem? ys p)
    → xs ≡ ys
same_places [] [] e h = refl
same_places [] (y ∷ ys) e h = absurd (omega arith)
same_places (x ∷ xs) [] e h = absurd (omega arith)
same_places (x ∷ xs) (y ∷ ys) e h =
    let head : x ≡ y = some-injective (h 0 (omega arith)) in
    let tail = same_places xs ys (omega arith) (λ p q. h (suc p) (omega arith)) in
    rw (head, tail) refl

pub Views-init_choices :
    (cs : List ℕ) (n : ℕ) (f : ℕ → ℕ)
    → Views cs n f
    → ((p : ℕ) → p < n → f p ≡ p)
    → cs ≡ init_choices n
Views-init_choices cs n f (long, view) fixed =
    let (size, start) = init_choices-Views n in
    same_places cs (init_choices n) (long ∙ sym size) (λ p h.
      let inside : p < n = omega (arith, long) in
      view p inside ∙ ap some (fixed p inside) ∙ sym (start p inside))

drop-get : (b : ℕ) (cs : List ℕ) (v : ℕ) → get_elem? cs b ≡ some v → drop b cs ≡ v ∷ drop (suc b) cs
drop-get b [] v h = absurd (cc)
drop-get zero (x ∷ xs) v h = ap (λ y. y ∷ xs) (some-injective h)
drop-get (suc b) (x ∷ xs) v h = drop-get b xs v h

-- A run of the array.
pub slice :
    (k b : ℕ) (cs : List ℕ) (size : ℕ) (f : ℕ → ℕ)
    → Views cs size f
    → b + k ≤ size
    → take k (drop b cs) ≡ map f (choices_from b k)
unfolding choices_from
slice zero b cs size f view h = refl
slice (suc k) b cs size f view h = rw (drop-get b cs (f b) (view.1 b (omega arith))) (
    ap (λ l. f b ∷ l)
      (let next : b + 1 ≡ suc b = omega arith in
        rw next (slice k (suc b) cs size f view (omega arith))))
