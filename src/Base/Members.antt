-- ===== src/Base/Members.antt =====
-- Predicates on lists by recursion, which compute to sums and products at concrete lists.
use Prim.Native.Nat.{ℕ, ◌<◌}
use mathlib.Core.Path.{◌≡◌, refl}
use mathlib.Core.Logic.{◌⊎◌, inl, inr}
use mathlib.Core.List.{List, [], ◌∷◌, ◌++◌, map}

module _ {ℓ} {A : Type ℓ} where
  abbrev pub All {κ} : (A → Type κ) → List A → Type κ
  All P [] = Unit
  All P (x ∷ xs) = P x × All P xs

-- `Has a xs`: the number `a` stands in the list.
abbrev pub Has : ℕ → List ℕ → Type 0
Has a [] = ⊥
Has a (x ∷ xs) = (a ≡ x) ⊎ Has a xs

-- Strictly ascending, as the elements of a `std::set` are visited.
abbrev pub IsAscending : List ℕ → Type 0
IsAscending [] = Unit
IsAscending (x ∷ xs) = All (λ y. x < y) xs × IsAscending xs

-- No number stands in the list twice.
abbrev pub IsUnique : List ℕ → Type 0
IsUnique [] = Unit
IsUnique (k ∷ ks) = (¬ Has k ks) × IsUnique ks

pub All-map {ℓ κ μ} :
    {A : Type ℓ} (P : A → Type κ) (Q : A → Type μ) (xs : List A)
    → ((x : A) → P x → Q x)
    → All P xs
    → All Q xs
All-map P Q [] f h = tt
All-map P Q (x ∷ xs) f h = (f x h.0, All-map P Q xs f h.1)

pub All-Has : (P : ℕ → Type 0) (a : ℕ) (xs : List ℕ) → All P xs → Has a xs → P a
All-Has P a [] h m = absurd m
All-Has P a (x ∷ xs) h m = elim m [ inl e ↦ rw e h.0 | inr t ↦ All-Has P a xs h.1 t ]

pub All-of_Has : (P : ℕ → Type 0) (xs : List ℕ) → ((a : ℕ) → Has a xs → P a) → All P xs
All-of_Has P [] h = tt
All-of_Has P (x ∷ xs) h = (h x (inl refl), All-of_Has P xs (λ a m. h a (inr m)))

pub Has-append_one : (a k : ℕ) (xs : List ℕ) → Has a (xs ++ (k ∷ [])) → Has a xs ⊎ (a ≡ k)
Has-append_one a k [] h = elim h [ inl e ↦ inr e | inr n ↦ absurd n ]
Has-append_one a k (x ∷ xs) h = elim h [
  | inl e ↦ inl (inl e)
  | inr m ↦ elim (Has-append_one a k xs m) [ inl i ↦ inl (inr i) | inr e ↦ inr e ]
]

pub Has-append : (a : ℕ) (xs ys : List ℕ) → Has a (xs ++ ys) → Has a xs ⊎ Has a ys
Has-append a [] ys h = inr h
Has-append a (x ∷ xs) ys h = elim h [
  | inl e ↦ inl (inl e)
  | inr t ↦ elim (Has-append a xs ys t) [ inl l ↦ inl (inr l) | inr r ↦ inr r ]
]

pub Has-append_left : (a : ℕ) (xs ys : List ℕ) → Has a xs → Has a (xs ++ ys)
Has-append_left a [] ys h = absurd h
Has-append_left a (x ∷ xs) ys h = elim h [ inl e ↦ inl e | inr t ↦ inr (Has-append_left a xs ys t) ]

pub Has-append_right : (a : ℕ) (xs ys : List ℕ) → Has a ys → Has a (xs ++ ys)
Has-append_right a [] ys h = h
Has-append_right a (x ∷ xs) ys h = inr (Has-append_right a xs ys h)

module _ {ℓ κ μ} {A : Type ℓ} {B : Type κ} (P : B → Type μ) (f : A → B) where
  pub All-map_of : (xs : List A) → All (λ x. P (f x)) xs → All P (map f xs)
  All-map_of [] h = tt
  All-map_of (x ∷ xs) h = (h.0, All-map_of xs h.1)

  pub All-of_map : (xs : List A) → All P (map f xs) → All (λ x. P (f x)) xs
  All-of_map [] h = tt
  All-of_map (x ∷ xs) h = (h.0, All-of_map xs h.1)
