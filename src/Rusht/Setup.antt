-- ===== src/Rusht/Setup.antt =====
-- The server counts and the primes that `setDisks` of dadisi/DistRUSHt.cpp prepares.
use data_distribution_simula.Base.{
  ℕ, zero, suc, refl, ap, subst, inl, inr, some, List, [], arith, ltb, leb, Bool-cases, length,
  get_elem?, All, IsAscending, some-injective, ◌+◌, ◌^◌, ◌≤◌, ◌<◌, ◌≡◌, ◌∷◌, ◌∙◌, if◌then◌else◌,
}
use data_distribution_simula.Disk.{Disk}
use data_distribution_simula.Rushr.Fill.{before}
use data_distribution_simula.Rusht.{server_counts, largest, lowest_prime_index}
use data_distribution_simula.Rusht.Coprime.{IsPrime}

pub All-get_elem? {ℓ κ} :
    {A : Type ℓ} (P : A → Type κ) (xs : List A) (i : ℕ) (x : A)
    → All P xs
    → get_elem? xs i ≡ some x
    → P x
All-get_elem? P [] i x h e = absurd (cc)
All-get_elem? P (y ∷ ys) zero x (here, rest) e = subst P (some-injective e) here
All-get_elem? P (y ∷ ys) (suc i) x (here, rest) e = All-get_elem? P ys i x rest e

-- A table of primes below 2 ^ 31 in order, one of which is greater than `size`.
pub record IsTable (primes : List ℕ) (size : ℕ) : Type 0 where
  pub ascending : IsAscending primes
  pub prime : All IsPrime primes
  pub small : All (λ p. p < 2 ^ 31) primes
  pub greater : (k : ℕ) × (p : ℕ) × (get_elem? primes k ≡ some p) × (size < p)

pub lowest_prime_index-greater :
    (primes : List ℕ) (n k p : ℕ)
    → IsAscending primes
    → get_elem? primes k ≡ some p
    → n < p
    → (low : ℕ) × (lowest_prime_index primes n ≡ some low)
      × (low < length primes)
      × ((j q : ℕ) → low ≤ j → get_elem? primes j ≡ some q → n < q)
unfolding lowest_prime_index
lowest_prime_index-greater [] n k p up found large = absurd (cc)
lowest_prime_index-greater (q ∷ qs) n k p (above, up) found large = elim (Bool-cases (leb q n)) [
  | inl e ↦
      elim k
          as (λ k.
            get_elem? (q ∷ qs) k ≡ some p
            → (low : ℕ) × (lowest_prime_index (q ∷ qs) n ≡ some low)
              × (low < suc (length qs))
              × ((j r : ℕ) → low ≤ j → get_elem? (q ∷ qs) j ≡ some r → n < r)) [
                | zero ↦ λ found. absurd (let same : q ≡ p = some-injective found in ground arith)
                | suc k ↦ λ found.
                    (let (low, lowest, inside, greater) =
                        lowest_prime_index-greater qs n k p up found large in
                      (
                        suc low,
                        rw (e, lowest) refl,
                        omega arith,
                        λ j r later at_j. later_prime low greater j r later at_j,
                      ))
              ]
        found
  | inr e ↦ (0, rw e refl, omega arith, λ j r later at_j. first_prime (ground arith) j r at_j)
]
  where
    later_prime :
        (low : ℕ)
        → ((j r : ℕ) → low ≤ j → get_elem? qs j ≡ some r → n < r)
        → (j r : ℕ) → suc low ≤ j
        → get_elem? (q ∷ qs) j ≡ some r
        → n < r
    later_prime low greater zero r later at_j = absurd (omega arith)
    later_prime low greater (suc j) r later at_j = greater j r (omega arith) at_j

    first_prime : n < q → (j r : ℕ) → get_elem? (q ∷ qs) j ≡ some r → n < r
    first_prime h zero r at_j = let same : q ≡ r = some-injective at_j in omega arith
    first_prime h (suc j) r at_j =
        let more : q < r = All-get_elem? (λ y. q < y) qs j r above at_j in omega arith

-- The largest cluster is not smaller than any.
largest-le : (cs : List (List Disk)) (most : ℕ) → most ≤ largest cs most
unfolding largest
largest-le [] most = omega arith
largest-le (c ∷ cs) most =
    let next = if ltb most (length c) then length c else most in
    let grown : most ≤ next = ground arith in omega (arith, largest-le cs next)

pub largest-get_elem? :
    (cs : List (List Disk)) (most i : ℕ) (c : List Disk)
    → get_elem? cs i ≡ some c
    → length c ≤ largest cs most
unfolding largest
largest-get_elem? [] most i c e = absurd (cc)
largest-get_elem? (x ∷ cs) most zero c e =
    let next = if ltb most (length x) then length x else most in
    let grown : length x ≤ next = ground arith in
    omega (arith, largest-le cs next, ap length (some-injective e))
largest-get_elem? (x ∷ cs) most (suc i) c e =
    largest-get_elem? cs (if ltb most (length x) then length x else most) i c e

pub largest-before :
    (cs : List (List Disk)) (most size : ℕ)
    → most ≤ size
    → before cs (length cs) ≤ size
    → largest cs most ≤ size
unfolding largest before
largest-before [] most size h k = h
largest-before (c ∷ cs) most size h k =
    largest-before cs (if ltb most (length c) then length c else most) size (ground arith)
      (omega arith)

pub server_counts-get_elem? :
    (cs : List (List Disk)) (total i : ℕ) (c : List Disk)
    → get_elem? cs i ≡ some c
    → (get_elem? (server_counts cs total) i ≡ some (before cs i + total))
      × (before cs (suc i) ≡ length c + before cs i)
      × (before cs (suc i) ≤ before cs (length cs))
unfolding server_counts before
server_counts-get_elem? [] total i c e = absurd (cc)
server_counts-get_elem? (x ∷ cs) total zero c e =
    (ap some (omega arith), omega (arith, ap length (some-injective e)), omega arith)
server_counts-get_elem? (x ∷ cs) total (suc i) c e =
    let (found, sum, room) = server_counts-get_elem? cs (total + length x) i c e in
    (found ∙ ap some (omega arith), omega (arith, sum), omega (arith, room))
