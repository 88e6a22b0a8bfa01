-- ===== src/Rushr/Draw.antt =====
-- Drawing servers without repetition: `init_choices`, `draw_k_of_n` and `i_sample` of
-- dadisi/DistRUSHr.cpp.
--
-- The array `n_choices` is a list, and an access outside it is `none`. A count of disks is its
-- value. `draw_k_of_n` returns what it writes to `results`.
pub mod Exchange
pub mod Restore
pub mod Distinct
use data_distribution_simula.Base.{
  ℕ, zero, suc, Option, none, some, List, [], ltb, get_elem?, set, take, drop, ◌+◌, ◌-◌, ◌∷◌, ◌>>=◌,
  if◌then◌else◌,
}
use data_distribution_simula.Double.{Double}
use data_distribution_simula.Rushr.Random.{Generator, next, drawn}

-- `init_choices`: the numbers from `i` on, `n` of them.
unfoldable pub choices_from : ℕ → ℕ → List ℕ
choices_from i zero = []
choices_from i (suc n) = i ∷ choices_from (i + 1) n

unfoldable pub init_choices : ℕ → List ℕ
unfolding choices_from
init_choices n = choices_from 0 n

-- The three assignments that exchange two places.
unfoldable pub exchange : List ℕ → ℕ → ℕ → Option (List ℕ)
exchange n_choices last choice = do
  tmp ← get_elem? n_choices last
  v ← get_elem? n_choices choice
  some (set (set n_choices last v) choice tmp)

module _ {R : Type 0} (dbl : Double R) where
  -- `(int) (wh_random(x, y, z) * m)`, after the generator's step
  unfoldable pub choose : Generator → ℕ → ℕ
  unfolding drawn
  choose g m = dbl.to_int (dbl.mul (drawn dbl g) (dbl.of_signed m))

  -- The first loop, with `k` rounds left, from round `i` on. A negative index is outside the array.
  unfoldable pub shuffle : ℕ → ℕ → ℕ → List ℕ → Generator → Option (List ℕ × Generator)
  unfolding next choose exchange
  shuffle zero i n n_choices g = some (n_choices, g)
  shuffle (suc k) i n n_choices g =
      (if ltb i n then exchange n_choices (n - 1 - i) (choose (next g) (n - i)) else none)
      >>= λ n_choices. shuffle k (i + 1) n n_choices (next g)

-- The third loop: `base` is `n - k`.
unfoldable pub restore : ℕ → ℕ → ℕ → List ℕ → Option (List ℕ)
restore zero i base n_choices = some n_choices
restore (suc k) i base n_choices = get_elem? n_choices (base + i) >>= λ choice.
    restore k (i + 1) base (
      set (if ltb choice base then set n_choices choice choice else n_choices) (base + i)
        (base + i))

module _ {R : Type 0} (dbl : Double R) where
  -- `draw_k_of_n`: the results, `n_choices`, and the generator. The second loop copies the results.
  unfoldable pub draw_k_of_n : ℕ → ℕ → List ℕ → Generator → Option (List ℕ × List ℕ × Generator)
  unfolding shuffle restore
  draw_k_of_n k n n_choices g = do
    (shuffled, g) ← shuffle dbl k 0 n n_choices g
    restored ← restore k 0 (n - k) shuffled
    some (take k (drop (n - k) shuffled), restored, g)

  -- The loop of `i_sample`, with `r` rounds left.
  unfoldable pub sample_loop : ℕ → R → R → ℕ → Generator → ℕ × Generator
  unfolding next drawn
  sample_loop zero n total positives g = (positives, g)
  sample_loop (suc r) n total positives g =
      let hit = dbl.lt (drawn dbl (next g)) (dbl.div n total) in
      sample_loop r (if hit then dbl.sub n (dbl.of_signed 1) else n)
        (dbl.sub total (dbl.of_signed 1)) (if hit then positives + 1 else positives) (next g)

  -- `i_sample`
  unfoldable pub i_sample : ℕ → R → R → R → Generator → ℕ × Generator
  unfolding sample_loop
  i_sample r n total w g =
      if dbl.eq w (dbl.of_signed 0)
      then (0, g)
      else sample_loop r (dbl.div n w) (dbl.div total w) 0 g
