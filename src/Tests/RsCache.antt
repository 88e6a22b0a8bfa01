-- ===== src/Tests/RsCache.antt =====
-- A concrete run of the cache of probabilities.
use data_distribution_simula.Base.{ℕ, some, List, [], ◌≡◌, ◌∷◌, if◌then◌else◌}
use data_distribution_simula.RsCache.{Leaf, set_value, get_value}
use data_distribution_simula.RsCache.Laws.{same, first_of, get_value-set_value}

abbrev stored : List (ℕ × Leaf ℕ)
stored = (3, record { cache = (4, 70) ∷ []; high_val = 4; low_val = 0 }) ∷ []

get_value-set_value_example : get_value ℕ 1 (3, 5) (set_value ℕ 0 1 (3, 5) 77 stored) ≡ (
    if same 1 (3, 5) (3, 5)
    then some (first_of ℕ (get_value ℕ 1 (3, 5) stored) 77)
    else get_value ℕ 1 (3, 5) stored)
get_value-set_value_example = get_value-set_value ℕ 0 1 (3, 5) (3, 5) 77 stored
