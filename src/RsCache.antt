-- ===== src/RsCache.antt =====
-- The cache of probabilities: `RSCache`, `RSCacheLeaf` and `RSCacheNode` of dadisi/RSCache.cpp and
-- dadisi/RSCache.h.
--
-- A cache of depth `suc d` is a leaf where `d` is 0, and otherwise a table of caches of depth `d`;
-- a query has as many keys as the cache is deep. Keys are patterns of 32 bits. The values are
-- rationals of a third-party library, which the cache only copies: their type is a parameter.
pub mod Laws
use data_distribution_simula.Base.{
  ℕ, zero, suc, ◌+◌, ◌%◌, ◌^◌, Bool, Option, none, some, List, [], ◌∷◌, length, ltb, ◌==◌,
  if◌then◌else◌,
}
use data_distribution_simula.Dictionary.{lookup, assign}

-- `a < b`, of signed patterns
unfoldable pub slt : ℕ → ℕ → Bool
slt a b = ltb ((a + 2 ^ 31) % 2 ^ 32) ((b + 2 ^ 31) % 2 ^ 32)

pub record Leaf (V : Type 0) : Type 0 where
  pub cache : List (ℕ × V)
  pub high_val : ℕ
  pub low_val : ℕ

abbrev pub Cache : Type 0 → ℕ → Type 0
Cache V zero = Leaf V
Cache V (suc d) = List (ℕ × Cache V d)

abbrev pub Query : ℕ → Type 0
Query zero = ℕ
Query (suc d) = ℕ × Query d

-- What a bounded search gives: the null pointer, an entry, or a read through `end()`.
pub data Nearby (V : Type 0) : Type 0 where
  null : Nearby V
  entry : ℕ → V → Nearby V
  undefined : Nearby V

module _ (V : Type 0) where
  -- `RSCacheLeaf::setValue`: a value that is stored stays.
  unfoldable pub set_leaf : ℕ → V → Leaf V → Leaf V
  unfolding lookup assign slt
  set_leaf key v l = record {
    cache = elim (lookup key l.cache) [ none ↦ assign key v l.cache | some old ↦ l.cache ];
    high_val = if slt l.high_val key then key else l.high_val;
    low_val = if slt key l.low_val then key else l.low_val;
  }

  -- `createInstance`, of a depth of at least 1. The bound that the constructor of a leaf does not
  -- set is a parameter.
  unfoldable pub create : ℕ → (d : ℕ) → Cache V d
  create unset zero = record { cache = []; high_val = 0; low_val = unset }
  create unset (suc d) = []

  -- The son for a key, which is made where there is none.
  unfoldable pub son : ℕ → (d : ℕ) → ℕ → List (ℕ × Cache V d) → Cache V d
  unfolding lookup create
  son unset d key c = elim (lookup key c) [ none ↦ create unset d | some s ↦ s ]

  -- `setValue`
  unfoldable pub set_value : ℕ → (d : ℕ) → Query d → V → Cache V d → Cache V d
  unfolding set_leaf son assign
  set_value unset zero key v c = set_leaf key v c
  set_value unset (suc d) (key, query) v c =
      assign key (set_value unset d query v (son unset d key c)) c

  -- `getValue`
  unfoldable pub get_value : (d : ℕ) → Query d → Cache V d → Option V
  unfolding lookup
  get_value zero key c = lookup key c.cache
  get_value (suc d) (key, query) c = elim (lookup key c) [
    | none ↦ none
    | some s ↦ get_value d query s
  ]

  -- `&(*(cache->find(key)))`
  unfoldable pub entry_at : ℕ → List (ℕ × V) → Nearby V
  unfolding lookup
  entry_at key c = elim (lookup key c) [ none ↦ undefined | some v ↦ entry key v ]

  -- `getHighValue`
  unfoldable pub get_high_value : (d : ℕ) → Query d → Cache V d → Nearby V
  unfolding lookup slt entry_at
  get_high_value zero key c =
      if length c.cache == 0
      then null
      else entry_at (if slt c.high_val key then c.high_val else key) c.cache
  get_high_value (suc d) (key, query) c = elim (lookup key c) [
    | none ↦ null
    | some s ↦ get_high_value d query s
  ]

  -- `getLowValue`
  unfoldable pub get_low_value : (d : ℕ) → Query d → Cache V d → Nearby V
  unfolding lookup slt entry_at
  get_low_value zero key c =
      if length c.cache == 0
      then null
      else entry_at (if slt key c.low_val then c.low_val else key) c.cache
  get_low_value (suc d) (key, query) c = elim (lookup key c) [
    | none ↦ null
    | some s ↦ get_low_value d query s
  ]
