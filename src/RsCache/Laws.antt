-- ===== src/RsCache/Laws.antt =====
-- What a write changes of the values of dadisi/RSCache.cpp.
use data_distribution_simula.Base.{
  ℕ, zero, suc, refl, Bool, Option, none, some, ◌≡◌, ◌&&◌, ◌==◌, if◌then◌else◌, ap, subst, inl, inr,
  List, ==_iff, Bool-cases, Option-cases, ◌∙◌,
}
use data_distribution_simula.Dictionary.{lookup, assign, lookup-assign}
use data_distribution_simula.RsCache.{
  Cache, Query, create, son, set_leaf, set_value, get_value, Leaf,
}

-- Whether two queries are the same.
unfoldable pub same : (d : ℕ) → Query d → Query d → Bool
same zero a b = a == b
same (suc d) a b = (a.0 == b.0) && same d a.1 b.1

module _ (V : Type 0) where
  -- The first value of the two.
  unfoldable pub first_of : Option V → V → V
  first_of none v = v
  first_of (some old) v = old

  get_value-create : (unset d : ℕ) (q : Query d) → get_value V d q (create V unset d) ≡ none
  unfolding get_value create lookup
  get_value-create unset zero q = refl
  get_value-create unset (suc d) q = refl

  get_value-son :
      (unset d key : ℕ) (q : Query d) (c : List (ℕ × Cache V d))
      → get_value V d q (son V unset d key c) ≡ get_value V (suc d) (key, q) c
  unfolding get_value son
  get_value-son unset d key q c = elim (Option-cases (lookup key c)) [
    | inl e ↦ rw (e, son, get_value) (get_value-create unset d q)
    | inr (s, e) ↦ rw (e, son, get_value) refl
  ]

  get_value-assign :
      (d key key' : ℕ) (q : Query d) (s : Cache V d) (c : List (ℕ × Cache V d))
      → get_value V (suc d) (key', q) (assign key s c)
        ≡ (if key == key' then get_value V d q s else get_value V (suc d) (key', q) c)
  unfolding get_value
  get_value-assign d key key' q s c = elim (Bool-cases (key == key')) [
    | inl e ↦
        let at : lookup key' (assign key s c) ≡ some s = lookup-assign key key' s c ∙ rw e refl in
        rw (at, e, get_value) refl
    | inr e ↦
        let at : lookup key' (assign key s c) ≡ lookup key' c =
          lookup-assign key key' s c ∙ rw e refl in
        rw (at, e, get_value) refl
  ]

  lookup-set_leaf :
      (key key' : ℕ) (v : V) (l : Leaf V)
      → lookup key' (set_leaf V key v l).cache
        ≡ (if key == key' then some (first_of (lookup key l.cache) v) else lookup key' l.cache)
  unfolding set_leaf first_of
  lookup-set_leaf key key' v l = elim (Option-cases (lookup key l.cache)) [
    | inl e ↦ rw (e, set_leaf) (lookup-assign key key' v l.cache)
    | inr (old, e) ↦ rw (e, set_leaf) (stays old e)
  ]
    where
      stays :
          (old : V)
          → lookup key l.cache ≡ some old
          → lookup key' l.cache ≡ (if key == key' then some old else lookup key' l.cache)
      stays old e = elim (Bool-cases (key == key')) [
        | inl k ↦ rw k (subst (λ j. lookup j l.cache ≡ some old) ((==_iff key key').0 k) e)
        | inr k ↦ rw k refl
      ]

  -- A value that is set is found by the same query, unless one was set before, which stays; every
  -- other query finds what it found before.
  pub get_value-set_value :
      (unset d : ℕ) (q q' : Query d) (v : V) (c : Cache V d)
      → get_value V d q' (set_value V unset d q v c)
        ≡ (if same d q q' then some (first_of (get_value V d q c) v) else get_value V d q' c)
  unfolding get_value set_value same
  get_value-set_value unset zero q q' v c = lookup-set_leaf q q' v c
  get_value-set_value unset (suc d) (k, q) (k', q') v c =
      get_value-assign d k k' q' (set_value V unset d q v (son V unset d k c)) c
      ∙ elim (Bool-cases (k == k')) [
        | inl e ↦ rw e (
            get_value-set_value unset d q q' v (son V unset d k c)
            ∙ ap
                (λ o.
                  if same d q q' then some (first_of o v) else get_value V d q' (son V unset d k c))
                (get_value-son unset d k q c)
            ∙ ap (λ o. if same d q q' then some (first_of (get_value V (suc d) (k, q) c) v) else o)
                (get_value-son unset d k q' c
                  ∙ ap (λ j. get_value V (suc d) (j, q') c) ((==_iff k k').0 e)))
        | inr e ↦ rw e refl
      ]
