-- ===== src/Share/Threads/Turns.antt =====
-- What one turn of a thread of dadisi/DistShare.cpp does to the packages, the table and the threads.
use data_distribution_simula.Base.{
  ℕ, zero, suc, refl, sym, subst, inl, inr, some, List, [], map, arith, length, All, Has,
  Bool-cases, ==_iff, ◌+◌, ◌*◌, ◌≡◌, ◌⊎◌, ◌∷◌, ◌∙◌, ◌==◌, >>=-eq-some, some-injective,
}
use data_distribution_simula.Disk.{Disk}
use data_distribution_simula.Dictionary.{lookup, assign, lookup-assign}
use data_distribution_simula.Word.{sub64}
use data_distribution_simula.NearestNeighbour.{NearestNeighbour, Hashes, set_disks_multi}
use data_distribution_simula.Share.{Share, new_distributor, distributor_at}
use data_distribution_simula.Share.Intervals.{ShareDisk, multiplicity}
use data_distribution_simula.Share.Threads.{
  WorkPackage, Thread, taking, working, storing, terminated, act, turn,
}

-- The borders whose packages are left.
abbrev pub positions : List WorkPackage → List ℕ
positions = map (λ p. p.pos)

-- The thread has the package or the distributor of the border.
abbrev pub Carries : ℕ → Thread → Type 0
Carries b taking = ⊥
Carries b (working p) = b ≡ p.pos
Carries b (storing pos dnn) = b ≡ pos
Carries b terminated = ⊥

abbrev pub SomeCarries : ℕ → List Thread → Type 0
SomeCarries b [] = ⊥
SomeCarries b (t ∷ ts) = Carries b t ⊎ SomeCarries b ts

-- How many turns are left to a thread.
abbrev pub turns : Thread → ℕ
turns taking = 1
turns (working p) = 3
turns (storing pos dnn) = 2
turns terminated = 0

abbrev pub all_turns : List WorkPackage → List Thread → ℕ
all_turns ps [] = 3 * length ps
all_turns ps (t ∷ ts) = turns t + all_turns ps ts

module _ (h : Hashes) (this : Share) (ds : List Disk) (sds : List ShareDisk)
    (borders : List ℕ) where
  abbrev pub IsOwn : WorkPackage → Type 0
  IsOwn p = Has p.pos borders × (p.multi ≡ multiplicity sds (sub64 p.pos 1) [])

  abbrev pub IsSound : List WorkPackage → Thread → Type 0
  IsSound ps taking = Unit
  IsSound ps (working p) = IsOwn p
  IsSound ps (storing pos dnn) = distributor_at h this ds sds pos ≡ some dnn
  IsSound ps terminated = ps ≡ []

  abbrev pub IsStored : ℕ → List (ℕ × NearestNeighbour) → Type 0
  IsStored b table = lookup b table ≡ distributor_at h this ds sds b

  pub work-eq-some :
      (p : WorkPackage)
      → IsOwn p
      → set_disks_multi h (new_distributor this) ds p.multi ≡ distributor_at h this ds sds p.pos
  unfolding distributor_at
  work-eq-some p own = rw own.1 refl

  -- What a turn does to the packages, the table and the borders that are carried.
  pub record IsTurn (ps ps' : List WorkPackage) (table table' : List (ℕ × NearestNeighbour))
      (before after : ℕ → Type 0) : Type 0 where
    pub own : All IsOwn ps'
    pub handed : (b : ℕ) → Has b (positions ps) → Has b (positions ps') ⊎ after b
    pub carried : (b : ℕ) → before b → after b ⊎ IsStored b table'
    pub kept : (b : ℕ) → IsStored b table → IsStored b table'
    pub empty : ps ≡ [] → ps' ≡ []

  assign-IsStored :
      (pos b : ℕ) (dnn : NearestNeighbour) (table : List (ℕ × NearestNeighbour))
      → distributor_at h this ds sds pos ≡ some dnn
      → IsStored b table ⊎ (b ≡ pos)
      → IsStored b (assign pos dnn table)
  assign-IsStored pos b dnn table at e = elim (Bool-cases (pos == b)) [
    | inl same ↦ rw (lookup-assign pos b dnn table, same, ← (==_iff pos b).0 same) (sym at)
    | inr other ↦
        rw (lookup-assign pos b dnn table, other)
          (elim e [ inl stored ↦ stored | inr equal ↦ absurd (ground arith) ])
  ]

  abbrev pub Acts :
      List WorkPackage
      → List (ℕ × NearestNeighbour)
      → Thread
      → List WorkPackage × List (ℕ × NearestNeighbour) × Thread
      → Type 0
  Acts ps table t r =
      IsTurn ps r.0 table r.1 (λ b. Carries b t) (λ b. Carries b r.2)
      × IsSound r.0 r.2
      × (turns r.2 + 3 * length r.0 + 1 ≡ turns t + 3 * length ps)

  act-Acts :
      (ps : List WorkPackage) (table : List (ℕ × NearestNeighbour)) (t : Thread)
      (r : List WorkPackage × List (ℕ × NearestNeighbour) × Thread)
      → All IsOwn ps
      → IsSound ps t
      → act h this ds ps table t ≡ some r
      → Acts ps table t r
  unfolding act
  act-Acts [] table taking r own sound run = subst (Acts [] table taking) (some-injective run) (
    record {
      own = tt;
      handed = λ b e. inl e;
      carried = λ b e. absurd e;
      kept = λ b e. e;
      empty = λ e. e;
    },
    refl,
    refl,
  )
  act-Acts (p ∷ ps) table taking r own sound run =
      subst (Acts (p ∷ ps) table taking) (some-injective run) (
        record {
          own = own.1;
          handed = λ b e. elim e [ inl here ↦ inr here | inr later ↦ inl later ];
          carried = λ b e. absurd e;
          kept = λ b e. e;
          empty = λ e. absurd (cc);
        },
        own.0,
        omega arith,
      )
  act-Acts ps table (working p) r own sound run =
      let (dnn, here, rest) =
        >>=-eq-some (set_disks_multi h (new_distributor this) ds p.multi)
          (λ dnn. some (ps, table, storing p.pos dnn)) run in
      subst (Acts ps table (working p)) (some-injective rest) (
        record {
          own = own;
          handed = λ b e. inl e;
          carried = λ b e. inl e;
          kept = λ b e. e;
          empty = λ e. e;
        },
        sym (work-eq-some p sound) ∙ here,
        omega arith,
      )
  act-Acts ps table (storing pos dnn) r own sound run =
      subst (Acts ps table (storing pos dnn)) (some-injective run) (
        record {
          own = own;
          handed = λ b e. inl e;
          carried = λ b e. inr (assign-IsStored pos b dnn table sound (inr e));
          kept = λ b e. assign-IsStored pos b dnn table sound (inl e);
          empty = λ e. e;
        },
        tt,
        omega arith,
      )
  act-Acts ps table terminated r own sound run = absurd (cc)

  -- A thread stays sound while the packages only become fewer.
  IsSound-fewer :
      (ps ps' : List WorkPackage) (t : Thread) → (ps ≡ [] → ps' ≡ []) → IsSound ps t → IsSound ps' t
  IsSound-fewer ps ps' taking empty s = s
  IsSound-fewer ps ps' (working p) empty s = s
  IsSound-fewer ps ps' (storing pos dnn) empty s = s
  IsSound-fewer ps ps' terminated empty s = empty s

  IsSound-fewer_each :
      (ps ps' : List WorkPackage) (ts : List Thread)
      → (ps ≡ [] → ps' ≡ [])
      → All (IsSound ps) ts
      → All (IsSound ps') ts
  IsSound-fewer_each ps ps' [] empty s = tt
  IsSound-fewer_each ps ps' (t ∷ ts) empty s =
      (IsSound-fewer ps ps' t empty s.0, IsSound-fewer_each ps ps' ts empty s.1)

  abbrev pub Turns :
      List WorkPackage
      → List (ℕ × NearestNeighbour)
      → List Thread
      → List WorkPackage × List (ℕ × NearestNeighbour) × List Thread
      → Type 0
  Turns ps table ts r =
      IsTurn ps r.0 table r.1 (λ b. SomeCarries b ts) (λ b. SomeCarries b r.2)
      × All (IsSound r.0) r.2
      × (all_turns r.0 r.2 + 1 ≡ all_turns ps ts)

  all_turns-split :
      (ps ps' : List WorkPackage) (ts : List Thread)
      → all_turns ps ts + 3 * length ps' ≡ all_turns ps' ts + 3 * length ps
  all_turns-split ps ps' [] = omega arith
  all_turns-split ps ps' (t ∷ ts) = omega (arith, all_turns-split ps ps' ts)

  pub turn-Turns :
      (ps : List WorkPackage) (table : List (ℕ × NearestNeighbour)) (ts : List Thread) (i : ℕ)
      (r : List WorkPackage × List (ℕ × NearestNeighbour) × List Thread)
      → All IsOwn ps
      → All (IsSound ps) ts
      → turn h this ds ps table ts i ≡ some r
      → Turns ps table ts r
  unfolding turn
  turn-Turns ps table [] i r own sound run = absurd (cc)
  turn-Turns ps table (t ∷ ts) zero r own sound run =
      let (a, here, rest) =
        >>=-eq-some (act h this ds ps table t) (λ r. some (r.0, r.1, r.2 ∷ ts)) run in
      let (is, sound', less) = act-Acts ps table t a own sound.0 here in
      subst (Turns ps table (t ∷ ts)) (some-injective rest) (
        record {
          own = is.own;
          handed = λ b e. elim (is.handed b e) [ inl l ↦ inl l | inr c ↦ inr (inl c) ];
          carried = λ b e. elim e [
            | inl c ↦ elim (is.carried b c) [ inl d ↦ inl (inl d) | inr stored ↦ inr stored ]
            | inr c ↦ inl (inr c)
          ];
          kept = is.kept;
          empty = is.empty;
        },
        (sound', IsSound-fewer_each ps a.0 ts is.empty sound.1),
        omega (arith, less, all_turns-split ps a.0 ts),
      )
  turn-Turns ps table (t ∷ ts) (suc i) r own sound run =
      let (a, here, rest) =
        >>=-eq-some (turn h this ds ps table ts i) (λ r. some (r.0, r.1, t ∷ r.2)) run in
      let (is, sound', less) = turn-Turns ps table ts i a own sound.1 here in
      subst (Turns ps table (t ∷ ts)) (some-injective rest) (
        record {
          own = is.own;
          handed = λ b e. elim (is.handed b e) [ inl l ↦ inl l | inr c ↦ inr (inr c) ];
          carried = λ b e. elim e [
            | inl c ↦ inl (inl c)
            | inr c ↦ elim (is.carried b c) [ inl d ↦ inl (inr d) | inr stored ↦ inr stored ]
          ];
          kept = is.kept;
          empty = is.empty;
        },
        (IsSound-fewer ps a.0 t is.empty sound.0, sound'),
        omega (arith, less),
      )
