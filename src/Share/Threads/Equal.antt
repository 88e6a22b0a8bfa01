-- ===== src/Share/Threads/Equal.antt =====
-- What the threads of dadisi/DistShare.cpp leave: their turns, in any order, against the loop without
-- threads.
use data_distribution_simula.Base.{
  ℕ, zero, suc, refl, sym, ap, subst, inl, inr, some, List, [], arith, length, length-map, All, Has,
  All-map_of, All-of_Has, ◌+◌, ◌*◌, ◌≤◌, ◌<◌, ◌≡◌, ◌⊎◌, ◌∷◌, ◌∙◌, >>=-eq-some, some-injective,
}
use data_distribution_simula.Disk.{Disk}
use data_distribution_simula.Dictionary.{lookup, assign}
use data_distribution_simula.Word.{sub64}
use data_distribution_simula.NearestNeighbour.{NearestNeighbour, Hashes}
use data_distribution_simula.Share.{Share, set_distributors}
use data_distribution_simula.Share.Distributors.{IsMade, set_distributors-lookup}
use data_distribution_simula.Share.Intervals.{ShareDisk, multiplicity}
use data_distribution_simula.Share.Threads.{
  WorkPackage, Thread, taking, working, storing, terminated, work_packages, started, act, turn,
  interleave,
}
use data_distribution_simula.Share.Threads.Turns.{
  positions, SomeCarries, Carries, all_turns, IsOwn, IsSound, IsStored, work-eq-some, turn-Turns,
}

-- All threads have come to their end.
abbrev pub AreTerminated : List Thread → Type 0
AreTerminated [] = Unit
AreTerminated (t ∷ ts) = (t ≡ terminated) × AreTerminated ts

-- The thread with the number has not.
abbrev pub IsRunning : List Thread → ℕ → Type 0
IsRunning [] i = ⊥
IsRunning (t ∷ ts) zero = ¬ (t ≡ terminated)
IsRunning (t ∷ ts) (suc i) = IsRunning ts i

module _ (h : Hashes) (this : Share) (ds : List Disk) (sds : List ShareDisk) (borders : List ℕ)
    (made : (b : ℕ) → Has b borders → IsMade h this ds sds b) where
  turn-length :
      (ps : List WorkPackage) (table : List (ℕ × NearestNeighbour)) (ts : List Thread) (i : ℕ)
      (r : List WorkPackage × List (ℕ × NearestNeighbour) × List Thread)
      → turn h this ds ps table ts i ≡ some r
      → length r.2 ≡ length ts
  unfolding turn
  turn-length ps table [] i r run = absurd (cc)
  turn-length ps table (t ∷ ts) zero r run =
      let (a, here, rest) =
        >>=-eq-some (act h this ds ps table t) (λ r. some (r.0, r.1, r.2 ∷ ts)) run in
      ap (λ r. length r.2) (sym (some-injective rest))
  turn-length ps table (t ∷ ts) (suc i) r run =
      let (a, here, rest) =
        >>=-eq-some (turn h this ds ps table ts i) (λ r. some (r.0, r.1, t ∷ r.2)) run in
      ap (λ r. length r.2) (sym (some-injective rest)) ∙ ap suc (turn-length ps table ts i a here)

  -- A thread that has not come to its end can go on.
  act-eq-some :
      (ps : List WorkPackage) (table : List (ℕ × NearestNeighbour)) (t : Thread)
      → IsSound h this ds sds borders ps t
      → ¬ (t ≡ terminated)
      → (r : List WorkPackage × List (ℕ × NearestNeighbour) × Thread) × (act h this ds ps table t
          ≡ some r)
  unfolding act
  act-eq-some [] table taking sound running = (([], table, terminated), refl)
  act-eq-some (p ∷ ps) table taking sound running = ((ps, table, working p), refl)
  act-eq-some ps table (working p) sound running =
      let (dnn, at) = made p.pos sound.0 in
      ((ps, table, storing p.pos dnn), rw (work-eq-some h this ds sds borders p sound ∙ at) refl)
  act-eq-some ps table (storing pos dnn) sound running = ((ps, assign pos dnn table, taking), refl)
  act-eq-some ps table terminated sound running = absurd (running refl)

  turn-eq-some :
      (ps : List WorkPackage) (table : List (ℕ × NearestNeighbour)) (ts : List Thread) (i : ℕ)
      → All (IsSound h this ds sds borders ps) ts
      → IsRunning ts i
      → (r : List WorkPackage × List (ℕ × NearestNeighbour) × List Thread) × (turn h this ds ps
            table ts i
          ≡ some r)
  unfolding turn
  turn-eq-some ps table [] i sound running = absurd running
  turn-eq-some ps table (t ∷ ts) zero sound running =
      let (r, e) = act-eq-some ps table t sound.0 running in ((r.0, r.1, r.2 ∷ ts), rw e refl)
  turn-eq-some ps table (t ∷ ts) (suc i) sound running =
      let (r, e) = turn-eq-some ps table ts i sound.1 running in ((r.0, r.1, t ∷ r.2), rw e refl)

  -- What holds between two turns: each border is waiting, carried or stored.
  record IsReached (r : List WorkPackage × List (ℕ × NearestNeighbour) × List Thread) : Type 0 where
    own : All (IsOwn h this ds sds borders) r.0
    sound : All (IsSound h this ds sds borders r.0) r.2
    some_thread : 0 < length r.2
    accounted :
        (b : ℕ)
        → Has b borders
        → Has b (positions r.0) ⊎ (SomeCarries b r.2 ⊎ IsStored h this ds sds borders b r.1)

  interleave-IsReached :
      (is : List ℕ) (ps : List WorkPackage) (table : List (ℕ × NearestNeighbour)) (ts : List Thread)
      (r : List WorkPackage × List (ℕ × NearestNeighbour) × List Thread)
      → IsReached (ps, table, ts)
      → interleave h this ds is ps table ts ≡ some r
      → IsReached r × (all_turns r.0 r.2 + length is ≡ all_turns ps ts)
  unfolding interleave
  interleave-IsReached [] ps table ts r reached run =
      subst (λ r. IsReached r × (all_turns r.0 r.2 + 0 ≡ all_turns ps ts)) (some-injective run)
        (reached, omega arith)
  interleave-IsReached (i ∷ is) ps table ts r reached run =
      let (a, here, rest) =
        >>=-eq-some (turn h this ds ps table ts i) (λ r. interleave h this ds is r.0 r.1 r.2) run in
      let (is_turn, sound, less) =
        turn-Turns h this ds sds borders ps table ts i a reached.own reached.sound here in
      let next : IsReached (a.0, a.1, a.2) = record {
        own = is_turn.own;
        sound = sound;
        some_thread = omega (arith, reached.some_thread, turn-length ps table ts i a here);
        accounted = λ b has. elim (reached.accounted b has) [
          | inl waiting ↦ elim (is_turn.handed b waiting) [ inl w ↦ inl w | inr c ↦ inr (inl c) ]
          | inr (inl c) ↦ inr (is_turn.carried b c)
          | inr (inr stored) ↦ inr (inr (is_turn.kept b stored))
        ];
      } in
      let (done, count) = interleave-IsReached is a.0 a.1 a.2 r next rest in
      (done, omega (arith, count, less))

  AreTerminated-stored :
      (ps : List WorkPackage) (ts : List Thread)
      → 0 < length ts
      → All (IsSound h this ds sds borders ps) ts
      → AreTerminated ts
      → (ps ≡ []) × ((b : ℕ) → ¬ SomeCarries b ts)
  AreTerminated-stored ps [] some_thread sound ended = absurd (omega arith)
  AreTerminated-stored ps (t ∷ ts) some_thread sound ended =
      (subst (IsSound h this ds sds borders ps) ended.0 sound.0, λ b. none_carries b (t ∷ ts) ended)
    where
      none_carries : (b : ℕ) (ts : List Thread) → AreTerminated ts → ¬ SomeCarries b ts
      none_carries b [] ended c = c
      none_carries b (t ∷ ts) ended c = elim c [
        | inl here ↦ subst (Carries b) ended.0 here
        | inr later ↦ none_carries b ts ended.1 later
      ]

  started-IsSound :
      (ps : List WorkPackage) (n : ℕ) → All (IsSound h this ds sds borders ps) (started n)
  started-IsSound ps zero = tt
  started-IsSound ps (suc n) = (tt, started-IsSound ps n)

  all_turns-started : (ps : List WorkPackage) (n : ℕ) → all_turns ps (started n) ≡ n + 3 * length ps
  all_turns-started ps zero = omega arith
  all_turns-started ps (suc n) = omega (arith, all_turns-started ps n)

  length-started : (n : ℕ) → length (started n) ≡ n
  length-started zero = refl
  length-started (suc n) = omega (arith, length-started n)

  positions-work_packages :
      (b : ℕ) (bs : List ℕ) → Has b bs → Has b (positions (work_packages sds bs))
  positions-work_packages b [] has = has
  positions-work_packages b (c ∷ bs) has = elim has [
    | inl here ↦ inl here
    | inr later ↦ inr (positions-work_packages b bs later)
  ]

  start-IsReached : (n : ℕ) → 0 < n → IsReached (work_packages sds borders, [], started n)
  start-IsReached n positive = record {
    own =
        All-map_of (IsOwn h this ds sds borders)
          (λ b. record { pos = b; multi = multiplicity sds (sub64 b 1) [] }) borders
          (All-of_Has _ borders (λ b has. (has, refl)));
    sound = started-IsSound (work_packages sds borders) n;
    some_thread = omega (arith, length-started n);
    accounted = λ b has. inl (positions-work_packages b borders has);
  }

  -- Where each border gets a distributor, and at least one thread is started, whatever the order of
  -- the turns of the threads: when all have come to their end, each border has the distributor that
  -- the loop without threads gives it.
  pub interleave-set_distributors :
      (n : ℕ) (is : List ℕ) (r : List WorkPackage × List (ℕ × NearestNeighbour) × List Thread)
      → 0 < n
      → interleave h this ds is (work_packages sds borders) [] (started n) ≡ some r
      → AreTerminated r.2
      → (table : List (ℕ × NearestNeighbour)) × (set_distributors h this ds sds borders []
          ≡ some table)
        × ((b : ℕ) → Has b borders → lookup b r.1 ≡ lookup b table)
  interleave-set_distributors n is r positive run ended =
      let (reached, count) =
        interleave-IsReached is (work_packages sds borders) [] (started n) r
          (start-IsReached n positive) run in
      let (table, made_all, kept, own) =
        set_distributors-lookup h this ds sds borders [] (All-of_Has _ borders made) in
      let (empty, none_carries) =
        AreTerminated-stored r.0 r.2 reached.some_thread reached.sound ended in
      (
        table,
        made_all,
        λ b has. elim (reached.accounted b has) [
          | inl waiting ↦ absurd (subst (λ ps. Has b (positions ps)) empty waiting)
          | inr (inl c) ↦ absurd (none_carries b c)
          | inr (inr stored) ↦ stored ∙ sym (own b has)
        ],
      )

  -- Where each border gets a distributor, whatever the order of the turns of the threads, a thread
  -- that has not come to its end can take another turn without a fault, and with it no more than
  -- three turns for each border and one for each thread have been taken.
  pub turn-ends :
      (n : ℕ) (is : List ℕ) (r : List WorkPackage × List (ℕ × NearestNeighbour) × List Thread)
      (i : ℕ)
      → 0 < n
      → interleave h this ds is (work_packages sds borders) [] (started n) ≡ some r
      → IsRunning r.2 i
      → (next : List WorkPackage × List (ℕ × NearestNeighbour) × List Thread) × (turn h this ds r.0
            r.1 r.2 i
          ≡ some next)
        × (length is + 1 ≤ 3 * length borders + n)
  turn-ends n is r i positive run running =
      let (reached, count) =
        interleave-IsReached is (work_packages sds borders) [] (started n) r
          (start-IsReached n positive) run in
      let (next, e) = turn-eq-some r.0 r.1 r.2 i reached.sound running in
      let (moved, sound, less) =
        turn-Turns h this ds sds borders r.0 r.1 r.2 i next reached.own reached.sound e in
      (
        next,
        e,
        omega (
          arith,
          count,
          less,
          all_turns-started (work_packages sds borders) n,
          length-map {B = WorkPackage} borders
              (λ b. record { pos = b; multi = multiplicity sds (sub64 b 1) [] }),
        ),
      )
