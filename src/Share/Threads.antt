-- ===== src/Share/Threads.antt =====
-- The threads of `setDisks` and `__runInitThread` of dadisi/DistShare.cpp, and the table that they
-- fill.
--
-- A turn of a thread is one of its critical sections, or its work between them; the locks keep the
-- turns of two threads apart. An interleaving is a list of thread numbers.
pub mod Turns
pub mod Equal
use data_distribution_simula.Base.{
  ℕ, zero, suc, refl, sym, ap, subst, inl, inr, Option, none, some, List, [], map, arith, length,
  length-map, All, Has, All-map_of, All-of_Has, Bool-cases, ==_iff, ◌+◌, ◌*◌, ◌≤◌, ◌<◌, ◌≡◌, ◌⊎◌,
  ◌∷◌, ◌∙◌, ◌==◌, ◌>>=◌, >>=-eq-some, some-injective,
}
use data_distribution_simula.Disk.{Disk}
use data_distribution_simula.Dictionary.{lookup, assign, lookup-assign}
use data_distribution_simula.Word.{sub64}
use data_distribution_simula.NearestNeighbour.{NearestNeighbour, Hashes, set_disks_multi}
use data_distribution_simula.Share.{Share, new_distributor, distributor_at, set_distributors}
use data_distribution_simula.Share.Distributors.{IsMade, set_distributors-lookup}
use data_distribution_simula.Share.Intervals.{ShareDisk, multiplicity}

-- `NNInitWorkPackage`; its disks are the same in all packages
pub record WorkPackage : Type 0 where
  pub pos : ℕ
  pub multi : List (ℕ × ℕ)

-- Where a thread is: before it takes a package, with a package, with a distributor that it has not
-- stored, or at its end.
pub data Thread : Type 0 where
  taking : Thread
  working : WorkPackage → Thread
  storing : ℕ → NearestNeighbour → Thread
  terminated : Thread

-- The packages of `setDisks`.
abbrev pub work_packages : List ShareDisk → List ℕ → List WorkPackage
work_packages s_disks = map (λ b. record { pos = b; multi = multiplicity s_disks (sub64 b 1) [] })

-- The threads as they are started.
abbrev pub started : ℕ → List Thread
started zero = []
started (suc n) = taking ∷ started n

module _ (h : Hashes) (this : Share) (ds : List Disk) where
  -- One turn of a thread, unless it faults or has ended, on the packages and the distributors.
  unfoldable pub act :
      List WorkPackage
      → List (ℕ × NearestNeighbour)
      → Thread
      → Option (List WorkPackage × List (ℕ × NearestNeighbour) × Thread)
  unfolding set_disks_multi assign
  act [] table taking = some ([], table, terminated)
  act (p ∷ ps) table taking = some (ps, table, working p)
  act ps table (working p) = set_disks_multi h (new_distributor this) ds p.multi >>= λ dnn.
      some (ps, table, storing p.pos dnn)
  act ps table (storing pos dnn) = some (ps, assign pos dnn table, taking)
  act ps table terminated = none

  -- A turn of the thread with a number.
  unfoldable pub turn :
      List WorkPackage
      → List (ℕ × NearestNeighbour)
      → List Thread
      → ℕ
      → Option (List WorkPackage × List (ℕ × NearestNeighbour) × List Thread)
  unfolding act
  turn ps table [] i = none
  turn ps table (t ∷ ts) zero = act ps table t >>= λ r. some (r.0, r.1, r.2 ∷ ts)
  turn ps table (t ∷ ts) (suc i) = turn ps table ts i >>= λ r. some (r.0, r.1, t ∷ r.2)

  -- The turns of an interleaving.
  unfoldable pub interleave :
      List ℕ
      → List WorkPackage
      → List (ℕ × NearestNeighbour)
      → List Thread
      → Option (List WorkPackage × List (ℕ × NearestNeighbour) × List Thread)
  unfolding turn
  interleave [] ps table ts = some (ps, table, ts)
  interleave (i ∷ is) ps table ts = turn ps table ts i >>= λ r. interleave is r.0 r.1 r.2
