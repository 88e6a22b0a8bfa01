-- ===== src/Share/Placement.antt =====
-- `placeExtent` of dadisi/DistShare.cpp, where each copy has a distributor of its own.
use data_distribution_simula.Base.{
  ℕ, refl, false, some, List, [], arith, length, ◌+◌, ◌%◌, ◌^◌, ◌≤◌, ◌<◌, ◌≡◌, ◌∷◌, ◌∙◌,
}
use data_distribution_simula.Disk.{Disk}
use data_distribution_simula.NearestNeighbour.{NearestNeighbour, Hashes, placed}
use data_distribution_simula.NearestNeighbour.Distinct.{
  fresh, IsNearest, place_extent-IsNearest, place_from-IsNearest, fresh-one,
}
use data_distribution_simula.NearestNeighbour.Keys.{Answers}
use data_distribution_simula.Share.{Share, Probes, front, distributor_of, probe_disk, place_extent}

-- Every position below 2 ^ 64 has a distributor, which places one copy and in which every hash has a
-- disk.
abbrev pub Hosts : Share → Type 0
Hosts this =
    (pos : ℕ)
    → pos < 2 ^ 64
    → (dnn : NearestNeighbour) × (distributor_of this pos ≡ some dnn)
      × (dnn.copies ≡ 1)
      × Answers dnn

front-one : (result : List Disk) → length result ≡ 1 → (d : Disk) × (front (placed result) ≡ some d)
front-one [] h = absurd (omega arith)
front-one (d ∷ ds) h = (d, refl)

module _ (h : Hashes) (probes : Probes) (this : Share) (volume position : ℕ) (hosts : Hosts this)
    (share_lt : (i : ℕ) → probes.of_share volume position i < 2 ^ 64)
    (copy_lt : (pos i : ℕ) → h.of_copy volume pos i < 2 ^ 64) where
  pub probe_disk-eq-some :
      (i : ℕ) → (d : Disk) × (probe_disk h probes this volume position i ≡ some d)
  unfolding probe_disk
  probe_disk-eq-some i =
      let (dnn, at, one, answers) = hosts (probes.of_share volume position i) (share_lt i) in
      let pos = probes.of_nn volume position ((i + 1) % 2 ^ 64) in
      let (result, run, is) =
        place_extent-IsNearest h dnn volume pos 1 2 answers (copy_lt pos) (omega arith)
          (omega arith) (omega (arith, one, fresh-one _)) in
      let (d, first) = front-one result (is.enough ∙ one) in (d, rw (at, run) first)

  -- The disk that each round of the loop meets.
  abbrev pub disk_of : ℕ → Disk
  disk_of i = (probe_disk-eq-some i).0

  -- Where every position below 2 ^ 64 has a distributor for one copy that answers every hash, the
  -- hashes are below 2 ^ 64, each copy is placed by a distributor of its own, `k` is below 2 ^ 63 and the
  -- first `k` rounds meet at least as many different ids as there are copies, more than `k` rounds are
  -- enough for `placeExtent`: it gives exactly `copies` disks, the first with different ids that its
  -- rounds meet.
  pub place_extent-IsNearest_of_probes :
      (k fuel : ℕ)
      → this.copies_by_nn ≡ false
      → k < 2 ^ 63
      → k < fuel
      → this.copies ≤ length (fresh disk_of k 0 [])
      → (result : List Disk) × (place_extent h probes this fuel volume position ≡ placed result)
        × IsNearest disk_of this.copies k result
  unfolding place_extent
  place_extent-IsNearest_of_probes k fuel separate small enough many =
      let (result, run, is) =
        place_from-IsNearest (probe_disk h probes this volume position) disk_of this.copies k fuel
          (λ i. (probe_disk-eq-some i).1) small enough many in
      (result, rw separate run, is)
