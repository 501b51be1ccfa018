-- ===== src/RfLayer/Demodulator/Snapshot/Capture.antt =====
-- What the capture of a snapshot does to the manager.
use ground_core.Common.Tests.{
  ℕ, ◌+◌, ◌-◌, ◌≤◌, ◌<◌, leb, List, none, some, ◌≡◌, refl, arith, sub_u64, u64_mod, Bool-cases, inl,
  inr, ◌⊎◌, leb→le,
}
use ground_core.Common.Ends.{length-push_at_most, back-push_at_most}
use ground_core.Common.Lists.{length}
use ground_core.RfLayer.Floats.{Floats}
use ground_core.RfLayer.Sdr.{Sample}
use ground_core.RfLayer.Demodulator.{DemodState}
use ground_core.RfLayer.Demodulator.Snapshot.{
  SnapshotManager, capture, capture_if_needed, should_snapshot, add_snapshot, latest,
}

module _ (fl : Floats) (sha256 : List ℕ → List ℕ) where
  -- The manager once it has the snapshot.
  abbrev pub captured :
      DemodState fl → Sample fl.F32 → SnapshotManager fl sha256 → SnapshotManager fl sha256
  captured s x m = record (add_snapshot fl sha256 (capture fl sha256 s x) m) {
    last_snapshot_sample = x.id;
  }

  module _ (s : DemodState fl) (x : Sample fl.F32) (m : SnapshotManager fl sha256) where
    -- A sample that is not older than the last snapshot makes a new one exactly when the interval
    -- has passed.
    pub capture_if_needed-cases :
        m.last_snapshot_sample ≤ x.id
        → x.id < u64_mod
        → ((m.last_snapshot_sample + m.snapshot_interval_samples ≤ x.id)
            × (capture_if_needed fl sha256 s x m ≡ (some (capture fl sha256 s x), captured s x m)))
          ⊎ ((x.id < m.last_snapshot_sample + m.snapshot_interval_samples)
              × (capture_if_needed fl sha256 s x m ≡ (none, m)))
    unfolding capture_if_needed should_snapshot
    capture_if_needed-cases h b =
        let d : sub_u64 x.id m.last_snapshot_sample ≡ x.id - m.last_snapshot_sample =
          omega (arith, h, b) in
        elim (Bool-cases (leb m.snapshot_interval_samples (x.id - m.last_snapshot_sample))) [
          | inl y ↦ inl (omega (arith, leb→le _ _ y, h), rw (d, y) refl)
          | inr n ↦ inr (ground (arith, n, h), rw (d, n) refl)
        ]

    pub length-captured :
        length m.snapshots ≤ m.max_snapshots → length (captured s x m).snapshots ≤ m.max_snapshots
    unfolding add_snapshot
    length-captured = length-push_at_most m.max_snapshots m.snapshots (capture fl sha256 s x)

    pub latest-captured :
        1 ≤ m.max_snapshots → latest fl sha256 (captured s x m) ≡ some (capture fl sha256 s x)
    unfolding latest add_snapshot
    latest-captured = back-push_at_most m.max_snapshots m.snapshots (capture fl sha256 s x)
