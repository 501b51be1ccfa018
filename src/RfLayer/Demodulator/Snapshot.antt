-- ===== src/RfLayer/Demodulator/Snapshot.antt =====
-- rf-layer/src/demodulator.rs: snapshots of the demodulator and their manager. The digest is a
-- parameter, on bytes.
pub mod Capture
use ground_core.Common.Tests.{
  ℕ, zero, suc, ◌+◌, ◌-◌, ◌*◌, ◌/◌, ◌%◌, ◌^◌, ltb, leb, ◌==◌, Bool, List, [], ◌∷◌, ◌++◌, Option,
  none, some, if◌then◌else◌, sub_u64, u64_mod,
}
use ground_core.Common.Int.{ℤ, pos, negsuc, ltb_ℤ}
use ground_core.Common.Lists.{length, take}
use ground_core.Common.Ends.{pop_front, back}
use ground_core.RfLayer.Floats.{Floats}
use ground_core.RfLayer.Sdr.{Sample}
use ground_core.RfLayer.Demodulator.{DemodState}

-- `to_le_bytes` of a number of `n` bytes, and `from_le_bytes`.
unfoldable pub to_le_bytes : ℕ → ℕ → List ℕ
to_le_bytes zero x = []
to_le_bytes (suc n) x = x % 256 ∷ to_le_bytes n (x / 256)

unfoldable pub from_le_bytes : List ℕ → ℕ
from_le_bytes [] = 0
from_le_bytes (b ∷ bytes) = b + 256 * from_le_bytes bytes

-- The bits of an `i64`, as a u64.
unfoldable pub bits_i64 : ℤ → ℕ
bits_i64 (pos n) = n % u64_mod
bits_i64 (negsuc n) = u64_mod - 1 - n % u64_mod

-- `(a as i64 - b as i64).abs()`, which wraps as in a release build.
unfoldable pub abs_diff_i64 : ℕ → ℕ → ℤ
abs_diff_i64 a b =
    let d = sub_u64 a b in
    if ltb d (2 ^ 63) then pos d else if d == 2 ^ 63 then negsuc (2 ^ 63 - 1) else pos (u64_mod - d)

-- `min_by_key`, which keeps the first of equal keys.
unfoldable pub min_from {ℓ} : {A : Type ℓ} → (A → ℤ) → A → List A → A
min_from key best [] = best
min_from key best (x ∷ xs) = min_from key (if ltb_ℤ (key x) (key best) then x else best) xs

unfoldable pub min_by_key {ℓ} : {A : Type ℓ} → (A → ℤ) → List A → Option A
min_by_key key [] = none
min_by_key key (x ∷ xs) = some (min_from key x xs)

module _ (fl : Floats) (sha256 : List ℕ → List ℕ) where
  pub record DemodulatorSnapshot : Type 0 where
    pub sample_id : ℕ
    pub state : DemodState fl
    pub captured_at_reception : ℕ
    pub captured_at_event : ℕ
    pub checksum : ℕ

  -- The bytes that are fed to the digest.
  unfoldable pub checksum_bytes : DemodState fl → List ℕ
  checksum_bytes s =
      to_le_bytes 8 (fl.to_bits s.nco_phase)
      ++ (to_le_bytes 8 (bits_i64 s.frequency_offset)
          ++ ((if s.carrier_locked then 1 else 0)
              ∷ (to_le_bytes 8 s.last_sample_id
                  ++ (to_le_bytes 8 (fl.to_bits s.carrier_phase_rad)
                      ++ (to_le_bytes 8 (fl.to_bits s.carrier_freq_rad_per_sample)
                          ++ (to_le_bytes 8 (fl.to_bits s.samples_per_symbol)
                              ++ to_le_bytes 8 (fl.to_bits s.symbol_phase)))))))

  unfoldable pub compute_checksum : DemodState fl → ℕ
  compute_checksum s = from_le_bytes (take 8 (sha256 (checksum_bytes s)))

  unfoldable pub capture : DemodState fl → Sample fl.F32 → DemodulatorSnapshot
  capture s x = record {
    sample_id = x.id;
    state = s;
    captured_at_reception = x.reception_time;
    captured_at_event = x.event_time;
    checksum = compute_checksum s;
  }

  unfoldable pub verify : DemodulatorSnapshot → Bool
  verify snapshot = compute_checksum snapshot.state == snapshot.checksum

  -- A snapshot that does not verify is restored as well: the code logs that and goes on.
  unfoldable pub restore : DemodulatorSnapshot → DemodState fl
  restore snapshot = snapshot.state

  pub record SnapshotManager : Type 0 where
    pub snapshots : List DemodulatorSnapshot
    pub max_snapshots : ℕ
    pub snapshot_interval_samples : ℕ
    pub last_snapshot_sample : ℕ

  unfoldable pub new : ℕ → ℕ → SnapshotManager
  new max_snapshots interval_samples = record {
    snapshots = [];
    max_snapshots = max_snapshots;
    snapshot_interval_samples = interval_samples;
    last_snapshot_sample = 0;
  }

  unfoldable pub should_snapshot : ℕ → SnapshotManager → Bool
  should_snapshot sample_id m =
      leb m.snapshot_interval_samples (sub_u64 sample_id m.last_snapshot_sample)

  unfoldable pub add_snapshot : DemodulatorSnapshot → SnapshotManager → SnapshotManager
  add_snapshot snapshot m =
      let all = m.snapshots ++ (snapshot ∷ []) in
      record m { snapshots = if ltb m.max_snapshots (length all) then pop_front all else all }

  unfoldable pub capture_if_needed :
      DemodState fl → Sample fl.F32 → SnapshotManager → Option DemodulatorSnapshot × SnapshotManager
  capture_if_needed s x m =
      if should_snapshot x.id m
      then (
        some (capture s x),
        record (add_snapshot (capture s x) m) { last_snapshot_sample = x.id },
      )
      else (none, m)

  unfoldable pub latest : SnapshotManager → Option DemodulatorSnapshot
  latest m = back m.snapshots

  unfoldable pub find_closest : ℕ → SnapshotManager → Option DemodulatorSnapshot
  find_closest sample_id m = min_by_key (λ s. abs_diff_i64 s.sample_id sample_id) m.snapshots

  unfoldable pub snapshot_count : SnapshotManager → ℕ
  snapshot_count m = length m.snapshots
