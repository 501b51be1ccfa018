-- ===== src/RfLayer/Shadow.antt =====
-- rf-layer/src/shadow.rs: the acquisition of a pass with a shadow SDR. The
-- locks are taken and given back within a method; the Doppler schedule is of any type, and so are
-- the samples of the pass shard.
pub mod Failover
use Prim.Native.String.{String}
use ground_core.Common.Tests.{
  ℕ, ◌+◌, ◌%◌, Bool, true, false, ◌&&◌, ◌||◌, not, List, [], ◌∷◌, ◌++◌, Option, none, some,
  if◌then◌else◌, String_discrete, u64_mod,
}
use ground_core.Common.Int.{ℤ, pos, ltb_ℤ}
use ground_core.Common.Lists.{length}
use ground_core.Common.Maps.{Map, get, insert, remove}
use ground_core.Common.Result.{Result, ok, err}
use ground_core.Hardware.Shard
use ground_core.Hardware.Shard.{PassShard}
use ground_core.RfLayer.Floats.{Floats}
use ground_core.RfLayer.Sdr.{Sample, SdrHandle, RfError, no_shadow_available}
use ground_core.RfLayer.Demodulator
use ground_core.RfLayer.Demodulator.{DemodState, process_sample}
use ground_core.RfLayer.Demodulator.Snapshot
use ground_core.RfLayer.Demodulator.Snapshot.{
  DemodulatorSnapshot, SnapshotManager, capture_if_needed, latest, restore, snapshot_count,
  abs_diff_i64, bits_i64,
}

-- `is_some`.
abbrev pub is_some {ℓ} : {A : Type ℓ} → Option A → Bool
is_some none = false
is_some (some x) = true

-- `!=` of two flags.
abbrev pub differ : Bool → Bool → Bool
differ true b = not b
differ false b = b

module _ (fl : Floats) (sha256 : List ℕ → List ℕ) (Doppler A : Type 0) where
  pub record PassAcquisition : Type 0 where
    pub primary : SdrHandle
    pub shadow : Option SdrHandle
    pub primary_state : DemodState fl
    pub shadow_state : DemodState fl
    pub last_committed_sample : ℕ
    pub pass_id : String
    pub shadow_active : Bool
    pub snapshot_manager : SnapshotManager fl sha256
    pub doppler_schedule : Doppler
    pub shard : PassShard A
    pub shadow_last_sample_counter : ℕ  -- u64
    pub primary_last_sample_counter : ℕ  -- u64
    pub last_health_check : ℕ

  -- `now` is the time of creation of the shard.
  unfoldable pub new : ℕ → String → SdrHandle → Option SdrHandle → Doppler → PassAcquisition
  new now pass_id primary shadow doppler_schedule = record {
    primary = primary;
    shadow = shadow;
    primary_state = Demodulator.new fl;
    shadow_state = Demodulator.new fl;
    last_committed_sample = 0;
    pass_id = pass_id;
    shadow_active = is_some shadow;
    snapshot_manager = Snapshot.new fl sha256 100 50;
    doppler_schedule = doppler_schedule;
    shard = Shard.new_shard now pass_id;
    shadow_last_sample_counter = 0;
    primary_last_sample_counter = 0;
    last_health_check = 0;
  }

  unfoldable pub process_primary_sample :
      Sample fl.F32 → PassAcquisition → Option ℕ × PassAcquisition
  process_primary_sample x a =
      let (captured, manager) = capture_if_needed fl sha256 a.primary_state x a.snapshot_manager in
      let (result, state) = process_sample fl x a.primary_state in
      (
        result,
        record a {
          snapshot_manager = manager;
          primary_state = state;
          last_committed_sample = x.id;
          primary_last_sample_counter = (a.primary_last_sample_counter + 1) % u64_mod;
          shadow_state = if a.shadow_active then state else a.shadow_state;
        },
      )

  -- The state that a promotion leaves in the demodulator.
  unfoldable pub restored : PassAcquisition → DemodState fl
  restored a = elim (latest fl sha256 a.snapshot_manager) [
    | none ↦ a.primary_state
    | some snapshot ↦ restore fl sha256 snapshot
  ]

  unfoldable pub promote_shadow : PassAcquisition → Result RfError (Unit {0}) × PassAcquisition
  promote_shadow a = elim a.shadow [
    | none ↦ (err no_shadow_available, a)
    | some handle ↦ (
      ok tt,
      record a {
        shadow = none;
        primary = handle;
        primary_state = restored a;
        shadow_active = false;
      },
    )
  ]

  unfoldable pub reset_shard : PassAcquisition → PassAcquisition
  reset_shard a = record a { shard = Shard.reset a.shard }

  -- The three comparisons of the demodulator states.
  unfoldable pub in_step : DemodState fl → DemodState fl → Bool
  in_step p s =
      not (fl.ltb_f64 (fl.literal 1 2) (fl.abs (fl.minus p.nco_phase s.nco_phase)))
      && (not (
            ltb_ℤ (pos 100)
              (abs_diff_i64 (bits_i64 p.frequency_offset) (bits_i64 s.frequency_offset)))
          && not (differ p.carrier_locked s.carrier_locked))

  -- `now` is the time in seconds.
  unfoldable pub shadow_healthy : ℕ → PassAcquisition → Bool × PassAcquisition
  shadow_healthy now a = if not a.shadow_active then (false, a) else (
    not (ltb_ℤ (pos 1000) (abs_diff_i64 a.primary_last_sample_counter a.shadow_last_sample_counter))
        && in_step a.primary_state a.shadow_state,
    record a { last_health_check = now },
  )

  unfoldable pub update_shadow_sample_counter : ℕ → PassAcquisition → PassAcquisition
  update_shadow_sample_counter count a = record a { shadow_last_sample_counter = count }

  pub record FailoverStatus : Type 0 where
    pub shadow_available : Bool
    pub shadow_active : Bool
    pub shadow_healthy : Bool
    pub last_snapshot_sample : Option ℕ
    pub snapshot_count : ℕ

  unfoldable pub failover_status : ℕ → PassAcquisition → FailoverStatus × PassAcquisition
  failover_status now a =
      let (healthy, a') = shadow_healthy now a in
      (
        record {
          shadow_available = is_some a.shadow;
          shadow_active = a.shadow_active;
          shadow_healthy = healthy;
          last_snapshot_sample = elim (latest fl sha256 a.snapshot_manager) [
            | none ↦ none
            | some s ↦ some s.sample_id
          ];
          snapshot_count = snapshot_count fl sha256 a.snapshot_manager;
        },
        a',
      )
