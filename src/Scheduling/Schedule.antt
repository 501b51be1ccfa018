-- ===== src/Scheduling/Schedule.antt =====
-- scheduler/src/schedule.rs: a schedule of passes, its queries, conflicts and statistics; and the
-- keyhole warning of scheduler/src/keyhole.rs. Identifiers are strings, times are readings of the
-- clock, `f64` is a parameter.
pub mod Pairs
pub mod Buckets
pub mod Devices
pub mod Members
pub mod Reference
pub mod Conflicts
use Prim.Native.String.{String}
use ground_core.Common.Tests.{
  ℕ, suc, ltb, leb, ◌==◌, Bool, true, false, List, [], ◌∷◌, ◌++◌, Option, none, some, ◌&&◌,
  if◌then◌else◌, String_discrete, ite, map,
}
use ground_core.Common.Lists.{length, get_elem?, filter, any, contains}
use ground_core.Common.Maps.{Map, values}
use ground_core.Common.Index.{push_id}
use ground_core.Common.Partial.{◌>>=◌}

pub record PassWindow : Type 0 where
  pub start : ℕ
  pub end : ℕ
  pub min_duration_sec : ℕ

pub record HardwareRequirements : Type 0 where
  pub frequency_band : String
  pub min_sample_rate : ℕ
  pub require_shadow : Bool
  pub antenna_type : Option String

pub data Priority : Type 0 where
  low : Priority
  normal : Priority
  high : Priority
  critical : Priority

pub data SlaTier : Type 0 where
  best_effort : SlaTier
  standard : SlaTier
  premium : SlaTier
  mission_critical : SlaTier

unfoldable pub requires_shadow : SlaTier → Bool
requires_shadow best_effort = false
requires_shadow standard = false
requires_shadow premium = true
requires_shadow mission_critical = true

pub record PassRequest : Type 0 where
  pub request_id : String
  pub customer_id : String
  pub satellite_id : String
  pub window : PassWindow
  pub hardware_requirements : HardwareRequirements
  pub priority : Priority
  pub sla_tier : SlaTier
  pub submitted_at : ℕ

pub record HardwareAllocation : Type 0 where
  pub sdr_devices : List String
  pub shadow_sdr : Option String
  pub antenna_id : String
  pub rotator_id : String

pub data PassStatus : Type 0 where
  scheduled : PassStatus
  preparing : PassStatus
  in_progress : PassStatus
  completed : PassStatus
  failed : PassStatus
  cancelled : PassStatus

pub data ConflictType : Type 0 where
  hardware_overlap : ConflictType
  time_overlap : ConflictType
  frequency_conflict : ConflictType

pub record ScheduleConflict : Type 0 where
  pub pass1_id : String
  pub pass2_id : String
  pub conflict_type : ConflictType

unfoldable pub windows_overlap : PassWindow → PassWindow → Bool
windows_overlap w1 w2 = ltb w1.start w2.end && ltb w2.start w1.end

-- The loop over the devices of a pass, and `if let Some(shadow)`.
unfoldable pub index_devices : List String → ℕ → Map String (List ℕ) → Map String (List ℕ)
index_devices [] idx m = m
index_devices (device ∷ devices) idx m =
    index_devices devices idx (push_id String_discrete device idx m)

unfoldable pub index_shadow : Option String → ℕ → Map String (List ℕ) → Map String (List ℕ)
index_shadow none idx m = m
index_shadow (some shadow) idx m = push_id String_discrete shadow idx m

-- One step of the loop that builds the index.
unfoldable pub index_pass : HardwareAllocation → ℕ → Map String (List ℕ) → Map String (List ℕ)
index_pass a idx m =
    let with_sdrs = index_devices a.sdr_devices idx m in
    let with_shadow = index_shadow a.shadow_sdr idx with_sdrs in
    let with_antenna = push_id String_discrete a.antenna_id idx with_shadow in
    push_id String_discrete a.rotator_id idx with_antenna

-- `hardware_conflicts`.
unfoldable pub hardware_conflicts : HardwareAllocation → HardwareAllocation → Bool
hardware_conflicts a1 a2 =
    if any (contains String_discrete a2.sdr_devices) a1.sdr_devices
    then true
    else if shadow_equal a1.shadow_sdr a2.shadow_sdr
    then true
    else if ite (String_discrete a1.antenna_id a2.antenna_id) true false
    then true
    else ite (String_discrete a1.rotator_id a2.rotator_id) true false
  where
    shadow_equal : Option String → Option String → Bool
    shadow_equal none o = false
    shadow_equal (some s1) none = false
    shadow_equal (some s1) (some s2) = ite (String_discrete s1 s2) true false

-- The pairs that were looked at, the last one first, and the conflicts found.
pub record Scan : Type 0 where
  pub seen : List (ℕ × ℕ)
  pub conflicts : List ScheduleConflict

abbrev pub is_seen : ℕ → ℕ → List (ℕ × ℕ) → Bool
is_seen a b pairs = any (λ p. (p.0 == a) && (p.1 == b)) pairs

-- Collecting into a set of strings.
unfoldable pub collect : List String → List String
collect [] = []
collect (x ∷ xs) =
    let rest = collect xs in if contains String_discrete rest x then rest else x ∷ rest

-- `==` of statuses, and one more in the count of a status.
unfoldable pub status_code : PassStatus → ℕ
status_code scheduled = 0
status_code preparing = 1
status_code in_progress = 2
status_code completed = 3
status_code failed = 4
status_code cancelled = 5

unfoldable pub bump : PassStatus → Map PassStatus ℕ → Map PassStatus ℕ
bump status [] = (status, 1) ∷ []
bump status ((other, n) ∷ acc) =
    let rest = bump status acc in
    if status_code other == status_code status then (other, suc n) ∷ acc else (other, n) ∷ rest

pub record ScheduleStats : Type 0 where
  pub total_passes : ℕ
  pub unique_customers : ℕ
  pub unique_satellites : ℕ
  pub status_counts : Map PassStatus ℕ
  pub conflicts : ℕ

module _ (F64 : Type 0) where
  pub record KeyholeWarning : Type 0 where
    pub estimated_loss_s : ℕ
    pub handoff_scheduled : Bool
    pub max_elevation_deg : F64
    pub loss_fraction : F64

  pub record ScheduledPass : Type 0 where
    pub pass_id : String
    pub request_id : String
    pub customer_id : String
    pub satellite_id : String
    pub scheduled_window : PassWindow
    pub hardware_allocation : HardwareAllocation
    pub scheduled_at : ℕ
    pub status : PassStatus
    pub keyhole_warning : Option KeyholeWarning

  pub record Schedule : Type 0 where
    pub passes : List ScheduledPass
    pub generated_at : ℕ
    pub horizon : ℕ × ℕ
    pub version : ℕ

  -- `now` is the reading of the clock.
  unfoldable pub new : ℕ → ℕ → ℕ → Schedule
  new now horizon_start horizon_end = record {
    passes = [];
    generated_at = now;
    horizon = (horizon_start, horizon_end);
    version = 0;
  }

  unfoldable pub add_pass : ScheduledPass → Schedule → Schedule
  add_pass pass s = record s { passes = s.passes ++ (pass ∷ []) }

  unfoldable pub get_customer_passes : String → Schedule → List ScheduledPass
  get_customer_passes customer_id s =
      filter (λ p. ite (String_discrete p.customer_id customer_id) true false) s.passes

  unfoldable pub get_satellite_passes : String → Schedule → List ScheduledPass
  get_satellite_passes satellite_id s =
      filter (λ p. ite (String_discrete p.satellite_id satellite_id) true false) s.passes

  unfoldable pub get_passes_in_range : ℕ → ℕ → Schedule → List ScheduledPass
  get_passes_in_range start end s =
      filter (λ p. leb start p.scheduled_window.start && leb p.scheduled_window.end end) s.passes

  -- The loop that builds the index, from the number of the first pass.
  unfoldable pub index_passes : ℕ → List ScheduledPass → Map String (List ℕ) → Map String (List ℕ)
  index_passes idx [] m = m
  index_passes idx (pass ∷ passes) m =
      index_passes (suc idx) passes (index_pass pass.hardware_allocation idx m)

  -- The conflict of two passes, if their windows overlap.
  unfoldable pub overlap : ScheduledPass → ScheduledPass → List ScheduleConflict
  overlap pass1 pass2 =
      if windows_overlap pass1.scheduled_window pass2.scheduled_window
      then record {
        pass1_id = pass1.pass_id;
        pass2_id = pass2.pass_id;
        conflict_type = hardware_overlap;
      }
        ∷ []
      else []

  module _ (passes : List ScheduledPass) where
    -- The body of the loops: an index out of range panics.
    unfoldable pub check_pair : ℕ → ℕ → Scan → Option Scan
    check_pair a b s =
        let key : ℕ × ℕ = if ltb a b then (a, b) else (b, a) in
        if is_seen key.0 key.1 s.seen then some s else (do
          pass1 ← get_elem? passes a
          pass2 ← get_elem? passes b
          some (record { seen = key ∷ s.seen; conflicts = s.conflicts ++ overlap pass1 pass2 }))

    -- The loops over `j`, over `i` and over the values of the index.
    unfoldable pub check_row : ℕ → List ℕ → Scan → Option Scan
    check_row a [] s = some s
    check_row a (b ∷ bs) s = do t ← check_pair a b s; check_row a bs t

    unfoldable pub check_bucket : List ℕ → Scan → Option Scan
    check_bucket [] s = some s
    check_bucket (a ∷ as_later) s = do t ← check_row a as_later s; check_bucket as_later t

    unfoldable pub check_buckets : List (List ℕ) → Scan → Option Scan
    check_buckets [] s = some s
    check_buckets (bucket ∷ buckets) s = do t ← check_bucket bucket s; check_buckets buckets t

  unfoldable pub check_conflicts : Schedule → Option (List ScheduleConflict)
  check_conflicts s = do
    scan ←
        check_buckets s.passes (values (index_passes 0 s.passes []))
          (record { seen = []; conflicts = [] })
    some scan.conflicts

  -- The fold over the passes: `entry(pass.status).or_insert(0) += 1`.
  unfoldable pub count_status : List ScheduledPass → Map PassStatus ℕ → Map PassStatus ℕ
  count_status [] acc = acc
  count_status (pass ∷ passes) acc = count_status passes (bump pass.status acc)

  unfoldable pub stats : Schedule → Option ScheduleStats
  stats s = do
    conflicts ← check_conflicts s
    some (record {
      total_passes = length s.passes;
      unique_customers = length (collect (map (λ p. p.customer_id) s.passes));
      unique_satellites = length (collect (map (λ p. p.satellite_id) s.passes));
      status_counts = count_status s.passes [];
      conflicts = length conflicts;
    })
