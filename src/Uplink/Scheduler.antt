-- ===== src/Uplink/Scheduler.antt =====
-- uplink/src/scheduler.rs: transmission windows and the schedule of transmissions. Floating-point
-- numbers enter as a record of the type and of the one operation whose result decides anything.
-- The locked maps are the fields of a record; a method runs without another one in between.
-- `schedule` is what a call does that does not panic, its sums of times being unbounded;
-- `call_schedule` adds the panics, for any test of the range of chrono's times and durations. A call
-- that panics has stored nothing.
pub mod Overlap
pub mod Histories
use Prim.Native.String.{String}
use ground_core.Common.Tests.{
  ℕ, ◌+◌, Bool, true, false, not, ◌&&◌, ◌||◌, List, [], ◌∷◌, Option, none, some, ite, ltb, leb,
  ◌==◌, if◌then◌else◌, ℕ_discrete, String_discrete,
}
use ground_core.Common.Lists.{length, any, filter}
use ground_core.Common.Int.{ℤ, pos_part, neg_part, sub_ℕ}
use ground_core.Common.Result.{Result, ok, err, ◌>>=◌}
use ground_core.Common.Maps.{Map, get, insert, remove, values}
use ground_core.Uplink.Command.{Command, CommandPriority, emergency, high, normal, low}

-- `f64`; `estimate_ns n r` is `Duration::milliseconds(((n as f64 / r) * 1000.0) as i64)`.
pub record Floats : Type 1 where
  pub Float : Type 0
  pub zero_float : Float
  pub estimate_ns : ℕ → Float → ℤ

pub data ConflictStrategy : Type 0 where
  priority fcfs reject : ConflictStrategy

-- `GroundStationError::Validation` with one of its texts.
pub data ScheduleError : Type 0 where
  no_window lower_priority first_come rejected : ScheduleError

-- The discriminants, by which the derived order goes.
abbrev pub rank : CommandPriority → ℕ
rank emergency = 3
rank high = 2
rank normal = 1
rank low = 0

module _ (F : Floats) where
  open F use {Float, zero_float, estimate_ns}

  pub record TransmissionWindow : Type 0 where
    pub pass_id : String
    pub start : ℕ
    pub stop : ℕ
    pub max_rate : Float
    pub power_budget : Float

  pub record ScheduledTransmission : Type 0 where
    pub command_id : ℕ
    pub window : TransmissionWindow
    pub transmission_time : ℕ
    pub estimated_duration : ℤ
    pub doppler_compensation : Float

  pub record TransmissionScheduler : Type 0 where
    pub windows : Map String TransmissionWindow
    pub scheduled : Map ℕ ScheduledTransmission
    pub pending : List Command
    pub conflict_strategy : ConflictStrategy

  unfoldable pub new : ConflictStrategy → TransmissionScheduler
  new conflict_strategy = record {
    windows = [];
    scheduled = [];
    pending = [];
    conflict_strategy = conflict_strategy;
  }

  unfoldable pub contains_time : TransmissionWindow → ℕ → Bool
  contains_time w time = leb w.start time && leb time w.stop

  unfoldable pub duration : TransmissionWindow → ℤ
  duration w = sub_ℕ w.stop w.start

  unfoldable pub time_until_start : TransmissionWindow → ℕ → Option ℤ
  time_until_start w now = if ltb now w.start then some (sub_ℕ w.start now) else none

  unfoldable pub add_window : TransmissionWindow → TransmissionScheduler → TransmissionScheduler
  add_window w s = record s { windows = insert String_discrete w.pass_id w s.windows }

  unfoldable pub remove_window : String → TransmissionScheduler → TransmissionScheduler
  remove_window pass_id s = record s { windows = remove String_discrete pass_id s.windows }

  unfoldable pub active_windows : ℕ → TransmissionScheduler → List TransmissionWindow
  active_windows now s = filter (λ w. contains_time w now) (values s.windows)

  abbrev pub is_some : Option ℤ → Bool
  is_some none = false
  is_some (some _) = true

  -- `now` is read once by `schedule`, and once more for each window that is looked at.
  unfoldable pub is_suitable : ℕ → (String → ℕ) → TransmissionWindow → Bool
  unfolding contains_time time_until_start
  is_suitable now clock w = contains_time w now || is_some (time_until_start w (clock w.pass_id))

  unfoldable pub find_window :
      ℕ → (String → ℕ) → List TransmissionWindow → Option TransmissionWindow
  find_window now clock [] = none
  find_window now clock (w ∷ ws) =
      let rest = find_window now clock ws in if is_suitable now clock w then some w else rest

  -- The transmission that `schedule` plans in a window.
  unfoldable pub planned : ℕ → Command → TransmissionWindow → ScheduledTransmission
  planned now command w = record {
    command_id = command.id;
    window = w;
    transmission_time = if contains_time w now then now else w.start;
    estimated_duration = estimate_ns (length command.payload) w.max_rate;
    doppler_compensation = zero_float;
  }

  -- `a.transmission_time < b.transmission_time + b.estimated_duration`.
  unfoldable pub starts_before_end_of : ScheduledTransmission → ScheduledTransmission → Bool
  starts_before_end_of a b =
      ltb (a.transmission_time + neg_part b.estimated_duration)
        (b.transmission_time + pos_part b.estimated_duration)

  unfoldable pub overlaps : ScheduledTransmission → ScheduledTransmission → Bool
  unfolding starts_before_end_of
  overlaps a b = starts_before_end_of a b && starts_before_end_of b a

  unfoldable pub has_conflict : ScheduledTransmission → TransmissionScheduler → Bool
  has_conflict t s = any (λ existing. overlaps t existing) (values s.scheduled)

  -- `pending.iter().find(|c| c.id == id)`.
  unfoldable pub find_command : ℕ → List Command → Option Command
  find_command id [] = none
  find_command id (c ∷ cs) = let rest = find_command id cs in if c.id == id then some c else rest

  abbrev pub blocks : Command → Option Command → Bool
  blocks command none = false
  blocks command (some existing) = leb (rank command.priority) (rank existing.priority)

  unfoldable pub can_override : Command → TransmissionScheduler → Bool
  unfolding find_command
  can_override command s = elim (get ℕ_discrete command.id s.scheduled) [
    | some _ ↦ false
    | none ↦ not (
        any (λ existing. blocks command (find_command existing.command_id s.pending))
          (values s.scheduled))
  ]

  -- The match on the conflict strategy.
  unfoldable pub resolve :
      ConflictStrategy → Command → TransmissionScheduler → Result ScheduleError (Unit {0})
  resolve priority command s = if not (can_override command s) then err lower_priority else ok tt
  resolve fcfs command s = err first_come
  resolve reject command s = err rejected

  unfoldable pub schedule :
      ℕ
      → (String → ℕ)
      → Command
      → TransmissionScheduler
      → Result ScheduleError ScheduledTransmission × TransmissionScheduler
  schedule now clock command s = elim (find_window now clock (values s.windows)) [
    | none ↦ (err no_window, s)
    | some w ↦
        let t = planned now command w in
        let stored = record s { scheduled = insert ℕ_discrete command.id t s.scheduled } in
        if has_conflict t s
        then (elim (resolve s.conflict_strategy command s) [
          | err e ↦ (err e, s)
          | ok _ ↦ (ok t, stored)
        ])
        else (ok t, stored)
  ]

  -- Does a sum of a time and a duration that `has_conflict` forms leave the range of times, so that
  -- the call panics? Both are formed in the code's order, as far as the loop and its test get.
  unfoldable pub overflows :
      (ℕ → ℤ → Bool) → ScheduledTransmission → List ScheduledTransmission → Bool
  overflows fits t [] = false
  overflows fits t (existing ∷ ts) =
      let rest = overflows fits t ts in
      if not (fits existing.transmission_time existing.estimated_duration)
      then true
      else (if not (starts_before_end_of t existing)
          then rest
          else (if not (fits t.transmission_time t.estimated_duration)
              then true
              else (if starts_before_end_of existing t then false else rest)))

  -- Does `schedule` panic? `Duration::milliseconds` does for a number that is no duration.
  unfoldable pub panics :
      (ℕ → ℤ → Bool)
      → (ℕ → Float → Bool)
      → ℕ
      → (String → ℕ)
      → Command
      → TransmissionScheduler
      → Bool
  panics fits is_duration now clock command s = elim (find_window now clock (values s.windows)) [
    | none ↦ false
    | some w ↦
        not (is_duration (length command.payload) w.max_rate)
        || overflows fits (planned now command w) (values s.scheduled)
  ]

  -- The call of `schedule` with its panics.
  unfoldable pub call_schedule :
      (ℕ → ℤ → Bool)
      → (ℕ → Float → Bool)
      → ℕ
      → (String → ℕ)
      → Command
      → TransmissionScheduler
      → Option (Result ScheduleError ScheduledTransmission × TransmissionScheduler)
  call_schedule fits is_duration now clock command s =
      if panics fits is_duration now clock command s
      then none
      else some (schedule now clock command s)

  unfoldable pub remove_scheduled : ℕ → TransmissionScheduler → TransmissionScheduler
  remove_scheduled id s = record s { scheduled = remove ℕ_discrete id s.scheduled }

  unfoldable pub all_scheduled : TransmissionScheduler → List ScheduledTransmission
  all_scheduled s = values s.scheduled

  unfoldable pub get_window : String → TransmissionScheduler → Option TransmissionWindow
  get_window pass_id s = get String_discrete pass_id s.windows

  unfoldable pub get_scheduled : ℕ → TransmissionScheduler → Option ScheduledTransmission
  get_scheduled id s = get ℕ_discrete id s.scheduled
