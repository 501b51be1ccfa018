-- ===== src/Federation/Spectrum.antt =====
-- federation/src/spectrum.rs: the coordination of spectrum with trusted peers. A time is a number
-- of nanoseconds; a reading of the clock is an argument, and the detection of conflicts takes
-- one for each conflict. The log lines have no counterpart.

pub mod Conflicts
use Prim.Native.String.{String}
use ground_core.Common.Tests.{
  ℕ, suc, ◌+◌, ◌-◌, ◌*◌, ◌%◌, ltb, leb, min, max, Bool, true, false, not, List, [], ◌∷◌, ◌++◌,
  Option, none, some, ◌&&◌, ◌||◌, map, if◌then◌else◌, String_discrete, u64_mod,
}
use ground_core.Common.Int.{ℤ, pos, ltb_ℤ, leb_ℤ}
use ground_core.Common.Clock.{num_seconds, nanos_per_second}
use ground_core.Common.Lists.{length}
use ground_core.Common.Maps.{Map, get, insert, modify, values}
use ground_core.Federation.Floats.{Floats}
use ground_core.Federation.Peer.{FederationPeer, is_trusted}

module _ (fl : Floats) where
  pub record CoordinationBand : Type 0 where
    pub center_hz : fl.F64
    pub bandwidth_hz : fl.F64
    pub polarization : String

  unfoldable pub s_band_downlink : CoordinationBand
  s_band_downlink = record {
    center_hz = fl.literal 2200000000 0;
    bandwidth_hz = fl.literal 20000000 0;
    polarization = "RHCP";
  }

  unfoldable pub x_band_downlink : CoordinationBand
  x_band_downlink = record {
    center_hz = fl.literal 8400000000 0;
    bandwidth_hz = fl.literal 100000000 0;
    polarization = "RHCP";
  }

  unfoldable pub s_band_uplink : CoordinationBand
  s_band_uplink = record {
    center_hz = fl.literal 2025000000 0;
    bandwidth_hz = fl.literal 10000000 0;
    polarization = "LHCP";
  }

  -- The ends of a band.
  unfoldable pub low_end : CoordinationBand → fl.F64
  low_end b = fl.minus b.center_hz (fl.over b.bandwidth_hz (fl.literal 2 0))

  unfoldable pub high_end : CoordinationBand → fl.F64
  high_end b = fl.plus b.center_hz (fl.over b.bandwidth_hz (fl.literal 2 0))

  unfoldable pub overlap_hz : CoordinationBand → CoordinationBand → fl.F64
  overlap_hz b other =
      fl.max (fl.minus (fl.min (high_end b) (high_end other)) (fl.max (low_end b) (low_end other)))
        (fl.literal 0 0)

  pub record PassScheduleEntry : Type 0 where
    pub entry_id : ℕ
    pub station_id : String
    pub satellite_norad_id : ℕ
    pub band : CoordinationBand
    pub window_start : ℕ
    pub window_end : ℕ
    pub max_eirp_dbw : Option fl.F64

  unfoldable pub duration_s : PassScheduleEntry → ℤ
  duration_s e = num_seconds e.window_end e.window_start

  unfoldable pub time_overlap : PassScheduleEntry → PassScheduleEntry → Bool
  time_overlap e other = ltb e.window_start other.window_end && ltb other.window_start e.window_end

  unfoldable pub time_overlap_s : PassScheduleEntry → PassScheduleEntry → ℤ
  time_overlap_s e other =
      if not (time_overlap e other)
      then pos 0
      else num_seconds (min e.window_end other.window_end) (max e.window_start other.window_start)

  pub record SpectrumConflict : Type 0 where
    pub our_entry : PassScheduleEntry
    pub peer_entry : PassScheduleEntry
    pub peer_id : String
    pub frequency_overlap_hz : fl.F64
    pub time_overlap_s : ℤ
    pub severity : fl.F64
    pub detected_at : ℕ

  unfoldable pub requires_coordination : SpectrumConflict → Bool
  requires_coordination c =
      fl.gt c.severity (fl.literal 3 1)
      || (fl.gt c.frequency_overlap_hz (fl.literal 0 0) && ltb_ℤ (pos 30) c.time_overlap_s)

  pub record CoordinationRequest : Type 0 where
    pub request_id : ℕ
    pub from_station : String
    pub to_station : String
    pub our_entries : List PassScheduleEntry
    pub look_ahead_hours : ℕ
    pub created_at : ℕ

  unfoldable pub new_request :
      ℕ → ℕ → String → String → List PassScheduleEntry → CoordinationRequest
  new_request id now from_station to_station entries = record {
    request_id = id;
    from_station = from_station;
    to_station = to_station;
    our_entries = entries;
    look_ahead_hours = 24;
    created_at = now;
  }

  pub record CoordinationResponse : Type 0 where
    pub request_id : ℕ
    pub from_station : String
    pub their_conflicting_entries : List PassScheduleEntry
    pub conflicts : List SpectrumConflict
    pub accepted : Bool
    pub responded_at : ℕ

  pub record PeerCoordinationState : Type 0 where
    pub peer_id : String
    pub their_schedule : List PassScheduleEntry
    pub active_conflicts : List SpectrumConflict
    pub last_exchange : Option ℕ
    pub successful_coordinations : ℕ

  unfoldable pub new_state : String → PeerCoordinationState
  new_state peer_id = record {
    peer_id = peer_id;
    their_schedule = [];
    active_conflicts = [];
    last_exchange = none;
    successful_coordinations = 0;
  }

  -- An interval in nanoseconds; a reading before the last exchange is no refresh.
  unfoldable pub needs_refresh : ℕ → ℕ → PeerCoordinationState → Bool
  needs_refresh now interval s = elim s.last_exchange [
    | none ↦ true
    | some last ↦ ltb (last + interval) now
  ]

  -- The test of a pair, and the conflict that it gives.
  unfoldable pub in_conflict : PassScheduleEntry → PassScheduleEntry → Bool
  in_conflict ours theirs =
      time_overlap ours theirs && not (fl.eq (overlap_hz ours.band theirs.band) (fl.literal 0 0))

  unfoldable pub at_least_one : ℤ → ℤ
  at_least_one d = if leb_ℤ (pos 1) d then d else pos 1

  unfoldable pub conflict_of : ℕ → String → PassScheduleEntry → PassScheduleEntry → SpectrumConflict
  conflict_of now peer_id ours theirs =
      let freq_overlap = overlap_hz ours.band theirs.band in
      let overlap_s = time_overlap_s ours theirs in
      let freq_fraction = fl.over freq_overlap ours.band.bandwidth_hz in
      let time_fraction =
        fl.over (fl.of_i64 overlap_s) (fl.of_i64 (at_least_one (duration_s ours))) in
      record {
        our_entry = ours;
        peer_entry = theirs;
        peer_id = peer_id;
        frequency_overlap_hz = freq_overlap;
        time_overlap_s = overlap_s;
        severity = fl.min (fl.times freq_fraction time_fraction) (fl.literal 1 0);
        detected_at = now;
      }

  module _ (clock : ℕ → ℕ) (peer_id : String) where
    -- The inner loop and the outer one, with the conflicts found so far.
    unfoldable pub detect_row :
        PassScheduleEntry → List PassScheduleEntry → List SpectrumConflict → List SpectrumConflict
    detect_row ours [] found = found
    detect_row ours (theirs ∷ entries) found = detect_row ours entries (
        if in_conflict ours theirs
        then found ++ (conflict_of (clock (length found)) peer_id ours theirs ∷ [])
        else found)

    unfoldable pub detect :
        List PassScheduleEntry
        → List PassScheduleEntry
        → List SpectrumConflict
        → List SpectrumConflict
    detect [] their_entries found = found
    detect (ours ∷ our_entries) their_entries found =
        detect our_entries their_entries (detect_row ours their_entries found)

    unfoldable pub detect_conflicts :
        List PassScheduleEntry → List PassScheduleEntry → List SpectrumConflict
    detect_conflicts our_entries their_entries = detect our_entries their_entries []
