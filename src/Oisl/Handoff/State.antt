-- ===== src/Oisl/Handoff/State.antt =====
-- oisl/src/federation/control_plane_handoff.rs: the state machine of one handoff.
use Prim.Native.String.{String}
use ground_core.Common.Tests.{ℕ, Bool, true, false, List, [], ◌∷◌, ◌++◌}
use ground_core.Bitemporal.Timestamp.{BiTemporal}
use ground_core.Bitemporal.Timestamp as Timestamp

pub data HandoffStep : Type 0 where
  request_submitted : HandoffStep
  source_releasing : HandoffStep
  configuration_synced : HandoffStep
  target_persisted : HandoffStep
  configuration_loaded : HandoffStep
  channel_established : HandoffStep
  target_bound : HandoffStep
  clientset_switched : HandoffStep
  source_released : HandoffStep
  handoff_complete : HandoffStep

-- `step == HandoffStep::HandoffComplete`.
unfoldable pub is_last : HandoffStep → Bool
is_last handoff_complete = true
is_last _ = false

pub data HandoffState : Type 0 where
  idle : HandoffState
  initiated : (initiated_at : BiTemporal ℕ) → HandoffState
  processing : (step : HandoffStep) → (started_at : BiTemporal ℕ) → HandoffState
  complete : (completed_at : BiTemporal ℕ) → HandoffState
  failed : (reason : String) → (failed_at : BiTemporal ℕ) → HandoffState

pub data HandoffTrigger : Type 0 where
  satellite_initiated : HandoffTrigger
  geometry_change : HandoffTrigger
  control_node_degradation : HandoffTrigger
  manual_command : HandoffTrigger
  timeout : HandoffTrigger
  error : String → HandoffTrigger

pub record HandoffStateTransition : Type 0 where
  pub from_state : HandoffState
  pub to_state : HandoffState
  pub transition_time : BiTemporal ℕ
  pub trigger : HandoffTrigger

pub record HandoffMetrics : Type 0 where
  pub total_duration_ms : ℕ
  pub configuration_sync_duration_ms : ℕ
  pub channel_establishment_duration_ms : ℕ
  pub clientset_switch_duration_ms : ℕ
  pub bytes_transferred : ℕ
  pub last_updated : ℕ

unfoldable pub default_metrics : ℕ → HandoffMetrics
default_metrics now = record {
  total_duration_ms = 0;
  configuration_sync_duration_ms = 0;
  channel_establishment_duration_ms = 0;
  clientset_switch_duration_ms = 0;
  bytes_transferred = 0;
  last_updated = now;
}

pub record ControlPlaneHandoff : Type 0 where
  pub satellite_id : String
  pub source_node : String
  pub target_node : String
  pub state : HandoffState
  pub state_history : List HandoffStateTransition
  pub handoff_metrics : HandoffMetrics

unfoldable pub new_handoff : ℕ → String → String → String → ControlPlaneHandoff
new_handoff now satellite_id source_node target_node = record {
  satellite_id = satellite_id;
  source_node = source_node;
  target_node = target_node;
  state = idle;
  state_history = [];
  handoff_metrics = default_metrics now;
}

unfoldable pub transition_to :
    ℕ → HandoffState → HandoffTrigger → ControlPlaneHandoff → ControlPlaneHandoff
transition_to now new_state trigger h = record h {
  state = new_state;
  state_history =
      h.state_history
      ++ (record {
        from_state = h.state;
        to_state = new_state;
        transition_time = Timestamp.new now now now;
        trigger = trigger;
      }
          ∷ []);
}

unfoldable pub update_metrics : HandoffMetrics → ControlPlaneHandoff → ControlPlaneHandoff
update_metrics metrics h = record h { handoff_metrics = metrics }

unfoldable pub state_in_progress : HandoffState → Bool
state_in_progress (initiated _) = true
state_in_progress (processing _ _) = true
state_in_progress _ = false

unfoldable pub is_in_progress : ControlPlaneHandoff → Bool
is_in_progress h = state_in_progress h.state

unfoldable pub state_complete : HandoffState → Bool
state_complete (complete _) = true
state_complete _ = false

unfoldable pub is_complete : ControlPlaneHandoff → Bool
is_complete h = state_complete h.state

unfoldable pub state_failed : HandoffState → Bool
state_failed (failed _ _) = true
state_failed _ = false

unfoldable pub is_failed : ControlPlaneHandoff → Bool
is_failed h = state_failed h.state
