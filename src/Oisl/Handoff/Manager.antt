-- ===== src/Oisl/Handoff/Manager.antt =====
-- oisl/src/federation/control_plane_handoff.rs: the manager of the handoffs. `clock i` is reading i
-- of the clock within one call, from 0.
use Prim.Native.String.{String}
use ground_core.Common.Tests.{
  ℕ, ◌+◌, Bool, true, false, List, [], ◌∷◌, ◌++◌, Option, none, some, ite, if◌then◌else◌, not, ◌&&◌,
  String_discrete,
}
use ground_core.Common.Lists.{any, filter}
use ground_core.Common.Result.{Result, ok, err}
use ground_core.Bitemporal.Timestamp.{BiTemporal}
use ground_core.Oisl.Handoff.State.{
  HandoffStep, is_last, initiated, processing, complete, failed, satellite_initiated, error,
  HandoffMetrics, ControlPlaneHandoff, new_handoff, transition_to, update_metrics, is_in_progress,
  is_complete,
}
use ground_core.Bitemporal.Timestamp as Timestamp

pub data HandoffError : Type 0 where
  handoff_already_in_progress : String → HandoffError
  handoff_not_found : String → HandoffError
  invalid_handoff_state : String → HandoffError
  step_failed : String → HandoffError
  configuration_sync_failed : String → HandoffError
  channel_establishment_failed : String → HandoffError

-- The three readings of `BiTemporal::new(Utc::now(), Utc::now().into(), Utc::now().into())`.
unfoldable pub stamp : (ℕ → ℕ) → ℕ → BiTemporal ℕ
stamp clock i = Timestamp.new (clock i) (clock (i + 1)) (clock (i + 2))

abbrev pub HandoffManager : Type 0
HandoffManager = List ControlPlaneHandoff

unfoldable pub is_for : String → ControlPlaneHandoff → Bool
is_for satellite_id h = ite (String_discrete h.satellite_id satellite_id) true false

-- `iter().find(test)`.
unfoldable pub find : (ControlPlaneHandoff → Bool) → HandoffManager → Option ControlPlaneHandoff
find test [] = none
find test (h ∷ hs) = if test h then some h else find test hs

-- A write through `iter_mut().find(test)`.
unfoldable pub on_first :
    (ControlPlaneHandoff → Bool)
    → (ControlPlaneHandoff → ControlPlaneHandoff)
    → HandoffManager
    → HandoffManager
on_first test f [] = []
on_first test f (h ∷ hs) = let rest = on_first test f hs in if test h then f h ∷ hs else h ∷ rest

-- The test of `initiate_handoff` on a handoff.
unfoldable pub is_busy : String → ControlPlaneHandoff → Bool
is_busy satellite_id h = is_for satellite_id h && is_in_progress h

-- The handoff that `initiate_handoff` adds.
unfoldable pub begin : (ℕ → ℕ) → String → String → String → ControlPlaneHandoff
begin clock satellite_id source_node target_node =
    transition_to (clock 4) (initiated (stamp clock 1)) satellite_initiated
      (new_handoff (clock 0) satellite_id source_node target_node)

unfoldable pub initiate_handoff :
    (ℕ → ℕ)
    → String
    → String
    → String
    → HandoffManager
    → Result HandoffError ControlPlaneHandoff × HandoffManager
initiate_handoff clock satellite_id source_node target_node hs =
    let h = begin clock satellite_id source_node target_node in
    if any (is_busy satellite_id) hs
    then (err (handoff_already_in_progress satellite_id), hs)
    else (ok h, hs ++ (h ∷ []))

-- The write of `advance_handoff`.
unfoldable pub advance : (ℕ → ℕ) → HandoffStep → ControlPlaneHandoff → ControlPlaneHandoff
advance clock next_step h =
    let h' = transition_to (clock 3) (processing next_step (stamp clock 0)) satellite_initiated h in
    if is_last next_step
    then transition_to (clock 7) (complete (stamp clock 4)) satellite_initiated h'
    else h'

unfoldable pub advance_handoff :
    (ℕ → ℕ)
    → String
    → HandoffStep
    → HandoffManager
    → Result HandoffError (Unit {0}) × HandoffManager
advance_handoff clock satellite_id next_step hs = elim (find (is_for satellite_id) hs) [
  | none ↦ (err (handoff_not_found satellite_id), hs)
  | some h ↦
      if is_in_progress h
      then (ok tt, on_first (is_for satellite_id) (advance clock next_step) hs)
      else (err (invalid_handoff_state satellite_id), hs)
]

-- A method that writes to the handoff that it finds.
unfoldable pub on_handoff :
    (ControlPlaneHandoff → ControlPlaneHandoff)
    → String
    → HandoffManager
    → Result HandoffError (Unit {0}) × HandoffManager
on_handoff f satellite_id hs = elim (find (is_for satellite_id) hs) [
  | none ↦ (err (handoff_not_found satellite_id), hs)
  | some h ↦ (ok tt, on_first (is_for satellite_id) f hs)
]

-- The write of `complete_handoff`.
unfoldable pub finish : (ℕ → ℕ) → HandoffMetrics → ControlPlaneHandoff → ControlPlaneHandoff
finish clock metrics h =
    transition_to (clock 3) (complete (stamp clock 0)) satellite_initiated
      (update_metrics metrics h)

unfoldable pub complete_handoff :
    (ℕ → ℕ)
    → String
    → HandoffMetrics
    → HandoffManager
    → Result HandoffError (Unit {0}) × HandoffManager
complete_handoff clock satellite_id metrics = on_handoff (finish clock metrics) satellite_id

-- The write of `fail_handoff`.
unfoldable pub break_off : (ℕ → ℕ) → String → ControlPlaneHandoff → ControlPlaneHandoff
break_off clock reason = transition_to (clock 3) (failed reason (stamp clock 0)) (error reason)

unfoldable pub fail_handoff :
    (ℕ → ℕ) → String → String → HandoffManager → Result HandoffError (Unit {0}) × HandoffManager
fail_handoff clock satellite_id reason = on_handoff (break_off clock reason) satellite_id

unfoldable pub get_handoff : String → HandoffManager → Option ControlPlaneHandoff
get_handoff satellite_id hs = find (is_for satellite_id) hs

unfoldable pub cleanup_completed : HandoffManager → HandoffManager
cleanup_completed hs = filter (λ h. not (is_complete h)) hs
