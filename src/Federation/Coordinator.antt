-- ===== src/Federation/Coordinator.antt =====
-- federation/src/spectrum.rs: the coordinator, its peers and the messages it receives.
pub mod Registered
pub mod Answers
use Prim.Native.String.{String}
use ground_core.Common.Tests.{
  ℕ, ◌+◌, ◌*◌, ◌%◌, Bool, true, false, List, [], ◌∷◌, ◌++◌, Option, none, some, map, if◌then◌else◌,
  String_discrete, u64_mod,
}
use ground_core.Common.Clock.{nanos_per_second}
use ground_core.Common.Lists.{length}
use ground_core.Common.Maps.{Map, get, insert, modify}
use ground_core.Federation.Floats.{Floats}
use ground_core.Federation.Peer.{FederationPeer, is_trusted}
use ground_core.Federation.Spectrum.{
  PassScheduleEntry, SpectrumConflict, CoordinationRequest, new_request, CoordinationResponse,
  PeerCoordinationState, new_state, needs_refresh, detect_conflicts,
}

module _ (fl : Floats) where
  pub record SpectrumCoordinator : Type 0 where
    pub our_station_id : String
    pub peer_state : Map String (PeerCoordinationState fl)
    pub our_schedule : List (PassScheduleEntry fl)
    pub exchange_interval : ℕ

  unfoldable pub new : String → SpectrumCoordinator
  new station_id = record {
    our_station_id = station_id;
    peer_state = [];
    our_schedule = [];
    exchange_interval = 2 * 3600 * nanos_per_second;
  }

  -- `entry(id).or_insert_with(..)`.
  unfoldable pub register_peer : FederationPeer fl → SpectrumCoordinator → SpectrumCoordinator
  register_peer peer s =
      if is_trusted fl peer
      then (elim (get String_discrete peer.station_id s.peer_state) [
        | some known ↦ s
        | none ↦ record s {
          peer_state =
              insert String_discrete peer.station_id (new_state fl peer.station_id) s.peer_state;
        }
      ])
      else s

  unfoldable pub update_our_schedule :
      List (PassScheduleEntry fl) → SpectrumCoordinator → SpectrumCoordinator
  update_our_schedule entries s = record s { our_schedule = entries }

  -- The loop over the peers, with the conflicts found so far.
  unfoldable pub check_peers :
      (ℕ → ℕ)
      → List (PassScheduleEntry fl)
      → Map String (PeerCoordinationState fl)
      → List (SpectrumConflict fl)
      → List (SpectrumConflict fl)
  check_peers clock ours [] found = found
  check_peers clock ours ((peer_id, state) ∷ peers) found = check_peers clock ours peers (
      found
      ++ detect_conflicts fl (λ i. clock (length found + i)) peer_id ours state.their_schedule)

  unfoldable pub check_our_schedule : (ℕ → ℕ) → SpectrumCoordinator → List (SpectrumConflict fl)
  check_our_schedule clock s = check_peers clock s.our_schedule s.peer_state []

  -- `now` is the reading for the exchange, `responded_at` the one for the response.
  unfoldable pub receive_request :
      ℕ
      → ℕ
      → (ℕ → ℕ)
      → CoordinationRequest fl
      → FederationPeer fl
      → SpectrumCoordinator
      → CoordinationResponse fl × SpectrumCoordinator
  receive_request now responded_at clock request peer s =
      if is_trusted fl peer
      then (let conflicts =
            detect_conflicts fl clock peer.station_id s.our_schedule request.our_entries in
          (
            record {
              request_id = request.request_id;
              from_station = s.our_station_id;
              their_conflicting_entries = map (λ c. c.our_entry) conflicts;
              conflicts = conflicts;
              accepted = true;
              responded_at = responded_at;
            },
            record s {
              peer_state =
                  modify String_discrete peer.station_id
                    (λ state. record state {
                      their_schedule = request.our_entries;
                      last_exchange = some now;
                    })
                    s.peer_state;
            },
          ))
      else (
        record {
          request_id = request.request_id;
          from_station = s.our_station_id;
          their_conflicting_entries = [];
          conflicts = [];
          accepted = false;
          responded_at = responded_at;
        },
        s,
      )

  unfoldable pub receive_response :
      ℕ → CoordinationResponse fl → SpectrumCoordinator → SpectrumCoordinator
  receive_response now response s = record s {
    peer_state =
        modify String_discrete response.from_station
          (λ state. record state {
            active_conflicts = response.conflicts;
            last_exchange = some now;
            successful_coordinations =
                if response.accepted
                then (state.successful_coordinations + 1) % u64_mod
                else state.successful_coordinations;
          })
          s.peer_state;
  }

  unfoldable pub build_request :
      ℕ → ℕ → String → SpectrumCoordinator → Option (CoordinationRequest fl)
  build_request id now peer_id s = elim (get String_discrete peer_id s.peer_state) [
    | none ↦ none
    | some state ↦ some (new_request fl id now s.our_station_id peer_id s.our_schedule)
  ]

  -- `now` stands for the readings of the clock.
  unfoldable pub peers_needing_refresh : ℕ → SpectrumCoordinator → List String
  peers_needing_refresh now s = stale s.peer_state
    where
      stale : Map String (PeerCoordinationState fl) → List String
      stale [] = []
      stale ((id, state) ∷ peers) =
          let rest = stale peers in
          if needs_refresh fl now s.exchange_interval state then id ∷ rest else rest

  unfoldable pub active_of : Map String (PeerCoordinationState fl) → List (SpectrumConflict fl)
  active_of [] = []
  active_of ((id, state) ∷ peers) = state.active_conflicts ++ active_of peers

  unfoldable pub active_conflicts : SpectrumCoordinator → List (SpectrumConflict fl)
  active_conflicts s = active_of s.peer_state

  unfoldable pub peer_count : SpectrumCoordinator → ℕ
  peer_count s = length s.peer_state
