-- ===== src/Oisl/Plane.antt =====
-- oisl/src/federation/mod.rs: the operations of the federation plane. Each takes its readings of
-- the clock as a function from their position in the call; a new identifier is an argument.
pub mod State
pub mod Chains
pub mod Links
mod Tests
use Prim.Native.String.{String}
use ground_core.Common.Tests.{
  ℕ, ◌+◌, ◌-◌, ◌/◌, ◌%◌, ◌*◌, u64_mod, ltb, leb, Bool, true, false, not, List, [], ◌∷◌, ◌++◌,
  Option, none, some, if◌then◌else◌, String_discrete,
}
use mathlib.Core.Option
use ground_core.Common.Maps.{Map, get, insert}
use ground_core.Common.Result.{Result, ok, err}
use ground_core.Common.Clock.{nanos_per_second}
use ground_core.Common.Text.{text_append}
use ground_core.Bitemporal.Timestamp.{BiTemporal, new as new_bi_temporal}
use ground_core.Oisl.Plane.State.{
  Floats, FederationPolicy, allows_links, ProvenanceChain, new_chain, AttestationRecord,
  AttestationEngine, ControlPlaneBinding, bound, binding, HandoffRequest, pending, HandoverRecord,
  RevenueAgreement, FederationPeer, CrossOperatorLink, ControlNode, FederationPlane,
  FederationError, peer_not_found, insufficient_trust, policy_violation, control_node_not_found,
  satellite_not_bound,
}

-- `BiTemporal::new(Utc::now(), Utc::now().into(), Utc::now().into())`.
unfoldable pub stamp : ℕ → ℕ → ℕ → BiTemporal ℕ
stamp value event_time reception_time = new_bi_temporal value event_time reception_time

-- `(later - earlier).num_milliseconds() as u64`: a negative number wraps around.
unfoldable pub millis_u64 : ℕ → ℕ → ℕ
millis_u64 later earlier =
    if leb earlier later
    then (later - earlier) / 1000000
    else (u64_mod - (earlier - later) / 1000000) % u64_mod

-- `sha2`, and the printing of a time.
pub record Hashing : Type 0 where
  pub sha256 : String → List ℕ
  pub show_time : ℕ → String

unfoldable pub is_valid : ℕ → AttestationRecord → Bool
is_valid now r = ltb now r.expires_at

unfoldable pub new_engine : AttestationEngine
new_engine = record { attestation_cache = [] }

-- The cached record, if it is valid at the first reading.
unfoldable pub cached : ℕ → String → AttestationEngine → Option AttestationRecord
cached now operator_id e = elim (get String_discrete operator_id e.attestation_cache) [
  | none ↦ none
  | some r ↦ if is_valid now r then some r else none
]

module _ (h : Hashing) where
  unfoldable pub new_attestation : (ℕ → ℕ) → String → AttestationRecord
  new_attestation clock operator_id = record {
    operator_id = operator_id;
    attested_at = clock 2;
    expires_at = clock 3 + 24 * 3600 * nanos_per_second;
    attestation_hash = h.sha256 (
        text_append operator_id
          (text_append ":" (text_append (h.show_time (clock 1)) ":attestation")));
  }

  -- It never fails.
  unfoldable pub attest_peer :
      (ℕ → ℕ) → String → AttestationEngine → AttestationRecord × AttestationEngine
  attest_peer clock operator_id e = elim (cached (clock 0) operator_id e) [
    | some r ↦ (r, e)
    | none ↦
        let r = new_attestation clock operator_id in
        (r, record { attestation_cache = insert String_discrete operator_id r e.attestation_cache })
  ]

unfoldable pub verify_attestation : ℕ → String → AttestationEngine → Bool
verify_attestation now operator_id e = elim (get String_discrete operator_id e.attestation_cache) [
  | none ↦ false
  | some r ↦ is_valid now r
]

module _ (fl : Floats) where
  unfoldable pub new : String → FederationPlane fl
  new local_operator = record {
    local_operator = local_operator;
    federation_peers = [];
    cross_operator_links = [];
    attestation_engine = new_engine;
    control_nodes = [];
    satellite_bindings = [];
  }

  unfoldable pub add_control_node : ControlNode fl → FederationPlane fl → FederationPlane fl
  add_control_node node s = record s {
    control_nodes = insert String_discrete node.node_id node s.control_nodes;
  }

  unfoldable pub bind_satellite :
      (ℕ → ℕ)
      → String
      → String
      → FederationPlane fl
      → Result (FederationError fl) (Unit {0}) × FederationPlane fl
  bind_satellite clock satellite_id control_node_id s =
      elim (get String_discrete control_node_id s.control_nodes) [
        | none ↦ (err (control_node_not_found control_node_id), s)
        | some node ↦ (
          ok tt,
          record s {
            satellite_bindings =
                insert String_discrete satellite_id
                  (record {
                    satellite_id = satellite_id;
                    control_node_id = control_node_id;
                    state = bound;
                    bound_at = stamp (clock 0) (clock 1) (clock 2);
                    handover_history = [];
                  })
                  s.satellite_bindings;
          },
        )
      ]

  -- The request that a binding gives rise to.
  unfoldable pub new_request : ℕ → ℕ → String → String → ControlPlaneBinding → HandoffRequest
  new_request request_id now satellite_id target b = record {
    request_id = request_id;
    satellite_id = satellite_id;
    source_control_node_id = b.control_node_id;
    target_control_node_id = target;
    status = pending;
    created_at = now;
    completed_at = none;
  }

  unfoldable pub initiate_handoff :
      ℕ
      → ℕ
      → String
      → String
      → FederationPlane fl
      → Result (FederationError fl) HandoffRequest × FederationPlane fl
  initiate_handoff request_id now satellite_id target s =
      elim (get String_discrete target s.control_nodes) [
        | none ↦ (err (control_node_not_found target), s)
        | some node ↦ elim (get String_discrete satellite_id s.satellite_bindings) [
          | none ↦ (err (satellite_not_bound satellite_id), s)
          | some b ↦ (
            ok (new_request request_id now satellite_id target b),
            record s {
              satellite_bindings =
                  insert String_discrete satellite_id (record b { state = binding })
                    s.satellite_bindings;
            },
          )
        ]
      ]

  -- The binding after the handoff.
  unfoldable pub handed_over : (ℕ → ℕ) → HandoffRequest → ControlPlaneBinding → ControlPlaneBinding
  handed_over clock request b = record b {
    control_node_id = request.target_control_node_id;
    state = bound;
    bound_at = stamp (clock 3) (clock 4) (clock 5);
    handover_history =
        b.handover_history
        ++ (record {
          from_node = b.control_node_id;
          to_node = request.target_control_node_id;
          handover_at = stamp (clock 0) (clock 1) (clock 2);
          duration_ms = Option.map (λ t. millis_u64 t request.created_at) request.completed_at;
        }
            ∷ []);
  }

  unfoldable pub complete_handoff :
      (ℕ → ℕ)
      → String
      → HandoffRequest
      → FederationPlane fl
      → Result (FederationError fl) (Unit {0}) × FederationPlane fl
  complete_handoff clock satellite_id request s =
      elim (get String_discrete satellite_id s.satellite_bindings) [
        | none ↦ (err (satellite_not_bound satellite_id), s)
        | some b ↦ (
          ok tt,
          record s {
            satellite_bindings =
                insert String_discrete satellite_id (handed_over clock request b)
                  s.satellite_bindings;
          },
        )
      ]

  unfoldable pub get_satellite_control_node : String → FederationPlane fl → Option String
  get_satellite_control_node satellite_id s =
      Option.map (λ b. b.control_node_id) (get String_discrete satellite_id s.satellite_bindings)

  unfoldable pub add_peer : FederationPeer fl → FederationPlane fl → FederationPlane fl
  add_peer peer s = record s {
    federation_peers = insert String_discrete peer.operator_id peer s.federation_peers;
  }

  unfoldable pub establish_link :
      Hashing
      → (ℕ → ℕ)
      → ℕ
      → String
      → String
      → String
      → RevenueAgreement fl
      → FederationPlane fl
      → Result (FederationError fl) ℕ × FederationPlane fl
  establish_link h clock link_id local_terminal peer_terminal peer_operator agreement s =
      elim (get String_discrete peer_operator s.federation_peers) [
        | none ↦ (err (peer_not_found peer_operator), s)
        | some peer ↦
            if fl.lt peer.trust_score.score (fl.literal 5 1)
            then (err (insufficient_trust peer_operator peer.trust_score.score), s)
            else if not (allows_links peer.federation_policy)
            then (
              err (
                  policy_violation peer_operator "Peer policy does not allow cross-operator links"),
              s,
            )
            else (
              ok link_id,
              record s {
                attestation_engine = (attest_peer h clock peer_operator s.attestation_engine).1;
                cross_operator_links =
                    s.cross_operator_links
                    ++ (record {
                      local_terminal = local_terminal;
                      peer_terminal = peer_terminal;
                      peer_operator = peer_operator;
                      revenue_sharing = agreement;
                      data_provenance = new_chain;
                    }
                        ∷ []);
              },
            )
      ]

  unfoldable pub get_peer : String → FederationPlane fl → Option (FederationPeer fl)
  get_peer operator_id s = get String_discrete operator_id s.federation_peers
