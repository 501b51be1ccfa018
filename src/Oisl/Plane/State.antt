-- ===== src/Oisl/Plane/State.antt =====
-- oisl/src/federation/mod.rs: the data of the federation plane. `f64` is a record of what the code
-- uses; identifiers are strings, those of links and requests numbers; a reading of the clock is a
-- number of nanoseconds.
use Prim.Native.String.{String}
use ground_core.Common.Tests.{ℕ, Bool, true, List, [], ◌∷◌, ◌++◌, Option}
use ground_core.Common.Maps.{Map}
use ground_core.Bitemporal.Timestamp.{BiTemporal}

-- `m / 10^k` for `literal m k`, `<`, and `clamp` with the value first.
pub record Floats : Type 1 where
  pub F64 : Type 0
  pub literal : ℕ → ℕ → F64
  pub lt : F64 → F64 → Bool
  pub ge : F64 → F64 → Bool
  pub clamp : F64 → F64 → F64 → F64

pub record FederationPolicy : Type 0 where
  pub allows_cross_operator_links : Bool
  pub requires_attestation : Bool
  pub max_concurrent_links : ℕ
  pub data_residency_requirements : List String

unfoldable pub allows_links : FederationPolicy → Bool
allows_links p = p.allows_cross_operator_links

unfoldable pub default_policy : FederationPolicy
default_policy = record {
  allows_cross_operator_links = true;
  requires_attestation = true;
  max_concurrent_links = 10;
  data_residency_requirements = [];
}

pub record ProvenanceHop : Type 0 where
  pub operator_id : String
  pub satellite_id : String
  pub timestamp : ℕ
  pub data_hash : String

pub record ProvenanceChain : Type 0 where
  pub hops : List ProvenanceHop

unfoldable pub new_chain : ProvenanceChain
new_chain = record { hops = [] }

unfoldable pub add_hop : ProvenanceHop → ProvenanceChain → ProvenanceChain
add_hop hop c = record c { hops = c.hops ++ (hop ∷ []) }

pub record AttestationRecord : Type 0 where
  pub operator_id : String
  pub attested_at : ℕ
  pub expires_at : ℕ
  pub attestation_hash : List ℕ

pub record AttestationEngine : Type 0 where
  pub attestation_cache : Map String AttestationRecord

pub record ControlPlaneCertificate : Type 0 where
  pub certificate_id : String
  pub public_key : List ℕ
  pub expires_at : ℕ
  pub issued_at : ℕ

pub record ControlNodeCapabilities : Type 0 where
  pub supports_rf : Bool
  pub supports_optical : Bool
  pub max_control_planes : ℕ
  pub supported_standards : List String

pub data ControlPlaneBindingState : Type 0 where
  bound : ControlPlaneBindingState
  binding : ControlPlaneBindingState
  releasing : ControlPlaneBindingState
  released : ControlPlaneBindingState

pub data HandoffStatus : Type 0 where
  pending : HandoffStatus
  processing : HandoffStatus
  finished : HandoffStatus
  failed : HandoffStatus

pub record HandoffRequest : Type 0 where
  pub request_id : ℕ
  pub satellite_id : String
  pub source_control_node_id : String
  pub target_control_node_id : String
  pub status : HandoffStatus
  pub created_at : ℕ
  pub completed_at : Option ℕ

pub record HandoverRecord : Type 0 where
  pub from_node : String
  pub to_node : String
  pub handover_at : BiTemporal ℕ
  pub duration_ms : Option ℕ

pub record ControlPlaneBinding : Type 0 where
  pub satellite_id : String
  pub control_node_id : String
  pub state : ControlPlaneBindingState
  pub bound_at : BiTemporal ℕ
  pub handover_history : List HandoverRecord

module _ (fl : Floats) where
  pub record TrustScore : Type 0 where
    pub score : fl.F64

  unfoldable pub new_trust : fl.F64 → TrustScore
  new_trust score = record { score = fl.clamp score (fl.literal 0 0) (fl.literal 1 0) }

  unfoldable pub is_high : TrustScore → Bool
  is_high t = fl.ge t.score (fl.literal 8 1)

  unfoldable pub is_low : TrustScore → Bool
  is_low t = fl.lt t.score (fl.literal 5 1)

  pub record RevenueAgreement : Type 0 where
    pub local_share_percent : fl.F64
    pub peer_share_percent : fl.F64
    pub billing_period_days : ℕ
    pub agreement_id : String

  pub record FederationPeer : Type 0 where
    pub operator_id : String
    pub public_key : List ℕ
    pub trust_score : TrustScore
    pub visible_assets : List String
    pub federation_policy : FederationPolicy

  pub record CrossOperatorLink : Type 0 where
    pub local_terminal : String
    pub peer_terminal : String
    pub peer_operator : String
    pub revenue_sharing : RevenueAgreement
    pub data_provenance : ProvenanceChain

  pub record GeographicLocation : Type 0 where
    pub latitude : fl.F64
    pub longitude : fl.F64
    pub altitude_m : fl.F64

  pub record ControlNode : Type 0 where
    pub node_id : String
    pub location : GeographicLocation
    pub control_plane_version : String
    pub certificate : ControlPlaneCertificate
    pub capabilities : ControlNodeCapabilities
    pub active_satellites : List String
    pub max_satellites : ℕ

  pub record FederationPlane : Type 0 where
    pub local_operator : String
    pub federation_peers : Map String FederationPeer
    pub cross_operator_links : List CrossOperatorLink
    pub attestation_engine : AttestationEngine
    pub control_nodes : Map String ControlNode
    pub satellite_bindings : Map String ControlPlaneBinding

  pub data FederationError : Type 0 where
    peer_not_found : String → FederationError
    insufficient_trust : String → fl.F64 → FederationError
    policy_violation : String → String → FederationError
    attestation_failed : String → FederationError
    link_establishment_failed : String → FederationError
    control_node_not_found : String → FederationError
    satellite_not_bound : String → FederationError
    handoff_failed : String → FederationError
