-- ===== src/Oisl/Plane/Tests.antt =====
-- Tests of the federation plane, and the theorems at concrete inputs: floating-point numbers are
-- tenths.
use Prim.Native.String.{String}
use ground_core.Common.Tests.{
  ℕ, ◌+◌, ◌*◌, ltb, leb, ◌==◌, min, max, true, [], ◌∷◌, none, some, ◌≡◌, ◌⊎◌, refl, if◌then◌else◌,
  arith, String_discrete,
}
use ground_core.Common.Maps.{get, insert}
use ground_core.Oisl.Plane.State.{
  Floats, FederationPlane, ControlNode, HandoffRequest, pending, RevenueAgreement, default_policy,
}
use ground_core.Oisl.Plane.{
  Hashing, new, add_control_node, bind_satellite, complete_handoff, add_peer,
  get_satellite_control_node, handed_over,
}
use ground_core.Oisl.Plane.Chains.{start, add_node, bind, complete, IsValid, Reach-Continuous}
use ground_core.Oisl.Plane.Links.{MayLink, LinkAdded, Refused, establish_link-MayLink}

abbrev tenths : Floats
tenths = record {
  F64 = ℕ;
  literal = λ m k. if k == 0 then 10 * m else m;
  lt = ltb;
  ge = λ a b. leb b a;
  clamp = λ x low high. min high (max low x);
}

abbrev hashing : Hashing
hashing = record { sha256 = λ s. 7 ∷ []; show_time = λ t. "now" }

abbrev clock : ℕ → ℕ
clock i = 100 + i

abbrev node : String → ControlNode tenths
node id = record {
  node_id = id;
  location = record { latitude = 0; longitude = 0; altitude_m = 0 };
  control_plane_version = "1";
  certificate = record { certificate_id = "c"; public_key = []; expires_at = 0; issued_at = 0 };
  capabilities = record {
    supports_rf = true;
    supports_optical = true;
    max_control_planes = 1;
    supported_standards = [];
  };
  active_satellites = [];
  max_satellites = 0;
}

abbrev bound_plane : FederationPlane tenths
bound_plane =
    (bind_satellite tenths clock "sat" "north"
      (add_control_node tenths (node "north") (new tenths "us"))).1

-- A request for another satellite, to a node that is not known.
abbrev stray : HandoffRequest
stray = record {
  request_id = 1;
  satellite_id = "another";
  source_control_node_id = "elsewhere";
  target_control_node_id = "nowhere";
  status = pending;
  created_at = 100;
  completed_at = none;
}

abbrev moved_plane : FederationPlane tenths
moved_plane = (complete_handoff tenths clock "sat" stray bound_plane).1

-- It is completed all the same.
stray_handoff : get_satellite_control_node tenths "sat" moved_plane ≡ some "nowhere"
unfolding get_satellite_control_node complete_handoff handed_over bind_satellite add_control_node
    new get insert String_discrete
stray_handoff = refl

Reach-Continuous_example : IsValid tenths moved_plane
Reach-Continuous_example =
    Reach-Continuous tenths
      (complete (bind (add_node (start "us") (node "north")) clock "sat" "north") clock "sat" stray)

abbrev peer_plane : FederationPlane tenths
peer_plane =
    add_peer tenths
      (record {
        operator_id = "them";
        public_key = [];
        trust_score = record { score = 6 };
        visible_assets = [];
        federation_policy = default_policy;
      })
      (new tenths "us")

abbrev shares : RevenueAgreement tenths
shares = record {
  local_share_percent = 50;
  peer_share_percent = 50;
  billing_period_days = 30;
  agreement_id = "a";
}

establish_link-MayLink_example :
    (MayLink tenths hashing clock 9 "here" "there" "them" shares peer_plane
      × LinkAdded tenths hashing clock 9 "here" "there" "them" shares peer_plane)
    ⊎ ((MayLink tenths hashing clock 9 "here" "there" "them" shares peer_plane → ⊥)
        × Refused tenths hashing clock 9 "here" "there" "them" shares peer_plane)
establish_link-MayLink_example =
    establish_link-MayLink tenths hashing clock 9 "here" "there" "them" shares peer_plane
      (omega arith)
