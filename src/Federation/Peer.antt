-- ===== src/Federation/Peer.antt =====
-- federation/src/peer.rs: peers, their trust score and their attestations, and the manager of
-- peers. The manager's key, its signatures and `hex` are not in the model.
pub mod History
use Prim.Native.String.{String}
use ground_core.Common.Tests.{
  ℕ, ◌+◌, ◌%◌, leb, Bool, true, false, not, List, [], ◌∷◌, ◌++◌, Option, none, some, ◌&&◌, u64_mod,
  if◌then◌else◌, String_discrete,
}
use ground_core.Common.Lists.{length, count, filter}
use ground_core.Common.Ends.{pop_front, back}
use ground_core.Common.Maps.{Map, get, insert, remove, modify, values}
use ground_core.Federation.Floats.{Floats}
use ground_core.Federation.Challenge.{ChallengeSchedule, new_schedule}

abbrev pub max_attestation_history : ℕ
max_attestation_history = 200

pub data PeerStatus : Type 0 where
  trusted : PeerStatus
  untrusted : PeerStatus
  suspicious : PeerStatus
  blacklisted : PeerStatus

unfoldable pub status_is_trusted : PeerStatus → Bool
status_is_trusted trusted = true
status_is_trusted untrusted = false
status_is_trusted suspicious = false
status_is_trusted blacklisted = false

module _ (fl : Floats) where
  pub record VerificationResult : Type 0 where
    pub passed : Bool
    pub match_rate : fl.F64
    pub bitemporal_consistency : Bool
    pub details : String

  pub record AttestationRecord : Type 0 where
    pub pass_id : String
    pub received_at : ℕ
    pub verification : VerificationResult

  pub record PeerTrustScore : Type 0 where
    pub score : fl.F64
    pub successes : ℕ
    pub failures : ℕ
    pub total : ℕ

  unfoldable pub new_trust : PeerTrustScore
  new_trust = record { score = fl.literal 5 1; successes = 0; failures = 0; total = 0 }

  unfoldable pub update : Bool → fl.F64 → PeerTrustScore → PeerTrustScore
  update true match_rate t = record t {
    total = (t.total + 1) % u64_mod;
    successes = (t.successes + 1) % u64_mod;
    score = fl.min (fl.plus t.score (fl.times (fl.literal 1 1) match_rate)) (fl.literal 1 0);
  }
  update false match_rate t = record t {
    total = (t.total + 1) % u64_mod;
    failures = (t.failures + 1) % u64_mod;
    score = fl.max (fl.minus t.score (fl.literal 2 1)) (fl.literal 0 0);
  }

  unfoldable pub status_of : fl.F64 → PeerStatus
  status_of score =
      if fl.ge score (fl.literal 8 1)
      then trusted
      else if fl.ge score (fl.literal 5 1)
      then untrusted
      else if fl.ge score (fl.literal 2 1)
      then suspicious
      else blacklisted

  unfoldable pub status : PeerTrustScore → PeerStatus
  status t = status_of t.score

  pub record FederationPeer : Type 0 where
    pub station_id : String
    pub public_key : String
    pub attestation_history : List AttestationRecord
    pub challenge_schedule : ChallengeSchedule fl
    pub trust_score : fl.F64
    pub status : PeerStatus
    pub added_at : ℕ
    pub last_verification : Option ℕ
    pub total_attestations : ℕ

  unfoldable pub new_peer : ℕ → String → String → FederationPeer
  new_peer now station_id public_key = record {
    station_id = station_id;
    public_key = public_key;
    attestation_history = [];
    challenge_schedule = new_schedule fl;
    trust_score = fl.literal 5 1;
    status = untrusted;
    added_at = now;
    last_verification = none;
    total_attestations = 0;
  }

  -- The trust that the peer's score and records make, after one more verification.
  unfoldable pub trust_after : Bool → fl.F64 → FederationPeer → PeerTrustScore
  trust_after passed match_rate p = update passed match_rate (record {
    score = p.trust_score;
    successes = count (λ r. r.verification.passed) p.attestation_history % u64_mod;
    failures = count (λ r. not r.verification.passed) p.attestation_history % u64_mod;
    total = p.total_attestations;
  })

  unfoldable pub set_trust : PeerTrustScore → FederationPeer → FederationPeer
  set_trust t p = record p { trust_score = t.score; status = status t }

  -- The peer with the record in its bounded history, before its trust changes.
  unfoldable pub record_attestation : ℕ → AttestationRecord → FederationPeer → FederationPeer
  record_attestation now r p = record p {
    attestation_history =
        (if leb max_attestation_history (length p.attestation_history)
          then pop_front p.attestation_history
          else p.attestation_history)
        ++ (r ∷ []);
    total_attestations = (p.total_attestations + 1) % u64_mod;
    last_verification = some now;
  }

  unfoldable pub add_attestation : ℕ → AttestationRecord → FederationPeer → FederationPeer
  add_attestation now r p =
      let q = record_attestation now r p in
      elim (back q.attestation_history) [
        | none ↦ q
        | some latest ↦
            set_trust (trust_after latest.verification.passed latest.verification.match_rate q) q
      ]

  -- What `PeerManager::update_trust` does to the peer.
  unfoldable pub retrust : Bool → fl.F64 → FederationPeer → FederationPeer
  retrust passed match_rate p = set_trust (trust_after passed match_rate p) p

  unfoldable pub is_trusted : FederationPeer → Bool
  is_trusted p = status_is_trusted p.status

  unfoldable pub can_skip_verification : FederationPeer → Bool
  can_skip_verification p = is_trusted p && leb 5 (length p.attestation_history)

  pub record PeerManager : Type 0 where
    pub peers : Map String FederationPeer

  unfoldable pub add_peer : FederationPeer → PeerManager → PeerManager
  add_peer p m = record m { peers = insert String_discrete p.station_id p m.peers }

  unfoldable pub get_peer : String → PeerManager → Option FederationPeer
  get_peer peer_id m = get String_discrete peer_id m.peers

  unfoldable pub all_peers : PeerManager → List FederationPeer
  all_peers m = values m.peers

  unfoldable pub trusted_peers : PeerManager → List FederationPeer
  trusted_peers m = filter is_trusted (values m.peers)

  unfoldable pub remove_peer : String → PeerManager → PeerManager
  remove_peer peer_id m = record m { peers = remove String_discrete peer_id m.peers }

  unfoldable pub update_trust : String → Bool → fl.F64 → PeerManager → PeerManager
  update_trust peer_id passed match_rate m = record m {
    peers = modify String_discrete peer_id (retrust passed match_rate) m.peers;
  }
