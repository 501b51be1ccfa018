-- ===== src/Federation/Tests.antt =====
-- Tests of the federation of stations, and the theorems at concrete inputs: floating-point numbers
-- are tenths.
use Prim.Native.String.{String}
use ground_core.Common.Tests.{
  ℕ, ◌+◌, ◌-◌, ◌*◌, ◌/◌, ltb, leb, ◌==◌, min, max, Bool, true, false, List, [], ◌∷◌, none, some,
  ◌≡◌, refl, map, if◌then◌else◌, String_discrete,
}
use ground_core.Common.Int.{pos_part}
use ground_core.Common.Lists.{any}
use ground_core.Common.Maps.{get}
use ground_core.Federation.Floats.{Floats}
use ground_core.Federation.Challenge.{new_schedule}
use ground_core.Federation.Peer.{
  FederationPeer, AttestationRecord, trusted, new_peer, add_attestation, retrust, is_trusted,
}
use ground_core.Federation.Peer.History.{
  Event, attests, adjusts, added, attested, retrusted, Reflects, Received-Reflects,
}
use ground_core.Federation.Spectrum.{PassScheduleEntry, CoordinationRequest, PeerCoordinationState}
use ground_core.Federation.Spectrum.Conflicts.{Entry, crossing, pair_of}
use ground_core.Federation.Coordinator.{
  SpectrumCoordinator, new, register_peer, update_our_schedule, receive_request, check_our_schedule,
}
use ground_core.Federation.Coordinator.Registered.{
  start, register, request, IsValid, LeavesAlone, Reach-TrustedOnce,
}
use ground_core.Federation.Coordinator.Answers.{receive_request-check_our_schedule}

abbrev tenths : Floats
tenths = record {
  F64 = ℕ;
  literal = λ m k. if k == 0 then 10 * m else m;
  ge = λ a b. leb b a;
  gt = λ a b. ltb b a;
  eq = λ a b. a == b;
  plus = λ a b. a + b;
  minus = λ a b. a - b;
  times = λ a b. a * b / 10;
  over = λ a b. 10 * a / b;
  min = λ a b. min a b;
  max = λ a b. max a b;
  of_i64 = λ d. 10 * pos_part d;
}

abbrev attestation : AttestationRecord tenths
attestation = record {
  pass_id = "pass";
  received_at = 5;
  verification = record {
    passed = true;
    match_rate = 10;
    bitemporal_consistency = true;
    details = "";
  };
}

-- An adjustment between two attestations.
abbrev received : List (Event tenths)
received = attests attestation ∷ adjusts false 3 ∷ attests attestation ∷ []

abbrev attested_peer : FederationPeer tenths
attested_peer =
    add_attestation tenths 8 attestation
      (retrust tenths false 3 (add_attestation tenths 6 attestation (new_peer tenths 5 "b" "key")))

Received-Reflects_example : Reflects tenths received attested_peer
Received-Reflects_example =
    Received-Reflects tenths refl received attested_peer
      (attested (retrusted (attested (added 5 "b" "key") 6 attestation) false 3) 8 attestation)

abbrev a_peer : FederationPeer tenths
a_peer = record {
  station_id = "b";
  public_key = "key";
  attestation_history = [];
  challenge_schedule = new_schedule tenths;
  trust_score = 9;
  status = trusted;
  added_at = 0;
  last_verification = none;
  total_attestations = 3;
}

abbrev entry : String → ℕ → ℕ → PassScheduleEntry tenths
entry station from to = record {
  entry_id = 1;
  station_id = station;
  satellite_norad_id = 7;
  band = record { center_hz = 1000; bandwidth_hz = 20; polarization = "RHCP" };
  window_start = from;
  window_end = to;
  max_eirp_dbw = none;
}

abbrev coordinator : SpectrumCoordinator tenths
coordinator =
    register_peer tenths a_peer (update_our_schedule tenths (entry "a" 0 10 ∷ []) (new tenths "a"))

abbrev a_request : CoordinationRequest tenths
a_request = record {
  request_id = 3;
  from_station = "b";
  to_station = "a";
  our_entries = entry "b" 5 15 ∷ entry "b" 10 20 ∷ [];
  look_ahead_hours = 24;
  created_at = 1;
}

-- A coordinator that knows one peer and has a request of it.
abbrev requested : SpectrumCoordinator tenths
requested =
    (receive_request tenths 5 6 (λ i. i) a_request a_peer
      (register_peer tenths a_peer (new tenths "a"))).1

Reach-TrustedOnce_example :
    IsValid tenths (a_peer ∷ []) requested × LeavesAlone tenths (a_peer ∷ []) requested
Reach-TrustedOnce_example =
    Reach-TrustedOnce tenths (a_peer ∷ []) requested
      (request (register (start "a") a_peer) 5 6 (λ i. i) a_request a_peer)

receive_request-check_our_schedule_example :
    (is_trusted tenths a_peer ≡ true
      → ((receive_request tenths 5 6 (λ i. i) a_request a_peer coordinator).0.accepted ≡ true)
        × (map
              (pair_of tenths)
              (receive_request tenths 5 6 (λ i. i) a_request a_peer coordinator).0.conflicts
            ≡ crossing tenths coordinator.our_schedule a_request.our_entries)
        × ((state : PeerCoordinationState tenths)
            → get String_discrete "b" coordinator.peer_state ≡ some state
            → (test : Entry tenths × Entry tenths → Bool)
            → any test (
                map
                  (pair_of tenths)
                  (receive_request tenths 5 6 (λ i. i) a_request a_peer coordinator).0.conflicts)
              ≡ true
            → any test (
                map (pair_of tenths) (
                  check_our_schedule tenths
                    (λ i. i + 9)
                    (receive_request tenths 5 6 (λ i. i) a_request a_peer coordinator).1))
              ≡ true))
    × (is_trusted tenths a_peer ≡ false
        → ((receive_request tenths 5 6 (λ i. i) a_request a_peer coordinator).0.accepted ≡ false)
          × ((receive_request tenths 5 6 (λ i. i) a_request a_peer coordinator).0.conflicts ≡ [])
          × ((receive_request tenths 5 6 (λ i. i) a_request a_peer coordinator).1 ≡ coordinator))
receive_request-check_our_schedule_example =
    receive_request-check_our_schedule tenths 5 6 (λ i. i) (λ i. i + 9) a_request a_peer coordinator
