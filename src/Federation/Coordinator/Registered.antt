-- ===== src/Federation/Coordinator/Registered.antt =====
-- The stations whose schedules a coordinator keeps.
use Prim.Native.String.{String}
use ground_core.Common.Tests.{
  ℕ, true, false, List, [], ◌∷◌, none, ◌≡◌, ◌≢◌, ◌⊎◌, ap, arith, inl, inr, refl, Option-cases,
  Bool-cases, String_discrete, subst, sym,
}
use ground_core.Common.Maps.{Map, get, insert, modify, get-modify}
use ground_core.Common.Values.{Every, Every-empty, insert-Every, modify-Every}
use ground_core.Federation.Floats.{Floats}
use ground_core.Federation.Peer.{FederationPeer, is_trusted}
use ground_core.Federation.Spectrum.{
  PassScheduleEntry, CoordinationRequest, CoordinationResponse, PeerCoordinationState, new_state,
}
use ground_core.Federation.Coordinator.{
  SpectrumCoordinator, new, register_peer, update_our_schedule, receive_request, receive_response,
}

module _ (fl : Floats) where
  -- A peer with this station was registered while it was trusted.
  abbrev pub TrustedOnce : String → List (FederationPeer fl) → Type 0
  TrustedOnce station [] = ⊥
  TrustedOnce station (p ∷ ps) =
      ((p.station_id ≡ station) × (is_trusted fl p ≡ true)) ⊎ TrustedOnce station ps

  -- A coordinator, and the peers registered with it, the latest first.
  pub data Reach : List (FederationPeer fl) → SpectrumCoordinator fl → Type 0 where
    start : (station : String) → Reach [] (new fl station)
    register :
        {ps : _} {s : _}
        → Reach ps s
        → (p : FederationPeer fl) → Reach (p ∷ ps) (register_peer fl p s)
    schedule :
        {ps : _} {s : _}
        → Reach ps s
        → (entries : List (PassScheduleEntry fl)) → Reach ps (update_our_schedule fl entries s)
    request :
        {ps : _} {s : _}
        → Reach ps s
        → (now responded_at : ℕ) (clock : ℕ → ℕ) (r : CoordinationRequest fl)
          (p : FederationPeer fl)
        → Reach ps (receive_request fl now responded_at clock r p s).1
    response :
        {ps : _} {s : _}
        → Reach ps s
        → (now : ℕ) (r : CoordinationResponse fl) → Reach ps (receive_response fl now r s)

  abbrev Kept : List (FederationPeer fl) → String → PeerCoordinationState fl → Type 0
  Kept ps station state = (state.peer_id ≡ station) × TrustedOnce station ps

  abbrev pub IsValid : List (FederationPeer fl) → SpectrumCoordinator fl → Type 0
  IsValid ps s = Every String_discrete (Kept ps) s.peer_state

  register_peer-IsValid :
      (ps : List (FederationPeer fl)) (p : FederationPeer fl) (s : SpectrumCoordinator fl)
      → IsValid ps s
      → IsValid (p ∷ ps) (register_peer fl p s)
  unfolding register_peer ground_core.Federation.Spectrum.new_state
  register_peer-IsValid ps p s v = elim (Bool-cases (is_trusted fl p)) [
    | inl y ↦ elim (Option-cases (get String_discrete p.station_id s.peer_state)) [
      | inl n ↦ subst (IsValid (p ∷ ps)) (sym (added y n)) (
          insert-Every String_discrete (Kept (p ∷ ps)) p.station_id (new_state fl p.station_id)
            s.peer_state (refl, inl (refl, y)) earlier)
      | inr (known, e) ↦
          let same : register_peer fl p s ≡ s = rw (y, e, register_peer) refl in
          subst (IsValid (p ∷ ps)) (sym same) earlier
    ]
    | inr y ↦
        let same : register_peer fl p s ≡ s = rw (y, register_peer) refl in
        subst (IsValid (p ∷ ps)) (sym same) earlier
  ]
    where
      added :
          is_trusted fl p ≡ true
          → get String_discrete p.station_id s.peer_state ≡ none
          → register_peer fl p s ≡ record s {
            peer_state =
                insert String_discrete p.station_id (new_state fl p.station_id) s.peer_state;
          }
      added y n = rw (y, n, register_peer) refl

      earlier : Every String_discrete (Kept (p ∷ ps)) s.peer_state
      earlier k state e = let h = v k state e in (h.0, inr h.1)

  receive_request-IsValid :
      (ps : List (FederationPeer fl)) (s : SpectrumCoordinator fl) (now responded_at : ℕ)
      (clock : ℕ → ℕ) (r : CoordinationRequest fl) (p : FederationPeer fl)
      → IsValid ps s
      → IsValid ps (receive_request fl now responded_at clock r p s).1
  unfolding receive_request
  receive_request-IsValid ps s now responded_at clock r p v = elim (Bool-cases (is_trusted fl p)) [
    | inl y ↦
        rw (y, receive_request)
          (modify-Every String_discrete (Kept ps) p.station_id _ s.peer_state (λ j state h. h) v)
    | inr y ↦ rw (y, receive_request) v
  ]

  -- What a response or a request leaves alone: everything, from a station that was not registered
  -- while trusted; the entries of all other stations, in any case; and everything, in a request of
  -- a peer that is not trusted.
  pub record LeavesAlone (ps : List (FederationPeer fl)) (s : SpectrumCoordinator fl) : Type 0 where
    pub strange_response :
        (now : ℕ) (r : CoordinationResponse fl)
        → ¬ TrustedOnce r.from_station ps
        → receive_response fl now r s ≡ s
    pub strange_request :
        (now responded_at : ℕ) (clock : ℕ → ℕ) (r : CoordinationRequest fl) (p : FederationPeer fl)
        → ¬ TrustedOnce p.station_id ps
        → (receive_request fl now responded_at clock r p s).1 ≡ s
    pub other_response :
        (now : ℕ) (r : CoordinationResponse fl) (k : String)
        → k ≢ r.from_station
        → get String_discrete k (receive_response fl now r s).peer_state
          ≡ get String_discrete k s.peer_state
    pub other_request :
        (now responded_at : ℕ) (clock : ℕ → ℕ) (r : CoordinationRequest fl) (p : FederationPeer fl)
        (k : String)
        → k ≢ p.station_id
        → get String_discrete k (receive_request fl now responded_at clock r p s).1.peer_state
          ≡ get String_discrete k s.peer_state
    pub untrusted_request :
        (now responded_at : ℕ) (clock : ℕ → ℕ) (r : CoordinationRequest fl) (p : FederationPeer fl)
        → is_trusted fl p ≡ false
        → (receive_request fl now responded_at clock r p s).1 ≡ s

  -- A station that was not registered while trusted has no entry.
  strange_absent :
      (ps : List (FederationPeer fl)) (s : SpectrumCoordinator fl) (k : String)
      → IsValid ps s
      → ¬ TrustedOnce k ps
      → get String_discrete k s.peer_state ≡ none
  strange_absent ps s k v n = elim (Option-cases (get String_discrete k s.peer_state)) [
    | inl e ↦ e
    | inr (state, e) ↦ absurd (n (v k state e).1)
  ]

  modify-absent :
      (k : String) (f : PeerCoordinationState fl → PeerCoordinationState fl)
      (m : Map String (PeerCoordinationState fl))
      → get String_discrete k m ≡ none
      → modify String_discrete k f m ≡ m
  unfolding modify get
  modify-absent k f [] e = refl
  modify-absent k f ((j, v) ∷ m) e = ground (arith, modify-absent k f m)

  get-modify_other :
      (j k : String) (f : PeerCoordinationState fl → PeerCoordinationState fl)
      (m : Map String (PeerCoordinationState fl))
      → j ≢ k
      → get String_discrete j (modify String_discrete k f m) ≡ get String_discrete j m
  get-modify_other j k f m n = ground (arith, get-modify String_discrete j k f m)

  IsValid-LeavesAlone :
      (ps : List (FederationPeer fl)) (s : SpectrumCoordinator fl) → IsValid ps s → LeavesAlone ps s
  unfolding receive_response receive_request
  IsValid-LeavesAlone ps s v = record {
    strange_response = λ now r n.
        ap (λ m. record s { peer_state = m })
          (modify-absent r.from_station _ s.peer_state (strange_absent ps s r.from_station v n));
    strange_request = λ now responded_at clock r p n. elim (Bool-cases (is_trusted fl p)) [
      | inl y ↦
          rw (y, receive_request)
            (ap (λ m. record s { peer_state = m })
              (modify-absent p.station_id _ s.peer_state (strange_absent ps s p.station_id v n)))
      | inr y ↦ rw (y, receive_request) refl
    ];
    other_response = λ now r k n. get-modify_other k r.from_station _ s.peer_state n;
    other_request = λ now responded_at clock r p k n. elim (Bool-cases (is_trusted fl p)) [
      | inl y ↦ rw (y, receive_request) (get-modify_other k p.station_id _ s.peer_state n)
      | inr y ↦ rw (y, receive_request) refl
    ];
    untrusted_request = λ now responded_at clock r p y. rw (y, receive_request) refl;
  }

  Reach-registered :
      (ps : List (FederationPeer fl)) (s : SpectrumCoordinator fl) → Reach ps s → IsValid ps s
  unfolding new update_our_schedule receive_response
  Reach-registered ps s (start station) = Every-empty String_discrete (Kept [])
  Reach-registered ps s (register {ps = qs} {s = t} r p) =
      register_peer-IsValid qs p t (Reach-registered qs t r)
  Reach-registered ps s (schedule {s = t} r entries) = Reach-registered ps t r
  Reach-registered ps s (request {s = t} r now responded_at clock q p) =
      receive_request-IsValid ps t now responded_at clock q p (Reach-registered ps t r)
  Reach-registered ps s (response {s = t} r now q) =
      modify-Every String_discrete (Kept ps) q.from_station _ t.peer_state (λ j state h. h)
        (Reach-registered ps t r)

  -- However it is called, a coordinator keeps schedules, conflicts and exchanges only of stations
  -- that were registered while trusted, each under its own name. A response or a request from any
  -- other station changes nothing, nor does a request of a peer that is not trusted; and any
  -- response or request leaves the entries of all stations but its own as they were.
  pub Reach-TrustedOnce :
      (ps : List (FederationPeer fl)) (s : SpectrumCoordinator fl)
      → Reach ps s
      → IsValid ps s × LeavesAlone ps s
  Reach-TrustedOnce ps s r = let v = Reach-registered ps s r in (v, IsValid-LeavesAlone ps s v)
