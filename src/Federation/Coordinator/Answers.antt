-- ===== src/Federation/Coordinator/Answers.antt =====
-- What a request changes, what is answered, and what the next check of our schedule finds.
use Prim.Native.String.{String}
use ground_core.Common.Tests.{
  ℕ, ◌+◌, Bool, true, false, List, [], ◌∷◌, ◌++◌, some, ◌≡◌, refl, sym, ap, ◌∙◌, map,
  String_discrete, arith, ◌||◌, subst,
}
use mathlib.Core.List.{append-nil, append_assoc}
use ground_core.Common.Lists.{any, length}
use ground_core.Common.Maps.{Map, get, modify}
use ground_core.Common.Values.{get-modify_self}
use ground_core.Federation.Floats.{Floats}
use ground_core.Federation.Peer.{FederationPeer, is_trusted}
use ground_core.Federation.Spectrum.{
  SpectrumConflict, CoordinationRequest, PeerCoordinationState, detect_conflicts,
}
use ground_core.Federation.Spectrum.Conflicts.{
  Entry, crossing, pair_of, map-append, pairs-detect_conflicts,
}
use ground_core.Federation.Coordinator.{
  SpectrumCoordinator, check_peers, check_our_schedule, receive_request,
}

any-append :
    {A : Type 0} (test : A → Bool) (xs ys : List A)
    → any test (xs ++ ys) ≡ any test xs || any test ys
any-append test [] ys = refl
any-append test (x ∷ xs) ys = ground (arith, any-append test xs ys)

module _ (fl : Floats) where
  -- The pairs in conflict with the schedules kept.
  abbrev pub pairs_kept :
      List (Entry fl) → Map String (PeerCoordinationState fl) → List (Entry fl × Entry fl)
  pairs_kept ours [] = []
  pairs_kept ours ((id, state) ∷ peers) =
      crossing fl ours state.their_schedule ++ pairs_kept ours peers

  pairs-check_peers :
      (clock : ℕ → ℕ) (ours : List (Entry fl)) (peers : Map String (PeerCoordinationState fl))
      (found : List (SpectrumConflict fl))
      → map (pair_of fl) (check_peers fl clock ours peers found)
        ≡ map (pair_of fl) found ++ pairs_kept ours peers
  unfolding check_peers
  pairs-check_peers clock ours [] found = sym (append-nil (map (pair_of fl) found))
  pairs-check_peers clock ours ((id, state) ∷ peers) found =
      let late = λ (i : ℕ). clock (length found + i) in
      let here = detect_conflicts fl late id ours state.their_schedule in
      pairs-check_peers clock ours peers (found ++ here)
      ∙ ap (λ l. l ++ pairs_kept ours peers)
          (map-append fl found here
            ∙ ap (λ l. map (pair_of fl) found ++ l)
                (pairs-detect_conflicts fl late id ours state.their_schedule))
      ∙ append_assoc (map (pair_of fl) found) (crossing fl ours state.their_schedule)
          (pairs_kept ours peers)

  any-pairs_kept :
      (test : Entry fl × Entry fl → Bool) (ours : List (Entry fl)) (id : String)
      (state : PeerCoordinationState fl) (peers : Map String (PeerCoordinationState fl))
      → get String_discrete id peers ≡ some state
      → any test (crossing fl ours state.their_schedule) ≡ true
      → any test (pairs_kept ours peers) ≡ true
  unfolding get
  any-pairs_kept test ours id state [] e h = cc
  any-pairs_kept test ours id state ((other, s) ∷ peers) e h =
      let split = any-append test (crossing fl ours s.their_schedule) (pairs_kept ours peers) in
      elim (String_discrete other id) [
        | yes q ↦
            let found : some s ≡ some state = ground arith in
            let equal : state ≡ s = sym (let f : s ≡ state = cc in f) in
            let here : any test (crossing fl ours s.their_schedule) ≡ true =
              subst (λ t. any test (crossing fl ours t.their_schedule) ≡ true) equal h in
            ground (arith, split, here)
        | no n ↦ ground (arith, split, any-pairs_kept test ours id state peers (ground arith) h)
      ]

-- A request from a trusted peer is accepted, and is answered with exactly the pairs of passes of
-- the two schedules that are in conflict. If the peer is registered, each of them is among those
-- that the next check of our schedule finds, at whatever time; a request from a peer that is not
-- trusted is not accepted, is answered with no conflict and changes nothing.
pub receive_request-check_our_schedule :
    (fl : Floats) (now responded_at : ℕ) (clock later : ℕ → ℕ) (r : CoordinationRequest fl)
    (p : FederationPeer fl) (s : SpectrumCoordinator fl)
    → (is_trusted fl p ≡ true
        → ((receive_request fl now responded_at clock r p s).0.accepted ≡ true)
          × (map (pair_of fl) (receive_request fl now responded_at clock r p s).0.conflicts
              ≡ crossing fl s.our_schedule r.our_entries)
          × ((state : PeerCoordinationState fl)
              → get String_discrete p.station_id s.peer_state ≡ some state
              → (test : Entry fl × Entry fl → Bool)
              → any test
                  (map (pair_of fl) (receive_request fl now responded_at clock r p s).0.conflicts)
                ≡ true
              → any test (
                  map (pair_of fl) (
                    check_our_schedule fl later
                      (receive_request fl now responded_at clock r p s).1))
                ≡ true))
      × (is_trusted fl p ≡ false
          → ((receive_request fl now responded_at clock r p s).0.accepted ≡ false)
            × ((receive_request fl now responded_at clock r p s).0.conflicts ≡ [])
            × ((receive_request fl now responded_at clock r p s).1 ≡ s))
unfolding receive_request check_our_schedule
receive_request-check_our_schedule fl now responded_at clock later r p s = (
  λ y.
      let pairs = pairs-detect_conflicts fl clock p.station_id s.our_schedule r.our_entries in
      rw (y, receive_request)
        (
          refl,
          pairs,
          λ state e test h.
              let after = record state {
                their_schedule = r.our_entries;
                last_exchange = some now;
              } in
              let peers =
                modify String_discrete p.station_id
                  (λ t. record t { their_schedule = r.our_entries; last_exchange = some now })
                  s.peer_state in
              let kept : get String_discrete p.station_id peers ≡ some after =
                get-modify_self String_discrete p.station_id
                  (λ t. record t { their_schedule = r.our_entries; last_exchange = some now }) state
                  s.peer_state e in
              ap (any test) (pairs-check_peers fl later s.our_schedule peers [])
              ∙ any-pairs_kept fl test s.our_schedule p.station_id after peers kept
                  (sym (ap (any test) pairs) ∙ h),
        ),
  λ y. rw (y, receive_request) (refl, refl, refl),
)
