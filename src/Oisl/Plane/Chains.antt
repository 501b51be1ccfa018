-- ===== src/Oisl/Plane/Chains.antt =====
-- The histories of the federation plane: each handover begins where the one before it ended, and
-- the last one at the satellite's control node.
use Prim.Native.String.{String}
use ground_core.Common.Tests.{
  ℕ, List, [], ◌∷◌, ◌++◌, some, ◌≡◌, refl, sym, ◌∙◌, inl, inr, Option-cases, Bool-cases,
  String_discrete, arith,
}
use ground_core.Common.Lists.{All, All-append, All-map}
use ground_core.Common.Maps.{get, get-insert}
use ground_core.Common.Values.{Every, insert-Every, Every-empty}
use ground_core.Oisl.Plane.State.{
  Floats, ControlPlaneBinding, HandoverRecord, HandoffRequest, FederationPlane, FederationPeer,
  ControlNode, RevenueAgreement, CrossOperatorLink, allows_links,
}
use ground_core.Oisl.Plane.{
  Hashing, new, add_control_node, bind_satellite, initiate_handoff, complete_handoff, handed_over,
  add_peer, establish_link,
}

-- A history that leads from one control node to another.
abbrev pub Linked : String → List HandoverRecord → String → Type 0
Linked first [] last = first ≡ last
Linked first (r ∷ rs) last = (r.from_node ≡ first) × Linked r.to_node rs last

Linked-snoc :
    (first last : String) (rs : List HandoverRecord) (r : HandoverRecord)
    → Linked first rs last
    → r.from_node ≡ last
    → Linked first (rs ++ (r ∷ [])) r.to_node
Linked-snoc first last [] r h e = (e ∙ sym h, refl)
Linked-snoc first last (q ∷ rs) r h e = (h.0, Linked-snoc q.to_node last rs r h.1 e)

-- A binding stands under its satellite, and its history leads to its control node.
abbrev pub Continuous : String → ControlPlaneBinding → Type 0
Continuous satellite b =
    (b.satellite_id ≡ satellite)
    × ((first : String) × Linked first b.handover_history b.control_node_id)

handed_over-Continuous :
    (fl : Floats) (clock : ℕ → ℕ) (request : HandoffRequest) (satellite : String)
    (b : ControlPlaneBinding)
    → Continuous satellite b
    → Continuous satellite (handed_over fl clock request b)
unfolding handed_over
handed_over-Continuous fl clock request satellite b (e, (first, h)) =
    (e, (first, Linked-snoc first b.control_node_id b.handover_history _ h refl))

module _ (fl : Floats) where
  -- The peer of a link is known.
  abbrev pub KnownPeer : FederationPlane fl → CrossOperatorLink fl → Type 0
  KnownPeer s l =
      (p : FederationPeer fl) × (get String_discrete l.peer_operator s.federation_peers ≡ some p)

  abbrev pub IsValid : FederationPlane fl → Type 0
  IsValid s =
      Every String_discrete Continuous s.satellite_bindings
      × All (KnownPeer s) s.cross_operator_links

  -- The planes that calls lead to, whatever the arguments.
  pub data Reach : FederationPlane fl → Type 0 where
    start : (operator : String) → Reach (new fl operator)
    add_node : {s : _} → Reach s → (node : ControlNode fl) → Reach (add_control_node fl node s)
    bind :
        {s : _}
        → Reach s
        → (clock : ℕ → ℕ) (satellite node : String)
        → Reach (bind_satellite fl clock satellite node s).1
    initiate :
        {s : _}
        → Reach s
        → (id now : ℕ) (satellite target : String)
        → Reach (initiate_handoff fl id now satellite target s).1
    complete :
        {s : _}
        → Reach s
        → (clock : ℕ → ℕ) (satellite : String) (request : HandoffRequest)
        → Reach (complete_handoff fl clock satellite request s).1
    peer : {s : _} → Reach s → (p : FederationPeer fl) → Reach (add_peer fl p s)
    link :
        {s : _}
        → Reach s
        → (h : Hashing) (clock : ℕ → ℕ) (id : ℕ) (local remote operator : String)
          (agreement : RevenueAgreement fl)
        → Reach (establish_link fl h clock id local remote operator agreement s).1

  module _ (s : FederationPlane fl) (v : IsValid s) where
    bind_satellite-IsValid :
        (clock : ℕ → ℕ) (satellite node : String)
        → IsValid (bind_satellite fl clock satellite node s).1
    unfolding bind_satellite
    bind_satellite-IsValid clock satellite node =
        elim (Option-cases (get String_discrete node s.control_nodes)) [
          | inl n ↦ rw (n, bind_satellite) v
          | inr (found, e) ↦
              rw (e, bind_satellite)
                (
                  insert-Every String_discrete Continuous satellite _ s.satellite_bindings
                      (refl, (node, refl)) v.0,
                  v.1,
                )
        ]

    initiate_handoff-IsValid :
        (id now : ℕ) (satellite target : String)
        → IsValid (initiate_handoff fl id now satellite target s).1
    unfolding initiate_handoff
    initiate_handoff-IsValid id now satellite target =
        elim (Option-cases (get String_discrete target s.control_nodes)) [
          | inl n ↦ rw (n, initiate_handoff) v
          | inr (found, e) ↦
              elim (Option-cases (get String_discrete satellite s.satellite_bindings)) [
                | inl n ↦ rw (e, n, initiate_handoff) v
                | inr (b, f) ↦
                    rw (e, f, initiate_handoff)
                      (
                        insert-Every String_discrete Continuous satellite _ s.satellite_bindings
                            (v.0 satellite b f) v.0,
                        v.1,
                      )
              ]
        ]

    complete_handoff-IsValid :
        (clock : ℕ → ℕ) (satellite : String) (request : HandoffRequest)
        → IsValid (complete_handoff fl clock satellite request s).1
    unfolding complete_handoff
    complete_handoff-IsValid clock satellite request =
        elim (Option-cases (get String_discrete satellite s.satellite_bindings)) [
          | inl n ↦ rw (n, complete_handoff) v
          | inr (b, f) ↦
              rw (f, complete_handoff)
                (
                  insert-Every String_discrete Continuous satellite _ s.satellite_bindings
                      (handed_over-Continuous fl clock request satellite b (v.0 satellite b f)) v.0,
                  v.1,
                )
        ]

    add_peer-IsValid : (p : FederationPeer fl) → IsValid (add_peer fl p s)
    unfolding add_peer
    add_peer-IsValid p = (
      v.0,
      All-map (KnownPeer s) (KnownPeer (add_peer fl p s)) still_known s.cross_operator_links v.1,
    )
      where
        still_known : (l : CrossOperatorLink fl) → KnownPeer s l → KnownPeer (add_peer fl p s) l
        still_known l (q, e) = elim (String_discrete p.operator_id l.peer_operator) [
          | yes y ↦ (
            p,
            ground (
              arith,
              get-insert String_discrete l.peer_operator p.operator_id p s.federation_peers,
            ),
          )
          | no n ↦ (
            q,
            ground (
              arith,
              get-insert String_discrete l.peer_operator p.operator_id p s.federation_peers,
            ),
          )
        ]

    establish_link-IsValid :
        (h : Hashing) (clock : ℕ → ℕ) (id : ℕ) (local remote operator : String)
        (agreement : RevenueAgreement fl)
        → IsValid (establish_link fl h clock id local remote operator agreement s).1
    unfolding establish_link
    establish_link-IsValid h clock id local remote operator agreement =
        elim (Option-cases (get String_discrete operator s.federation_peers)) [
          | inl n ↦ rw (n, establish_link) v
          | inr (p, e) ↦ elim (Bool-cases (fl.lt p.trust_score.score (fl.literal 5 1))) [
            | inl y ↦ rw (e, y, establish_link) v
            | inr y ↦ elim (Bool-cases (allows_links p.federation_policy)) [
              | inl z ↦
                  rw (e, y, z, establish_link)
                    (v.0, All-append (KnownPeer s) s.cross_operator_links _ v.1 ((p, e), tt))
              | inr z ↦ rw (e, y, z, establish_link) v
            ]
          ]
        ]

  -- However the plane is called, and whatever requests are completed on it, the handovers of each
  -- satellite form one chain, each from the control node that the one before it led to and the
  -- last to the satellite's control node; and every link is one with a known peer.
  pub Reach-Continuous : {s : FederationPlane fl} → Reach s → IsValid s
  unfolding new add_control_node
  Reach-Continuous (start operator) = (λ k b e. Every-empty String_discrete Continuous k b e, tt)
  Reach-Continuous (add_node {s} r node) = Reach-Continuous r
  Reach-Continuous (bind {s} r clock satellite node) =
      bind_satellite-IsValid s (Reach-Continuous r) clock satellite node
  Reach-Continuous (initiate {s} r id now satellite target) =
      initiate_handoff-IsValid s (Reach-Continuous r) id now satellite target
  Reach-Continuous (complete {s} r clock satellite request) =
      complete_handoff-IsValid s (Reach-Continuous r) clock satellite request
  Reach-Continuous (peer {s} r p) = add_peer-IsValid s (Reach-Continuous r) p
  Reach-Continuous (link {s} r h clock id local remote operator agreement) =
      establish_link-IsValid s (Reach-Continuous r) h clock id local remote operator agreement
