-- ===== src/Oisl/Plane/Links.antt =====
-- When a link with another operator is established.
use Prim.Native.String.{String}
use ground_core.Common.Tests.{
  ℕ, ◌≤◌, ◌+◌, Bool, true, false, [], ◌∷◌, ◌++◌, Option, none, some, ◌≡◌, ◌⊎◌, refl, sym, ap, ◌∙◌,
  inl, inr, Option-cases, Bool-cases, String_discrete, arith, lt→ltb, ◌*◌,
}
use ground_core.Common.Maps.{get, get-insert_self}
use ground_core.Common.Result.{Result, ok, err}
use ground_core.Common.Clock.{nanos_per_second}
use ground_core.Oisl.Plane.State.{
  Floats, FederationPlane, FederationPeer, FederationError, RevenueAgreement, AttestationEngine,
  AttestationRecord, allows_links, new_chain,
}
use ground_core.Oisl.Plane.{
  Hashing, establish_link, attest_peer, verify_attestation, cached, is_valid, new_attestation,
}

clash : {x : Bool} → x ≡ false → x ≡ true → ⊥
clash e f = let g : false ≡ true = sym e ∙ f in cc

same_peer :
    (fl : Floats) (o : Option (FederationPeer fl)) (p q : FederationPeer fl)
    → o ≡ some p
    → o ≡ some q
    → p ≡ q
same_peer fl o p q e f = let g : some p ≡ some q = sym e ∙ f in cc

cached_valid :
    (now : ℕ) (operator : String) (e : AttestationEngine) (r : AttestationRecord)
    → cached now operator e ≡ some r
    → verify_attestation now operator e ≡ true
unfolding cached verify_attestation
cached_valid now operator e r h = ground arith

-- A peer just attested is attested at the first reading of the call.
attest_peer-verify_attestation :
    (h : Hashing) (clock : ℕ → ℕ) (operator : String) (e : AttestationEngine)
    → clock 0 ≤ clock 3
    → verify_attestation (clock 0) operator (attest_peer h clock operator e).1 ≡ true
unfolding attest_peer verify_attestation is_valid new_attestation
attest_peer-verify_attestation h clock operator e k =
    elim (Option-cases (cached (clock 0) operator e)) [
      | inl n ↦
          let r = new_attestation h clock operator in
          rw (n, attest_peer)
            (ap (λ o. elim o [ none ↦ false | some r ↦ is_valid (clock 0) r ])
                (get-insert_self String_discrete operator r e.attestation_cache)
              ∙ lt→ltb (clock 0) (clock 3 + 24 * 3600 * nanos_per_second) (omega (arith, k)))
      | inr (r, f) ↦ rw (f, attest_peer) (cached_valid (clock 0) operator e r f)
    ]

module _ (fl : Floats) (h : Hashing) (clock : ℕ → ℕ) (id : ℕ) (local remote operator : String)
    (agreement : RevenueAgreement fl) (s : FederationPlane fl) where
  -- The operator is a peer whose trust is not below one half and whose policy allows links.
  abbrev pub MayLink : Type 0
  MayLink =
      (p : FederationPeer fl) × (get String_discrete operator s.federation_peers ≡ some p)
      × (fl.lt p.trust_score.score (fl.literal 5 1) ≡ false)
      × (allows_links p.federation_policy ≡ true)

  abbrev pub established : Result (FederationError fl) ℕ × FederationPlane fl
  established = establish_link fl h clock id local remote operator agreement s

  -- One link more, with an attestation of the peer.
  abbrev pub LinkAdded : Type 0
  LinkAdded =
      (established.0 ≡ ok id)
      × (established.1.cross_operator_links
          ≡ s.cross_operator_links
            ++ (record {
              local_terminal = local;
              peer_terminal = remote;
              peer_operator = operator;
              revenue_sharing = agreement;
              data_provenance = new_chain;
            }
                ∷ []))
      × (verify_attestation (clock 0) operator established.1.attestation_engine ≡ true)

  abbrev pub Refused : Type 0
  Refused = ((e : FederationError fl) × (established.0 ≡ err e)) × (established.1 ≡ s)

  -- A link is established if the operator is a known peer whose trust is not below one half and
  -- whose policy allows links: then exactly this link is added, and the operator has an attestation
  -- that is valid at the call's first reading of the clock, which does not come after the later
  -- ones. Otherwise the call fails and changes nothing.
  pub establish_link-MayLink : clock 0 ≤ clock 3 → (MayLink × LinkAdded) ⊎ ((MayLink → ⊥) × Refused)
  unfolding establish_link
  establish_link-MayLink k = elim (Option-cases (get String_discrete operator s.federation_peers)) [
    | inl n ↦ inr (
      (λ m. let f : none ≡ some m.0 = sym n ∙ m.1 in cc),
      rw (n, establish_link) ((_, refl), refl),
    )
    | inr (p, e) ↦ elim (Bool-cases (fl.lt p.trust_score.score (fl.literal 5 1))) [
      | inl y ↦ inr (
        (λ m.
            clash
              (ap (λ q. fl.lt q.trust_score.score (fl.literal 5 1)) (same_peer fl _ p m.0 e m.1)
                ∙ m.2)
              y),
        rw (e, y, establish_link) ((_, refl), refl),
      )
      | inr y ↦ elim (Bool-cases (allows_links p.federation_policy)) [
        | inl z ↦ inl (
          (p, e, y, z),
          rw (e, y, z, establish_link)
              (refl, refl, attest_peer-verify_attestation h clock operator s.attestation_engine k),
        )
        | inr z ↦ inr (
          (λ m.
              clash z
                (ap (λ q. allows_links q.federation_policy) (same_peer fl _ p m.0 e m.1) ∙ m.3)),
          rw (e, y, z, establish_link) ((_, refl), refl),
        )
      ]
    ]
  ]
