-- ===== src/Federation/Peer/History.antt =====
-- A peer as a function of the attestations received from it.
use Prim.Native.String.{String}
use ground_core.Common.Tests.{
  ℕ, zero, suc, ◌≤◌, ◌%◌, leb, Bool, true, false, List, [], ◌∷◌, ◌++◌, some, ◌≡◌, refl, sym, ap,
  ◌∙◌, arith, u64_mod, if◌then◌else◌, Bool-cases, inl, inr, leb→le, le→leb, lt→leb_false,
}
use ground_core.Common.Lists.{length, take, length-append}
use ground_core.Common.Ends.{pop_front, back, back-snoc}
use ground_core.Federation.Floats.{Floats}
use ground_core.Federation.Peer.{
  FederationPeer, AttestationRecord, new_peer, retrust, add_attestation, record_attestation,
  max_attestation_history, trust_after, set_trust, update, status, status_of, is_trusted,
  status_is_trusted,
}

-- A list in the opposite order.
abbrev pub oldest_first {ℓ} : {A : Type ℓ} → List A → List A
oldest_first [] = []
oldest_first (x ∷ xs) = oldest_first xs ++ (x ∷ [])

module _ {ℓ} {A : Type ℓ} where
  length-oldest_first : (xs : List A) → length (oldest_first xs) ≡ length xs
  length-oldest_first [] = refl
  length-oldest_first (x ∷ xs) =
      omega (arith, length-oldest_first xs, length-append (oldest_first xs) (x ∷ []))

  take-all : (n : ℕ) (xs : List A) → length xs ≤ n → take n xs ≡ xs
  take-all zero [] h = refl
  take-all zero (x ∷ xs) h = absurd (omega (arith, h))
  take-all (suc n) [] h = refl
  take-all (suc n) (x ∷ xs) h = ap (λ l. x ∷ l) (take-all n xs (omega (arith, h)))

  length-take : (n : ℕ) (xs : List A) → n ≤ length xs → length (take n xs) ≡ n
  length-take zero xs h = refl
  length-take (suc n) [] h = absurd (omega (arith, h))
  length-take (suc n) (x ∷ xs) h = omega (arith, length-take n xs (omega (arith, h)))

  pop_front-append :
      (xs : List A) (x : A) → 1 ≤ length xs → pop_front (xs ++ (x ∷ [])) ≡ pop_front xs ++ (x ∷ [])
  pop_front-append [] x h = absurd (omega (arith, h))
  pop_front-append (y ∷ xs) x h = refl

  -- Without the oldest of the latest n + 1, the latest n are left.
  pop_front-take :
      (n : ℕ) (xs : List A)
      → suc n ≤ length xs
      → pop_front (oldest_first (take (suc n) xs)) ≡ oldest_first (take n xs)
  pop_front-take n [] h = absurd (omega (arith, h))
  pop_front-take zero (x ∷ xs) h = refl
  pop_front-take (suc n) (x ∷ xs) h =
      let some_left : 1 ≤ length (oldest_first (take (suc n) xs)) = omega (
        arith,
        length-oldest_first (take (suc n) xs),
        length-take (suc n) xs (omega (arith, h)),
        h,
      ) in
      pop_front-append (oldest_first (take (suc n) xs)) x some_left
      ∙ ap (λ l. l ++ (x ∷ [])) (pop_front-take n xs (omega (arith, h)))

  -- The bounded history after one more element.
  bounded_push :
      (n : ℕ) (x : A) (xs : List A)
      → (if leb (suc n) (length (oldest_first (take (suc n) xs)))
            then pop_front (oldest_first (take (suc n) xs))
            else oldest_first (take (suc n) xs))
          ++ (x ∷ [])
        ≡ oldest_first (take (suc n) (x ∷ xs))
  bounded_push n x xs = elim (Bool-cases (leb (suc n) (length xs))) [
    | inl y ↦
        let full : leb (suc n) (length (oldest_first (take (suc n) xs))) ≡ true = le→leb _ _ (
          omega (
            arith,
            length-oldest_first (take (suc n) xs),
            length-take (suc n) xs (leb→le _ _ y),
          )) in
        rw full (ap (λ l. l ++ (x ∷ [])) (pop_front-take n xs (leb→le _ _ y)))
    | inr y ↦
        let few : length xs ≤ n = ground (arith, y) in
        let kept = take-all (suc n) xs (omega (arith, few)) in
        let room : leb (suc n) (length (oldest_first (take (suc n) xs))) ≡ false =
          lt→leb_false _ _
            (omega (arith, few, ap length kept, length-oldest_first (take (suc n) xs))) in
        rw room (ap (λ l. oldest_first l ++ (x ∷ [])) (kept ∙ sym (take-all n xs few)))
  ]

is_trusted-status_of :
    (fl : Floats) (score : fl.F64)
    → status_is_trusted (status_of fl score) ≡ fl.ge score (fl.literal 8 1)
unfolding status_is_trusted status_of
is_trusted-status_of fl score = ground arith

module _ (fl : Floats) where
  -- What changes a peer: an attestation, or a call of the manager's `update_trust`.
  pub data Event : Type 0 where
    attests : AttestationRecord fl → Event
    adjusts : (passed : Bool) → (match_rate : fl.F64) → Event

  abbrev pub attestations : List Event → List (AttestationRecord fl)
  attestations [] = []
  attestations (attests r ∷ es) = r ∷ attestations es
  attestations (adjusts passed match_rate ∷ es) = attestations es

  abbrev pub adjusted : Bool → fl.F64 → fl.F64 → fl.F64
  adjusted passed match_rate score =
      if passed
      then fl.min (fl.plus score (fl.times (fl.literal 1 1) match_rate)) (fl.literal 1 0)
      else fl.max (fl.minus score (fl.literal 2 1)) (fl.literal 0 0)

  -- The score after the events, the latest first.
  abbrev pub score_of : List Event → fl.F64
  score_of [] = fl.literal 5 1
  score_of (attests r ∷ es) = adjusted r.verification.passed r.verification.match_rate (score_of es)
  score_of (adjusts passed match_rate ∷ es) = adjusted passed match_rate (score_of es)

  -- A peer to which these events have happened since it was made, the latest first.
  pub data Received : List Event → FederationPeer fl → Type 0 where
    added : (now : ℕ) (station key : String) → Received [] (new_peer fl now station key)
    attested :
        {es : _} {p : _}
        → Received es p
        → (now : ℕ) (r : AttestationRecord fl)
        → Received (attests r ∷ es) (add_attestation fl now r p)
    retrusted :
        {es : _} {p : _}
        → Received es p
        → (passed : Bool) (match_rate : fl.F64)
        → Received (adjusts passed match_rate ∷ es) (retrust fl passed match_rate p)

  abbrev pub Reflects : List Event → FederationPeer fl → Type 0
  Reflects es p =
      (p.attestation_history ≡ oldest_first (take max_attestation_history (attestations es)))
      × (p.total_attestations ≡ length (attestations es) % u64_mod)
      × (p.trust_score ≡ score_of es)
      × (is_trusted fl p ≡ fl.ge (score_of es) (fl.literal 8 1))

  back-record_attestation :
      (now : ℕ) (r : AttestationRecord fl) (p : FederationPeer fl)
      → back (record_attestation fl now r p).attestation_history ≡ some r
  unfolding record_attestation
  back-record_attestation now r p =
      let l = p.attestation_history in
      back-snoc (if leb max_attestation_history (length l) then pop_front l else l) r

  add_attestation_lem :
      (now : ℕ) (r : AttestationRecord fl) (p : FederationPeer fl)
      → add_attestation fl now r p
        ≡ retrust fl r.verification.passed r.verification.match_rate (record_attestation fl now r p)
  unfolding add_attestation retrust
  add_attestation_lem now r p = rw (back-record_attestation now r p, add_attestation) refl

  score-retrust :
      (passed : Bool) (match_rate : fl.F64) (p : FederationPeer fl)
      → (retrust fl passed match_rate p).trust_score ≡ adjusted passed match_rate p.trust_score
  unfolding retrust set_trust trust_after update
  score-retrust true match_rate p = refl
  score-retrust false match_rate p = refl

  is_trusted-retrust :
      (passed : Bool) (match_rate : fl.F64) (p : FederationPeer fl)
      → is_trusted fl (retrust fl passed match_rate p)
        ≡ fl.ge (retrust fl passed match_rate p).trust_score (fl.literal 8 1)
  unfolding retrust set_trust is_trusted status
  is_trusted-retrust passed match_rate p =
      is_trusted-status_of fl (trust_after fl passed match_rate p).score

  record_attestation-history :
      (now : ℕ) (r : AttestationRecord fl) (rs : List (AttestationRecord fl))
      (p : FederationPeer fl)
      → p.attestation_history ≡ oldest_first (take max_attestation_history rs)
      → p.total_attestations ≡ length rs % u64_mod
      → let q = record_attestation fl now r p in
        (q.attestation_history ≡ oldest_first (take max_attestation_history (r ∷ rs)))
        × (q.total_attestations ≡ length (r ∷ rs) % u64_mod)
        × (q.trust_score ≡ p.trust_score)
  unfolding record_attestation
  record_attestation-history now r rs p history total = (
    ap (λ l. (if leb max_attestation_history (length l) then pop_front l else l) ++ (r ∷ []))
          history
        ∙ bounded_push 199 r rs,
    omega (arith, total),
    refl,
  )

  -- The part of `Reflects` on the trust, after one more adjustment.
  retrust-score :
      (passed : Bool) (match_rate score : fl.F64) (p : FederationPeer fl)
      → p.trust_score ≡ score
      → ((retrust fl passed match_rate p).trust_score ≡ adjusted passed match_rate score)
        × (is_trusted fl (retrust fl passed match_rate p)
            ≡ fl.ge (adjusted passed match_rate score) (fl.literal 8 1))
  retrust-score passed match_rate score p e =
      let now_score : (retrust fl passed match_rate p).trust_score
          ≡ adjusted passed match_rate score =
        score-retrust passed match_rate p ∙ ap (adjusted passed match_rate) e in
      (
        now_score,
        is_trusted-retrust passed match_rate p ∙ ap (λ x. fl.ge x (fl.literal 8 1)) now_score,
      )

  add_attestation-Reflects :
      (now : ℕ) (r : AttestationRecord fl) (es : List Event) (p : FederationPeer fl)
      → Reflects es p
      → Reflects (attests r ∷ es) (add_attestation fl now r p)
  add_attestation-Reflects now r es p (history, total, score, _) =
      let q = record_attestation fl now r p in
      let (history', total', same) =
        record_attestation-history now r (attestations es) p history total in
      let (score', still) =
        retrust-score r.verification.passed r.verification.match_rate (score_of es) q
          (same ∙ score) in
      rw (add_attestation_lem now r p)
        (unfold retrust set_trust in history', unfold retrust set_trust in total', score', still)

  retrust-Reflects :
      (passed : Bool) (match_rate : fl.F64) (es : List Event) (p : FederationPeer fl)
      → Reflects es p
      → Reflects (adjusts passed match_rate ∷ es) (retrust fl passed match_rate p)
  retrust-Reflects passed match_rate es p (history, total, score, _) =
      let (score', still) = retrust-score passed match_rate (score_of es) p score in
      (unfold retrust set_trust in history, unfold retrust set_trust in total, score', still)

-- A peer that has received any attestations, and whose trust the manager's `update_trust` has
-- adjusted any number of times in between: its history is the last 200 attestations, oldest first;
-- its total is their number as a 64-bit number; its score starts at one half, and each attestation
-- and each call of `update_trust`, in their order, adds a tenth of the match rate to it, up to one,
-- if it is a pass, and takes 0.2 from it, down to zero, if it is a failure; and the peer is trusted
-- exactly if that score is at least 0.8, given that one half is not.
pub Received-Reflects :
    (fl : Floats)
    → fl.ge (fl.literal 5 1) (fl.literal 8 1) ≡ false
    → (es : List (Event fl)) (p : FederationPeer fl) → Received fl es p
    → Reflects fl es p
unfolding new_peer is_trusted status_is_trusted
Received-Reflects fl half es p (added now station key) = (refl, refl, refl, sym half)
Received-Reflects fl half es p (attested {es = ds} {p = q} h now r) =
    add_attestation-Reflects fl now r ds q (Received-Reflects fl half ds q h)
Received-Reflects fl half es p (retrusted {es = ds} {p = q} h passed match_rate) =
    retrust-Reflects fl passed match_rate ds q (Received-Reflects fl half ds q h)
