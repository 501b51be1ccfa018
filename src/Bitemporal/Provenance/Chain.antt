-- ===== src/Bitemporal/Provenance/Chain.antt =====
-- When the chains that `add_link` builds verify.
use Prim.Native.String.{String}
use ground_core.Common.Tests.{
  ℕ, Bool, true, false, ◌&&◌, List, [], ◌∷◌, ◌++◌, Option, none, some, ◌≡◌, ◌≢◌, ◌↔◌, refl, sym, ap,
  ◌∙◌, subst, arith, Bool-cases, inl, inr, ◌⊎◌,
}
use ground_core.Common.Ends.{back}
use ground_core.Common.Lists.{All}
use ground_core.Common.Result.{ok}
use ground_core.Bitemporal.Provenance.{
  Outside, ProvenanceLink, ProvenanceChain, ProvenanceVerifier, new, add_link, continues,
  recompute_chain_hash, linked, verify, same_option, hash_of, is_handoff, is_blank, all_signed,
  verify_federated_chain,
}

module _ (out : Outside) where
  -- The chain after all these calls of `add_link`, of which some may be refused.
  unfoldable pub add_all : List (ProvenanceLink out) → ProvenanceChain out → ProvenanceChain out
  add_all [] c = c
  add_all (l ∷ ls) c = add_all ls (add_link out l c).1

  -- The first link follows on nothing.
  abbrev pub starts : List (ProvenanceLink out) → Bool
  starts [] = true
  starts (l ∷ ls) = same_option l.previous_hash none

  abbrev last_hash : Option String → List (ProvenanceLink out) → Option String
  last_hash p [] = p
  last_hash p (l ∷ ls) = last_hash (some l.hash) ls

  linked-snoc :
      (p : Option String) (ls : List (ProvenanceLink out)) (l : ProvenanceLink out)
      → linked out p (ls ++ (l ∷ []))
        ≡ (linked out p ls && same_option l.previous_hash (last_hash p ls))
  unfolding linked
  linked-snoc p [] l = ground arith
  linked-snoc p (k ∷ ls) l = ground (arith, linked-snoc (some k.hash) ls l)

  back-last_hash :
      (p : Option String) (k : ProvenanceLink out) (ls : List (ProvenanceLink out))
      → continues out (back (k ∷ ls)) ≡ (λ l. same_option l.previous_hash (last_hash p (k ∷ ls)))
  unfolding continues
  back-last_hash p k [] = refl
  back-last_hash p k (j ∷ ls) = back-last_hash p j ls

  -- Behind its first link, every link of the chain follows on the one before; and the stored hash
  -- is that of the chain, once it has a link.
  pub record Built (c : ProvenanceChain out) : Type 0 where
    pub links_eq : linked out none c.links ≡ starts c.links
    pub hash_eq :
        (c.links ≡ []) × (c.chain_hash ≡ "") ⊎ (c.links ≢ []) × (c.chain_hash ≡ hash_of out c)

  append_ne_nil : (ls : List (ProvenanceLink out)) (l : ProvenanceLink out) → ls ++ (l ∷ []) ≢ []
  append_ne_nil [] l e = absurd (let f : l ∷ [] ≡ [] = e in cc)
  append_ne_nil (k ∷ ls) l e = absurd (let f : k ∷ (ls ++ (l ∷ [])) ≡ [] = e in cc)

  linked-added :
      (l : ProvenanceLink out) (ls : List (ProvenanceLink out))
      → linked out none ls ≡ starts ls
      → continues out (back ls) l ≡ true
      → linked out none (ls ++ (l ∷ [])) ≡ starts (ls ++ (l ∷ []))
  linked-added l [] h e = ground (arith, linked-snoc none [] l)
  linked-added l (k ∷ ls) h e =
      let follows : same_option l.previous_hash (last_hash none (k ∷ ls)) ≡ true =
        sym (ap (λ t. t l) (back-last_hash none k ls)) ∙ e in
      linked-snoc none (k ∷ ls) l ∙ rw (h, follows) (ground arith)

  add_link-Built :
      (l : ProvenanceLink out) (c : ProvenanceChain out) → Built c → Built (add_link out l c).1
  unfolding add_link recompute_chain_hash hash_of
  add_link-Built l c v = elim (Bool-cases (continues out (back c.links) l)) [
    | inr no_link ↦ rw (no_link, add_link) v
    | inl follows ↦
        rw (follows, add_link)
          (record {
            links_eq = linked-added l c.links v.links_eq follows;
            hash_eq = inr (append_ne_nil c.links l, refl);
          })
  ]

  add_all-Built :
      (ls : List (ProvenanceLink out)) (c : ProvenanceChain out) → Built c → Built (add_all ls c)
  unfolding add_all
  add_all-Built [] c v = v
  add_all-Built (l ∷ ls) c v = add_all-Built ls (add_link out l c).1 (add_link-Built l c v)

  new-Built : (pass satellite station : String) → Built (new out pass satellite station)
  unfolding new linked
  new-Built pass satellite station = record { links_eq = refl; hash_eq = inl (refl, refl) }

  -- The chain's first link is this one.
  abbrev Begins : ProvenanceLink out → ProvenanceChain out → Type 0
  Begins l c = (ls : List (ProvenanceLink out)) × (c.links ≡ l ∷ ls)

  add_link-new :
      (l : ProvenanceLink out) (pass satellite station : String)
      → ((add_link out l (new out pass satellite station)).0 ≡ ok tt)
        × Begins l (add_link out l (new out pass satellite station)).1
  unfolding add_link new continues recompute_chain_hash
  add_link-new l pass satellite station = (refl, ([], refl))

  add_link-Begins :
      (l k : ProvenanceLink out) (c : ProvenanceChain out)
      → Begins l c
      → Begins l (add_link out k c).1
  unfolding add_link recompute_chain_hash
  add_link-Begins l k c (ls, e) = elim (Bool-cases (continues out (back c.links) k)) [
    | inr n ↦ rw (n, add_link) (ls, e)
    | inl y ↦ rw (y, add_link) (ls ++ (k ∷ []), ap (λ xs. xs ++ (k ∷ [])) e)
  ]

  add_all-Begins :
      (l : ProvenanceLink out) (ls : List (ProvenanceLink out)) (c : ProvenanceChain out)
      → Begins l c
      → Begins l (add_all ls c)
  unfolding add_all
  add_all-Begins l [] c h = h
  add_all-Begins l (k ∷ ls) c h = add_all-Begins l ls (add_link out k c).1 (add_link-Begins l k c h)

  new_chain-Begins :
      (l : ProvenanceLink out) (ls : List (ProvenanceLink out)) (pass satellite station : String)
      → Begins l (add_all (l ∷ ls) (new out pass satellite station))
  unfolding add_all
  new_chain-Begins l ls pass satellite station =
      add_all-Begins l ls (add_link out l (new out pass satellite station)).1
        (add_link-new l pass satellite station).1

  verify_stale : (c : ProvenanceChain out) → ¬ (hash_of out c ≡ c.chain_hash) → verify out c ≡ false
  unfolding verify recompute_chain_hash
  verify_stale c n = ground (arith, n)

  verify_fresh :
      (c : ProvenanceChain out)
      → hash_of out c ≡ c.chain_hash
      → verify out c ≡ linked out none c.links
  unfolding verify recompute_chain_hash
  verify_fresh c e = ground (arith, e)

  -- Links follow one another and the first follows on nothing; there is one.
  abbrev pub Sound : ProvenanceChain out → Type 0
  Sound c = (c.links ≢ []) × (starts c.links ≡ true)

  module _ (digest_some : (bytes : List ℕ) → out.digest bytes ≢ "") where
    verify-Built : (c : ProvenanceChain out) → Built c → (verify out c ≡ true) ↔ Sound c
    unfolding hash_of
    verify-Built c v = elim v.hash_eq [
      | inl (empty, blank) ↦
          let stale : verify out c ≡ false = verify_stale c (λ e. digest_some _ (e ∙ blank)) in
          (λ h. absurd (let f : false ≡ true = sym stale ∙ h in cc), λ h. absurd (h.0 empty))
      | inr (some_links, e) ↦
          let fresh : verify out c ≡ starts c.links = verify_fresh c (sym e) ∙ v.links_eq in
          (λ h. (some_links, sym fresh ∙ h), λ h. fresh ∙ h.1)
    ]

    new_chain-Sound :
        (ls : List (ProvenanceLink out)) (pass satellite station : String)
        → let c = add_all ls (new out pass satellite station) in (verify out c ≡ true) ↔ Sound c
    new_chain-Sound ls pass satellite station =
        verify-Built (add_all ls (new out pass satellite station))
          (add_all-Built ls (new out pass satellite station) (new-Built pass satellite station))

    spoiled :
        (c : ProvenanceChain out) (l : ProvenanceLink out) (h : String)
        → (verify out c ≡ true) ↔ Sound c
        → Begins l c
        → l.previous_hash ≡ some h
        → verify out c ≡ false
    spoiled c l h sound (ls, e) named = elim (Bool-cases (verify out c)) [
      | inl y ↦
          let s : same_option l.previous_hash none ≡ true = sym (ap starts e) ∙ (sound.0 y).1 in
          let f : same_option (some h) none ≡ true =
            subst (λ o. same_option o none ≡ true) named s in
          absurd (unfold same_option in cc)
      | inr n ↦ n
    ]

    -- If no digest is the empty text, then after any calls of `add_link` on a new chain, of which
    -- some may be refused, the chain verifies exactly if it has a link and its first link has no
    -- previous hash. A new chain accepts every link; but once it has accepted one that names a
    -- previous hash, it does not verify, whatever calls of `add_link` follow.
    pub verify-add_all :
        (ls : List (ProvenanceLink out)) (pass satellite station : String)
        → let c = new out pass satellite station in
          ((verify out (add_all ls c) ≡ true) ↔ Sound (add_all ls c))
          × ((l : ProvenanceLink out) → (add_link out l c).0 ≡ ok tt)
          × ((l : ProvenanceLink out) (h : String)
              → l.previous_hash ≡ some h
              → verify out (add_all (l ∷ ls) c) ≡ false)
    verify-add_all ls pass satellite station =
        let c = new out pass satellite station in
        (
          new_chain-Sound ls pass satellite station,
          λ l. (add_link-new l pass satellite station).0,
          λ l h named.
              spoiled (add_all (l ∷ ls) c) l h (new_chain-Sound (l ∷ ls) pass satellite station)
                (new_chain-Begins l ls pass satellite station) named,
        )

  -- A handoff that carries a signature carries some text.
  abbrev pub NotBlank : ProvenanceLink out → Type 0
  NotBlank l = is_handoff out l.link_type ≡ true → l.signature ≢ some ""

  is_blank_iff : (s : Option String) → (is_blank out s ≡ true) ↔ (s ≡ some "")
  unfolding is_blank
  is_blank_iff none = (λ h. absurd cc, λ h. absurd cc)
  is_blank_iff (some t) = (λ h. ground arith, λ h. ground arith)

  all_signed_iff : (ls : List (ProvenanceLink out)) → (all_signed out ls ≡ true) ↔ All NotBlank ls
  unfolding all_signed
  all_signed_iff [] = (λ h. tt, λ h. refl)
  all_signed_iff (l ∷ ls) =
      let ih = all_signed_iff ls in
      elim (Bool-cases (is_handoff out l.link_type)) [
        | inr other ↦ rw other (λ h. (λ (y : false ≡ true). absurd cc, ih.0 h), λ h. ih.1 h.1)
        | inl handoff ↦ elim (Bool-cases (is_blank out l.signature)) [
          | inl blank ↦
              rw (handoff, blank)
                (
                  λ (h : false ≡ true). absurd cc,
                  λ h. absurd (h.0 refl ((is_blank_iff l.signature).0 blank)),
                )
          | inr text ↦
              rw (handoff, text)
                (
                  λ h. (
                    λ y e.
                        absurd
                          (let f : false ≡ true = sym text ∙ (is_blank_iff l.signature).1 e in cc),
                    ih.0 h,
                  ),
                  λ h. ih.1 h.1,
                )
        ]
      ]

  -- A chain from another station is accepted exactly if it verifies and no handoff in it carries
  -- an empty signature, whatever the keys of the stations are; so a handoff with no signature is
  -- accepted.
  pub verify_federated_chain_lem :
      (c : ProvenanceChain out) (v : ProvenanceVerifier out)
      → (verify_federated_chain out c v ≡ true) ↔ ((verify out c ≡ true) × All NotBlank c.links)
  unfolding verify_federated_chain
  verify_federated_chain_lem c v = elim (Bool-cases (verify out c)) [
    | inl y ↦
        rw (y, verify_federated_chain)
          (λ h. (refl, (all_signed_iff c.links).0 h), λ h. (all_signed_iff c.links).1 h.1)
    | inr n ↦
        rw (n, verify_federated_chain)
          (λ (h : false ≡ true). absurd cc, λ h. absurd (let f : false ≡ true = h.0 in cc))
  ]
