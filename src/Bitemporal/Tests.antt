-- ===== src/Bitemporal/Tests.antt =====
-- The log of bitemporal/src/log.rs and the chains of bitemporal/src/provenance.rs with toy
-- encodings.
use Prim.Native.String.{String}
use text.Mathlib.TextEquality.{eq_iff}
use ground_core.Common.Tests.{List, Option, ◌*◌, ◌/◌, ltb, false, ◌≢◌, ◌↔◌}
use ground_core.Common.Int.{pos_part}
use ground_core.Common.Lists.{All}
use ground_core.Bitemporal.Provenance
use ground_core.Bitemporal.Provenance.{
  Outside, ProvenanceLink, ProvenanceChain, federation_handoff, add_link, continues,
  recompute_chain_hash, link_bytes, linked, same_option, verify_federated_chain, new_verifier,
  all_signed, is_handoff, is_blank,
}
use ground_core.Bitemporal.Provenance.Chain
use ground_core.Common.Tests.{ℕ, [], ◌∷◌, none, some, ◌≡◌, refl, String_discrete, arith, true}
use ground_core.Common.Result.{ok}
use ground_core.Common.Maps.{get, insert}
use ground_core.Bitemporal.Log.{
  Encoding, LogEntry, pass_failed, new_entry, BitemporalLog, new, append, verify, verify_chain,
  same_hash, get_entry, sort, compute_hash, follows, push_id, insert_sorted,
}
use ground_core.Bitemporal.Log.Verify.{
  MayFollow, append-verify_chain, start, next, Reach-verify_chain,
}

-- Every text has one byte, and every entry the same hash.
abbrev toy : Encoding
toy = record {
  F32 = ℕ;
  Json = ℕ;
  text_bytes = λ s. 7 ∷ [];
  type_bytes = λ t. [];
  time_bytes = λ n. n ∷ [];
  json_bytes = λ n. n ∷ [];
  digest = λ bytes. "digest";
}

abbrev first : LogEntry toy
first = new_entry toy "e1" "pass" (pass_failed "lost") 10 11 5 none

abbrev second : LogEntry toy
second = new_entry toy "e2" "pass" (pass_failed "lost") 12 13 5 (some "digest")

abbrev log_1 : BitemporalLog toy
log_1 = (append toy first (new toy)).1

append-verify_chain_example :
    (((append toy second log_1).0 ≡ ok tt)
      ↔ ((verify toy second ≡ true) × MayFollow toy second log_1))
    × ((append toy second log_1).0 ≡ ok tt
        → (verify_chain toy (append toy second log_1).1 ≡ true)
          ↔ ((verify_chain toy log_1 ≡ true) × (second.previous_hash ≡ log_1.latest_hash)))
unfolding append new verify new_entry compute_hash follows get_entry sort String_discrete get insert
    insert_sorted push_id same_hash
append-verify_chain_example = append-verify_chain toy second log_1 refl refl (omega arith, tt)

Reach-verify_chain_example : verify_chain toy log_1 ≡ true
unfolding new get_entry new_entry get
Reach-verify_chain_example =
    Reach-verify_chain toy
      (next start first (record { is_new = refl; is_later = tt; starts = λ e. refl }))

abbrev outside : Outside
outside = record {
  F64 = ℕ;
  Json = ℕ;
  text_bytes = λ s. 7 ∷ [];
  digest = λ bytes. "digest";
  zero_f64 = 0;
  ratio = λ a n. pos_part a * 10 / n;
  above_08 = λ r. ltb 8 r;
}

digest_some : (bytes : List ℕ) → outside.digest bytes ≢ ""
digest_some bytes e = absurd (let f : false ≡ true = (eq_iff "digest" "").1 e in cc)

abbrev handoff : Option String → Option String → ProvenanceLink outside
handoff previous signature = record {
  link_type = federation_handoff "a" "b";
  event_time = 5;
  reception_time = 6;
  data_value = 0;
  hash = "h";
  previous_hash = previous;
  signature = signature;
}

-- The last link is refused.
abbrev links : List (ProvenanceLink outside)
links = handoff none (some "s") ∷ handoff (some "h") none ∷ handoff (some "x") none ∷ []

abbrev chain : ProvenanceChain outside
chain = Chain.add_all outside links (Provenance.new outside "p" "sat" "st")

verify-add_all_example :
    ((Provenance.verify outside chain ≡ true) ↔ Chain.Sound outside chain)
    × ((l : ProvenanceLink outside)
        → (Provenance.add_link outside l (Provenance.new outside "p" "sat" "st")).0 ≡ ok tt)
    × ((l : ProvenanceLink outside) (h : String)
        → l.previous_hash ≡ some h
        → Provenance.verify outside
            (Chain.add_all outside (l ∷ links) (Provenance.new outside "p" "sat" "st"))
          ≡ false)
verify-add_all_example = Chain.verify-add_all outside digest_some links "p" "sat" "st"

verify_federated_chain_lem_example :
    (verify_federated_chain outside chain (new_verifier outside) ≡ true)
    ↔ ((Provenance.verify outside chain ≡ true) × All (Chain.NotBlank outside) chain.links)
verify_federated_chain_lem_example =
    Chain.verify_federated_chain_lem outside chain (new_verifier outside)

-- The chain is accepted, the unsigned handoff included.
unsigned_accepted : verify_federated_chain outside chain (new_verifier outside) ≡ true
unfolding Chain.add_all Provenance.new add_link continues recompute_chain_hash Provenance.hash_of
    link_bytes verify_federated_chain Provenance.verify linked all_signed is_handoff is_blank
    same_option String_discrete
unsigned_accepted = refl
