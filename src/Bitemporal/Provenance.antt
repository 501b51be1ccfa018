-- ===== src/Bitemporal/Provenance.antt =====
-- bitemporal/src/provenance.rs: chains of links with hashes, and their verifier. The digest of the
-- sha2 crate, the values of serde_json and the floating-point numbers are parameters.
pub mod Chain
use Prim.Native.String.{String}
use ground_core.Common.Tests.{
  ℕ, ◌+◌, ◌-◌, ◌*◌, ◌/◌, ◌%◌, ◌^◌, Bool, true, false, not, ◌&&◌, ◌||◌, List, [], ◌∷◌, ◌++◌, Option,
  none, some, ite, leb, ltb, if◌then◌else◌, map, String_discrete,
}
use ground_core.Common.Int.{ℤ, pos, negsuc, sub_ℕ}
use ground_core.Common.Ends.{back}
use ground_core.Common.Lists.{length}
use ground_core.Common.Maps.{Map, insert}
use ground_core.Common.Result.{Result, ok, err}
use ground_core.Bitemporal.Timestamp.{EventTime, ReceptionTime}

-- The bytes of a text, the digest in hexadecimal of all the bytes that the hasher was fed, the
-- quotient of an `i32` and a `usize` as `f64`, and the test for more than 0.8.
pub record Outside : Type 1 where
  pub F64 : Type 0
  pub Json : Type 0
  pub text_bytes : String → List ℕ
  pub digest : List ℕ → String
  pub zero_f64 : F64
  pub ratio : ℤ → ℕ → F64
  pub above_08 : F64 → Bool

-- `GroundStationError::Database`, by its text.
pub data ChainError : Type 0 where
  integrity_broken : ChainError

-- `==` of two optional hashes.
unfoldable pub same_option : Option String → Option String → Bool
same_option none none = true
same_option none (some b) = false
same_option (some a) none = false
same_option (some a) (some b) = ite (String_discrete a b) true false

-- An `i32` counter after so many increments.
unfoldable pub wrap_i32 : ℕ → ℤ
wrap_i32 n =
    let bits = n % 2 ^ 32 in if ltb bits (2 ^ 31) then pos bits else negsuc (2 ^ 32 - 1 - bits)

-- `num_milliseconds().abs()` of the difference of two times.
unfoldable pub millis_apart : EventTime → EventTime → ℕ
millis_apart a b = (if leb b a then a - b else b - a) / 1000000

module _ (out : Outside) where
  pub data ProvenanceLinkType : Type 0 where
    satellite_emission : (x y z : out.F64) → (frequency : ℕ) → ProvenanceLinkType
    rf_reception : (device_id antenna_id : String) → (frequency : ℕ) → ProvenanceLinkType
    demodulation : (algorithm : String) → (bits_decoded : ℕ) → ProvenanceLinkType
    protocol_translation : (protocol : String) → (events_generated : ℕ) → ProvenanceLinkType
    data_normalization : (schema_version : String) → (records_normalized : ℕ) → ProvenanceLinkType
    federation_handoff : (from_station to_station : String) → ProvenanceLinkType
    customer_delivery : (customer_id delivery_method : String) → ProvenanceLinkType

  pub record ProvenanceLink : Type 0 where
    pub link_type : ProvenanceLinkType
    pub event_time : EventTime
    pub reception_time : ReceptionTime
    pub data_value : out.Json
    pub hash : String
    pub previous_hash : Option String
    pub signature : Option String

  pub record ProvenanceChain : Type 0 where
    pub pass_id : String
    pub satellite_id : String
    pub station_id : String
    pub links : List ProvenanceLink
    pub chain_hash : String

  unfoldable pub new : String → String → String → ProvenanceChain
  new pass_id satellite_id station_id = record {
    pass_id = pass_id;
    satellite_id = satellite_id;
    station_id = station_id;
    links = [];
    chain_hash = "";
  }

  unfoldable pub link_bytes : List ProvenanceLink → List ℕ
  link_bytes [] = []
  link_bytes (l ∷ ls) = out.text_bytes l.hash ++ link_bytes ls

  -- The hash that `recompute_chain_hash` stores.
  unfoldable pub hash_of : ProvenanceChain → String
  hash_of c = out.digest (
      out.text_bytes c.pass_id
      ++ (out.text_bytes c.satellite_id ++ (out.text_bytes c.station_id ++ link_bytes c.links)))

  unfoldable pub recompute_chain_hash : ProvenanceChain → ProvenanceChain
  recompute_chain_hash c = record c { chain_hash = hash_of c }

  -- The check of `add_link`, against the last link.
  unfoldable pub continues : Option ProvenanceLink → ProvenanceLink → Bool
  continues none l = true
  continues (some last) l = same_option l.previous_hash (some last.hash)

  unfoldable pub add_link :
      ProvenanceLink → ProvenanceChain → Result ChainError (Unit {0}) × ProvenanceChain
  add_link l c =
      if not (continues (back c.links) l)
      then (err integrity_broken, c)
      else (ok tt, recompute_chain_hash (record c { links = c.links ++ (l ∷ []) }))

  -- The loop of `verify`.
  unfoldable pub linked : Option String → List ProvenanceLink → Bool
  linked previous [] = true
  linked previous (l ∷ ls) =
      let rest = linked (some l.hash) ls in
      if not (same_option l.previous_hash previous) then false else rest

  unfoldable pub verify : ProvenanceChain → Bool
  verify c =
      if not (linked none c.links)
      then false
      else ite (String_discrete (recompute_chain_hash c).chain_hash c.chain_hash) true false

  unfoldable pub timeline : ProvenanceChain → List (EventTime × ReceptionTime × ProvenanceLinkType)
  timeline c = map (λ l. (l.event_time, l.reception_time, l.link_type)) c.links

  -- `last - first`, in nanoseconds.
  unfoldable pub delay : List ProvenanceLink → ℤ
  delay [] = pos 0
  delay (first ∷ ls) = elim (back (first ∷ ls)) [
    | none ↦ pos 0
    | some last ↦ sub_ℕ last.reception_time first.event_time
  ]

  unfoldable pub total_propagation_delay : ProvenanceChain → ℤ
  total_propagation_delay c = delay c.links

  pub record ProvenanceVerifier : Type 0 where
    pub station_keys : Map String String

  unfoldable pub new_verifier : ProvenanceVerifier
  new_verifier = record { station_keys = [] }

  unfoldable pub add_station_key : String → String → ProvenanceVerifier → ProvenanceVerifier
  add_station_key station_id public_key v = record v {
    station_keys = insert String_discrete station_id public_key v.station_keys;
  }

  unfoldable pub is_handoff : ProvenanceLinkType → Bool
  is_handoff (federation_handoff from_station to_station) = true
  is_handoff _ = false

  -- A signature that is there and empty.
  unfoldable pub is_blank : Option String → Bool
  is_blank none = false
  is_blank (some signature) = ite (String_discrete signature "") true false

  unfoldable pub all_signed : List ProvenanceLink → Bool
  all_signed [] = true
  all_signed (l ∷ ls) =
      let rest = all_signed ls in
      if is_handoff l.link_type && is_blank l.signature then false else rest

  -- `Ok` in every case; the keys are not used.
  unfoldable pub verify_federated_chain : ProvenanceChain → ProvenanceVerifier → Bool
  verify_federated_chain c v = if not (verify c) then false else all_signed c.links

  -- The inner loop, then the outer one.
  unfoldable pub count_near : EventTime → List ProvenanceLink → ℕ
  count_near t [] = 0
  count_near t (l ∷ ls) = (if ltb (millis_apart t l.event_time) 100 then 1 else 0) + count_near t ls

  unfoldable pub matched_links : List ProvenanceLink → List ProvenanceLink → ℕ
  matched_links [] ks = 0
  matched_links (l ∷ ls) ks = count_near l.event_time ks + matched_links ls ks

  -- The texts of `details`.
  pub data Details : Type 0 where
    chains_invalid : Details
    different_satellites : Details
    matched : (links : ℤ) → (of_links : ℕ) → Details

  pub record CrossVerificationResult : Type 0 where
    pub match_rate : out.F64
    pub bitemporal_consistency : Bool
    pub details : Details

  abbrev pub mismatch : Details → CrossVerificationResult
  mismatch details = record {
    match_rate = out.zero_f64;
    bitemporal_consistency = false;
    details = details;
  }

  -- The comparison of the links of two chains.
  unfoldable pub compare_links : List ProvenanceLink → List ProvenanceLink → CrossVerificationResult
  compare_links ls ks =
      let found = matched_links ls ks in
      let total = length ls + length ks in
      let rate = if ltb 0 total then out.ratio (wrap_i32 (2 * found)) total else out.zero_f64 in
      record {
        match_rate = rate;
        bitemporal_consistency = out.above_08 rate;
        details = matched (wrap_i32 found) (total / 2);
      }

  unfoldable pub cross_verify_chains :
      ProvenanceChain → ProvenanceChain → ProvenanceVerifier → CrossVerificationResult
  cross_verify_chains c d v =
      if not (verify c) || not (verify d)
      then mismatch chains_invalid
      else if not (ite (String_discrete c.satellite_id d.satellite_id) true false)
      then mismatch different_satellites
      else compare_links c.links d.links
