-- ===== src/Bitemporal/Log.antt =====
-- bitemporal/src/log.rs. The texts of serde_json and the digest of the sha2 crate are parameters,
-- as are the floating-point numbers and the values of serde_json.
pub mod Verify
use Prim.Native.String.{String}
use ground_core.Common.Tests.{
  ℕ, Bool, true, false, not, List, [], ◌∷◌, ◌++◌, Option, none, some, ite, leb, if◌then◌else◌,
  String_discrete,
}
use ground_core.Common.Lists.{length}
use ground_core.Common.Result.{Result, ok, err}
use ground_core.Common.Maps.{Map, get, insert, values}
use ground_core.Bitemporal.Timestamp.{EventTime, ReceptionTime}

pub data LogEntryType (F32 : Type 0) : Type 0 where
  sample_received : (sample_id frequency : ℕ) → (snr : F32) → LogEntryType F32
  demodulator_state_change : (carrier_locked symbol_sync : Bool) → LogEntryType F32
  hardware_allocation : (device_id hardware_type : String) → LogEntryType F32
  hardware_release : (device_id : String) → LogEntryType F32
  pass_started : (satellite_id : String) → (expected_duration_sec : ℕ) → LogEntryType F32
  pass_completed : (samples_received bytes_decoded : ℕ) → LogEntryType F32
  pass_failed : (reason : String) → LogEntryType F32
  shadow_promoted : (from_device to_device : String) → LogEntryType F32
  scheduler_decision : (decision_type rationale : String) → LogEntryType F32
  federation_event : (peer_station event_type : String) → LogEntryType F32
  error : (error_type message : String) → LogEntryType F32

-- The bytes of a text, the bytes of the serialized fields, and the digest in hexadecimal of all
-- the bytes that the hasher was fed, in their order.
pub record Encoding : Type 1 where
  pub F32 : Type 0
  pub Json : Type 0
  pub text_bytes : String → List ℕ
  pub type_bytes : LogEntryType F32 → List ℕ
  pub time_bytes : ℕ → List ℕ
  pub json_bytes : Json → List ℕ
  pub digest : List ℕ → String

-- `GroundStationError::Database`, with one of two texts.
pub data LogError : Type 0 where
  verification_failed : LogError
  chain_broken : LogError

module _ (enc : Encoding) where
  pub record LogEntry : Type 0 where
    pub entry_id : String
    pub pass_id : String
    pub entry_type : LogEntryType enc.F32
    pub event_time : EventTime
    pub reception_time : ReceptionTime
    pub data_value : enc.Json
    pub hash : String
    pub previous_hash : Option String

  abbrev pub previous_bytes : Option String → List ℕ
  previous_bytes none = []
  previous_bytes (some prev) = enc.text_bytes prev

  unfoldable pub compute_hash :
      String
      → String
      → LogEntryType enc.F32
      → EventTime
      → ReceptionTime
      → enc.Json
      → Option String
      → String
  compute_hash entry_id pass_id entry_type event_time reception_time data_value previous_hash =
      enc.digest (
        enc.text_bytes entry_id
        ++ (enc.text_bytes pass_id
            ++ (enc.type_bytes entry_type
                ++ (enc.time_bytes event_time
                    ++ (enc.time_bytes reception_time
                        ++ (enc.json_bytes data_value ++ previous_bytes previous_hash))))))

  -- The identifier is a new UUID.
  unfoldable pub new_entry :
      String
      → String
      → LogEntryType enc.F32
      → EventTime
      → ReceptionTime
      → enc.Json
      → Option String
      → LogEntry
  new_entry uuid pass_id entry_type event_time reception_time data_value previous_hash = record {
    entry_id = uuid;
    pass_id = pass_id;
    entry_type = entry_type;
    event_time = event_time;
    reception_time = reception_time;
    data_value = data_value;
    hash = compute_hash uuid pass_id entry_type event_time reception_time data_value previous_hash;
    previous_hash = previous_hash;
  }

  -- The hash that `verify` computes.
  abbrev pub hash_of : LogEntry → String
  hash_of e =
      compute_hash e.entry_id e.pass_id e.entry_type e.event_time e.reception_time e.data_value
        e.previous_hash

  unfoldable pub verify : LogEntry → Bool
  verify e = ite (String_discrete (hash_of e) e.hash) true false

  pub record BitemporalLog : Type 0 where
    pub entries : Map String LogEntry
    pub pass_entries : Map String (List String)
    pub latest_hash : Option String

  unfoldable pub new : BitemporalLog
  new = record { entries = []; pass_entries = []; latest_hash = none }

  -- `a == b` of two optional hashes.
  unfoldable pub same_hash : Option String → Option String → Bool
  same_hash none none = true
  same_hash none (some b) = false
  same_hash (some a) none = false
  same_hash (some a) (some b) = ite (String_discrete a b) true false

  -- Does the entry follow on the latest hash, if there is one?
  unfoldable pub follows : Option String → LogEntry → Bool
  follows none e = true
  follows (some latest) e = same_hash e.previous_hash (some latest)

  abbrev pub ids_or_new : Option (List String) → List String
  ids_or_new none = []
  ids_or_new (some ids) = ids

  -- `pass_entries.entry(pass_id).or_default().push(entry_id)`.
  unfoldable pub push_id : String → String → Map String (List String) → Map String (List String)
  push_id pass_id entry_id m =
      insert String_discrete pass_id (ids_or_new (get String_discrete pass_id m) ++ (entry_id ∷ []))
        m

  unfoldable pub append : LogEntry → BitemporalLog → Result LogError (Unit {0}) × BitemporalLog
  append e log =
      if not (verify e)
      then (err verification_failed, log)
      else (if not (follows log.latest_hash e) then (err chain_broken, log) else (
        ok tt,
        record {
          entries = insert String_discrete e.entry_id e log.entries;
          pass_entries = push_id e.pass_id e.entry_id log.pass_entries;
          latest_hash = some e.hash;
        },
      ))

  -- `sort_by_key` on the reception time; entries of the same time keep their order.
  unfoldable pub insert_sorted : LogEntry → List LogEntry → List LogEntry
  insert_sorted e [] = e ∷ []
  insert_sorted e (x ∷ xs) =
      let rest = insert_sorted e xs in
      if leb e.reception_time x.reception_time then e ∷ x ∷ xs else x ∷ rest

  unfoldable pub sort : List LogEntry → List LogEntry
  sort [] = []
  sort (e ∷ es) = insert_sorted e (sort es)

  -- The loop of `verify_chain`.
  unfoldable pub check_chain : Option String → List LogEntry → Bool
  check_chain previous_hash [] = true
  check_chain previous_hash (e ∷ es) =
      let rest = check_chain (some e.hash) es in
      if not (same_hash e.previous_hash previous_hash)
      then false
      else (if not (verify e) then false else rest)

  unfoldable pub verify_chain : BitemporalLog → Bool
  verify_chain log = check_chain none (sort (values log.entries))

  unfoldable pub get_entry : String → BitemporalLog → Option LogEntry
  get_entry entry_id log = get String_discrete entry_id log.entries

  -- `ids.iter().filter_map(|id| self.entries.get(id)).collect()`.
  unfoldable pub known_entries : Map String LogEntry → List String → List LogEntry
  known_entries m [] = []
  known_entries m (id ∷ ids) =
      let rest = known_entries m ids in
      elim (get String_discrete id m) [ none ↦ rest | some e ↦ e ∷ rest ]

  unfoldable pub get_pass_entries : String → BitemporalLog → List LogEntry
  get_pass_entries pass_id log = elim (get String_discrete pass_id log.pass_entries) [
    | none ↦ []
    | some ids ↦ known_entries log.entries ids
  ]

pub record LogStats : Type 0 where
  pub total_entries : ℕ
  pub total_passes : ℕ
  pub latest_hash : Option String
  pub chain_valid : Bool

unfoldable pub stats : (enc : Encoding) → BitemporalLog enc → LogStats
stats enc log = record {
  total_entries = length log.entries;
  total_passes = length log.pass_entries;
  latest_hash = log.latest_hash;
  chain_valid = verify_chain enc log;
}
