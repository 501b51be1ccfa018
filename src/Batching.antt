-- ===== src/Batching.antt =====
-- The batching crate (batching/src): the batchers of symbols (demodulator.rs), of log entries
-- (log.rs) and of orbital elements (tle.rs). An identifier is a new UUID, an argument.
pub mod Delivery
mod Tests
use Prim.Native.String.{String}
use ground_core.Common.Tests.{
  ℕ, ◌+◌, ◌%◌, Bool, leb, List, [], ◌∷◌, ◌++◌, Option, none, some, String_discrete, u64_mod,
}
use ground_core.Common.Lists.{length}
use ground_core.Common.Maps.{Map, insert}
use ground_core.Bitemporal.Timestamp.{BiTemporal}

pub record DemodulatorBatch : Type 0 where
  pub batch_id : String
  pub symbols : List (BiTemporal ℕ)
  pub sequence : ℕ  -- u64

pub record DemodulatorBatcher : Type 0 where
  pub pending_symbols : List (BiTemporal ℕ)
  pub batch_size : ℕ
  pub sequence : ℕ

unfoldable pub new : ℕ → DemodulatorBatcher
new batch_size = record { pending_symbols = []; batch_size = batch_size; sequence = 0 }

unfoldable pub add_symbol : BiTemporal ℕ → DemodulatorBatcher → DemodulatorBatcher
add_symbol symbol b = record b { pending_symbols = b.pending_symbols ++ (symbol ∷ []) }

unfoldable pub is_ready : DemodulatorBatcher → Bool
is_ready b = leb b.batch_size (length b.pending_symbols)

unfoldable pub flush : String → DemodulatorBatcher → Option DemodulatorBatch × DemodulatorBatcher
flush uuid b = elim b.pending_symbols [
  | [] ↦ (none, b)
  | x ∷ xs ↦ (
    some (record { batch_id = uuid; symbols = x ∷ xs; sequence = b.sequence }),
    record b { pending_symbols = []; sequence = (b.sequence + 1) % u64_mod },
  )
]

unfoldable pub force_flush :
    String → DemodulatorBatcher → Option DemodulatorBatch × DemodulatorBatcher
force_flush uuid b = flush uuid b

-- Log entries are moved only, so they are of any type.
pub record LogBatch (LogEntry : Type 0) : Type 0 where
  pub batch_id : String
  pub entries : List LogEntry
  pub created_at : ℕ

pub record LogBatcher (LogEntry : Type 0) : Type 0 where
  pub pending_entries : List LogEntry
  pub batch_size : ℕ

module _ {LogEntry : Type 0} where
  unfoldable pub new_log_batcher : ℕ → LogBatcher LogEntry
  new_log_batcher batch_size = record { pending_entries = []; batch_size = batch_size }

  unfoldable pub add_entry : LogEntry → LogBatcher LogEntry → LogBatcher LogEntry
  add_entry entry b = record b { pending_entries = b.pending_entries ++ (entry ∷ []) }

  unfoldable pub log_is_ready : LogBatcher LogEntry → Bool
  log_is_ready b = leb b.batch_size (length b.pending_entries)

  -- `now` is the time of the batch.
  unfoldable pub flush_log :
      String → ℕ → LogBatcher LogEntry → Option (LogBatch LogEntry) × LogBatcher LogEntry
  flush_log uuid now b = elim b.pending_entries [
    | [] ↦ (none, b)
    | x ∷ xs ↦ (
      some (record { batch_id = uuid; entries = x ∷ xs; created_at = now }),
      record b { pending_entries = [] },
    )
  ]

pub record TleData : Type 0 where
  pub line1 : String
  pub line2 : String
  pub epoch : ℕ

pub record TleBatch : Type 0 where
  pub batch_id : String
  pub created_at : ℕ
  pub tles : Map String TleData
  pub snapshot_time : ℕ

pub record TleBatcher : Type 0 where
  pub pending_tles : Map String TleData
  pub batch_size : ℕ

unfoldable pub new_tle_batcher : ℕ → TleBatcher
new_tle_batcher batch_size = record { pending_tles = []; batch_size = batch_size }

unfoldable pub add_tle : String → TleData → TleBatcher → TleBatcher
add_tle satellite_id tle b = record b {
  pending_tles = insert String_discrete satellite_id tle b.pending_tles;
}

unfoldable pub tle_is_ready : TleBatcher → Bool
tle_is_ready b = leb b.batch_size (length b.pending_tles)

-- The clock is read twice.
unfoldable pub flush_tles : String → ℕ → ℕ → TleBatcher → Option TleBatch × TleBatcher
flush_tles uuid now now' b = elim b.pending_tles [
  | [] ↦ (none, b)
  | x ∷ xs ↦ (
    some (record { batch_id = uuid; created_at = now; tles = x ∷ xs; snapshot_time = now' }),
    record b { pending_tles = [] },
  )
]

unfoldable pub pending_count : TleBatcher → ℕ
pending_count b = length b.pending_tles
