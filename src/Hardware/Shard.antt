-- ===== src/Hardware/Shard.antt =====
-- hardware/src/shard.rs: the memory of a pass. The arena is the allocator's and is left out; the
-- memory that a ring buffer points to is a list.
pub mod Ring
use Prim.Native.String.{String}
use ground_core.Common.Tests.{
  ℕ, ◌+◌, ◌%◌, min, leb, Bool, false, List, [], ◌∷◌, ◌++◌, Option, none, if◌then◌else◌, sub_u64,
  ℕ_discrete,
}
use ground_core.Common.Lists.{length, take}
use ground_core.Common.Maps.{Map, get, insert}
use ground_core.Common.Ring.{write_loop, read_loop}

pub record RingBuffer (A : Type 0) : Type 0 where
  pub buffer : List A
  pub capacity : ℕ
  pub head : ℕ
  pub tail : ℕ

module _ {A : Type 0} where
  unfoldable pub new_ring : List A → ℕ → RingBuffer A
  new_ring buffer capacity = record { buffer = buffer; capacity = capacity; head = 0; tail = 0 }

  -- The subtractions of `usize` wrap.
  unfoldable pub available : RingBuffer A → ℕ
  available r =
      if leb r.tail r.head
      then sub_u64 (sub_u64 r.capacity (sub_u64 r.head r.tail)) 1
      else sub_u64 (sub_u64 r.tail r.head) 1

  unfoldable pub used : RingBuffer A → ℕ
  used r =
      if leb r.tail r.head
      then sub_u64 r.head r.tail
      else sub_u64 r.capacity (sub_u64 r.tail r.head)

  unfoldable pub write : List A → RingBuffer A → ℕ × RingBuffer A
  unfolding available
  write samples r =
      let count = min (length samples) (available r) in
      (
        count,
        record r {
          buffer = write_loop r.capacity r.buffer r.head (take count samples);
          head = (r.head + count) % r.capacity;
        },
      )

  -- `wanted` is the length of the caller's buffer; the first argument is what a read out of range
  -- would yield.
  unfoldable pub read : A → ℕ → RingBuffer A → List A × RingBuffer A
  unfolding used
  read d wanted r =
      let count = min wanted (used r) in
      (
        read_loop d r.capacity r.buffer r.tail count,
        record r { tail = (r.tail + count) % r.capacity },
      )

pub data LogEntryType : Type 0 where
  sample_received demodulator_state_change hardware_allocation : LogEntryType
  error : String → LogEntryType

pub record LogEntry : Type 0 where
  pub event_time : ℕ
  pub reception_time : ℕ
  pub entry_type : LogEntryType

abbrev pub ShardLocalLog : Type 0
ShardLocalLog = Map ℕ LogEntry

unfoldable pub append : ℕ → LogEntry → ShardLocalLog → ShardLocalLog
append sample_id entry log = insert ℕ_discrete sample_id entry log

unfoldable pub get_log_entry : ℕ → ShardLocalLog → Option LogEntry
get_log_entry sample_id log = get ℕ_discrete sample_id log

pub record PassState : Type 0 where
  pub active : Bool
  pub allocated_hardware : List String
  pub demodulator_state : Option (List ℕ)
  pub sample_count : ℕ
  pub byte_count : ℕ

unfoldable pub new_state : PassState
new_state = record {
  active = false;
  allocated_hardware = [];
  demodulator_state = none;
  sample_count = 0;
  byte_count = 0;
}

-- The samples of the shard's ring buffers are of any type.
pub record PassShard (A : Type 0) : Type 0 where
  pub pass_id : String
  pub ring_buffers : List (RingBuffer A)
  pub state : PassState
  pub bitemporal_log : ShardLocalLog
  pub created_at : ℕ

module _ {A : Type 0} where
  unfoldable pub new_shard : ℕ → String → PassShard A
  new_shard now pass_id = record {
    pass_id = pass_id;
    ring_buffers = [];
    state = new_state;
    bitemporal_log = [];
    created_at = now;
  }

  unfoldable pub add_ring_buffer : RingBuffer A → PassShard A → PassShard A
  add_ring_buffer buffer s = record s { ring_buffers = s.ring_buffers ++ (buffer ∷ []) }

  unfoldable pub reset : PassShard A → PassShard A
  reset s = record s { ring_buffers = []; state = new_state; bitemporal_log = [] }
