-- ===== src/RfLayer/Sdr.antt =====
-- rf-layer/src/sdr.rs: samples, the handle of an SDR, and the ring buffer of samples. The
-- floating-point numbers are a parameter. The atomic counters are read and written by one task.
pub mod Ring
use Prim.Native.String.{String}
use ground_core.Common.Tests.{
  ℕ, zero, suc, ◌+◌, ◌-◌, ◌%◌, min, ltb, List, [], ◌∷◌, if◌then◌else◌, sub_u64, u64_mod,
}
use ground_core.Common.Lists.{length, take}
use ground_core.Common.Ring.{write_loop, read_loop}
use ground_core.Common.Result.{Result, ok, err}

pub record Sample (F32 : Type 0) : Type 0 where
  pub i : F32
  pub q : F32
  pub event_time : ℕ
  pub reception_time : ℕ
  pub id : ℕ  -- SampleId, a u64

pub record SdrHandle : Type 0 where
  pub device_id : String
  pub sample_counter : ℕ  -- u64

-- `GroundStationError::RfProcessing`, by its text.
pub data RfError : Type 0 where
  ring_buffer_overflow : RfError
  no_shadow_available : RfError

unfoldable pub new_handle : String → SdrHandle
new_handle device_id = record { device_id = device_id; sample_counter = 0 }

module _ {F32 : Type 0} (zero_f32 : F32) where
  -- The loop over a buffer of `n` samples; `clock` yields the reading for a sample's number.
  unfoldable pub read_samples : (ℕ → ℕ) → ℕ → SdrHandle → List (Sample F32) × SdrHandle
  read_samples clock zero h = ([], h)
  read_samples clock (suc n) h =
      let id = h.sample_counter in
      let sample : Sample F32 = record {
        i = zero_f32;
        q = zero_f32;
        event_time = clock id;
        reception_time = clock id;
        id = id;
      } in
      let (rest, h') =
        read_samples clock n (record h { sample_counter = (h.sample_counter + 1) % u64_mod }) in
      (sample ∷ rest, h')

  -- The sample that `new` fills the buffer with; the two readings of the clock are stored apart.
  abbrev pub blank : ℕ → ℕ → Sample F32
  blank now now' = record {
    i = zero_f32;
    q = zero_f32;
    event_time = now;
    reception_time = now';
    id = 0;
  }

-- `vec![x; n]`.
unfoldable pub replicate {ℓ} : {A : Type ℓ} → ℕ → A → List A
replicate zero x = []
replicate (suc n) x = x ∷ replicate n x

-- The buffer holds samples, which are moved only, so they are of any type.
pub record SampleRingBuffer (A : Type 0) : Type 0 where
  pub buffer : List A
  pub head : ℕ  -- u64, counts what was written
  pub tail : ℕ  -- u64, counts what was read
  pub capacity : ℕ

module _ {A : Type 0} where
  unfoldable pub new : A → ℕ → SampleRingBuffer A
  new x capacity = record { buffer = replicate capacity x; head = 0; tail = 0; capacity = capacity }

  unfoldable pub write : List A → SampleRingBuffer A → Result RfError ℕ × SampleRingBuffer A
  write samples r =
      let available = sub_u64 r.capacity (sub_u64 r.head r.tail) in
      let count = min (length samples) available in
      if ltb available (length samples) then (err ring_buffer_overflow, r) else (
        ok count,
        record r {
          buffer = write_loop r.capacity r.buffer r.head (take count samples);
          head = (r.head + count) % u64_mod;
        },
      )

  -- `wanted` is the length of the caller's buffer; the first argument is what a read out of range
  -- would yield.
  unfoldable pub read : A → ℕ → SampleRingBuffer A → List A × SampleRingBuffer A
  read d wanted r =
      let count = min wanted (sub_u64 r.head r.tail) in
      (read_loop d r.capacity r.buffer r.tail count, record r { tail = (r.tail + count) % u64_mod })
