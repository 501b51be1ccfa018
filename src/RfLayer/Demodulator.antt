-- ===== src/RfLayer/Demodulator.antt =====
-- rf-layer/src/demodulator.rs: the state of the demodulator and what a sample does to it. The
-- floating-point numbers are the record `Floats`; bits and bytes are numbers.
pub mod Digits
pub mod Bytes
pub mod Snapshot
pub mod Output
use Prim.Native.Nat.{bit_or}
use ground_core.Common.Tests.{
  ℕ, ◌*◌, ◌%◌, leb, Bool, true, false, ◌&&◌, List, [], ◌∷◌, ◌++◌, Option, none, some, if◌then◌else◌,
}
use ground_core.Common.Int.{ℤ, pos}
use ground_core.Common.Lists.{length, take}
use ground_core.Common.Ring.{drop}
use ground_core.RfLayer.Floats.{Floats}
use ground_core.RfLayer.Sdr.{Sample}

-- `(acc << 1) | b` of `u8`, over the drained bits.
unfoldable pub shift_in : ℕ → ℕ → ℕ
shift_in acc b = bit_or (acc * 2 % 256) b

unfoldable pub assemble : ℕ → List ℕ → ℕ
assemble acc [] = acc
assemble acc (b ∷ bits) = assemble (shift_in acc b) bits

module _ (fl : Floats) where
  abbrev pub costas_alpha : fl.F64
  costas_alpha = fl.literal 2 2

  abbrev pub costas_beta : fl.F64
  costas_beta = fl.literal 4 4

  abbrev pub gardner_gain : fl.F64
  gardner_gain = fl.literal 2 2

  abbrev pub default_samples_per_symbol : fl.F64
  default_samples_per_symbol = fl.literal 8 0

  abbrev zero_f64 : fl.F64
  zero_f64 = fl.literal 0 0

  abbrev one_f64 : fl.F64
  one_f64 = fl.literal 1 0

  abbrev half_f64 : fl.F64
  half_f64 = fl.literal 5 1

  abbrev two_pi : fl.F64
  two_pi = fl.times (fl.literal 2 0) fl.pi

  pub record SymbolSyncState : Type 0 where
    pub timing_offset : fl.F64
    pub clock_phase : fl.F64
    pub error_accumulator : fl.F64

  unfoldable pub new_sync : SymbolSyncState
  new_sync = record {
    timing_offset = zero_f64;
    clock_phase = zero_f64;
    error_accumulator = zero_f64;
  }

  pub record DemodState : Type 0 where
    pub nco_phase : fl.F64
    pub frequency_offset : ℤ
    pub symbol_sync : SymbolSyncState
    pub carrier_locked : Bool
    pub bit_buffer : List ℕ
    pub last_sample_id : ℕ
    pub carrier_phase_rad : fl.F64
    pub carrier_freq_rad_per_sample : fl.F64
    pub samples_per_symbol : fl.F64
    pub symbol_phase : fl.F64
    pub prev_decision_i : fl.F32
    pub midpoint_i : fl.F32

  unfoldable pub new : DemodState
  new = record {
    nco_phase = zero_f64;
    frequency_offset = pos 0;
    symbol_sync = new_sync;
    carrier_locked = false;
    bit_buffer = [];
    last_sample_id = 0;
    carrier_phase_rad = zero_f64;
    carrier_freq_rad_per_sample = zero_f64;
    samples_per_symbol = default_samples_per_symbol;
    symbol_phase = zero_f64;
    prev_decision_i = fl.zero_f32;
    midpoint_i = fl.zero_f32;
  }

  unfoldable pub with_baud_rate : ℕ → ℕ → DemodState
  with_baud_rate sample_rate_hz baud_rate_hz = record new {
    samples_per_symbol = fl.over (fl.of_u32 sample_rate_hz) (fl.of_u32 baud_rate_hz);
  }

  -- The sample in the baseband: its real and its imaginary part.
  unfoldable pub baseband_i : Sample fl.F32 → DemodState → fl.F64
  baseband_i x s =
      fl.plus (fl.times (fl.to_f64 x.i) (fl.cos s.carrier_phase_rad))
        (fl.times (fl.to_f64 x.q) (fl.sin s.carrier_phase_rad))

  unfoldable pub baseband_q : Sample fl.F32 → DemodState → fl.F64
  baseband_q x s =
      fl.plus (fl.times (fl.neg (fl.to_f64 x.i)) (fl.sin s.carrier_phase_rad))
        (fl.times (fl.to_f64 x.q) (fl.cos s.carrier_phase_rad))

  unfoldable pub carrier_error : fl.F64 → fl.F64 → fl.F64
  carrier_error i_b q_b = if fl.geb_f64 i_b zero_f64 then q_b else fl.neg q_b

  -- The loop filter and what is derived from it.
  unfoldable pub costas : fl.F64 → DemodState → DemodState
  costas error s =
      let freq = fl.plus s.carrier_freq_rad_per_sample (fl.times costas_beta error) in
      let phase =
        fl.rem_euclid (fl.plus (fl.plus s.carrier_phase_rad freq) (fl.times costas_alpha error))
          two_pi in
      record s {
        carrier_freq_rad_per_sample = freq;
        carrier_phase_rad = phase;
        nco_phase = fl.over phase two_pi;
        frequency_offset = fl.to_i64 (fl.over (fl.times freq (fl.literal 1000000 0)) two_pi);
        carrier_locked = fl.ltb_f64 (fl.abs error) (fl.literal 1 1);
      }

  -- One step of the symbol clock.
  unfoldable pub advance_clock : fl.F64 → DemodState → DemodState
  advance_clock i_b s =
      let phase = fl.plus s.symbol_phase (fl.over one_f64 s.samples_per_symbol) in
      record s {
        symbol_phase = phase;
        midpoint_i =
            if fl.ltb_f64 s.symbol_phase half_f64 && fl.geb_f64 phase half_f64
            then fl.to_f32 i_b
            else s.midpoint_i;
      }

  unfoldable pub hard_decision : fl.F64 → ℕ
  hard_decision i_b = if fl.geb_f64 i_b zero_f64 then 1 else 0

  -- At the boundary of a symbol: the timing correction and the decision.
  unfoldable pub decide : fl.F64 → DemodState → DemodState
  decide i_b s =
      let timing_error =
        fl.times (fl.to_f64 s.midpoint_i) (fl.minus i_b (fl.to_f64 s.prev_decision_i)) in
      let correction = fl.times gardner_gain timing_error in
      let phase = fl.abs (
        fl.clamp (fl.minus (fl.minus s.symbol_phase one_f64) correction) (fl.neg half_f64)
          half_f64) in
      record s {
        symbol_phase = phase;
        symbol_sync = record {
          timing_offset = timing_error;
          clock_phase = phase;
          error_accumulator = fl.plus s.symbol_sync.error_accumulator (fl.abs timing_error);
        };
        bit_buffer = s.bit_buffer ++ (hard_decision i_b ∷ []);
        prev_decision_i = fl.to_f32 i_b;
      }

  -- The byte of the first eight bits, if there are as many.
  unfoldable pub take_byte : DemodState → Option ℕ × DemodState
  take_byte s =
      if leb 8 (length s.bit_buffer)
      then (some (assemble 0 (take 8 s.bit_buffer)), record s { bit_buffer = drop 8 s.bit_buffer })
      else (none, s)

  -- The state after the carrier loop and the step of the symbol clock.
  unfoldable pub tracked : Sample fl.F32 → DemodState → DemodState
  tracked x s =
      let i_b = baseband_i x s in
      advance_clock i_b
        (costas (carrier_error i_b (baseband_q x s)) (record s { last_sample_id = x.id }))

  abbrev pub at_boundary : DemodState → Bool
  at_boundary s = fl.geb_f64 s.symbol_phase one_f64

  unfoldable pub process_sample : Sample fl.F32 → DemodState → Option ℕ × DemodState
  process_sample x s =
      if at_boundary (tracked x s)
      then take_byte (decide (baseband_i x s) (tracked x s))
      else (none, tracked x s)
