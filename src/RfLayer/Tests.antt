-- ===== src/RfLayer/Tests.antt =====
-- The rf-layer crate's theorems at concrete inputs.
use Prim.Native.String.{String}
use ground_core.Common.Tests.{
  ℕ, ◌+◌, ◌-◌, ◌*◌, ◌/◌, ◌%◌, ◌^◌, min, ltb, leb, Bool, true, false, List, [], ◌∷◌, ◌++◌, none,
  some, ◌≡◌, refl, arith,
}
use ground_core.Common.Fifo.{puts, gets, run, strict}
use ground_core.Common.Int.{pos}
use ground_core.Common.Lists.{count}
use ground_core.Common.Result.{ok}
use ground_core.Common.Ring.{span}
use ground_core.RfLayer.Demodulator
use ground_core.RfLayer.Demodulator.{
  DemodState, with_baud_rate, process_sample, tracked, baseband_i, baseband_q, carrier_error,
  costas, advance_clock, decide, hard_decision, take_byte, assemble, shift_in,
}
use ground_core.RfLayer.Demodulator.Bytes
use ground_core.RfLayer.Demodulator.Bytes.{decided, receive, receive_lem}
use ground_core.RfLayer.Floats.{Floats}
use ground_core.RfLayer.Sdr.{Sample, SdrHandle, SampleRingBuffer}
use ground_core.RfLayer.Sdr.Ring.{IsValid, ring, run-strict}
use ground_core.RfLayer.Shadow
use ground_core.RfLayer.Shadow.{PassAcquisition, process_primary_sample, promote_shadow}
use ground_core.RfLayer.Shadow.Failover
use ground_core.RfLayer.Shadow.Failover.{Received, Restored, state_after, promote_shadow-Received}
use ground_core.RfLayer.Tracker.{ShadowTracker}
use ground_core.RfLayer.Tracker.Kept
use ground_core.RfLayer.Tracker.Kept.{known, all_overwritten, known-run}

abbrev wrapped : SampleRingBuffer ℕ
wrapped = record { buffer = 7 ∷ 5 ∷ 6 ∷ []; capacity = 3; head = 4; tail = 2 }

wrapped-IsValid : IsValid 0 wrapped
wrapped-IsValid = record {
  storage = omega arith;
  behind = omega arith;
  within = omega arith;
  small = omega arith;
  counts = omega arith;
}

run-strict_example :
    run (ring 0) (puts (8 ∷ []) ∷ puts (9 ∷ []) ∷ gets 2 ∷ []) wrapped
    ≡ run (strict 3) (puts (8 ∷ []) ∷ puts (9 ∷ []) ∷ gets 2 ∷ []) (6 ∷ 7 ∷ [])
unfolding span
run-strict_example =
    run-strict 0 (puts (8 ∷ []) ∷ puts (9 ∷ []) ∷ gets 2 ∷ []) wrapped wrapped-IsValid (omega arith)

-- Numbers in thousandths, which have no sign.
abbrev thousandths : Floats
thousandths = record {
  F64 = ℕ;
  F32 = ℕ;
  zero_f32 = 0;
  literal = λ m k. m * 1000 / 10 ^ k;
  pi = 3142;
  plus = λ a b. a + b;
  minus = λ a b. a - b;
  times = λ a b. a * b / 1000;
  over = λ a b. a * 1000 / b;
  neg = λ a. a;
  abs = λ a. a;
  sin = λ a. a;
  cos = λ a. 1000;
  rem_euclid = λ a b. a % b;
  clamp = λ a lo hi. min a hi;
  ltb_f64 = λ a b. ltb a b;
  geb_f64 = λ a b. leb b a;
  to_f64 = λ a. a;
  to_f32 = λ a. a;
  of_u32 = λ n. n * 1000;
  to_i64 = λ a. pos (a / 1000);
  to_bits = λ a. a;
}

abbrev sample : ℕ → Sample ℕ
sample id = record { i = 1000; q = 0; event_time = 5; reception_time = 6; id = id }

abbrev samples : List (Sample ℕ)
samples =
    sample 1
    ∷ sample 2
    ∷ sample 3
    ∷ sample 4
    ∷ sample 5
    ∷ sample 6
    ∷ sample 7
    ∷ sample 8
    ∷ sample 9
    ∷ []

-- One sample for each symbol.
abbrev fast : DemodState thousandths
fast = with_baud_rate thousandths 9600 9600

fast-IsValid : Bytes.IsValid thousandths fast
unfolding with_baud_rate Demodulator.new
fast-IsValid = record { bits = tt; few = omega arith }

receive_lem_example :
    Bytes.Yields thousandths
      (fast.bit_buffer ++ decided thousandths samples fast)
      (receive thousandths samples fast)
receive_lem_example = receive_lem thousandths samples fast fast-IsValid

received_bytes : (receive thousandths samples fast).0 ≡ 255 ∷ []
unfolding receive process_sample tracked baseband_i baseband_q carrier_error costas advance_clock
    decide hard_decision take_byte assemble shift_in with_baud_rate Demodulator.new
    Demodulator.new_sync
received_bytes = refl

abbrev radio : String → SdrHandle
radio device_id = record { device_id = device_id; sample_counter = 0 }

abbrev digest : List ℕ → List ℕ
digest bytes = bytes

abbrev fresh_pass : PassAcquisition thousandths digest ℕ ℕ
fresh_pass = Shadow.new thousandths digest ℕ ℕ 3 "pass" (radio "a") (some (radio "b")) 7

abbrev after_one : PassAcquisition thousandths digest ℕ ℕ
after_one = (process_primary_sample thousandths digest ℕ ℕ (sample 60) fresh_pass).1

after_one-Received : Received thousandths digest ℕ ℕ (sample 60 ∷ []) after_one
unfolding Shadow.new
after_one-Received =
    Failover.receives (Failover.begins 3 "pass" (radio "a") (some (radio "b")) 7) (sample 60)
      (omega arith) (omega arith)

promote_shadow-Received_example :
    let (answer, a') = promote_shadow thousandths digest ℕ ℕ after_one in
    (after_one.shadow_state ≡ state_after thousandths digest ℕ ℕ (sample 60 ∷ []))
    × (answer ≡ ok tt)
    × (a'.primary ≡ radio "b")
    × (a'.shadow ≡ none)
    × (a'.shadow_active ≡ false)
    × Restored thousandths digest ℕ ℕ (sample 60 ∷ []) after_one.snapshot_manager a'.primary_state
unfolding Shadow.new process_primary_sample
promote_shadow-Received_example =
    promote_shadow-Received thousandths digest ℕ ℕ (radio "b") after_one-Received refl refl

abbrev pool : ShadowTracker
pool = record {
  available_shadows = radio "a" ∷ radio "b" ∷ [];
  allocated_shadows = ("p", radio "c") ∷ [];
}

abbrev busy_calls : List Kept.Call
busy_calls = Kept.allocates "p" ∷ Kept.adds (radio "d") ∷ Kept.releases "p" ∷ []

abbrev any_shadow : SdrHandle → Bool
any_shadow h = true

known-run_example :
    known any_shadow (Kept.run busy_calls pool) + count any_shadow (all_overwritten busy_calls pool)
    ≡ 4
known-run_example = known-run any_shadow busy_calls pool (tt, tt)
