-- ===== src/RfLayer/Floats.antt =====
-- The floating-point numbers that rf-layer/src/demodulator.rs and rf-layer/src/shadow.rs use.
use ground_core.Common.Tests.{ℕ, Bool}
use ground_core.Common.Int.{ℤ}

-- The types `f64` and `f32`, and each operation on them that the code calls.
pub record Floats : Type 1 where
  pub F64 : Type 0
  pub F32 : Type 0
  pub zero_f32 : F32
  pub literal : ℕ → ℕ → F64  -- `literal m k` is the number m / 10^k
  pub pi : F64
  pub plus : F64 → F64 → F64
  pub minus : F64 → F64 → F64
  pub times : F64 → F64 → F64
  pub over : F64 → F64 → F64
  pub neg : F64 → F64
  pub abs : F64 → F64
  pub sin : F64 → F64
  pub cos : F64 → F64
  pub rem_euclid : F64 → F64 → F64
  pub clamp : F64 → F64 → F64 → F64
  pub ltb_f64 : F64 → F64 → Bool
  pub geb_f64 : F64 → F64 → Bool
  pub to_f64 : F32 → F64
  pub to_f32 : F64 → F32
  pub of_u32 : ℕ → F64
  pub to_i64 : F64 → ℤ
  pub to_bits : F64 → ℕ  -- a u64
