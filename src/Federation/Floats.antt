-- ===== src/Federation/Floats.antt =====
-- `f64` in federation/src: `m / 10^k` for `literal m k`, its comparisons, operations and casts.
use ground_core.Common.Tests.{ℕ, Bool}
use ground_core.Common.Int.{ℤ}

pub record Floats : Type 1 where
  pub F64 : Type 0
  pub literal : ℕ → ℕ → F64
  pub ge : F64 → F64 → Bool
  pub gt : F64 → F64 → Bool
  pub eq : F64 → F64 → Bool
  pub plus : F64 → F64 → F64
  pub minus : F64 → F64 → F64
  pub times : F64 → F64 → F64
  pub over : F64 → F64 → F64
  pub min : F64 → F64 → F64
  pub max : F64 → F64 → F64
  pub of_i64 : ℤ → F64
