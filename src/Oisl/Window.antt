-- ===== src/Oisl/Window.antt =====
-- oisl/src/lib.rs: time windows and priorities.
use ground_core.Common.Tests.{ℕ, ltb, leb, Bool, true, false, ◌&&◌}
use ground_core.Common.Int.{ℤ, sub_ℕ}

-- `end` is `stop`.
pub record TimeWindow : Type 0 where
  pub start : ℕ
  pub stop : ℕ

-- `end - start`, in nanoseconds.
unfoldable pub duration : TimeWindow → ℤ
duration w = sub_ℕ w.stop w.start

unfoldable pub contains_time : TimeWindow → ℕ → Bool
contains_time w timestamp = leb w.start timestamp && leb timestamp w.stop

unfoldable pub overlaps : TimeWindow → TimeWindow → Bool
overlaps w v = ltb w.start v.stop && ltb v.start w.stop

pub data Priority : Type 0 where
  critical high medium low background : Priority

-- The derived order.
unfoldable pub rank : Priority → ℕ
rank critical = 0
rank high = 1
rank medium = 2
rank low = 3
rank background = 4

-- `priority == Priority::Critical`.
unfoldable pub is_critical : Priority → Bool
is_critical critical = true
is_critical _ = false

pub data PreemptionReason : Type 0 where
  higher_priority_task emergency_response regulatory_compliance : PreemptionReason
  resource_exhaustion : PreemptionReason
