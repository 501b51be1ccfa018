-- ===== src/Common/Clock.antt =====
-- Readings of the wall clock, `DateTime<Utc>`, as nanoseconds since an epoch before all of them.
-- The clock may step back, so a difference of two readings is signed.
use ground_core.Common.Tests.{ℕ, ◌-◌, ◌/◌, leb, if◌then◌else◌}
use ground_core.Common.Int.{ℤ, pos, sub_ℕ}

abbrev pub nanos_per_second : ℕ
nanos_per_second = 1000000000

-- `(later - earlier).num_seconds()`: whole seconds, rounded toward zero.
abbrev pub num_seconds : ℕ → ℕ → ℤ
num_seconds later earlier =
    if leb earlier later
    then pos ((later - earlier) / nanos_per_second)
    else sub_ℕ 0 ((earlier - later) / nanos_per_second)
