-- ===== src/Bitemporal/Timestamp.antt =====
-- bitemporal/src/timestamp.rs: a value with the time it was sent and the time it was received.
use ground_core.Common.Tests.{ℕ}
use ground_core.Common.Int.{ℤ, sub_ℕ}

abbrev pub EventTime : Type 0
EventTime = ℕ

abbrev pub ReceptionTime : Type 0
ReceptionTime = ℕ

pub record BiTemporal (T : Type 0) : Type 0 where
  pub value : T
  pub event_time : EventTime
  pub reception_time : ReceptionTime

unfoldable pub new : {T : Type 0} → T → EventTime → ReceptionTime → BiTemporal T
new value event_time reception_time = record {
  value = value;
  event_time = event_time;
  reception_time = reception_time;
}

-- `now` is the reading of the clock.
unfoldable pub with_current_reception : {T : Type 0} → ℕ → T → EventTime → BiTemporal T
with_current_reception now value event_time = new value event_time now

unfoldable pub map_value : {T U : Type 0} → (T → U) → BiTemporal T → BiTemporal U
map_value f b = record {
  value = f b.value;
  event_time = b.event_time;
  reception_time = b.reception_time;
}

-- In nanoseconds.
unfoldable pub propagation_delay : {T : Type 0} → BiTemporal T → ℤ
propagation_delay b = sub_ℕ b.reception_time b.event_time
