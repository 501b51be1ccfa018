-- ===== src/Hardware/Breaker.antt =====
-- hardware/src/pool.rs, the circuit breaker of a device. A method returns the new breaker; the
-- reading of the clock that it takes is an argument.
pub mod Trips
use ground_core.Common.Tests.{
  ℕ, ◌+◌, ◌%◌, Bool, true, false, List, [], ◌∷◌, ite, leb, if◌then◌else◌, u32_mod,
}
use ground_core.Common.Int.{pos, leb_ℤ}
use ground_core.Common.Clock.{num_seconds}

abbrev pub circuit_open_threshold : ℕ
circuit_open_threshold = 3

abbrev pub circuit_cooldown_secs : ℕ
circuit_cooldown_secs = 60

-- `Open { opened_at }` is `opened`.
pub data CircuitState : Type 0 where
  closed : CircuitState
  opened : ℕ → CircuitState
  half_open : CircuitState

pub record CircuitBreaker : Type 0 where
  pub state : CircuitState
  pub consecutive_failures : ℕ  -- u32
  pub total_trips : ℕ  -- u32

unfoldable pub new : CircuitBreaker
new = record { state = closed; consecutive_failures = 0; total_trips = 0 }

unfoldable pub record_failure : ℕ → CircuitBreaker → CircuitBreaker
record_failure now b =
    let failures = (b.consecutive_failures + 1) % u32_mod in
    if leb circuit_open_threshold failures
    then record {
      state = opened now;
      consecutive_failures = failures;
      total_trips = (b.total_trips + 1) % u32_mod;
    }
    else record b { consecutive_failures = failures }

unfoldable pub record_success : CircuitBreaker → CircuitBreaker
record_success b = record b { consecutive_failures = 0; state = closed }

-- The match of `allows_allocation` on the state.
attempt : CircuitState → ℕ → CircuitBreaker → Bool × CircuitBreaker
attempt closed now b = (true, b)
attempt half_open now b = (true, b)
attempt (opened opened_at) now b =
    if leb_ℤ (pos circuit_cooldown_secs) (num_seconds now opened_at)
    then (true, record b { state = half_open })
    else (false, b)

unfoldable pub allows_allocation : ℕ → CircuitBreaker → Bool × CircuitBreaker
unfolding attempt
allows_allocation now b = attempt b.state now b
