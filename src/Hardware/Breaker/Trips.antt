-- ===== src/Hardware/Breaker/Trips.antt =====
-- When a circuit breaker opens, and what a half-open one permits.
use ground_core.Common.Tests.{
  ℕ, suc, ◌+◌, ◌-◌, ◌≤◌, ◌<◌, ◌≡◌, ◌≢◌, refl, Bool, true, false, List, [], ◌∷◌, arith, ltb,
  if◌then◌else◌, u32_mod,
}
use ground_core.Common.Lists.{length}
use ground_core.Common.Int.{pos, leb_ℤ}
use ground_core.Common.Clock.{num_seconds}
use ground_core.Hardware.Breaker.{
  CircuitState, closed, opened, half_open, CircuitBreaker, new, record_failure, record_success,
  allows_allocation,
}

-- Failures in a row, the latest at the head.
unfoldable pub fail_all : List ℕ → CircuitBreaker → CircuitBreaker
fail_all [] b = b
fail_all (t ∷ ts) b = record_failure t (fail_all ts b)

-- What `ts` failures in a row make of a new breaker.
abbrev pub state_after : List ℕ → CircuitState
state_after [] = closed
state_after (t ∷ ts) = if ltb (length ts) 2 then closed else opened t

fail_all_lem :
    (ts : List ℕ)
    → length ts < u32_mod
    → fail_all ts new ≡ record {
      state = state_after ts;
      consecutive_failures = length ts;
      total_trips = length ts - 2;
    }
unfolding fail_all new record_failure
fail_all_lem [] h = refl
fail_all_lem (t ∷ []) h = ground (arith, fail_all_lem [])
fail_all_lem (t ∷ s ∷ ts) h = ground (arith, fail_all_lem (s ∷ ts))

-- After failures at the times `ts` (the latest first) and one more at `t`, with no success between
-- and fewer than 2 ^ 32 in all, a new breaker has counted them all, has counted one trip for each
-- from the third on, and permits an allocation at time `now` exactly if there were fewer than three
-- failures or at least 60 whole seconds lie between `t` and `now`.
pub record_failure-fail_all :
    (ts : List ℕ) (t now : ℕ)
    → length ts + 1 < u32_mod
    → let b = record_failure t (fail_all ts new) in
      (b.consecutive_failures ≡ length ts + 1)
      × (b.total_trips ≡ length ts - 1)
      × ((allows_allocation now b).0
          ≡ (if ltb (length ts) 2 then true else leb_ℤ (pos 60) (num_seconds now t)))
unfolding allows_allocation record_failure
record_failure-fail_all [] t now h = ground (arith, fail_all_lem [])
record_failure-fail_all (s ∷ []) t now h = ground (arith, fail_all_lem (s ∷ []))
record_failure-fail_all (s ∷ r ∷ ts) t now h = ground (arith, fail_all_lem (s ∷ r ∷ ts))

-- What happens to a breaker.
pub data Event : Type 0 where
  failed : ℕ → Event
  succeeded : Event
  attempted : ℕ → Event

unfoldable pub step : Event → CircuitBreaker → CircuitBreaker
step (failed t) b = record_failure t b
step succeeded b = record_success b
step (attempted t) b = (allows_allocation t b).1

-- The latest event is at the head.
unfoldable pub run : List Event → CircuitBreaker → CircuitBreaker
run [] b = b
run (e ∷ es) b = step e (run es b)

-- A breaker that is not closed has seen the threshold, and the counter has not wrapped.
record Inv (n : ℕ) (b : CircuitBreaker) : Type 0 where
  counted : b.consecutive_failures ≤ n
  tripped : b.state ≢ closed → 3 ≤ b.consecutive_failures
  untripped : b.state ≡ closed → b.consecutive_failures < 3

step-Inv :
    (n : ℕ) (e : Event) (b : CircuitBreaker) → suc n < u32_mod → Inv n b → Inv (suc n) (step e b)
unfolding step record_failure record_success allows_allocation
step-Inv n (failed t) b h v = ground arith
step-Inv n succeeded b h v = ground arith
step-Inv n (attempted t) b h v = ground arith

run-Inv : (es : List Event) → length es < u32_mod → Inv (length es) (run es new)
unfolding run new
run-Inv [] h = ground arith
run-Inv (e ∷ es) h = step-Inv (length es) e (run es new) h (run-Inv es (omega arith))

-- In every history of fewer than 2 ^ 32 events of a new breaker, a breaker that is not closed has
-- at least three consecutive failures, a closed one fewer than three; so a failure at a time `t`
-- opens it again, at `t`, if it was half-open.
half_open-record_failure :
    (es : List Event) (t : ℕ)
    → length es + 1 < u32_mod
    → (((run es new).state ≡ closed) → (run es new).consecutive_failures < 3)
      × (((run es new).state ≢ closed) → 3 ≤ (run es new).consecutive_failures)
      × (((run es new).state ≡ half_open) → (record_failure t (run es new)).state ≡ opened t)
unfolding record_failure
half_open-record_failure es t h =
    let v = run-Inv es (omega arith) in (v.untripped, v.tripped, λ e. ground (arith, v.tripped))

-- The attempts made of a breaker at the times `ts`, the first at the head: were all permitted?
unfoldable pub all_allowed : List ℕ → CircuitBreaker → Bool × CircuitBreaker
all_allowed [] b = (true, b)
all_allowed (t ∷ ts) b =
    let (allowed, b') = allows_allocation t b in
    let rest = all_allowed ts b' in if allowed then rest else (false, b')

-- A half-open breaker permits any number of allocations at any times, and stays half-open, with
-- its counters as they were.
all_allowed-half_open :
    (ts : List ℕ) (b : CircuitBreaker) → b.state ≡ half_open → all_allowed ts b ≡ (true, b)
unfolding all_allowed allows_allocation
all_allowed-half_open [] b h = refl
all_allowed-half_open (t ∷ ts) b h = ground (arith, all_allowed-half_open ts b h)
