-- ===== src/Hardware/Tests.antt =====
-- The hardware crate's theorems at concrete inputs.
use Prim.Native.String.{String}
use text.Mathlib.TextEquality.{eq_iff}
use ground_core.Common.Tests.{
  ℕ, true, false, List, [], ◌∷◌, none, some, ◌≡◌, ◌≢◌, refl, arith, ite, String_discrete,
}
use ground_core.Common.Lists.{All, Distinct, contains}
use ground_core.Common.Result.{ok, err}
use ground_core.Common.Maps.{get, insert, modify}
use ground_core.Common.Fifo.{puts, gets, run, lenient}
use ground_core.Common.Ring.{span}
use ground_core.Hardware.Shard
use ground_core.Hardware.Shard.Ring
use ground_core.Hardware.Breaker
use ground_core.Hardware.Breaker.{CircuitBreaker, half_open, opened}
use ground_core.Hardware.Breaker.Trips
use ground_core.Hardware.Breaker.Trips.{
  fail_all, failed, attempted, all_allowed, record_failure-fail_all,
}
use ground_core.Hardware.Device
use ground_core.Hardware.Device.{
  HardwareDevice, HardwareType-discrete, sdr, rotator, no_allocation, not_found,
}
use ground_core.Hardware.Pool.{
  HardwarePool, HardwareAllocation, new, add_device, allocate, allocate_all, release, get_device,
  get_allocation, find_available,
}
use ground_core.Hardware.Pool.Held.{Free, Idle, HeldBy, assigned}
use ground_core.Hardware.Pool.Allocate.{allocate_ok_iff, allocation_of, allocate_effect}
use ground_core.Hardware.Pool.Leak.{allocate-err_leaks}
use ground_core.Hardware.Pool.Release.{release-allocate}
use ground_core.Hardware.Pool.Owners.{
  Call, Reach, start, next, adds, allocates, step, Reach-exclusive,
}
use ground_core.Hardware.Pool.Keys.{after, after-allocate-find_available}
use ground_core.Hardware.Emergency.{EmergencyShardPool, claim, none_available}
use ground_core.Hardware.Emergency

record_failure-fail_all_example :
    let b = Breaker.record_failure 30 (fail_all (20 ∷ 10 ∷ []) Breaker.new) in
    (b.consecutive_failures ≡ 3)
    × (b.total_trips ≡ 1)
    × ((Breaker.allows_allocation 60000000030 b).0 ≡ true)
record_failure-fail_all_example =
    record_failure-fail_all (20 ∷ 10 ∷ []) 30 60000000030 (omega arith)

abbrev tripped_twice : List Trips.Event
tripped_twice = attempted 60000000030 ∷ failed 30 ∷ failed 20 ∷ failed 10 ∷ []

probing : (Trips.run tripped_twice Breaker.new).state ≡ half_open
unfolding Trips.run Trips.step Breaker.new Breaker.record_failure Breaker.allows_allocation
probing = refl

abbrev probed : CircuitBreaker
probed = record { state = half_open; consecutive_failures = 3; total_trips = 1 }

abbrev radio : String → HardwareDevice
radio id = Device.new id sdr (Device.new_capabilities (0, 6000000000) 20000000) 5

abbrev station : HardwarePool
station = add_device (radio "sdr-2") (add_device (radio "sdr-1") new)

abbrev both : List String
both = "sdr-1" ∷ "sdr-2" ∷ []

distinct_ids : ◌≢◌ {A = String} "sdr-1" "sdr-2"
distinct_ids = ground (arith, eq_iff "sdr-1" "sdr-2")

both-Free : All (Free station.devices) both × Distinct both
unfolding add_device new insert get String_discrete Device.new Device.is_available
both-Free = (
  ((radio "sdr-1", refl, refl), ((radio "sdr-2", refl, refl), tt)),
  ((distinct_ids, tt), (tt, tt)),
)

-- Both devices for pass A.
abbrev granted : HardwareAllocation
granted = allocation_of "pass-a" both 600 50

granted-both : (allocate "pass-a" both 600 50 station).0 ≡ ok granted
granted-both = (allocate_ok_iff "pass-a" both 600 50 station).1 both-Free

abbrev busy : HardwarePool
busy = (allocate "pass-a" both 600 50 station).1

allocate_effect_example :
    ((j : String) → get_device j busy ≡ assigned "pass-a" both station.devices j)
    × ((q : String)
        → get_allocation q busy
          ≡ ite
              (String_discrete "pass-a" q)
              (some (allocation_of "pass-a" both 600 50))
              (get_allocation q station))
    × (busy.circuit_breakers ≡ station.circuit_breakers)
    × All (Idle station.devices) both
    × Distinct both
    × All (HeldBy "pass-a" busy.devices) both
allocate_effect_example = allocate_effect "pass-a" both 600 50 station {a = granted} granted-both

-- The second device is not there.
abbrev missing : List String
missing = "sdr-1" ∷ "sdr-3" ∷ []

refused_missing : (allocate "pass-a" missing 600 50 station).0 ≡ err (not_found "sdr-3")
unfolding allocate allocate_all add_device new insert get modify String_discrete Device.new
    Device.allocate
refused_missing = refl

no_record : get_allocation "pass-a" station ≡ none
unfolding get_allocation get add_device new
no_record = refl

allocate-err_leaks_example :
    let p' = (allocate "pass-a" missing 600 50 station).1 in
    HeldBy "pass-a" p'.devices "sdr-1" × (release "pass-a" p' ≡ (err (no_allocation "pass-a"), p'))
allocate-err_leaks_example =
    allocate-err_leaks "pass-a" "sdr-1" ("sdr-3" ∷ []) 600 50 station both-Free.0.0 no_record
      refused_missing

release-allocate_example : (release "pass-a" busy).0 ≡ ok tt
release-allocate_example =
    (release-allocate "pass-a" both 600 50 station {a = granted} granted-both).0

station_reached : Reach station
unfolding step new add_device insert get_device get String_discrete Device.new
station_reached = next (next start (adds (radio "sdr-1")) refl) (adds (radio "sdr-2")) refl

-- One device for each of two passes.
abbrev shared : HardwarePool
shared =
    (allocate "pass-b" ("sdr-2" ∷ []) 600 60 (allocate "pass-a" ("sdr-1" ∷ []) 600 50 station).1).1

shared_reached : Reach shared
unfolding step
shared_reached =
    next (next station_reached (allocates "pass-a" ("sdr-1" ∷ []) 600 50) tt)
      (allocates "pass-b" ("sdr-2" ∷ []) 600 60) tt

abbrev first_grant : HardwareAllocation
first_grant = allocation_of "pass-a" ("sdr-1" ∷ []) 600 50

abbrev second_grant : HardwareAllocation
second_grant = allocation_of "pass-b" ("sdr-2" ∷ []) 600 60

shared_records :
    (get_allocation "pass-a" shared ≡ some first_grant)
    × (get_allocation "pass-b" shared ≡ some second_grant)
unfolding allocate allocate_all add_device new insert get modify get_allocation String_discrete
    Device.new Device.allocate
shared_records = (refl, refl)

Reach-exclusive_example : contains String_discrete second_grant.devices "sdr-1" ≡ false
Reach-exclusive_example =
    Reach-exclusive "pass-a" "pass-b" {a = first_grant} {a' = second_grant} shared_reached
      (ground (arith, eq_iff "pass-a" "pass-b")) shared_records.0 shared_records.1 "sdr-1"
      (unfold String_discrete in refl)

abbrev clock : String → ℕ
clock _ = 100

-- The second device is replaced while it is allocated.
abbrev replaced : List Call
replaced =
    adds (radio "sdr-2")
    ∷ allocates "pass-a" both 600 50
    ∷ adds (radio "sdr-2")
    ∷ adds (radio "sdr-1")
    ∷ []

after-allocate-find_available_example :
    let (ids, p') = find_available clock sdr 2 (after replaced) in
    (allocate "pass-b" ids 600 50 p').0 ≡ ok (allocation_of "pass-b" ids 600 50)
after-allocate-find_available_example =
    after-allocate-find_available clock sdr 2 replaced "pass-b" 600 50

abbrev spare : EmergencyShardPool
spare = Emergency.new 2 1024

claimed_first : (claim 7 spare).0 ≡ ok 0
unfolding claim Emergency.new
claimed_first = refl

abbrev three_places : Shard.RingBuffer ℕ
three_places = record { buffer = 5 ∷ 6 ∷ 0 ∷ []; capacity = 3; head = 2; tail = 0 }

three_places-IsValid : Shard.Ring.IsValid 0 three_places
three_places-IsValid = record {
  storage = omega arith;
  small = omega arith;
  head_in = omega arith;
  tail_in = omega arith;
}

run-lenient_example :
    run (Shard.Ring.ring 0) (gets 1 ∷ puts (7 ∷ 8 ∷ []) ∷ gets 9 ∷ []) three_places
    ≡ run (lenient 2) (gets 1 ∷ puts (7 ∷ 8 ∷ []) ∷ gets 9 ∷ []) (5 ∷ 6 ∷ [])
unfolding span
run-lenient_example =
    Shard.Ring.run-lenient 0 2 (gets 1 ∷ puts (7 ∷ 8 ∷ []) ∷ gets 9 ∷ []) three_places
      three_places-IsValid refl
