-- ===== src/Hardware/Pool.antt =====
-- hardware/src/pool.rs, `HardwarePool`. The three locked maps are the fields of a record; a method
-- takes the pool, and the readings of the clock that it makes, to the new pool and its result.
-- Each method runs without another one between its locks.
pub mod Held
pub mod Allocate
pub mod Release
pub mod Find
pub mod Owners
pub mod Leak
pub mod Keys
use Prim.Native.String.{String}
use mathlib.Core.Option
use ground_core.Common.Tests.{
  ℕ, zero, suc, Bool, true, false, not, ◌||◌, List, [], ◌∷◌, Option, none, some, if◌then◌else◌, ite,
  String_discrete,
}
use ground_core.Common.Result.{Result, ok, err}
use ground_core.Common.Maps.{Map, get, insert, remove, modify, values}
use ground_core.Hardware.Breaker
use ground_core.Hardware.Breaker.{CircuitBreaker, CircuitState, half_open}
use ground_core.Hardware.Device
use ground_core.Hardware.Device.{
  HardwareDevice, HardwareType, HardwareType-discrete, HardwareError, not_found, no_allocation,
}

pub record HardwareAllocation : Type 0 where
  pub pass_id : String
  pub devices : List String
  pub allocated_at : ℕ
  pub expected_duration_sec : ℕ

pub record HardwarePool : Type 0 where
  pub devices : Map String HardwareDevice
  pub allocations : Map String HardwareAllocation
  pub circuit_breakers : Map String CircuitBreaker

unfoldable pub new : HardwarePool
new = record { devices = []; allocations = []; circuit_breakers = [] }

unfoldable pub add_device : HardwareDevice → HardwarePool → HardwarePool
add_device device p = record p {
  devices = insert String_discrete device.device_id device p.devices;
}

unfoldable pub get_device : String → HardwarePool → Option HardwareDevice
get_device device_id p = get String_discrete device_id p.devices

-- `breakers.entry(id).or_insert_with(CircuitBreaker::new)`.
unfoldable pub entry_or_new : String → Map String CircuitBreaker → CircuitBreaker
entry_or_new device_id bs = elim (get String_discrete device_id bs) [
  | none ↦ Breaker.new
  | some b ↦ b
]

-- The closure that `find_available` filters by, which may move the device's breaker.
unfoldable pub passes :
    (String → ℕ)
    → HardwareType
    → HardwareDevice
    → Map String CircuitBreaker
    → Bool × Map String CircuitBreaker
unfolding entry_or_new
passes clock hardware_type d bs =
    let wrong = ite (HardwareType-discrete d.hardware_type hardware_type) false true in
    if wrong || not (Device.is_available d)
    then (false, bs)
    else (let (allowed, b) =
          Breaker.allows_allocation (clock d.device_id) (entry_or_new d.device_id bs) in
        (allowed, insert String_discrete d.device_id b bs))

-- `filter(..).take(count)` stops pulling devices once it has `count`. The clock is read once for
-- each device that is looked at.
unfoldable pub find_in :
    (String → ℕ)
    → HardwareType
    → ℕ
    → List HardwareDevice
    → Map String CircuitBreaker
    → List String × Map String CircuitBreaker
find_in clock hardware_type zero ds bs = ([], bs)
find_in clock hardware_type (suc n) [] bs = ([], bs)
find_in clock hardware_type (suc n) (d ∷ ds) bs =
    let (passed, bs') = passes clock hardware_type d bs in
    let more = find_in clock hardware_type n ds bs' in
    let others = find_in clock hardware_type (suc n) ds bs' in
    if passed then (d.device_id ∷ more.0, more.1) else others

unfoldable pub find_available :
    (String → ℕ) → HardwareType → ℕ → HardwarePool → List String × HardwarePool
find_available clock hardware_type count p =
    let (ids, bs) = find_in clock hardware_type count (values p.devices) p.circuit_breakers in
    (ids, record p { circuit_breakers = bs })

-- The loop of `allocate`: it writes through `get_mut` as it goes, and `?` leaves it at the first
-- device that is missing or taken.
unfoldable pub allocate_all :
    String
    → List String
    → Map String HardwareDevice
    → Result HardwareError (Unit {0}) × Map String HardwareDevice
allocate_all pass_id [] m = (ok tt, m)
allocate_all pass_id (d ∷ ds) m = elim (get String_discrete d m) [
  | none ↦ (err (not_found d), m)
  | some device ↦ elim (Device.allocate pass_id device) [
    | err e ↦ (err e, m)
    | ok device' ↦ allocate_all pass_id ds (modify String_discrete d (λ _. device') m)
  ]
]

unfoldable pub allocate :
    String
    → List String
    → ℕ
    → ℕ
    → HardwarePool
    → Result HardwareError HardwareAllocation × HardwarePool
allocate pass_id device_ids duration_sec now p =
    let (result, devices) = allocate_all pass_id device_ids p.devices in
    let allocation : HardwareAllocation = record {
      pass_id = pass_id;
      devices = device_ids;
      allocated_at = now;
      expected_duration_sec = duration_sec;
    } in
    elim result [
      | err e ↦ (err e, record p { devices = devices })
      | ok _ ↦ (
        ok allocation,
        record p {
          devices = devices;
          allocations = insert String_discrete pass_id allocation p.allocations;
        },
      )
    ]

-- `let _ = device.release(pass_id)`: an error leaves the device as it is.
unfoldable pub release_or_keep : String → HardwareDevice → HardwareDevice
release_or_keep pass_id d = elim (Device.release pass_id d) [ ok d' ↦ d' | err e ↦ d ]

unfoldable pub release_all :
    String → List String → Map String HardwareDevice → Map String HardwareDevice
unfolding release_or_keep
release_all pass_id [] m = m
release_all pass_id (d ∷ ds) m =
    release_all pass_id ds (modify String_discrete d (release_or_keep pass_id) m)

unfoldable pub release : String → HardwarePool → Result HardwareError (Unit {0}) × HardwarePool
release pass_id p = elim (get String_discrete pass_id p.allocations) [
  | none ↦ (err (no_allocation pass_id), p)
  | some allocation ↦ (
    ok tt,
    record p {
      devices = release_all pass_id allocation.devices p.devices;
      allocations = remove String_discrete pass_id p.allocations;
    },
  )
]

unfoldable pub get_allocation : String → HardwarePool → Option HardwareAllocation
get_allocation pass_id p = get String_discrete pass_id p.allocations

unfoldable pub check_health : String → ℕ → HardwarePool → Result HardwareError Bool × HardwarePool
check_health device_id now p = elim (get String_discrete device_id p.devices) [
  | none ↦ (err (not_found device_id), p)
  | some device ↦
      let touch : HardwareDevice → HardwareDevice = λ d. record d { last_health_check = now } in
      (ok device.healthy, record p { devices = modify String_discrete device_id touch p.devices })
]

unfoldable pub mark_unhealthy :
    String → ℕ → HardwarePool → Result HardwareError (Unit {0}) × HardwarePool
mark_unhealthy device_id now p = elim (get String_discrete device_id p.devices) [
  | none ↦ (err (not_found device_id), p)
  | some device ↦
      let mark : HardwareDevice → HardwareDevice = λ d. record d { healthy = false } in
      let breaker = Breaker.record_failure now (entry_or_new device_id p.circuit_breakers) in
      (
        ok tt,
        record p {
          devices = modify String_discrete device_id mark p.devices;
          circuit_breakers = insert String_discrete device_id breaker p.circuit_breakers;
        },
      )
]

-- `breaker.state == CircuitState::HalfOpen`, and then `record_success`.
abbrev pub recover : CircuitState → CircuitBreaker → CircuitBreaker
recover half_open b = Breaker.record_success b
recover _ b = b

unfoldable pub record_success : String → HardwarePool → HardwarePool
record_success device_id p = record p {
  circuit_breakers = modify String_discrete device_id (λ b. recover b.state b) p.circuit_breakers;
}

unfoldable pub circuit_state : String → HardwarePool → Option CircuitState
circuit_state device_id p =
    Option.map (λ b. b.state) (get String_discrete device_id p.circuit_breakers)
