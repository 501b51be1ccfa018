-- ===== src/Oisl/Resource/Manager.antt =====
-- oisl/src/resource/manager.rs: the resources of one satellite. The floating-point numbers are
-- those of the allocator.
pub mod Storage
use Prim.Native.String.{String}
use ground_core.Common.Tests.{
  ℕ, ◌+◌, ◌-◌, ◌*◌, ◌%◌, ◌^◌, Bool, true, false, not, List, [], ◌∷◌, ◌++◌, Option, none, some, ltb,
  if◌then◌else◌, ℕ_discrete, sub_u64, u64_mod,
}
use ground_core.Common.Lists.{filter}
use ground_core.Common.Maps.{Map, get, insert, values}
use ground_core.Common.Search.{find_first, remove_first}
use ground_core.Oisl.Window.{medium}
use ground_core.Oisl.Resource.Parts.{
  StorageResources, new_storage, TerminalCapability, RfCapability, SensorCapability,
  ComputeResources, new_compute, PowerBudget, new_power, ThermalState, new_thermal, HealthMetrics,
  new_health, DegradationForecast,
}
use ground_core.Oisl.Resource.Allocator.{Floats, ResourceClaim, ResourceAllocation, has_id}

-- The numbers that are there, added up as `u64`.
unfoldable pub sum_u64 : List ℕ → ℕ
sum_u64 [] = 0
sum_u64 (n ∷ ns) = (n + sum_u64 ns) % u64_mod

-- The wanted amount, if any, is at most this.
abbrev pub within : Option ℕ → ℕ → Bool
within none most = true
within (some wanted) most = not (ltb most wanted)

unfoldable pub use_storage : Option ℕ → StorageResources → StorageResources
use_storage none r = r
use_storage (some bytes) r = record r {
  used_bytes = (r.used_bytes + bytes) % u64_mod;
  available_bytes = sub_u64 r.available_bytes bytes;
}

unfoldable pub free_storage : Option ℕ → StorageResources → StorageResources
free_storage none r = r
free_storage (some bytes) r = record r {
  used_bytes = sub_u64 r.used_bytes bytes;
  available_bytes = (r.available_bytes + bytes) % u64_mod;
}

module _ (fl : Floats) where
  pub record SatelliteNode : Type 0 where
    pub satellite_id : String
    pub optical_terminals : Map ℕ (TerminalCapability fl)
    pub rf_terminals : Map ℕ (RfCapability fl)
    pub sensors : Map String (SensorCapability fl)
    pub compute : ComputeResources fl
    pub storage : StorageResources
    pub power_budget : PowerBudget fl
    pub thermal_state : ThermalState fl
    pub current_allocations : List (ResourceAllocation fl)
    pub pending_tasks : List ℕ
    pub health_metrics : HealthMetrics fl
    pub degradation_predictions : List (DegradationForecast fl)

  unfoldable pub new : ℕ → String → SatelliteNode
  new now satellite_id = record {
    satellite_id = satellite_id;
    optical_terminals = [];
    rf_terminals = [];
    sensors = [];
    compute = new_compute fl;
    storage = new_storage;
    power_budget = new_power fl;
    thermal_state = new_thermal fl;
    current_allocations = [];
    pending_tasks = [];
    health_metrics = new_health fl now;
    degradation_predictions = [];
  }

  unfoldable pub add_optical_terminal : (TerminalCapability fl) → SatelliteNode → SatelliteNode
  add_optical_terminal t s = record s {
    optical_terminals = insert ℕ_discrete t.terminal_id t s.optical_terminals;
  }

  -- The four checks of `can_satisfy`.
  unfoldable pub has_terminal : Option ℕ → SatelliteNode → Bool
  has_terminal none s = true
  has_terminal (some terminal_id) s = elim (get ℕ_discrete terminal_id s.optical_terminals) [
    | none ↦ false
    | some t ↦ t.available
  ]

  unfoldable pub can_satisfy : ResourceClaim fl → SatelliteNode → Bool
  can_satisfy claim s =
      if fl.gtb claim.power_watts s.power_budget.available_watts
      then false
      else if not (has_terminal claim.optical_terminal s)
      then false
      else if not (within claim.compute_cycles (s.compute.cpu_cores * 1000000000))
      then false
      else within claim.storage_bytes s.storage.available_bytes

  -- `cycles as f64 / 1e9`, added to or taken from what is allocated.
  unfoldable pub change_compute :
      (fl.F64 → fl.F64 → fl.F64) → Option ℕ → (ComputeResources fl) → (ComputeResources fl)
  change_compute op none c = c
  change_compute op (some cycles) c = record c {
    allocated_cpu = op c.allocated_cpu (fl.over (fl.of_u64 cycles) (fl.literal 1000000000 0));
  }

  -- The allocation, for an hour from `now`; the clock is read twice.
  unfoldable pub granted : ℕ → ResourceClaim fl → ℕ → String → ℕ → ℕ → ResourceAllocation fl
  granted id claim task_id tenant_id now now' = record {
    allocation_id = id;
    task_id = task_id;
    tenant_id = tenant_id;
    resources = claim;
    valid_window = record { start = now; stop = now' + 3600 * 10 ^ 9 };
    priority = medium;
    preemptible = true;
  }

  unfoldable pub allocate :
      ℕ
      → ResourceClaim fl
      → ℕ
      → String
      → ℕ
      → ℕ
      → SatelliteNode
      → ResourceAllocation fl × SatelliteNode
  allocate id claim task_id tenant_id now now' s =
      let allocation = granted id claim task_id tenant_id now now' in
      (
        allocation,
        record s {
          power_budget = record s.power_budget {
            allocated_watts = fl.plus s.power_budget.allocated_watts claim.power_watts;
            available_watts = fl.minus s.power_budget.available_watts claim.power_watts;
          };
          compute = change_compute fl.plus claim.compute_cycles s.compute;
          storage = use_storage claim.storage_bytes s.storage;
          current_allocations = s.current_allocations ++ (allocation ∷ []);
        },
      )

  unfoldable pub release : ℕ → SatelliteNode → SatelliteNode
  release id s = elim (find_first (has_id fl id) s.current_allocations) [
    | none ↦ s
    | some a ↦ record s {
      current_allocations = remove_first (has_id fl id) s.current_allocations;
      power_budget = record s.power_budget {
        allocated_watts = fl.minus s.power_budget.allocated_watts a.resources.power_watts;
        available_watts = fl.plus s.power_budget.available_watts a.resources.power_watts;
      };
      compute = change_compute fl.minus a.resources.compute_cycles s.compute;
      storage = free_storage a.resources.storage_bytes s.storage;
    }
  ]

  unfoldable pub rates : List (TerminalCapability fl) → List ℕ
  rates [] = []
  rates (t ∷ ts) = let rest = rates ts in if t.available then t.max_data_rate ∷ rest else rest

  unfoldable pub bandwidths : List (ResourceAllocation fl) → List ℕ
  bandwidths [] = []
  bandwidths (a ∷ known) =
      let rest = bandwidths known in elim a.resources.bandwidth [ none ↦ rest | some b ↦ b ∷ rest ]

  unfoldable pub available_bandwidth : SatelliteNode → ℕ
  available_bandwidth s =
      sum_u64 (rates (values s.optical_terminals)) - sum_u64 (bandwidths s.current_allocations)

  unfoldable pub add_pending_task : ℕ → SatelliteNode → SatelliteNode
  add_pending_task task_id s = record s { pending_tasks = s.pending_tasks ++ (task_id ∷ []) }

  unfoldable pub pop_pending_task : SatelliteNode → Option ℕ × SatelliteNode
  pop_pending_task s = elim s.pending_tasks [
    | [] ↦ (none, s)
    | task_id ∷ rest ↦ (some task_id, record s { pending_tasks = rest })
  ]
