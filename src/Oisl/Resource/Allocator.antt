-- ===== src/Oisl/Resource/Allocator.antt =====
-- oisl/src/resource/allocator.rs: allocations of resources to tenants, with the indices from
-- terminals and tenants to allocations. Floating-point numbers are a record of the type and of the
-- operations used. An identifier is a number; a new one is an argument.
pub mod Index
pub mod Scan
pub mod Histories
pub mod Undo
use Prim.Native.String.{String}
use ground_core.Common.Tests.{
  ℕ, Bool, true, false, not, List, [], ◌∷◌, ◌++◌, Option, none, some, ◌==◌, if◌then◌else◌, ◌&&◌,
  ite, ℕ_discrete, String_discrete,
}
use ground_core.Common.Int.{ℤ}
use ground_core.Common.Lists.{filter}
use ground_core.Common.Search.{find_first, remove_first}
use ground_core.Common.Result.{Result, ok, err}
use ground_core.Common.Maps.{Map, get, insert, modify}
use ground_core.Common.Index.{ids_at, push_id}
use ground_core.Oisl.Window.{
  TimeWindow, contains_time, overlaps, Priority, is_critical, PreemptionReason,
}

-- `f64`: its literals, `m / 10^k` for `literal m k`, the operations of the allocator and of the
-- manager, and the sum of an iterator.
pub record Floats : Type 1 where
  pub F64 : Type 0
  pub zero_f64 : F64
  pub plus : F64 → F64 → F64
  pub gtb : F64 → F64 → Bool
  pub sum : List F64 → F64
  pub literal : ℕ → ℕ → F64
  pub minus : F64 → F64 → F64
  pub over : F64 → F64 → F64
  pub of_u64 : ℕ → F64

pub data AllocationError : Type 0 where
  not_found : ℕ → AllocationError
  quota_exceeded : String → String → AllocationError
  resource_conflict : ℕ → AllocationError
  not_preemptible : ℕ → AllocationError
  insufficient_resources : String → AllocationError

-- `map.get_mut(key)` with a `retain`.
module _ {K : Type 0} (dec : Discrete K) where
  unfoldable pub drop_id : K → ℕ → Map K (List ℕ) → Map K (List ℕ)
  drop_id key id m = modify dec key (λ ids. filter (λ i. not (i == id)) ids) m

unfoldable pub index_terminal : Option ℕ → ℕ → Map ℕ (List ℕ) → Map ℕ (List ℕ)
index_terminal none id m = m
index_terminal (some terminal) id m = push_id ℕ_discrete terminal id m

unfoldable pub unindex_terminal : Option ℕ → ℕ → Map ℕ (List ℕ) → Map ℕ (List ℕ)
unindex_terminal none id m = m
unindex_terminal (some terminal) id m = drop_id ℕ_discrete terminal id m

module _ (fl : Floats) where
  pub record ResourceClaim : Type 0 where
    pub optical_terminal : Option ℕ
    pub bandwidth : Option ℕ
    pub duration : ℤ
    pub power_watts : fl.F64
    pub storage_bytes : Option ℕ
    pub compute_cycles : Option ℕ

  pub record ResourceAllocation : Type 0 where
    pub allocation_id : ℕ
    pub task_id : ℕ
    pub tenant_id : String
    pub resources : ResourceClaim
    pub valid_window : TimeWindow
    pub priority : Priority
    pub preemptible : Bool

  unfoldable pub is_valid : ℕ → ResourceAllocation → Bool
  is_valid now a = contains_time a.valid_window now

  unfoldable pub can_preempt : ResourceAllocation → Bool
  can_preempt a = a.preemptible && not (is_critical a.priority)

  pub record TenantQuota : Type 0 where
    pub max_power_watts : fl.F64
    pub max_bandwidth_bps : ℕ
    pub max_storage_bytes : ℕ
    pub max_allocations : ℕ

  pub record ResourceAllocator : Type 0 where
    pub allocations : List ResourceAllocation
    pub tenant_quotas : Map String TenantQuota
    pub terminal_index : Map ℕ (List ℕ)
    pub tenant_index : Map String (List ℕ)

  unfoldable pub new : ResourceAllocator
  new = record { allocations = []; tenant_quotas = []; terminal_index = []; tenant_index = [] }

  unfoldable pub set_tenant_quota : String → TenantQuota → ResourceAllocator → ResourceAllocator
  set_tenant_quota tenant_id quota s = record s {
    tenant_quotas = insert String_discrete tenant_id quota s.tenant_quotas;
  }

  -- `a.allocation_id == id`.
  abbrev pub has_id : ℕ → ResourceAllocation → Bool
  has_id id a = a.allocation_id == id

  -- The loop of `check_conflicts` over the identifiers of a terminal.
  unfoldable pub first_conflict : List ResourceAllocation → TimeWindow → List ℕ → Option ℕ
  first_conflict known window [] = none
  first_conflict known window (id ∷ ids) =
      let rest = first_conflict known window ids in
      elim (find_first (λ a. has_id id a && overlaps a.valid_window window) known) [
        | none ↦ rest
        | some a ↦ some a.allocation_id
      ]

  unfoldable pub check_conflicts : ResourceClaim → TimeWindow → ResourceAllocator → Option ℕ
  check_conflicts claim window s = elim claim.optical_terminal [
    | none ↦ none
    | some terminal ↦
        first_conflict s.allocations window (ids_at (get ℕ_discrete terminal s.terminal_index))
  ]

  -- The power of the allocations with these identifiers: `filter_map` and `map`.
  unfoldable pub powers : List ResourceAllocation → List ℕ → List fl.F64
  powers known [] = []
  powers known (id ∷ ids) =
      let rest = powers known ids in
      elim (find_first (has_id id) known) [ none ↦ rest | some a ↦ a.resources.power_watts ∷ rest ]

  unfoldable pub tenant_usage : String → ResourceAllocator → fl.F64
  tenant_usage tenant_id s = elim (get String_discrete tenant_id s.tenant_index) [
    | none ↦ fl.zero_f64
    | some ids ↦ fl.sum (powers s.allocations ids)
  ]

  -- The test of the quota.
  unfoldable pub over_quota : String → ResourceClaim → ResourceAllocator → Bool
  over_quota tenant_id claim s = elim (get String_discrete tenant_id s.tenant_quotas) [
    | none ↦ false
    | some quota ↦
        fl.gtb (fl.plus (tenant_usage tenant_id s) claim.power_watts) quota.max_power_watts
  ]

  -- `ResourceAllocation::new`, with its new identifier.
  unfoldable pub new_allocation :
      ℕ → ℕ → String → ResourceClaim → TimeWindow → Priority → Bool → ResourceAllocation
  new_allocation id task_id tenant_id claim window priority preemptible = record {
    allocation_id = id;
    task_id = task_id;
    tenant_id = tenant_id;
    resources = claim;
    valid_window = window;
    priority = priority;
    preemptible = preemptible;
  }

  -- The allocator with one more allocation.
  unfoldable pub add_allocation : ResourceAllocation → ResourceAllocator → ResourceAllocator
  add_allocation a s = record s {
    allocations = s.allocations ++ (a ∷ []);
    terminal_index = index_terminal a.resources.optical_terminal a.allocation_id s.terminal_index;
    tenant_index = push_id String_discrete a.tenant_id a.allocation_id s.tenant_index;
  }

  unfoldable pub allocate :
      ℕ
      → ResourceClaim
      → ℕ
      → String
      → Priority
      → TimeWindow
      → ResourceAllocator
      → Result AllocationError ℕ × ResourceAllocator
  allocate id claim task_id tenant_id priority window s =
      if over_quota tenant_id claim s
      then (err (quota_exceeded tenant_id "power"), s)
      else (elim (check_conflicts claim window s) [
        | some conflict ↦ (err (resource_conflict conflict), s)
        | none ↦ (
          ok id,
          add_allocation (new_allocation id task_id tenant_id claim window priority true) s,
        )
      ])

  unfoldable pub release :
      ℕ → ResourceAllocator → Result AllocationError (Unit {0}) × ResourceAllocator
  release id s = elim (find_first (has_id id) s.allocations) [
    | none ↦ (err (not_found id), s)
    | some removed ↦ (
      ok tt,
      record s {
        allocations = remove_first (has_id id) s.allocations;
        terminal_index = unindex_terminal removed.resources.optical_terminal id s.terminal_index;
        tenant_index = drop_id String_discrete removed.tenant_id id s.tenant_index;
      },
    )
  ]

  unfoldable pub preempt :
      ℕ
      → PreemptionReason
      → ResourceAllocator
      → Result AllocationError (Unit {0}) × ResourceAllocator
  preempt id reason s = elim (find_first (has_id id) s.allocations) [
    | none ↦ (err (not_found id), s)
    | some a ↦ if not (can_preempt a) then (err (not_preemptible id), s) else release id s
  ]

  unfoldable pub get_tenant_allocations : String → ResourceAllocator → List ResourceAllocation
  get_tenant_allocations tenant_id s =
      filter (λ a. ite (String_discrete a.tenant_id tenant_id) true false) s.allocations
