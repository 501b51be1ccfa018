-- ===== src/Oisl/Resource/Manager/Storage.antt =====
-- The accounts of a satellite's storage.
use Prim.Native.String.{String}
use ground_core.Common.Tests.{
  ℕ, ◌+◌, ◌≤◌, ◌<◌, true, List, [], ◌∷◌, ◌++◌, Option, none, some, ◌≡◌, refl, sym, ap, ◌∙◌, arith,
  u64_mod, Option-cases, inl, inr,
}
use ground_core.Common.Search.{find_first, remove_first}
use ground_core.Oisl.Resource.Allocator.{Floats, ResourceClaim, ResourceAllocation, has_id}
use ground_core.Oisl.Resource.Parts.{StorageResources, TerminalCapability, new_storage}
use ground_core.Oisl.Resource.Manager.{
  SatelliteNode, new, add_optical_terminal, can_satisfy, within, use_storage, free_storage, granted,
  allocate, release, add_pending_task, pop_pending_task,
}

-- A claim of no storage claims none.
abbrev pub bytes_of : Option ℕ → ℕ
bytes_of none = 0
bytes_of (some bytes) = bytes

use_storage_lem :
    (o : Option ℕ) (r : StorageResources)
    → within o r.available_bytes ≡ true
    → r.used_bytes + r.available_bytes < u64_mod
    → ((use_storage o r).used_bytes ≡ r.used_bytes + bytes_of o)
      × ((use_storage o r).available_bytes + bytes_of o ≡ r.available_bytes)
      × ((use_storage o r).total_bytes ≡ r.total_bytes)
unfolding use_storage
use_storage_lem none r h b = (omega arith, omega arith, refl)
use_storage_lem (some bytes) r h b = ground (arith, h, b)

free_storage_lem :
    (o : Option ℕ) (r : StorageResources)
    → bytes_of o ≤ r.used_bytes
    → r.used_bytes + r.available_bytes < u64_mod
    → ((free_storage o r).used_bytes + bytes_of o ≡ r.used_bytes)
      × ((free_storage o r).available_bytes ≡ r.available_bytes + bytes_of o)
      × ((free_storage o r).total_bytes ≡ r.total_bytes)
unfolding free_storage
free_storage_lem none r h b = (omega arith, omega arith, refl)
free_storage_lem (some bytes) r h b = (omega (arith, h, b), omega (arith, h, b), refl)

module _ (fl : Floats) where
  -- What these allocations store in all.
  abbrev pub stored : List (ResourceAllocation fl) → ℕ
  stored [] = 0
  stored (a ∷ known) = bytes_of a.resources.storage_bytes + stored known

  stored-snoc :
      (known : List (ResourceAllocation fl)) (a : ResourceAllocation fl)
      → stored (known ++ (a ∷ [])) ≡ stored known + bytes_of a.resources.storage_bytes
  stored-snoc [] a = omega arith
  stored-snoc (b ∷ known) a = omega (arith, stored-snoc known a)

  stored-remove_first :
      (id : ℕ) (known : List (ResourceAllocation fl)) (a : ResourceAllocation fl)
      → find_first (has_id fl id) known ≡ some a
      → stored (remove_first (has_id fl id) known) + bytes_of a.resources.storage_bytes
        ≡ stored known
  stored-remove_first id [] a e = absurd cc
  stored-remove_first id (b ∷ known) a e = ground (arith, stored-remove_first id known a)

  -- The storage holds what is used and what is available, and no more; what is used is what the
  -- allocations store.
  pub record Balanced (s : SatelliteNode fl) : Type 0 where
    pub total : s.storage.used_bytes + s.storage.available_bytes ≡ s.storage.total_bytes
    pub small : s.storage.total_bytes < u64_mod
    pub used : s.storage.used_bytes ≡ stored s.current_allocations

  can_satisfy-storage :
      (claim : ResourceClaim fl) (s : SatelliteNode fl)
      → can_satisfy fl claim s ≡ true
      → within claim.storage_bytes s.storage.available_bytes ≡ true
  unfolding can_satisfy
  can_satisfy-storage claim s e = ground arith

  pub data Call : Type 0 where
    allocates : ℕ → ResourceClaim fl → ℕ → String → ℕ → ℕ → Call
    releases : ℕ → Call
    adds_terminal : TerminalCapability fl → Call
    adds_task : ℕ → Call
    pops_task : Call

  unfoldable pub step : Call → SatelliteNode fl → SatelliteNode fl
  step (allocates id claim task tenant now now') s = (allocate fl id claim task tenant now now' s).1
  step (releases id) s = release fl id s
  step (adds_terminal t) s = add_optical_terminal fl t s
  step (adds_task task) s = add_pending_task fl task s
  step pops_task s = (pop_pending_task fl s).1

  -- A claim is allocated where it can be satisfied; `allocate` itself does not ask.
  abbrev pub IsAsked : Call → SatelliteNode fl → Type 0
  IsAsked (allocates id claim task tenant now now') s = can_satisfy fl claim s ≡ true
  IsAsked (releases id) s = Unit
  IsAsked (adds_terminal t) s = Unit
  IsAsked (adds_task task) s = Unit
  IsAsked pops_task s = Unit

  pub data Reach : SatelliteNode fl → Type 0 where
    start : (now : ℕ) (satellite_id : String) → Reach (new fl now satellite_id)
    call : {s : SatelliteNode fl} → Reach s → (c : Call) → IsAsked c s → Reach (step c s)

  allocate-Balanced :
      (id : ℕ) (claim : ResourceClaim fl) (task : ℕ) (tenant : String) (now now' : ℕ)
      (s : SatelliteNode fl)
      → can_satisfy fl claim s ≡ true
      → Balanced s
      → Balanced (allocate fl id claim task tenant now now' s).1
  unfolding allocate granted
  allocate-Balanced id claim task tenant now now' s e v =
      let after =
        use_storage_lem claim.storage_bytes s.storage (can_satisfy-storage claim s e)
          (omega (arith, v.total, v.small)) in
      record {
        total = omega (arith, after.0, after.1, after.2, v.total);
        small = omega (arith, after.2, v.small);
        used = omega (
          arith,
          after.0,
          v.used,
          stored-snoc s.current_allocations (granted fl id claim task tenant now now'),
        );
      }

  release-Balanced : (id : ℕ) (s : SatelliteNode fl) → Balanced s → Balanced (release fl id s)
  unfolding release
  release-Balanced id s v = elim (Option-cases (find_first (has_id fl id) s.current_allocations)) [
    | inl n ↦ rw (n, release) v
    | inr (a, e) ↦
        let less = stored-remove_first id s.current_allocations a e in
        let after =
          free_storage_lem a.resources.storage_bytes s.storage (omega (arith, less, v.used))
            (omega (arith, v.total, v.small)) in
        rw (e, release)
          (record {
            total = omega (arith, after.0, after.1, after.2, v.total);
            small = omega (arith, after.2, v.small);
            used = omega (arith, after.0, v.used, less);
          })
  ]

  same-Balanced :
      (s t : SatelliteNode fl)
      → t.storage ≡ s.storage
      → t.current_allocations ≡ s.current_allocations
      → Balanced s
      → Balanced t
  same-Balanced s t e f v = record {
    total =
        ap (λ r. r.used_bytes + r.available_bytes) e ∙ v.total ∙ sym (ap (λ r. r.total_bytes) e);
    small = omega (arith, ap (λ r. r.total_bytes) e, v.small);
    used = ap (λ r. r.used_bytes) e ∙ v.used ∙ sym (ap stored f);
  }

  pop_pending_task_same :
      (s : SatelliteNode fl)
      → ((pop_pending_task fl s).1.storage ≡ s.storage)
        × ((pop_pending_task fl s).1.current_allocations ≡ s.current_allocations)
  unfolding pop_pending_task
  pop_pending_task_same s = popped s.pending_tasks refl
    where
      popped :
          (tasks : List ℕ)
          → s.pending_tasks ≡ tasks
          → ((pop_pending_task fl s).1.storage ≡ s.storage)
            × ((pop_pending_task fl s).1.current_allocations ≡ s.current_allocations)
      popped [] e = rw (e, pop_pending_task) (refl, refl)
      popped (t ∷ ts) e = rw (e, pop_pending_task) (refl, refl)

  step-Balanced : (c : Call) (s : SatelliteNode fl) → IsAsked c s → Balanced s → Balanced (step c s)
  unfolding step add_optical_terminal add_pending_task
  step-Balanced (allocates id claim task tenant now now') s e v =
      allocate-Balanced id claim task tenant now now' s e v
  step-Balanced (releases id) s e v = release-Balanced id s v
  step-Balanced (adds_terminal t) s e v = same-Balanced s (step (adds_terminal t) s) refl refl v
  step-Balanced (adds_task task) s e v = same-Balanced s (step (adds_task task) s) refl refl v
  step-Balanced pops_task s e v =
      let same = pop_pending_task_same s in same-Balanced s (step pops_task s) same.0 same.1 v

  -- Whatever calls lead to a state of a satellite from a new one, each allocation being made where
  -- `can_satisfy` has said yes: the used and the available bytes of the storage add up to the
  -- total, without a wrap, and the used bytes are those that the current allocations claim.
  pub Reach-Balanced : {s : SatelliteNode fl} → Reach s → Balanced s
  unfolding new new_storage
  Reach-Balanced (start now satellite_id) = record {
    total = refl;
    small = omega arith;
    used = refl;
  }
  Reach-Balanced (call {s} r c e) = step-Balanced c s e (Reach-Balanced r)
