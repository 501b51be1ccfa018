-- ===== src/Oisl/Resource/Allocator/Histories.antt =====
-- The allocator over every sequence of calls from the empty one.
use Prim.Native.String.{String}
use mathlib.Core.Option
use ground_core.Common.Tests.{
  ℕ, Bool, true, false, not, List, [], ◌∷◌, Option, none, some, ◌&&◌, ◌≡◌, ◌≢◌, refl, sym, ap, ◌∙◌,
  subst, arith, Bool-cases, Option-cases, inl, inr, ◌⊎◌,
}
use ground_core.Common.Lists.{All, All-map}
use ground_core.Common.Result.{ok, err}
use ground_core.Common.Search.{find_first, Pairwise, Pairwise-snoc, remove_first-Pairwise}
use ground_core.Common.Maps.{get}
use ground_core.Oisl.Window.{TimeWindow, overlaps, Priority, PreemptionReason}
use ground_core.Oisl.Resource.Allocator.{
  AllocationError, quota_exceeded, resource_conflict, not_found, not_preemptible, Floats,
  ResourceClaim, ResourceAllocation, ResourceAllocator, TenantQuota, has_id, new, new_allocation,
  add_allocation, allocate, release, preempt, set_tenant_quota, check_conflicts, over_quota,
  can_preempt,
}
use ground_core.Oisl.Resource.Allocator.Index.{
  Indexed, uses, terminal_is, add_allocation-Indexed, release-Indexed,
}
use ground_core.Oisl.Resource.Allocator.Scan.{check_conflicts_lem}

module _ (fl : Floats) where
  pub data Call : Type 0 where
    allocates : ℕ → ResourceClaim fl → ℕ → String → Priority → TimeWindow → Call
    releases : ℕ → Call
    preempts : ℕ → PreemptionReason → Call
    sets_quota : String → TenantQuota fl → Call

  unfoldable pub step : Call → ResourceAllocator fl → ResourceAllocator fl
  step (allocates id claim task tenant priority window) s =
      (allocate fl id claim task tenant priority window s).1
  step (releases id) s = (release fl id s).1
  step (preempts id reason) s = (preempt fl id reason s).1
  step (sets_quota tenant quota) s = set_tenant_quota fl tenant quota s

  -- A new identifier is none of those in use.
  abbrev pub New : ℕ → ResourceAllocator fl → Type 0
  New id s = All (λ b. b.allocation_id ≢ id) s.allocations

  abbrev pub IsFresh : Call → ResourceAllocator fl → Type 0
  IsFresh (allocates id claim task tenant priority window) s = New id s
  IsFresh (releases id) s = Unit
  IsFresh (preempts id reason) s = Unit
  IsFresh (sets_quota tenant quota) s = Unit

  pub data Reach : ResourceAllocator fl → Type 0 where
    start : Reach (new fl)
    call : {s : ResourceAllocator fl} → Reach s → (c : Call) → IsFresh c s → Reach (step c s)

  -- Two allocations of one terminal have windows that do not overlap.
  abbrev pub Apart : ResourceAllocation fl → ResourceAllocation fl → Type 0
  Apart a b =
      (t : ℕ)
      → uses fl t a ≡ true
      → uses fl t b ≡ true
      → overlaps a.valid_window b.valid_window ≡ false

  pub record IsValid (s : ResourceAllocator fl) : Type 0 where
    pub indexed : Indexed fl s
    pub apart : Pairwise Apart s.allocations

  find_first-none :
      (test : ResourceAllocation fl → Bool) (known : List (ResourceAllocation fl))
      → find_first test known ≡ none
      → All (λ a. test a ≡ false) known
  find_first-none test [] e = tt
  find_first-none test (a ∷ known) e = elim (Bool-cases (test a)) [
    | inl y ↦ absurd (ground (arith, y, e))
    | inr n ↦ (n, find_first-none test known (ground arith))
  ]

  map-none :
      (o : Option (ResourceAllocation fl)) → Option.map (λ a. a.allocation_id) o ≡ none → o ≡ none
  map-none none e = refl
  map-none (some a) e = absurd (cc)

  terminal_is-eq : (t : ℕ) (o : Option ℕ) → terminal_is t o ≡ true → o ≡ some t
  terminal_is-eq t none e = absurd (cc)
  terminal_is-eq t (some j) e = ground arith

  -- What the check for conflicts establishes.
  check_conflicts-Apart :
      (a : ResourceAllocation fl) (s : ResourceAllocator fl)
      → Indexed fl s
      → check_conflicts fl a.resources a.valid_window s ≡ none
      → All (λ b. Apart b a) s.allocations
  check_conflicts-Apart a s v e = elim (Option-cases a.resources.optical_terminal) [
    | inl n ↦
        every s.allocations
          (λ b t p q. absurd (let f : false ≡ true = ap (terminal_is t) (sym n) ∙ q in cc))
    | inr (j, h) ↦
        All-map (λ b. (uses fl j b && overlaps b.valid_window a.valid_window) ≡ false)
          (λ b. Apart b a)
          (λ b f t p q. same b t j f p (terminal_is-eq t a.resources.optical_terminal q) h)
          s.allocations
          (find_first-none (λ b. uses fl j b && overlaps b.valid_window a.valid_window)
            s.allocations
            (map-none _ (sym (check_conflicts_lem fl a.resources a.valid_window s j v h) ∙ e)))
  ]
    where
      every :
          (known : List (ResourceAllocation fl))
          → ((b : ResourceAllocation fl) → Apart b a)
          → All (λ b. Apart b a) known
      every [] f = tt
      every (b ∷ known) f = (f b, every known f)

      and_false : (u o : Bool) → u ≡ true → (u && o) ≡ false → o ≡ false
      and_false u o p f = ground arith

      same :
          (b : ResourceAllocation fl) (t j : ℕ)
          → (uses fl j b && overlaps b.valid_window a.valid_window) ≡ false
          → uses fl t b ≡ true
          → a.resources.optical_terminal ≡ some t
          → a.resources.optical_terminal ≡ some j
          → overlaps b.valid_window a.valid_window ≡ false
      same b t j f p q h =
          let e : t ≡ j = ground (arith, q, h) in
          let p' : uses fl j b ≡ true = subst (λ i. uses fl i b ≡ true) e p in
          and_false (uses fl j b) (overlaps b.valid_window a.valid_window) p' f

  -- A call of `allocate` stores the new allocation, where it answers with its identifier, or
  -- changes nothing.
  module _ (id : ℕ) (claim : ResourceClaim fl) (task : ℕ) (tenant : String) (priority : Priority)
      (window : TimeWindow) where
    abbrev pub fresh : ResourceAllocation fl
    fresh = new_allocation fl id task tenant claim window priority true

    pub allocate-cases :
        (s : ResourceAllocator fl)
        → ((check_conflicts fl claim window s ≡ none)
            × (allocate fl id claim task tenant priority window s
                ≡ (ok id, add_allocation fl fresh s)))
          ⊎ ((e : AllocationError) × (allocate fl id claim task tenant priority window s
                ≡ (err e, s)))
    unfolding allocate
    allocate-cases s = elim (Bool-cases (over_quota fl tenant claim s)) [
      | inl y ↦ inr (quota_exceeded tenant "power", rw y refl)
      | inr y ↦ elim (Option-cases (check_conflicts fl claim window s)) [
        | inl n ↦ inl (n, rw (y, n, allocate) refl)
        | inr (c, e) ↦ inr (resource_conflict c, rw (y, e, allocate) refl)
      ]
    ]

  allocated-IsValid :
      (a : ResourceAllocation fl) (s : ResourceAllocator fl)
      → New a.allocation_id s
      → check_conflicts fl a.resources a.valid_window s ≡ none
      → IsValid s
      → IsValid (add_allocation fl a s)
  unfolding add_allocation
  allocated-IsValid a s n e v = record {
    indexed = add_allocation-Indexed fl a s n v.indexed;
    apart = Pairwise-snoc Apart s.allocations a v.apart (check_conflicts-Apart a s v.indexed e);
  }

  allocate-IsValid :
      (id : ℕ) (claim : ResourceClaim fl) (task : ℕ) (tenant : String) (priority : Priority)
      (window : TimeWindow) (s : ResourceAllocator fl)
      → New id s
      → IsValid s
      → IsValid (allocate fl id claim task tenant priority window s).1
  unfolding new_allocation
  allocate-IsValid id claim task tenant priority window s n v =
      let a = fresh id claim task tenant priority window in
      elim (allocate-cases id claim task tenant priority window s) [
        | inl (c, e) ↦ rw e (allocated-IsValid a s n c v)
        | inr (x, e) ↦ rw e v
      ]

  release-IsValid : (id : ℕ) (s : ResourceAllocator fl) → IsValid s → IsValid (release fl id s).1
  unfolding release
  release-IsValid id s v = record { indexed = release-Indexed fl id s v.indexed; apart = rest }
    where
      rest : Pairwise Apart (release fl id s).1.allocations
      rest = elim (Option-cases (find_first (has_id fl id) s.allocations)) [
        | inl n ↦ rw (n, release) v.apart
        | inr (a, e) ↦
            rw (e, release) (remove_first-Pairwise Apart (has_id fl id) s.allocations v.apart)
      ]

  pub preempt-cases :
      (id : ℕ) (reason : PreemptionReason) (s : ResourceAllocator fl)
      → (preempt fl id reason s ≡ release fl id s)
        ⊎ ((e : AllocationError) × (preempt fl id reason s ≡ (err e, s)))
  unfolding preempt
  preempt-cases id reason s = elim (Option-cases (find_first (has_id fl id) s.allocations)) [
    | inl n ↦ inr (not_found id, rw (n, preempt) refl)
    | inr (a, e) ↦ elim (Bool-cases (not (can_preempt fl a))) [
      | inl y ↦ inr (not_preemptible id, rw (e, preempt, y) refl)
      | inr y ↦ inl (rw (e, preempt, y) refl)
    ]
  ]

  step-IsValid :
      (c : Call) (s : ResourceAllocator fl) → IsFresh c s → IsValid s → IsValid (step c s)
  unfolding step set_tenant_quota
  step-IsValid (allocates id claim task tenant priority window) s n v =
      allocate-IsValid id claim task tenant priority window s n v
  step-IsValid (releases id) s n v = release-IsValid id s v
  step-IsValid (preempts id reason) s n v = elim (preempt-cases id reason s) [
    | inl e ↦ rw (e, step) (release-IsValid id s v)
    | inr (x, e) ↦ rw (e, step) v
  ]
  step-IsValid (sets_quota tenant quota) s n v = record {
    indexed = record {
      distinct = v.indexed.distinct;
      terminals = v.indexed.terminals;
      tenants = v.indexed.tenants;
    };
    apart = v.apart;
  }

  -- Whatever calls lead to a state of the allocator from the empty one, each allocation being
  -- given an identifier that is not in use: the identifiers of the allocations are distinct, both
  -- indices list exactly the allocations of each terminal and of each tenant, in their order, and
  -- no two allocations of one terminal have windows that overlap.
  pub Reach-IsValid : {s : ResourceAllocator fl} → Reach s → IsValid s
  unfolding new get
  Reach-IsValid start = record {
    indexed = record { distinct = tt; terminals = λ t. refl; tenants = λ q. refl };
    apart = tt;
  }
  Reach-IsValid (call {s} r c n) = step-IsValid c s n (Reach-IsValid r)
