-- ===== src/Oisl/Resource/Allocator/Undo.antt =====
-- What a release undoes.
use Prim.Native.String.{String}
use ground_core.Common.Tests.{
  ℕ, List, [], ◌∷◌, ◌++◌, some, ◌≡◌, ◌≢◌, refl, sym, ap, ◌∙◌, arith, inl, inr, ℕ_discrete,
  String_discrete,
}
use ground_core.Common.Lists.{All}
use ground_core.Common.Result.{Result, ok, err}
use ground_core.Common.Search.{find_first, remove_first}
use ground_core.Common.Maps.{get}
use ground_core.Oisl.Window.{TimeWindow, Priority}
use ground_core.Common.Index.{ids_at}
use ground_core.Oisl.Resource.Allocator.{
  AllocationError, Floats, ResourceClaim, ResourceAllocation, ResourceAllocator, has_id,
  new_allocation, add_allocation, allocate, release,
}
use ground_core.Oisl.Resource.Allocator.Index.{
  Indexed, ids_of, uses, owned, add_allocation-Indexed, release-Indexed,
}
use ground_core.Oisl.Resource.Allocator.Histories.{New, fresh, allocate-cases}

module _ (fl : Floats) where
  remove_first-snoc :
      (a : ResourceAllocation fl) (known : List (ResourceAllocation fl))
      → All (λ b. b.allocation_id ≢ a.allocation_id) known
      → (remove_first (has_id fl a.allocation_id) (known ++ (a ∷ [])) ≡ known)
        × (find_first (has_id fl a.allocation_id) (known ++ (a ∷ [])) ≡ some a)
  remove_first-snoc a [] n = ground arith
  remove_first-snoc a (b ∷ known) n = ground (arith, remove_first-snoc a known n.1)

  -- The answer is success, and the allocations, the quotas and for each terminal and tenant the
  -- identifiers of the indices are those of the state.
  abbrev pub Undone :
      ResourceAllocator fl → Result AllocationError (Unit {0}) × ResourceAllocator fl → Type 0
  Undone s (answer, s') =
      (answer ≡ ok tt)
      × (s'.allocations ≡ s.allocations)
      × (s'.tenant_quotas ≡ s.tenant_quotas)
      × ((t : ℕ)
          → ids_at (get ℕ_discrete t s'.terminal_index)
            ≡ ids_at (get ℕ_discrete t s.terminal_index))
      × ((q : String)
          → ids_at (get String_discrete q s'.tenant_index)
            ≡ ids_at (get String_discrete q s.tenant_index))

  release_added :
      (a : ResourceAllocation fl) (s : ResourceAllocator fl)
      → New fl a.allocation_id s
      → Indexed fl s
      → Undone s (release fl a.allocation_id (add_allocation fl a s))
  unfolding release add_allocation
  release_added a s n v =
      let id = a.allocation_id in
      let s' = (release fl id (add_allocation fl a s)).1 in
      let w : Indexed fl s' =
        release-Indexed fl id (add_allocation fl a s) (add_allocation-Indexed fl a s n v) in
      let same : s'.allocations ≡ s.allocations = rw (opened.1, release) opened.0 in
      (
        rw (opened.1, release) refl,
        same,
        rw (opened.1, release) refl,
        λ t. w.terminals t ∙ ap (ids_of fl (uses fl t)) same ∙ sym (v.terminals t),
        λ q. w.tenants q ∙ ap (ids_of fl (owned fl q)) same ∙ sym (v.tenants q),
      )
    where
      opened :
          (remove_first (has_id fl a.allocation_id) (add_allocation fl a s).allocations
            ≡ s.allocations)
          × (find_first (has_id fl a.allocation_id) (add_allocation fl a s).allocations ≡ some a)
      opened = remove_first-snoc a s.allocations n

  -- Where the indices are those of the allocations, releasing what a successful call of `allocate`
  -- has just stored under an identifier not in use succeeds and gives back the allocations, the
  -- quotas, and for each terminal and each tenant the identifiers that its index holds.
  pub release-allocate_same :
      (id : ℕ) (claim : ResourceClaim fl) (task : ℕ) (tenant : String) (priority : Priority)
      (window : TimeWindow) (s : ResourceAllocator fl)
      → Indexed fl s
      → New fl id s
      → (allocate fl id claim task tenant priority window s).0 ≡ ok id
      → Undone s (release fl id (allocate fl id claim task tenant priority window s).1)
  unfolding new_allocation
  release-allocate_same id claim task tenant priority window s v n ok_id =
      elim (allocate-cases fl id claim task tenant priority window s) [
        | inl (c, e) ↦ rw e (release_added (fresh fl id claim task tenant priority window) s n v)
        | inr (x, e) ↦ absurd (
            let f : ◌≡◌ {A = Result AllocationError ℕ} (err x) (ok id) =
              sym (ap (λ p. p.0) e) ∙ ok_id in
            cc)
      ]
