-- ===== src/Oisl/Resource/Allocator/Scan.antt =====
-- The lookups through the indices against searches of all the allocations.
use mathlib.Core.Option
use Prim.Native.String.{String}
use ground_core.Common.Tests.{
  ℕ, Bool, List, [], ◌∷◌, none, some, ◌&&◌, if◌then◌else◌, ◌≡◌, ◌≢◌, refl, sym, ap, ◌∙◌, map, arith,
  ℕ_discrete, String_discrete,
}
use ground_core.Common.Lists.{filter, All, All-map, All-zip}
use ground_core.Common.Search.{find_first, Pairwise}
use ground_core.Common.Maps.{get}
use ground_core.Oisl.Window.{TimeWindow, overlaps}
use ground_core.Common.Index.{ids_at}
use ground_core.Oisl.Resource.Allocator.{
  Floats, ResourceClaim, ResourceAllocation, ResourceAllocator, has_id, first_conflict,
  check_conflicts, powers, tenant_usage, get_tenant_allocations,
}
use ground_core.Oisl.Resource.Allocator.Index.{Other, Indexed, ids_of, uses, owned}

module _ (fl : Floats) where
  find_first-absent :
      (id : ℕ) (test : ResourceAllocation fl → Bool) (known : List (ResourceAllocation fl))
      → All (λ b. id ≢ b.allocation_id) known
      → find_first (λ a. has_id fl id a && test a) known ≡ none
  find_first-absent id test [] n = refl
  find_first-absent id test (b ∷ known) n = ground (arith, find_first-absent id test known n.1)

  -- A search by identifier and test, where the identifier is found.
  find_first-and :
      (id : ℕ) (test : ResourceAllocation fl → Bool) (known : List (ResourceAllocation fl))
      (b : ResourceAllocation fl)
      → Pairwise (Other fl) known
      → find_first (has_id fl id) known ≡ some b
      → find_first (λ a. has_id fl id a && test a) known ≡ (if test b then some b else none)
  find_first-and id test [] b p e = absurd (cc)
  find_first-and id test (a ∷ known) b p e = elim (ℕ_discrete a.allocation_id id) [
    | yes h ↦ ground (
      arith,
      find_first-absent id test known
          (All-map (Other fl a) (λ c. id ≢ c.allocation_id) (λ c n k. n (h ∙ k)) known p.0),
    )
    | no n ↦ ground (arith, find_first-and id test known b p.1)
  ]

  -- Each allocation is found by its identifier.
  abbrev Found : List (ResourceAllocation fl) → ResourceAllocation fl → Type 0
  Found known b = find_first (has_id fl b.allocation_id) known ≡ some b

  all-Found :
      (known : List (ResourceAllocation fl)) → Pairwise (Other fl) known → All (Found known) known
  all-Found [] p = tt
  all-Found (a ∷ known) p = (
    ground arith,
    All-map (λ b. Other fl a b × Found known b) (Found (a ∷ known))
        (λ b h. ground (arith, h.0, h.1)) known
        (All-zip (Other fl a) (Found known) known p.0 (all-Found known p.1)),
  )

  first_conflict-ids_of :
      (known : List (ResourceAllocation fl)) (window : TimeWindow)
      (test : ResourceAllocation fl → Bool) (some_of : List (ResourceAllocation fl))
      → Pairwise (Other fl) known
      → All (Found known) some_of
      → first_conflict fl known window (ids_of fl test some_of)
        ≡ Option.map
            (λ a. a.allocation_id)
            (find_first (λ a. test a && overlaps a.valid_window window) some_of)
  unfolding first_conflict
  first_conflict-ids_of known window test [] p f = refl
  first_conflict-ids_of known window test (b ∷ some_of) p f = ground (
    arith,
    find_first-and b.allocation_id (λ a. overlaps a.valid_window window) known b p f.0,
    first_conflict-ids_of known window test some_of p f.1,
  )

  powers-ids_of :
      (known : List (ResourceAllocation fl)) (test : ResourceAllocation fl → Bool)
      (some_of : List (ResourceAllocation fl))
      → All (Found known) some_of
      → powers fl known (ids_of fl test some_of)
        ≡ map (λ a. a.resources.power_watts) (filter test some_of)
  unfolding powers
  powers-ids_of known test [] f = refl
  powers-ids_of known test (b ∷ some_of) f = ground (arith, powers-ids_of known test some_of f.1)

  -- Where the indices are those of the allocations, the check for conflicts of a claim of a
  -- terminal answers with the first of all the allocations that uses the terminal and whose window
  -- overlaps.
  pub check_conflicts_lem :
      (claim : ResourceClaim fl) (window : TimeWindow) (s : ResourceAllocator fl) (t : ℕ)
      → Indexed fl s
      → claim.optical_terminal ≡ some t
      → check_conflicts fl claim window s
        ≡ Option.map
            (λ a. a.allocation_id)
            (find_first (λ a. uses fl t a && overlaps a.valid_window window) s.allocations)
  unfolding check_conflicts
  check_conflicts_lem claim window s t v e =
      rw (e, check_conflicts)
        (ap (first_conflict fl s.allocations window) (v.terminals t)
          ∙ first_conflict-ids_of s.allocations window (uses fl t) s.allocations v.distinct
              (all-Found s.allocations v.distinct))

  pub tenant_usage_lem :
      (q : String) (s : ResourceAllocator fl) (ids : List ℕ)
      → Indexed fl s
      → get String_discrete q s.tenant_index ≡ some ids
      → tenant_usage fl q s
        ≡ fl.sum (map (λ a. a.resources.power_watts) (get_tenant_allocations fl q s))
  unfolding tenant_usage get_tenant_allocations
  tenant_usage_lem q s ids v e =
      rw (e, tenant_usage)
        (ap fl.sum (
          ap (powers fl s.allocations) (ap ids_at (sym e) ∙ v.tenants q)
          ∙ powers-ids_of s.allocations (owned fl q) s.allocations
              (all-Found s.allocations v.distinct)))
