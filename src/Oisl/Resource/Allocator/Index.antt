-- ===== src/Oisl/Resource/Allocator/Index.antt =====
-- The two indices of the allocator against its list of allocations.
use mathlib.Core.List.{append-nil}
use Prim.Native.String.{String}
use ground_core.Common.Tests.{
  ℕ, Bool, true, false, not, List, [], ◌∷◌, ◌++◌, Option, none, some, ◌==◌, if◌then◌else◌, ite, ◌≡◌,
  ◌≢◌, refl, sym, ap, ◌∙◌, arith, ℕ_discrete, String_discrete, Bool-cases, Option-cases, inl, inr,
}
use ground_core.Common.Lists.{filter, All, All-map}
use ground_core.Common.Search.{
  find_first, remove_first, Pairwise, Pairwise-snoc, remove_first-Pairwise,
}
use ground_core.Common.Maps.{Map, get, get-modify}
use ground_core.Common.Index.{ids_at, ids_at-push_id}
use ground_core.Oisl.Resource.Allocator.{
  Floats, ResourceAllocation, ResourceAllocator, has_id, drop_id, index_terminal, unindex_terminal,
  add_allocation, release,
}

module _ {K : Type 0} (dec : Discrete K) where
  ids_at-drop_id :
      (j k : K) (id : ℕ) (m : Map K (List ℕ))
      → ids_at (get dec j (drop_id dec k id m))
        ≡ ite (dec k j) (filter (λ i. not (i == id)) (ids_at (get dec j m))) (ids_at (get dec j m))
  unfolding drop_id
  ids_at-drop_id j k id m = elim (Option-cases (get dec j m)) [
    | inl n ↦ ground (arith, get-modify dec j k (λ ids. filter (λ i. not (i == id)) ids) m)
    | inr (ids, e) ↦ ground (arith, get-modify dec j k (λ ids. filter (λ i. not (i == id)) ids) m)
  ]

-- The terminal of a claim is this one.
abbrev pub terminal_is : ℕ → Option ℕ → Bool
terminal_is t none = false
terminal_is t (some j) = ite (ℕ_discrete j t) true false

module _ (t id : ℕ) (m : Map ℕ (List ℕ)) where
  ids_at-index_terminal :
      (o : Option ℕ)
      → ids_at (get ℕ_discrete t (index_terminal o id m))
        ≡ ids_at (get ℕ_discrete t m) ++ (if terminal_is t o then id ∷ [] else [])
  unfolding index_terminal
  ids_at-index_terminal none = sym (append-nil (ids_at (get ℕ_discrete t m)))
  ids_at-index_terminal (some j) = ground (arith, ids_at-push_id ℕ_discrete t j id m)

  ids_at-unindex_terminal :
      (o : Option ℕ)
      → ids_at (get ℕ_discrete t (unindex_terminal o id m)) ≡ (
          if terminal_is t o
          then filter (λ i. not (i == id)) (ids_at (get ℕ_discrete t m))
          else ids_at (get ℕ_discrete t m))
  unfolding unindex_terminal
  ids_at-unindex_terminal none = refl
  ids_at-unindex_terminal (some j) = ground (arith, ids_at-drop_id ℕ_discrete t j id m)

module _ (fl : Floats) where
  -- The identifiers of the allocations that pass a test.
  abbrev pub ids_of : (ResourceAllocation fl → Bool) → List (ResourceAllocation fl) → List ℕ
  ids_of test [] = []
  ids_of test (a ∷ known) =
      let rest = ids_of test known in if test a then a.allocation_id ∷ rest else rest

  abbrev pub uses : ℕ → ResourceAllocation fl → Bool
  uses t a = terminal_is t a.resources.optical_terminal

  abbrev pub owned : String → ResourceAllocation fl → Bool
  owned q a = ite (String_discrete a.tenant_id q) true false

  abbrev pub Other : ResourceAllocation fl → ResourceAllocation fl → Type 0
  Other a b = a.allocation_id ≢ b.allocation_id

  -- The identifiers are distinct, and each index has those of its key, in their order.
  pub record Indexed (s : ResourceAllocator fl) : Type 0 where
    pub distinct : Pairwise Other s.allocations
    pub terminals :
        (t : ℕ) → ids_at (get ℕ_discrete t s.terminal_index) ≡ ids_of (uses t) s.allocations
    pub tenants :
        (q : String)
        → ids_at (get String_discrete q s.tenant_index) ≡ ids_of (owned q) s.allocations

  ids_of-snoc :
      (test : ResourceAllocation fl → Bool) (known : List (ResourceAllocation fl))
      (a : ResourceAllocation fl)
      → ids_of test (known ++ (a ∷ []))
        ≡ ids_of test known ++ (if test a then a.allocation_id ∷ [] else [])
  ids_of-snoc test [] a = ground arith
  ids_of-snoc test (b ∷ known) a = ground (arith, ids_of-snoc test known a)

  module _ (id : ℕ) (test : ResourceAllocation fl → Bool) where
    -- No other allocation has the identifier.
    filter-ids_of_fresh :
        (known : List (ResourceAllocation fl))
        → All (λ b. b.allocation_id ≢ id) known
        → filter (λ i. not (i == id)) (ids_of test known) ≡ ids_of test known
    filter-ids_of_fresh [] h = refl
    filter-ids_of_fresh (b ∷ known) h = ground (arith, filter-ids_of_fresh known h.1)

    filter-ids_of :
        (known : List (ResourceAllocation fl))
        → Pairwise Other known
        → filter (λ i. not (i == id)) (ids_of test known)
          ≡ ids_of test (remove_first (has_id fl id) known)
    filter-ids_of [] p = refl
    filter-ids_of (b ∷ known) p = elim (ℕ_discrete b.allocation_id id) [
      | yes e ↦ ground (
        arith,
        filter-ids_of_fresh known
            (All-map (Other b) (λ a. a.allocation_id ≢ id) (λ a n h. n (e ∙ sym h)) known p.0),
      )
      | no n ↦ ground (arith, filter-ids_of known p.1)
    ]

    -- Removing an allocation that does not pass the test.
    ids_of-remove_first :
        (known : List (ResourceAllocation fl)) (a : ResourceAllocation fl)
        → find_first (has_id fl id) known ≡ some a
        → test a ≡ false
        → ids_of test (remove_first (has_id fl id) known) ≡ ids_of test known
    ids_of-remove_first [] a e f = refl
    ids_of-remove_first (b ∷ known) a e f = ground (arith, ids_of-remove_first known a)

  pub add_allocation-Indexed :
      (a : ResourceAllocation fl) (s : ResourceAllocator fl)
      → All (λ b. Other b a) s.allocations
      → Indexed s
      → Indexed (add_allocation fl a s)
  unfolding add_allocation
  add_allocation-Indexed a s new_id v = record {
    distinct = Pairwise-snoc Other s.allocations a v.distinct new_id;
    terminals = λ t.
        ids_at-index_terminal t a.allocation_id s.terminal_index a.resources.optical_terminal
        ∙ ap (λ ids. ids ++ (if uses t a then a.allocation_id ∷ [] else [])) (v.terminals t)
        ∙ sym (ids_of-snoc (uses t) s.allocations a);
    tenants = λ q. ground (
      arith,
      ids_at-push_id String_discrete q a.tenant_id a.allocation_id s.tenant_index,
      v.tenants q,
      ids_of-snoc (owned q) s.allocations a,
    );
  }

  module _ (id : ℕ) (known : List (ResourceAllocation fl)) (a : ResourceAllocation fl)
      (distinct : Pairwise Other known) (found : find_first (has_id fl id) known ≡ some a)
      (test : ResourceAllocation fl → Bool) where
    ids_of-removed :
        (if test a then filter (λ i. not (i == id)) (ids_of test known) else ids_of test known)
        ≡ ids_of test (remove_first (has_id fl id) known)
    ids_of-removed = elim (Bool-cases (test a)) [
      | inl y ↦ rw y (filter-ids_of id test known distinct)
      | inr y ↦ rw y (sym (ids_of-remove_first id test known a found y))
    ]

  -- The allocator without the allocation that it finds.
  abbrev pub without : ℕ → ResourceAllocation fl → ResourceAllocator fl → ResourceAllocator fl
  without id a s = record s {
    allocations = remove_first (has_id fl id) s.allocations;
    terminal_index = unindex_terminal a.resources.optical_terminal id s.terminal_index;
    tenant_index = drop_id String_discrete a.tenant_id id s.tenant_index;
  }

  without-Indexed :
      (id : ℕ) (a : ResourceAllocation fl) (s : ResourceAllocator fl)
      → find_first (has_id fl id) s.allocations ≡ some a
      → Indexed s
      → Indexed (without id a s)
  without-Indexed id a s e v = record {
    distinct = remove_first-Pairwise Other (has_id fl id) s.allocations v.distinct;
    terminals = λ t.
        ids_at-unindex_terminal t id s.terminal_index a.resources.optical_terminal
        ∙ ap (λ ids. if uses t a then filter (λ i. not (i == id)) ids else ids) (v.terminals t)
        ∙ ids_of-removed id s.allocations a v.distinct e (uses t);
    tenants = λ q. ground (
      arith,
      ids_at-drop_id String_discrete q a.tenant_id id s.tenant_index,
      ap (λ ids. filter (λ i. not (i == id)) ids) (v.tenants q),
      v.tenants q,
      ids_of-removed id s.allocations a v.distinct e (owned q),
    );
  }

  pub release-Indexed :
      (id : ℕ) (s : ResourceAllocator fl) → Indexed s → Indexed (release fl id s).1
  unfolding release
  release-Indexed id s v = elim (Option-cases (find_first (has_id fl id) s.allocations)) [
    | inl n ↦ rw (n, release) v
    | inr (a, e) ↦ rw (e, release) (without-Indexed id a s e v)
  ]
