-- ===== src/Oisl/Tests.antt =====
-- The handoffs of oisl/src/federation/control_plane_handoff.rs and the allocator of
-- oisl/src/resource/allocator.rs at concrete calls.
use ground_core.Common.Tests.{ℕ, ◌+◌, ◌≤◌, List, [], ◌∷◌, some, ◌≡◌, refl, true, String_discrete}
use ground_core.Common.Lists.{All, count, length}
use ground_core.Common.Result.{ok, err}
use ground_core.Oisl.Handoff.State.{
  HandoffStep, idle, is_last, is_complete, handoff_complete, request_submitted, source_releasing,
  ControlPlaneHandoff, new_handoff, transition_to,
}
use ground_core.Oisl.Handoff.Manager.{
  is_busy, is_for, find, begin, initiate_handoff, advance_handoff, fail_handoff, get_handoff,
  invalid_handoff_state,
}
use ground_core.Oisl.Handoff.Chains.{
  Call, initiates, advances, fails, cleans, run, run-Chain, Chain,
}
use ground_core.Oisl.Handoff.Single.{run-Single}
use ground_core.Oisl.Handoff.Stuck.{run-stuck}
use ground_core.Oisl.Handoff.Steps.{advances_all, initiate-advances_complete}
use mathlib.Core.Option
use ground_core.Common.Tests.{ltb, none, ◌&&◌, arith, ℕ_discrete}
use ground_core.Common.Maps.{get, insert}
use ground_core.Common.Tests.{◌-◌, ◌/◌, ◌^◌}
use ground_core.Common.Int.{pos}
use ground_core.Common.Search.{find_first}
use ground_core.Oisl.Resource.Allocator.Undo.{Undone, release-allocate_same}
use ground_core.Oisl.Window.{TimeWindow, overlaps, high, regulatory_compliance}
use ground_core.Common.Index.{push_id}
use ground_core.Oisl.Resource.Allocator.{
  Floats, ResourceClaim, ResourceAllocator, new, allocate, release, check_conflicts, over_quota,
  tenant_usage, add_allocation, new_allocation, first_conflict, index_terminal,
}
use ground_core.Oisl.Resource.Allocator.Index.{uses}
use ground_core.Oisl.Resource.Allocator.Scan.{check_conflicts_lem}
use ground_core.Oisl.Resource.Allocator.Histories
use ground_core.Oisl.Resource.Manager
use ground_core.Oisl.Resource.Manager.{SatelliteNode, can_satisfy, has_terminal}
use ground_core.Oisl.Resource.Parts.{new_power, new_storage}
use ground_core.Oisl.Resource.Manager.Storage
use ground_core.Oisl.Resource.Allocator.Histories.{IsValid, Reach, Reach-IsValid}

abbrev ticks : ℕ → ℕ
ticks i = 1000 + i

abbrev calls : List Call
calls =
    initiates ticks "sat" "a" "b"
    ∷ initiates ticks "sat" "a" "c"
    ∷ advances ticks "sat" request_submitted
    ∷ fails ticks "sat" "lost"
    ∷ initiates ticks "sat" "a" "c"
    ∷ []

run-Chain_example : All (λ h. Chain idle h.state_history h.state) (run calls [])
run-Chain_example = run-Chain calls

run-Single_example : count (is_busy "sat") (run calls []) ≤ 1
run-Single_example = run-Single calls "sat"

abbrev one : ControlPlaneHandoff
one = begin ticks "sat" "a" "b"

one_found : find (is_for "sat") (one ∷ []) ≡ some one
unfolding find is_for begin transition_to new_handoff String_discrete
one_found = refl

abbrev retries : List Call
retries = initiates ticks "sat" "a" "c" ∷ cleans ∷ initiates ticks "sat" "a" "d" ∷ []

run-stuck_example :
    let later = run retries (fail_handoff ticks "sat" "lost" (one ∷ [])).1 in
    advance_handoff ticks "sat" request_submitted later ≡ (err (invalid_handoff_state "sat"), later)
run-stuck_example =
    run-stuck "sat" ticks "lost" (one ∷ []) one retries ticks request_submitted one_found
      (tt, (tt, (tt, tt)))

-- The steps of a handoff, with the times of their calls.
abbrev two_steps : List ((ℕ → ℕ) × HandoffStep)
two_steps = ((λ i. 20 + i), source_releasing) ∷ ((λ i. 30 + i), request_submitted) ∷ []

initiate-advances_complete_example :
    let started = initiate_handoff ticks "sat" "a" "b" [] in
    let moved = run (advances_all "sat" two_steps) started.1 in
    let ended = advance_handoff (λ i. 40 + i) "sat" handoff_complete moved in
    (started.0 ≡ ok (begin ticks "sat" "a" "b"))
    × (ended.0 ≡ ok tt)
    × ((h : ControlPlaneHandoff) × (get_handoff "sat" ended.1 ≡ some h)
        × (is_complete h ≡ true)
        × (length h.state_history ≡ 5))
unfolding get_handoff find is_last
initiate-advances_complete_example =
    initiate-advances_complete ticks (λ i. 40 + i) "sat" "a" "b" two_steps [] refl
      (refl, (refl, tt))

abbrev naturals : Floats
naturals = record {
  F64 = ℕ;
  zero_f64 = 0;
  plus = λ a b. a + b;
  gtb = λ a b. ltb b a;
  sum = total;
  literal = λ m k. m / 10 ^ k;
  minus = λ a b. a - b;
  over = λ a b. a / b;
  of_u64 = λ n. n;
}
  where
    total : List ℕ → ℕ
    total [] = 0
    total (x ∷ xs) = x + total xs

abbrev laser : ResourceClaim naturals
laser = record {
  optical_terminal = some 4;
  bandwidth = none;
  duration = pos 10;
  power_watts = 20;
  storage_bytes = none;
  compute_cycles = none;
}

abbrev between : ℕ → ℕ → TimeWindow
between a b = record { start = a; stop = b }

abbrev first_call : Histories.Call naturals
first_call = Histories.allocates 1 laser 7 "t" high (between 10 20)

abbrev after_first : ResourceAllocator naturals
after_first = Histories.step naturals first_call (new naturals)

Reach-after_first : Reach naturals after_first
unfolding new
Reach-after_first = Histories.call Histories.start first_call tt

Reach-IsValid_example :
    IsValid naturals
      (Histories.step naturals (Histories.preempts 1 regulatory_compliance) after_first)
Reach-IsValid_example =
    Reach-IsValid naturals
      (Histories.call Reach-after_first (Histories.preempts 1 regulatory_compliance) tt)

check_conflicts_lem_example :
    check_conflicts naturals laser (between 15 16) after_first
    ≡ Option.map
        (λ a. a.allocation_id)
        (find_first
          (λ a. uses naturals 4 a && overlaps a.valid_window (between 15 16))
          after_first.allocations)
check_conflicts_lem_example =
    check_conflicts_lem naturals laser (between 15 16) after_first 4
      (Reach-IsValid naturals Reach-after_first).indexed refl

release-allocate_same_example :
    Undone naturals after_first
      (release naturals 2 (allocate naturals 2 laser 8 "u" high (between 20 30) after_first).1)
unfolding Histories.step allocate check_conflicts over_quota tenant_usage add_allocation
    new_allocation overlaps new get first_conflict index_terminal push_id insert ℕ_discrete
release-allocate_same_example =
    release-allocate_same naturals 2 laser 8 "u" high (between 20 30) after_first
      (Reach-IsValid naturals Reach-after_first).indexed (omega arith, tt) refl

abbrev files : ResourceClaim naturals
files = record laser { optical_terminal = none; storage_bytes = some 4000 }

abbrev node : SatelliteNode naturals
node = Manager.new naturals 3 "sat"

abbrev store_call : Storage.Call naturals
store_call = Storage.allocates 1 files 7 "t" 10 11

asked : Storage.IsAsked naturals store_call node
unfolding can_satisfy Manager.new new_power new_storage has_terminal
asked = refl

Reach-Balanced_example :
    Storage.Balanced naturals
      (Storage.step naturals (Storage.releases 1) (Storage.step naturals store_call node))
Reach-Balanced_example =
    Storage.Reach-Balanced naturals
      (Storage.call (Storage.call (Storage.start 3 "sat") store_call asked) (Storage.releases 1) tt)
