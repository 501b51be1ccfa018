-- ===== src/Oisl/Handoff/Chains.antt =====
-- The histories of the manager, and the record that each handoff keeps of its own states.
use Prim.Native.String.{String}
use ground_core.Common.Tests.{
  ℕ, Bool, List, [], ◌∷◌, ◌++◌, ◌≡◌, refl, arith, sym, inl, inr, Bool-cases,
}
use ground_core.Common.Lists.{filter, All, All-append}
use ground_core.Oisl.Handoff.State.{
  HandoffStep, HandoffState, HandoffTrigger, HandoffMetrics, HandoffStateTransition, idle,
  ControlPlaneHandoff, new_handoff, transition_to, update_metrics, is_last,
}
use ground_core.Oisl.Handoff.Cases.{initiate_handoff-cases}
use ground_core.Oisl.Handoff.Manager.{
  HandoffManager, is_for, on_first, begin, initiate_handoff, advance, advance_handoff, on_handoff,
  finish, complete_handoff, break_off, fail_handoff, cleanup_completed,
}

-- The calls that change the manager.
pub data Call : Type 0 where
  initiates : (ℕ → ℕ) → String → String → String → Call
  advances : (ℕ → ℕ) → String → HandoffStep → Call
  completes : (ℕ → ℕ) → String → HandoffMetrics → Call
  fails : (ℕ → ℕ) → String → String → Call
  cleans : Call

unfoldable pub step : Call → HandoffManager → HandoffManager
step (initiates clock j a b) hs = (initiate_handoff clock j a b hs).1
step (advances clock j s) hs = (advance_handoff clock j s hs).1
step (completes clock j m) hs = (complete_handoff clock j m hs).1
step (fails clock j reason) hs = (fail_handoff clock j reason hs).1
step cleans hs = cleanup_completed hs

unfoldable pub run : List Call → HandoffManager → HandoffManager
run [] hs = hs
run (c ∷ cs) hs = run cs (step c hs)

-- What holds of a new handoff, and is kept by a transition and by new metrics, holds of all.
module _ {κ} (P : ControlPlaneHandoff → Type κ)
    (fresh : (now : ℕ) (j a b : String) → P (new_handoff now j a b))
    (moved : (now : ℕ) (s : HandoffState) (t : HandoffTrigger) (h : ControlPlaneHandoff)
      → P h
      → P (transition_to now s t h))
    (measured : (m : HandoffMetrics) (h : ControlPlaneHandoff) → P h → P (update_metrics m h)) where
  on_first-All :
      (test : ControlPlaneHandoff → Bool) (f : ControlPlaneHandoff → ControlPlaneHandoff)
      (hs : HandoffManager)
      → ((h : ControlPlaneHandoff) → P h → P (f h))
      → All P hs
      → All P (on_first test f hs)
  unfolding on_first
  on_first-All test f [] k a = tt
  on_first-All test f (h ∷ hs) k a = ground (arith, k h a.0, on_first-All test f hs k a.1)

  filter-All :
      (test : ControlPlaneHandoff → Bool) (hs : HandoffManager) → All P hs → All P (filter test hs)
  filter-All test [] a = tt
  filter-All test (h ∷ hs) a = ground (arith, filter-All test hs a.1)

  advance-keeps :
      (clock : ℕ → ℕ) (s : HandoffStep) (h : ControlPlaneHandoff) → P h → P (advance clock s h)
  unfolding advance
  advance-keeps clock s h p = elim (Bool-cases (is_last s)) [
    | inl y ↦ rw y (moved _ _ _ _ (moved _ _ _ h p))
    | inr y ↦ rw y (moved _ _ _ h p)
  ]

  on_handoff-All :
      (f : ControlPlaneHandoff → ControlPlaneHandoff) (j : String) (hs : HandoffManager)
      → ((h : ControlPlaneHandoff) → P h → P (f h))
      → All P hs
      → All P (on_handoff f j hs).1
  unfolding on_handoff
  on_handoff-All f j hs k a = ground (arith, on_first-All (is_for j) f hs k a)

  initiate-All :
      (clock : ℕ → ℕ) (j x y : String) (hs : HandoffManager)
      → All P hs
      → All P (initiate_handoff clock j x y hs).1
  initiate-All clock j x y hs a = elim (initiate_handoff-cases j hs clock x y) [
    | inl (_, e) ↦ rw e a
    | inr (_, e) ↦
        rw e
          (All-append P hs (_ ∷ []) a (unfold begin in moved _ _ _ _ (fresh (clock 0) j x y), tt))
  ]

  step-All : (c : Call) (hs : HandoffManager) → All P hs → All P (step c hs)
  unfolding step
  step-All (initiates clock j x y) hs a = initiate-All clock j x y hs a
  step-All (advances clock j s) hs a =
      unfold advance_handoff in
      ground (arith, on_first-All (is_for j) (advance clock s) hs (advance-keeps clock s) a)
  step-All (completes clock j m) hs a =
      unfold complete_handoff finish in
      on_handoff-All _ j hs (λ h p. moved _ _ _ _ (measured m h p)) a
  step-All (fails clock j reason) hs a =
      unfold fail_handoff break_off in on_handoff-All _ j hs (λ h p. moved _ _ _ h p) a
  step-All cleans hs a = unfold cleanup_completed in filter-All _ hs a

  pub run-All : (cs : List Call) (hs : HandoffManager) → All P hs → All P (run cs hs)
  unfolding run
  run-All [] hs a = a
  run-All (c ∷ cs) hs a = run-All cs (step c hs) (step-All c hs a)

-- Transitions that follow one another, from the one state to the other.
abbrev pub Chain : HandoffState → List HandoffStateTransition → HandoffState → Type 0
Chain s [] t = s ≡ t
Chain s (x ∷ xs) t = (x.from_state ≡ s) × Chain x.to_state xs t

Chain-snoc :
    (s : HandoffState) (xs : List HandoffStateTransition) (x : HandoffStateTransition)
    → Chain s xs x.from_state
    → Chain s (xs ++ (x ∷ [])) x.to_state
Chain-snoc s [] x c = (sym c, refl)
Chain-snoc s (y ∷ xs) x c = (c.0, Chain-snoc y.to_state xs x c.1)

-- Whatever is called on a new manager, the history of each handoff leads without a gap from `Idle`
-- to the handoff's state: each transition starts where the one before it ended.
pub run-Chain : (cs : List Call) → All (λ h. Chain idle h.state_history h.state) (run cs [])
unfolding new_handoff transition_to update_metrics
run-Chain cs =
    run-All (λ h. Chain idle h.state_history h.state) (λ now j a b. refl)
      (λ now s t h c. Chain-snoc idle h.state_history _ c) (λ m h c. c) cs [] tt
