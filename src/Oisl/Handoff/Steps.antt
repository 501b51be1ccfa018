-- ===== src/Oisl/Handoff/Steps.antt =====
-- A handoff from its start to its end.
use Prim.Native.String.{String}
use ground_core.Common.Tests.{
  ℕ, suc, ◌+◌, true, false, List, [], ◌∷◌, none, some, ◌≡◌, refl, arith, inl, inr, subst, ◌∙◌, ap,
}
use ground_core.Common.Lists.{All, length, length-append}
use ground_core.Common.Result.{ok}
use ground_core.Oisl.Handoff.State.{
  HandoffStep, handoff_complete, HandoffState, HandoffTrigger, ControlPlaneHandoff, new_handoff,
  transition_to, is_in_progress, state_in_progress, is_complete, state_complete, is_last,
}
use ground_core.Oisl.Handoff.Manager.{
  HandoffManager, is_for, find, initiate_handoff, begin, advance, advance_handoff, get_handoff,
}
use ground_core.Oisl.Handoff.Cases.{initiate_handoff-cases, advance_handoff-cases}
use ground_core.Oisl.Handoff.Find.{
  find-snoc, find-on_first, find-true, find-none_busy, is_for-advance,
}
use ground_core.Oisl.Handoff.Chains.{Call, advances, step, run}

-- The steps of a handoff, each with the clock of its call.
abbrev pub Steps : Type 0
Steps = List ((ℕ → ℕ) × HandoffStep)

-- The calls of `advance_handoff` for one satellite, step by step.
abbrev pub advances_all : String → Steps → List Call
advances_all i [] = []
advances_all i ((clock, s) ∷ ss) = advances clock i s ∷ advances_all i ss

-- The satellite's handoff is in progress and has made n transitions.
abbrev Active : String → ℕ → HandoffManager → Type 0
Active i n hs =
    (h : ControlPlaneHandoff) × (find (is_for i) hs ≡ some h)
    × (is_in_progress h ≡ true)
    × (length h.state_history ≡ n)

begin_lem :
    (clock : ℕ → ℕ) (i a b : String)
    → let h = begin clock i a b in
      (is_for i h ≡ true) × (is_in_progress h ≡ true) × (length h.state_history ≡ 1)
unfolding begin transition_to new_handoff is_for is_in_progress state_in_progress
begin_lem clock i a b = ground arith

length-transition_to :
    (now : ℕ) (s : HandoffState) (t : HandoffTrigger) (h : ControlPlaneHandoff)
    → length (transition_to now s t h).state_history ≡ suc (length h.state_history)
unfolding transition_to
length-transition_to now s t h = omega (arith, length-append h.state_history (_ ∷ []))

advance_lem :
    (clock : ℕ → ℕ) (s : HandoffStep) (h : ControlPlaneHandoff)
    → is_last s ≡ false
    → let h' = advance clock s h in
      (is_in_progress h' ≡ true) × (length h'.state_history ≡ suc (length h.state_history))
unfolding advance is_in_progress state_in_progress
advance_lem clock s h e = rw e (unfold transition_to in refl, length-transition_to _ _ _ h)

advance_last :
    (clock : ℕ → ℕ) (h : ControlPlaneHandoff)
    → let h' = advance clock handoff_complete h in
      (is_complete h' ≡ true) × (length h'.state_history ≡ suc (suc (length h.state_history)))
unfolding advance is_complete state_complete is_last
advance_last clock h = (
  unfold transition_to in refl,
  length-transition_to _ _ _ _ ∙ ap suc (length-transition_to _ _ _ h),
)

module _ (i : String) where
  initiate-Active :
      (clock : ℕ → ℕ) (a b : String) (hs : HandoffManager)
      → find (is_for i) hs ≡ none
      → ((initiate_handoff clock i a b hs).0 ≡ ok (begin clock i a b))
        × Active i 1 (initiate_handoff clock i a b hs).1
  initiate-Active clock a b hs e = elim (initiate_handoff-cases i hs clock a b) [
    | inl (y, _) ↦ absurd (let n = find-none_busy i hs e in cc)
    | inr (_, c) ↦
        let (f, p, l) = begin_lem clock i a b in
        rw c (refl, (begin clock i a b, find-snoc (is_for i) hs (begin clock i a b) e f, p, l))
  ]

  -- An `advance_handoff` of an active handoff writes to it.
  advance-writes :
      (clock : ℕ → ℕ) (s : HandoffStep) (n : ℕ) (hs : HandoffManager)
      → Active i n hs
      → (h : ControlPlaneHandoff) × (length h.state_history ≡ n)
        × ((advance_handoff clock i s hs).0 ≡ ok tt)
        × (find (is_for i) (advance_handoff clock i s hs).1 ≡ some (advance clock s h))
  advance-writes clock s n hs (h, e, p, l) = elim (advance_handoff-cases i hs clock s) [
    | inl (m, _) ↦ absurd cc
    | inr (g, f, inr (q, c)) ↦
        let same : h ≡ g = ground arith in
        let moving = subst (λ x. is_in_progress x ≡ true) same p in absurd cc
    | inr (g, f, inl (_, c)) ↦
        let same : h ≡ g = ground arith in
        rw c (
          g,
          subst (λ x. length x.state_history ≡ n) same l,
          refl,
          find-on_first (is_for i) (advance clock s) hs g f
              (is_for-advance i g clock s ∙ find-true (is_for i) hs g f),
        )
  ]

  advances-Active :
      (ss : Steps) (n : ℕ) (hs : HandoffManager)
      → All (λ s. is_last s.1 ≡ false) ss
      → Active i n hs
      → Active i (n + length ss) (run (advances_all i ss) hs)
  unfolding run step
  advances-Active [] n hs q v = subst (λ k. Active i k hs) (omega arith) v
  advances-Active ((clock, s) ∷ ss) n hs q v =
      let (h, l, _, e) = advance-writes clock s n hs v in
      let (p, m) = advance_lem clock s h q.0 in
      let next : Active i (suc n) (advance_handoff clock i s hs).1 =
        (advance clock s h, e, p, omega (arith, m, l)) in
      subst (λ k. Active i k (run (advances_all i ss) (advance_handoff clock i s hs).1))
        (omega arith) (advances-Active ss (suc n) (advance_handoff clock i s hs).1 q.1 next)

-- For a satellite without a handoff, `initiate_handoff` succeeds; after any steps but the last,
-- whatever their order and number, the last step succeeds as well and the handoff is complete. Its
-- history has one transition for the start, one for each step, and one more for the completion.
-- Each of the calls reads a clock of its own, of which nothing is asked.
pub initiate-advances_complete :
    (start stop : ℕ → ℕ) (i a b : String) (ss : Steps) (hs : HandoffManager)
    → get_handoff i hs ≡ none
    → All (λ s. is_last s.1 ≡ false) ss
    → let started = initiate_handoff start i a b hs in
      let moved = run (advances_all i ss) started.1 in
      let ended = advance_handoff stop i handoff_complete moved in
      (started.0 ≡ ok (begin start i a b))
      × (ended.0 ≡ ok tt)
      × ((h : ControlPlaneHandoff) × (get_handoff i ended.1 ≡ some h)
          × (is_complete h ≡ true)
          × (length h.state_history ≡ length ss + 3))
unfolding get_handoff
initiate-advances_complete start stop i a b ss hs e q =
    let (o, v) = initiate-Active i start a b hs e in
    let (h, l, o', f) =
      advance-writes i stop handoff_complete (1 + length ss) _
        (advances-Active i ss 1 (initiate_handoff start i a b hs).1 q v) in
    let (c, m) = advance_last stop h in
    (o, o', (advance stop handoff_complete h, f, c, omega (arith, l, m)))
