-- ===== src/Oisl/Handoff/Stuck.antt =====
-- What a failed handoff does to the later handoffs of its satellite.
use Prim.Native.String.{String}
use ground_core.Common.Tests.{
  ℕ, true, false, List, [], ◌∷◌, some, ◌≡◌, refl, arith, inl, inr, String_discrete, not, subst, ◌∙◌,
  sym,
}
use ground_core.Common.Lists.{All}
use ground_core.Common.Result.{err}
use ground_core.Oisl.Handoff.State.{
  HandoffStep, ControlPlaneHandoff, transition_to, is_in_progress, state_in_progress, is_complete,
  state_complete, is_failed, state_failed,
}
use ground_core.Oisl.Handoff.Manager.{
  HandoffManager, is_for, find, on_first, initiate_handoff, advance_handoff, finish,
  complete_handoff, break_off, fail_handoff, cleanup_completed, invalid_handoff_state,
}
use ground_core.Oisl.Handoff.Cases.{initiate_handoff-cases, advance_handoff-cases, on_handoff-cases}
use ground_core.Oisl.Handoff.Find.{
  find-append, find-filter, find-on_first, find-on_first_other, find-true, is_for-advance,
  is_for-break_off, is_for-finish, is_for-two,
}
use ground_core.Oisl.Handoff.Chains.{Call, initiates, advances, completes, fails, cleans, step, run}

-- A call other than `complete_handoff` for the satellite.
abbrev pub Spares : String → Call → Type 0
Spares i (completes _ j _) = ¬ (j ≡ i)
Spares i _ = Unit {0}

-- The handoff that the manager finds for the satellite has failed.
abbrev Blocked : String → HandoffManager → Type 0
Blocked i hs = (h : ControlPlaneHandoff) × (find (is_for i) hs ≡ some h) × (is_failed h ≡ true)

failed_state :
    (h : ControlPlaneHandoff)
    → is_failed h ≡ true
    → (is_in_progress h ≡ false) × (not (is_complete h) ≡ true)
unfolding is_failed is_in_progress is_complete state_failed state_in_progress state_complete
failed_state h e = ground arith

module _ (i : String) where
  other-Blocked :
      (j : String) (f : ControlPlaneHandoff → ControlPlaneHandoff) (hs : HandoffManager)
      → ¬ (j ≡ i)
      → ((k : String) (h : ControlPlaneHandoff) → is_for k (f h) ≡ is_for k h)
      → Blocked i hs
      → Blocked i (on_first (is_for j) f hs)
  other-Blocked j f hs n same (h, e, y) = (
    h,
    find-on_first_other (is_for i) (is_for j) f hs
          (λ g p. (is_for-two i g j n p, same i g ∙ is_for-two i g j n p))
        ∙ e,
    y,
  )

  initiate-Blocked :
      (clock : ℕ → ℕ) (j a b : String) (hs : HandoffManager)
      → Blocked i hs
      → Blocked i (initiate_handoff clock j a b hs).1
  initiate-Blocked clock j a b hs (h, e, y) = elim (initiate_handoff-cases j hs clock a b) [
    | inl (_, c) ↦ rw c (h, e, y)
    | inr (_, c) ↦ rw c (h, find-append (is_for i) hs _ h e, y)
  ]

  advance-stuck :
      (clock : ℕ → ℕ) (s : HandoffStep) (hs : HandoffManager)
      → Blocked i hs
      → advance_handoff clock i s hs ≡ (err (invalid_handoff_state i), hs)
  advance-stuck clock s hs (h, e, y) = elim (advance_handoff-cases i hs clock s) [
    | inl (n, _) ↦ cc
    | inr (g, f, inr (_, c)) ↦ c
    | inr (g, f, inl (p, _)) ↦
        let same : h ≡ g = ground arith in
        let ended = (failed_state g (subst (λ x. is_failed x ≡ true) same y)).0 in cc
  ]

  advance-Blocked :
      (clock : ℕ → ℕ) (j : String) (s : HandoffStep) (hs : HandoffManager)
      → Blocked i hs
      → Blocked i (advance_handoff clock j s hs).1
  advance-Blocked clock j s hs v = elim (String_discrete j i) [
    | yes p ↦ rw (p, advance-stuck clock s hs v) v
    | no n ↦ elim (advance_handoff-cases j hs clock s) [
      | inl (_, c) ↦ rw c v
      | inr (g, f, inr (_, c)) ↦ rw c v
      | inr (g, f, inl (_, c)) ↦ rw c (other-Blocked j _ hs n (λ k h. is_for-advance k h clock s) v)
    ]
  ]

  fail-Blocked :
      (clock : ℕ → ℕ) (reason : String) (hs : HandoffManager) (h : ControlPlaneHandoff)
      → find (is_for i) hs ≡ some h
      → Blocked i (fail_handoff clock i reason hs).1
  unfolding fail_handoff
  fail-Blocked clock reason hs h e = elim (on_handoff-cases i hs (break_off clock reason)) [
    | inl (n, _) ↦ absurd cc
    | inr (g, f, c) ↦ rw c (
      break_off clock reason g,
      find-on_first (is_for i) (break_off clock reason) hs g f
          (is_for-break_off i g clock reason ∙ find-true (is_for i) hs g f),
      unfold is_failed state_failed break_off transition_to in refl,
    )
  ]

  step-Blocked :
      (c : Call) (hs : HandoffManager) → Spares i c → Blocked i hs → Blocked i (step c hs)
  unfolding step
  step-Blocked (initiates clock j a b) hs q v = initiate-Blocked clock j a b hs v
  step-Blocked (advances clock j s) hs q v = advance-Blocked clock j s hs v
  step-Blocked (completes clock j m) hs q v =
      unfold complete_handoff in
      elim (on_handoff-cases j hs (finish clock m)) [
        | inl (_, c) ↦ subst (λ r. Blocked i r.1) (sym c) v
        | inr (_, _, c) ↦
            subst (λ r. Blocked i r.1) (sym c)
              (other-Blocked j _ hs q (λ k h. is_for-finish k h clock m) v)
      ]
  step-Blocked (fails clock j reason) hs q v = elim (String_discrete j i) [
    | yes p ↦
        subst (λ x. Blocked i (fail_handoff clock x reason hs).1) (sym p)
          (fail-Blocked clock reason hs v.0 v.1)
    | no n ↦
        unfold fail_handoff in
        elim (on_handoff-cases j hs (break_off clock reason)) [
          | inl (_, c) ↦ subst (λ r. Blocked i r.1) (sym c) v
          | inr (_, _, c) ↦
              subst (λ r. Blocked i r.1) (sym c)
                (other-Blocked j _ hs n (λ k h. is_for-break_off k h clock reason) v)
        ]
  ]
  step-Blocked cleans hs q (h, e, y) =
      unfold cleanup_completed in
      (h, find-filter (is_for i) (λ g. not (is_complete g)) hs h e (failed_state h y).1, y)

  run-Blocked :
      (cs : List Call) (hs : HandoffManager)
      → All (Spares i) cs
      → Blocked i hs
      → Blocked i (run cs hs)
  unfolding run
  run-Blocked [] hs q v = v
  run-Blocked (c ∷ cs) hs q v = run-Blocked cs (step c hs) q.1 (step-Blocked c hs q.0 v)

-- Once `fail_handoff` has been called for a satellite that has a handoff, no `advance_handoff` for
-- the satellite succeeds again: whatever is called, new handoffs of the satellite and clean-ups
-- included, except `complete_handoff` for it, the answer is `InvalidHandoffState`, and nothing
-- changes.
pub run-stuck :
    (i : String) (clock : ℕ → ℕ) (reason : String) (hs : HandoffManager) (h : ControlPlaneHandoff)
    (cs : List Call) (clock' : ℕ → ℕ) (s : HandoffStep)
    → find (is_for i) hs ≡ some h
    → All (Spares i) cs
    → let later = run cs (fail_handoff clock i reason hs).1 in
      advance_handoff clock' i s later ≡ (err (invalid_handoff_state i), later)
run-stuck i clock reason hs h cs clock' s e q =
    advance-stuck i clock' s _ (run-Blocked i cs _ q (fail-Blocked i clock reason hs h e))
