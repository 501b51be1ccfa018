-- ===== src/Oisl/Handoff/Single.antt =====
-- How many handoffs of a satellite are in progress.
use Prim.Native.String.{String}
use ground_core.Common.Tests.{
  ℕ, ◌+◌, ◌≤◌, Bool, true, false, List, [], ◌∷◌, ◌++◌, some, ◌≡◌, refl, arith, inl, inr, Bool-cases,
  not, String_discrete, ite, subst,
}
use ground_core.Common.Lists.{any, filter, count, weight}
use ground_core.Oisl.Handoff.State.{
  HandoffStep, ControlPlaneHandoff, new_handoff, transition_to, is_in_progress, state_in_progress,
  is_complete,
}
use ground_core.Oisl.Handoff.Cases.{initiate_handoff-cases, advance_handoff-cases, on_handoff-cases}
use ground_core.Oisl.Handoff.Manager.{
  HandoffManager, is_for, find, on_first, is_busy, begin, initiate_handoff, advance,
  advance_handoff, on_handoff, finish, complete_handoff, break_off, fail_handoff, cleanup_completed,
}
use ground_core.Oisl.Handoff.Chains.{Call, initiates, advances, completes, fails, cleans, step, run}

module _ (p : ControlPlaneHandoff → Bool) where
  count-on_first :
      (test : ControlPlaneHandoff → Bool) (f : ControlPlaneHandoff → ControlPlaneHandoff)
      (hs : HandoffManager)
      → ((h : ControlPlaneHandoff) → find test hs ≡ some h → weight (p (f h)) ≤ weight (p h))
      → count p (on_first test f hs) ≤ count p hs
  unfolding find on_first
  count-on_first test f [] k = omega arith
  count-on_first test f (h ∷ hs) k = elim (Bool-cases (test h)) [
    | inl y ↦ ground (arith, k h)
    | inr y ↦ ground (arith, count-on_first test f hs (λ g e. k g (rw y e)))
  ]

  count-filter :
      (test : ControlPlaneHandoff → Bool) (hs : HandoffManager)
      → count p (filter test hs) ≤ count p hs
  count-filter test [] = omega arith
  count-filter test (h ∷ hs) = ground (arith, count-filter test hs)

  count-snoc :
      (hs : HandoffManager) (h : ControlPlaneHandoff)
      → count p (hs ++ (h ∷ [])) ≡ count p hs + weight (p h)
  count-snoc [] h = ground arith
  count-snoc (g ∷ hs) h = ground (arith, count-snoc hs h)

  count-any-false : (hs : HandoffManager) → any p hs ≡ false → count p hs ≡ 0
  count-any-false [] e = refl
  count-any-false (h ∷ hs) e = ground (arith, count-any-false hs)

is_for-advance :
    (j : String) (clock : ℕ → ℕ) (s : HandoffStep) (h : ControlPlaneHandoff)
    → is_for j (advance clock s h) ≡ is_for j h
unfolding is_for advance transition_to
is_for-advance j clock s h = ground arith

-- A handoff that was in progress counts already.
weight-is_busy :
    (j : String) (h h' : ControlPlaneHandoff)
    → is_for j h' ≡ is_for j h
    → is_in_progress h ≡ true
    → weight (is_busy j h') ≤ weight (is_busy j h)
unfolding is_busy
weight-is_busy j h h' e y = ground arith

-- A handoff that is at an end does not count.
weight-ended :
    (j : String) (h h' : ControlPlaneHandoff)
    → is_in_progress h' ≡ false
    → weight (is_busy j h') ≤ weight (is_busy j h)
unfolding is_busy
weight-ended j h h' y = ground arith

abbrev pub Single : HandoffManager → Type 0
Single hs = (j : String) → count (is_busy j) hs ≤ 1

is_busy-begin :
    (j : String) (clock : ℕ → ℕ) (i a b : String)
    → is_busy j (begin clock i a b) ≡ ite (String_discrete i j) true false
unfolding is_busy is_for begin transition_to new_handoff is_in_progress state_in_progress
is_busy-begin j clock i a b = ground arith

begin-Single :
    (clock : ℕ → ℕ) (i a b : String) (hs : HandoffManager)
    → Single hs
    → any (is_busy i) hs ≡ false
    → Single (hs ++ (begin clock i a b ∷ []))
begin-Single clock i a b hs v n j = elim (String_discrete i j) [
  | yes p ↦ ground (
    arith,
    count-snoc (is_busy j) hs (begin clock i a b),
    count-any-false (is_busy j) hs (subst (λ x. any (is_busy x) hs ≡ false) p n),
  )
  | no q ↦
      ground
        (arith, count-snoc (is_busy j) hs (begin clock i a b), is_busy-begin j clock i a b, v j)
]

initiate-Single :
    (clock : ℕ → ℕ) (i a b : String) (hs : HandoffManager)
    → Single hs
    → Single (initiate_handoff clock i a b hs).1
initiate-Single clock i a b hs v j = elim (initiate_handoff-cases i hs clock a b) [
  | inl (_, e) ↦ rw e (v j)
  | inr (n, e) ↦ rw e (begin-Single clock i a b hs v n j)
]

advance-Single :
    (clock : ℕ → ℕ) (i : String) (s : HandoffStep) (hs : HandoffManager)
    → Single hs
    → Single (advance_handoff clock i s hs).1
advance-Single clock i s hs v j = elim (advance_handoff-cases i hs clock s) [
  | inl (n, e) ↦ rw e (v j)
  | inr (h, f, inr (_, e)) ↦ rw e (v j)
  | inr (h, f, inl (y, e)) ↦ rw e (
      omega (
        arith,
        v j,
        count-on_first (is_busy j) (is_for i) (advance clock s) hs (λ g found.
            weight-is_busy j g (advance clock s g) (is_for-advance j clock s g) (ground arith)),
      ))
]

on_handoff-Single :
    (f : ControlPlaneHandoff → ControlPlaneHandoff) (i : String) (hs : HandoffManager)
    → ((h : ControlPlaneHandoff) → is_in_progress (f h) ≡ false)
    → Single hs
    → Single (on_handoff f i hs).1
on_handoff-Single f i hs k v j = elim (on_handoff-cases i hs f) [
  | inl (n, e) ↦ rw e (v j)
  | inr (h, _, e) ↦ rw e (
      omega (
        arith,
        v j,
        count-on_first (is_busy j) (is_for i) f hs (λ g _. weight-ended j g (f g) (k g)),
      ))
]

step-Single : (c : Call) (hs : HandoffManager) → Single hs → Single (step c hs)
unfolding step
step-Single (initiates clock i a b) hs v j = initiate-Single clock i a b hs v j
step-Single (advances clock i s) hs v j = advance-Single clock i s hs v j
step-Single (completes clock i m) hs v j =
    unfold complete_handoff in
    on_handoff-Single (finish clock m) i hs
      (λ h. unfold finish transition_to is_in_progress state_in_progress in refl) v j
step-Single (fails clock i reason) hs v j =
    unfold fail_handoff in
    on_handoff-Single (break_off clock reason) i hs
      (λ h. unfold break_off transition_to is_in_progress state_in_progress in refl) v j
step-Single cleans hs v j =
    unfold cleanup_completed in
    omega (arith, count-filter (is_busy j) (λ h. not (is_complete h)) hs, v j)

run-Single_from : (cs : List Call) (hs : HandoffManager) → Single hs → Single (run cs hs)
unfolding run
run-Single_from [] hs v = v
run-Single_from (c ∷ cs) hs v = run-Single_from cs (step c hs) (step-Single c hs v)

-- Whatever is called on a new manager, each satellite has at most one handoff in progress.
pub run-Single : (cs : List Call) (j : String) → count (is_busy j) (run cs []) ≤ 1
run-Single cs j = run-Single_from cs [] (λ i. omega arith) j
