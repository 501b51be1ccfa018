-- ===== src/Oisl/Handoff/Find.antt =====
-- What the manager finds for a satellite after each of its writes.
use Prim.Native.String.{String}
use ground_core.Common.Tests.{
  ℕ, Bool, true, false, [], ◌∷◌, ◌++◌, none, some, ◌≡◌, refl, arith, inl, inr, subst, Bool-cases,
}
use ground_core.Common.Lists.{any, filter}
use ground_core.Oisl.Handoff.State.{
  HandoffStep, HandoffMetrics, ControlPlaneHandoff, transition_to, update_metrics,
}
use ground_core.Oisl.Handoff.Manager.{
  HandoffManager, is_for, find, on_first, is_busy, advance, break_off, finish,
}

module _ (t : ControlPlaneHandoff → Bool) where
  pub find-append :
      (hs gs : HandoffManager) (h : ControlPlaneHandoff)
      → find t hs ≡ some h
      → find t (hs ++ gs) ≡ some h
  unfolding find
  find-append [] gs h e = cc
  find-append (x ∷ hs) gs h e = ground (arith, find-append hs gs h)

  pub find-snoc :
      (hs : HandoffManager) (h : ControlPlaneHandoff)
      → find t hs ≡ none
      → t h ≡ true
      → find t (hs ++ (h ∷ [])) ≡ some h
  unfolding find
  find-snoc [] h e y = ground arith
  find-snoc (x ∷ hs) h e y = ground (arith, find-snoc hs h)

  pub find-filter :
      (keep : ControlPlaneHandoff → Bool) (hs : HandoffManager) (h : ControlPlaneHandoff)
      → find t hs ≡ some h
      → keep h ≡ true
      → find t (filter keep hs) ≡ some h
  unfolding find
  find-filter keep [] h e k = cc
  find-filter keep (x ∷ hs) h e k = elim (Bool-cases (t x)) [
    | inl y ↦ ground arith
    | inr y ↦ ground (arith, find-filter keep hs h (ground arith) k)
  ]

  pub find-on_first :
      (f : ControlPlaneHandoff → ControlPlaneHandoff) (hs : HandoffManager)
      (h : ControlPlaneHandoff)
      → find t hs ≡ some h
      → t (f h) ≡ true
      → find t (on_first t f hs) ≡ some (f h)
  unfolding find on_first
  find-on_first f [] h e k = cc
  find-on_first f (x ∷ hs) h e k = elim (Bool-cases (t x)) [
    | inl y ↦ ground arith
    | inr y ↦ ground (arith, find-on_first f hs h)
  ]

  pub find-on_first_other :
      (u : ControlPlaneHandoff → Bool) (f : ControlPlaneHandoff → ControlPlaneHandoff)
      (hs : HandoffManager)
      → ((h : ControlPlaneHandoff) → u h ≡ true → (t h ≡ false) × (t (f h) ≡ false))
      → find t (on_first u f hs) ≡ find t hs
  unfolding find on_first
  find-on_first_other u f [] k = refl
  find-on_first_other u f (x ∷ hs) k = elim (Bool-cases (u x)) [
    | inl y ↦ ground (arith, k x y)
    | inr y ↦ ground (arith, find-on_first_other u f hs k)
  ]

  pub find-true : (hs : HandoffManager) (h : ControlPlaneHandoff) → find t hs ≡ some h → t h ≡ true
  unfolding find
  find-true [] h e = cc
  find-true (x ∷ hs) h e = elim (Bool-cases (t x)) [
    | inl y ↦ let same : x ≡ h = ground arith in subst (λ z. t z ≡ true) same y
    | inr y ↦ find-true hs h (ground arith)
  ]

-- A satellite without a handoff has none in progress.
pub find-none_busy :
    (i : String) (hs : HandoffManager) → find (is_for i) hs ≡ none → any (is_busy i) hs ≡ false
unfolding find is_busy
find-none_busy i [] e = refl
find-none_busy i (h ∷ hs) e = ground (arith, find-none_busy i hs)

-- No write changes the satellite of a handoff.
module _ (i : String) (h : ControlPlaneHandoff) where
  pub is_for-advance : (clock : ℕ → ℕ) (s : HandoffStep) → is_for i (advance clock s h) ≡ is_for i h
  unfolding is_for advance transition_to
  is_for-advance clock s = ground arith

  pub is_for-break_off :
      (clock : ℕ → ℕ) (reason : String) → is_for i (break_off clock reason h) ≡ is_for i h
  unfolding is_for break_off transition_to
  is_for-break_off clock reason = refl

  pub is_for-finish :
      (clock : ℕ → ℕ) (m : HandoffMetrics) → is_for i (finish clock m h) ≡ is_for i h
  unfolding is_for finish transition_to update_metrics
  is_for-finish clock m = refl

  pub is_for-two : (j : String) → ¬ (j ≡ i) → is_for j h ≡ true → is_for i h ≡ false
  unfolding is_for
  is_for-two j n y = ground arith
