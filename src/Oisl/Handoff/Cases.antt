-- ===== src/Oisl/Handoff/Cases.antt =====
-- The branches of the manager's methods.
use Prim.Native.String.{String}
use ground_core.Common.Tests.{
  ℕ, true, false, [], ◌∷◌, ◌++◌, none, some, ◌≡◌, ◌⊎◌, refl, inl, inr, Bool-cases, Option-cases,
}
use ground_core.Common.Lists.{any}
use ground_core.Common.Result.{ok, err}
use ground_core.Oisl.Handoff.State.{HandoffStep, ControlPlaneHandoff, is_in_progress}
use ground_core.Oisl.Handoff.Manager.{
  HandoffManager, is_for, find, on_first, is_busy, begin, initiate_handoff, advance,
  advance_handoff, on_handoff, handoff_already_in_progress, handoff_not_found,
  invalid_handoff_state,
}

module _ (i : String) (hs : HandoffManager) where
  pub initiate_handoff-cases :
      (clock : ℕ → ℕ) (a b : String)
      → ((any (is_busy i) hs ≡ true)
          × (initiate_handoff clock i a b hs ≡ (err (handoff_already_in_progress i), hs)))
        ⊎ ((any (is_busy i) hs ≡ false)
            × (initiate_handoff clock i a b hs
                ≡ (ok (begin clock i a b), hs ++ (begin clock i a b ∷ []))))
  unfolding initiate_handoff
  initiate_handoff-cases clock a b = elim (Bool-cases (any (is_busy i) hs)) [
    | inl y ↦ inl (y, rw y refl)
    | inr y ↦ inr (y, rw y refl)
  ]

  pub advance_handoff-cases :
      (clock : ℕ → ℕ) (s : HandoffStep)
      → ((find (is_for i) hs ≡ none)
          × (advance_handoff clock i s hs ≡ (err (handoff_not_found i), hs)))
        ⊎ ((h : ControlPlaneHandoff) × (find (is_for i) hs ≡ some h)
            × (((is_in_progress h ≡ true)
                  × (advance_handoff clock i s hs
                      ≡ (ok tt, on_first (is_for i) (advance clock s) hs)))
                ⊎ ((is_in_progress h ≡ false)
                    × (advance_handoff clock i s hs ≡ (err (invalid_handoff_state i), hs)))))
  unfolding advance_handoff
  advance_handoff-cases clock s = elim (Option-cases (find (is_for i) hs)) [
    | inl n ↦ inl (n, rw (n, advance_handoff) refl)
    | inr (h, e) ↦ elim (Bool-cases (is_in_progress h)) [
      | inl y ↦ inr (h, e, inl (y, rw (e, advance_handoff, y) refl))
      | inr y ↦ inr (h, e, inr (y, rw (e, advance_handoff, y) refl))
    ]
  ]

  pub on_handoff-cases :
      (f : ControlPlaneHandoff → ControlPlaneHandoff)
      → ((find (is_for i) hs ≡ none) × (on_handoff f i hs ≡ (err (handoff_not_found i), hs)))
        ⊎ ((h : ControlPlaneHandoff) × (find (is_for i) hs ≡ some h)
            × (on_handoff f i hs ≡ (ok tt, on_first (is_for i) f hs)))
  unfolding on_handoff
  on_handoff-cases f = elim (Option-cases (find (is_for i) hs)) [
    | inl n ↦ inl (n, rw (n, on_handoff) refl)
    | inr (h, e) ↦ inr (h, e, rw (e, on_handoff) refl)
  ]
