-- ===== src/Scheduling/Schedule/Pairs.antt =====
-- Lists of pairs of numbers without repetition, and sums over them.
use ground_core.Common.Tests.{
  ℕ, ◌+◌, ◌==◌, Bool, true, false, not, List, [], ◌∷◌, ◌≡◌, refl, ◌&&◌, arith, Bool-cases, inl, inr,
  ap, ap₂,
}
use ground_core.Common.Search.{remove_first}
use ground_core.Scheduling.Schedule.{is_seen}

abbrev pub NoRepeat : List (ℕ × ℕ) → Type 0
NoRepeat [] = Unit
NoRepeat (p ∷ ps) = (is_seen p.0 p.1 ps ≡ false) × NoRepeat ps

abbrev pub total : (ℕ × ℕ → ℕ) → List (ℕ × ℕ) → ℕ
total w [] = 0
total w (p ∷ ps) = w p + total w ps

abbrev same : ℕ × ℕ → ℕ × ℕ → Bool
same x p = (p.0 == x.0) && (p.1 == x.1)

module _ (x : ℕ × ℕ) where
  total-remove_first :
      (w : ℕ × ℕ → ℕ) (ps : List (ℕ × ℕ))
      → is_seen x.0 x.1 ps ≡ true
      → total w ps ≡ w x + total w (remove_first (same x) ps)
  total-remove_first w [] e = cc
  total-remove_first w (p ∷ ps) e = elim (Bool-cases (same x p)) [
    | inl y ↦
        let equal : p ≡ x = ap₂ (λ i j. (i, j)) (ground arith) (ground arith) in
        rw (y, remove_first) (omega (arith, ap w equal))
    | inr y ↦ ground (arith, total-remove_first w ps)
  ]

  is_seen-remove_first :
      (a b : ℕ) (ps : List (ℕ × ℕ))
      → NoRepeat ps
      → is_seen a b (remove_first (same x) ps) ≡ is_seen a b ps && not (same x (a, b))
  is_seen-remove_first a b [] n = ground arith
  is_seen-remove_first a b (p ∷ ps) n = ground (arith, is_seen-remove_first a b ps n.1)

  NoRepeat-remove_first : (ps : List (ℕ × ℕ)) → NoRepeat ps → NoRepeat (remove_first (same x) ps)
  NoRepeat-remove_first [] n = tt
  NoRepeat-remove_first (p ∷ ps) n =
      ground (arith, NoRepeat-remove_first ps n.1, is_seen-remove_first p.0 p.1 ps n.1)

-- The sum over a list without repetition depends only on its elements.
pub total-same :
    (w : ℕ × ℕ → ℕ) (ps qs : List (ℕ × ℕ))
    → NoRepeat ps
    → NoRepeat qs
    → ((a b : ℕ) → is_seen a b ps ≡ is_seen a b qs)
    → total w ps ≡ total w qs
total-same w [] [] n m e = refl
total-same w [] (q ∷ qs) n m e = absurd (ground (arith, e q.0 q.1))
total-same w (p ∷ ps) qs n m e =
    let others =
      total-same w ps (remove_first (same p) qs) n.1 (NoRepeat-remove_first p qs m)
        (λ a b. ground (arith, e a b, is_seen-remove_first p a b qs m, n.0)) in
    let found : is_seen p.0 p.1 qs ≡ true = ground (arith, e p.0 p.1) in
    omega (arith, others, total-remove_first p w qs found)
