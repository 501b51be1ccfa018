-- ===== src/Common/Search.antt =====
-- Searches in lists: `iter().find`, and `iter().position` followed by `remove`.
use ground_core.Common.Tests.{
  Bool, List, [], ◌∷◌, ◌++◌, Option, none, some, if◌then◌else◌, ◌≡◌, arith, Bool-cases, inl, inr,
}
use ground_core.Common.Lists.{All, filter}

module _ {ℓ} {A : Type ℓ} where
  -- `iter().find(test)`.
  abbrev pub find_first : (A → Bool) → List A → Option A
  find_first test [] = none
  find_first test (x ∷ xs) = let rest = find_first test xs in if test x then some x else rest

  -- The list without the element at `iter().position(test)`.
  abbrev pub remove_first : (A → Bool) → List A → List A
  remove_first test [] = []
  remove_first test (x ∷ xs) = let rest = remove_first test xs in if test x then xs else x ∷ rest

  -- Every earlier element stands in the relation to every later one.
  abbrev pub Pairwise {κ} : (A → A → Type κ) → List A → Type (ℓ ⊔ κ)
  Pairwise R [] = Unit
  Pairwise R (x ∷ xs) = All (R x) xs × Pairwise R xs

  pub filter-snoc :
      (test : A → Bool) (xs : List A) (x : A)
      → filter test (xs ++ (x ∷ [])) ≡ filter test xs ++ (if test x then x ∷ [] else [])
  filter-snoc test [] x = ground arith
  filter-snoc test (y ∷ xs) x = ground (arith, filter-snoc test xs x)

  pub Pairwise-snoc {κ} :
      (R : A → A → Type κ) (xs : List A) (x : A)
      → Pairwise R xs
      → All (λ y. R y x) xs
      → Pairwise R (xs ++ (x ∷ []))
  Pairwise-snoc R [] x p a = (tt, tt)
  Pairwise-snoc R (y ∷ xs) x p a = (All-snoc (R y) xs x p.0 a.0, Pairwise-snoc R xs x p.1 a.1)
    where
      All-snoc : (P : A → Type κ) (xs : List A) (x : A) → All P xs → P x → All P (xs ++ (x ∷ []))
      All-snoc P [] x a p = (p, tt)
      All-snoc P (y ∷ xs) x a p = (a.0, All-snoc P xs x a.1 p)

  remove_first-All {κ} :
      (P : A → Type κ) (test : A → Bool) (xs : List A) → All P xs → All P (remove_first test xs)
  remove_first-All P test [] a = tt
  remove_first-All P test (x ∷ xs) a = elim (Bool-cases (test x)) [
    | inl y ↦ rw (y, All, remove_first) a.1
    | inr y ↦ rw (y, All, remove_first) (a.0, remove_first-All P test xs a.1)
  ]

  pub remove_first-Pairwise {κ} :
      (R : A → A → Type κ) (test : A → Bool) (xs : List A)
      → Pairwise R xs
      → Pairwise R (remove_first test xs)
  remove_first-Pairwise R test [] p = tt
  remove_first-Pairwise R test (x ∷ xs) p = elim (Bool-cases (test x)) [
    | inl y ↦ rw (y, Pairwise, remove_first) p.1
    | inr y ↦
        rw (y, Pairwise, remove_first)
          (remove_first-All (R x) test xs p.0, remove_first-Pairwise R test xs p.1)
  ]
