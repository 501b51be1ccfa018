-- ===== src/Common/Ends.antt =====
-- The ends of a sequence: `VecDeque::pop_front`, `VecDeque::back` and `Vec::pop`.
use ground_core.Common.Tests.{
  ℕ, ◌+◌, ◌≤◌, Bool, List, [], ◌∷◌, ◌++◌, Option, none, some, ◌≡◌, refl, ap, arith, if◌then◌else◌,
  ltb, ltb→lt, Bool-cases, inl, inr,
}
use ground_core.Common.Lists.{length, length-append, count, weight}

module _ {ℓ} {A : Type ℓ} where
  abbrev pub pop_front : List A → List A
  pop_front [] = []
  pop_front (x ∷ xs) = xs

  abbrev pub back : List A → Option A
  back [] = none
  back (x ∷ []) = some x
  back (x ∷ y ∷ xs) = back (y ∷ xs)

  -- The last element and those before it.
  abbrev pub split_last : A → List A → A × List A
  split_last x [] = (x, [])
  split_last x (y ∷ ys) = let (last, rest) = split_last y ys in (last, x ∷ rest)

  abbrev pub pop : List A → Option (A × List A)
  pop [] = none
  pop (x ∷ xs) = some (split_last x xs)

  pub back-snoc : (xs : List A) (x : A) → back (xs ++ (x ∷ [])) ≡ some x
  back-snoc [] x = refl
  back-snoc (y ∷ []) x = refl
  back-snoc (y ∷ z ∷ xs) x = back-snoc (z ∷ xs) x

  pub split_last-snoc : (y : A) (xs : List A) (x : A) → split_last y (xs ++ (x ∷ [])) ≡ (x, y ∷ xs)
  split_last-snoc y [] x = refl
  split_last-snoc y (z ∷ xs) x = rw (split_last-snoc z xs x) refl

  pub pop-snoc : (xs : List A) (x : A) → pop (xs ++ (x ∷ [])) ≡ some (x, xs)
  pop-snoc [] x = refl
  pop-snoc (y ∷ xs) x = rw (split_last-snoc y xs x) refl

  pub count-split_last :
      (f : A → Bool) (x : A) (xs : List A)
      → count f (split_last x xs).1 + weight (f (split_last x xs).0) ≡ count f (x ∷ xs)
  count-split_last f x [] = ground arith
  count-split_last f x (y ∷ ys) = ground (arith, count-split_last f y ys)

  pub split_last-append :
      (x : A) (xs : List A) → (split_last x xs).1 ++ ((split_last x xs).0 ∷ []) ≡ x ∷ xs
  split_last-append x [] = refl
  split_last-append x (y ∷ ys) = ap (λ zs. x ∷ zs) (split_last-append y ys)

  pub back-pop_front :
      (xs : List A) (x : A) → 1 ≤ length xs → back (pop_front (xs ++ (x ∷ []))) ≡ some x
  back-pop_front [] x h = absurd (omega (arith, h))
  back-pop_front (y ∷ ys) x h = back-snoc ys x

  pub length-pop_front : (xs : List A) (x : A) → length (pop_front (xs ++ (x ∷ []))) ≡ length xs
  length-pop_front [] x = refl
  length-pop_front (y ∷ ys) x = omega (arith, length-append ys (x ∷ []))

  -- `push_back`, and `pop_front` if there are more than `most`.
  abbrev pub push_at_most : ℕ → List A → A → List A
  push_at_most most xs x =
      let all = xs ++ (x ∷ []) in if ltb most (length all) then pop_front all else all

  pub length-push_at_most :
      (most : ℕ) (xs : List A) (x : A) → length xs ≤ most → length (push_at_most most xs x) ≤ most
  length-push_at_most most xs x h = elim (Bool-cases (ltb most (length (xs ++ (x ∷ []))))) [
    | inl y ↦ rw y (omega (arith, h, length-pop_front xs x))
    | inr n ↦ rw n (ground (arith, n))
  ]

  pub back-push_at_most :
      (most : ℕ) (xs : List A) (x : A) → 1 ≤ most → back (push_at_most most xs x) ≡ some x
  back-push_at_most most xs x h = elim (Bool-cases (ltb most (length (xs ++ (x ∷ []))))) [
    | inl y ↦ rw y (back-pop_front xs x (omega (arith, h, ltb→lt _ _ y, length-append xs (x ∷ []))))
    | inr n ↦ rw n (back-snoc xs x)
  ]
