-- ===== src/Common/Lists.antt =====
-- Lists measured by native numbers, and predicates on lists by recursion.
use ground_core.Common.Tests.{
  ℕ, zero, suc, ◌+◌, ◌≤◌, ◌≡◌, refl, Bool, true, false, List, [], ◌∷◌, ◌++◌, Option, none, some,
  arith, if◌then◌else◌, ite, if_neg, if_pos, refl, subst, sym, ◌||◌, ◌&&◌,
}

module _ {ℓ} {A : Type ℓ} where
  abbrev pub length : List A → ℕ
  length [] = 0
  length (x ∷ xs) = suc (length xs)

  abbrev pub get_elem? : List A → ℕ → Option A
  get_elem? [] i = none
  get_elem? (x ∷ xs) zero = some x
  get_elem? (x ∷ xs) (suc i) = get_elem? xs i

  abbrev pub take : ℕ → List A → List A
  take zero xs = []
  take (suc n) [] = []
  take (suc n) (x ∷ xs) = x ∷ take n xs

  pub length-append : (xs ys : List A) → length (xs ++ ys) ≡ length xs + length ys
  length-append [] ys = omega arith
  length-append (x ∷ xs) ys = omega (arith, length-append xs ys)

  -- The elements that pass a test, in their order.
  abbrev pub filter : (A → Bool) → List A → List A
  filter f [] = []
  filter f (x ∷ xs) = let rest = filter f xs in if f x then x ∷ rest else rest

  -- `iter().any` and `iter().all`.
  abbrev pub any : (A → Bool) → List A → Bool
  any f [] = false
  any f (x ∷ xs) = f x || any f xs

  abbrev pub all : (A → Bool) → List A → Bool
  all f [] = true
  all f (x ∷ xs) = f x && all f xs

  -- `iter().filter(f).count()`.
  abbrev pub count : (A → Bool) → List A → ℕ
  count f [] = 0
  count f (x ∷ xs) = let rest = count f xs in if f x then suc rest else rest

  pub count-le-length : (f : A → Bool) (xs : List A) → count f xs ≤ length xs
  count-le-length f [] = omega arith
  count-le-length f (x ∷ xs) = ground (arith, count-le-length f xs)

-- A test as a number, to add up what several tests count.
abbrev pub weight : Bool → ℕ
weight true = 1
weight false = 0

pub count-cons {ℓ} :
    {A : Type ℓ} (f : A → Bool) (x : A) (xs : List A) → count f (x ∷ xs) ≡ weight (f x) + count f xs
count-cons f x xs = ground arith

module _ {ℓ κ} {A : Type ℓ} (P : A → Type κ) where
  abbrev pub All : List A → Type κ
  All [] = Unit
  All (x ∷ xs) = P x × All xs

module _ {ℓ κ} {A : Type ℓ} where
  pub All-append : (P : A → Type κ) (xs ys : List A) → All P xs → All P ys → All P (xs ++ ys)
  All-append P [] ys hx hy = hy
  All-append P (x ∷ xs) ys hx hy = (hx.0, All-append P xs ys hx.1 hy)

  pub All-zip {μ} :
      (P : A → Type κ) (Q : A → Type μ) (xs : List A)
      → All P xs
      → All Q xs
      → All (λ x. P x × Q x) xs
  All-zip P Q [] a b = tt
  All-zip P Q (x ∷ xs) a b = ((a.0, b.0), All-zip P Q xs a.1 b.1)

  pub All-map {μ} :
      (P : A → Type κ) (Q : A → Type μ) (h : (x : A) → P x → Q x) (xs : List A)
      → All P xs
      → All Q xs
  All-map P Q h [] a = tt
  All-map P Q h (x ∷ xs) a = (h x a.0, All-map P Q h xs a.1)

-- No element stands twice.
abbrev pub Distinct {ℓ} : {A : Type ℓ} → List A → Type ℓ
Distinct [] = Unit
Distinct (x ∷ xs) = All (λ y. ¬ (x ≡ y)) xs × Distinct xs

-- `contains` of a slice.
module _ {ℓ} {A : Type ℓ} (dec : Discrete A) where
  abbrev pub contains : List A → A → Bool
  contains [] a = false
  contains (x ∷ xs) a = let rest = contains xs a in ite (dec x a) true rest

  pub All-contains {κ} :
      (P : A → Type κ) (a : A) (xs : List A) → All P xs → contains xs a ≡ true → P a
  All-contains P a [] h e = cc
  All-contains P a (x ∷ xs) h e = elim (dec x a) [
    | yes p ↦ subst P p h.0
    | no n ↦ All-contains P a xs h.1 (ground arith)
  ]

  pub not_contains : (a : A) (xs : List A) → All (λ y. ¬ (a ≡ y)) xs → contains xs a ≡ false
  not_contains a [] h = refl
  not_contains a (x ∷ xs) h = rw (if_neg _ (λ (e : x ≡ a). h.0 (sym e))) (not_contains a xs h.1)

  contains-cons_all :
      (y : A) (zs xs : List A)
      → All (λ x. contains xs x ≡ true) zs
      → All (λ x. contains (y ∷ xs) x ≡ true) zs
  contains-cons_all y [] xs h = tt
  contains-cons_all y (z ∷ zs) xs h = (ground arith, contains-cons_all y zs xs h.1)

  pub contains_self : (xs : List A) → All (λ x. contains xs x ≡ true) xs
  contains_self [] = tt
  contains_self (x ∷ xs) = (rw (if_pos _ refl), contains-cons_all x xs xs (contains_self xs))
