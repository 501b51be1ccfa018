-- ===== src/Scheduling/Schedule/Members.antt =====
-- Which pairs of passes the buckets of the index hold.
use Prim.Native.String.{String}
use ground_core.Common.Tests.{
  ℕ, zero, suc, ◌+◌, ◌<◌, ◌≤◌, ◌==◌, ltb, Bool, true, false, List, [], ◌∷◌, none, some, ◌≡◌, refl,
  ◌&&◌, arith, Bool-cases, inl, inr, subst, String_discrete, ℕ_discrete,
}
use ground_core.Common.Lists.{All, All-map, any, length, get_elem?, contains}
use ground_core.Common.Search.{Pairwise}
use ground_core.Scheduling.Schedule.{ScheduledPass, is_seen}
use ground_core.Scheduling.Schedule.Buckets.{row, pairs_of, is_seen-append}
use ground_core.Scheduling.Schedule.Devices.{devices, users}

abbrev pub is_in : ℕ → List ℕ → Bool
is_in a l = any (λ j. j == a) l

All-is_in : (P : ℕ → Type 0) (a : ℕ) (l : List ℕ) → All P l → is_in a l ≡ true → P a
All-is_in P a [] h e = cc
All-is_in P a (x ∷ l) h e = elim (ℕ_discrete x a) [
  | yes p ↦ subst P p h.0
  | no n ↦ All-is_in P a l h.1 (ground arith)
]

is_seen-row : (a b x : ℕ) (l : List ℕ) → is_seen a b (row x l) ≡ (x == a) && is_in b l
is_seen-row a b x [] = ground arith
is_seen-row a b x (y ∷ l) = ground (arith, is_seen-row a b x l)

module _ (n : ℕ) where
  abbrev Increasing : List ℕ → Type 0
  Increasing = Pairwise (λ a b. a < b × b < n)

  -- The pairs of an increasing list are its elements in order.
  pub is_seen-pairs_of :
      (a b : ℕ) (l : List ℕ)
      → Increasing l
      → is_seen a b (pairs_of l) ≡ ltb a b && (is_in a l && is_in b l)
  is_seen-pairs_of a b [] h = ground arith
  is_seen-pairs_of a b (x ∷ l) h = ground (
    arith,
    is_seen-append a b (row x l) (pairs_of l),
    is_seen-row a b x l,
    is_seen-pairs_of a b l h.1,
    λ (e : is_in b l ≡ true). All-is_in (λ b. x < b × b < n) b l h.0 e,
    λ (e : is_in a l ≡ true). All-is_in (λ b. x < b × b < n) a l h.0 e,
  )

  module _ {F64 : Type 0} (d : String) where
    users-range :
        (k : ℕ) (ps : List (ScheduledPass F64))
        → k + length ps ≡ n
        → All (λ j. k ≤ j × j < n) (users d k ps)
    users-range k [] e = tt
    users-range k (p ∷ ps) e =
        let later =
          All-map (λ j. suc k ≤ j × j < n) (λ j. k ≤ j × j < n) (λ j h. (omega (arith, h.0), h.1))
            (users d (suc k) ps) (users-range (suc k) ps (omega (arith, e))) in
        elim (Bool-cases (contains String_discrete (devices p.hardware_allocation) d)) [
          | inl y ↦ rw (y, users) ((omega arith, omega (arith, e)), later)
          | inr y ↦ rw (y, users) later
        ]

    pub users-Increasing :
        (k : ℕ) (ps : List (ScheduledPass F64)) → k + length ps ≡ n → Increasing (users d k ps)
    users-Increasing k [] e = tt
    users-Increasing k (p ∷ ps) e =
        let f : suc k + length ps ≡ n = omega (arith, e) in
        elim (Bool-cases (contains String_discrete (devices p.hardware_allocation) d)) [
          | inl y ↦
              rw (y, users)
                (
                  All-map (λ j. suc k ≤ j × j < n) (λ j. k < j × j < n)
                      (λ j h. (omega (arith, h.0), h.1)) (users d (suc k) ps)
                      (users-range (suc k) ps f),
                  users-Increasing (suc k) ps f,
                )
          | inr y ↦ rw (y, users) (users-Increasing (suc k) ps f)
        ]

module _ {F64 : Type 0} where
  -- The pass with this number uses the device.
  abbrev pub uses_at : String → List (ScheduledPass F64) → ℕ → Bool
  uses_at d ps i = elim (get_elem? ps i) [
    | none ↦ false
    | some p ↦ contains String_discrete (devices p.hardware_allocation) d
  ]

  module _ (d : String) where
    not_in-users :
        (k i : ℕ) (ps : List (ScheduledPass F64)) → i < k → is_in i (users d k ps) ≡ false
    not_in-users k i [] h = refl
    not_in-users k i (p ∷ ps) h = ground (arith, not_in-users (suc k) i ps (omega (arith, h)))

    pub is_in-users :
        (k i j : ℕ) (ps : List (ScheduledPass F64))
        → j ≡ k + i
        → is_in j (users d k ps) ≡ uses_at d ps i
    is_in-users k i j [] e = ground arith
    is_in-users k zero j (p ∷ ps) e = ground (arith, not_in-users (suc k) j ps (omega (arith, e)))
    is_in-users k (suc i) j (p ∷ ps) e =
        ground (arith, is_in-users (suc k) i j ps (omega (arith, e)))
