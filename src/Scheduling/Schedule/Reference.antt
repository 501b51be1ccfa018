-- ===== src/Scheduling/Schedule/Reference.antt =====
-- The pairwise scan that `check_conflicts` replaces, and the pairs it compares.
use ground_core.Common.Tests.{
  ℕ, zero, suc, ◌+◌, ◌<◌, ◌≤◌, ◌==◌, ltb, Bool, false, List, [], ◌∷◌, ◌++◌, Option, none, some, ◌≡◌,
  refl, ◌&&◌, arith, if◌then◌else◌, Bool-cases, inl, inr, ap, ◌∙◌, String_discrete,
}
use ground_core.Common.Lists.{any, get_elem?, contains, count}
use ground_core.Scheduling.Schedule.{ScheduledPass, ScheduleConflict, is_seen, overlap}
use ground_core.Scheduling.Schedule.Pairs.{NoRepeat, total}
use ground_core.Scheduling.Schedule.Buckets.{
  is_seen-append, count-append, conflicts_at, conflicts_at-get,
}
use ground_core.Scheduling.Schedule.Devices.{devices}

module _ {F64 : Type 0} where
  -- The two passes share a device.
  abbrev pub shares : ScheduledPass F64 → ScheduledPass F64 → Bool
  shares p q =
      any (contains String_discrete (devices q.hardware_allocation)) (devices p.hardware_allocation)

  -- Each pass against each later one.
  abbrev pub compare_with : ScheduledPass F64 → List (ScheduledPass F64) → List ScheduleConflict
  compare_with p [] = []
  compare_with p (q ∷ qs) = (if shares p q then overlap F64 p q else []) ++ compare_with p qs

  abbrev pub pairwise_conflicts : List (ScheduledPass F64) → List ScheduleConflict
  pairwise_conflicts [] = []
  pairwise_conflicts (p ∷ ps) = compare_with p ps ++ pairwise_conflicts ps

  -- The numbers of the passes compared that share a device.
  abbrev shared_row : ℕ → ScheduledPass F64 → ℕ → List (ScheduledPass F64) → List (ℕ × ℕ)
  shared_row k p j [] = []
  shared_row k p j (q ∷ qs) =
      let rest = shared_row k p (suc j) qs in if shares p q then (k, j) ∷ rest else rest

  abbrev pub shared_pairs : ℕ → List (ScheduledPass F64) → List (ℕ × ℕ)
  shared_pairs k [] = []
  shared_pairs k (p ∷ ps) = shared_row k p (suc k) ps ++ shared_pairs (suc k) ps

  abbrev pub shares_with : ScheduledPass F64 → Option (ScheduledPass F64) → Bool
  shares_with p none = false
  shares_with p (some q) = shares p q

  abbrev pub shares_at : List (ScheduledPass F64) → ℕ → ℕ → Bool
  shares_at ps a b = elim (get_elem? ps a) [
    | none ↦ false
    | some p ↦ shares_with p (get_elem? ps b)
  ]

  module _ (k : ℕ) (p : ScheduledPass F64) (a b : ℕ) where
    shared_row-below :
        (j : ℕ) (qs : List (ScheduledPass F64)) → b < j → is_seen a b (shared_row k p j qs) ≡ false
    shared_row-below j [] h = refl
    shared_row-below j (q ∷ qs) h = ground (arith, shared_row-below (suc j) qs (omega (arith, h)))

    is_seen-shared_row :
        (j i : ℕ) (qs : List (ScheduledPass F64))
        → b ≡ j + i
        → is_seen a b (shared_row k p j qs) ≡ (k == a) && shares_with p (get_elem? qs i)
    is_seen-shared_row j i [] e = ground arith
    is_seen-shared_row j zero (q ∷ qs) e =
        ground (arith, shared_row-below (suc j) qs (omega (arith, e)))
    is_seen-shared_row j (suc i) (q ∷ qs) e =
        ground (arith, is_seen-shared_row (suc j) i qs (omega (arith, e)))

  shared_row-other :
      (k : ℕ) (p : ScheduledPass F64) (a b j : ℕ) (qs : List (ScheduledPass F64))
      → ¬ (k ≡ a)
      → is_seen a b (shared_row k p j qs) ≡ false
  shared_row-other k p a b j [] n = refl
  shared_row-other k p a b j (q ∷ qs) n = ground (arith, shared_row-other k p a b (suc j) qs n)

  below_first :
      (k a b : ℕ) (ps : List (ScheduledPass F64)) → a < k → is_seen a b (shared_pairs k ps) ≡ false
  below_first k a b [] h = refl
  below_first k a b (p ∷ ps) h = ground (
    arith,
    is_seen-append a b (shared_row k p (suc k) ps) (shared_pairs (suc k) ps),
    shared_row-other k p a b (suc k) ps (λ e. omega (arith, h, e)),
    below_first (suc k) a b ps (omega (arith, h)),
  )

  below_second :
      (k a b : ℕ) (ps : List (ScheduledPass F64)) → b ≤ k → is_seen a b (shared_pairs k ps) ≡ false
  below_second k a b [] h = refl
  below_second k a b (p ∷ ps) h = ground (
    arith,
    is_seen-append a b (shared_row k p (suc k) ps) (shared_pairs (suc k) ps),
    shared_row-below k p a b (suc k) ps (omega (arith, h)),
    below_second (suc k) a b ps (omega (arith, h)),
  )

  pub is_seen-shared_pairs :
      (k i j a b : ℕ) (ps : List (ScheduledPass F64))
      → a ≡ k + i
      → b ≡ k + j
      → is_seen a b (shared_pairs k ps) ≡ ltb a b && shares_at ps i j
  is_seen-shared_pairs k i j a b [] e f = ground arith
  is_seen-shared_pairs k i zero a b (p ∷ ps) e f =
      ground (arith, below_second k a b (p ∷ ps) (omega (arith, f)))
  is_seen-shared_pairs k zero (suc j) a b (p ∷ ps) e f = ground (
    arith,
    is_seen-append a b (shared_row k p (suc k) ps) (shared_pairs (suc k) ps),
    is_seen-shared_row k p a b (suc k) j ps (omega (arith, f)),
    below_first (suc k) a b ps (omega (arith, e)),
  )
  is_seen-shared_pairs k (suc i) (suc j) a b (p ∷ ps) e f = ground (
    arith,
    is_seen-append a b (shared_row k p (suc k) ps) (shared_pairs (suc k) ps),
    shared_row-other k p a b (suc k) ps (λ g. omega (arith, e, g)),
    is_seen-shared_pairs (suc k) i j a b ps (omega (arith, e)) (omega (arith, f)),
  )

  NoRepeat-row :
      (k : ℕ) (p : ScheduledPass F64) (j : ℕ) (qs : List (ScheduledPass F64))
      → NoRepeat (shared_row k p j qs)
  NoRepeat-row k p j [] = tt
  NoRepeat-row k p j (q ∷ qs) =
      ground (arith, NoRepeat-row k p (suc j) qs, shared_row-below k p k j (suc j) qs (omega arith))

  NoRepeat-then :
      (k : ℕ) (p : ScheduledPass F64) (j : ℕ) (qs : List (ScheduledPass F64)) (rest : List (ℕ × ℕ))
      → ((b : ℕ) → is_seen k b rest ≡ false)
      → NoRepeat rest
      → NoRepeat (shared_row k p j qs ++ rest)
  NoRepeat-then k p j [] rest h n = n
  NoRepeat-then k p j (q ∷ qs) rest h n = ground (
    arith,
    NoRepeat-then k p (suc j) qs rest h n,
    is_seen-append k j (shared_row k p (suc j) qs) rest,
    shared_row-below k p k j (suc j) qs (omega arith),
    h j,
  )

  pub shared_pairs-NoRepeat : (k : ℕ) (ps : List (ScheduledPass F64)) → NoRepeat (shared_pairs k ps)
  shared_pairs-NoRepeat k [] = tt
  shared_pairs-NoRepeat k (p ∷ ps) =
      NoRepeat-then k p (suc k) ps (shared_pairs (suc k) ps)
        (λ b. below_first (suc k) k b ps (omega arith)) (shared_pairs-NoRepeat (suc k) ps)

  module _ (passes : List (ScheduledPass F64)) (f : ScheduleConflict → Bool) where
    abbrev weigh : ℕ × ℕ → ℕ
    weigh p = count f (conflicts_at passes p)

    total-append : (ps qs : List (ℕ × ℕ)) → total weigh (ps ++ qs) ≡ total weigh ps + total weigh qs
    total-append [] qs = omega arith
    total-append (p ∷ ps) qs = omega (arith, total-append ps qs)

    -- The passes from a number on.
    abbrev From : ℕ → List (ScheduledPass F64) → Type 0
    From k ps = (i : ℕ) → get_elem? passes (k + i) ≡ get_elem? ps i

    From-tail :
        (k : ℕ) (p : ScheduledPass F64) (ps : List (ScheduledPass F64))
        → From k (p ∷ ps)
        → From (suc k) ps
    From-tail k p ps h i = ap (get_elem? passes) (omega arith) ∙ h (suc i)

    From-head :
        (k : ℕ) (p : ScheduledPass F64) (ps : List (ScheduledPass F64))
        → From k (p ∷ ps)
        → get_elem? passes k ≡ some p
    From-head k p ps h = ap (get_elem? passes) (omega arith) ∙ h 0

    count-compare_with :
        (k : ℕ) (p : ScheduledPass F64) (j : ℕ) (qs : List (ScheduledPass F64))
        → get_elem? passes k ≡ some p
        → From j qs
        → count f (compare_with p qs) ≡ total weigh (shared_row k p j qs)
    count-compare_with k p j [] e h = refl
    count-compare_with k p j (q ∷ qs) e h =
        let here : weigh (k, j) ≡ count f (overlap F64 p q) =
          ap (count f) (conflicts_at-get passes k j p q e (From-head j q qs h)) in
        let later = count-compare_with k p (suc j) qs e (From-tail j q qs h) in
        elim (Bool-cases (shares p q)) [
          | inl y ↦
              rw (y, compare_with, shared_row)
                (omega (arith, here, later, count-append f (overlap F64 p q) (compare_with p qs)))
          | inr y ↦ rw (y, compare_with, shared_row) later
        ]

    -- The pairwise scan adds up the conflicts at the pairs that share a device.
    pub count-pairwise_conflicts :
        (k : ℕ) (ps : List (ScheduledPass F64))
        → From k ps
        → count f (pairwise_conflicts ps) ≡ total weigh (shared_pairs k ps)
    count-pairwise_conflicts k [] h = refl
    count-pairwise_conflicts k (p ∷ ps) h = omega (
      arith,
      count-append f (compare_with p ps) (pairwise_conflicts ps),
      count-compare_with k p (suc k) ps (From-head k p ps h) (From-tail k p ps h),
      count-pairwise_conflicts (suc k) ps (From-tail k p ps h),
      total-append (shared_row k p (suc k) ps) (shared_pairs (suc k) ps),
    )
