-- ===== src/Scheduling/Schedule/Conflicts.antt =====
-- `check_conflicts` against the pairwise scan.
use Prim.Native.String.{String}
use ground_core.Common.Tests.{
  ℕ, ltb, Bool, true, false, List, [], ◌∷◌, some, ◌≡◌, refl, ◌&&◌, arith, Bool-cases, Option-cases,
  inl, inr, ap, sym, ◌∙◌, subst, String_discrete,
}
use ground_core.Common.Lists.{All, any, length, get_elem?, contains, Distinct, count}
use ground_core.Common.Maps.{Map, get, keys, values}
use ground_core.Common.Values.{All-values, value_of_any, any-values}
use ground_core.Common.Index.{ids_at}
use ground_core.Common.Partial.{◌>>=◌}
use ground_core.Scheduling.Schedule.{
  ScheduledPass, ScheduleConflict, Schedule, Scan, is_seen, index_passes, check_buckets,
  check_conflicts,
}
use ground_core.Scheduling.Schedule.Pairs.{total-same}
use ground_core.Scheduling.Schedule.Buckets.{
  pairs_of, pairs_of_all, is_seen-append, check_buckets-Scanned, conflicts_at, Increasing,
}
use ground_core.Scheduling.Schedule.Devices.{
  devices, users, at_device, at_device-index_passes, index_passes-Distinct,
}
use ground_core.Scheduling.Schedule.Members.{
  is_seen-pairs_of, users-Increasing, uses_at, is_in-users,
}
use ground_core.Scheduling.Schedule.Reference.{
  shares, shares_at, shared_pairs, is_seen-shared_pairs, shared_pairs-NoRepeat, pairwise_conflicts,
  count-pairwise_conflicts,
}

is_seen-pairs_of_all :
    (a b : ℕ) (buckets : List (List ℕ))
    → is_seen a b (pairs_of_all buckets) ≡ any (λ v. is_seen a b (pairs_of v)) buckets
is_seen-pairs_of_all a b [] = refl
is_seen-pairs_of_all a b (v ∷ buckets) = ground (
  arith,
  is_seen-append a b (pairs_of v) (pairs_of_all buckets),
  is_seen-pairs_of_all a b buckets,
)

-- Two lists of strings have a common element if a test of both finds it.
any-contains :
    (test : String → Bool) (d : String) (xs : List String)
    → contains String_discrete xs d ≡ true
    → test d ≡ true
    → any test xs ≡ true
any-contains test d [] e t = cc
any-contains test d (x ∷ xs) e t = elim (String_discrete x d) [
  | yes p ↦ ground (arith, ap test p)
  | no n ↦ ground (arith, any-contains test d xs)
]

contains_of_any :
    (test : String → Bool) (xs : List String)
    → any test xs ≡ true
    → (d : String) × (contains String_discrete xs d ≡ true) × (test d ≡ true)
contains_of_any test [] e = cc
contains_of_any test (x ∷ xs) e = elim (Bool-cases (test x)) [
  | inl y ↦ (x, ground arith, y)
  | inr n ↦ let found = contains_of_any test xs (ground arith) in (found.0, ground arith, found.2)
]

same_truth : (x y : Bool) → (x ≡ true → y ≡ true) → (y ≡ true → x ≡ true) → x ≡ y
same_truth true y h k = sym (h refl)
same_truth false true h k = k refl
same_truth false false h k = refl

module _ {F64 : Type 0} (ps : List (ScheduledPass F64)) where
  module _ (a : ℕ) (p : ScheduledPass F64) (e : get_elem? ps a ≡ some p) where
    uses_at-get :
        (d : String) → uses_at d ps a ≡ contains String_discrete (devices p.hardware_allocation) d
    uses_at-get d = rw (e, uses_at) refl

    shares_at-get :
        (b : ℕ) (q : ScheduledPass F64) → get_elem? ps b ≡ some q → shares_at ps a b ≡ shares p q
    shares_at-get b q f = rw (e, f, shares_at) refl

  shares_at-uses_at :
      (d : String) (a b : ℕ)
      → uses_at d ps a ≡ true
      → uses_at d ps b ≡ true
      → shares_at ps a b ≡ true
  shares_at-uses_at d a b e f = elim (Option-cases (get_elem? ps a)) [
    | inl n ↦ absurd (let g : false ≡ true = ground arith in cc)
    | inr (p, g) ↦ elim (Option-cases (get_elem? ps b)) [
      | inl n ↦ absurd (let g : false ≡ true = ground arith in cc)
      | inr (q, k) ↦
          shares_at-get a p g b q k
          ∙ any-contains (contains String_discrete (devices q.hardware_allocation)) d
              (devices p.hardware_allocation) (sym (uses_at-get a p g d) ∙ e)
              (sym (uses_at-get b q k d) ∙ f)
    ]
  ]

  shared_device :
      (a b : ℕ)
      → shares_at ps a b ≡ true
      → (d : String) × (uses_at d ps a ≡ true) × (uses_at d ps b ≡ true)
  shared_device a b e = elim (Option-cases (get_elem? ps a)) [
    | inl n ↦ absurd (let g : false ≡ true = ground arith in cc)
    | inr (p, g) ↦ elim (Option-cases (get_elem? ps b)) [
      | inl n ↦ absurd (let g : false ≡ true = ground arith in cc)
      | inr (q, k) ↦
          let found =
            contains_of_any (contains String_discrete (devices q.hardware_allocation))
              (devices p.hardware_allocation) (sym (shares_at-get a p g b q k) ∙ e) in
          (found.0, uses_at-get a p g found.0 ∙ found.1, uses_at-get b q k found.0 ∙ found.2)
    ]
  ]

  abbrev index : Map String (List ℕ)
  index = index_passes F64 0 ps []

  module _ (h : All (λ p. Distinct (devices p.hardware_allocation)) ps) where
    at_index : (d : String) → at_device d index ≡ users d 0 ps
    unfolding get
    at_index d = at_device-index_passes d 0 ps [] h

    index-Distinct : Distinct (keys index)
    index-Distinct = index_passes-Distinct 0 ps [] tt

    bucket-users :
        (d : String) (v : List ℕ) → get String_discrete d index ≡ some v → v ≡ users d 0 ps
    bucket-users d v e = sym (ap ids_at e) ∙ at_index d

    increasing : (d : String) → Increasing ps (users d 0 ps)
    increasing d = users-Increasing (length ps) d 0 ps (omega arith)

    buckets-Increasing : All (Increasing ps) (values index)
    buckets-Increasing =
        All-values String_discrete (Increasing ps) index index-Distinct
          (λ d v e. subst (Increasing ps) (sym (bucket-users d v e)) (increasing d))

    seen_by :
        (a b : ℕ) (d : String)
        → is_seen a b (pairs_of (users d 0 ps)) ≡ ltb a b && (uses_at d ps a && uses_at d ps b)
    seen_by a b d = ground (
      arith,
      is_seen-pairs_of (length ps) a b (users d 0 ps) (increasing d),
      is_in-users d 0 a a ps (omega arith),
      is_in-users d 0 b b ps (omega arith),
    )

    in_bucket :
        (a b : ℕ) (d : String)
        → is_seen a b (pairs_of (users d 0 ps)) ≡ true
        → any (λ v. is_seen a b (pairs_of v)) (values index) ≡ true
    in_bucket a b d here = elim (Option-cases (get String_discrete d index)) [
      | inl n ↦ absurd (
          let none_seen : false ≡ true =
            subst (λ l. is_seen a b (pairs_of l) ≡ true) (sym (at_index d) ∙ ap ids_at n) here in
          cc)
      | inr (v, f) ↦
          any-values String_discrete (λ v. is_seen a b (pairs_of v)) d v index f
            (subst (λ l. is_seen a b (pairs_of l) ≡ true) (sym (bucket-users d v f)) here)
    ]

    -- The buckets hold exactly the pairs in order that share a device.
    buckets-shares_at :
        (a b : ℕ) → is_seen a b (pairs_of_all (values index)) ≡ ltb a b && shares_at ps a b
    buckets-shares_at a b =
        is_seen-pairs_of_all a b (values index)
        ∙ same_truth _ _
            (λ e.
              let found =
                value_of_any String_discrete (λ v. is_seen a b (pairs_of v)) index index-Distinct
                  e in
              let d = found.0 in
              let here : is_seen a b (pairs_of (users d 0 ps)) ≡ true =
                subst (λ l. is_seen a b (pairs_of l) ≡ true) (bucket-users d found.1 found.2)
                  found.3 in
              ground (arith, seen_by a b d, shares_at-uses_at d a b))
            (λ e.
              let found = shared_device a b (ground arith) in
              let d = found.0 in in_bucket a b d (seen_by a b d ∙ ground arith))

    check_buckets-pairwise :
        (found : Scan) × (check_buckets F64 ps (values index) (record { seen = []; conflicts = [] })
          ≡ some found)
        × ((f : ScheduleConflict → Bool)
            → count f found.conflicts ≡ count f (pairwise_conflicts ps))
    check_buckets-pairwise =
        let scanned =
          check_buckets-Scanned ps (values index) (record { seen = []; conflicts = [] })
            buckets-Increasing (tt, λ f. refl) in
        (
          scanned.result,
          scanned.succeeds,
          λ f.
              scanned.tracks.1 f
              ∙ total-same (λ p. count f (conflicts_at ps p)) scanned.result.seen
                  (shared_pairs 0 ps) scanned.tracks.0 (shared_pairs-NoRepeat 0 ps)
                  (λ a b.
                    scanned.sees a b
                    ∙ buckets-shares_at a b
                    ∙ sym (is_seen-shared_pairs 0 a b a b ps (omega arith) (omega arith)))
              ∙ sym (count-pairwise_conflicts ps f 0 ps (λ i. ap (get_elem? ps) (omega arith))),
        )

-- Looking at the passes by device finds what comparing each pass with each later one finds, every
-- conflict as often, in a schedule where no pass lists a device twice; no index is out of range.
pub check_conflicts-pairwise :
    {F64 : Type 0} (s : Schedule F64)
    → All (λ p. Distinct (devices p.hardware_allocation)) s.passes
    → (found : List ScheduleConflict) × (check_conflicts F64 s ≡ some found)
      × ((f : ScheduleConflict → Bool) → count f found ≡ count f (pairwise_conflicts s.passes))
unfolding check_conflicts
check_conflicts-pairwise {F64} s h =
    let found = check_buckets-pairwise s.passes h in
    (found.0.conflicts, ap (λ o. o >>= λ scan. some scan.conflicts) found.1, found.2)
