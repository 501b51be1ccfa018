-- ===== src/Scheduling/Schedule/Buckets.antt =====
-- The loops of `check_conflicts`: what they look at, and the conflicts that they add.
use ground_core.Common.Tests.{
  ℕ, zero, suc, ◌+◌, ◌<◌, ltb, Bool, true, List, [], ◌∷◌, ◌++◌, Option, none, some, ◌≡◌, refl, ◌||◌,
  arith, Bool-cases, inl, inr, ap, ap₂, ℕ_discrete, sym, ◌∙◌,
}
use ground_core.Common.Lists.{All, count, length, get_elem?}
use ground_core.Common.Search.{Pairwise}
use ground_core.Common.Partial.{◌>>=◌}
use ground_core.Scheduling.Schedule.{
  is_seen, Scan, ScheduleConflict, ScheduledPass, overlap, check_pair, check_row, check_bucket,
  check_buckets,
}
use ground_core.Scheduling.Schedule.Pairs.{NoRepeat, total}

pub get_elem?-some {ℓ} :
    {A : Type ℓ} (xs : List A) (i : ℕ) → i < length xs → (x : A) × (get_elem? xs i ≡ some x)
get_elem?-some [] i h = absurd (omega arith)
get_elem?-some (x ∷ xs) zero h = (x, refl)
get_elem?-some (x ∷ xs) (suc i) h = get_elem?-some xs i (omega arith)

pub is_seen-append :
    (a b : ℕ) (ps qs : List (ℕ × ℕ)) → is_seen a b (ps ++ qs) ≡ is_seen a b ps || is_seen a b qs
is_seen-append a b [] qs = refl
is_seen-append a b (p ∷ ps) qs = ground (arith, is_seen-append a b ps qs)

-- A pair seen before adds nothing.
seen_again :
    (a b i j : ℕ) (ps : List (ℕ × ℕ))
    → is_seen a b ps ≡ true
    → is_seen i j ps ≡ is_seen i j ps || is_seen i j ((a, b) ∷ [])
seen_again a b i j ps y = elim (ℕ_discrete a i) [
  | yes e ↦ elim (ℕ_discrete b j) [
    | yes f ↦
        let g : is_seen i j ps ≡ true = sym (ap₂ (λ x z. is_seen x z ps) e f) ∙ y in ground arith
    | no n ↦ ground arith
  ]
  | no n ↦ ground arith
]

pub count-append {ℓ} :
    {A : Type ℓ} (f : A → Bool) (xs ys : List A) → count f (xs ++ ys) ≡ count f xs + count f ys
count-append f [] ys = omega arith
count-append f (x ∷ xs) ys = ground (arith, count-append f xs ys)

-- The pairs that the loops over `j`, over `i` and over the values of the index visit.
abbrev pub row : ℕ → List ℕ → List (ℕ × ℕ)
row a [] = []
row a (b ∷ bs) = (a, b) ∷ row a bs

abbrev pub pairs_of : List ℕ → List (ℕ × ℕ)
pairs_of [] = []
pairs_of (a ∷ later) = row a later ++ pairs_of later

abbrev pub pairs_of_all : List (List ℕ) → List (ℕ × ℕ)
pairs_of_all [] = []
pairs_of_all (bucket ∷ buckets) = pairs_of bucket ++ pairs_of_all buckets

module _ {F64 : Type 0} (passes : List (ScheduledPass F64)) where
  -- The conflict at a pair of indices, if there is one.
  abbrev pub conflicts_at : ℕ × ℕ → List ScheduleConflict
  conflicts_at p = elim (get_elem? passes p.0) [
    | none ↦ []
    | some pass1 ↦ elim (get_elem? passes p.1) [ none ↦ [] | some pass2 ↦ overlap F64 pass1 pass2 ]
  ]

  pub conflicts_at-get :
      (a b : ℕ) (pass1 pass2 : ScheduledPass F64)
      → get_elem? passes a ≡ some pass1
      → get_elem? passes b ≡ some pass2
      → conflicts_at (a, b) ≡ overlap F64 pass1 pass2
  conflicts_at-get a b pass1 pass2 e f = rw (e, f, conflicts_at) refl

  -- No pair is seen twice, and the conflicts are those of the pairs seen.
  abbrev pub Tracks : Scan → Type 0
  Tracks s =
      NoRepeat s.seen
      × ((f : ScheduleConflict → Bool)
          → count f s.conflicts ≡ total (λ p. count f (conflicts_at p)) s.seen)

  -- A step that succeeds, and sees these pairs.
  pub record Scanned (ps : List (ℕ × ℕ)) (s : Scan) (r : Option Scan) : Type 0 where
    pub result : Scan
    pub succeeds : r ≡ some result
    pub tracks : Tracks result
    pub sees : (a b : ℕ) → is_seen a b result.seen ≡ is_seen a b s.seen || is_seen a b ps

  nothing-Scanned : (s : Scan) → Tracks s → Scanned [] s (some s)
  nothing-Scanned s t = record {
    result = s;
    succeeds = refl;
    tracks = t;
    sees = λ a b. ground arith;
  }

  then-Scanned :
      (ps qs : List (ℕ × ℕ)) (s : Scan) (r : Option Scan) (next : Scan → Option Scan)
      → Scanned ps s r
      → ((t : Scan) → Tracks t → Scanned qs t (next t))
      → Scanned (ps ++ qs) s (r >>= next)
  then-Scanned ps qs s r next h k =
      let u = k h.result h.tracks in
      record {
        result = u.result;
        succeeds = ap (λ o. o >>= next) h.succeeds ∙ u.succeeds;
        tracks = u.tracks;
        sees = λ a b. ground (arith, u.sees a b, h.sees a b, is_seen-append a b ps qs);
      }

  check_pair-Scanned :
      (a b : ℕ) (s : Scan)
      → a < b
      → b < length passes
      → Tracks s
      → Scanned ((a, b) ∷ []) s (check_pair F64 passes a b s)
  unfolding check_pair
  check_pair-Scanned a b s h k t =
      let first = get_elem?-some passes a (omega arith) in
      let second = get_elem?-some passes b k in
      let here : conflicts_at (a, b) ≡ overlap F64 first.0 second.0 =
        conflicts_at-get a b first.0 second.0 first.1 second.1 in
      let ordered : ltb a b ≡ true = ground arith in
      elim (Bool-cases (is_seen a b s.seen)) [
        | inl y ↦ record {
          result = s;
          succeeds = rw (ordered, y) refl;
          tracks = t;
          sees = λ i j. seen_again a b i j s.seen y;
        }
        | inr n ↦ record {
          result = record {
            seen = (a, b) ∷ s.seen;
            conflicts = s.conflicts ++ overlap F64 first.0 second.0;
          };
          succeeds = rw (ordered, n, first.1, second.1) refl;
          tracks = (
            (n, t.0),
            λ f. omega (
              arith,
              t.1 f,
              count-append f s.conflicts (overlap F64 first.0 second.0),
              ap (count f) here,
            ),
          );
          sees = λ i j. ground arith;
        }
      ]

  check_row-Scanned :
      (a : ℕ) (bs : List ℕ) (s : Scan)
      → All (λ b. a < b × b < length passes) bs
      → Tracks s
      → Scanned (row a bs) s (check_row F64 passes a bs s)
  unfolding check_row
  check_row-Scanned a [] s h t = nothing-Scanned s t
  check_row-Scanned a (b ∷ bs) s h t =
      then-Scanned ((a, b) ∷ []) (row a bs) s (check_pair F64 passes a b s)
        (check_row F64 passes a bs) (check_pair-Scanned a b s h.0.0 h.0.1 t)
        (λ u v. check_row-Scanned a bs u h.1 v)

  -- The indices of a bucket increase, and are in range.
  abbrev pub Increasing : List ℕ → Type 0
  Increasing = Pairwise (λ a b. a < b × b < length passes)

  check_bucket-Scanned :
      (bucket : List ℕ) (s : Scan)
      → Increasing bucket
      → Tracks s
      → Scanned (pairs_of bucket) s (check_bucket F64 passes bucket s)
  unfolding check_bucket
  check_bucket-Scanned [] s h t = nothing-Scanned s t
  check_bucket-Scanned (a ∷ later) s h t =
      then-Scanned (row a later) (pairs_of later) s (check_row F64 passes a later s)
        (check_bucket F64 passes later) (check_row-Scanned a later s h.0 t)
        (λ u v. check_bucket-Scanned later u h.1 v)

  pub check_buckets-Scanned :
      (buckets : List (List ℕ)) (s : Scan)
      → All Increasing buckets
      → Tracks s
      → Scanned (pairs_of_all buckets) s (check_buckets F64 passes buckets s)
  unfolding check_buckets
  check_buckets-Scanned [] s h t = nothing-Scanned s t
  check_buckets-Scanned (bucket ∷ buckets) s h t =
      then-Scanned (pairs_of bucket) (pairs_of_all buckets) s (check_bucket F64 passes bucket s)
        (check_buckets F64 passes buckets) (check_bucket-Scanned bucket s h.0 t)
        (λ u v. check_buckets-Scanned buckets u h.1 v)
