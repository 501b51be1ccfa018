-- ===== src/Scheduling/Tests.antt =====
-- Tests of the schedule, and the theorems at concrete inputs.
use Prim.Native.String.{String}
use ground_core.Common.Tests.{
  ℕ, Bool, List, [], ◌∷◌, Option, none, some, ◌≡◌, refl, sym, arith, true, false, String_discrete,
  if◌then◌else◌,
}
use ground_core.Common.Lists.{count, All, contains, Distinct}
use ground_core.Common.Maps.{get, insert}
use ground_core.Common.Index.{push_id}
use ground_core.Scheduling.Schedule.{
  ScheduledPass, Schedule, ScheduleConflict, scheduled, hardware_overlap, check_conflicts, new,
  add_pass, index_passes, index_pass, index_devices, index_shadow, check_buckets, check_bucket,
  check_row, check_pair, overlap, windows_overlap, hardware_conflicts, stats, collect, count_status,
  bump, status_code,
}
use ground_core.Scheduling.Schedule.Devices.{devices}
use ground_core.Scheduling.Schedule.Reference.{pairwise_conflicts}
use ground_core.Scheduling.Schedule.Conflicts.{check_conflicts-pairwise}

abbrev pass : String → ℕ → ℕ → List String → Option String → String → String → ScheduledPass ℕ
pass id start end sdrs shadow antenna rotator = record {
  pass_id = id;
  request_id = "request";
  customer_id = "customer";
  satellite_id = "satellite";
  scheduled_window = record { start = start; end = end; min_duration_sec = 1 };
  hardware_allocation = record {
    sdr_devices = sdrs;
    shadow_sdr = shadow;
    antenna_id = antenna;
    rotator_id = rotator;
  };
  scheduled_at = 0;
  status = scheduled;
  keyhole_warning = none;
}

abbrev three_passes : Schedule ℕ
three_passes = record {
  passes =
      pass "p" 0 10 ("sdr1" ∷ []) none "antenna1" "rotator1"
      ∷ pass "q" 5 15 ("sdr2" ∷ []) (some "sdr1") "antenna2" "rotator2"
      ∷ pass "r" 20 30 ("sdr2" ∷ []) none "antenna2" "rotator2"
      ∷ [];
  generated_at = 0;
  horizon = (0, 100);
  version = 0;
}

-- An SDR of one pass is the shadow of another.
three_conflicts :
    check_conflicts ℕ three_passes
    ≡ some (record { pass1_id = "p"; pass2_id = "q"; conflict_type = hardware_overlap } ∷ [])
unfolding check_conflicts index_passes index_pass index_devices index_shadow check_buckets
    check_bucket check_row check_pair overlap windows_overlap get insert push_id String_discrete
three_conflicts = refl

-- The pairwise test of two allocations does not look at it.
shadow_not_compared :
    hardware_conflicts
      (record {
        sdr_devices = "sdr1" ∷ [];
        shadow_sdr = none;
        antenna_id = "antenna1";
        rotator_id = "rotator1";
      })
      (record {
        sdr_devices = "sdr2" ∷ [];
        shadow_sdr = some "sdr1";
        antenna_id = "antenna2";
        rotator_id = "rotator2";
      })
    ≡ false
unfolding hardware_conflicts String_discrete
shadow_not_compared = refl

-- A pass that lists a device twice conflicts with itself.
conflict_with_self :
    check_conflicts ℕ
      (add_pass ℕ (pass "p" 0 10 ("sdr1" ∷ []) (some "sdr1") "antenna1" "rotator1") (new ℕ 0 0 100))
    ≡ some (record { pass1_id = "p"; pass2_id = "p"; conflict_type = hardware_overlap } ∷ [])
unfolding check_conflicts index_passes index_pass index_devices index_shadow check_buckets
    check_bucket check_row check_pair overlap windows_overlap get insert push_id add_pass new
    String_discrete
conflict_with_self = refl

three_stats :
    stats ℕ three_passes
    ≡ some (record {
      total_passes = 3;
      unique_customers = 1;
      unique_satellites = 1;
      status_counts = (scheduled, 3) ∷ [];
      conflicts = 1;
    })
unfolding check_conflicts index_passes index_pass index_devices index_shadow check_buckets
    check_bucket check_row check_pair overlap windows_overlap get insert push_id stats collect
    count_status bump status_code String_discrete
three_stats = refl

-- Strings can be compared by running the comparison.
absent :
    (x : String) (xs : List String)
    → contains String_discrete xs x ≡ false
    → All (λ y. ¬ (x ≡ y)) xs
absent x [] e = tt
absent x (y ∷ ys) e = elim (String_discrete y x) [
  | yes p ↦ absurd (let f : true ≡ false = ground arith in cc)
  | no n ↦ (λ q. n (sym q), absent x ys (ground arith))
]

abbrev distinct_test : List String → Bool
distinct_test [] = true
distinct_test (x ∷ xs) =
    let rest = distinct_test xs in if contains String_discrete xs x then false else rest

distinct_test-Distinct : (xs : List String) → distinct_test xs ≡ true → Distinct xs
distinct_test-Distinct [] e = tt
distinct_test-Distinct (x ∷ xs) e =
    (absent x xs (ground arith), distinct_test-Distinct xs (ground arith))

abbrev ListsOnce : ScheduledPass ℕ → Type 0
ListsOnce p = Distinct (devices p.hardware_allocation)

three_passes-Distinct : All ListsOnce three_passes.passes
unfolding String_discrete
three_passes-Distinct = (
  distinct_test-Distinct ("sdr1" ∷ "antenna1" ∷ "rotator1" ∷ []) refl,
  (
    distinct_test-Distinct ("sdr2" ∷ "sdr1" ∷ "antenna2" ∷ "rotator2" ∷ []) refl,
    (distinct_test-Distinct ("sdr2" ∷ "antenna2" ∷ "rotator2" ∷ []) refl, tt),
  ),
)

check_conflicts-pairwise_example :
    (found : List ScheduleConflict) × (check_conflicts ℕ three_passes ≡ some found)
    × ((f : ScheduleConflict → Bool)
        → count f found ≡ count f (pairwise_conflicts three_passes.passes))
check_conflicts-pairwise_example = check_conflicts-pairwise three_passes three_passes-Distinct
