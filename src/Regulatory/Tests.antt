-- ===== src/Regulatory/Tests.antt =====
-- Tests of the licences, and the theorems at concrete inputs: floating-point numbers are natural
-- numbers, and a stored licence is the licence with the text of its end.
use Prim.Native.String.{String}
use text.Mathlib.TextEquality.{eq_iff}
use ground_core.Common.Tests.{
  ℕ, ◌+◌, ◌*◌, ◌-◌, ◌/◌, leb, true, List, [], ◌∷◌, arith, ◌≢◌, none, some, ◌≡◌, ◌↔◌, ◌&&◌, refl,
  String_discrete, if◌then◌else◌,
}
use ground_core.Common.Lists.{Distinct, contains, any, all, count, length}
use ground_core.Common.Text.{starts_with}
use ground_core.Common.Maps.{get, insert, keys}
use ground_core.Regulatory.Types.{Floats, new_frequency, l_band, s_band}
use ground_core.Regulatory.License.{
  License, Formats, new_store, add_license, get_holder_licenses, license_key, new_license,
  check_license_validity,
}
use ground_core.Regulatory.Enforcement.{
  ComplianceChecker, ComplianceReport, check_transmit_permission, get_holder_compliance, tally,
  add_verdict,
}
use ground_core.Regulatory.Agreement.{CanTransmit, check_transmit_permission-transmit}
use ground_core.Regulatory.Held.{Belongs}
use ground_core.Regulatory.Report.{
  says_valid, not_expired, is_expired, verdicts, get_holder_compliance-verdicts,
}

abbrev numbers : Floats
numbers = record {
  F64 = ℕ;
  literal = λ m k. m;
  le = leb;
  plus = λ a b. a + b;
  minus = λ a b. a - b;
  times = λ a b. a * b;
  over = λ a b. a / b;
  powf = λ a b. a * b;
  log10 = λ a. a;
  show_f64 = λ a. "a power";
  show_u64 = λ a. "a number";
}

abbrev formats : Formats numbers
formats = record {
  Value = ℕ × String;
  from_value = λ b v. some (new_license numbers b "holder" v.0 (v.0 + 100) 30);
  str_at = λ field v. some v.1;
  parse_from_rfc3339 = λ s. if starts_with s "2" then some 150 else none;
}

abbrev store : ComplianceChecker numbers formats
store = record {
  license_store =
      add_license numbers formats "station:L-band" (50, "2026")
        (add_license numbers formats "station:east:S-band" (0, "unknown")
          (new_store numbers formats));
}

-- The edge of two bands belongs to both.
shared_edge : new_frequency s_band 2000000000 ≡ some (record { hz = 2000000000 })
unfolding new_frequency
shared_edge = refl

check_transmit_permission-transmit_example :
    ((check_transmit_permission numbers formats l_band 60 61 "station" 1500000000 20
        store).compliant
      ≡ true)
    ↔ CanTransmit numbers l_band formats 60 61 1500000000 "station" 20 store
check_transmit_permission-transmit_example =
    check_transmit_permission-transmit numbers l_band formats 60 61 1500000000 "station" 20 store

permitted :
    (check_transmit_permission numbers formats l_band 60 61 "station" 1500000000 20 store).compliant
    ≡ true
unfolding check_transmit_permission ground_core.Regulatory.Enforcement.license_violations
    ground_core.Regulatory.Enforcement.frequency_violations ground_core.Regulatory.License.is_valid
    ground_core.Regulatory.License.power_allowed ground_core.Regulatory.License.get_license
    license_key add_license new_store new_license get insert String_discrete
permitted = refl

-- A name that goes on after a colon: its licence counts for the shorter name too.
longer_name :
    get_holder_licenses numbers formats "station" store.license_store
    ≡ "station:east:S-band" ∷ "station:L-band" ∷ []
unfolding get_holder_licenses add_license new_store insert String_discrete starts_with
longer_name = refl

other_key : ◌≢◌ {A = String} "station:east:S-band" "station:L-band"
other_key = ground (arith, eq_iff "station:east:S-band" "station:L-band")

store_keys : Distinct (keys store.license_store.licenses)
unfolding add_license new_store insert String_discrete
store_keys = ((other_key, tt), (tt, tt))

get_holder_compliance-verdicts_example :
    let report = get_holder_compliance numbers formats (λ i. 60 + i) 70 "station" store in
    let store' = store.license_store in
    (held : List String) × Distinct held
    × ((k : String)
        → (contains String_discrete held k ≡ true) ↔ Belongs numbers formats "station" store' k)
    × (report.total_licenses ≡ length held)
    × (report.valid_licenses
        ≡ count says_valid (verdicts numbers formats (λ i. 60 + i) 0 store' held))
    × (report.expired_licenses
        ≡ count is_expired (verdicts numbers formats (λ i. 60 + i) 0 store' held))
    × (report.overall_compliant
        ≡ any says_valid (verdicts numbers formats (λ i. 60 + i) 0 store' held)
          && all not_expired (verdicts numbers formats (λ i. 60 + i) 0 store' held))
get_holder_compliance-verdicts_example =
    get_holder_compliance-verdicts numbers formats (λ i. 60 + i) 70 "station" store store_keys
