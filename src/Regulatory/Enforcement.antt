-- ===== src/Regulatory/Enforcement.antt =====
-- regulatory/src/enforcement.rs: the check of compliance at run time, and the report on a holder.
-- A reading of the clock is an argument; the report takes one for each licence.
use Prim.Native.String.{String}
use ground_core.Common.Tests.{
  ℕ, suc, ltb, ◌==◌, Bool, true, false, not, List, [], ◌∷◌, ◌++◌, Option, none, some, ◌&&◌, ◌||◌,
  if◌then◌else◌,
}
use ground_core.Common.Text.{text_append}
use ground_core.Regulatory.Types.{Band, Floats}
use ground_core.Regulatory.License.{
  License, is_valid, power_allowed, Formats, LicenseStore, get_license, get_holder_licenses,
  check_license_validity,
}

pub data Severity : Type 0 where
  low : Severity
  medium : Severity
  high : Severity
  critical : Severity

pub record ComplianceReport : Type 0 where
  pub holder : String
  pub total_licenses : ℕ
  pub valid_licenses : ℕ
  pub expired_licenses : ℕ
  pub overall_compliant : Bool
  pub checked_at : ℕ

-- The counters of the loop over the licences.
pub record Tally : Type 0 where
  pub total_licenses : ℕ
  pub valid_licenses : ℕ
  pub expired_licenses : ℕ

unfoldable pub add_verdict : Option Bool → Tally → Tally
add_verdict none t = record t { total_licenses = suc t.total_licenses }
add_verdict (some true) t = record t {
  total_licenses = suc t.total_licenses;
  valid_licenses = suc t.valid_licenses;
}
add_verdict (some false) t = record t {
  total_licenses = suc t.total_licenses;
  expired_licenses = suc t.expired_licenses;
}

module _ (fl : Floats) where
  pub data ViolationType : Type 0 where
    missing_license : String → ViolationType
    expired_license : String → String → ViolationType
    power_exceeds_limit : String → fl.F64 → fl.F64 → ViolationType
    missing_coordination : String → ViolationType
    frequency_outside_band : String → ℕ → ViolationType

  pub record ComplianceViolation : Type 0 where
    pub violation_type : ViolationType
    pub description : String
    pub severity : Severity

  pub record ComplianceResult : Type 0 where
    pub compliant : Bool
    pub violations : List ComplianceViolation
    pub checked_at : ℕ

  abbrev pub is_empty : List ComplianceViolation → Bool
  is_empty [] = true
  is_empty (v ∷ vs) = false

  -- The violations that a licence adds, at a reading of the clock.
  unfoldable pub license_violations :
      (b : Band) → ℕ → String → fl.F64 → Option (License fl b) → List ComplianceViolation
  license_violations b now holder power_dbm none =
      record {
        violation_type = missing_license b.name;
        description = text_append (text_append "No license found for " b.name) " band";
        severity = critical;
      }
      ∷ []
  license_violations b now holder power_dbm (some license) =
      (if not (is_valid fl now license)
        then record {
          violation_type = expired_license holder b.name;
          description = text_append (text_append "License for " b.name) " band has expired";
          severity = critical;
        }
          ∷ []
        else [])
      ++ (if not (power_allowed fl power_dbm license)
          then record {
            violation_type = power_exceeds_limit b.name power_dbm license.max_power_dbm;
            description = text_append "Power " (
                text_append (fl.show_f64 power_dbm) (
                  text_append " dBm exceeds license limit "
                    (text_append (fl.show_f64 license.max_power_dbm) " dBm")));
            severity = high;
          }
            ∷ []
          else [])

  unfoldable pub frequency_violations : Band → ℕ → List ComplianceViolation
  frequency_violations b frequency =
      if ltb frequency b.min_frequency || ltb b.max_frequency frequency
      then record {
        violation_type = frequency_outside_band b.name frequency;
        description = text_append "Frequency " (
            text_append (fl.show_u64 frequency) (
              text_append " Hz is outside " (
                text_append b.name (
                  text_append " band (" (
                    text_append (fl.show_u64 b.min_frequency)
                      (text_append "-" (text_append (fl.show_u64 b.max_frequency) " Hz)")))))));
        severity = critical;
      }
        ∷ []
      else []

  module _ (io : Formats fl) where
    pub record ComplianceChecker : Type 0 where
      pub license_store : LicenseStore fl io

    -- `now` is the reading for the licence, `checked_at` the one for the result.
    unfoldable pub check_transmit_permission :
        (b : Band) → ℕ → ℕ → String → ℕ → fl.F64 → ComplianceChecker → ComplianceResult
    check_transmit_permission b now checked_at holder frequency power_dbm c =
        let violations =
          license_violations b now holder power_dbm (get_license fl io b holder c.license_store)
          ++ frequency_violations b frequency in
        record { compliant = is_empty violations; violations = violations; checked_at = checked_at }

    -- The loop over the keys; the reading for a key is the clock's at its position.
    unfoldable pub tally : (ℕ → ℕ) → ℕ → LicenseStore fl io → List String → Tally → Tally
    tally clock i store [] t = t
    tally clock i store (key ∷ keys) t =
        tally clock (suc i) store keys
          (add_verdict (check_license_validity fl io (clock i) key store) t)

    unfoldable pub get_holder_compliance :
        (ℕ → ℕ) → ℕ → String → ComplianceChecker → ComplianceReport
    get_holder_compliance clock checked_at holder c =
        let t =
          tally clock 0 c.license_store (get_holder_licenses fl io holder c.license_store)
            (record { total_licenses = 0; valid_licenses = 0; expired_licenses = 0 }) in
        record {
          holder = holder;
          total_licenses = t.total_licenses;
          valid_licenses = t.valid_licenses;
          expired_licenses = t.expired_licenses;
          overall_compliant =
              ltb 0 t.total_licenses && (t.expired_licenses == 0) && ltb 0 t.valid_licenses;
          checked_at = checked_at;
        }
