-- ===== src/Regulatory/Transmit.antt =====
-- regulatory/src/transmit.rs: transmission with a licence, a frequency and a proof of one band.
-- A call returns the error it reports; the log lines have no counterpart.
use Prim.Native.String.{String}
use ground_core.Common.Tests.{ℕ, Bool, true, false, not, Option, none, some, ◌&&◌}
use ground_core.Common.Result.{Result, ok, ◌>>◌, fail_if}
use ground_core.Regulatory.Types.{Band, Frequency, CoordinationProof, Floats, Power}
use ground_core.Regulatory.License.{License, is_valid, power_allowed}

-- `GroundStationError::Regulatory`.
pub data RegulatoryError : Type 0 where
  regulatory : String → RegulatoryError

abbrev pub is_none {ℓ} : {A : Type ℓ} → Option A → Bool
is_none none = true
is_none (some a) = false

module _ (fl : Floats) {b : Band} where
  -- `now` is the reading of the clock.
  unfoldable pub transmit :
      ℕ
      → License fl b
      → Frequency b
      → Power fl
      → Option (CoordinationProof b)
      → Bool
      → Result RegulatoryError (Unit {0})
  transmit now license frequency power coordination requires_coordination = do
    fail_if (not (is_valid fl now license)) (regulatory "License not valid")
    fail_if (not (power_allowed fl power.dbm license)) (regulatory "Power exceeds limit")
    fail_if (requires_coordination && is_none coordination) (regulatory "Coordination required")
    ok tt

  unfoldable pub transmit_no_coordination :
      ℕ → License fl b → Frequency b → Power fl → Result RegulatoryError (Unit {0})
  transmit_no_coordination now license frequency power =
      transmit now license frequency power none false

  unfoldable pub transmit_with_coordination :
      ℕ
      → License fl b
      → Frequency b
      → Power fl
      → CoordinationProof b
      → Result RegulatoryError (Unit {0})
  transmit_with_coordination now license frequency power coordination =
      transmit now license frequency power (some coordination) true
