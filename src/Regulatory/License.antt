-- ===== src/Regulatory/License.antt =====
-- regulatory/src/license.rs: licences of a band and their store. A stored licence is a value of
-- `serde_json`, which is a parameter, as is `chrono`'s parser of timestamps.
use Prim.Native.String.{String}
use ground_core.Common.Tests.{
  ℕ, ◌-◌, ltb, leb, Bool, false, List, [], Option, none, some, ◌&&◌, if◌then◌else◌, String_discrete,
}
use ground_core.Common.Lists.{filter}
use ground_core.Common.Maps.{Map, get, insert, remove, keys}
use ground_core.Common.Partial.{◌>>=◌}
use ground_core.Common.Text.{starts_with, spaces_to_t, text_append}
use ground_core.Regulatory.Types.{Band, Floats}

-- The key of a licence, `format!("{}:{}", holder, name)`.
unfoldable pub license_key : String → String → String
license_key holder name = text_append (text_append holder ":") name

module _ (fl : Floats) where
  pub record License (b : Band) : Type 0 where
    pub holder : String
    pub valid_from : ℕ
    pub valid_until : ℕ
    pub max_power_dbm : fl.F64

  unfoldable pub new_license : (b : Band) → String → ℕ → ℕ → fl.F64 → License b
  new_license b holder valid_from valid_until max_power_dbm = record {
    holder = holder;
    valid_from = valid_from;
    valid_until = valid_until;
    max_power_dbm = max_power_dbm;
  }

  module _ {b : Band} where
    unfoldable pub is_valid : ℕ → License b → Bool
    is_valid now l = leb l.valid_from now && ltb now l.valid_until

    unfoldable pub remaining_validity : ℕ → License b → Option ℕ
    remaining_validity now l = if ltb now l.valid_until then some (l.valid_until - now) else none

    unfoldable pub power_allowed : fl.F64 → License b → Bool
    power_allowed power_dbm l = fl.le power_dbm l.max_power_dbm

  -- `serde_json`: its values, reading a licence from one, and the text of a field
  -- (`get(field)?.as_str()?`); and `chrono::DateTime::parse_from_rfc3339`.
  pub record Formats : Type 1 where
    pub Value : Type 0
    pub from_value : (b : Band) → Value → Option (License b)
    pub str_at : String → Value → Option String
    pub parse_from_rfc3339 : String → Option ℕ

  module _ (io : Formats) where
    pub record LicenseStore : Type 0 where
      pub licenses : Map String io.Value

    unfoldable pub new_store : LicenseStore
    new_store = record { licenses = [] }

    unfoldable pub add_license : String → io.Value → LicenseStore → LicenseStore
    add_license key license s = record s {
      licenses = insert String_discrete key license s.licenses;
    }

    unfoldable pub get_license : (b : Band) → String → LicenseStore → Option (License b)
    get_license b holder s = do
      value ← get String_discrete (license_key holder b.name) s.licenses
      io.from_value b value

    unfoldable pub has_valid_license : Band → ℕ → String → LicenseStore → Bool
    has_valid_license b now holder s = elim (get_license b holder s) [
      | none ↦ false
      | some license ↦ is_valid now license
    ]

    -- `or_else`.
    abbrev or_else : Option ℕ → Option ℕ → Option ℕ
    or_else none other = other
    or_else (some n) other = some n

    unfoldable pub check_license_validity : ℕ → String → LicenseStore → Option Bool
    check_license_validity now key s = do
      value ← get String_discrete key s.licenses
      until_str ← io.str_at "valid_until" value
      until ←
          or_else (io.parse_from_rfc3339 until_str) (io.parse_from_rfc3339 (spaces_to_t until_str))
      some (ltb now until)

    unfoldable pub remove_license : String → String → LicenseStore → LicenseStore
    remove_license holder band_name s = record s {
      licenses = remove String_discrete (license_key holder band_name) s.licenses;
    }

    unfoldable pub get_holder_licenses : String → LicenseStore → List String
    get_holder_licenses holder s =
        filter (λ k. starts_with k (text_append holder ":")) (keys s.licenses)
