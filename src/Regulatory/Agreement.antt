-- ===== src/Regulatory/Agreement.antt =====
-- The check of compliance against the transmission.
use Prim.Native.String.{String}
use ground_core.Common.Tests.{
  ℕ, leb, Bool, true, false, List, [], ◌∷◌, ◌++◌, Option, none, some, ◌≡◌, ◌↔◌, ◌&&◌, refl, sym,
  ap₂, ◌∙◌, arith, Option-cases, inl, inr,
}
use ground_core.Common.Result.{ok}
use ground_core.Regulatory.Types.{Band, Frequency, new_frequency, Floats}
use ground_core.Regulatory.License.{License, is_valid, power_allowed, Formats, get_license}
use ground_core.Regulatory.Transmit.{transmit, transmit_no_coordination}
use ground_core.Regulatory.Enforcement.{
  ComplianceChecker, check_transmit_permission, license_violations, frequency_violations, is_empty,
}

module _ (fl : Floats) (b : Band) where
  module _ (now : ℕ) (license : License fl b) (f : Frequency b) (power_dbm : fl.F64) where
    transmit_ok :
        is_valid fl now license ≡ true
        → power_allowed fl power_dbm license ≡ true
        → transmit_no_coordination fl now license f (record { dbm = power_dbm }) ≡ ok tt
    unfolding transmit transmit_no_coordination
    transmit_ok v p = rw (v, p) refl

    transmit_checks :
        transmit_no_coordination fl now license f (record { dbm = power_dbm }) ≡ ok tt
        → (is_valid fl now license ≡ true) × (power_allowed fl power_dbm license ≡ true)
    unfolding transmit transmit_no_coordination
    transmit_checks e = ground arith

    license_violations_none :
        (holder : String)
        → is_empty fl (license_violations fl b now holder power_dbm (some license))
          ≡ is_valid fl now license && power_allowed fl power_dbm license
    unfolding license_violations
    license_violations_none holder = ground arith

  frequency_violations_none :
      (hz : ℕ)
      → is_empty fl (frequency_violations fl b hz)
        ≡ leb b.min_frequency hz && leb hz b.max_frequency
  unfolding frequency_violations
  frequency_violations_none hz = ground arith

  is_empty-append : (vs ws : List _) → is_empty fl (vs ++ ws) ≡ is_empty fl vs && is_empty fl ws
  is_empty-append [] ws = refl
  is_empty-append (v ∷ vs) ws = refl

  module _ (io : Formats fl) (now checked_at hz : ℕ) (holder : String) (power_dbm : fl.F64)
      (c : ComplianceChecker fl io) where
    abbrev compliant : Bool
    compliant = (check_transmit_permission fl io b now checked_at holder hz power_dbm c).compliant

    -- The stored licence and the frequency with which a transmission without coordination succeeds.
    abbrev pub CanTransmit : Type 0
    CanTransmit =
        (license : License fl b) × (get_license fl io b holder c.license_store ≡ some license)
        × (f : Frequency b) × (new_frequency b hz ≡ some f)
        × (transmit_no_coordination fl now license f (record { dbm = power_dbm }) ≡ ok tt)

    checks : Option (License fl b) → Bool
    checks none = false
    checks (some license) = is_valid fl now license && power_allowed fl power_dbm license

    compliant_lem :
        (found : Option (License fl b))
        → get_license fl io b holder c.license_store ≡ found
        → compliant ≡ checks found && (leb b.min_frequency hz && leb hz b.max_frequency)
    unfolding check_transmit_permission checks license_violations
    compliant_lem none g = rw g refl
    compliant_lem (some license) g = rw g (
        is_empty-append (license_violations fl b now holder power_dbm (some license))
          (frequency_violations fl b hz)
        ∙ ap₂ (λ x y. x && y)
            (license_violations_none now license (record { hz = hz }) power_dbm holder)
            (frequency_violations_none hz))

    can_transmit : compliant ≡ true → CanTransmit
    unfolding new_frequency checks
    can_transmit e = elim (Option-cases (get_license fl io b holder c.license_store)) [
      | inl n ↦ absurd (let f : false ≡ true = sym (compliant_lem none n) ∙ e in cc)
      | inr (license, g) ↦
          let all_checks = sym (compliant_lem (some license) g) ∙ e in
          let valid : is_valid fl now license ≡ true = ground arith in
          let allowed : power_allowed fl power_dbm license ≡ true = ground arith in
          let f : Frequency b = record { hz = hz } in
          (license, g, f, ground arith, transmit_ok now license f power_dbm valid allowed)
    ]

    is_compliant : CanTransmit → compliant ≡ true
    unfolding new_frequency checks
    is_compliant (license, g, f, e, t) =
        let both = transmit_checks now license f power_dbm t in
        compliant_lem (some license) g ∙ ground (arith, both.0, both.1, e)

-- A holder is compliant at a frequency and power exactly if there is a stored licence of the band,
-- the frequency is one of the band, and a transmission with both and no coordination succeeds.
pub check_transmit_permission-transmit :
    (fl : Floats) (b : Band) (io : Formats fl) (now checked_at hz : ℕ) (holder : String)
    (power_dbm : fl.F64) (c : ComplianceChecker fl io)
    → ((check_transmit_permission fl io b now checked_at holder hz power_dbm c).compliant ≡ true)
      ↔ CanTransmit fl b io now checked_at hz holder power_dbm c
check_transmit_permission-transmit fl b io now checked_at hz holder power_dbm c = (
  can_transmit fl b io now checked_at hz holder power_dbm c,
  is_compliant fl b io now checked_at hz holder power_dbm c,
)
