-- ===== src/Regulatory/Report.antt =====
-- The report on a holder against the verdicts on the licences.
use Prim.Native.String.{String}
use ground_core.Common.Tests.{
  ℕ, suc, ◌+◌, ◌≤◌, ltb, ◌==◌, Bool, true, false, List, [], ◌∷◌, Option, none, some, ◌≡◌, ◌&&◌,
  refl, arith, not, ◌↔◌, String_discrete,
}
use ground_core.Common.Lists.{
  Distinct, contains, any, all, count, length, weight, count-cons, count-le-length,
}
use ground_core.Common.Maps.{get, keys}
use ground_core.Regulatory.Types.{Floats}
use ground_core.Regulatory.License.{Formats, LicenseStore, get_holder_licenses}
use ground_core.Regulatory.Held.{
  Belongs, ends_later, get_holder_licenses-Belongs, get_holder_licenses-Distinct,
  check_license_validity_lem,
}
use ground_core.Regulatory.Enforcement.{
  Tally, add_verdict, tally, ComplianceChecker, get_holder_compliance,
}

abbrev pub says_valid : Option Bool → Bool
says_valid none = false
says_valid (some valid) = valid

abbrev pub not_expired : Option Bool → Bool
not_expired none = true
not_expired (some valid) = valid

abbrev pub is_expired : Option Bool → Bool
is_expired none = false
is_expired (some valid) = not valid

add_verdict_lem :
    (v : Option Bool) (t : Tally)
    → ((add_verdict v t).total_licenses ≡ suc t.total_licenses)
      × ((add_verdict v t).valid_licenses ≡ t.valid_licenses + weight (says_valid v))
      × ((add_verdict v t).expired_licenses ≡ t.expired_licenses + weight (is_expired v))
unfolding add_verdict
add_verdict_lem none t = (refl, omega arith, omega arith)
add_verdict_lem (some true) t = (refl, omega arith, omega arith)
add_verdict_lem (some false) t = (refl, omega arith, omega arith)

any-count : (vs : List (Option Bool)) → any says_valid vs ≡ ltb 0 (count says_valid vs)
any-count [] = refl
any-count (v ∷ vs) = ground (arith, any-count vs)

all-count : (vs : List (Option Bool)) → all not_expired vs ≡ (count is_expired vs == 0)
all-count [] = refl
all-count (v ∷ vs) = ground (arith, all-count vs)

overall_lem :
    (total valid expired : ℕ) (vs : List (Option Bool))
    → valid ≡ count says_valid vs
    → expired ≡ count is_expired vs
    → valid ≤ total
    → ltb 0 total && (expired == 0) && ltb 0 valid ≡ any says_valid vs && all not_expired vs
overall_lem total valid expired vs e f h = ground (arith, any-count vs, all-count vs)

module _ (fl : Floats) (io : Formats fl) (clock : ℕ → ℕ) where
  -- Does each of these licences end after its reading of the clock?
  abbrev pub verdicts : ℕ → LicenseStore fl io → List String → List (Option Bool)
  verdicts i store [] = []
  verdicts i store (key ∷ keys) =
      ends_later fl io (clock i) (get String_discrete key store.licenses)
      ∷ verdicts (suc i) store keys

  tally_lem :
      (store : LicenseStore fl io) (i : ℕ) (keys : List String) (t : Tally)
      → ((tally fl io clock i store keys t).total_licenses ≡ t.total_licenses + length keys)
        × ((tally fl io clock i store keys t).valid_licenses
            ≡ t.valid_licenses + count says_valid (verdicts i store keys))
        × ((tally fl io clock i store keys t).expired_licenses
            ≡ t.expired_licenses + count is_expired (verdicts i store keys))
  unfolding tally add_verdict
  tally_lem store i [] t = (omega arith, omega arith, omega arith)
  tally_lem store i (key ∷ keys) t =
      let verdict = ends_later fl io (clock i) (get String_discrete key store.licenses) in
      let read = check_license_validity_lem fl io (clock i) key store in
      let rest = verdicts (suc i) store keys in
      let here = add_verdict_lem verdict t in
      let later = tally_lem store (suc i) keys (add_verdict verdict t) in
      rw (read, tally)
        (
          omega (arith, here.0, later.0),
          omega (arith, here.1, later.1, count-cons says_valid verdict rest),
          omega (arith, here.2, later.2, count-cons is_expired verdict rest),
        )

  length-verdicts :
      (store : LicenseStore fl io) (i : ℕ) (keys : List String)
      → length (verdicts i store keys) ≡ length keys
  length-verdicts store i [] = refl
  length-verdicts store i (key ∷ keys) = omega (arith, length-verdicts store (suc i) keys)

-- The report on a holder counts a list of distinct keys: just those keys of the store that begin
-- with the holder's name and a colon, given that the store has no key twice. Each licence is read at
-- a time of its own. As many are valid as have an end after that time, and as many are expired as
-- have an end not after it, the end being the field `valid_until`, if it is there and the parser of
-- timestamps reads it; and the holder is compliant exactly if some licence is valid and none is
-- expired, so a licence whose end cannot be read does not count against it.
pub get_holder_compliance-verdicts :
    (fl : Floats) (io : Formats fl) (clock : ℕ → ℕ) (checked_at : ℕ) (holder : String)
    (c : ComplianceChecker fl io)
    → Distinct (keys c.license_store.licenses)
    → let report = get_holder_compliance fl io clock checked_at holder c in
      (held : List String) × Distinct held
      × ((k : String)
          → (contains String_discrete held k ≡ true) ↔ Belongs fl io holder c.license_store k)
      × (report.total_licenses ≡ length held)
      × (report.valid_licenses ≡ count says_valid (verdicts fl io clock 0 c.license_store held))
      × (report.expired_licenses ≡ count is_expired (verdicts fl io clock 0 c.license_store held))
      × (report.overall_compliant
          ≡ any says_valid (verdicts fl io clock 0 c.license_store held)
            && all not_expired (verdicts fl io clock 0 c.license_store held))
unfolding get_holder_compliance
get_holder_compliance-verdicts fl io clock checked_at holder c distinct =
    let held = get_holder_licenses fl io holder c.license_store in
    let vs = verdicts fl io clock 0 c.license_store held in
    let none_yet : Tally = record {
      total_licenses = 0;
      valid_licenses = 0;
      expired_licenses = 0;
    } in
    let counts = tally_lem fl io clock c.license_store 0 held none_yet in
    let t = tally fl io clock 0 c.license_store held none_yet in
    let lengths = length-verdicts fl io clock c.license_store 0 held in
    let valid_in_range = count-le-length says_valid vs in
    (
      held,
      get_holder_licenses-Distinct fl io holder c.license_store distinct,
      get_holder_licenses-Belongs fl io holder c.license_store,
      omega (arith, counts.0),
      omega (arith, counts.1),
      omega (arith, counts.2),
      overall_lem t.total_licenses t.valid_licenses t.expired_licenses vs (omega (arith, counts.1))
          (omega (arith, counts.2)) (omega (arith, counts.0, counts.1, valid_in_range, lengths)),
    )
