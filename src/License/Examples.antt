-- ===== src/License/Examples.antt =====
-- The license check on concrete licenses.
use infer_platform.Base.{
  ◌≡◌, refl, ◌↔◌, List, [], ◌∷◌, Text, codes, ascii_casing, ascii_lower, text_eq, trim, trim_start,
  is_whitespace, Member,
}
use infer_platform.License.{
  approved_licenses, normalize, is_approved, find_violations, violation, LicenseViolation,
}
use infer_platform.License.Compliance.{IsApproved, find_violations_iff}

licenses : Unit {0}
unfolding approved_licenses normalize is_approved find_violations ascii_lower text_eq trim
    trim_start is_whitespace
licenses = tt

abbrev models : List (Text × Text)
models = (codes "m", codes " MIT") ∷ (codes "p", codes "proprietary") ∷ []

one_violation :
    find_violations ascii_casing models ≡ violation (codes "p", codes "proprietary") ∷ []
unfolding licenses
one_violation = refl

abbrev proprietary : LicenseViolation
proprietary = violation (codes "p", codes "proprietary")

find_violations_iff_example : Member proprietary (find_violations ascii_casing models) ↔ (
    Member (codes "p", codes "proprietary") models
    × ¬ IsApproved ascii_casing (codes "proprietary"))
find_violations_iff_example = find_violations_iff ascii_casing models proprietary
