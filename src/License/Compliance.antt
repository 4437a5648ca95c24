-- ===== src/License/Compliance.antt =====
-- What the license check lets through.
use mathlib.Core.Path.{subst}
use infer_platform.Base.{
  ◌≡◌, sym, ◌↔◌, true, List, [], ◌∷◌, Text, Casing, trim, is_whitespace, arith, All, Bool-cases,
  inl, inr, Member, Member-nil, Member-cons, Member-any, any-Member, here, there,
}
use infer_platform.License.{
  LicenseViolation, is_approved, normalize, find_violations, approved_licenses, violation,
}

-- Trimmed and lower-cased, the license is one of the approved ones.
abbrev pub IsApproved : Casing → Text → Type 0
IsApproved u license = Member (u.to_lowercase (trim license)) approved_licenses

is_approved_iff :
    (u : Casing) (license : Text) → (is_approved u license ≡ true) ↔ IsApproved u license
unfolding is_approved normalize
is_approved_iff u license = (
  any-Member (u.to_lowercase (trim license)) approved_licenses,
  Member-any (u.to_lowercase (trim license)) approved_licenses,
)

-- What a violation says of the listed pairs.
abbrev IsFound : Casing → List (Text × Text) → LicenseViolation → Type 0
IsFound u models v = Member (v.model, v.license) models × ¬ IsApproved u v.license

violation_listed :
    (u : Casing) (models : List (Text × Text)) (v : LicenseViolation)
    → Member v (find_violations u models)
    → IsFound u models v
unfolding find_violations
violation_listed u [] v h = absurd (Member-nil v h)
violation_listed u (m ∷ models) v h = elim (Bool-cases (is_approved u m.1)) [
  | inl good ↦
      let rest = violation_listed u models v (rw good at h) in (there m models rest.0, rest.1)
  | inr bad ↦ elim (Member-cons v (violation m) (find_violations u models) (rw bad at h)) [
    | inl same ↦
        subst (IsFound u (m ∷ models)) (sym same)
          (here models, λ a. let good = (is_approved_iff u m.1).1 a in ground (arith, good, bad))
    | inr later ↦ let rest = violation_listed u models v later in (there m models rest.0, rest.1)
  ]
]

unapproved_found :
    (u : Casing) (v : LicenseViolation) (models : List (Text × Text))
    → Member (v.model, v.license) models
    → ¬ IsApproved u v.license
    → Member v (find_violations u models)
unfolding find_violations
unapproved_found u v _ (here models) n = elim (Bool-cases (is_approved u v.license)) [
  | inl good ↦ absurd (n ((is_approved_iff u v.license).0 good))
  | inr bad ↦ rw bad (here (find_violations u models))
]
unapproved_found u v _ (there m models k) n =
    let rest = unapproved_found u v models k n in
    elim (Bool-cases (is_approved u m.1)) [
      | inl good ↦ rw good rest
      | inr bad ↦ rw bad (there (violation m) (find_violations u models) rest)
    ]

-- A violation is found exactly when it names the model and the license of a listed pair and the
-- license, without the blanks around it and in lower case, is not among the approved ones.
pub find_violations_iff :
    (u : Casing) (models : List (Text × Text)) (v : LicenseViolation)
    → Member v (find_violations u models)
      ↔ (Member (v.model, v.license) models × ¬ IsApproved u v.license)
find_violations_iff u models v =
    (violation_listed u models v, λ h. unapproved_found u v models h.0 h.1)

abbrev pub IsBlank : Text → Type 0
IsBlank = All (λ c. is_whitespace c ≡ true)
