-- ===== src/License.antt =====
-- crates/api-gateway/src/license.rs: which licenses a node's models may have.
pub mod Compliance
mod Examples
use infer_platform.Base.{
  Bool, not, List, [], ◌∷◌, map, Text, Casing, codes, text_eq, trim, any, filter,
}

unfoldable pub approved_licenses : List Text
approved_licenses =
    codes "apache-2.0"
    ∷ codes "mit"
    ∷ codes "gpl-3.0"
    ∷ codes "lgpl-3.0"
    ∷ codes "bsd-2-clause"
    ∷ codes "bsd-3-clause"
    ∷ codes "cc-by-4.0"
    ∷ codes "cc-by-sa-4.0"
    ∷ codes "openrail"
    ∷ codes "openrail++"
    ∷ codes "bigcode-openrail-m"
    ∷ codes "llama-2"
    ∷ codes "llama-3"
    ∷ codes "llama-3.1"
    ∷ codes "llama-3.2"
    ∷ codes "llama-3.3"
    ∷ codes "gemma"
    ∷ codes "gemma-2"
    ∷ codes "mistral"
    ∷ codes "phi-3"
    ∷ codes "phi-3.5"
    ∷ codes "qwen"
    ∷ codes "deepseek"
    ∷ codes "falcon-llm"
    ∷ []

pub record LicenseViolation : Type 0 where
  pub model : Text
  pub license : Text

-- `license.trim().to_lowercase()`
unfoldable pub normalize : Casing → Text → Text
unfolding trim
normalize u license = u.to_lowercase (trim license)

unfoldable pub is_approved : Casing → Text → Bool
unfolding normalize text_eq
is_approved u license = any (text_eq (normalize u license)) approved_licenses

abbrev pub violation : Text × Text → LicenseViolation
violation (model, license) = record { model = model; license = license }

unfoldable pub find_violations : Casing → List (Text × Text) → List LicenseViolation
find_violations u models = map violation (filter (λ m. not (is_approved u m.1)) models)
