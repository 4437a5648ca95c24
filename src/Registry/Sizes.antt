-- ===== src/Registry/Sizes.antt =====
-- The figures of the registry: no overflow, and no layer without VRAM.
use mathlib.Core.Path.{subst}
use infer_platform.Base.{
  ℕ, ◌+◌, ◌≤◌, ◌<◌, ◌≡◌, List, [], ◌∷◌, some, Text, Casing, All, find, arith, u64_mod, Bool, true,
  Bool-cases, inl, inr, ap, refl,
}
use infer_platform.Planner.{ModelSpec, total_vram_mb}
use infer_platform.Planner.Single.{IsSound}
use infer_platform.Registry.{KnownModel, model_spec, known_models, spec_of, matches, get, estimate}

known_models-IsSound : All (λ k. IsSound (model_spec k)) known_models
unfolding known_models model_spec
known_models-IsSound = omega arith

found-IsSound :
    (p : KnownModel → Bool) (l : List KnownModel) (spec : ModelSpec)
    → All (λ k. IsSound (model_spec k)) l
    → spec_of (find p l) ≡ some spec
    → IsSound spec
unfolding spec_of
found-IsSound p [] spec a e = cc
found-IsSound p (k ∷ l) spec a e = elim (Bool-cases (p k)) [
  | inl hit ↦
      let same : model_spec k ≡ spec = cc (ap spec_of (first_hit hit)) in subst IsSound same a.0
  | inr miss ↦ found-IsSound p l spec a.1 (rw miss at e)
]
  where
    first_hit : p k ≡ true → find p (k ∷ l) ≡ some k
    first_hit hit = rw hit refl

-- Every registered model has layers, gives each some VRAM, and totals below 2 ^ 64 MB.
pub get-IsSound :
    (u : Casing) (name : Text) (spec : ModelSpec) → get u name ≡ some spec → IsSound spec
unfolding get
get-IsSound u name spec e =
    found-IsSound (matches (u.to_lowercase name)) known_models spec known_models-IsSound e

module _ (name : Text) (total : ℕ) where
  -- An estimate asks for no more than the guess it is made from, and for less than 32 MB below it.
  pub estimate_bounds :
      total < u64_mod
      → (total_vram_mb (estimate name total) ≤ total)
        × (total < total_vram_mb (estimate name total) + 32)
  unfolding estimate total_vram_mb
  estimate_bounds h = omega arith

  -- It is sound from 37 MB on.
  pub estimate-IsSound : 37 ≤ total → total < u64_mod → IsSound (estimate name total)
  unfolding estimate
  estimate-IsSound low h = omega arith
