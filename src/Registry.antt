-- ===== src/Registry.antt =====
-- crates/shard-planner/src/registry.rs: the table of known models, the lookup by prefix and the
-- estimate for all others.
pub mod Lookup
pub mod Sizes
mod Examples
use infer_platform.Base.{
  ℕ, ◌-◌, ◌/◌, Bool, ◌||◌, List, [], ◌∷◌, Option, none, some, Text, String, codes, text_eq,
  starts_with, find, Casing,
}
use infer_platform.Planner.{ModelSpec}

pub record KnownModel : Type 0 where
  pub name : Text
  pub total_layers : ℕ
  pub vram_per_layer_mb : ℕ
  pub context_vram_mb : ℕ

-- `ModelSpec::from(&KnownModel)`
unfoldable pub model_spec : KnownModel → ModelSpec
model_spec k = record {
  name = k.name;
  total_layers = k.total_layers;
  vram_per_layer_mb = k.vram_per_layer_mb;
  context_vram_mb = k.context_vram_mb;
}

abbrev pub known : String → ℕ → ℕ → ℕ → KnownModel
known name total_layers vram_per_layer_mb context_vram_mb = record {
  name = codes name;
  total_layers = total_layers;
  vram_per_layer_mb = vram_per_layer_mb;
  context_vram_mb = context_vram_mb;
}

unfoldable pub known_models : List KnownModel
known_models =
    known "llama3.2:1b" 16 80 150
    ∷ known "llama3.2:3b" 28 70 200
    ∷ known "llama3.1:8b" 32 145 512
    ∷ known "llama3.1:70b" 80 480 2048
    ∷ known "llama3.1:405b" 126 1820 4096
    ∷ known "llama3.3:70b" 80 480 2048
    ∷ known "mistral:7b" 32 120 400
    ∷ known "mistral-nemo" 40 175 600
    ∷ known "qwen2.5:7b" 28 150 400
    ∷ known "qwen2.5:14b" 48 175 600
    ∷ known "qwen2.5:32b" 64 300 1024
    ∷ known "qwen2.5:72b" 80 540 2048
    ∷ known "phi4:14b" 40 200 600
    ∷ known "deepseek-r1:7b" 28 145 400
    ∷ known "deepseek-r1:14b" 48 175 600
    ∷ known "deepseek-r1:32b" 64 300 1024
    ∷ known "deepseek-r1:70b" 80 480 2048
    ∷ known "gemma3:9b" 46 120 400
    ∷ known "gemma3:27b" 62 260 1024
    ∷ []

-- The test of `find`, for a name in lower case.
unfoldable pub matches : Text → KnownModel → Bool
unfolding text_eq starts_with
matches lower m = text_eq lower m.name || starts_with lower m.name

unfoldable pub spec_of : Option KnownModel → Option ModelSpec
unfolding model_spec
spec_of none = none
spec_of (some k) = some (model_spec k)

-- `ModelRegistry::get`
unfoldable pub get : Casing → Text → Option ModelSpec
get u model_name =
    let lower = u.to_lowercase model_name in spec_of (find (matches lower) known_models)

-- `ModelRegistry::estimate`; `context` is at most `total_vram_mb`, so the saturating subtraction is
-- the plain one.
unfoldable pub estimate : Text → ℕ → ModelSpec
estimate model_name total_vram_mb =
    let layers : ℕ = 32 in
    let context = total_vram_mb / 8 in
    let weight_vram = total_vram_mb - context in
    record {
      name = model_name;
      total_layers = layers;
      vram_per_layer_mb = weight_vram / layers;
      context_vram_mb = context;
    }
