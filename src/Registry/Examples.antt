-- ===== src/Registry/Examples.antt =====
-- The registry on concrete names.
use infer_platform.Base.{◌≡◌, refl, none, some, codes, ascii_casing, ascii_lower, arith}
use infer_platform.Planner.{ModelSpec, total_vram_mb}
use infer_platform.Registry.{KnownModel, known, model_spec, known_models, get, matches, spec_of}
use infer_platform.Registry.Lookup.{get_known}

registry : Unit {0}
unfolding get known_models matches spec_of ascii_lower total_vram_mb
registry = tt

abbrev llama3b : ModelSpec
llama3b = record {
  name = codes "llama3.2:3b";
  total_layers = 28;
  vram_per_layer_mb = 70;
  context_vram_mb = 200;
}

prefix_match : get ascii_casing (codes "Llama3.2:3B-instruct-q4_K_M") ≡ some llama3b
unfolding registry
prefix_match = refl

unknown_model : get ascii_casing (codes "unknown-model-xyz") ≡ none
unfolding registry
unknown_model = refl

total_of_llama3b : total_vram_mb llama3b ≡ 2160
unfolding registry
total_of_llama3b = refl

abbrev phi : KnownModel
phi = known "phi4:14b" 40 200 600

get_known_example : get ascii_casing (codes "PHI4:14b-Q8") ≡ some (model_spec phi)
unfolding known_models ascii_lower
get_known_example =
    get_known ascii_casing 12 phi (codes "PHI4:14b-Q8") (codes "-q8") refl (omega arith) refl
