-- ===== src/Planner/Examples.antt =====
-- The planner on concrete models and nodes.
use infer_platform.Base.{
  ℕ, ◌≡◌, ◌≢◌, ◌↔◌, ◌≤◌, ◌<◌, refl, List, [], ◌∷◌, String, codes, ok, err, returns, panics, arith,
  ◌+◌, ◌-◌, ◌*◌, sort_by,
}
use infer_platform.Planner.{
  NodeCapacity, ModelSpec, ShardAssignment, ShardPlan, no_nodes, plan_shards, total_vram_mb,
  sum_vram, assign_layers, finish_plan, ollama_base_url,
}
use infer_platform.Planner.Outcomes.{Outcome, plan_shards-Outcome}
use infer_platform.Planner.Limits.{plan_shards-panics_iff}
use infer_platform.Planner.Single.{IsSound}

-- One name for all that a run of the planner computes with.
planner : Unit {0}
unfolding plan_shards sum_vram total_vram_mb assign_layers finish_plan sort_by
planner = tt

abbrev node : String → ℕ → NodeCapacity
node id vram_mb = record {
  node_id = codes id;
  host = codes "host";
  ollama_port = 11434;
  agent_port = 8181;
  available_vram_mb = vram_mb;
}

abbrev llama70b : ModelSpec
llama70b = record {
  name = codes "llama3.1:70b";
  total_layers = 80;
  vram_per_layer_mb = 480;
  context_vram_mb = 2048;
}

abbrev two_nodes : List NodeCapacity
two_nodes = node "gpu0" 24576 ∷ node "gpu1" 24576 ∷ []

abbrev shard : String → ℕ → ℕ → ShardAssignment
shard id first last = record {
  node_id = codes id;
  host = codes "host";
  ollama_port = 11434;
  agent_port = 8181;
  layer_start = first;
  layer_end = last;
  vram_required_mb = (last - first) * 480;
}

abbrev two_shards : ShardPlan
two_shards = record {
  model = codes "llama3.1:70b";
  total_layers = 80;
  assignments = shard "gpu0" 0 46 ∷ shard "gpu1" 46 80 ∷ [];
}

two_nodes_split_layers : plan_shards llama70b two_nodes ≡ returns (ok two_shards)
unfolding planner
two_nodes_split_layers = refl

-- The larger node leads, wherever it stands in the list.
controller_is_largest :
    plan_shards llama70b (node "small" 8192 ∷ node "big" 40960 ∷ [])
    ≡ returns (
        ok (record {
          model = codes "llama3.1:70b";
          total_layers = 80;
          assignments = shard "big" 0 80 ∷ [];
        }))
unfolding planner
controller_is_largest = refl

no_nodes_refused : plan_shards llama70b [] ≡ returns (err no_nodes)
unfolding planner
no_nodes_refused = refl

base_urls : ollama_base_url (shard "gpu0" 0 46) ≡ codes "http://host:11434"
unfolding ollama_base_url
base_urls = refl

plan_shards-Outcome_example : Outcome llama70b two_nodes
plan_shards-Outcome_example =
    plan_shards-Outcome llama70b two_nodes (omega arith) (omega arith) (omega arith)

abbrev weightless : ModelSpec
weightless = record llama70b { vram_per_layer_mb = 0 }

plan_shards-panics_iff_example : (plan_shards weightless two_nodes ≡ panics) ↔ (
    (weightless.vram_per_layer_mb ≡ 0)
    × (two_nodes ≢ [])
    × (total_vram_mb weightless ≤ sum_vram 0 two_nodes)
    × (0 < weightless.total_layers))
plan_shards-panics_iff_example = plan_shards-panics_iff weightless two_nodes

-- Five nodes of 4500 MB carry 22500 MB, and no layer of 5000 MB.
abbrev crumbs : List NodeCapacity
crumbs = node "a" 4500 ∷ node "b" 4500 ∷ node "c" 4500 ∷ node "d" 4500 ∷ node "e" 4500 ∷ []

abbrev two_thick_layers : ModelSpec
two_thick_layers = record {
  name = codes "thick";
  total_layers = 2;
  vram_per_layer_mb = 5000;
  context_vram_mb = 100;
}

-- The estimate for an unknown model, on nine nodes of 500 MB: the context takes 512 MB.
abbrev unknown : ModelSpec
unknown = record {
  name = codes "unknown";
  total_layers = 32;
  vram_per_layer_mb = 112;
  context_vram_mb = 512;
}

abbrev nine_nodes : List NodeCapacity
nine_nodes =
    node "a" 500
    ∷ node "b" 500
    ∷ node "c" 500
    ∷ node "d" 500
    ∷ node "e" 500
    ∷ node "f" 500
    ∷ node "g" 500
    ∷ node "h" 500
    ∷ node "i" 500
    ∷ []

abbrev small_shard : String → ℕ → ShardAssignment
small_shard id first = record {
  node_id = codes id;
  host = codes "host";
  ollama_port = 11434;
  agent_port = 8181;
  layer_start = first;
  layer_end = first + 4;
  vram_required_mb = 448;
}

abbrev without_context : ShardPlan
without_context = record {
  model = codes "unknown";
  total_layers = 32;
  assignments =
      small_shard "b" 0
      ∷ small_shard "c" 4
      ∷ small_shard "d" 8
      ∷ small_shard "e" 12
      ∷ small_shard "f" 16
      ∷ small_shard "g" 20
      ∷ small_shard "h" 24
      ∷ small_shard "i" 28
      ∷ [];
}

context_dropped : plan_shards unknown nine_nodes ≡ returns (ok without_context)
unfolding planner
context_dropped = refl

llama70b-IsSound : IsSound llama70b
llama70b-IsSound = omega arith
