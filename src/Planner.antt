-- ===== src/Planner.antt =====
-- crates/shard-planner/src/planner.rs and the structs of lib.rs and registry.rs that it takes.
-- The loop of `plan_shards` is `assign_layers`; `panics` is the division by zero of a model whose
-- layers need no VRAM.
pub mod Layers
pub mod Coverage
pub mod Outcomes
pub mod Limits
pub mod Single
mod Examples
use infer_platform.Base.{
  ℕ, ◌+◌, ◌-◌, ◌*◌, ◌/◌, min, Bool, List, [], ◌∷◌, Text, Result, ok, err, Run, returns, panics,
  map_run, sort_by, wrap32, wrap64, ltb, leb, ◌==◌, if◌then◌else◌, length, is_empty, Option, none,
  some, ◌++◌, codes, decimal,
}

pub record NodeCapacity : Type 0 where
  pub node_id : Text
  pub host : Text
  pub ollama_port : ℕ
  pub agent_port : ℕ
  pub available_vram_mb : ℕ

pub record ModelSpec : Type 0 where
  pub name : Text
  pub total_layers : ℕ
  pub vram_per_layer_mb : ℕ
  pub context_vram_mb : ℕ

unfoldable pub total_vram_mb : ModelSpec → ℕ
unfolding wrap64
total_vram_mb model =
    wrap64 (wrap64 (model.total_layers * model.vram_per_layer_mb) + model.context_vram_mb)

pub record ShardAssignment : Type 0 where
  pub node_id : Text
  pub host : Text
  pub ollama_port : ℕ
  pub agent_port : ℕ
  pub layer_start : ℕ
  pub layer_end : ℕ
  pub vram_required_mb : ℕ

unfoldable pub layer_count : ShardAssignment → ℕ
layer_count a = a.layer_end - a.layer_start

-- `format!("http://{}:{}", host, port)`
unfoldable pub base_url : Text → ℕ → Text
unfolding decimal
base_url host port = codes "http://" ++ host ++ codes ":" ++ decimal port

unfoldable pub ollama_base_url : ShardAssignment → Text
unfolding base_url
ollama_base_url a = base_url a.host a.ollama_port

unfoldable pub agent_base_url : ShardAssignment → Text
unfolding base_url
agent_base_url a = base_url a.host a.agent_port

pub record ShardPlan : Type 0 where
  pub model : Text
  pub total_layers : ℕ
  pub assignments : List ShardAssignment

unfoldable pub is_single_node : ShardPlan → Bool
is_single_node plan = length plan.assignments == 1

-- `&self.assignments[0]`; `none` is the panic of an empty plan.
unfoldable pub controller : ShardPlan → Option ShardAssignment
controller plan = elim plan.assignments [ [] ↦ none | a ∷ rest ↦ some a ]

pub data PlanError : Type 0 where
  no_nodes : PlanError
  insufficient_vram : (need_mb have_mb node_count : ℕ) → PlanError

-- `nodes.iter().map(|n| n.available_vram_mb).sum()`
unfoldable pub sum_vram : ℕ → List NodeCapacity → ℕ
unfolding wrap64
sum_vram acc [] = acc
sum_vram acc (n ∷ nodes) = sum_vram (wrap64 (acc + n.available_vram_mb)) nodes

-- `sort_by_key(|b| Reverse(b.available_vram_mb))`
abbrev pub largest_first : NodeCapacity → NodeCapacity → Bool
largest_first a b = leb b.available_vram_mb a.available_vram_mb

unfoldable pub assignment : ModelSpec → NodeCapacity → (layer_cursor assigned : ℕ) → ShardAssignment
unfolding wrap32 wrap64
assignment model node layer_cursor assigned = record {
  node_id = node.node_id;
  host = node.host;
  ollama_port = node.ollama_port;
  agent_port = node.agent_port;
  layer_start = layer_cursor;
  layer_end = wrap32 (layer_cursor + assigned);
  vram_required_mb = wrap64 (assigned * model.vram_per_layer_mb);
}

-- `max_layers.min(remaining)`, with the cast of the quotient to u32.
unfoldable pub assigned_layers : ModelSpec → (usable layer_cursor : ℕ) → ℕ
unfolding wrap32
assigned_layers model usable layer_cursor =
    let max_layers = wrap32 (usable / model.vram_per_layer_mb) in
    let remaining = model.total_layers - layer_cursor in min max_layers remaining

abbrev pub push_first : ShardAssignment → List ShardAssignment × ℕ → List ShardAssignment × ℕ
push_first a (later, layer_cursor) = (a ∷ later, layer_cursor)

-- The `for` over the sorted nodes: the assignments that it pushes from here on, and the cursor at
-- its end.
unfoldable pub assign_layers :
    ModelSpec
    → List NodeCapacity
    → (layer_cursor context_reserve : ℕ) → Run (List ShardAssignment × ℕ)
unfolding assignment assigned_layers
assign_layers model [] layer_cursor context_reserve = returns ([], layer_cursor)
assign_layers model (node ∷ rest) layer_cursor context_reserve =
    let usable = node.available_vram_mb - context_reserve in
    let assigned = assigned_layers model usable layer_cursor in
    let skipped = assign_layers model rest layer_cursor 0 in
    let pushed =
      map_run (push_first (assignment model node layer_cursor assigned))
        (assign_layers model rest (wrap32 (layer_cursor + assigned)) 0) in
    if leb model.total_layers layer_cursor
    then returns ([], layer_cursor)
    else if ltb usable model.vram_per_layer_mb
    then skipped
    else if model.vram_per_layer_mb == 0
    then panics
    else pushed

-- What follows the loop: the check that all layers are covered.
unfoldable pub finish_plan :
    ModelSpec → PlanError → List ShardAssignment × ℕ → Result PlanError ShardPlan
finish_plan model insufficient (assignments, layer_cursor) =
    if ltb layer_cursor model.total_layers
    then err insufficient
    else ok (record {
      model = model.name;
      total_layers = model.total_layers;
      assignments = assignments;
    })

unfoldable pub plan_shards : ModelSpec → List NodeCapacity → Run (Result PlanError ShardPlan)
plan_shards model nodes =
    let total_available = sum_vram 0 nodes in
    let total_needed = total_vram_mb model in
    let insufficient = insufficient_vram total_needed total_available (length nodes) in
    if is_empty nodes
    then returns (err no_nodes)
    else if ltb total_available total_needed
    then returns (err insufficient)
    else map_run (finish_plan model insufficient)
        (assign_layers model (sort_by largest_first nodes) 0 model.context_vram_mb)
