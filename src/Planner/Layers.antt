-- ===== src/Planner/Layers.antt =====
-- What one round of `assign_layers` does on each branch, and the predicates that describe its
-- result: contiguous layer ranges, each served by a node of its own.
use native.Mathlib.Nat.{div-le_self, le-div_iff_mul-le}
use infer_platform.Base.{
  ℕ, ◌+◌, ◌-◌, ◌/◌, ◌*◌, ◌≤◌, ◌<◌, ◌≡◌, refl, min, List, [], ◌∷◌, returns, map_run, arith, wrap32,
  wrap64, wrap32-eq_of_lt, wrap64-eq_of_lt, u32_mod,
}
use infer_platform.Planner.{
  NodeCapacity, ModelSpec, ShardAssignment, assignment, assigned_layers, assign_layers, push_first,
}

-- The layers that the nodes can hold, the reserve being taken from the first of them.
abbrev pub layer_capacity : ModelSpec → ℕ → List NodeCapacity → ℕ
layer_capacity model reserve [] = 0
layer_capacity model reserve (node ∷ rest) =
    (node.available_vram_mb - reserve) / model.vram_per_layer_mb + layer_capacity model 0 rest

-- The ranges follow one another from `start` to `finish`, with no gap, overlap or empty range.
abbrev pub Contiguous : ℕ → List ShardAssignment → ℕ → Type 0
Contiguous start [] finish = start ≡ finish
Contiguous start (a ∷ rest) finish =
    (a.layer_start ≡ start) × (start < a.layer_end) × Contiguous a.layer_end rest finish

-- The assignment names this node, and fits beside the reserve.
pub record IsServedBy (model : ModelSpec) (reserve : ℕ) (node : NodeCapacity) (a : ShardAssignment)
    : Type 0 where
  pub same_id : a.node_id ≡ node.node_id
  pub same_host : a.host ≡ node.host
  pub same_ollama_port : a.ollama_port ≡ node.ollama_port
  pub same_agent_port : a.agent_port ≡ node.agent_port
  pub weights :
      a.vram_required_mb + a.layer_start * model.vram_per_layer_mb
      ≡ a.layer_end * model.vram_per_layer_mb
  pub fits : a.vram_required_mb + reserve ≤ node.available_vram_mb

-- The assignments are served by some of the nodes, in their order and each by its own; the reserve
-- counts for the first node of the list alone.
pub data Hosts (model : ModelSpec) : ℕ → List NodeCapacity → List ShardAssignment → Type 0 where
  rest_unused : {r : ℕ} {nodes : List NodeCapacity} → Hosts model r nodes []
  unused :
      {r : ℕ} {node : NodeCapacity} {nodes : List NodeCapacity} {later : List ShardAssignment}
      → Hosts model 0 nodes later
      → Hosts model r (node ∷ nodes) later
  served :
      {r : ℕ} {node : NodeCapacity} {nodes : List NodeCapacity} {a : ShardAssignment}
      {later : List ShardAssignment}
      → IsServedBy model r node a
      → Hosts model 0 nodes later
      → Hosts model r (node ∷ nodes) (a ∷ later)

-- Below 2 ^ 32 MB no quotient is cut by its cast to u32.
abbrev pub IsSmall : NodeCapacity → Type 0
IsSmall node = node.available_vram_mb < u32_mod

module _ (model : ModelSpec) (per_pos : 0 < model.vram_per_layer_mb) where
  pub div-le : (v : ℕ) → v / model.vram_per_layer_mb ≤ v
  div-le v = div-le_self v model.vram_per_layer_mb

  pub assigned_layers_lem :
      (usable cursor : ℕ)
      → usable < u32_mod
      → assigned_layers model usable cursor
        ≡ min (usable / model.vram_per_layer_mb) (model.total_layers - cursor)
  unfolding assigned_layers
  assigned_layers_lem usable cursor h =
      rw (wrap32-eq_of_lt (usable / model.vram_per_layer_mb) (omega (arith, div-le usable)))

  -- The cursor stands past the last layer: the loop breaks.
  pub assign_layers_done :
      (nodes : List NodeCapacity) (cursor reserve : ℕ)
      → model.total_layers ≤ cursor
      → assign_layers model nodes cursor reserve ≡ returns ([], cursor)
  unfolding assign_layers
  assign_layers_done [] cursor reserve h = refl
  assign_layers_done (node ∷ rest) cursor reserve h = ground arith

  module _ (node : NodeCapacity) (rest : List NodeCapacity) (cursor reserve : ℕ)
      (open_layers : cursor < model.total_layers) where
    -- A node with no room for one layer is passed over, and the reserve is gone.
    pub assign_layers_skip :
        node.available_vram_mb - reserve < model.vram_per_layer_mb
        → assign_layers model (node ∷ rest) cursor reserve ≡ assign_layers model rest cursor 0
    unfolding assign_layers
    assign_layers_skip h = ground arith

    pub assign_layers_push :
        model.vram_per_layer_mb ≤ node.available_vram_mb - reserve
        → let assigned = assigned_layers model (node.available_vram_mb - reserve) cursor in
          assign_layers model (node ∷ rest) cursor reserve
          ≡ map_run
              (push_first (assignment model node cursor assigned))
              (assign_layers model rest (wrap32 (cursor + assigned)) 0)
    unfolding assign_layers
    assign_layers_push h = ground arith

    module _ (small : IsSmall node) (layers_fit : model.total_layers < u32_mod) where
      abbrev quotient : ℕ
      quotient = (node.available_vram_mb - reserve) / model.vram_per_layer_mb

      abbrev assigned : ℕ
      assigned = assigned_layers model (node.available_vram_mb - reserve) cursor

      pub assigned_eq : assigned ≡ min quotient (model.total_layers - cursor)
      assigned_eq = assigned_layers_lem (node.available_vram_mb - reserve) cursor (omega arith)

      pub cursor_wrap : wrap32 (cursor + assigned) ≡ min model.total_layers (cursor + quotient)
      cursor_wrap =
          omega
            (arith, wrap32-eq_of_lt (cursor + assigned) (omega (arith, assigned_eq)), assigned_eq)

      assigned-mul-le : assigned * model.vram_per_layer_mb ≤ node.available_vram_mb - reserve
      assigned-mul-le = (le-div_iff_mul-le per_pos).0 (omega (arith, assigned_eq))

      cursor_kept : wrap32 (cursor + assigned) ≡ cursor + assigned
      cursor_kept = wrap32-eq_of_lt (cursor + assigned) (omega (arith, assigned_eq))

      required_kept :
          wrap64 (assigned * model.vram_per_layer_mb) ≡ assigned * model.vram_per_layer_mb
      required_kept =
          wrap64-eq_of_lt (assigned * model.vram_per_layer_mb) (omega (arith, assigned-mul-le))

      -- The assignment of a round is served by the node of the round.
      pub assignment-IsServedBy :
          model.vram_per_layer_mb ≤ node.available_vram_mb - reserve
          → IsServedBy model reserve node (assignment model node cursor assigned)
      unfolding assignment
      assignment-IsServedBy h = record {
        same_id = refl;
        same_host = refl;
        same_ollama_port = refl;
        same_agent_port = refl;
        weights = rw (required_kept, cursor_kept) (omega arith);
        fits = omega (arith, required_kept, assigned-mul-le);
      }
