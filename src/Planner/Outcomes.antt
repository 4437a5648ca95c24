-- ===== src/Planner/Outcomes.antt =====
-- `plan_shards` as a whole: when it plans, what it refuses and when it panics.
use native.Mathlib.Decide.{dec_lt}
use mathlib.Core.Path.{subst}
use infer_platform.Base.{
  ℕ, ◌+◌, ◌≤◌, ◌<◌, ◌≡◌, ◌≢◌, ◌⊎◌, inl, inr, refl, min, List, [], ◌∷◌, ok, err, returns, arith, All,
  u32_mod, sort_by, length, All-sort_by, ◌∙◌,
}
use infer_platform.Planner.{
  NodeCapacity, ModelSpec, ShardPlan, PlanError, no_nodes, insufficient_vram, sum_vram,
  total_vram_mb, largest_first, finish_plan, plan_shards,
}
use infer_platform.Planner.Layers.{layer_capacity, Contiguous, Hosts, IsSmall}
use infer_platform.Planner.Coverage.{Covering, assign_layers-Covering}

-- What a plan promises: all layers, in contiguous ranges, each held by a node of its own, the
-- largest node having room for the context beside its layers if it is used.
pub record IsPlanFor (model : ModelSpec) (nodes : List NodeCapacity) (plan : ShardPlan)
    : Type 0 where
  pub names_model : plan.model ≡ model.name
  pub keeps_layers : plan.total_layers ≡ model.total_layers
  pub contiguous : Contiguous 0 plan.assignments model.total_layers
  pub hosted : Hosts model model.context_vram_mb (sort_by largest_first nodes) plan.assignments

-- The nodes can host the model: enough VRAM in all, and enough whole layers.
pub record CanHost (model : ModelSpec) (nodes : List NodeCapacity) : Type 0 where
  pub some_node : nodes ≢ []
  pub enough_vram : total_vram_mb model ≤ sum_vram 0 nodes
  pub enough_layers :
      model.total_layers ≤ layer_capacity model model.context_vram_mb (sort_by largest_first nodes)

pub empty_or_not {ℓ} : {A : Type ℓ} (xs : List A) → (xs ≡ []) ⊎ (xs ≢ [])
empty_or_not [] = inl refl
empty_or_not (x ∷ xs) = inr (λ e. cc)

abbrev pub insufficient : ModelSpec → List NodeCapacity → PlanError
insufficient model nodes = insufficient_vram (total_vram_mb model) (sum_vram 0 nodes) (length nodes)

-- The ways in which a call of `plan_shards` returns.
pub data Outcome (model : ModelSpec) (nodes : List NodeCapacity) : Type 0 where
  without_nodes :
      nodes ≡ [] → plan_shards model nodes ≡ returns (err no_nodes) → Outcome model nodes
  refused :
      nodes ≢ []
      → ¬ CanHost model nodes
      → plan_shards model nodes ≡ returns (err (insufficient model nodes))
      → Outcome model nodes
  plans :
      CanHost model nodes
      → (plan : ShardPlan) → plan_shards model nodes ≡ returns (ok plan)
      → IsPlanFor model nodes plan
      → Outcome model nodes

module _ (model : ModelSpec) (nodes : List NodeCapacity) (per_pos : 0 < model.vram_per_layer_mb)
    (layers_fit : model.total_layers < u32_mod) (small : All IsSmall nodes) where
  covering : Covering model per_pos layers_fit (sort_by largest_first nodes) 0 model.context_vram_mb
  covering =
      assign_layers-Covering model per_pos layers_fit (sort_by largest_first nodes) 0
        model.context_vram_mb (omega arith) (All-sort_by largest_first IsSmall nodes small)

  abbrev planned : ShardPlan
  planned = record {
    model = model.name;
    total_layers = model.total_layers;
    assignments = covering.assignments;
  }

  module _ (some_node : nodes ≢ []) where
    capacity : ℕ
    capacity = layer_capacity model model.context_vram_mb (sort_by largest_first nodes)

    scarce :
        sum_vram 0 nodes < total_vram_mb model
        → plan_shards model nodes ≡ returns (err (insufficient model nodes))
    unfolding plan_shards
    scarce h = ground arith

    looped :
        total_vram_mb model ≤ sum_vram 0 nodes
        → plan_shards model nodes
          ≡ returns (
              finish_plan model
                (insufficient model nodes)
                (covering.assignments, min model.total_layers capacity))
    unfolding plan_shards capacity
    looped h = ground (arith, covering.runs)

    split :
        total_vram_mb model ≤ sum_vram 0 nodes
        → capacity < model.total_layers
        → plan_shards model nodes ≡ returns (err (insufficient model nodes))
    unfolding finish_plan
    split h few = looped h ∙ ground arith

    hosted :
        total_vram_mb model ≤ sum_vram 0 nodes
        → model.total_layers ≤ capacity
        → plan_shards model nodes ≡ returns (ok planned)
    unfolding finish_plan
    hosted h many = looped h ∙ ground arith

    hosted-IsPlanFor : model.total_layers ≤ capacity → IsPlanFor model nodes planned
    unfolding capacity
    hosted-IsPlanFor many = record {
      names_model = refl;
      keeps_layers = refl;
      contiguous =
          subst (Contiguous 0 covering.assignments)
            (let e : min model.total_layers (0 + capacity) ≡ model.total_layers = omega arith in e)
            covering.contiguous;
      hosted = covering.hosted;
    }

  plan_shards-empty : nodes ≡ [] → plan_shards model nodes ≡ returns (err no_nodes)
  unfolding plan_shards
  plan_shards-empty e = rw (e, plan_shards) refl

  nonempty-Outcome : nodes ≢ [] → Outcome model nodes
  unfolding capacity
  nonempty-Outcome some_node = elim (dec_lt (sum_vram 0 nodes) (total_vram_mb model)) [
    | yes few ↦ refused some_node (λ c. omega (arith, c.enough_vram)) (scarce some_node few)
    | no enough ↦ elim (dec_lt (capacity some_node) model.total_layers) [
      | yes few ↦
          refused some_node (λ c. omega (arith, c.enough_layers))
            (split some_node (omega arith) few)
      | no many ↦
          plans
            (record {
              some_node = some_node;
              enough_vram = omega arith;
              enough_layers = omega arith;
            })
            planned (hosted some_node (omega arith) (omega arith))
            (hosted-IsPlanFor some_node (omega arith))
    ]
  ]

  -- For a model whose layers need some VRAM, and nodes and a layer count below 2 ^ 32, `plan_shards`
  -- returns: `no_nodes` for the empty list, `insufficient_vram` with the figures compared exactly
  -- when the nodes cannot host the model, and else a plan that covers all layers.
  pub plan_shards-Outcome : Outcome model nodes
  plan_shards-Outcome = elim (empty_or_not nodes) [
    | inl e ↦ without_nodes e (plan_shards-empty e)
    | inr some_node ↦ nonempty-Outcome some_node
  ]
