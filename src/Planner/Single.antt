-- ===== src/Planner/Single.antt =====
-- A node that can hold the whole model gets all of its layers.
use mathlib.Core.Path.{ap₂, subst}
use native.Mathlib.Nat.{le-div_iff_mul-le}
use infer_platform.Base.{
  ℕ, ◌+◌, ◌*◌, ◌-◌, ◌≤◌, ◌<◌, ◌≡◌, refl, List, [], ◌∷◌, ok, returns, arith, u32_mod, u64_mod,
  sort_by, wrap64-eq_of_lt, ap, ◌∙◌,
}
use infer_platform.Planner.{
  NodeCapacity, ModelSpec, ShardAssignment, ShardPlan, sum_vram, total_vram_mb, plan_shards,
}
use infer_platform.Planner.Layers.{Contiguous, Hosts, IsServedBy, rest_unused, unused, served}
use infer_platform.Planner.Outcomes.{IsPlanFor, plan_shards-Outcome, without_nodes, refused, plans}

-- The model's figures fit their types, and each layer needs some VRAM.
pub record IsSound (model : ModelSpec) : Type 0 where
  pub some_layer : 0 < model.total_layers
  pub some_vram : 0 < model.vram_per_layer_mb
  pub layers_fit : model.total_layers < u32_mod
  pub no_overflow : model.total_layers * model.vram_per_layer_mb + model.context_vram_mb < u64_mod

pub total_vram_mb_exact :
    (model : ModelSpec)
    → IsSound model
    → total_vram_mb model ≡ model.total_layers * model.vram_per_layer_mb + model.context_vram_mb
unfolding total_vram_mb
total_vram_mb_exact model s = omega (arith, s.no_overflow)

-- The plan with one assignment: every layer on this node.
abbrev pub whole_assignment : ModelSpec → NodeCapacity → ShardAssignment
whole_assignment model node = record {
  node_id = node.node_id;
  host = node.host;
  ollama_port = node.ollama_port;
  agent_port = node.agent_port;
  layer_start = 0;
  layer_end = model.total_layers;
  vram_required_mb = model.total_layers * model.vram_per_layer_mb;
}

abbrev pub whole_plan : ModelSpec → NodeCapacity → ShardPlan
whole_plan model node = record {
  model = model.name;
  total_layers = model.total_layers;
  assignments = whole_assignment model node ∷ [];
}

Hosts-none :
    {model : ModelSpec} {r : ℕ} {nodes : List NodeCapacity} {list : List ShardAssignment}
    → Hosts model r nodes list
    → nodes ≡ []
    → list ≡ []
Hosts-none rest_unused e = refl
Hosts-none (unused h) e = cc
Hosts-none (served s h) e = cc

Contiguous-none :
    (model : ModelSpec) (start : ℕ) {list : List ShardAssignment}
    → list ≡ []
    → Contiguous start list model.total_layers
    → start ≡ model.total_layers
Contiguous-none model start e c = subst (λ l. Contiguous start l model.total_layers) e c

whole_nonempty :
    (model : ModelSpec)
    → 0 < model.total_layers
    → {list : List ShardAssignment} → list ≡ []
    → Contiguous 0 list model.total_layers
    → ⊥
whole_nonempty model some_layer e c = omega (arith, Contiguous-none model 0 e c)

module _ (model : ModelSpec) (node : NodeCapacity) (s : IsSound model) where
  assignment-eq :
      (a : ShardAssignment)
      → IsServedBy model model.context_vram_mb node a
      → a.layer_start ≡ 0
      → a.layer_end ≡ model.total_layers
      → a ≡ whole_assignment model node
  assignment-eq a t first last = ground (arith, t.weights, first, last)

  assignments-eq :
      {list : List ShardAssignment} {nodes : List NodeCapacity}
      → nodes ≡ node ∷ []
      → Hosts model model.context_vram_mb nodes list
      → Contiguous 0 list model.total_layers
      → list ≡ whole_assignment model node ∷ []
  assignments-eq e rest_unused c = absurd (omega (arith, s.some_layer))
  assignments-eq e (unused h) c = absurd (whole_nonempty model s.some_layer (Hosts-none h (cc)) c)
  assignments-eq e (served {node = n} {a = a} {later = later} t h) c =
      let alone : later ≡ [] = Hosts-none h (cc) in
      let same : n ≡ node = cc in
      let ends : a.layer_end ≡ model.total_layers = Contiguous-none model a.layer_end alone c.2 in
      ap₂ ◌∷◌
        (assignment-eq a (subst (λ x. IsServedBy model model.context_vram_mb x a) same t) c.0 ends)
        alone

  plan-eq : (plan : ShardPlan) → IsPlanFor model (node ∷ []) plan → plan ≡ whole_plan model node
  unfolding sort_by
  plan-eq plan v =
      ground (arith, v.names_model, v.keeps_layers, assignments-eq refl v.hosted v.contiguous)

  -- A node with the VRAM that a sound model needs, below 2 ^ 32 MB, is planned with all the layers.
  pub plan_shards_single :
      node.available_vram_mb < u32_mod
      → total_vram_mb model ≤ node.available_vram_mb
      → plan_shards model (node ∷ []) ≡ returns (ok (whole_plan model node))
  unfolding sum_vram sort_by
  plan_shards_single small enough =
      elim (plan_shards-Outcome model (node ∷ []) s.some_vram s.layers_fit (small, tt)) [
        | without_nodes e _ ↦ cc
        | refused _ cannot _ ↦ absurd (
            cannot (record {
              some_node = λ e. cc;
              enough_vram = omega (arith, wrap64-eq_of_lt node.available_vram_mb (omega arith));
              enough_layers = omega (
                arith,
                total_vram_mb_exact model s,
                (le-div_iff_mul-le {x = model.total_layers}
                      {y = node.available_vram_mb - model.context_vram_mb} s.some_vram).1
                    (omega (arith, total_vram_mb_exact model s)),
              );
            }))
        | plans _ plan e v ↦ e ∙ ap (λ p. returns (ok p)) (plan-eq plan v)
      ]
