-- ===== src/Planner/Limits.antt =====
-- Where `plan_shards` falls short of what its comments promise, and when it panics.
use mathlib.Core.Path.{subst}
use native.Mathlib.Nat.{div-eq_of_lt}
use infer_platform.Base.{
  ℕ, ◌+◌, ◌-◌, ◌≤◌, ◌<◌, ◌≡◌, ◌≢◌, ◌↔◌, refl, List, [], ◌∷◌, ok, err, returns, panics, arith, All,
  All-sort_by, u32_mod, sort_by, length, length-sort_by, wrap32, ap,
}
use infer_platform.Planner.{
  NodeCapacity, ModelSpec, ShardPlan, assign_layers, sum_vram, total_vram_mb, largest_first,
  plan_shards, assigned_layers,
}
use infer_platform.Planner.Layers.{layer_capacity, IsSmall}
use infer_platform.Planner.Outcomes.{
  IsPlanFor, insufficient, plan_shards-Outcome, without_nodes, refused, plans,
}

module _ (model : ModelSpec) where
  capacity_zero :
      (reserve : ℕ) (nodes : List NodeCapacity)
      → All (λ n. n.available_vram_mb < model.vram_per_layer_mb) nodes
      → layer_capacity model reserve nodes ≡ 0
  capacity_zero reserve [] h = refl
  capacity_zero reserve (n ∷ nodes) h = omega (
    arith,
    div-eq_of_lt {n = n.available_vram_mb - reserve} {m = model.vram_per_layer_mb} (omega arith),
    capacity_zero 0 nodes h.1,
  )

  -- Every plan is one that `plan_shards_outcome` describes.
  pub plan_shards-IsPlanFor :
      (nodes : List NodeCapacity) (plan : ShardPlan)
      → 0 < model.vram_per_layer_mb
      → model.total_layers < u32_mod
      → All IsSmall nodes
      → plan_shards model nodes ≡ returns (ok plan)
      → IsPlanFor model nodes plan
  plan_shards-IsPlanFor nodes plan p l s e = elim (plan_shards-Outcome model nodes p l s) [
    | without_nodes _ w ↦ ground arith
    | refused _ _ r ↦ ground arith
    | plans _ found f isPlan ↦
        let same : found ≡ plan = cc in subst (IsPlanFor model nodes) same isPlan
  ]

  -- When each node alone has less VRAM than one layer takes, the request is refused as insufficient
  -- although the total that the check compares is enough.
  pub plan_shards_fragmented :
      (nodes : List NodeCapacity)
      → 0 < model.vram_per_layer_mb
      → 0 < model.total_layers
      → model.total_layers < u32_mod
      → All IsSmall nodes
      → nodes ≢ []
      → All (λ n. n.available_vram_mb < model.vram_per_layer_mb) nodes
      → total_vram_mb model ≤ sum_vram 0 nodes
      → plan_shards model nodes ≡ returns (err (insufficient model nodes))
  plan_shards_fragmented nodes p some_layer l s some_node few enough =
      elim (plan_shards-Outcome model nodes p l s) [
        | without_nodes none_there _ ↦ absurd (some_node none_there)
        | refused _ _ r ↦ r
        | plans can _ _ _ ↦ absurd (
            omega (
              arith,
              can.enough_layers,
              capacity_zero model.context_vram_mb (sort_by largest_first nodes)
                  (All-sort_by largest_first _ nodes few),
            ))
      ]

  assign_layers-ne-panics :
      (nodes : List NodeCapacity) (cursor reserve : ℕ)
      → 0 < model.vram_per_layer_mb
      → assign_layers model nodes cursor reserve ≢ panics
  unfolding assign_layers
  assign_layers-ne-panics [] cursor reserve p e = cc
  assign_layers-ne-panics (n ∷ nodes) cursor reserve p e = ground (
    arith,
    assign_layers-ne-panics nodes cursor 0 p,
    assign_layers-ne-panics nodes
        (wrap32 (cursor + assigned_layers model (n.available_vram_mb - reserve) cursor)) 0 p,
  )

  no_layers-ne-panics :
      (nodes : List NodeCapacity) (reserve : ℕ)
      → model.total_layers ≡ 0
      → assign_layers model nodes 0 reserve ≢ panics
  unfolding assign_layers
  no_layers-ne-panics [] reserve z e = cc
  no_layers-ne-panics (n ∷ nodes) reserve z e = ground arith

  division_by_zero :
      (nodes : List NodeCapacity) (reserve : ℕ)
      → nodes ≢ []
      → model.vram_per_layer_mb ≡ 0
      → 0 < model.total_layers
      → assign_layers model nodes 0 reserve ≡ panics
  unfolding assign_layers
  division_by_zero [] reserve some_node z l = absurd (some_node refl)
  division_by_zero (n ∷ nodes) reserve some_node z l = ground arith

  sorted_nonempty : (nodes : List NodeCapacity) → nodes ≢ [] → sort_by largest_first nodes ≢ []
  sorted_nonempty [] some_node e = some_node refl
  sorted_nonempty (n ∷ nodes) some_node e =
      omega (arith, length-sort_by largest_first (n ∷ nodes), ap length e)

  -- `plan_shards` panics exactly on a division by zero: a model with layers that need no VRAM, on
  -- some nodes whose total passes the check.
  pub plan_shards-panics_iff :
      (nodes : List NodeCapacity)
      → (plan_shards model nodes ≡ panics) ↔ (
          (model.vram_per_layer_mb ≡ 0)
          × (nodes ≢ [])
          × (total_vram_mb model ≤ sum_vram 0 nodes)
          × (0 < model.total_layers))
  unfolding plan_shards
  plan_shards-panics_iff nodes = (
    λ e.
        let loop = assign_layers-ne-panics (sort_by largest_first nodes) 0 model.context_vram_mb in
        let no_loop = no_layers-ne-panics (sort_by largest_first nodes) model.context_vram_mb in
        (ground (arith, loop), ground arith, ground arith, ground (arith, no_loop)),
    λ h. ground (
      arith,
      division_by_zero (sort_by largest_first nodes) model.context_vram_mb
          (sorted_nonempty nodes h.1) h.0 h.3,
    ),
  )
