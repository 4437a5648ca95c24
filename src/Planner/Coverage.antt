-- ===== src/Planner/Coverage.antt =====
-- The loop of `plan_shards` as a whole: it ends, and covers the layers that the nodes can hold.
use native.Mathlib.Nat.{div-eq_of_lt, le-div_iff_mul-le}
use native.Mathlib.Decide.{dec_lt}
use infer_platform.Base.{
  ℕ, ◌+◌, ◌-◌, ◌/◌, ◌≤◌, ◌<◌, ◌≡◌, refl, ap, min, List, [], ◌∷◌, returns, arith, All, u32_mod,
  wrap32,
}
use infer_platform.Planner.{
  NodeCapacity, ModelSpec, ShardAssignment, assignment, assigned_layers, assign_layers,
}
use infer_platform.Planner.Layers.{
  layer_capacity, Contiguous, Hosts, rest_unused, unused, served, IsSmall, cursor_wrap,
  assign_layers_done, assign_layers_skip, assign_layers_push, assignment-IsServedBy,
}

module _ (model : ModelSpec) (per_pos : 0 < model.vram_per_layer_mb)
    (layers_fit : model.total_layers < u32_mod) where
  -- Where the loop leaves the cursor.
  abbrev pub final_cursor : List NodeCapacity → ℕ → ℕ → ℕ
  final_cursor nodes cursor reserve =
      min model.total_layers (cursor + layer_capacity model reserve nodes)

  -- What the loop yields from a state.
  pub record Covering (nodes : List NodeCapacity) (cursor reserve : ℕ) : Type 0 where
    pub assignments : List ShardAssignment
    pub runs :
        assign_layers model nodes cursor reserve
        ≡ returns (assignments, final_cursor nodes cursor reserve)
    pub contiguous : Contiguous cursor assignments (final_cursor nodes cursor reserve)
    pub hosted : Hosts model reserve nodes assignments

  module _ (node : NodeCapacity) (rest : List NodeCapacity) (cursor reserve : ℕ) where
    Covering_skip :
        cursor < model.total_layers
        → node.available_vram_mb - reserve < model.vram_per_layer_mb
        → Covering rest cursor 0
        → Covering (node ∷ rest) cursor reserve
    Covering_skip open_layers no_room c =
        let same : final_cursor rest cursor 0 ≡ final_cursor (node ∷ rest) cursor reserve =
          omega (arith, div-eq_of_lt no_room) in
        record {
          assignments = c.assignments;
          runs =
              rw
                (
                  assign_layers_skip model per_pos node rest cursor reserve open_layers no_room,
                  ← same,
                )
                c.runs;
          contiguous = rw (← same) c.contiguous;
          hosted = unused c.hosted;
        }

    module _ (open_layers : cursor < model.total_layers)
        (room : model.vram_per_layer_mb ≤ node.available_vram_mb - reserve)
        (small : IsSmall node) where
      abbrev assigned : ℕ
      assigned = assigned_layers model (node.available_vram_mb - reserve) cursor

      next_cursor :
          wrap32 (cursor + assigned)
          ≡ min model.total_layers
              (cursor + (node.available_vram_mb - reserve) / model.vram_per_layer_mb)
      next_cursor = cursor_wrap model per_pos node rest cursor reserve open_layers small layers_fit

      same_end :
          final_cursor rest (wrap32 (cursor + assigned)) 0
          ≡ final_cursor (node ∷ rest) cursor reserve
      same_end = omega (arith, next_cursor)

      advances : cursor < wrap32 (cursor + assigned)
      advances = omega (
        arith,
        next_cursor,
        (le-div_iff_mul-le {x = 1} {y = node.available_vram_mb - reserve} per_pos).1 (omega arith),
      )

      Covering_push :
          Covering rest (wrap32 (cursor + assigned)) 0 → Covering (node ∷ rest) cursor reserve
      unfolding assignment
      Covering_push c = record {
        assignments = assignment model node cursor assigned ∷ c.assignments;
        runs = rw (
          assign_layers_push model per_pos node rest cursor reserve open_layers room,
          c.runs,
          same_end,
        );
        contiguous = (refl, advances, rw (← same_end) c.contiguous);
        hosted =
            served
              (assignment-IsServedBy model per_pos node rest cursor reserve open_layers small
                layers_fit room)
              c.hosted;
      }

  -- The loop ends with a covering, from every state.
  pub assign_layers-Covering :
      (nodes : List NodeCapacity) (cursor reserve : ℕ)
      → cursor ≤ model.total_layers
      → All IsSmall nodes
      → Covering nodes cursor reserve
  unfolding assign_layers
  assign_layers-Covering [] cursor reserve h small = record {
    assignments = [];
    runs = ap (λ c. returns ([], c)) (omega arith);
    contiguous = omega arith;
    hosted = rest_unused;
  }
  assign_layers-Covering (node ∷ rest) cursor reserve h small =
      elim (dec_lt cursor model.total_layers) [
        | no done ↦ record {
          assignments = [];
          runs =
              rw (assign_layers_done model per_pos (node ∷ rest) cursor reserve (omega arith))
                (ap (λ c. returns ([], c)) (omega arith));
          contiguous = omega arith;
          hosted = rest_unused;
        }
        | yes open_layers ↦
            elim (dec_lt (node.available_vram_mb - reserve) model.vram_per_layer_mb) [
              | yes no_room ↦
                  Covering_skip node rest cursor reserve open_layers no_room
                    (assign_layers-Covering rest cursor 0 h small.1)
              | no room ↦ Covering_push node rest cursor reserve open_layers (omega arith) small.0 (
                  assign_layers-Covering rest _ 0
                    (omega (
                      arith,
                      next_cursor node rest cursor reserve open_layers (omega arith) small.0,
                    ))
                    small.1)
            ]
      ]
