-- ===== src/Coordinator/Candidates.antt =====
-- What `build_candidates` returns.
use infer_platform.Base.{
  ℕ, ◌+◌, ◌%◌, ◌≤◌, ◌<◌, ◌≡◌, ◌≢◌, inl, inr, refl, List, [], ◌∷◌, map, Option, Text, Casing, ok,
  Run, returns, filter, length, take, drop, sort_by, leb→le, wrap64, All, All-mono, All-append,
  All-filter, All-filter_self, All-sort_by, All-both, All-take, All-drop, length-sort_by,
  length-map, length-append, length-take-drop, length_pos, is_empty-eq_false, u32_mod, arith,
  Option-cases,
}
use infer_platform.Planner.{ModelSpec, ShardPlan, plan_shards, total_vram_mb}
use infer_platform.Planner.Single.{IsSound, whole_plan, plan_shards_single}
use infer_platform.Registry.{get}
use infer_platform.Registry.Sizes.{get-IsSound, estimate-IsSound}
use infer_platform.Nodes.{NodeInfo}
use infer_platform.Coordinator.{
  Stats, spec_for, capacity_of, is_online, by_latency, rotate_left, solo_plans, build_plan,
  solo_nodes, build_candidates, or_fallback, fallback,
}

-- Below 2 ^ 32 MB.
abbrev pub IsSmallNode : NodeInfo → Type 0
IsSmallNode n = n.vram_mb < u32_mod

pub spec_for-IsSound : (u : Casing) (model : Text) → IsSound (spec_for u model)
unfolding spec_for
spec_for-IsSound u model = elim (Option-cases (get u model)) [
  | inl e ↦ rw (e, spec_for) (estimate-IsSound model 4096 (omega arith) (omega arith))
  | inr (spec, e) ↦ rw (e, spec_for) (get-IsSound u model spec e)
]

module _ (spec : ModelSpec) (sound : IsSound spec) where
  abbrev Holds : NodeInfo → Type 0
  Holds n = IsSmallNode n × (total_vram_mb spec ≤ n.vram_mb)

  whole :
      (n : NodeInfo)
      → Holds n
      → plan_shards spec (capacity_of n ∷ []) ≡ returns (ok (whole_plan spec (capacity_of n)))
  unfolding capacity_of
  whole n h = plan_shards_single spec (capacity_of n) sound h.0 h.1

  -- Every node that holds the model gets a plan of its own.
  pub solo_plans_lem :
      (nodes : List NodeInfo)
      → All Holds nodes
      → solo_plans spec nodes ≡ returns (map (λ n. whole_plan spec (capacity_of n)) nodes)
  unfolding solo_plans
  solo_plans_lem [] a = refl
  solo_plans_lem (n ∷ nodes) a = rw (whole n a.0, solo_plans_lem nodes a.1)

  All-rotate_left :
      (P : NodeInfo → Type 0) (k : ℕ) (l : List NodeInfo) → All P l → All P (rotate_left k l)
  unfolding rotate_left
  All-rotate_left P k l a = All-append P (drop k l) (take k l) (All-drop P k l a) (All-take P k l a)

length-rotate_left : (k : ℕ) (l : List NodeInfo) → length (rotate_left k l) ≡ length l
unfolding rotate_left
length-rotate_left k l = omega (arith, length-append (drop k l) (take k l), length-take-drop k l)

or_fallback_some :
    (multi_node : Run (Option ShardPlan)) (plans : List ShardPlan) (counter : ℕ)
    → 0 < length plans
    → or_fallback multi_node (returns plans) counter ≡ returns (plans, counter)
or_fallback_some multi_node [] counter h = absurd (omega arith)
or_fallback_some multi_node (p ∷ plans) counter h = refl

-- The solo nodes in the order of their candidates when the counter is 0.
abbrev pub ranked : Casing → Text → List NodeInfo → Stats → List NodeInfo
ranked u model nodes stats = sort_by (by_latency stats) (solo_nodes u model nodes)

module _ (u : Casing) (model : Text) (nodes : List NodeInfo) (stats : Stats)
    (small : All IsSmallNode nodes) where
  solo_hold : All (Holds (spec_for u model) (spec_for-IsSound u model)) (solo_nodes u model nodes)
  unfolding solo_nodes
  solo_hold =
      All-both IsSmallNode _ _
        (All-filter IsSmallNode _ _ (All-filter IsSmallNode is_online nodes small))
        (All-mono _ _ _ (λ n e. leb→le _ n.vram_mb e) (All-filter_self _ (filter is_online nodes)))

  -- When some online node holds the model alone, the candidates are one plan for each such node,
  -- by latency, rotated by the counter; the counter goes up by one.
  pub build_candidates_solo :
      (counter : ℕ)
      → solo_nodes u model nodes ≢ []
      → build_candidates u model nodes stats counter
        ≡ returns (
          map
              (λ n. whole_plan (spec_for u model) (capacity_of n))
              (rotate_left
                (counter % length (ranked u model nodes stats))
                (ranked u model nodes stats)),
          wrap64 (counter + 1),
        )
  unfolding build_candidates
  build_candidates_solo counter some_solo =
      let sound = spec_for-IsSound u model in
      let l = ranked u model nodes stats in
      let k = counter % length l in
      let plans = solo_plans_lem (spec_for u model) sound (rotate_left k l) (
        All-rotate_left (spec_for u model) sound _ k l
          (All-sort_by (by_latency stats) _ _ solo_hold)) in
      let filled =
        or_fallback_some (build_plan u model nodes stats)
          (map (λ n. whole_plan (spec_for u model) (capacity_of n)) (rotate_left k l))
          (wrap64 (counter + 1))
          (omega (
            arith,
            length-map (λ n. whole_plan (spec_for u model) (capacity_of n)) (rotate_left k l),
            length-rotate_left k l,
            length-sort_by (by_latency stats) (solo_nodes u model nodes),
            length_pos (solo_nodes u model nodes) some_solo,
          )) in
      rw (is_empty-eq_false (solo_nodes u model nodes) some_solo, plans) filled

  -- No online node holds the model alone: the one candidate, if any, is the multi-node plan, and the
  -- counter stays.
  pub build_candidates_split :
      (counter : ℕ)
      → solo_nodes u model nodes ≡ []
      → build_candidates u model nodes stats counter
        ≡ fallback (build_plan u model nodes stats) counter
  unfolding build_candidates
  build_candidates_split counter e = rw (e, build_candidates) refl
