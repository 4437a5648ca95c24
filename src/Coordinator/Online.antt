-- ===== src/Coordinator/Online.antt =====
-- Candidates use registered nodes that are online, and ask of each no more VRAM than it has.
use mathlib.Core.Path.{subst}
use infer_platform.Base.{
  ℕ, ◌≤◌, ◌≡◌, inl, inr, refl, sym, ◌∙◌, List, [], ◌∷◌, map, Option, none, some, Result, ok, err,
  Run, returns, panics, arith, length, All, All-map, All-mono, All-filter, All-filter_self,
  All-both, All-sort_by, All-take, All-drop, All-append, All-Listed, Listed, ◌%◌, Casing, Text,
  sort_by, filter, take, drop, is_empty, Bool-cases, leb→le,
}
use infer_platform.Planner.{
  PlanError, NodeCapacity, ModelSpec, ShardAssignment, ShardPlan, plan_shards, total_vram_mb,
  largest_first,
}
use infer_platform.Planner.Layers.{Hosts, rest_unused, unused, served, IsSmall}
use infer_platform.Planner.Outcomes.{empty_or_not}
use infer_platform.Planner.Limits.{plan_shards-IsPlanFor}
use infer_platform.Planner.Single.{whole_plan, total_vram_mb_exact}
use infer_platform.Nodes.{NodeInfo, online, status_eq→eq}
use infer_platform.Coordinator.{
  Stats, spec_for, capacity_of, is_online, by_latency, by_vram, rotate_left, build_plan, solo_nodes,
  build_candidates, fallback, ok_plan,
}
use infer_platform.Coordinator.Candidates.{
  IsSmallNode, ranked, spec_for-IsSound, build_candidates_solo, build_candidates_split,
}

-- The assignment goes to a registered node that is online, and fits it.
pub record IsServedOnline (nodes : List NodeInfo) (a : ShardAssignment) : Type 0 where
  pub node : NodeInfo
  pub listed : Listed nodes node
  pub is_up : node.status ≡ online
  pub same_id : a.node_id ≡ node.id
  pub same_host : a.host ≡ node.host
  pub fits : a.vram_required_mb ≤ node.vram_mb

abbrev pub AllOnline : List NodeInfo → ShardPlan → Type 0
AllOnline nodes plan = All (IsServedOnline nodes) plan.assignments

abbrev IsUp : List NodeInfo → NodeInfo → Type 0
IsUp nodes n = Listed nodes n × (n.status ≡ online)

-- The capacity comes from a registered node that is online.
abbrev CapacityOf : List NodeInfo → NodeCapacity → Type 0
CapacityOf nodes c = (n : NodeInfo) × IsUp nodes n × (c ≡ capacity_of n)

Hosts-online :
    {model : ModelSpec} {r : ℕ} {capacities : List NodeCapacity} {list : List ShardAssignment}
    (nodes : List NodeInfo)
    → All (CapacityOf nodes) capacities
    → Hosts model r capacities list
    → All (IsServedOnline nodes) list
unfolding capacity_of
Hosts-online nodes a rest_unused = tt
Hosts-online nodes a (unused h) = Hosts-online nodes a.1 h
Hosts-online nodes a (served s h) = (
  record {
    node = a.0.0;
    listed = a.0.1.0;
    is_up = a.0.1.1;
    same_id = ground (arith, s.same_id, a.0.2);
    same_host = ground (arith, s.same_host, a.0.2);
    fits = ground (arith, s.fits, a.0.2);
  },
  Hosts-online nodes a.1 h,
)

online-IsUp : (nodes : List NodeInfo) → All (IsUp nodes) (filter is_online nodes)
online-IsUp nodes =
    All-both (Listed nodes) (λ n. n.status ≡ online) (filter is_online nodes)
      (All-filter (Listed nodes) is_online nodes (All-Listed nodes))
      (All-mono _ _ (filter is_online nodes) (λ n e. status_eq→eq n.status online e)
        (All-filter_self is_online nodes))

module _ (u : Casing) (model : Text) (nodes : List NodeInfo) (stats : Stats)
    (small : All IsSmallNode nodes) where
  capacities : List NodeCapacity
  capacities = map capacity_of (sort_by (by_vram stats) (filter is_online nodes))

  capacities-IsSmall : All IsSmall capacities
  unfolding capacities capacity_of
  capacities-IsSmall =
      All-map IsSmall capacity_of _
        (All-sort_by (by_vram stats) IsSmallNode _ (All-filter IsSmallNode is_online nodes small))

  capacities_online : All (CapacityOf nodes) capacities
  unfolding capacities
  capacities_online = All-map (CapacityOf nodes) capacity_of _ (
      All-mono (IsUp nodes) _ _ (λ n up. (n, up, refl))
        (All-sort_by (by_vram stats) (IsUp nodes) _ (online-IsUp nodes)))

  plan_of_ok :
      (r : Run (Result PlanError ShardPlan)) (plan : ShardPlan)
      → ok_plan r ≡ returns (some plan)
      → r ≡ returns (ok plan)
  plan_of_ok panics plan e = cc
  plan_of_ok (returns (ok p)) plan e = cc
  plan_of_ok (returns (err x)) plan e = cc

  build_plan_planned :
      (plan : ShardPlan)
      → build_plan u model nodes stats ≡ returns (some plan)
      → plan_shards (spec_for u model) capacities ≡ returns (ok plan)
  unfolding build_plan capacities
  build_plan_planned plan e = elim (Bool-cases (is_empty capacities)) [
    | inl none_up ↦ absurd (ground arith)
    | inr some_up ↦ plan_of_ok (plan_shards (spec_for u model) capacities) plan (rw some_up at e)
  ]

  build_plan_online :
      (plan : ShardPlan)
      → build_plan u model nodes stats ≡ returns (some plan)
      → All (IsServedOnline nodes) plan.assignments
  build_plan_online plan e =
      let sound = spec_for-IsSound u model in
      let v =
        plan_shards-IsPlanFor (spec_for u model) capacities plan sound.some_vram sound.layers_fit
          capacities-IsSmall (build_plan_planned plan e) in
      Hosts-online nodes (All-sort_by largest_first (CapacityOf nodes) capacities capacities_online)
        v.hosted

  whole_online :
      (n : NodeInfo)
      → IsUp nodes n × (total_vram_mb (spec_for u model) ≤ n.vram_mb)
      → All (IsServedOnline nodes) (whole_plan (spec_for u model) (capacity_of n)).assignments
  unfolding capacity_of
  whole_online n h = (
    record {
      node = n;
      listed = h.0.0;
      is_up = h.0.1;
      same_id = refl;
      same_host = refl;
      fits = omega (arith, total_vram_mb_exact (spec_for u model) (spec_for-IsSound u model));
    },
    tt,
  )

  solo-IsUp :
      All
        (λ n. IsUp nodes n × (total_vram_mb (spec_for u model) ≤ n.vram_mb))
        (solo_nodes u model nodes)
  unfolding solo_nodes
  solo-IsUp =
      All-both (IsUp nodes) _ _ (All-filter (IsUp nodes) _ _ (online-IsUp nodes))
        (All-mono _ _ _ (λ n e. leb→le _ n.vram_mb e) (All-filter_self _ (filter is_online nodes)))

  fallback_online :
      (multi_node : Run (Option ShardPlan)) (counter next : ℕ) (plans : List ShardPlan)
      → fallback multi_node counter ≡ returns (plans, next)
      → ((plan : ShardPlan)
          → multi_node ≡ returns (some plan)
          → All (IsServedOnline nodes) plan.assignments)
      → All (AllOnline nodes) plans
  fallback_online panics counter next plans e known = absurd (cc)
  fallback_online (returns none) counter next plans e known =
      let same : [] ≡ plans = cc in subst (All (AllOnline nodes)) same tt
  fallback_online (returns (some p)) counter next plans e known =
      let same : p ∷ [] ≡ plans = cc in subst (All (AllOnline nodes)) same (known p refl, tt)

  -- When every node has less than 2 ^ 32 MB, each assignment of the candidates that are built goes
  -- to a registered node that is online and has the VRAM that it asks for.
  pub build_candidates-online :
      (counter next : ℕ) (plans : List ShardPlan)
      → build_candidates u model nodes stats counter ≡ returns (plans, next)
      → All (AllOnline nodes) plans
  unfolding rotate_left
  build_candidates-online counter next plans e = elim (empty_or_not (solo_nodes u model nodes)) [
    | inl none_solo ↦
        fallback_online (build_plan u model nodes stats) counter next plans
          (sym (build_candidates_split u model nodes stats small counter none_solo) ∙ e)
          build_plan_online
    | inr some_solo ↦
        let l = ranked u model nodes stats in
        let k = counter % length l in
        let up =
          All-append _ (drop k l) (take k l)
            (All-drop _ k l (All-sort_by (by_latency stats) _ _ solo-IsUp))
            (All-take _ k l (All-sort_by (by_latency stats) _ _ solo-IsUp)) in
        let whole_of = λ (n : NodeInfo). whole_plan (spec_for u model) (capacity_of n) in
        let served_all : All (AllOnline nodes) (map whole_of (rotate_left k l)) =
          All-map (AllOnline nodes) whole_of (rotate_left k l)
            (All-mono _ _ (rotate_left k l) whole_online up) in
        let run = sym (build_candidates_solo u model nodes stats small counter some_solo) ∙ e in
        let same : map whole_of (rotate_left k l) ≡ plans = cc run in
        subst (All (AllOnline nodes)) same served_all
  ]
