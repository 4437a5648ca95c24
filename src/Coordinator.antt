-- ===== src/Coordinator.antt =====
-- crates/api-gateway/src/shard_coordinator.rs: which nodes may serve a request, and in what order.
-- The latency statistics are a function of the node's id; the round-robin counter is the argument
-- and the second result of `build_candidates`.
pub mod Execution
pub mod Failover
pub mod Candidates
pub mod Ranking
pub mod Rotation
pub mod Online
mod Examples
use infer_platform.Base.{
  ℕ, ◌+◌, ◌%◌, ◌≡◌, refl, Bool, true, false, List, [], ◌∷◌, ◌++◌, map, Option, none, some, Text,
  Casing, Result, ok, err, Run, returns, panics, filter, length, is_empty, take, drop, sort_by, leb,
  if◌then◌else◌, wrap64, Ordering, compare, partial_cmp, f64_max, then_with, not_greater, or_equal,
}
use infer_platform.Planner.{
  NodeCapacity, ModelSpec, ShardPlan, PlanError, plan_shards, total_vram_mb,
}
use infer_platform.Registry.{get, estimate}
use infer_platform.Nodes.{NodeInfo, online, status_eq}

-- crates/api-gateway/src/cache.rs, with each f64 as its bits.
pub record NodeStats : Type 0 where
  pub p50_ms : ℕ
  pub p95_ms : ℕ
  pub uptime_7d : ℕ

abbrev pub Stats : Type 0
Stats = Text → Option NodeStats

unfoldable pub spec_for : Casing → Text → ModelSpec
spec_for u model = elim (get u model) [ none ↦ estimate model 4096 | some spec ↦ spec ]

unfoldable pub capacity_of : NodeInfo → NodeCapacity
capacity_of n = record {
  node_id = n.id;
  host = n.host;
  ollama_port = n.port;
  agent_port = n.agent_port;
  available_vram_mb = n.vram_mb;
}

abbrev pub is_online : NodeInfo → Bool
is_online n = status_eq n.status online

-- `stats.get(&id).map(|s| s.p50_ms).unwrap_or(f64::MAX)`
unfoldable pub p50_of : Stats → NodeInfo → ℕ
p50_of stats n = elim (stats n.id) [ none ↦ f64_max | some s ↦ s.p50_ms ]

-- Fastest first, the larger VRAM first among equals.
unfoldable pub by_latency : Stats → NodeInfo → NodeInfo → Bool
unfolding p50_of partial_cmp
by_latency stats a b =
    let pa = p50_of stats a in
    let pb = p50_of stats b in
    not_greater (then_with (or_equal (partial_cmp pa pb)) (compare b.vram_mb a.vram_mb))

-- Largest VRAM first, the faster first among equals.
unfoldable pub by_vram : Stats → NodeInfo → NodeInfo → Bool
unfolding p50_of partial_cmp
by_vram stats a b =
    let pa = p50_of stats a in
    let pb = p50_of stats b in
    not_greater (then_with (compare b.vram_mb a.vram_mb) (or_equal (partial_cmp pa pb)))

-- `slice::rotate_left`
unfoldable pub rotate_left {ℓ} : {A : Type ℓ} → ℕ → List A → List A
rotate_left offset l = drop offset l ++ take offset l

-- One step of `filter_map(.. plan_shards(..).ok())`.
abbrev pub collect : Run (Result PlanError ShardPlan) → Run (List ShardPlan) → Run (List ShardPlan)
collect (returns (ok plan)) (returns plans) = returns (plan ∷ plans)
collect (returns (err e)) plans = plans
collect (returns (ok plan)) panics = panics
collect panics plans = panics

unfoldable pub solo_plans : ModelSpec → List NodeInfo → Run (List ShardPlan)
unfolding capacity_of plan_shards
solo_plans spec [] = returns []
solo_plans spec (n ∷ nodes) =
    collect (plan_shards spec (capacity_of n ∷ [])) (solo_plans spec nodes)

abbrev pub ok_plan : Run (Result PlanError ShardPlan) → Run (Option ShardPlan)
ok_plan panics = panics
ok_plan (returns (ok plan)) = returns (some plan)
ok_plan (returns (err e)) = returns none

unfoldable pub build_plan : Casing → Text → List NodeInfo → Stats → Run (Option ShardPlan)
build_plan u model nodes stats =
    let candidates = sort_by (by_vram stats) (filter is_online nodes) in
    let capacities = map capacity_of candidates in
    if is_empty capacities
    then returns none
    else ok_plan (plan_shards (spec_for u model) capacities)

-- The single multi-node plan as the list of candidates, with the counter.
abbrev pub fallback : Run (Option ShardPlan) → ℕ → Run (List ShardPlan × ℕ)
fallback panics counter = panics
fallback (returns none) counter = returns ([], counter)
fallback (returns (some plan)) counter = returns (plan ∷ [], counter)

abbrev pub or_fallback :
    Run (Option ShardPlan) → Run (List ShardPlan) → ℕ → Run (List ShardPlan × ℕ)
or_fallback plan panics counter = panics
or_fallback plan (returns []) counter = fallback plan counter
or_fallback plan (returns (p ∷ plans)) counter = returns (p ∷ plans, counter)

-- The online nodes that hold the model alone.
unfoldable pub solo_nodes : Casing → Text → List NodeInfo → List NodeInfo
solo_nodes u model nodes =
    let needed = total_vram_mb (spec_for u model) in
    filter (λ n. leb needed n.vram_mb) (filter is_online nodes)

unfoldable pub build_candidates :
    Casing → Text → List NodeInfo → Stats → (rr_counter : ℕ) → Run (List ShardPlan × ℕ)
build_candidates u model nodes stats rr_counter =
    let solo = solo_nodes u model nodes in
    let sorted = sort_by (by_latency stats) solo in
    let offset = rr_counter % length sorted in
    let multi_node = build_plan u model nodes stats in
    let candidates = solo_plans (spec_for u model) (rotate_left offset sorted) in
    if is_empty solo
    then fallback multi_node rr_counter
    else or_fallback multi_node candidates (wrap64 (rr_counter + 1))
