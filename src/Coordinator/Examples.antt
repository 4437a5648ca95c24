-- ===== src/Coordinator/Examples.antt =====
-- The coordinator on concrete nodes and replies.
use infer_platform.Base.{
  ℕ, zero, suc, ◌+◌, ◌≡◌, ◌%◌, refl, List, [], ◌∷◌, map, Option, none, some, Text, String, codes,
  ascii_casing, ascii_lower, arith, All, get_elem?, length, returns, panics, Run, Result, ok, err,
  wrap64, sort_by, text_eq, if◌then◌else◌, is_nan, magnitude, Bool-cases, inl, inr, sym, ap, take,
  drop, ◌++◌,
}
use infer_platform.Planner.{
  ShardPlan, controller, plan_shards, sum_vram, total_vram_mb, assign_layers, finish_plan,
}
use infer_platform.Planner.Single.{whole_plan}
use infer_platform.Registry.{get, known_models, matches, spec_of}
use infer_platform.Nodes.{NodeInfo, NodeStatus, online, degraded}
use infer_platform.Coordinator.{
  Stats, NodeStats, spec_for, capacity_of, by_latency, by_vram, rotate_left, solo_plans, solo_nodes,
  build_plan, build_candidates,
}
use infer_platform.Coordinator.Execution.{
  ExecError, not_reached, bad_status, all_candidates_failed, execute_with_failover,
}
use infer_platform.Coordinator.Failover.{
  failover_succeeds, failover_exhausted, failover_first, FirstSuccess,
}
use infer_platform.Coordinator.Ranking.{AreNumbers, Ranked, build_candidates-IsRanked}
use infer_platform.Coordinator.Rotation.{consecutive, round_robin}
use infer_platform.Coordinator.Online.{AllOnline, build_candidates-online}

coordinator : Unit {0}
unfolding get known_models matches spec_of ascii_lower plan_shards sum_vram total_vram_mb
    assign_layers finish_plan sort_by spec_for capacity_of by_latency by_vram rotate_left solo_plans
    solo_nodes build_plan build_candidates
coordinator = tt

abbrev node : String → ℕ → NodeStatus → NodeInfo
node id vram_mb status = record {
  id = codes id;
  name = codes id;
  host = codes "host";
  port = 11434;
  agent_port = 8181;
  gpu_name = codes "gpu";
  vram_mb = vram_mb;
  status = status;
  registered_at = 0;
  last_seen = 0;
}

-- 20 ms for "a" and 10 ms for "b".
abbrev stats : Stats
stats id =
    if text_eq id (codes "a")
    then some (record { p50_ms = 4626322717216342016; p95_ms = 0; uptime_7d = 0 })
    else if text_eq id (codes "b")
    then some (record { p50_ms = 4621819117588971520; p95_ms = 0; uptime_7d = 0 })
    else none

abbrev nodes : List NodeInfo
nodes = node "a" 8192 online ∷ node "b" 8192 online ∷ node "c" 8192 degraded ∷ []

abbrev small_model : Text
small_model = codes "llama3.2:3b"

abbrev plan_on : NodeInfo → ShardPlan
plan_on n = whole_plan (spec_for ascii_casing small_model) (capacity_of n)

fastest_first :
    build_candidates ascii_casing small_model nodes stats 4
    ≡ returns (plan_on (node "b" 8192 online) ∷ plan_on (node "a" 8192 online) ∷ [], 5)
unfolding coordinator text_eq
fastest_first = refl

abbrev map_plans : Run (List ShardPlan × ℕ) → Option ℕ
map_plans (returns (plans, counter)) = some (length plans)
map_plans panics = none

-- A model that no node holds alone is split, and the counter stays.
split_over_both :
    map_plans (
      build_candidates ascii_casing
        (codes "llama3.1:8b")
        (node "a" 4096 online ∷ node "b" 4096 online ∷ [])
        stats
        4)
    ≡ some 1
unfolding coordinator text_eq
split_over_both = refl

abbrev p50_or : Option NodeStats → ℕ
p50_or none = 0
p50_or (some s) = s.p50_ms

p50_same : {a b : NodeStats} → some a ≡ some b → a.p50_ms ≡ b.p50_ms
p50_same e = ap p50_or e

numbers : AreNumbers stats
unfolding is_nan magnitude
numbers id s e = elim (Bool-cases (text_eq id (codes "a"))) [
  | inl a ↦ let found = rw a at e in rw (sym (p50_same found)) refl
  | inr not_a ↦ elim (Bool-cases (text_eq id (codes "b"))) [
    | inl b ↦ let found = rw (not_a, b) at e in rw (sym (p50_same found)) refl
    | inr not_b ↦ let found = rw (not_a, not_b) at e in absurd (ground (arith, found))
  ]
]

build_candidates-IsRanked_example :
    (r : Ranked ascii_casing small_model nodes stats) × (let k = 5 % length r.ordered in
      build_candidates ascii_casing small_model nodes stats 5
      ≡ returns (map plan_on (drop k r.ordered ++ take k r.ordered), wrap64 (5 + 1)))
unfolding coordinator text_eq
build_candidates-IsRanked_example =
    build_candidates-IsRanked ascii_casing small_model nodes stats 5 (omega arith) numbers (λ e. cc)

round_robin_example :
    (calls : List (List ShardPlan)) × (k : ℕ) × (plans : List ShardPlan) × (consecutive ascii_casing
        small_model nodes stats
        (length (solo_nodes ascii_casing small_model nodes))
        7
      ≡ returns calls)
    × (get_elem? calls k ≡ some plans)
    × (get_elem? plans 0 ≡ some (plan_on (node "a" 8192 online)))
unfolding coordinator text_eq
round_robin_example =
    round_robin ascii_casing small_model nodes stats 7 1 (node "a" 8192 online) (omega arith)
      (omega arith) refl

build_candidates-online_example :
    All (AllOnline nodes) (plan_on (node "b" 8192 online) ∷ plan_on (node "a" 8192 online) ∷ [])
build_candidates-online_example =
    build_candidates-online ascii_casing small_model nodes stats (omega arith) 4 5
      (plan_on (node "b" 8192 online) ∷ plan_on (node "a" 8192 online) ∷ []) fastest_first

-- The first attempt is not answered, the second is.
abbrev flaky : ℕ → ShardPlan → Run (Result ExecError ℕ)
flaky zero plan = returns (err (not_reached (codes "a")))
flaky (suc i) plan = returns (ok 42)

abbrev dead : ℕ → ShardPlan → Run (Result ExecError ℕ)
dead i plan = returns (err (bad_status (codes "a") (500 + i)))

abbrev two_plans : List ShardPlan
two_plans = plan_on (node "a" 8192 online) ∷ plan_on (node "b" 8192 online) ∷ []

second_answers : execute_with_failover flaky two_plans ≡ returns (ok 42)
unfolding execute_with_failover controller
second_answers = refl

failover_succeeds_example : execute_with_failover flaky two_plans ≡ returns (ok 42)
unfolding controller
failover_succeeds_example =
    failover_succeeds flaky (plan_on (node "a" 8192 online) ∷ []) []
      (plan_on (node "b" 8192 online)) (not_reached (codes "a")) 42
      ((λ e. cc), (not_reached (codes "a"), refl, refl)) (λ e. cc) refl

failover_exhausted_example :
    execute_with_failover dead two_plans ≡ returns (err (bad_status (codes "a") 501))
unfolding controller
failover_exhausted_example =
    failover_exhausted dead two_plans (bad_status (codes "a") 501) (λ e. cc)
      (
        (λ e. cc),
        (bad_status (codes "a") 500, refl, ((λ e. cc), (bad_status (codes "a") 501, refl, refl))),
      )

failover_first_example : FirstSuccess flaky 0 all_candidates_failed two_plans 42
failover_first_example = failover_first flaky two_plans 42 second_answers
