-- ===== src/Health/Examples.antt =====
-- Probes and sweeps of two nodes.
use infer_platform.Base.{
  ℕ, ◌≡◌, refl, Bool, true, false, List, [], ◌∷◌, map, none, some, Text, codes, text_eq, decimal,
  find, sort_by, wrap32, arith, All, ascii_casing, ascii_lower, returns,
}
use infer_platform.Nodes.{NodeInfo, online, degraded, seconds}
use infer_platform.Planner.{
  ShardPlan, plan_shards, sum_vram, total_vram_mb, assign_layers, finish_plan,
}
use infer_platform.Planner.Single.{whole_plan}
use infer_platform.Registry.{get, known_models, matches, spec_of}
use infer_platform.Coordinator.{
  Stats, build_candidates, spec_for, capacity_of, by_latency, by_vram, rotate_left, solo_plans,
  solo_nodes, build_plan,
}
use infer_platform.Health.{
  Counts, has_id, bump, count_probe, consec_of, status_for, change_first, probe_memory,
  probe_targets, probe_all, collect_targets, NodeRow, Monitor, leading_failures,
  count_consecutive_failures, status_str, publish, probe_db, sweep, sweep_db,
}
use infer_platform.Health.Memory.{probes, probes-status, set_status}
use infer_platform.Health.Database.{new_probe}
use infer_platform.Health.Sweep.{IsServedFresh, swept-IsServedFresh}

health : Unit {0}
unfolding text_eq decimal sort_by wrap32 bump count_probe consec_of status_for change_first
    probe_memory probe_targets probe_all collect_targets leading_failures count_consecutive_failures
    status_str publish probe_db sweep sweep_db probes
health = tt

coordinator : Unit {0}
unfolding get known_models matches spec_of ascii_lower plan_shards sum_vram total_vram_mb
    assign_layers finish_plan sort_by spec_for capacity_of by_latency by_vram rotate_left solo_plans
    solo_nodes build_plan build_candidates
coordinator = tt

abbrev node : Text → ℕ → NodeInfo
node id last_seen = record {
  id = id;
  name = id;
  host = codes "host";
  port = 11434;
  agent_port = 8181;
  gpu_name = codes "gpu";
  vram_mb = 8192;
  status = online;
  registered_at = 0;
  last_seen = last_seen;
}

abbrev nodes : List NodeInfo
nodes = node (codes "a") (seconds 100) ∷ node (codes "b") (seconds 5) ∷ []

abbrev no_counts : Counts
no_counts id = none

abbrev three_failures : List Bool
three_failures = true ∷ false ∷ false ∷ false ∷ []

two_rounds_fail : (probe_all (λ url. false) (probe_all (λ url. false) (no_counts, nodes))).1 ≡ nodes
unfolding health
two_rounds_fail = refl

probes-status_example :
    find (has_id (codes "b")) (probes (codes "b") three_failures (no_counts, nodes)).1
    ≡ some (set_status degraded (node (codes "b") (seconds 5)))
unfolding health
probes-status_example =
    probes-status (codes "b") true (false ∷ false ∷ false ∷ []) no_counts nodes
      (node (codes "b") (seconds 5)) (omega arith) refl

abbrev monitor : Monitor
monitor = record {
  node_health = new_probe (codes "a") false none 1 ∷ new_probe (codes "a") false none 2 ∷ [];
  nodes =
      record { id = codes "a"; status = codes "online"; last_seen = 0 }
      ∷ record { id = codes "b"; status = codes "online"; last_seen = 0 }
      ∷ [];
  node_stats = λ id. none;
  pushed = [];
}

stale_row_is_swept :
    map
      (λ (row : NodeRow). row.status)
      (sweep_db false
        (seconds 91)
        (record { id = codes "a"; status = codes "busy"; last_seen = 0 } ∷ []))
    ≡ codes "offline" ∷ []
unfolding health
stale_row_is_swept = refl

abbrev no_latencies : Stats
no_latencies id = none

abbrev plan_on : NodeInfo → ShardPlan
plan_on n = whole_plan (spec_for ascii_casing (codes "llama3.2:3b")) (capacity_of n)

only_fresh :
    build_candidates ascii_casing (codes "llama3.2:3b") (sweep (seconds 120) nodes) no_latencies 0
    ≡ returns (plan_on (node (codes "a") (seconds 100)) ∷ [], 1)
unfolding coordinator health
only_fresh = refl

swept-IsServedFresh_example :
    All
      (λ plan. All (IsServedFresh (seconds 120) nodes) plan.assignments)
      (plan_on (node (codes "a") (seconds 100)) ∷ [])
swept-IsServedFresh_example =
    swept-IsServedFresh ascii_casing (codes "llama3.2:3b") nodes no_latencies (seconds 120) 0 1
      (plan_on (node (codes "a") (seconds 100)) ∷ []) (omega arith, (omega arith, tt)) only_fresh
