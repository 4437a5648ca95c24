-- ===== src/Pages/Examples.antt =====
-- The pages on two models, two nodes and a probe that failed.
use infer_platform.Base.{
  ℕ, ◌+◌, ◌*◌, ◌-◌, ◌/◌, ◌<◌, ◌≡◌, refl, true, false, List, [], ◌∷◌, filter, none, some, Text,
  codes, text_eq, ok, pos, ◌+ℤ◌, to_nat, sort_by, FloatOps, ◌⊎◌,
}
use infer_platform.Usage.{UsageLog, total, add_sums, group_by}
use infer_platform.Register.{DbNode, NodeModel}
use infer_platform.Pages.{Env, env_or}
use infer_platform.Pages.Consumer.{
  DateReader, ConsumerQuery, ConsumerAnalytics, Faults, analytics, analytics_of, model_rows,
  day_rows, breakdown_of, point_of, parse_date,
}
use infer_platform.Pages.Consumer.Totals.{IsConsistent, analytics-IsConsistent}
use infer_platform.Pages.Models.{HealthTables, build_infer_stats, from_rows, uptime_of}
use infer_platform.Pages.Models.Uptime.{uptime_ignores_failures}
use infer_platform.Pages.Provider.{
  ProviderDb, stats_of, node_stats, hosts_of, joined, group_pairs, usage_of_node,
}
use infer_platform.Pages.Provider.Credit.{on_node, stats_of_alone}

pages : Unit {0}
unfolding env_or sort_by analytics analytics_of model_rows day_rows breakdown_of point_of parse_date
    total add_sums group_by ◌+ℤ◌ text_eq build_infer_stats from_rows uptime_of stats_of node_stats
    hosts_of joined group_pairs usage_of_node
pages = tt

-- Whole numbers in place of f64.
abbrev ops : FloatOps ℕ
ops = record {
  of_int = λ z. to_nat z;
  add = λ a b. a + b;
  mul = λ a b. a * b;
  sub = λ a b. a - b;
  div = λ a b. a / b;
  floor = λ a. a;
  round = λ a. a;
  zero = 0;
  as_u64 = λ a. a;
}

abbrev env : Env ℕ
env = record { var = λ name. none; parse = λ t. none }

abbrev used : (model : Text) → ℕ → UsageLog
used model time = record {
  key_id = some (codes "k");
  model = model;
  tokens_in = pos 3;
  tokens_out = pos 4;
  timestamp = time;
}

abbrev log : List UsageLog
log = used (codes "a") 5 ∷ used (codes "b") 6 ∷ used (codes "a") 7 ∷ []

-- The date is taken for midnight, and the row at 7 is left out.
abbrev dates : DateReader
dates = record { rfc3339 = λ t. none; ymd = λ t. some 6 }

abbrev until : ConsumerQuery
until = record { api_key_id = some (codes "k"); from_date = none; to_date = some (codes "d") }

abbrev no_faults : Faults
no_faults = record { totals_fail = false; models_fail = false; days_fail = false }

abbrev page : ConsumerAnalytics ℕ
page = record {
  total_requests = 2;
  total_tokens_in = pos 6;
  total_tokens_out = pos 8;
  total_tokens = pos 14;
  total_spend_usd = 14;
  tokens_by_model =
      record {
        model = codes "b";
        requests = 1;
        tokens_in = pos 3;
        tokens_out = pos 4;
        tokens_total = pos 7;
        spend_usd = 7;
      }
      ∷ record {
        model = codes "a";
        requests = 1;
        tokens_in = pos 3;
        tokens_out = pos 4;
        tokens_total = pos 7;
        spend_usd = 7;
      }
      ∷ [];
  daily_spend = record { date = codes "0"; requests = 2; tokens = pos 14; spend_usd = 14 } ∷ [];
}

shown : analytics ops env 1 dates (λ d. codes "0") 100 no_faults until (some log) ≡ ok page
unfolding pages
shown = refl

analytics-IsConsistent_example : IsConsistent page
analytics-IsConsistent_example =
    analytics-IsConsistent ops env 1 dates (λ d. codes "0") 100 no_faults until (some log) page refl
      refl shown

abbrev health : HealthTables
health = record {
  query_fails = false;
  node_health =
      record { node_id = codes "n"; latency_ms = some 5; success = true; checked_at = 9 }
      ∷ record { node_id = codes "n"; latency_ms = none; success = false; checked_at = 10 }
      ∷ [];
  nodes = record { id = codes "n"; status = codes "online"; last_seen = 9 } ∷ [];
}

uptime_ignores_failures_example :
    ((build_infer_stats ops (λ p l. none) 11 (some health) [] []).uptime_7d ≡ none)
    ⊎ ((n : ℕ) × (0 < n)
        × ((build_infer_stats ops (λ p l. none) 11 (some health) [] []).uptime_7d
            ≡ some (ops.div (ops.of_int (pos n)) (ops.of_int (pos n)))))
uptime_ignores_failures_example = uptime_ignores_failures ops (λ p l. none) 11 health [] [] refl

half_failed : (build_infer_stats ops (λ p l. none) 11 (some health) [] []).uptime_7d ≡ some 1
unfolding pages
half_failed = refl

abbrev node : DbNode
node = record {
  id = codes "n";
  name = codes "n";
  host = codes "h";
  port = pos 1;
  agent_port = pos 2;
  gpu_name = codes "g";
  vram_mb = pos 8;
  status = codes "online";
  registered_at = 0;
  last_seen = 0;
}

abbrev has_model : (node_id : Text) → NodeModel
has_model node_id = record { node_id = node_id; model_name = codes "a"; license = codes "mit" }

abbrev tables : ProviderDb
tables = record {
  nodes = node ∷ [];
  node_health = [];
  usage_logs = log;
  node_models = has_model (codes "m") ∷ has_model (codes "n") ∷ [];
  accounts = [];
  nodes_fail = false;
  health_fails = false;
  usage_fails = false;
  models_fail = false;
  accounts_fail = false;
}

stats_of_alone_example :
    stats_of ops (λ l. none) 1 1 20 tables node
    ≡ stats_of ops
        (λ l. none)
        1
        1
        20
        (record tables { node_models = filter (on_node (codes "n")) tables.node_models })
        node
stats_of_alone_example = stats_of_alone ops (λ l. none) 1 1 20 tables node

-- Both requests for the model count for the node, although another node has it too.
credited : (stats_of ops (λ l. none) 1 1 20 tables node).request_count_7d ≡ 2
unfolding pages
credited = refl
