-- ===== src/Pages/Models.antt =====
-- crates/api-gateway/src/routes/models.rs: the list of models from Ollama, and the figures of
-- the platform. `percentile` is percentile_cont of PostgreSQL; the values of the map of statistics are
-- a list in some order, and an f64 is its bits.
pub mod Uptime
use infer_platform.Base.{
  ℕ, ◌-◌, ◌==◌, ltb, Bool, true, false, ◌&&◌, List, [], ◌∷◌, map, filter, any, length, is_empty,
  Option, none, some, Text, codes, text_eq, Result, ok, err, pos, FloatOps, if◌then◌else◌,
}
use infer_platform.Nodes.{NodeInfo, seconds}
use infer_platform.Coordinator.{NodeStats, is_online}
use infer_platform.Health.{Probe, NodeRow}
use infer_platform.Pages.{sum_floats}

pub record OpenAiModel : Type 0 where
  pub id : Text
  pub created : ℕ
  pub owned_by : Text

-- 502, with the two messages.
pub data ListError : Type 0 where
  backend_unavailable backend_invalid : ListError

-- The answer of Ollama to /api/tags: the names of its models.
pub data TagsReply : Type 0 where
  unreachable unparsed : TagsReply
  tags : (names : List Text) → TagsReply

abbrev pub model_of : (now : ℕ) → Text → OpenAiModel
model_of now name = record { id = name; created = now; owned_by = codes "infer-platform" }

unfoldable pub list_models : (now : ℕ) → TagsReply → Result ListError (List OpenAiModel)
list_models now unreachable = err backend_unavailable
list_models now unparsed = err backend_invalid
list_models now (tags names) = ok (map (model_of now) names)

pub record InferStats : Type 0 where
  pub available_nodes : ℕ
  pub latency_p50_ms : Option ℕ
  pub latency_p95_ms : Option ℕ
  pub uptime_7d : Option ℕ

pub record HealthTables : Type 0 where
  pub query_fails : Bool
  pub node_health : List Probe
  pub nodes : List NodeRow

abbrev pub week : ℕ
week = seconds 604800

abbrev pub online_row : Text → NodeRow → Bool
online_row node_id row = text_eq row.id node_id && text_eq row.status (codes "online")

-- The JOIN and the WHERE clause.
abbrev pub selected : (now : ℕ) → List NodeRow → Probe → Bool
selected now nodes probe =
    any (online_row probe.node_id) nodes && ltb (now - week) probe.checked_at && probe.success

-- COUNT(*) FILTER (WHERE success) / NULLIF(COUNT(*), 0)
unfoldable pub uptime_of : FloatOps ℕ → List Probe → Option ℕ
uptime_of ops rows =
    if length rows == 0
    then none
    else some (
        ops.div (ops.of_int (pos (length (filter (λ p. p.success) rows))))
          (ops.of_int (pos (length rows))))

abbrev pub no_stats : (available_nodes : ℕ) → InferStats
no_stats available_nodes = record {
  available_nodes = available_nodes;
  latency_p50_ms = none;
  latency_p95_ms = none;
  uptime_7d = none;
}

abbrev mean : FloatOps ℕ → (NodeStats → ℕ) → List NodeStats → Option ℕ
mean ops f stats = some (ops.div (sum_floats ops (map f stats)) (ops.of_int (pos (length stats))))

unfoldable pub from_map : FloatOps ℕ → (available_nodes : ℕ) → List NodeStats → InferStats
from_map ops available_nodes [] = no_stats available_nodes
from_map ops available_nodes (s ∷ more) = record {
  available_nodes = available_nodes;
  latency_p50_ms = mean ops (λ t. t.p50_ms) (s ∷ more);
  latency_p95_ms = mean ops (λ t. t.p95_ms) (s ∷ more);
  uptime_7d = mean ops (λ t. t.uptime_7d) (s ∷ more);
}

module _ (ops : FloatOps ℕ) (percentile : (hundredths : ℕ) → List (Option ℕ) → Option ℕ) where
  unfoldable pub from_rows : (available_nodes : ℕ) → List Probe → InferStats
  unfolding uptime_of
  from_rows available_nodes rows = record {
    available_nodes = available_nodes;
    latency_p50_ms = percentile 50 (map (λ (p : Probe). p.latency_ms) rows);
    latency_p95_ms = percentile 95 (map (λ (p : Probe). p.latency_ms) rows);
    uptime_7d = uptime_of ops rows;
  }

  unfoldable pub build_infer_stats :
      (now : ℕ) → Option HealthTables → List NodeStats → List NodeInfo → InferStats
  unfolding from_rows from_map
  build_infer_stats now none stats nodes = from_map ops (length (filter is_online nodes)) stats
  build_infer_stats now (some db) stats nodes =
      if db.query_fails
      then from_map ops (length (filter is_online nodes)) stats
      else from_rows (length (filter is_online nodes))
          (filter (selected now db.nodes) db.node_health)
