-- ===== src/Pages/Provider.antt =====
-- crates/api-gateway/src/routes/provider.rs: the last seven days of each node. `average` is AVG of PostgreSQL
-- on the latencies; the rows of node_models are in the order of their registration.
pub mod Credit
use infer_platform.Base.{
  ℕ, ◌+◌, ◌-◌, ◌==◌, ltb, leb, Bool, true, false, ◌&&◌, List, [], ◌∷◌, ◌++◌, map, filter, find,
  length, Option, none, some, Text, codes, text_eq, Result, ok, err, ℤ, pos, ◌+ℤ◌, sort_by, sum_by,
  FloatOps, if◌then◌else◌,
}
use infer_platform.Nodes.{seconds}
use infer_platform.Usage.{UsageLog, Sums, no_rows, sums_of, add_to_group, sum_int}
use infer_platform.Register.{DbNode, NodeModel}
use infer_platform.Health.{Probe}
use infer_platform.Billing.{ProviderAccount}
use infer_platform.Pages.{
  PageError, no_database, query_failed, Env, env_or, round2, round4, round_at, sum_floats, or_none,
  or_else,
}

pub record NodeProviderStats (F : Type 0) : Type 0 where
  pub node_id : Text
  pub node_name : Text
  pub gpu_name : Text
  pub vram_mb : ℤ
  pub status : Text
  pub uptime_pct_7d : F
  pub avg_latency_ms_7d : Option F
  pub probe_count_7d : ℕ
  pub request_count_7d : ℕ
  pub tokens_in_7d : ℤ
  pub tokens_out_7d : ℤ
  pub tokens_served_7d : ℤ
  pub estimated_earnings_usd_7d : F
  pub stripe_onboarding_complete : Bool
  pub models : List Text

pub record ProviderTotals (F : Type 0) : Type 0 where
  pub node_count : ℕ
  pub request_count_7d : ℕ
  pub tokens_served_7d : ℤ
  pub estimated_earnings_usd_7d : F

pub record ProviderStats (F : Type 0) : Type 0 where
  pub nodes : List (NodeProviderStats F)
  pub totals : ProviderTotals F

-- The tables, and which of the queries fail.
pub record ProviderDb : Type 0 where
  pub nodes : List DbNode
  pub node_health : List Probe
  pub usage_logs : List UsageLog
  pub node_models : List NodeModel
  pub accounts : List ProviderAccount
  pub nodes_fail : Bool
  pub health_fails : Bool
  pub usage_fails : Bool
  pub models_fail : Bool
  pub accounts_fail : Bool

abbrev pub week : ℕ
week = seconds 604800

abbrev latest_first : DbNode → DbNode → Bool
latest_first a b = leb b.registered_at a.registered_at

abbrev pub or_no_rows : {A : Type 0} → (fails : Bool) → List A → List A
or_no_rows fails rows = if fails then [] else rows

-- The rows of a usage log joined with node_models: one for each node that has the model.
unfoldable pub hosts_of : UsageLog → List NodeModel → List (Text × Sums)
unfolding text_eq
hosts_of row [] = []
hosts_of row (nm ∷ models) =
    let later = hosts_of row models in
    if text_eq nm.model_name row.model then (nm.node_id, sums_of row) ∷ later else later

unfoldable pub joined : List UsageLog → List NodeModel → List (Text × Sums)
unfolding hosts_of
joined [] models = []
joined (row ∷ rows) models = hosts_of row models ++ joined rows models

unfoldable pub group_pairs : List (Text × Sums) → List (Text × Sums)
unfolding add_to_group text_eq
group_pairs [] = []
group_pairs ((node_id, s) ∷ pairs) = add_to_group text_eq node_id s (group_pairs pairs)

abbrev pub is_recent : (now : ℕ) → UsageLog → Bool
is_recent now row = ltb (now - week) row.timestamp

abbrev pub has_node : Text → Text × Sums → Bool
has_node node_id g = text_eq g.0 node_id

-- The row of the usage query for a node.
unfoldable pub usage_of_node :
    (now : ℕ) → List UsageLog → List NodeModel → (node_id : Text) → Option (Text × Sums)
unfolding joined group_pairs
usage_of_node now logs models node_id =
    find (has_node node_id) (group_pairs (joined (filter (is_recent now) logs) models))

abbrev pub sums_or_none : Option (Text × Sums) → Sums
sums_or_none none = no_rows
sums_or_none (some (node_id, s)) = s

abbrev pub recent_probe : (now : ℕ) → (node_id : Text) → Probe → Bool
recent_probe now node_id p = text_eq p.node_id node_id && ltb (now - week) p.checked_at

-- HashMap::collect keeps the last row of a node.
abbrev pub last_complete : (node_id : Text) → List ProviderAccount → Option Bool
last_complete node_id [] = none
last_complete node_id (row ∷ rows) = later_or (last_complete node_id rows)
  where
    later_or : Option Bool → Option Bool
    later_or none = if text_eq row.node_id node_id then some row.onboarding_complete else none
    later_or (some b) = some b

module _ {F : Type 0} (ops : FloatOps F) (average : List (Option ℕ) → Option F) where
  unfoldable pub uptime_pct : (success_count probe_count : ℕ) → F
  uptime_pct success_count probe_count =
      if ltb 0 probe_count
      then round2 ops (
          ops.mul (ops.div (ops.of_int (pos success_count)) (ops.of_int (pos probe_count)))
            (ops.of_int (pos 100)))
      else ops.of_int (pos 0)

  -- The loop's body; `probes` are those of the node in the last seven days.
  unfoldable pub node_stats :
      (token_rate revenue_share : F)
      → DbNode
      → (probes : List Probe) → (usage : Sums) → (complete : Bool) → (models : List Text)
      → NodeProviderStats F
  unfolding uptime_pct
  node_stats token_rate revenue_share n probes usage complete models =
      let succeeded = filter (λ (p : Probe). p.success) probes in
      let tokens_total = usage.tokens_in +ℤ usage.tokens_out in
      record {
        node_id = n.id;
        node_name = n.name;
        gpu_name = n.gpu_name;
        vram_mb = n.vram_mb;
        status = n.status;
        uptime_pct_7d = uptime_pct (length succeeded) (length probes);
        avg_latency_ms_7d =
            or_none (λ l. some (round_at ops 10 l))
              (average (map (λ (p : Probe). p.latency_ms) succeeded));
        probe_count_7d = length probes;
        request_count_7d = usage.requests;
        tokens_in_7d = usage.tokens_in;
        tokens_out_7d = usage.tokens_out;
        tokens_served_7d = tokens_total;
        estimated_earnings_usd_7d =
            round4 ops (ops.mul (ops.mul (ops.of_int tokens_total) token_rate) revenue_share);
        stripe_onboarding_complete = complete;
        models = models;
      }

  unfoldable pub stats_of :
      (token_rate revenue_share : F) (now : ℕ) → ProviderDb → DbNode → NodeProviderStats F
  unfolding usage_of_node node_stats
  stats_of token_rate revenue_share now db n =
      node_stats token_rate revenue_share n
        (filter (recent_probe now n.id) (or_no_rows db.health_fails db.node_health))
        (sums_or_none
          (if db.usage_fails then none else usage_of_node now db.usage_logs db.node_models n.id))
        (or_else (last_complete n.id (or_no_rows db.accounts_fail db.accounts)) false)
        (map (λ (nm : NodeModel). nm.model_name)
          (filter (λ (nm : NodeModel). text_eq nm.node_id n.id)
            (or_no_rows db.models_fail db.node_models)))

  unfoldable pub provider_totals : List (NodeProviderStats F) → ProviderTotals F
  unfolding sum_int
  provider_totals nodes = record {
    node_count = length nodes;
    request_count_7d = sum_by (λ n. n.request_count_7d) nodes;
    tokens_served_7d = sum_int (λ n. n.tokens_served_7d) nodes;
    estimated_earnings_usd_7d =
        round4 ops (sum_floats ops (map (λ n. n.estimated_earnings_usd_7d) nodes));
  }

  abbrev page_of : List (NodeProviderStats F) → ProviderStats F
  page_of nodes = record { nodes = nodes; totals = provider_totals nodes }

  -- `rate_default` and `share_default` are 0.000001 and 0.7.
  unfoldable pub stats :
      Env F
      → (rate_default share_default : F) (now : ℕ) → Option ProviderDb
      → Result PageError (ProviderStats F)
  unfolding env_or stats_of provider_totals
  stats env rate_default share_default now none = err no_database
  stats env rate_default share_default now (some db) =
      let token_rate = env_or env (codes "PROVIDER_TOKEN_RATE_USD") rate_default in
      let revenue_share = env_or env (codes "PROVIDER_REVENUE_SHARE") share_default in
      if db.nodes_fail
      then err query_failed
      else ok
          (page_of (map (stats_of token_rate revenue_share now db) (sort_by latest_first db.nodes)))
