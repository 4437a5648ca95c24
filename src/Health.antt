-- ===== src/Health.antt =====
-- crates/api-gateway/src/health_monitor.rs, which probes the nodes, and stale_nodes.rs, which sweeps
-- those without a heartbeat: each one round of its loop. The node's answer to `/ping` is the
-- parameter `ping`. The nodes of the database are rows with the status as text; the percentiles
-- that PostgreSQL computes are the parameter `compute_stats`, and a failure of a query is an argument.
pub mod Memory
pub mod Database
pub mod Sweep
mod Examples
use infer_platform.Base.{
  ℕ, suc, ◌+◌, ◌-◌, Bool, true, false, not, ◌&&◌, List, [], ◌∷◌, ◌++◌, map, Option, none, some,
  Text, codes, text_eq, decimal, ltb, leb, take, filter, sort_by, wrap32, if◌then◌else◌,
}
use infer_platform.Nodes.{NodeInfo, NodeStatus, online, offline, degraded, status_eq, seconds}
use infer_platform.Coordinator.{NodeStats, Stats}

-- `HashMap<String, u32>`
abbrev pub Counts : Type 0
Counts = Text → Option ℕ

abbrev pub remove : Text → Counts → Counts
remove node_id counts id = if text_eq id node_id then none else counts id

abbrev pub or_zero : Option ℕ → ℕ
or_zero none = 0
or_zero (some n) = n

-- `*entry(node_id).or_insert(0) += 1`
unfoldable pub bump : Text → Counts → Counts
unfolding wrap32
bump node_id counts id =
    if text_eq id node_id then some (wrap32 (or_zero (counts node_id) + 1)) else counts id

unfoldable pub count_probe : Text → Bool → Counts → Counts
unfolding bump
count_probe node_id true counts = remove node_id counts
count_probe node_id false counts = bump node_id counts

unfoldable pub consec_of : Text → Bool → Counts → ℕ
consec_of node_id true counts = 0
consec_of node_id false counts = or_zero (counts node_id)

unfoldable pub status_for : (consec : ℕ) → NodeStatus
status_for consec = if leb 10 consec then offline else if leb 3 consec then degraded else online

abbrev pub with_status : NodeStatus → NodeInfo → NodeInfo
with_status status node =
    if not (status_eq node.status status) then record node { status = status } else node

-- `iter_mut().find(p)` with a change of what it finds.
unfoldable pub change_first :
    (NodeInfo → Bool) → (NodeInfo → NodeInfo) → List NodeInfo → List NodeInfo
change_first p change [] = []
change_first p change (node ∷ rest) =
    let later = change_first p change rest in if p node then change node ∷ rest else node ∷ later

abbrev pub has_id : Text → NodeInfo → Bool
has_id node_id node = text_eq node.id node_id

unfoldable pub probe_memory :
    Counts → (node_id : Text) → (success : Bool) → List NodeInfo → Counts × List NodeInfo
unfolding count_probe consec_of status_for change_first
probe_memory counts node_id success nodes =
    let counted = count_probe node_id success counts in
    let new_status = status_for (consec_of node_id success counted) in
    (counted, change_first (has_id node_id) (with_status new_status) nodes)

abbrev pub target : NodeInfo → Text × Text × ℕ
target node = (node.id, node.host, node.agent_port)

unfoldable pub collect_targets : List NodeInfo → List (Text × Text × ℕ)
collect_targets nodes = map target nodes

abbrev pub ping_url : Text → ℕ → Text
ping_url host agent_port =
    codes "http://" ++ (host ++ (codes ":" ++ (decimal agent_port ++ codes "/ping")))

-- The `for` over the targets, which were collected before it.
unfoldable pub probe_targets :
    (ping : Text → Bool) → List (Text × Text × ℕ) → Counts × List NodeInfo → Counts × List NodeInfo
unfolding probe_memory
probe_targets ping [] state = state
probe_targets ping ((node_id, host, agent_port) ∷ rest) (counts, nodes) =
    probe_targets ping rest (probe_memory counts node_id (ping (ping_url host agent_port)) nodes)

unfoldable pub probe_all : (ping : Text → Bool) → Counts × List NodeInfo → Counts × List NodeInfo
unfolding probe_targets collect_targets
probe_all ping (counts, nodes) = probe_targets ping (collect_targets nodes) (counts, nodes)

-- A row of `node_health`.
pub record Probe : Type 0 where
  pub node_id : Text
  pub latency_ms : Option ℕ
  pub success : Bool
  pub checked_at : ℕ

unfoldable pub leading_failures : List Probe → ℕ
leading_failures [] = 0
leading_failures (row ∷ rows) =
    let more = leading_failures rows in if not row.success then suc more else 0

abbrev pub newest_first : Probe → Probe → Bool
newest_first a b = leb b.checked_at a.checked_at

abbrev pub probes_of : Text → List Probe → List Probe
probes_of node_id rows = sort_by newest_first (filter (λ row. text_eq row.node_id node_id) rows)

unfoldable pub count_consecutive_failures : (fails : Bool) → List Probe → Text → ℕ
unfolding leading_failures
count_consecutive_failures true rows node_id = 0
count_consecutive_failures false rows node_id = leading_failures (take 10 (probes_of node_id rows))

-- The columns of `nodes` that the monitor and the sweep touch.
pub record NodeRow : Type 0 where
  pub id : Text
  pub status : Text
  pub last_seen : ℕ

unfoldable pub status_str : (consec : ℕ) → Text
status_str consec =
    if leb 10 consec
    then codes "offline"
    else if leb 3 consec
    then codes "degraded"
    else codes "online"

-- Which of the queries fail.
pub record Faults : Type 0 where
  pub insert_fails : Bool
  pub select_fails : Bool
  pub update_fails : Bool

pub record Monitor : Type 0 where
  pub node_health : List Probe
  pub nodes : List NodeRow
  pub node_stats : Stats
  pub pushed : List (Text × NodeStats)

abbrev pub set_row_status : Text → Text → NodeRow → NodeRow
set_row_status node_id status row =
    if text_eq row.id node_id then record row { status = status } else row

-- The stats go to the map of the process and to Redis, where it is configured.
unfoldable pub publish : (redis : Bool) (node_id : Text) → Option NodeStats → Monitor → Monitor
publish redis node_id none m = m
publish redis node_id (some stats) m = record m {
  node_stats = λ id. if text_eq id node_id then some stats else m.node_stats id;
  pushed = if redis then m.pushed ++ ((node_id, stats) ∷ []) else m.pushed;
}

module _ (compute_stats : List Probe → Text → Option NodeStats) (redis : Bool) where
  unfoldable pub probe_db :
      Faults
      → (now : ℕ) (node_id : Text) (success : Bool) (latency_ms : Option ℕ) → Monitor
      → Monitor
  unfolding count_consecutive_failures status_str publish
  probe_db faults now node_id success latency_ms m =
      if faults.insert_fails
      then m
      else (let rows =
            m.node_health
            ++ (record {
              node_id = node_id;
              latency_ms = latency_ms;
              success = success;
              checked_at = now;
            }
                ∷ []) in
          let status = status_str (count_consecutive_failures faults.select_fails rows node_id) in
          let updated =
            if faults.update_fails then m.nodes else map (set_row_status node_id status) m.nodes in
          publish redis node_id (compute_stats rows node_id)
            (record m { node_health = rows; nodes = updated }))

-- The nodes of a round of the sweep at `now`, in memory and in the database.
abbrev pub cutoff_at : ℕ → ℕ
cutoff_at now = now - seconds 90

abbrev pub sweep_node : (cutoff : ℕ) → NodeInfo → NodeInfo
sweep_node cutoff node =
    if ltb node.last_seen cutoff && not (status_eq node.status offline)
    then record node { status = offline }
    else node

unfoldable pub sweep : (now : ℕ) → List NodeInfo → List NodeInfo
sweep now nodes = map (sweep_node (cutoff_at now)) nodes

abbrev pub sweep_row : (cutoff : ℕ) → NodeRow → NodeRow
sweep_row cutoff row =
    if ltb row.last_seen cutoff && not (text_eq row.status (codes "offline"))
    then record row { status = codes "offline" }
    else row

unfoldable pub sweep_db : (fails : Bool) (now : ℕ) → List NodeRow → List NodeRow
sweep_db fails now rows = if fails then rows else map (sweep_row (cutoff_at now)) rows
