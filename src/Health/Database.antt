-- ===== src/Health/Database.antt =====
-- The monitor with a database: the last ten probes are enough to know a node's status.
use infer_platform.Base.{ℕ, Bool, false, Option, Text, codes}
use infer_platform.Nodes.{NodeStatus, online, offline, busy, degraded}
use infer_platform.Health.{Probe, Faults}

abbrev pub status_name : NodeStatus → Text
status_name online = codes "online"
status_name offline = codes "offline"
status_name busy = codes "busy"
status_name degraded = codes "degraded"

abbrev pub no_faults : Faults
no_faults = record { insert_fails = false; select_fails = false; update_fails = false }

abbrev pub new_probe : Text → Bool → Option ℕ → ℕ → Probe
new_probe node_id success latency_ms now = record {
  node_id = node_id;
  latency_ms = latency_ms;
  success = success;
  checked_at = now;
}
