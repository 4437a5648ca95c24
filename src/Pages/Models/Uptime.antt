-- ===== src/Pages/Models/Uptime.antt =====
-- The uptime that the database gives.
use infer_platform.Base.{
  ℕ, ◌<◌, ◌==◌, ◌≡◌, refl, true, false, List, All, All-mono, All-filter_self, filter, filter-All,
  length, Option, none, some, pos, FloatOps, arith, Bool-cases, ◌⊎◌, inl, inr,
}
use infer_platform.Nodes.{NodeInfo}
use infer_platform.Coordinator.{NodeStats}
use infer_platform.Health.{Probe, NodeRow}
use infer_platform.Pages.Models.{HealthTables, selected, uptime_of, from_rows, build_infer_stats}

All-succeeded :
    (now : ℕ) (nodes : List NodeRow) (rows : List Probe)
    → All (λ (p : Probe). p.success ≡ true) (filter (selected now nodes) rows)
All-succeeded now nodes rows =
    All-mono (λ p. selected now nodes p ≡ true) (λ (p : Probe). p.success ≡ true)
      (filter (selected now nodes) rows) (λ p e. ground (arith, e))
      (All-filter_self (selected now nodes) rows)

-- All probes counted, over all probes.
uptime_of-succeeded :
    (ops : FloatOps ℕ) (rows : List Probe)
    → All (λ (p : Probe). p.success ≡ true) rows
    → (uptime_of ops rows ≡ none)
      ⊎ ((n : ℕ) × (0 < n)
          × (uptime_of ops rows ≡ some (ops.div (ops.of_int (pos n)) (ops.of_int (pos n)))))
unfolding uptime_of
uptime_of-succeeded ops rows a = elim (Bool-cases (length rows == 0)) [
  | inl nothing ↦ inl (rw nothing refl)
  | inr something ↦ inr (
    length rows,
    ground (arith, something),
    rw (something, filter-All (λ (p : Probe). p.success) rows a) refl,
  )
]

-- When its query succeeds, the uptime that the database gives is none or a number of probes divided by
-- itself, whatever probes failed.
pub uptime_ignores_failures :
    (ops : FloatOps ℕ) (percentile : (hundredths : ℕ) → List (Option ℕ) → Option ℕ) (now : ℕ)
    (db : HealthTables) (stats : List NodeStats) (nodes : List NodeInfo)
    → db.query_fails ≡ false
    → ((build_infer_stats ops percentile now (some db) stats nodes).uptime_7d ≡ none)
      ⊎ ((n : ℕ) × (0 < n)
          × ((build_infer_stats ops percentile now (some db) stats nodes).uptime_7d
              ≡ some (ops.div (ops.of_int (pos n)) (ops.of_int (pos n)))))
unfolding build_infer_stats from_rows
uptime_ignores_failures ops percentile now db stats nodes there = rw there (
    uptime_of-succeeded ops (filter (selected now db.nodes) db.node_health)
      (All-succeeded now db.nodes db.node_health))
