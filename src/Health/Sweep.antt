-- ===== src/Health/Sweep.antt =====
-- The sweep, and what it means for where a request may go.
use infer_platform.Base.{
  ℕ, ◌≤◌, ◌≡◌, ◌⊎◌, inl, inr, refl, sym, ◌∙◌, List, [], ◌∷◌, Text, Casing, ltb, arith, All,
  All-mono, All-get_elem?, returns, Bool-cases,
}
use infer_platform.Planner.{ShardPlan, ShardAssignment}
use infer_platform.Nodes.{NodeInfo, online, offline, status_eq, status_eq→eq}
use infer_platform.Coordinator.{Stats, build_candidates}
use infer_platform.Coordinator.Candidates.{IsSmallNode}
use infer_platform.Coordinator.Online.{IsServedOnline, AllOnline, build_candidates-online}
use infer_platform.Health.{sweep, sweep_node, cutoff_at}

abbrev pub IsFreshOrOffline : ℕ → NodeInfo → Type 0
IsFreshOrOffline now node = (cutoff_at now ≤ node.last_seen) ⊎ (node.status ≡ offline)

sweep_node-IsFreshOrOffline :
    (now : ℕ) (node : NodeInfo) → IsFreshOrOffline now (sweep_node (cutoff_at now) node)
sweep_node-IsFreshOrOffline now node = elim (Bool-cases (ltb node.last_seen (cutoff_at now))) [
  | inr fresh ↦ rw fresh (inl (ground (arith, fresh)))
  | inl stale ↦ elim (Bool-cases (status_eq node.status offline)) [
    | inl off ↦ rw (stale, off) (inr (status_eq→eq node.status offline off))
    | inr on ↦ rw (stale, on) (inr refl)
  ]
]

sweep-IsFreshOrOffline :
    (now : ℕ) (nodes : List NodeInfo) → All (IsFreshOrOffline now) (sweep now nodes)
unfolding sweep
sweep-IsFreshOrOffline now [] = tt
sweep-IsFreshOrOffline now (node ∷ nodes) =
    (sweep_node-IsFreshOrOffline now node, sweep-IsFreshOrOffline now nodes)

sweep-IsSmallNode :
    (now : ℕ) (nodes : List NodeInfo) → All IsSmallNode nodes → All IsSmallNode (sweep now nodes)
unfolding sweep
sweep-IsSmallNode now [] a = tt
sweep-IsSmallNode now (node ∷ nodes) a = (ground (arith, a.0), sweep-IsSmallNode now nodes a.1)

-- The assignment goes to a node of the swept list that had a heartbeat within 90 seconds.
pub record IsServedFresh (now : ℕ) (nodes : List NodeInfo) (a : ShardAssignment) : Type 0 where
  pub served : IsServedOnline (sweep now nodes) a
  pub fresh : cutoff_at now ≤ served.node.last_seen

fresh_of :
    (now : ℕ) (nodes : List NodeInfo) (a : ShardAssignment)
    → IsServedOnline (sweep now nodes) a
    → IsServedFresh now nodes a
fresh_of now nodes a s =
    elim (All-get_elem? (IsFreshOrOffline now) (sweep now nodes) s.listed.0 s.node s.listed.1
      (sweep-IsFreshOrOffline now nodes)) [
        | inl fresh ↦ record { served = s; fresh = fresh }
        | inr off ↦ absurd (let clash : online ≡ offline = sym s.is_up ∙ off in cc)
      ]

-- Right after a sweep, each assignment of each candidate goes to an online node that had a
-- heartbeat within the last 90 seconds. The nodes' VRAM is below 2^32 MB.
pub swept-IsServedFresh :
    (u : Casing) (model : Text) (nodes : List NodeInfo) (stats : Stats) (now counter next : ℕ)
    (plans : List ShardPlan)
    → All IsSmallNode nodes
    → build_candidates u model (sweep now nodes) stats counter ≡ returns (plans, next)
    → All (λ plan. All (IsServedFresh now nodes) plan.assignments) plans
swept-IsServedFresh u model nodes stats now counter next plans small e =
    All-mono (AllOnline (sweep now nodes)) _ plans
      (λ plan served.
        All-mono (IsServedOnline (sweep now nodes)) (IsServedFresh now nodes) plan.assignments
          (fresh_of now nodes) served)
      (build_candidates-online u model (sweep now nodes) stats (sweep-IsSmallNode now nodes small)
        counter next plans e)
