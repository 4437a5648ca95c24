-- ===== src/Health/Memory.antt =====
-- The monitor without a database: what a series of probes does to a node.
use infer_platform.Base.{
  ℕ, suc, ◌+◌, ◌<◌, ◌≤◌, ◌≡◌, refl, ap, ◌∙◌, Bool, true, false, List, [], ◌∷◌, some, Text,
  text_eq_refl, find, length, wrap32-eq_of_lt, u32_mod, arith, Bool-cases, inl, inr,
}
use infer_platform.Nodes.{NodeInfo, NodeStatus, status_eq, status_eq→eq}
use infer_platform.Health.{
  Counts, or_zero, bump, count_probe, consec_of, status_for, with_status, change_first, has_id,
  probe_memory,
}

abbrev pub set_status : NodeStatus → NodeInfo → NodeInfo
set_status status node = record node { status = status }

with_status-eq-set_status :
    (status : NodeStatus) (node : NodeInfo) → with_status status node ≡ set_status status node
with_status-eq-set_status status node = elim (Bool-cases (status_eq node.status status)) [
  | inl same ↦ rw same (ap (λ s. record node { status = s }) (status_eq→eq node.status status same))
  | inr differs ↦ rw differs refl
]

find-change_first :
    (node_id : Text) (status : NodeStatus) (nodes : List NodeInfo) (node : NodeInfo)
    → find (has_id node_id) nodes ≡ some node
    → find (has_id node_id) (change_first (has_id node_id) (with_status status) nodes)
      ≡ some (set_status status node)
unfolding change_first
find-change_first node_id status [] node e = absurd cc
find-change_first node_id status (x ∷ nodes) node e = elim (Bool-cases (has_id node_id x)) [
  | inl hit ↦
      let found : some x ≡ some node = rw hit at e in
      let same : x ≡ node = cc in
      rw (hit, with_status-eq-set_status status x, hit) (ap (λ n. some (set_status status n)) same)
  | inr miss ↦ rw (miss, miss) (find-change_first node_id status nodes node (rw miss at e))
]

-- The failures in a row after an outcome, when there were `n` before it.
abbrev pub next_streak : ℕ → Bool → ℕ
next_streak n true = 0
next_streak n false = suc n

abbrev pub streak : ℕ → List Bool → ℕ
streak n [] = n
streak n (o ∷ outcomes) = streak (next_streak n o) outcomes

-- The state after probes of one node, oldest first.
unfoldable pub probes : Text → List Bool → Counts × List NodeInfo → Counts × List NodeInfo
unfolding probe_memory
probes node_id [] state = state
probes node_id (o ∷ outcomes) (counts, nodes) =
    probes node_id outcomes (probe_memory counts node_id o nodes)

counted :
    (node_id : Text) (o : Bool) (counts : Counts)
    → or_zero (counts node_id) + 1 < u32_mod
    → (or_zero (count_probe node_id o counts node_id) ≡ next_streak (or_zero (counts node_id)) o)
      × (consec_of node_id o (count_probe node_id o counts)
          ≡ next_streak (or_zero (counts node_id)) o)
unfolding count_probe consec_of bump
counted node_id true counts small = (rw (text_eq_refl node_id) refl, refl)
counted node_id false counts small =
    let exact = wrap32-eq_of_lt (or_zero (counts node_id) + 1) small in
    (rw (text_eq_refl node_id, exact) (omega arith), rw (text_eq_refl node_id, exact) (omega arith))

-- After one probe the first node with the id has the status of its new streak.
probe_once :
    (node_id : Text) (o : Bool) (counts : Counts) (nodes : List NodeInfo) (node : NodeInfo)
    → or_zero (counts node_id) + 1 < u32_mod
    → find (has_id node_id) nodes ≡ some node
    → find (has_id node_id) (probe_memory counts node_id o nodes).1
      ≡ some (set_status (status_for (next_streak (or_zero (counts node_id)) o)) node)
unfolding probe_memory
probe_once node_id o counts nodes node small found =
    find-change_first node_id (status_for (consec_of node_id o (count_probe node_id o counts)))
      nodes node found
    ∙ ap (λ n. some (set_status (status_for n) node)) (counted node_id o counts small).1

next_streak-le : (n : ℕ) (o : Bool) → next_streak n o ≤ n + 1
next_streak-le n true = omega arith
next_streak-le n false = omega arith

-- After a series of probes of one node, fewer than 2^32 with the failures counted before, the first
-- node with its id has the status of the failures at the end of the series, which a success ends
-- and which go on from the count before; nothing else of it has changed.
pub probes-status :
    (node_id : Text) (o : Bool) (outcomes : List Bool) (counts : Counts) (nodes : List NodeInfo)
    (node : NodeInfo)
    → or_zero (counts node_id) + suc (length outcomes) < u32_mod
    → find (has_id node_id) nodes ≡ some node
    → find (has_id node_id) (probes node_id (o ∷ outcomes) (counts, nodes)).1
      ≡ some (set_status (status_for (streak (or_zero (counts node_id)) (o ∷ outcomes))) node)
unfolding probes probe_memory
probes-status node_id o [] counts nodes node small found =
    probe_once node_id o counts nodes node (omega (arith, small)) found
probes-status node_id o (later ∷ outcomes) counts nodes node small found =
    let count = (counted node_id o counts (omega (arith, small))).0 in
    let once = probe_once node_id o counts nodes node (omega (arith, small)) found in
    probes-status node_id later outcomes (probe_memory counts node_id o nodes).0
      (probe_memory counts node_id o nodes).1
      (set_status (status_for (next_streak (or_zero (counts node_id)) o)) node)
      (omega (arith, small, count, next_streak-le (or_zero (counts node_id)) o)) once
    ∙ ap (λ n. some (set_status (status_for (streak n (later ∷ outcomes))) node)) count
