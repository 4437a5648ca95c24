-- ===== src/Coordinator/Rotation.antt =====
-- The round robin: over as many calls as there are solo nodes, each of them comes first.
use native.Mathlib.Decide.{dec_lt}
use native.Mathlib.Nat.{mul-add-mod_self_left, mod-eq_of_lt, mod-lt, div-add-mod}
use infer_platform.Base.{
  ℕ, ◌+◌, ◌-◌, ◌%◌, ◌<◌, ◌≡◌, ◌≢◌, refl, ◌∙◌, List, [], ◌∷◌, map, some, Text, Casing, Run, returns,
  length, take, get_elem?, get_elem?-drop-append, get_elem?-map, get_elem?-lt, length-sort_by,
  nonempty_of_length, wrap64-eq_of_lt, u64_mod, map_run, panics, zero, suc, ◌*◌, ◌/◌, ap, All,
  arith,
}
use infer_platform.Planner.{ShardPlan}
use infer_platform.Planner.Single.{whole_plan}
use infer_platform.Nodes.{NodeInfo}
use infer_platform.Coordinator.{
  Stats, spec_for, capacity_of, by_latency, rotate_left, solo_nodes, build_candidates,
}
use infer_platform.Coordinator.Candidates.{IsSmallNode, ranked, build_candidates_solo}

-- The calls from `start` until the one in which place `i` of `n` comes first.
pub turn : ℕ → ℕ → ℕ → ℕ
turn start i n = (i + n - start % n) % n

remainder : (q n i : ℕ) → i < n → (n * q + i) % n ≡ i
remainder q n i h = mul-add-mod_self_left n q i ∙ mod-eq_of_lt h

turn_lem : (start i n : ℕ) → i < n → ((start + turn start i n) % n ≡ i) × (turn start i n < n)
unfolding turn
turn_lem start i n h =
    let split = div-add-mod start n in
    let r = start % n in
    let small : r < n = mod-lt start (let pos : 0 < n = omega arith in pos) in
    elim (dec_lt i r) [
      | yes before ↦
          let t : (i + n - r) % n ≡ i + n - r = mod-eq_of_lt (omega arith) in
          let e : start + (i + n - r) ≡ n * (start / n + 1) + i = omega (arith, split) in
          (rw (t, e) (remainder (start / n + 1) n i h), omega (arith, t))
      | no after ↦
          let e' : i + n - r ≡ n * 1 + (i - r) = omega arith in
          let t : (i + n - r) % n ≡ i - r = rw e' (remainder 1 n (i - r) (omega arith)) in
          let e : start + (i - r) ≡ n * (start / n) + i = omega (arith, split) in
          (rw (t, e) (remainder (start / n) n i h), omega (arith, t))
    ]

first_of_rotation :
    (k : ℕ) (l : List NodeInfo) → k < length l → get_elem? (rotate_left k l) 0 ≡ get_elem? l k
unfolding rotate_left
first_of_rotation k l h = get_elem?-drop-append k l (take k l) h

abbrev continue :
    Run (List ShardPlan × ℕ) → (ℕ → Run (List (List ShardPlan))) → Run (List (List ShardPlan))
continue panics next = panics
continue (returns (plans, counter)) next = map_run (◌∷◌ plans) (next counter)

-- The candidates of consecutive calls for one model, the counter going from each to the next.
pub consecutive :
    Casing → Text → List NodeInfo → Stats → (calls counter : ℕ) → Run (List (List ShardPlan))
consecutive u model nodes stats zero counter = returns []
consecutive u model nodes stats (suc calls) counter =
    continue (build_candidates u model nodes stats counter) (consecutive u model nodes stats calls)

module _ (u : Casing) (model : Text) (nodes : List NodeInfo) (stats : Stats)
    (small : All IsSmallNode nodes) (some_solo : solo_nodes u model nodes ≢ []) where
  plans_at : ℕ → List ShardPlan
  plans_at counter =
      map (λ n. whole_plan (spec_for u model) (capacity_of n))
        (rotate_left (counter % length (ranked u model nodes stats)) (ranked u model nodes stats))

  all_plans : ℕ → ℕ → List (List ShardPlan)
  all_plans zero counter = []
  all_plans (suc calls) counter = plans_at counter ∷ all_plans calls (counter + 1)

  consecutive_lem :
      (calls counter : ℕ)
      → counter + calls < u64_mod
      → consecutive u model nodes stats calls counter ≡ returns (all_plans calls counter)
  unfolding consecutive all_plans plans_at
  consecutive_lem zero counter h = refl
  consecutive_lem (suc calls) counter h = rw (
    build_candidates_solo u model nodes stats small counter some_solo,
    wrap64-eq_of_lt (counter + 1) (omega arith),
    consecutive_lem calls (counter + 1) (omega arith),
  )

  all_plans-get_elem? :
      (calls counter k : ℕ)
      → k < calls
      → get_elem? (all_plans calls counter) k ≡ some (plans_at (counter + k))
  unfolding all_plans
  all_plans-get_elem? zero counter k h = absurd (omega arith)
  all_plans-get_elem? (suc calls) counter zero h = ap (λ c. some (plans_at c)) (omega arith)
  all_plans-get_elem? (suc calls) counter (suc k) h =
      all_plans-get_elem? calls (counter + 1) k (omega arith)
      ∙ ap (λ c. some (plans_at c)) (omega arith)

  first_plan :
      (counter i : ℕ) (node : NodeInfo)
      → counter % length (ranked u model nodes stats) ≡ i
      → get_elem? (ranked u model nodes stats) i ≡ some node
      → get_elem? (plans_at counter) 0 ≡ some (whole_plan (spec_for u model) (capacity_of node))
  unfolding plans_at
  first_plan counter i node lands e =
      let l = ranked u model nodes stats in
      rw lands (
        get_elem?-map _ (rotate_left i l) 0 node
          (first_of_rotation i l (get_elem?-lt l i node e) ∙ e))

-- Suppose that every node has less than 2 ^ 32 MB. As many consecutive calls as there are nodes that hold the
-- model alone, on a counter that does not wrap meanwhile, return, and each of these nodes comes
-- first in one of them.
pub round_robin :
    (u : Casing) (model : Text) (nodes : List NodeInfo) (stats : Stats) (counter i : ℕ)
    (node : NodeInfo)
    → All IsSmallNode nodes
    → counter + length (solo_nodes u model nodes) < u64_mod
    → get_elem? (ranked u model nodes stats) i ≡ some node
    → (calls : List (List ShardPlan)) × (k : ℕ) × (plans : List ShardPlan) × (consecutive u model
          nodes stats
          (length (solo_nodes u model nodes))
          counter
        ≡ returns calls)
      × (get_elem? calls k ≡ some plans)
      × (get_elem? plans 0 ≡ some (whole_plan (spec_for u model) (capacity_of node)))
round_robin u model nodes stats counter i node small no_wrap e =
    let l = ranked u model nodes stats in
    let n = length (solo_nodes u model nodes) in
    let inside = get_elem?-lt l i node e in
    let (lands, soon) = turn_lem counter i (length l) inside in
    let same = length-sort_by (by_latency stats) (solo_nodes u model nodes) in
    let some_solo = nonempty_of_length (solo_nodes u model nodes) (omega arith) in
    let k = turn counter i (length l) in
    (
      all_plans u model nodes stats small some_solo n counter,
      k,
      plans_at u model nodes stats small some_solo (counter + k),
      consecutive_lem u model nodes stats small some_solo n counter no_wrap,
      all_plans-get_elem? u model nodes stats small some_solo n counter k (omega arith),
      first_plan u model nodes stats small some_solo (counter + k) i node lands e,
    )
