-- ===== src/Coordinator/Ranking.antt =====
-- The order of the candidates: by measured latency, then by VRAM, from the place of the counter.
use infer_platform.Base.{
  ℕ, ◌+◌, ◌%◌, ◌≤◌, ◌<◌, ◌≡◌, ◌≢◌, ◌⊎◌, ◌↔◌, compare, not_greater, then_with, refl, true, false,
  List, [], ◌∷◌, ◌++◌, map, Option, none, some, Text, Casing, Perm, returns, filter, length, take,
  drop, sort_by-perm, sort_by-IsSorted, IsSorted, leb, wrap64, rank, is_nan, partial_cmp, magnitude,
  f64_max, All, All-mono, arith,
}
use infer_platform.Planner.{total_vram_mb}
use infer_platform.Planner.Single.{whole_plan}
use infer_platform.Nodes.{NodeInfo}
use infer_platform.Coordinator.{
  Stats, NodeStats, spec_for, capacity_of, is_online, p50_of, by_latency, rotate_left, solo_nodes,
  build_candidates,
}
use infer_platform.Coordinator.Candidates.{IsSmallNode, ranked, build_candidates_solo}

-- The measured latency, or the largest finite number.
abbrev pub latency_or_max : Option NodeStats → ℕ
latency_or_max none = f64_max
latency_or_max (some s) = s.p50_ms

-- The place of a node's latency among the numbers.
abbrev pub latency_rank : Stats → NodeInfo → ℕ
latency_rank stats n = rank (latency_or_max (stats n.id))

-- `a` is faster, or as fast and not the smaller.
abbrev pub IsAhead : Stats → NodeInfo → NodeInfo → Type 0
IsAhead stats a b =
    (latency_rank stats a < latency_rank stats b)
    ⊎ ((latency_rank stats a ≡ latency_rank stats b) × (b.vram_mb ≤ a.vram_mb))

-- Each node is ahead of all that follow.
abbrev pub IsRanked : Stats → List NodeInfo → Type 0
IsRanked stats [] = Unit
IsRanked stats (n ∷ nodes) = All (IsAhead stats n) nodes × IsRanked stats nodes

-- No measured latency is NaN.
abbrev pub AreNumbers : Stats → Type 0
AreNumbers stats = (id : Text) (s : NodeStats) → stats id ≡ some s → is_nan s.p50_ms ≡ false

is_number :
    (o : Option NodeStats)
    → ((s : NodeStats) → o ≡ some s → is_nan s.p50_ms ≡ false)
    → is_nan (latency_or_max o) ≡ false
unfolding is_nan magnitude
is_number none numbers = refl
is_number (some s) numbers = numbers s refl

partial_cmp_numbers :
    (x y : ℕ)
    → is_nan x ≡ false
    → is_nan y ≡ false
    → partial_cmp x y ≡ some (compare (rank x) (rank y))
unfolding partial_cmp
partial_cmp_numbers x y hx hy = rw (hx, hy) refl

-- The comparison of two latencies, and of two VRAMs the other way around where they are equal.
ahead_cases :
    (ra rb va vb : ℕ)
    → (not_greater (then_with (compare ra rb) (compare vb va)) ≡ true)
      ↔ ((ra < rb) ⊎ ((ra ≡ rb) × (vb ≤ va)))
ahead_cases ra rb va vb = ground arith

module _ (stats : Stats) (numbers : AreNumbers stats) where
  by_latency_iff : (a b : NodeInfo) → (by_latency stats a b ≡ true) ↔ IsAhead stats a b
  unfolding by_latency p50_of
  by_latency_iff a b =
      rw
        (partial_cmp_numbers (latency_or_max (stats a.id)) (latency_or_max (stats b.id))
          (is_number (stats a.id) (numbers a.id)) (is_number (stats b.id) (numbers b.id)))
        (ahead_cases (latency_rank stats a) (latency_rank stats b) a.vram_mb b.vram_mb)

  IsAhead-total : (a b : NodeInfo) → by_latency stats a b ≡ false → by_latency stats b a ≡ true
  IsAhead-total a b e = ground (arith, by_latency_iff a b, by_latency_iff b a, e)

  IsAhead-trans :
      (a b c : NodeInfo)
      → by_latency stats a b ≡ true
      → by_latency stats b c ≡ true
      → by_latency stats a c ≡ true
  IsAhead-trans a b c h k =
      (by_latency_iff a c).1 (ground (arith, (by_latency_iff a b).0 h, (by_latency_iff b c).0 k))

  IsSorted-IsRanked :
      (nodes : List NodeInfo) → IsSorted (by_latency stats) nodes → IsRanked stats nodes
  IsSorted-IsRanked [] s = tt
  IsSorted-IsRanked (n ∷ nodes) s = (
    All-mono (λ m. by_latency stats n m ≡ true) (IsAhead stats n) nodes
        (λ m e. (by_latency_iff n m).0 e) s.0,
    IsSorted-IsRanked nodes s.1,
  )

-- The online nodes that hold the model, in an order.
pub record Ranked (u : Casing) (model : Text) (nodes : List NodeInfo) (stats : Stats) : Type 0 where
  pub ordered : List NodeInfo
  pub same_nodes :
      Perm ordered
        (filter (λ n. leb (total_vram_mb (spec_for u model)) n.vram_mb) (filter is_online nodes))
  pub by_speed : IsRanked stats ordered

-- Suppose that the nodes have less than 2 ^ 32 MB, no measured latency is NaN, and some online node holds the
-- model alone. Then the online nodes that hold it, each as often as it is registered, stand in an
-- order in which a node is faster than those that follow, or as fast and has at least their VRAM;
-- and the candidates are one plan with all layers for each, in this order from the place of the
-- counter modulo their number, and then those before it. The counter goes up by one.
pub build_candidates-IsRanked :
    (u : Casing) (model : Text) (nodes : List NodeInfo) (stats : Stats) (counter : ℕ)
    → All IsSmallNode nodes
    → AreNumbers stats
    → solo_nodes u model nodes ≢ []
    → (r : Ranked u model nodes stats) × (let k = counter % length r.ordered in
        build_candidates u model nodes stats counter
        ≡ returns (
          map
              (λ n. whole_plan (spec_for u model) (capacity_of n))
              (drop k r.ordered ++ take k r.ordered),
          wrap64 (counter + 1),
        ))
unfolding solo_nodes rotate_left
build_candidates-IsRanked u model nodes stats counter small numbers some_solo = (
  record {
    ordered = ranked u model nodes stats;
    same_nodes = sort_by-perm (by_latency stats) (solo_nodes u model nodes);
    by_speed = IsSorted-IsRanked stats numbers (ranked u model nodes stats) (
        sort_by-IsSorted (by_latency stats) (IsAhead-total stats numbers)
          (IsAhead-trans stats numbers) (solo_nodes u model nodes));
  },
  build_candidates_solo u model nodes stats small counter some_solo,
)
