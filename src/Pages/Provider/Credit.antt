-- ===== src/Pages/Provider/Credit.antt =====
-- What a node is credited with.
use mathlib.Core.Path.{subst}
use infer_platform.Base.{
  ℕ, ◌≡◌, refl, sym, ap, ◌∙◌, Bool, true, false, List, [], ◌∷◌, ◌++◌, filter, filter-All,
  All-filter_self, map, FloatOps, find, Option, none, some, Text, text_eq, text_eq→eq, text_eq_refl,
  if◌then◌else◌, Bool-cases, inl, inr,
}
use infer_platform.Usage.{UsageLog, Sums, add_sums, sums_of, add_to_group}
use infer_platform.Register.{NodeModel, DbNode}
use infer_platform.Pages.{or_else}
use infer_platform.Pages.Provider.{
  hosts_of, joined, group_pairs, is_recent, has_node, usage_of_node, or_no_rows, stats_of,
  node_stats, recent_probe, sums_or_none, last_complete, ProviderDb,
}

-- The group of a node after one more row.
abbrev added : (node_id : Text) → Sums → Option (Text × Sums) → Option (Text × Sums)
added node_id s none = some (node_id, s)
added node_id s (some (k, t)) = some (k, add_sums s t)

find-add_to_group_same :
    (k : Text) (s : Sums) (groups : List (Text × Sums))
    → find (has_node k) (add_to_group text_eq k s groups) ≡ added k s (find (has_node k) groups)
unfolding add_to_group
find-add_to_group_same k s [] = rw (text_eq_refl k) refl
find-add_to_group_same k s ((k2, s2) ∷ groups) = elim (Bool-cases (text_eq k2 k)) [
  | inl hit ↦ rw (hit, hit) refl
  | inr miss ↦ rw (miss, miss) (find-add_to_group_same k s groups)
]

find-add_to_group_other :
    (k other : Text) (s : Sums) (groups : List (Text × Sums))
    → text_eq other k ≡ false
    → find (has_node k) (add_to_group text_eq other s groups) ≡ find (has_node k) groups
unfolding add_to_group
find-add_to_group_other k other s [] differ = rw differ refl
find-add_to_group_other k other s ((k2, s2) ∷ groups) differ =
    elim (Bool-cases (text_eq k2 other)) [
      | inl hit ↦
          let miss : text_eq k2 k ≡ false =
            subst (λ x. text_eq x k ≡ false) (sym (text_eq→eq k2 other hit)) differ in
          rw (hit, miss) refl
      | inr apart ↦ elim (Bool-cases (text_eq k2 k)) [
        | inl found ↦ rw (apart, found) refl
        | inr miss ↦ rw (apart, miss) (find-add_to_group_other k other s groups differ)
      ]
    ]

-- The group of a node comes from its own rows.
find-group_pairs :
    (k : Text) (pairs : List (Text × Sums))
    → find (has_node k) (group_pairs pairs)
      ≡ find (has_node k) (group_pairs (filter (has_node k) pairs))
unfolding group_pairs
find-group_pairs k [] = refl
find-group_pairs k ((other, s) ∷ pairs) = elim (Bool-cases (text_eq other k)) [
  | inl same ↦
      subst
        (λ o.
          find (has_node k) (add_to_group text_eq o s (group_pairs pairs))
          ≡ find (has_node k) (group_pairs ((o, s) ∷ filter (has_node k) pairs)))
        (sym (text_eq→eq other k same))
        (find-add_to_group_same k s (group_pairs pairs)
          ∙ ap (added k s) (find-group_pairs k pairs)
          ∙ sym (find-add_to_group_same k s (group_pairs (filter (has_node k) pairs))))
      ∙ rw same refl
  | inr differ ↦
      find-add_to_group_other k other s (group_pairs pairs) differ
      ∙ find-group_pairs k pairs
      ∙ rw differ refl
]

abbrev pub on_node : Text → NodeModel → Bool
on_node node_id nm = text_eq nm.node_id node_id

filter-hosts_of :
    (k : Text) (row : UsageLog) (models : List NodeModel)
    → filter (has_node k) (hosts_of row models) ≡ hosts_of row (filter (on_node k) models)
unfolding hosts_of
filter-hosts_of k row [] = refl
filter-hosts_of k row (nm ∷ models) = elim (Bool-cases (text_eq nm.model_name row.model)) [
  | inl has ↦ elim (Bool-cases (text_eq nm.node_id k)) [
    | inl mine ↦
        rw (has, mine, has) (ap (λ l. (nm.node_id, sums_of row) ∷ l) (filter-hosts_of k row models))
    | inr other ↦ rw (has, other) (filter-hosts_of k row models)
  ]
  | inr lacks ↦ elim (Bool-cases (text_eq nm.node_id k)) [
    | inl mine ↦ rw (lacks, mine, lacks) (filter-hosts_of k row models)
    | inr other ↦ rw (lacks, other) (filter-hosts_of k row models)
  ]
]

filter-append :
    {A : Type 0} (p : A → Bool) (xs ys : List A) → filter p (xs ++ ys) ≡ filter p xs ++ filter p ys
filter-append p [] ys = refl
filter-append p (x ∷ xs) ys = elim (Bool-cases (p x)) [
  | inl passes ↦ rw passes (ap (λ l. x ∷ l) (filter-append p xs ys))
  | inr fails ↦ rw fails (filter-append p xs ys)
]

filter-joined :
    (k : Text) (rows : List UsageLog) (models : List NodeModel)
    → filter (has_node k) (joined rows models) ≡ joined rows (filter (on_node k) models)
unfolding joined
filter-joined k [] models = refl
filter-joined k (row ∷ rows) models =
    filter-append (has_node k) (hosts_of row models) (joined rows models)
    ∙ ap (λ l. l ++ filter (has_node k) (joined rows models)) (filter-hosts_of k row models)
    ∙ ap (λ l. hosts_of row (filter (on_node k) models) ++ l) (filter-joined k rows models)

usage_of_node_alone :
    (now : ℕ) (logs : List UsageLog) (models : List NodeModel) (node_id : Text)
    → usage_of_node now logs models node_id
      ≡ usage_of_node now logs (filter (on_node node_id) models) node_id
unfolding usage_of_node
usage_of_node_alone now logs models node_id =
    find-group_pairs node_id (joined (filter (is_recent now) logs) models)
    ∙ ap (λ l. find (has_node node_id) (group_pairs l))
        (filter-joined node_id (filter (is_recent now) logs) models)

models_alone :
    (fails : Bool) (models : List NodeModel) (node_id : Text)
    → filter (on_node node_id) (or_no_rows fails models)
      ≡ filter (on_node node_id) (or_no_rows fails (filter (on_node node_id) models))
models_alone true models node_id = refl
models_alone false models node_id = sym (
    filter-All (on_node node_id) (filter (on_node node_id) models)
      (All-filter_self (on_node node_id) models))

-- A node's figures are those that it has when the models of all other nodes are taken away.
pub stats_of_alone :
    {F : Type 0} (ops : FloatOps F) (average : List (Option ℕ) → Option F)
    (token_rate revenue_share : F) (now : ℕ) (db : ProviderDb) (n : DbNode)
    → stats_of ops average token_rate revenue_share now db n
      ≡ stats_of ops average token_rate revenue_share now
          (record db { node_models = filter (on_node n.id) db.node_models })
          n
unfolding stats_of
stats_of_alone ops average token_rate revenue_share now db n = λ i.
    node_stats ops average token_rate revenue_share n
      (filter (recent_probe now n.id) (or_no_rows db.health_fails db.node_health))
      (sums_or_none (
        if db.usage_fails
        then none
        else usage_of_node_alone now db.usage_logs db.node_models n.id i))
      (or_else (last_complete n.id (or_no_rows db.accounts_fail db.accounts)) false)
      (map (λ (nm : NodeModel). nm.model_name) (models_alone db.models_fail db.node_models n.id i))
