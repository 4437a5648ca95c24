-- ===== src/Chat/Routing.antt =====
-- Where a request goes, together with how nodes register.
use infer_platform.Base.{
  ℕ, ◌≡◌, refl, ◌∙◌, Bool, false, not, is_empty, List, [], map, some, Text, Casing, Result, ok, err,
  returns, if◌then◌else◌, sort_by, Bool-cases, inl, inr,
}
use infer_platform.Nodes.{NodeInfo, RegisterNodeRequest, ModelRegistration}
use infer_platform.License.{find_violations}
use infer_platform.Messages.{ChatCompletionRequest}
use infer_platform.Coordinator.{Stats, build_candidates, build_plan, solo_nodes}
use infer_platform.Register.{DbNode, Store, register, upsert_node, node_of}
use infer_platform.Sanitize.{SanitizeError, sanitize_request}
use infer_platform.Chat.{
  Gateway, Dispatch, streams, answers, dispatch, dispatch_checked, stream_base,
}

-- The database takes the node: the query of the registration succeeds.
abbrev pub IsTaken : (id : Text) (now : ℕ) → RegisterNodeRequest → Store → Type 0
IsTaken id now req store =
    (table : List DbNode) × (persisted : NodeInfo × List DbNode) × (store.db ≡ some table)
    × (upsert_node table (node_of id now req) ≡ some persisted)

-- The states of a gateway with a database that has taken every node.
pub data Registered (u : Casing) : Store → Type 0 where
  start :
      (table : List DbNode)
      → Registered u (record { db = some table; node_models = []; nodes = [] })
  taken :
      (model_fails : ℕ → Bool) (id : Text) (now : ℕ) (req : RegisterNodeRequest) (store : Store)
      → Registered u store
      → IsTaken id now req store
      → Registered u (register u false model_fails id now req store).1

taken_keeps_nodes :
    (u : Casing) (model_fails : ℕ → Bool) (id : Text) (now : ℕ) (req : RegisterNodeRequest)
    (store : Store)
    → IsTaken id now req store
    → (register u false model_fails id now req store).1.nodes ≡ store.nodes
unfolding register
taken_keeps_nodes u model_fails id now req store (table, persisted, with_db, done) =
    elim (Bool-cases (
      not (
        is_empty
          (find_violations u (map (λ (m : ModelRegistration). (m.name, m.license)) req.models))))) [
            | inl refused ↦ rw refused refl
            | inr fine ↦ rw (fine, with_db, done) refl
          ]

no_nodes_in_memory : {u : Casing} (store : Store) → Registered u store → store.nodes ≡ []
no_nodes_in_memory store (start table) = refl
no_nodes_in_memory _ (taken model_fails id now req store r t) =
    taken_keeps_nodes _ model_fails id now req store t ∙ no_nodes_in_memory store r

build_candidates-nil :
    (u : Casing) (model : Text) (stats : Stats) (counter : ℕ)
    → build_candidates u model [] stats counter ≡ returns ([], counter)
unfolding build_candidates solo_nodes build_plan sort_by
build_candidates-nil u model stats counter = refl

-- What is done with a request when there are no candidates.
abbrev pub default_dispatch : Gateway → ChatCompletionRequest → Dispatch
default_dispatch g req = if req.stream then streams g.ollama_url req else answers [] req

checked_default :
    (u : Casing) (g : Gateway) (found : Result SanitizeError (Unit {0}) × ChatCompletionRequest)
    → g.nodes ≡ []
    → found.0 ≡ ok tt
    → dispatch_checked u g found ≡ returns (default_dispatch g found.1, g.rr_counter)
unfolding stream_base
checked_default u g (err e, req) empty h = absurd (let clash = h in cc)
checked_default u g (ok _, req) empty h = elim (Bool-cases req.stream) [
  | inl streamed ↦
      rw (empty, build_candidates-nil u req.model g.node_stats g.rr_counter, streamed) refl
  | inr whole ↦ rw (empty, build_candidates-nil u req.model g.node_stats g.rr_counter, whole) refl
]

-- However many nodes the database has taken, a request that passes the check goes to the default
-- Ollama: streamed from its address, or answered without any candidate.
pub Registered-unused :
    (u : Casing) (store : Store) (g : Gateway) (req : ChatCompletionRequest)
    → Registered u store
    → g.nodes ≡ store.nodes
    → (sanitize_request req).0 ≡ ok tt
    → dispatch u g req ≡ returns (default_dispatch g (sanitize_request req).1, g.rr_counter)
unfolding dispatch
Registered-unused u store g req r same fine =
    checked_default u g (sanitize_request req) (same ∙ no_nodes_in_memory store r) fine
