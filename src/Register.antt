-- ===== src/Register.antt =====
-- crates/api-gateway/src/routes/nodes.rs: the handler by which an agent registers its node and the
-- list of the nodes, in the database or, without one or when it fails, in memory. The new id and the
-- clock are arguments; the clock is read once here.
pub mod Casts
pub mod Names
mod Examples
use infer_platform.Base.{
  ℕ, suc, ◌+◌, ◌-◌, ◌%◌, ◌^◌, Bool, true, false, not, ◌||◌, ◌&&◌, List, [], ◌∷◌, ◌++◌, map, Option,
  none, some, Text, Casing, codes, text_eq, any, find, length, is_empty, Result, ok, err, ℤ, pos,
  negsuc, ltb, leb, sort_by, if◌then◌else◌, u16_mod, u64_mod,
}
use infer_platform.Nodes.{
  NodeInfo, NodeStatus, online, offline, busy, degraded, ModelRegistration, RegisterNodeRequest,
}
use infer_platform.License.{LicenseViolation, find_violations, normalize}

pub record DbNode : Type 0 where
  pub id : Text
  pub name : Text
  pub host : Text
  pub port : ℤ
  pub agent_port : ℤ
  pub gpu_name : Text
  pub vram_mb : ℤ
  pub status : Text
  pub registered_at : ℕ
  pub last_seen : ℕ

-- `as i64` of a u64, `as u64` of an i64, and `as u16` of an i32.
unfoldable pub as_i64 : ℕ → ℤ
as_i64 n = if ltb n (2 ^ 63) then pos n else negsuc (u64_mod - 1 - n)

unfoldable pub as_u64 : ℤ → ℕ
as_u64 (pos n) = n
as_u64 (negsuc n) = u64_mod - 1 - n

unfoldable pub as_u16 : ℤ → ℕ
as_u16 (pos n) = n % u16_mod
as_u16 (negsuc n) = u16_mod - 1 - n % u16_mod

unfoldable pub status_of : Text → NodeStatus
status_of status =
    if text_eq status (codes "online")
    then online
    else if text_eq status (codes "busy")
    then busy
    else if text_eq status (codes "degraded")
    then degraded
    else offline

unfoldable pub from_db : DbNode → NodeInfo
unfolding as_u16 as_u64 status_of
from_db r = record {
  id = r.id;
  name = r.name;
  host = r.host;
  port = as_u16 r.port;
  agent_port = as_u16 r.agent_port;
  gpu_name = r.gpu_name;
  vram_mb = as_u64 r.vram_mb;
  status = status_of r.status;
  registered_at = r.registered_at;
  last_seen = r.last_seen;
}

-- The row of the VALUES.
unfoldable pub inserted_row : NodeInfo → DbNode
unfolding as_i64
inserted_row node = record {
  id = node.id;
  name = node.name;
  host = node.host;
  port = pos node.port;
  agent_port = pos node.agent_port;
  gpu_name = node.gpu_name;
  vram_mb = as_i64 node.vram_mb;
  status = codes "online";
  registered_at = node.registered_at;
  last_seen = node.last_seen;
}

-- `ON CONFLICT (name) DO UPDATE`: the id, the name and the time of registration stay.
unfoldable pub updated : DbNode → DbNode → DbNode
updated new old = record old {
  host = new.host;
  port = new.port;
  agent_port = new.agent_port;
  gpu_name = new.gpu_name;
  vram_mb = new.vram_mb;
  status = codes "online";
  last_seen = new.last_seen;
}

abbrev pub named : Text → DbNode → Bool
named name row = text_eq row.name name

abbrev pub update_row : DbNode → DbNode → DbNode
update_row new old = if named new.name old then updated new old else old

abbrev pub upsert_found :
    List DbNode → (new : DbNode) → (found : Option DbNode) → Option (DbNode × List DbNode)
upsert_found table new (some old) = some (updated new old, map (update_row new) table)
upsert_found table new none =
    if any (λ (old : DbNode). text_eq old.id new.id) table
    then none
    else some (new, table ++ (new ∷ []))

abbrev pub returned : Option (DbNode × List DbNode) → Option (NodeInfo × List DbNode)
returned none = none
returned (some (row, table)) = some (from_db row, table)

-- The row that is returned and the table; `none` when the id is another node's.
unfoldable pub upsert_node : List DbNode → NodeInfo → Option (NodeInfo × List DbNode)
unfolding from_db inserted_row updated
upsert_node table node =
    returned (upsert_found table (inserted_row node) (find (named node.name) table))

-- A row of `node_models`.
pub record NodeModel : Type 0 where
  pub node_id : Text
  pub model_name : Text
  pub license : Text

abbrev same_model : NodeModel → NodeModel → Bool
same_model new old = text_eq old.node_id new.node_id && text_eq old.model_name new.model_name

unfoldable pub upsert_model : NodeModel → List NodeModel → List NodeModel
upsert_model new [] = new ∷ []
upsert_model new (old ∷ rest) =
    let later = upsert_model new rest in
    if same_model new old then record old { license = new.license } ∷ rest else old ∷ later

-- The loop ends at the first query that fails; `fails` tells it by the place in the list.
unfoldable pub upsert_node_models :
    Casing
    → (fails : ℕ → Bool) (i : ℕ) (node_id : Text) → List ModelRegistration
    → List NodeModel
    → List NodeModel
unfolding upsert_model normalize
upsert_node_models u fails i node_id [] rows = rows
upsert_node_models u fails i node_id (m ∷ models) rows =
    let row : NodeModel = record {
      node_id = node_id;
      model_name = m.name;
      license = normalize u m.license;
    } in
    let later = upsert_node_models u fails (suc i) node_id models (upsert_model row rows) in
    if fails i then rows else later

pub record Store : Type 0 where
  pub db : Option (List DbNode)
  pub node_models : List NodeModel
  pub nodes : List NodeInfo

unfoldable pub node_of : (id : Text) (now : ℕ) → RegisterNodeRequest → NodeInfo
node_of id now req = record {
  id = id;
  name = req.name;
  host = req.host;
  port = req.port;
  agent_port = req.agent_port;
  gpu_name = req.gpu_name;
  vram_mb = req.vram_mb;
  status = online;
  registered_at = now;
  last_seen = now;
}

-- The node of the same name is replaced at its place.
unfoldable pub put_node : NodeInfo → List NodeInfo → List NodeInfo
put_node node [] = node ∷ []
put_node node (old ∷ rest) =
    let later = put_node node rest in
    if text_eq old.name node.name then node ∷ rest else old ∷ later

unfoldable pub register_memory : NodeInfo → Store → NodeInfo × Store
unfolding put_node
register_memory node store = (node, record store { nodes = put_node node store.nodes })

abbrev pub persist :
    Casing
    → (model_fails : ℕ → Bool) → RegisterNodeRequest
    → NodeInfo
    → Store
    → Option (NodeInfo × List DbNode)
    → NodeInfo × Store
persist u model_fails req node store none = register_memory node store
persist u model_fails req node store (some (persisted, table)) = (
  persisted,
  record store {
    db = some table;
    node_models = upsert_node_models u model_fails 0 persisted.id req.models store.node_models;
  },
)

abbrev pub register_in :
    Casing
    → (node_fails : Bool) (model_fails : ℕ → Bool) → RegisterNodeRequest
    → NodeInfo
    → Store
    → (db : Option (List DbNode)) → NodeInfo × Store
register_in u node_fails model_fails req node store none = register_memory node store
register_in u node_fails model_fails req node store (some table) =
    persist u model_fails req node store (if node_fails then none else upsert_node table node)

abbrev pub answer : NodeInfo × Store → Result (List LicenseViolation) NodeInfo × Store
answer (node, store) = (ok node, store)

unfoldable pub register :
    Casing
    → (node_fails : Bool) (model_fails : ℕ → Bool) → (id : Text) (now : ℕ) → RegisterNodeRequest
    → Store
    → Result (List LicenseViolation) NodeInfo × Store
unfolding node_of upsert_node upsert_node_models register_memory
register u node_fails model_fails id now req store =
    let violations =
      find_violations u (map (λ (m : ModelRegistration). (m.name, m.license)) req.models) in
    if not (is_empty violations)
    then (err violations, store)
    else answer (register_in u node_fails model_fails req (node_of id now req) store store.db)

-- The rows by time of registration, the newest first, or the nodes in memory.
unfoldable pub list_nodes_db : List DbNode → List NodeInfo
unfolding from_db
list_nodes_db table = map from_db (sort_by (λ a b. leb b.registered_at a.registered_at) table)

abbrev pub with_total : List NodeInfo → List NodeInfo × ℕ
with_total nodes = (nodes, length nodes)

unfoldable pub list_nodes : (fails : Bool) → Store → List NodeInfo × ℕ
unfolding list_nodes_db
list_nodes fails store = elim store.db [
  | none ↦ with_total store.nodes
  | some table ↦ if fails then with_total store.nodes else with_total (list_nodes_db table)
]
