-- ===== src/Register/Casts.antt =====
-- The casts of ports and sizes to columns and back, and the answer to a registration.
use mathlib.Core.Path.{subst}
use infer_platform.Base.{
  ℕ, ◌^◌, ◌<◌, ◌≡◌, refl, Bool, true, false, not, List, map, Option, none, some, Text, Casing,
  text_eq, text_eq_iff, find, find-some, any, arith, Bool-cases, inl, inr, ok, is_empty, pos, ltb,
  u16_mod, u64_mod,
}
use infer_platform.Nodes.{NodeInfo, online, RegisterNodeRequest, ModelRegistration}
use infer_platform.License.{find_violations}
use infer_platform.Register.{
  DbNode, Store, as_i64, as_u64, as_u16, status_of, from_db, inserted_row, updated, named,
  upsert_node, upsert_found, returned, node_of, register_memory, persist, register_in, register,
}

-- A u64 comes back from the signed column.
as_u64-as_i64 : (n : ℕ) → n < u64_mod → as_u64 (as_i64 n) ≡ n
unfolding as_u64 as_i64
as_u64-as_i64 n h = elim (Bool-cases (ltb n (2 ^ 63))) [
  | inl low ↦ rw low refl
  | inr high ↦ rw high (omega (arith, h))
]

as_u16-pos : (n : ℕ) → n < u16_mod → as_u16 (pos n) ≡ n
unfolding as_u16
as_u16-pos n h = omega (arith, h)

-- The u16 and u64 fields of the request.
pub record IsInRange (req : RegisterNodeRequest) : Type 0 where
  pub port : req.port < u16_mod
  pub agent_port : req.agent_port < u16_mod
  pub vram_mb : req.vram_mb < u64_mod

-- The node is online with what the request said.
pub record IsAnswerFor (req : RegisterNodeRequest) (node : NodeInfo) : Type 0 where
  pub same_name : node.name ≡ req.name
  pub same_host : node.host ≡ req.host
  pub same_port : node.port ≡ req.port
  pub same_agent_port : node.agent_port ≡ req.agent_port
  pub same_gpu_name : node.gpu_name ≡ req.gpu_name
  pub same_vram_mb : node.vram_mb ≡ req.vram_mb
  pub is_online : node.status ≡ online

from_db-IsAnswerFor :
    (id : Text) (now : ℕ) (req : RegisterNodeRequest) (old : DbNode)
    → IsInRange req
    → old.name ≡ req.name
    → IsAnswerFor req (from_db (updated (inserted_row (node_of id now req)) old))
unfolding from_db updated inserted_row node_of status_of text_eq
from_db-IsAnswerFor id now req old h same = record {
  same_name = same;
  same_host = refl;
  same_port = as_u16-pos req.port h.port;
  same_agent_port = as_u16-pos req.agent_port h.agent_port;
  same_gpu_name = refl;
  same_vram_mb = as_u64-as_i64 req.vram_mb h.vram_mb;
  is_online = refl;
}

inserted_row-IsAnswerFor :
    (id : Text) (now : ℕ) (req : RegisterNodeRequest)
    → IsInRange req
    → IsAnswerFor req (from_db (inserted_row (node_of id now req)))
unfolding from_db inserted_row node_of status_of text_eq
inserted_row-IsAnswerFor id now req h = record {
  same_name = refl;
  same_host = refl;
  same_port = as_u16-pos req.port h.port;
  same_agent_port = as_u16-pos req.agent_port h.agent_port;
  same_gpu_name = refl;
  same_vram_mb = as_u64-as_i64 req.vram_mb h.vram_mb;
  is_online = refl;
}

memory-IsAnswerFor :
    (id : Text) (now : ℕ) (req : RegisterNodeRequest) → IsAnswerFor req (node_of id now req)
unfolding node_of
memory-IsAnswerFor id now req = record {
  same_name = refl;
  same_host = refl;
  same_port = refl;
  same_agent_port = refl;
  same_gpu_name = refl;
  same_vram_mb = refl;
  is_online = refl;
}

found-IsAnswerFor :
    (id : Text) (now : ℕ) (req : RegisterNodeRequest) (table after : List DbNode) (node : NodeInfo)
    (found : Option DbNode)
    → IsInRange req
    → find (named req.name) table ≡ found
    → returned (upsert_found table (inserted_row (node_of id now req)) found) ≡ some (node, after)
    → IsAnswerFor req node
found-IsAnswerFor id now req table after node (some old) h e r =
    let hit = find-some (named req.name) table old e in
    let same : from_db (updated (inserted_row (node_of id now req)) old) ≡ node = cc in
    subst (IsAnswerFor req) same
      (from_db-IsAnswerFor id now req old h ((text_eq_iff old.name req.name).0 hit))
found-IsAnswerFor id now req table after node none h e r =
    elim (Bool-cases
      (any (λ (old : DbNode). text_eq old.id (inserted_row (node_of id now req)).id) table)) [
        | inl clash ↦ absurd (let none_left = rw clash at r in cc)
        | inr fresh ↦
            let left = rw fresh at r in
            let same : from_db (inserted_row (node_of id now req)) ≡ node = cc in
            subst (IsAnswerFor req) same (inserted_row-IsAnswerFor id now req h)
      ]

upsert-IsAnswerFor :
    (id : Text) (now : ℕ) (req : RegisterNodeRequest) (table : List DbNode)
    → IsInRange req
    → (node : NodeInfo) (after : List DbNode)
    → upsert_node table (node_of id now req) ≡ some (node, after)
    → IsAnswerFor req node
unfolding upsert_node node_of
upsert-IsAnswerFor id now req table h node after r =
    found-IsAnswerFor id now req table after node (find (named req.name) table) h refl r

persist-IsAnswerFor :
    (u : Casing) (model_fails : ℕ → Bool) (id : Text) (now : ℕ) (req : RegisterNodeRequest)
    (store : Store) (found : Option (NodeInfo × List DbNode))
    → ((node : NodeInfo) (after : List DbNode) → found ≡ some (node, after) → IsAnswerFor req node)
    → IsAnswerFor req (persist u model_fails req (node_of id now req) store found).0
unfolding register_memory
persist-IsAnswerFor u model_fails id now req store none h = memory-IsAnswerFor id now req
persist-IsAnswerFor u model_fails id now req store (some (node, after)) h = h node after refl

register_in-IsAnswerFor :
    (u : Casing) (node_fails : Bool) (model_fails : ℕ → Bool) (id : Text) (now : ℕ)
    (req : RegisterNodeRequest) (store : Store) (db : Option (List DbNode))
    → IsInRange req
    → IsAnswerFor req (register_in u node_fails model_fails req (node_of id now req) store db).0
unfolding register_memory
register_in-IsAnswerFor u node_fails model_fails id now req store none h =
    memory-IsAnswerFor id now req
register_in-IsAnswerFor u true model_fails id now req store (some table) h =
    persist-IsAnswerFor u model_fails id now req store none (λ node after e. absurd cc)
register_in-IsAnswerFor u false model_fails id now req store (some table) h =
    persist-IsAnswerFor u model_fails id now req store (upsert_node table (node_of id now req))
      (upsert-IsAnswerFor id now req table h)

-- When a registration is not refused, whether the database took it or not, the answer is an online
-- node with the name, address, GPU and memory of the request. Ports are u16 and the memory is u64.
pub register-IsAnswerFor :
    (u : Casing) (node_fails : Bool) (model_fails : ℕ → Bool) (id : Text) (now : ℕ)
    (req : RegisterNodeRequest) (store : Store) (node : NodeInfo)
    → IsInRange req
    → (register u node_fails model_fails id now req store).0 ≡ ok node
    → IsAnswerFor req node
unfolding register
register-IsAnswerFor u node_fails model_fails id now req store node h e =
    elim (Bool-cases (
      not (
        is_empty
          (find_violations u (map (λ (m : ModelRegistration). (m.name, m.license)) req.models))))) [
            | inl refused ↦ absurd (let left = rw refused at e in cc)
            | inr fine ↦
                let left = rw fine at e in
                let same : (register_in u node_fails model_fails req (node_of id now req) store
                      store.db).0
                    ≡ node =
                  cc in
                subst (IsAnswerFor req) same
                  (register_in-IsAnswerFor u node_fails model_fails id now req store store.db h)
          ]
