-- ===== src/Register/Examples.antt =====
-- Registrations of one node in memory and in the database.
use infer_platform.Base.{
  ℕ, ◌≡◌, refl, Bool, false, [], ◌∷◌, none, some, codes, ascii_casing, ascii_lower, text_eq, trim,
  trim_start, is_whitespace, ok, arith, sort_by,
}
use infer_platform.Nodes.{NodeInfo, RegisterNodeRequest}
use infer_platform.License.{approved_licenses, normalize, is_approved, find_violations}
use infer_platform.Register.{
  Store, as_i64, as_u64, as_u16, status_of, from_db, inserted_row, updated, upsert_node,
  upsert_model, upsert_node_models, node_of, put_node, register_memory, register, list_nodes_db,
  list_nodes,
}
use infer_platform.Register.Names.{IsNamed, register-IsNamed}
use infer_platform.Register.Casts.{IsAnswerFor, register-IsAnswerFor}

registration : Unit {0}
unfolding ascii_lower text_eq trim trim_start is_whitespace sort_by approved_licenses normalize
    is_approved find_violations as_i64 as_u64 as_u16 status_of from_db inserted_row updated
    upsert_node upsert_model upsert_node_models node_of put_node register_memory register
    list_nodes_db list_nodes
registration = tt

abbrev request : RegisterNodeRequest
request = record {
  name = codes "n";
  host = codes "h";
  port = 11434;
  agent_port = 8181;
  gpu_name = codes "g";
  vram_mb = 8192;
  models = record { name = codes "m"; license = codes " MIT" } ∷ [];
}

abbrev empty : Store
empty = record { db = none; node_models = []; nodes = [] }

abbrev empty_db : Store
empty_db = record { db = some []; node_models = []; nodes = [] }

abbrev no_failure : ℕ → Bool
no_failure i = false

abbrev made : NodeInfo
made = node_of (codes "1") 5 request

memory_answer : (register ascii_casing false no_failure (codes "1") 5 request empty).0 ≡ ok made
unfolding registration
memory_answer = refl

db_answer : (register ascii_casing false no_failure (codes "1") 5 request empty_db).0 ≡ ok made
unfolding registration
db_answer = refl

-- The second registration keeps the first id.
listed_once :
    list_nodes false
      (register ascii_casing false no_failure
        (codes "2")
        5
        request
        (register ascii_casing false no_failure (codes "1") 5 request empty_db).1).1
    ≡ (made ∷ [], 1)
unfolding registration
listed_once = refl

register-IsNamed_example :
    IsNamed (register ascii_casing false no_failure (codes "1") 5 request empty).1.nodes
register-IsNamed_example =
    register-IsNamed ascii_casing false no_failure (codes "1") 5 request empty tt

register-IsAnswerFor_example : IsAnswerFor request made
register-IsAnswerFor_example =
    register-IsAnswerFor ascii_casing false no_failure (codes "1") 5 request empty_db made
      (record { port = omega arith; agent_port = omega arith; vram_mb = omega arith }) db_answer
