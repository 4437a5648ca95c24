-- ===== src/Register/Names.antt =====
-- No two nodes in memory have the same name.
use infer_platform.Base.{
  ℕ, ◌≢◌, Bool, List, [], ◌∷◌, Option, none, some, Text, Casing, text_eq, text_eq_iff,
  text_eq-false, if◌then◌else◌, All, Distinct, Bool-cases, inl, inr, is_empty, not, map,
}
use mathlib.Core.Path.{subst}
use infer_platform.Nodes.{NodeInfo, RegisterNodeRequest, ModelRegistration}
use infer_platform.License.{find_violations}
use infer_platform.Register.{
  DbNode, Store, put_node, register_memory, persist, register_in, register, node_of, upsert_node,
}

abbrev pub IsNamed : List NodeInfo → Type 0
IsNamed = Distinct (λ node. node.name)

put_keeps_other :
    (name : Text) (node : NodeInfo) (nodes : List NodeInfo)
    → name ≢ node.name
    → All (λ y. name ≢ y.name) nodes
    → All (λ y. name ≢ y.name) (put_node node nodes)
unfolding put_node
put_keeps_other name node [] other a = (other, tt)
put_keeps_other name node (old ∷ nodes) other a = elim (Bool-cases (text_eq old.name node.name)) [
  | inl same ↦ rw same (other, a.1)
  | inr differs ↦ rw differs (a.0, put_keeps_other name node nodes other a.1)
]

put_node-IsNamed :
    (node : NodeInfo) (nodes : List NodeInfo) → IsNamed nodes → IsNamed (put_node node nodes)
unfolding put_node
put_node-IsNamed node [] d = (tt, tt)
put_node-IsNamed node (old ∷ nodes) d = elim (Bool-cases (text_eq old.name node.name)) [
  | inl same ↦ rw same (
    subst (λ name. All (λ (y : NodeInfo). name ≢ y.name) nodes)
        ((text_eq_iff old.name node.name).0 same) d.0,
    d.1,
  )
  | inr differs ↦ rw differs (
    put_keeps_other old.name node nodes (text_eq-false old.name node.name differs) d.0,
    put_node-IsNamed node nodes d.1,
  )
]

persist-IsNamed :
    (u : Casing) (model_fails : ℕ → Bool) (req : RegisterNodeRequest) (node : NodeInfo)
    (store : Store) (found : Option (NodeInfo × List DbNode))
    → IsNamed store.nodes
    → IsNamed (persist u model_fails req node store found).1.nodes
unfolding register_memory
persist-IsNamed u model_fails req node store none d = put_node-IsNamed node store.nodes d
persist-IsNamed u model_fails req node store (some (n, table)) d = d

register_in-IsNamed :
    (u : Casing) (node_fails : Bool) (model_fails : ℕ → Bool) (req : RegisterNodeRequest)
    (node : NodeInfo) (store : Store) (db : Option (List DbNode))
    → IsNamed store.nodes
    → IsNamed (register_in u node_fails model_fails req node store db).1.nodes
unfolding register_memory
register_in-IsNamed u node_fails model_fails req node store none d =
    put_node-IsNamed node store.nodes d
register_in-IsNamed u node_fails model_fails req node store (some table) d =
    persist-IsNamed u model_fails req node store
      (if node_fails then none else upsert_node table node) d

-- Whatever a registration ends in, the nodes in memory keep names that no two of them share.
pub register-IsNamed :
    (u : Casing) (node_fails : Bool) (model_fails : ℕ → Bool) (id : Text) (now : ℕ)
    (req : RegisterNodeRequest) (store : Store)
    → IsNamed store.nodes
    → IsNamed (register u node_fails model_fails id now req store).1.nodes
unfolding register
register-IsNamed u node_fails model_fails id now req store d =
    elim (Bool-cases (
      not (
        is_empty
          (find_violations u (map (λ (m : ModelRegistration). (m.name, m.license)) req.models))))) [
            | inl refused ↦ rw refused d
            | inr fine ↦ rw fine (
                register_in-IsNamed u node_fails model_fails req (node_of id now req) store store.db
                  d)
          ]
