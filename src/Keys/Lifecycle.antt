-- ===== src/Keys/Lifecycle.antt =====
-- The life of a key: what creating and revoking do to the table and to who may call.
use infer_platform.Base.{
  ℕ, ◌≡◌, inl, inr, Bool, true, false, ◌||◌, List, [], ◌∷◌, ◌++◌, Option, none, some, Text,
  text_eq-false, any, any-false, Result, arith, All-mono, Distinct, Distinct-append, Distinct-map,
  Bool-cases,
}
use infer_platform.Keys.{
  ApiKey, ApiError, CreateKeyRequest, new_row, create, revoke, clashes, revoke_row,
}

-- What the two UNIQUE constraints keep.
pub record IsKeyTable (table : List ApiKey) : Type 0 where
  pub ids : Distinct (λ row. row.id) table
  pub hashes : Distinct (λ row. row.key_hash) table

revoke_row_id : (key_id : Text) (now : ℕ) (row : ApiKey) → (revoke_row key_id now row).id ≡ row.id
revoke_row_id key_id now row = ground arith

revoke_row_hash :
    (key_id : Text) (now : ℕ) (row : ApiKey) → (revoke_row key_id now row).key_hash ≡ row.key_hash
revoke_row_hash key_id now row = ground arith

append-IsKeyTable :
    (row : ApiKey) (table : List ApiKey)
    → IsKeyTable table
    → any (clashes row) table ≡ false
    → IsKeyTable (table ++ (row ∷ []))
append-IsKeyTable row table t fresh = record {
  ids =
      Distinct-append (λ r. r.id) table row t.ids
        (All-mono _ _ table (λ old h. text_eq-false old.id row.id (ground arith))
          (any-false (clashes row) table fresh));
  hashes =
      Distinct-append (λ r. r.key_hash) table row t.hashes
        (All-mono _ _ table (λ old h. text_eq-false old.key_hash row.key_hash (ground arith))
          (any-false (clashes row) table fresh));
}

-- The table that a handler leaves.
abbrev pub left_table : {R : Type 0} → Result ApiError R × Option (List ApiKey) → List ApiKey
left_table (result, none) = []
left_table (result, some table) = table

-- Whatever a request and the random key, creating keeps ids and hashes unique.
pub create-IsKeyTable :
    (hash_key : Text → Text) (fails : Bool) (random_hex key_id : Text) (now : ℕ)
    (req : CreateKeyRequest) (table : List ApiKey)
    → IsKeyTable table
    → IsKeyTable (left_table (create hash_key fails random_hex key_id now req (some table)))
unfolding create
create-IsKeyTable hash_key fails random_hex key_id now req table t =
    elim (Bool-cases (fails || any (clashes (new_row hash_key random_hex key_id now req)) table)) [
      | inl refused ↦ rw refused t
      | inr fresh ↦
          rw fresh
            (append-IsKeyTable (new_row hash_key random_hex key_id now req) table t (ground arith))
    ]

-- Revoking keeps ids and hashes unique.
pub revoke-IsKeyTable :
    (fails : Bool) (now : ℕ) (key_id : Text) (table : List ApiKey)
    → IsKeyTable table
    → IsKeyTable (left_table (revoke fails now key_id (some table)))
unfolding revoke
revoke-IsKeyTable true now key_id table t = t
revoke-IsKeyTable false now key_id table t = record {
  ids = Distinct-map (λ r. r.id) (revoke_row key_id now) table (revoke_row_id key_id now) t.ids;
  hashes =
      Distinct-map (λ r. r.key_hash) (revoke_row key_id now) table (revoke_row_hash key_id now)
        t.hashes;
}
