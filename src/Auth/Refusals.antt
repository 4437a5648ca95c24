-- ===== src/Auth/Refusals.antt =====
-- Who passes the middleware, and how creating and revoking a key changes that.
use infer_platform.Base.{
  ℕ, ◌≡◌, ◌≢◌, inl, inr, refl, sym, Bool, true, false, List, [], ◌∷◌, ◌++◌, map, Option, none, some,
  Text, codes, text_eq, text_eq_iff, text_eq_refl, any, any-false, find, ok, arith, All, All-mono,
  All-Member, Distinct, Member, here, there, Bool-cases,
}
use infer_platform.Keys.{
  ApiKey, CreateKeyRequest, CreateKeyResponse, new_row, create, revoke, clashes, revoke_row,
}
use infer_platform.Keys.Lifecycle.{IsKeyTable, left_table}
use infer_platform.Auth.{
  ValidatedKey, Redis, KeyStore, is_usable, validate_from_db, validate, unauthorized, passed,
  invalid_key, require_api_key,
}

unusable_by_hash :
    (hash : Text) (key_id : Text) (now : ℕ) (row : ApiKey)
    → hash ≢ row.key_hash
    → is_usable hash (revoke_row key_id now row) ≡ false
unusable_by_hash hash key_id now row differs = elim (Bool-cases (text_eq row.key_hash hash)) [
  | inl same ↦ absurd (differs (sym ((text_eq_iff row.key_hash hash).0 same)))
  | inr e ↦ ground (arith, e)
]

unusable_by_time :
    (row : ApiKey) (now : ℕ) → is_usable row.key_hash (revoke_row row.id now row) ≡ false
unusable_by_time row now = ground (arith, text_eq_refl row.id, text_eq_refl row.key_hash)

none_usable :
    (hash : Text) (key_id : Text) (now : ℕ) (table : List ApiKey)
    → All (λ row. hash ≢ row.key_hash) table
    → find (is_usable hash) (map (revoke_row key_id now) table) ≡ none
none_usable hash key_id now [] a = refl
none_usable hash key_id now (row ∷ table) a =
    rw (unusable_by_hash hash key_id now row a.0) (none_usable hash key_id now table a.1)

find_revoked :
    (row : ApiKey) (now : ℕ) (table : List ApiKey)
    → Member row table
    → Distinct (λ r. r.key_hash) table
    → find (is_usable row.key_hash) (map (revoke_row row.id now) table) ≡ none
find_revoked row now _ (here xs) d =
    rw (unusable_by_time row now) (none_usable row.key_hash row.id now xs d.0)
find_revoked row now _ (there y xs m) d =
    rw
      (unusable_by_hash row.key_hash row.id now y
        (λ e. All-Member (λ z. y.key_hash ≢ z.key_hash) row xs m d.0 (sym e)))
      (find_revoked row now xs m d.1)

find-append_fresh :
    (p : ApiKey → Bool) (table : List ApiKey) (row : ApiKey)
    → All (λ r. p r ≡ false) table
    → p row ≡ true
    → find p (table ++ (row ∷ [])) ≡ some row
find-append_fresh p [] row a h = rw h refl
find-append_fresh p (r ∷ table) row a h = rw a.0 (find-append_fresh p table row a.1 h)

-- The store of a gateway with a database that answers.
abbrev pub with_db : List ApiKey → KeyStore
with_db table = record { db = some table; query_fails = false; api_keys = [] }

abbrev pub bearer : Text → Option Text
bearer key = some (codes "Bearer " ++ key)

response_of : (random_hex key_id : Text) (time : ℕ) → CreateKeyRequest → CreateKeyResponse
response_of random_hex key_id time req = record {
  id = key_id;
  key = codes "pk_" ++ random_hex;
  owner = req.owner;
  rate_limit_rpm = req.rate_limit_rpm;
  created_at = time;
}

create_fresh :
    (hash_key : Text → Text) (random_hex key_id : Text) (time : ℕ) (req : CreateKeyRequest)
    (table : List ApiKey)
    → any (clashes (new_row hash_key random_hex key_id time req)) table ≡ false
    → create hash_key false random_hex key_id time req (some table) ≡ (
      ok (response_of random_hex key_id time req),
      some (table ++ (new_row hash_key random_hex key_id time req ∷ [])),
    )
unfolding create response_of
create_fresh hash_key random_hex key_id time req table fresh = rw fresh refl

create_ok :
    (hash_key : Text → Text) (random_hex key_id : Text) (time : ℕ) (req : CreateKeyRequest)
    (table : List ApiKey) (made : CreateKeyResponse)
    → (create hash_key false random_hex key_id time req (some table)).0 ≡ ok made
    → (any (clashes (new_row hash_key random_hex key_id time req)) table ≡ false)
      × (made ≡ response_of random_hex key_id time req)
unfolding create response_of
create_ok hash_key random_hex key_id time req table made h =
    elim (Bool-cases (any (clashes (new_row hash_key random_hex key_id time req)) table)) [
      | inl clash ↦ absurd (ground arith)
      | inr fresh ↦ (
        fresh,
        let same : ok (response_of random_hex key_id time req) ≡ ok made = rw fresh at h in cc,
      )
    ]

finds_new :
    (hash_key : Text → Text) (random_hex key_id : Text) (time : ℕ) (req : CreateKeyRequest)
    (table : List ApiKey)
    → any (clashes (new_row hash_key random_hex key_id time req)) table ≡ false
    → find
        (is_usable (hash_key (codes "pk_" ++ random_hex)))
        (table ++ (new_row hash_key random_hex key_id time req ∷ []))
      ≡ some (new_row hash_key random_hex key_id time req)
unfolding new_row
finds_new hash_key random_hex key_id time req table fresh =
    let new = new_row hash_key random_hex key_id time req in
    find-append_fresh (is_usable new.key_hash) table new
      (All-mono (λ r. clashes new r ≡ false) _ table (λ r h. ground (arith, h))
        (any-false (clashes new) table fresh))
      (rw (text_eq_refl new.key_hash) refl)

module _ {S E R : Type 0} (hash_key : Text → Text) (redis : Redis S E)
    (next : ValidatedKey → R) where
  -- After the query that revokes a row has succeeded, a request with the key of that row, looked up
  -- in a database that answers, is refused with 401, and the limiter does not count it.
  pub revoke_refuses :
      (now time : ℕ) (table : List ApiKey) (row : ApiKey) (key : Text) (limiter : Option S)
      → IsKeyTable table
      → Member row table
      → hash_key key ≡ row.key_hash
      → require_api_key hash_key redis next now
          (with_db (left_table (revoke false time row.id (some table))))
          limiter
          (bearer key)
        ≡ (unauthorized invalid_key, limiter)
  unfolding require_api_key revoke validate validate_from_db
  revoke_refuses now time table row key limiter t m h =
      rw (h, find_revoked row time table m t.hashes) refl

  -- A key that was just created is accepted with the id and the limit of its answer; without a
  -- limiter the request passes with them.
  pub create_admits :
      (now time : ℕ) (table : List ApiKey) (random_hex key_id : Text) (req : CreateKeyRequest)
      (made : CreateKeyResponse)
      → (create hash_key false random_hex key_id time req (some table)).0 ≡ ok made
      → require_api_key hash_key redis next now
          (with_db (left_table (create hash_key false random_hex key_id time req (some table))))
          none
          (bearer made.key)
        ≡ (passed (next (record { key_id = made.id; rate_limit_rpm = made.rate_limit_rpm })), none)
  unfolding require_api_key validate validate_from_db response_of new_row
  create_admits now time table random_hex key_id req made h =
      let (fresh, same) = create_ok hash_key random_hex key_id time req table made h in
      rw
        (
          create_fresh hash_key random_hex key_id time req table fresh,
          same,
          finds_new hash_key random_hex key_id time req table fresh,
        )
        refl
