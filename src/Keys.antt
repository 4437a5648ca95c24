-- ===== src/Keys.antt =====
-- crates/api-gateway/src/routes/keys.rs: the handlers that create, list and revoke API keys, on the
-- table `api_keys` of migrations/001_initial.sql. The random key, the new id and the clock are
-- arguments, as is `hash_key`, which is SHA-256 in hexadecimal. `fails` tells that the one query of
-- the handler fails.
pub mod Lifecycle
mod Examples
use infer_platform.Base.{
  ℕ, ◌+◌, suc, ◌==◌, leb, Bool, true, false, not, ◌||◌, ◌&&◌, List, [], ◌∷◌, ◌++◌, map, Option,
  none, some, Text, codes, text_eq, any, length, Result, ok, err, ℤ, pos, if◌then◌else◌, sort_by,
  filter,
}

-- A row of the table.
pub record ApiKey : Type 0 where
  pub id : Text
  pub key_hash : Text
  pub owner : Text
  pub rate_limit_rpm : ℤ
  pub daily_spend_cap_cents : Option ℤ
  pub created_at : ℕ
  pub revoked_at : Option ℕ

pub record CreateKeyRequest : Type 0 where
  pub owner : Text
  pub rate_limit_rpm : ℤ
  pub daily_spend_cap_cents : Option ℤ

abbrev pub default_rpm : ℤ
default_rpm = pos 60

pub record CreateKeyResponse : Type 0 where
  pub id : Text
  pub key : Text
  pub owner : Text
  pub rate_limit_rpm : ℤ
  pub created_at : ℕ

pub record KeyListItem : Type 0 where
  pub id : Text
  pub owner : Text
  pub rate_limit_rpm : ℤ
  pub created_at : ℕ
  pub revoked_at : Option ℕ

-- 503, 500 with its message, and 404.
pub data ApiError : Type 0 where
  needs_database : ApiError
  internal_error : (message : Text) → ApiError
  not_found : ApiError

abbrev pub is_active : ApiKey → Bool
is_active row = elim row.revoked_at [ none ↦ true | some at ↦ false ]

-- `id` is the primary key and `key_hash` is unique: a second row with either is refused.
abbrev pub clashes : ApiKey → ApiKey → Bool
clashes new old = text_eq old.id new.id || text_eq old.key_hash new.key_hash

unfoldable pub new_row :
    (hash_key : Text → Text) (random_hex key_id : Text) (now : ℕ) → CreateKeyRequest → ApiKey
new_row hash_key random_hex key_id now req = record {
  id = key_id;
  key_hash = hash_key (codes "pk_" ++ random_hex);
  owner = req.owner;
  rate_limit_rpm = req.rate_limit_rpm;
  daily_spend_cap_cents = req.daily_spend_cap_cents;
  created_at = now;
  revoked_at = none;
}

unfoldable pub create :
    (hash_key : Text → Text) (fails : Bool) (random_hex key_id : Text) (now : ℕ)
    → CreateKeyRequest
    → Option (List ApiKey)
    → Result ApiError CreateKeyResponse × Option (List ApiKey)
unfolding new_row
create hash_key fails random_hex key_id now req none = (err needs_database, none)
create hash_key fails random_hex key_id now req (some table) =
    let row = new_row hash_key random_hex key_id now req in
    if fails || any (clashes row) table
    then (err (internal_error (codes "failed to create key")), some table)
    else (
      ok (record {
        id = key_id;
        key = codes "pk_" ++ random_hex;
        owner = req.owner;
        rate_limit_rpm = req.rate_limit_rpm;
        created_at = now;
      }),
      some (table ++ (row ∷ [])),
    )

abbrev list_item : ApiKey → KeyListItem
list_item row = record {
  id = row.id;
  owner = row.owner;
  rate_limit_rpm = row.rate_limit_rpm;
  created_at = row.created_at;
  revoked_at = row.revoked_at;
}

-- The newest first; the model keeps the order of the table between rows of one time.
unfoldable pub list : (fails : Bool) → Option (List ApiKey) → Result ApiError (List KeyListItem × ℕ)
list fails none = err needs_database
list fails (some table) =
    if fails
    then err (internal_error (codes "failed to list keys"))
    else (let keys = map list_item (sort_by (λ a b. leb b.created_at a.created_at) table) in
        ok (keys, length keys))

-- The WHERE clause of the update.
abbrev pub is_revoked_by : Text → ApiKey → Bool
is_revoked_by key_id row = text_eq row.id key_id && is_active row

abbrev pub revoke_row : Text → ℕ → ApiKey → ApiKey
revoke_row key_id now row =
    if is_revoked_by key_id row then record row { revoked_at = some now } else row

unfoldable pub revoke :
    (fails : Bool) (now : ℕ) (key_id : Text)
    → Option (List ApiKey)
    → Result ApiError (Unit {0}) × Option (List ApiKey)
revoke fails now key_id none = (err needs_database, none)
revoke fails now key_id (some table) =
    if fails then (err (internal_error (codes "failed to revoke key")), some table) else (
      if length (filter (is_revoked_by key_id) table) == 0 then err not_found else ok tt,
      some (map (revoke_row key_id now) table),
    )
