-- ===== src/Auth.antt =====
-- crates/api-gateway/src/auth.rs, the middleware in front of the API, and the rate limiter of
-- cache.rs. Redis is a parameter with the two commands that the limiter uses. A header that is
-- missing or is no visible text is `none`.
pub mod Window
pub mod Admission
pub mod Refusals
mod Examples
use infer_platform.Base.{
  ℕ, ◌/◌, Bool, true, false, not, ◌&&◌, List, [], ◌∷◌, ◌++◌, Option, none, some, Text, codes,
  text_eq, strip_prefix, any, find, decimal, Result, ok, err, ℤ, pos, leb_int, ◌==◌, if◌then◌else◌,
}
use infer_platform.Keys.{ApiKey, is_active}

pub record ValidatedKey : Type 0 where
  pub key_id : Text
  pub rate_limit_rpm : ℤ

unfoldable pub extract_bearer : Option Text → Option Text
unfolding strip_prefix
extract_bearer none = none
extract_bearer (some header) = strip_prefix header (codes "Bearer ")

-- `INCR`, which answers the new count, and `EXPIRE`, on a store `S`.
pub record Redis (S E : Type 0) : Type 0 where
  pub incr : S → (key : Text) → Result E ℕ × S
  pub expire : S → (key : Text) → (seconds : ℕ) → Result E (Unit {0}) × S

abbrev pub rate_key : Text → ℕ → Text
rate_key key_id minute = codes "rate:" ++ (key_id ++ (codes ":" ++ decimal minute))

module _ {S E : Type 0} (redis : Redis S E) where
  abbrev pub expired : ℕ → ℤ → Result E (Unit {0}) × S → Result E Bool × S
  expired count rpm (err e, s) = (err e, s)
  expired count rpm (ok _, s) = (ok (leb_int count rpm), s)

  abbrev pub counted : Text → ℤ → Result E ℕ × S → Result E Bool × S
  counted redis_key rpm (err e, s) = (err e, s)
  counted redis_key rpm (ok count, s) =
      if count == 1
      then expired count rpm (redis.expire s redis_key 120)
      else (ok (leb_int count rpm), s)

  -- `now` is in seconds since 1970.
  unfoldable pub check_and_increment : (now : ℕ) → S → Text → ℤ → Result E Bool × S
  check_and_increment now s key_id rpm =
      let redis_key = rate_key key_id (now / 60) in counted redis_key rpm (redis.incr s redis_key)

-- What the middleware reads: the database with its table or the keys of the environment, and
-- whether the query fails.
pub record KeyStore : Type 0 where
  pub db : Option (List ApiKey)
  pub query_fails : Bool
  pub api_keys : List Text

pub data DbError : Type 0 where
  query_failed : DbError

abbrev pub to_validated : Option ApiKey → Option ValidatedKey
to_validated none = none
to_validated (some row) = some (record { key_id = row.id; rate_limit_rpm = row.rate_limit_rpm })

abbrev pub is_usable : Text → ApiKey → Bool
is_usable hash row = text_eq row.key_hash hash && is_active row

unfoldable pub validate_from_db :
    (hash_key : Text → Text) (fails : Bool)
    → List ApiKey
    → Text
    → Result DbError (Option ValidatedKey)
validate_from_db hash_key fails table key =
    if fails then err query_failed else ok (to_validated (find (is_usable (hash_key key)) table))

unfoldable pub validate_from_memory : List Text → Text → Result DbError (Option ValidatedKey)
validate_from_memory api_keys key =
    if any (text_eq key) api_keys
    then ok (some (record { key_id = key; rate_limit_rpm = pos 60 }))
    else ok none

unfoldable pub validate :
    (hash_key : Text → Text) → KeyStore → Text → Result DbError (Option ValidatedKey)
unfolding validate_from_db validate_from_memory
validate hash_key store key = elim store.db [
  | none ↦ validate_from_memory store.api_keys key
  | some table ↦ validate_from_db hash_key store.query_fails table key
]

-- 401 with its message, 500, 429, and the answer of the handler behind.
pub data Response (R : Type 0) : Type 0 where
  unauthorized : (message : Text) → Response R
  server_error : Response R
  too_many_requests : Response R
  passed : R → Response R

abbrev pub missing_header : Text
missing_header = codes "Missing or invalid Authorization header"

abbrev pub invalid_key : Text
invalid_key = codes "Invalid API key"

module _ {S E R : Type 0} (hash_key : Text → Text) (redis : Redis S E)
    (next : ValidatedKey → R) where
  -- A limiter that fails lets the request through.
  abbrev pub limited : ValidatedKey → Result E Bool × S → Response R × Option S
  limited key (ok true, s) = (passed (next key), some s)
  limited key (ok false, s) = (too_many_requests, some s)
  limited key (err e, s) = (passed (next key), some s)

  abbrev pub check_limit : (now : ℕ) → Option S → ValidatedKey → Response R × Option S
  check_limit now none key = (passed (next key), none)
  check_limit now (some s) key =
      limited key (check_and_increment redis now s key.key_id key.rate_limit_rpm)

  abbrev pub check_key :
      (now : ℕ) → Option S → Result DbError (Option ValidatedKey) → Response R × Option S
  check_key now limiter (ok (some key)) = check_limit now limiter key
  check_key now limiter (ok none) = (unauthorized invalid_key, limiter)
  check_key now limiter (err e) = (server_error, limiter)

  abbrev pub check_bearer :
      (now : ℕ) → KeyStore → Option S → (key : Option Text) → Response R × Option S
  check_bearer now store limiter none = (unauthorized missing_header, limiter)
  check_bearer now store limiter (some key) = check_key now limiter (validate hash_key store key)

  -- `limiter` is the store behind the rate limiter, `none` where Redis is not configured.
  unfoldable pub require_api_key :
      (now : ℕ) → KeyStore → (limiter : Option S) → (header : Option Text) → Response R × Option S
  unfolding extract_bearer
  require_api_key now store limiter header = check_bearer now store limiter (extract_bearer header)

unfoldable pub is_valid_internal_key : (internal_key key : Text) → Bool
is_valid_internal_key internal_key key = text_eq key internal_key

unfoldable pub require_internal_key :
    {R : Type 0} (internal_key : Text) (next : R) (header : Option Text) → Response R
unfolding extract_bearer is_valid_internal_key
require_internal_key internal_key next header = elim (extract_bearer header) [
  | none ↦ unauthorized (codes "Invalid internal key")
  | some key ↦
      if is_valid_internal_key internal_key key
      then passed next
      else unauthorized (codes "Invalid internal key")
]
