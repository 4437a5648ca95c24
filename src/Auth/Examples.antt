-- ===== src/Auth/Examples.antt =====
-- The middleware on a concrete store, with a Redis that keeps its counts in a function.
use infer_platform.Base.{
  ℕ, suc, ◌≡◌, refl, false, [], ◌∷◌, none, some, Text, codes, pos, ok, text_eq, if◌then◌else◌,
  strip_prefix, decimal, here,
}
use infer_platform.Keys.{ApiKey, CreateKeyRequest, new_row, create, revoke}
use infer_platform.Keys.Lifecycle.{left_table}
use infer_platform.Auth.{
  ValidatedKey, Redis, KeyStore, passed, unauthorized, invalid_key, extract_bearer, validate,
  validate_from_db, validate_from_memory, check_and_increment, require_api_key,
  require_internal_key, is_valid_internal_key,
}
use infer_platform.Auth.Window.{allowed}
use infer_platform.Auth.Refusals.{with_db, bearer, revoke_refuses, create_admits}
use infer_platform.Auth.Admission.{IsAdmitted, require_api_key-IsAdmitted}

auth : Unit {0}
unfolding new_row create revoke text_eq extract_bearer strip_prefix validate validate_from_db
    validate_from_memory check_and_increment require_api_key require_internal_key
    is_valid_internal_key decimal allowed
auth = tt

abbrev Counts : Type 0
Counts = Text → ℕ

abbrev set : Counts → Text → ℕ → Counts
set counts key n other = if text_eq other key then n else counts other

abbrev redis : Redis Counts Text
redis = record {
  incr = λ s key. (ok (suc (s key)), set s key (suc (s key)));
  expire = λ s key seconds. (ok tt, s);
}

abbrev count : Counts → Text → ℕ
count s key = s key

abbrev idle : Counts
idle key = 0

abbrev hash : Text → Text
hash key = 35 ∷ key

abbrev next : ValidatedKey → Text
next key = key.key_id

abbrev row : ApiKey
row = record {
  id = codes "1";
  key_hash = codes "#pk_aa";
  owner = codes "o";
  rate_limit_rpm = pos 2;
  daily_spend_cap_cents = none;
  created_at = 3;
  revoked_at = none;
}

abbrev request : CreateKeyRequest
request = record { owner = codes "o"; rate_limit_rpm = pos 5; daily_spend_cap_cents = none }

abbrev memory : KeyStore
memory = record { db = none; query_fails = false; api_keys = codes "dev" ∷ [] }

two_of_three : allowed redis count (61 ∷ 62 ∷ 119 ∷ []) idle (codes "1") (pos 2) ≡ 2
unfolding auth
two_of_three = refl

internal_key_checked :
    require_internal_key {R = ℕ} (codes "secret") 7 (bearer (codes "secreT"))
    ≡ unauthorized (codes "Invalid internal key")
unfolding auth
internal_key_checked = refl

dev_key_passes :
    (require_api_key hash redis next 61 memory (some idle) (bearer (codes "dev"))).0
    ≡ passed (codes "dev")
unfolding auth
dev_key_passes = refl

revoke_refuses_example :
    require_api_key hash redis next 61
      (with_db (left_table (revoke false 9 (codes "1") (some (row ∷ [])))))
      (some idle)
      (bearer (codes "pk_aa"))
    ≡ (unauthorized invalid_key, some idle)
revoke_refuses_example =
    revoke_refuses hash redis next 61 9 (row ∷ []) row (codes "pk_aa") (some idle)
      (record { ids = (tt, tt); hashes = (tt, tt) }) (here []) refl

create_admits_example :
    require_api_key hash redis next 61
      (with_db
        (left_table (create hash false (codes "bb") (codes "2") 7 request (some (row ∷ [])))))
      none
      (bearer (codes "pk_bb"))
    ≡ (passed (codes "2"), none)
unfolding auth
create_admits_example =
    create_admits hash redis next 61 7 (row ∷ []) (codes "bb") (codes "2") request
      (record {
        id = codes "2";
        key = codes "pk_bb";
        owner = codes "o";
        rate_limit_rpm = pos 5;
        created_at = 7;
      })
      refl

require_api_key-IsAdmitted_example :
    IsAdmitted hash redis next 61 memory (some idle) (bearer (codes "dev")) (codes "dev")
require_api_key-IsAdmitted_example =
    require_api_key-IsAdmitted hash redis next 61 memory (some idle) (bearer (codes "dev"))
      (codes "dev") dev_key_passes
