-- ===== src/Keys/Examples.antt =====
-- Keys on a concrete table.
use infer_platform.Base.{
  ℕ, ◌≡◌, refl, false, List, [], ◌∷◌, map, none, some, Text, codes, pos, Result, ok, err, text_eq,
  sort_by,
}
use infer_platform.Keys.{
  ApiKey, ApiError, CreateKeyRequest, KeyListItem, new_row, create, list, revoke, not_found,
  default_rpm,
}
use infer_platform.Keys.Lifecycle.{IsKeyTable}

keys : Unit {0}
unfolding new_row create list revoke text_eq sort_by
keys = tt

-- A stand-in for SHA-256.
abbrev hash : Text → Text
hash key = 35 ∷ key

abbrev request : CreateKeyRequest
request = record { owner = codes "o"; rate_limit_rpm = default_rpm; daily_spend_cap_cents = none }

abbrev old : ApiKey
old = record {
  id = codes "1";
  key_hash = codes "#pk_aa";
  owner = codes "o";
  rate_limit_rpm = pos 60;
  daily_spend_cap_cents = none;
  created_at = 3;
  revoked_at = none;
}

table-IsKeyTable : IsKeyTable (old ∷ [])
table-IsKeyTable = record { ids = (tt, tt); hashes = (tt, tt) }

create_adds :
    (create hash false (codes "bb") (codes "2") 7 request (some (old ∷ []))).1
    ≡ some (old ∷ new_row hash (codes "bb") (codes "2") 7 request ∷ [])
unfolding keys
create_adds = refl

revoke_twice :
    (revoke false 9 (codes "1") (revoke false 8 (codes "1") (some (old ∷ []))).1).0 ≡ err not_found
unfolding keys
revoke_twice = refl

abbrev owners : Result ApiError (List KeyListItem × ℕ) → List ℕ
owners (ok (items, total)) = map (λ (i : KeyListItem). i.created_at) items
owners (err e) = []

list_newest_first :
    owners (list false (some (old ∷ new_row hash (codes "bb") (codes "2") 7 request ∷ [])))
    ≡ 7 ∷ 3 ∷ []
unfolding keys
list_newest_first = refl
