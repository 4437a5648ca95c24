-- ===== src/Auth/Admission.antt =====
-- Which requests the middleware lets through.
use infer_platform.Base.{
  ℕ, ◌≡◌, ◌≢◌, refl, ap, Bool, true, false, ◌++◌, Option, none, some, Text, codes,
  strip_prefix-eq_some, Result, ok, err,
}
use infer_platform.Auth.{
  ValidatedKey, Redis, KeyStore, DbError, passed, extract_bearer, validate, check_and_increment,
  require_api_key, check_bearer, check_key, check_limit, limited,
}

module _ {S E R : Type 0} (hash_key : Text → Text) (redis : Redis S E)
    (next : ValidatedKey → R) where
  -- The limiter, where there is one, does not say no.
  abbrev pub IsWithinLimit : (now : ℕ) → Option S → ValidatedKey → Type 0
  IsWithinLimit now none key = Unit
  IsWithinLimit now (some s) key =
      (check_and_increment redis now s key.key_id key.rate_limit_rpm).0 ≢ ok false

  -- The header carries a key that the store knows, and the limiter does not object.
  pub record IsAdmitted (now : ℕ) (store : KeyStore) (limiter : Option S) (header : Option Text)
      (answer : R) : Type 0 where
    pub raw : Text
    pub key : ValidatedKey
    pub carried : header ≡ some (codes "Bearer " ++ raw)
    pub known : validate hash_key store raw ≡ ok (some key)
    pub within_limit : IsWithinLimit now limiter key
    pub answered : answer ≡ next key

  limited_passed :
      (key : ValidatedKey) (result : Result E Bool) (s : S) (answer : R)
      → (limited hash_key redis next key (result, s)).0 ≡ passed answer
      → (answer ≡ next key) × (result ≢ ok false)
  limited_passed key (ok true) s answer h = (cc, λ e. cc)
  limited_passed key (ok false) s answer h = absurd cc
  limited_passed key (err e) s answer h = (cc, λ e2. cc)

  check_limit_passed :
      (now : ℕ) (limiter : Option S) (key : ValidatedKey) (answer : R)
      → (check_limit hash_key redis next now limiter key).0 ≡ passed answer
      → (answer ≡ next key) × IsWithinLimit now limiter key
  check_limit_passed now none key answer h = (cc, tt)
  check_limit_passed now (some s) key answer h =
      let (result, after) = check_and_increment redis now s key.key_id key.rate_limit_rpm in
      limited_passed key result after answer h

  check_key_passed :
      (now : ℕ) (limiter : Option S) (found : Result DbError (Option ValidatedKey)) (answer : R)
      → (check_key hash_key redis next now limiter found).0 ≡ passed answer
      → (key : ValidatedKey) × (found ≡ ok (some key))
        × (answer ≡ next key)
        × IsWithinLimit now limiter key
  check_key_passed now limiter (ok (some key)) answer h =
      let (answered, within) = check_limit_passed now limiter key answer h in
      (key, refl, answered, within)
  check_key_passed now limiter (ok none) answer h = absurd cc
  check_key_passed now limiter (err e) answer h = absurd cc

  bearer_carried :
      (header : Option Text) (raw : Text)
      → extract_bearer header ≡ some raw
      → header ≡ some (codes "Bearer " ++ raw)
  unfolding extract_bearer
  bearer_carried none raw h = cc
  bearer_carried (some text) raw h = ap some (strip_prefix-eq_some text (codes "Bearer ") raw h)

  check_bearer_passed :
      (now : ℕ) (store : KeyStore) (limiter : Option S) (header found : Option Text) (answer : R)
      → extract_bearer header ≡ found
      → (check_bearer hash_key redis next now store limiter found).0 ≡ passed answer
      → IsAdmitted now store limiter header answer
  check_bearer_passed now store limiter header none answer e h = absurd cc
  check_bearer_passed now store limiter header (some raw) answer e h =
      let (key, known, answered, within) =
        check_key_passed now limiter (validate hash_key store raw) answer h in
      record {
        raw = raw;
        key = key;
        carried = bearer_carried header raw e;
        known = known;
        within_limit = within;
        answered = answered;
      }

  -- An answer of the handler behind the middleware is that for a key which the header carries after
  -- `Bearer `, which the store knows, and which the limiter, if there is one, does not refuse.
  pub require_api_key-IsAdmitted :
      (now : ℕ) (store : KeyStore) (limiter : Option S) (header : Option Text) (answer : R)
      → (require_api_key hash_key redis next now store limiter header).0 ≡ passed answer
      → IsAdmitted now store limiter header answer
  unfolding require_api_key
  require_api_key-IsAdmitted now store limiter header answer h =
      check_bearer_passed now store limiter header (extract_bearer header) answer refl h
