-- ===== src/Settings/Started.antt =====
-- What is known of a gateway that has started.
use infer_platform.Base.{
  ◌≡◌, refl, ap, ◌∙◌, Bool, true, false, List, [], ◌∷◌, All, All-filter_self, map, any, is_empty,
  trim, none, some, Text, codes, text_eq, Result, ok, err, pos, arith, Bool-cases, inl, inr, ℕ,
  ◌++◌, Option, All-mono, All-members, Member, Member-any, strip_prefix,
}
use mathlib.Core.Path.{subst}
use infer_platform.Auth.{
  KeyStore, Redis, ValidatedKey, validate, validate_from_memory, require_api_key, check_limit,
  extract_bearer, unauthorized, invalid_key,
}
use infer_platform.Billing.Payouts.{Rates}
use infer_platform.Billing.Webhook.{split, comma}
use infer_platform.Pages.{Env, or_else}
use infer_platform.Settings.{
  Connections, Settings, StartError, is_given, parse_keys, settings_of, finish, with_db, from_env,
  connect_db, connect_redis,
}

-- The store of a gateway without a database.
abbrev pub store_of : {F : Type 0} → Settings F → KeyStore
store_of s = record { db = none; query_fails = false; api_keys = s.api_keys }

module _ {S E R : Type 0} (hash_key : Text → Text) (redis : Redis S E) (next : ValidatedKey → R)
    (now : ℕ) (limiter : Option S) where
  -- A request whose header reads `Bearer ` and this key gets to the limiter, with the key as its id.
  abbrev pub IsAdmitted : KeyStore → (key : Text) → Type 0
  IsAdmitted store key =
      require_api_key hash_key redis next now store limiter (some (codes "Bearer " ++ key))
      ≡ check_limit hash_key redis next now limiter
          (record { key_id = key; rate_limit_rpm = pos 60 })

  -- There is a key, each is admitted and none is empty, and the empty key gets 401.
  pub record IsGuarded (store : KeyStore) : Type 0 where
    pub some_key : is_empty store.api_keys ≡ false
    pub given : All (λ key. is_empty key ≡ false) store.api_keys
    pub admitted : All (IsAdmitted store) store.api_keys
    pub empty_refused :
        require_api_key hash_key redis next now store limiter (some (codes "Bearer "))
        ≡ (unauthorized invalid_key, limiter)

not_in_given :
    (keys : List Text) → All (λ k. is_given k ≡ true) keys → any (text_eq []) keys ≡ false
unfolding text_eq
not_in_given [] a = refl
not_in_given ([] ∷ keys) a = absurd (ground (arith, a.0))
not_in_given ((c ∷ k) ∷ keys) a = not_in_given keys a.1

abbrev from_memory : List Text → KeyStore
from_memory keys = record { db = none; query_fails = false; api_keys = keys }

module _ {S E R : Type 0} (hash_key : Text → Text) (redis : Redis S E) (next : ValidatedKey → R)
    (now : ℕ) (limiter : Option S) where
  listed-IsAdmitted :
      (key : Text) (keys : List Text)
      → Member key keys
      → IsAdmitted hash_key redis next now limiter (from_memory keys) key
  unfolding require_api_key validate validate_from_memory extract_bearer strip_prefix
  listed-IsAdmitted key keys m = rw (Member-any key keys m) refl

  given-IsGuarded :
      (keys : List Text)
      → All (λ k. is_given k ≡ true) keys
      → is_empty keys ≡ false
      → IsGuarded hash_key redis next now limiter (from_memory keys)
  unfolding require_api_key validate validate_from_memory extract_bearer strip_prefix
  given-IsGuarded keys a e = record {
    some_key = e;
    given =
        All-mono (λ k. is_given k ≡ true) (λ k. is_empty k ≡ false) keys (λ k h. ground (arith, h))
          a;
    admitted =
        All-mono (λ k. Member k keys)
          (IsAdmitted hash_key redis next now limiter (from_memory keys)) keys
          (λ k m. listed-IsAdmitted k keys m) (All-members keys);
    empty_refused = rw (not_in_given keys a) refl;
  }

module _ {F S E R : Type 0} (env : Env F) (default_rates : Rates F) (hash_key : Text → Text)
    (redis : Redis S E) (next : ValidatedKey → R) (now : ℕ) (limiter : Option S) where
  finish-IsGuarded :
      (keys : List Text) (has_db has_redis : Bool) (s : Settings F)
      → All (λ k. is_given k ≡ true) keys
      → finish env default_rates keys has_db has_redis ≡ ok s
      → s.has_db ≡ false
      → IsGuarded hash_key redis next now limiter (store_of s)
  unfolding settings_of
  finish-IsGuarded keys true has_redis s a e off =
      let same : settings_of env default_rates keys true has_redis ≡ s = cc e in
      let clash : true ≡ false = ap (λ (t : Settings F). t.has_db) same ∙ off in
      absurd (ground (arith, clash))
  finish-IsGuarded keys false has_redis s a e off = elim (Bool-cases (is_empty keys)) [
    | inl nothing ↦ absurd (let left = rw nothing at e in ground (arith, left))
    | inr something ↦
        let found = rw something at e in
        let same : settings_of env default_rates keys false has_redis ≡ s = cc found in
        subst (λ t. IsGuarded hash_key redis next now limiter (store_of t)) same
          (given-IsGuarded hash_key redis next now limiter keys a something)
  ]

  with_db-IsGuarded :
      (keys : List Text) (cache db : Result StartError Bool) (s : Settings F)
      → All (λ k. is_given k ≡ true) keys
      → with_db env default_rates keys cache db ≡ ok s
      → s.has_db ≡ false
      → IsGuarded hash_key redis next now limiter (store_of s)
  with_db-IsGuarded keys redis (err x) s a e off = absurd (ground (arith, e))
  with_db-IsGuarded keys (err x) (ok has_db) s a e off = absurd (ground (arith, e))
  with_db-IsGuarded keys (ok has_redis) (ok has_db) s a e off =
      finish-IsGuarded keys has_db has_redis s a e off

-- A gateway that has started without a database has a key, whatever the environment. Each of its
-- keys is not empty, and a request whose Authorization header is read as `Bearer ` and the key gets
-- through the middleware to the rate limiter; with the empty key it gets 401.
pub from_env-IsGuarded :
    {F S E R : Type 0} (env : Env F) (default_rates : Rates F) (net : Connections)
    (hash_key : Text → Text) (redis : Redis S E) (next : ValidatedKey → R) (now : ℕ)
    (limiter : Option S) (s : Settings F)
    → from_env env default_rates net ≡ ok s
    → s.has_db ≡ false
    → IsGuarded hash_key redis next now limiter (store_of s)
unfolding from_env parse_keys
from_env-IsGuarded env default_rates net hash_key redis next now limiter s e off =
    with_db-IsGuarded env default_rates hash_key redis next now limiter
      (parse_keys (or_else (env.var (codes "INFER_API_KEYS")) []))
      (connect_redis net (env.var (codes "REDIS_URL")))
      (connect_db net (env.var (codes "DATABASE_URL"))) s
      (All-filter_self is_given
        (map trim (split comma (or_else (env.var (codes "INFER_API_KEYS")) []))))
      e off
