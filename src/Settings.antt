-- ===== src/Settings.antt =====
-- `AppState::from_env` of crates/api-gateway/src/state.rs: the environment is the parameter `Env`, and whether
-- PostgreSQL and Redis can be reached is `Connections`. The set of keys is a list.
pub mod Started
mod Examples
use infer_platform.Base.{
  ◌≡◌, Bool, true, false, not, List, [], ◌∷◌, map, filter, is_empty, trim, Option, none, some, Text,
  codes, Result, ok, err, if◌then◌else◌,
}
use infer_platform.Billing.Accounts.{StripeConfig}
use infer_platform.Billing.Payouts.{Rates}
use infer_platform.Billing.Webhook.{split, comma}
use infer_platform.Pages.{Env, env_or, or_else}

-- How each step of the connections to a URL ends.
pub record Connections : Type 0 where
  pub pool_opens : Text → Bool
  pub migrations_run : Text → Bool
  pub redis_url_valid : Text → Bool
  pub redis_connects : Text → Bool

pub data StartError : Type 0 where
  pool_failed migrations_failed : StartError
  invalid_redis_url redis_failed : StartError
  no_keys : StartError

pub record Settings (F : Type 0) : Type 0 where
  pub api_keys : List Text
  pub internal_key : Text
  pub ollama_url : Text
  pub has_db : Bool
  pub has_redis : Bool
  pub stripe : Option (StripeConfig × Rates F)

abbrev pub is_given : Text → Bool
is_given key = not (is_empty key)

unfoldable pub parse_keys : Text → List Text
unfolding split trim
parse_keys raw_keys = filter is_given (map trim (split comma raw_keys))

module _ (net : Connections) where
  unfoldable pub connect_db : Option Text → Result StartError Bool
  connect_db none = ok false
  connect_db (some url) =
      if not (net.pool_opens url)
      then err pool_failed
      else if not (net.migrations_run url)
      then err migrations_failed
      else ok true

  unfoldable pub connect_redis : Option Text → Result StartError Bool
  connect_redis none = ok false
  connect_redis (some url) =
      if not (net.redis_url_valid url)
      then err invalid_redis_url
      else if not (net.redis_connects url)
      then err redis_failed
      else ok true

-- 0.002 and 0.2 where the rates are not set.
abbrev pub stripe_of :
    {F : Type 0} → Env F → (default_rates : Rates F) → Option Text → Option (StripeConfig × Rates F)
stripe_of env default_rates none = none
stripe_of env default_rates (some secret_key) = some (
  record {
    webhook_secret = or_else (env.var (codes "STRIPE_WEBHOOK_SECRET")) [];
    meter_event_name = or_else (env.var (codes "STRIPE_METER_EVENT_NAME")) (codes "tokens_used");
    price_id = env.var (codes "STRIPE_PRICE_ID");
  },
  record {
    token_rate_usd_per_1k =
        env_or env (codes "TOKEN_RATE_USD_PER_1K") default_rates.token_rate_usd_per_1k;
    commission_rate = env_or env (codes "COMMISSION_RATE") default_rates.commission_rate;
  },
)

module _ {F : Type 0} (env : Env F) (default_rates : Rates F) where
  unfoldable pub settings_of : (api_keys : List Text) (has_db has_redis : Bool) → Settings F
  unfolding env_or
  settings_of api_keys has_db has_redis = record {
    api_keys = api_keys;
    internal_key = or_else (env.var (codes "INFER_INTERNAL_KEY")) (codes "internal_dev_secret");
    ollama_url = or_else (env.var (codes "OLLAMA_URL")) (codes "http://localhost:11434");
    has_db = has_db;
    has_redis = has_redis;
    stripe = stripe_of env default_rates (env.var (codes "STRIPE_SECRET_KEY"));
  }

  abbrev pub finish :
      (api_keys : List Text) (has_db has_redis : Bool) → Result StartError (Settings F)
  finish api_keys true has_redis = ok (settings_of api_keys true has_redis)
  finish api_keys false has_redis =
      if is_empty api_keys then err no_keys else ok (settings_of api_keys false has_redis)

  abbrev pub with_redis :
      (api_keys : List Text) (has_db : Bool)
      → Result StartError Bool
      → Result StartError (Settings F)
  with_redis api_keys has_db (err e) = err e
  with_redis api_keys has_db (ok has_redis) = finish api_keys has_db has_redis

  abbrev pub with_db :
      (api_keys : List Text) (redis : Result StartError Bool)
      → Result StartError Bool
      → Result StartError (Settings F)
  with_db api_keys redis (err e) = err e
  with_db api_keys redis (ok has_db) = with_redis api_keys has_db redis

  unfoldable pub from_env : Connections → Result StartError (Settings F)
  unfolding parse_keys connect_db connect_redis settings_of
  from_env net =
      let api_keys = parse_keys (or_else (env.var (codes "INFER_API_KEYS")) []) in
      with_db api_keys (connect_redis net (env.var (codes "REDIS_URL")))
        (connect_db net (env.var (codes "DATABASE_URL")))
