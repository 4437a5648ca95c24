-- ===== src/Settings/Examples.antt =====
-- A start from two keys of the environment.
use infer_platform.Base.{
  ℕ, suc, Text, ◌≡◌, refl, true, false, [], ◌∷◌, none, some, codes, text_eq, trim, trim_start,
  is_whitespace, ok, if◌then◌else◌,
}
use infer_platform.Auth.{Redis, ValidatedKey}
use infer_platform.Billing.Payouts.{Rates}
use infer_platform.Billing.Webhook.{split}
use infer_platform.Pages.{Env, env_or}
use infer_platform.Settings.{
  Connections, Settings, parse_keys, settings_of, from_env, connect_db, connect_redis,
}
use infer_platform.Settings.Started.{IsGuarded, store_of, from_env-IsGuarded}

start : Unit {0}
unfolding from_env parse_keys settings_of connect_db connect_redis split trim trim_start
    is_whitespace env_or text_eq
start = tt

-- Only the keys are set, one of them between blanks and one empty.
abbrev env : Env ℕ
env = record {
  var = λ name. if text_eq name (codes "INFER_API_KEYS") then some (codes " a ,, b") else none;
  parse = λ t. none;
}

abbrev rates : Rates ℕ
rates = record { token_rate_usd_per_1k = 2; commission_rate = 0 }

abbrev net : Connections
net = record {
  pool_opens = λ url. true;
  migrations_run = λ url. true;
  redis_url_valid = λ url. true;
  redis_connects = λ url. true;
}

abbrev settings : Settings ℕ
settings = record {
  api_keys = codes "a" ∷ codes "b" ∷ [];
  internal_key = codes "internal_dev_secret";
  ollama_url = codes "http://localhost:11434";
  has_db = false;
  has_redis = false;
  stripe = none;
}

started : from_env env rates net ≡ ok settings
unfolding start
started = refl

-- A Redis that counts one and the same number up.
abbrev redis : Redis ℕ Text
redis = record { incr = λ s key. (ok (suc s), suc s); expire = λ s key seconds. (ok tt, s) }

abbrev next : ValidatedKey → Text
next key = key.key_id

from_env-IsGuarded_example : IsGuarded (λ key. key) redis next 61 (some 4) (store_of settings)
from_env-IsGuarded_example =
    from_env-IsGuarded env rates net (λ key. key) redis next 61 (some 4) settings started refl
