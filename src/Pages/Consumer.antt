-- ===== src/Pages/Consumer.antt =====
-- `analytics` and `models_stats` of crates/api-gateway/src/routes/consumer.rs. `DateReader` is how chrono
-- reads a date; a date before 1970 is read as 0, before every row. Times are nanoseconds.
pub mod Totals
use infer_platform.Base.{
  ℕ, ◌-◌, ◌/◌, ◌==◌, leb, Bool, true, false, ◌&&◌, List, [], ◌∷◌, map, filter, Option, none, some,
  Text, codes, text_eq, Result, ok, err, ℤ, pos, ◌+ℤ◌, leq_int, sort_by, FloatOps, if◌then◌else◌,
}
use infer_platform.Usage.{UsageLog, Sums, sums_of, total, group_by, is_of}
use infer_platform.Nodes.{seconds}
use infer_platform.Pages.{
  Env, env_or, PageError, no_database, query_failed, round4, round_at, or_none, or_else,
}

pub record ConsumerQuery : Type 0 where
  pub api_key_id : Option Text
  pub from_date : Option Text
  pub to_date : Option Text

pub record ModelBreakdown (F : Type 0) : Type 0 where
  pub model : Text
  pub requests : ℕ
  pub tokens_in : ℤ
  pub tokens_out : ℤ
  pub tokens_total : ℤ
  pub spend_usd : F

pub record DailyPoint (F : Type 0) : Type 0 where
  pub date : Text
  pub requests : ℕ
  pub tokens : ℤ
  pub spend_usd : F

pub record ConsumerAnalytics (F : Type 0) : Type 0 where
  pub total_requests : ℕ
  pub total_tokens_in : ℤ
  pub total_tokens_out : ℤ
  pub total_tokens : ℤ
  pub total_spend_usd : F
  pub tokens_by_model : List (ModelBreakdown F)
  pub daily_spend : List (DailyPoint F)

-- RFC 3339, and year, month and day, as the time at which that day begins.
pub record DateReader : Type 0 where
  pub rfc3339 : Text → Option ℕ
  pub ymd : Text → Option ℕ

unfoldable pub parse_date : DateReader → Text → Option ℕ
parse_date reader s = elim (reader.rfc3339 s) [ some t ↦ some t | none ↦ reader.ymd s ]

abbrev pub day : ℕ
day = seconds 86400

abbrev key_passes : Option Text → Option Text → Bool
key_passes none key_id = true
key_passes (some k) key_id = is_of k key_id

-- The WHERE clause.
abbrev pub selected : Option Text → (from_dt to_dt : ℕ) → UsageLog → Bool
selected key_filter from_dt to_dt row =
    key_passes key_filter row.key_id && leb from_dt row.timestamp && leb row.timestamp to_dt

abbrev pub tokens_of : Sums → ℤ
tokens_of s = s.tokens_in +ℤ s.tokens_out

abbrev pub most_tokens : {K : Type 0} → K × Sums → K × Sums → Bool
most_tokens a b = leq_int (tokens_of b.1) (tokens_of a.1)

abbrev pub earlier : ℕ × Sums → ℕ × Sums → Bool
earlier a b = leb a.0 b.0

abbrev same_day : ℕ → ℕ → Bool
same_day a b = a == b

unfoldable pub model_rows : List UsageLog → List (Text × Sums)
unfolding group_by text_eq
model_rows rows = sort_by most_tokens (group_by text_eq (λ row. row.model) rows)

unfoldable pub day_rows : List UsageLog → List (ℕ × Sums)
unfolding group_by
day_rows rows = sort_by earlier (group_by same_day (λ row. row.timestamp / day) rows)

-- Which of the queries fail.
pub record Faults : Type 0 where
  pub totals_fail : Bool
  pub models_fail : Bool
  pub days_fail : Bool

-- `unwrap_or_default` of a query.
abbrev pub or_no_rows : {A : Type 0} → (fails : Bool) → List A → List A
or_no_rows fails rows = if fails then [] else rows

module _ {F : Type 0} (ops : FloatOps F) (token_rate : F) where
  abbrev pub spend : ℤ → F
  spend tokens = round4 ops (ops.mul (ops.of_int tokens) token_rate)

  unfoldable pub breakdown_of : Text × Sums → ModelBreakdown F
  breakdown_of (model, s) = record {
    model = model;
    requests = s.requests;
    tokens_in = s.tokens_in;
    tokens_out = s.tokens_out;
    tokens_total = tokens_of s;
    spend_usd = spend (tokens_of s);
  }

  unfoldable pub point_of : (date : ℕ → Text) → ℕ × Sums → DailyPoint F
  point_of date (d, s) = record {
    date = date d;
    requests = s.requests;
    tokens = tokens_of s;
    spend_usd = spend (tokens_of s);
  }

  unfoldable pub analytics_of : (date : ℕ → Text) → Faults → List UsageLog → ConsumerAnalytics F
  unfolding total model_rows day_rows breakdown_of point_of
  analytics_of date faults rows =
      let totals = total (map sums_of rows) in
      record {
        total_requests = totals.requests;
        total_tokens_in = totals.tokens_in;
        total_tokens_out = totals.tokens_out;
        total_tokens = tokens_of totals;
        total_spend_usd = spend (tokens_of totals);
        tokens_by_model = map breakdown_of (or_no_rows faults.models_fail (model_rows rows));
        daily_spend = map (point_of date) (or_no_rows faults.days_fail (day_rows rows));
      }

-- `rate_default` is 0.000001.
unfoldable pub analytics :
    {F : Type 0}
    → FloatOps F
    → Env F
    → (rate_default : F) → DateReader
    → (date : ℕ → Text) (now : ℕ) → Faults
    → ConsumerQuery
    → Option (List UsageLog)
    → Result PageError (ConsumerAnalytics F)
unfolding env_or analytics_of parse_date
analytics ops env rate_default reader date now faults params none = err no_database
analytics ops env rate_default reader date now faults params (some log) =
    let token_rate = env_or env (codes "PROVIDER_TOKEN_RATE_USD") rate_default in
    let from_dt = or_else (or_none (parse_date reader) params.from_date) (now - seconds 2592000) in
    let to_dt = or_else (or_none (parse_date reader) params.to_date) now in
    if faults.totals_fail
    then err query_failed
    else ok (
        analytics_of ops token_rate date faults
          (filter (selected params.api_key_id from_dt to_dt) log))

-- A row of the query of `models_stats`, with the averages of PostgreSQL.
pub record ModelRow (F : Type 0) : Type 0 where
  pub model_name : Text
  pub license : Option Text
  pub node_count : Option ℤ
  pub avg_latency_ms : Option F
  pub uptime_7d : Option F

pub record ModelBrowserEntry (F : Type 0) : Type 0 where
  pub name : Text
  pub license : Text
  pub node_count : ℤ
  pub avg_latency_ms : Option F
  pub uptime_7d : Option F
  pub price_per_m_tokens : F

module _ {F : Type 0} (ops : FloatOps F) where
  abbrev pub entry_of : (price_per_m : F) → ModelRow F → ModelBrowserEntry F
  entry_of price_per_m r = record {
    name = r.model_name;
    license = or_else r.license (codes "unknown");
    node_count = or_else r.node_count (pos 0);
    avg_latency_ms = or_none (λ v. some (round_at ops 10 v)) r.avg_latency_ms;
    uptime_7d = or_none (λ v. some (round_at ops 10000 v)) r.uptime_7d;
    price_per_m_tokens = price_per_m;
  }

  -- The models and the price; `rows` is what the query returns.
  unfoldable pub models_stats :
      Env F
      → (rate_default : F) (fails : Bool) → Option (List (ModelRow F))
      → Result PageError (List (ModelBrowserEntry F) × F)
  unfolding env_or
  models_stats env rate_default fails none = err no_database
  models_stats env rate_default fails (some rows) =
      let token_rate = env_or env (codes "PROVIDER_TOKEN_RATE_USD") rate_default in
      let price_per_m = round4 ops (ops.mul token_rate (ops.of_int (pos 1000000))) in
      ok (map (entry_of price_per_m) (or_no_rows fails rows), price_per_m)
