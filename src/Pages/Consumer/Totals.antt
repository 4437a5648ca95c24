-- ===== src/Pages/Consumer/Totals.antt =====
-- The parts of the consumer's page against its totals.
use infer_platform.Base.{
  codes, ℕ, ◌+◌, ◌-◌, ◌≡◌, refl, sym, ap, ◌∙◌, false, List, [], ◌∷◌, map, filter, Option, none,
  some, Text, text_eq, ok, ℤ, pos, ◌+ℤ◌, +ℤ_exchange, zero_+ℤ, sum_by, FloatOps, arith, Bool-cases,
  inl, inr,
}
use mathlib.Core.Path.{subst}
use infer_platform.Nodes.{seconds}
use infer_platform.Usage.{UsageLog, Sums, add_sums, sums_of, total, group_by, sum_int}
use infer_platform.Usage.Groups.{group_total, group_total-sort_by, total-group_by}
use infer_platform.Pages.{Env, env_or, or_none, or_else}
use infer_platform.Pages.Consumer.{
  ConsumerQuery, ConsumerAnalytics, ModelBreakdown, DateReader, Faults, tokens_of, most_tokens,
  earlier, same_day, model_rows, day_rows, breakdown_of, point_of, analytics_of, analytics,
  selected, parse_date,
}

-- The model's part as sums.
abbrev pub sums_of_model : {F : Type 0} → ModelBreakdown F → Sums
sums_of_model m = record {
  requests = m.requests;
  tokens_in = m.tokens_in;
  tokens_out = m.tokens_out;
}

-- The models and the days each add up to the totals.
pub record IsConsistent {F : Type 0} (page : ConsumerAnalytics F) : Type 0 where
  pub models : total (map sums_of_model page.tokens_by_model) ≡ record {
    requests = page.total_requests;
    tokens_in = page.total_tokens_in;
    tokens_out = page.total_tokens_out;
  }
  pub model_tokens : sum_int (λ m. m.tokens_total) page.tokens_by_model ≡ page.total_tokens
  pub day_requests : sum_by (λ p. p.requests) page.daily_spend ≡ page.total_requests
  pub day_tokens : sum_int (λ p. p.tokens) page.daily_spend ≡ page.total_tokens

module _ {K : Type 0} where
  tokens_of-group_total :
      (groups : List (K × Sums))
      → sum_int (λ (g : K × Sums). tokens_of g.1) groups ≡ tokens_of (group_total groups)
  unfolding sum_int total add_sums
  tokens_of-group_total [] = sym (zero_+ℤ (pos 0))
  tokens_of-group_total ((k, s) ∷ groups) =
      ap (λ x. tokens_of s +ℤ x) (tokens_of-group_total groups)
      ∙ +ℤ_exchange s.tokens_in s.tokens_out (group_total groups).tokens_in
          (group_total groups).tokens_out

  requests-group_total :
      (groups : List (K × Sums))
      → sum_by (λ (g : K × Sums). g.1.requests) groups ≡ (group_total groups).requests
  unfolding total add_sums
  requests-group_total [] = refl
  requests-group_total ((k, s) ∷ groups) = ap (λ n. s.requests + n) (requests-group_total groups)

module _ {A B : Type 0} where
  sum_int-map :
      (f : A → B) (g : B → ℤ) (xs : List A) → sum_int g (map f xs) ≡ sum_int (λ x. g (f x)) xs
  unfolding sum_int
  sum_int-map f g [] = refl
  sum_int-map f g (x ∷ xs) = ap (λ z. g (f x) +ℤ z) (sum_int-map f g xs)

  sum_by-map :
      (f : A → B) (g : B → ℕ) (xs : List A) → sum_by g (map f xs) ≡ sum_by (λ x. g (f x)) xs
  sum_by-map f g [] = refl
  sum_by-map f g (x ∷ xs) = ap (λ n. g (f x) + n) (sum_by-map f g xs)

module _ {F : Type 0} (ops : FloatOps F) (token_rate : F) where
  models_total :
      (groups : List (Text × Sums))
      → total (map sums_of_model (map (breakdown_of ops token_rate) groups)) ≡ group_total groups
  unfolding total breakdown_of
  models_total [] = refl
  models_total ((k, s) ∷ groups) = ap (add_sums s) (models_total groups)

  model_rows-total :
      (rows : List UsageLog) → group_total (model_rows rows) ≡ total (map sums_of rows)
  unfolding model_rows
  model_rows-total rows =
      group_total-sort_by most_tokens (group_by text_eq (λ row. row.model) rows)
      ∙ total-group_by text_eq (λ row. row.model) rows

  day_rows-total : (rows : List UsageLog) → group_total (day_rows rows) ≡ total (map sums_of rows)
  unfolding day_rows
  day_rows-total rows = group_total-sort_by earlier _ ∙ total-group_by same_day _ rows

  analytics_of-IsConsistent :
      (date : ℕ → Text) (faults : Faults) (rows : List UsageLog)
      → faults.models_fail ≡ false
      → faults.days_fail ≡ false
      → IsConsistent (analytics_of ops token_rate date faults rows)
  unfolding analytics_of breakdown_of point_of
  analytics_of-IsConsistent date faults rows models_there days_there = record {
    models = rw models_there (models_total (model_rows rows) ∙ model_rows-total rows);
    model_tokens = rw models_there (
        sum_int-map (breakdown_of ops token_rate) (λ m. m.tokens_total) (model_rows rows)
        ∙ tokens_of-group_total (model_rows rows)
        ∙ ap tokens_of (model_rows-total rows));
    day_requests = rw days_there (
        sum_by-map (point_of ops token_rate date) (λ p. p.requests) (day_rows rows)
        ∙ requests-group_total (day_rows rows)
        ∙ ap (λ (s : Sums). s.requests) (day_rows-total rows));
    day_tokens = rw days_there (
        sum_int-map (point_of ops token_rate date) (λ p. p.tokens) (day_rows rows)
        ∙ tokens_of-group_total (day_rows rows)
        ∙ ap tokens_of (day_rows-total rows));
  }

-- When its queries succeed, the page that a consumer gets is consistent: the requests and tokens
-- of the models, and those of the days, add up to the totals, for every key and range of time.
pub analytics-IsConsistent :
    {F : Type 0} (ops : FloatOps F) (env : Env F) (rate_default : F) (reader : DateReader)
    (date : ℕ → Text) (now : ℕ) (faults : Faults) (params : ConsumerQuery)
    (db : Option (List UsageLog)) (page : ConsumerAnalytics F)
    → faults.models_fail ≡ false
    → faults.days_fail ≡ false
    → analytics ops env rate_default reader date now faults params db ≡ ok page
    → IsConsistent page
unfolding analytics
analytics-IsConsistent ops env rate_default reader date now faults params none page models_there
      days_there e =
    absurd (ground (arith, e))
analytics-IsConsistent ops env rate_default reader date now faults params (some log) page
      models_there days_there e =
    elim (Bool-cases faults.totals_fail) [
      | inl failed ↦ absurd (let left = rw failed at e in ground (arith, left))
      | inr there ↦
          let found = rw there at e in
          let same : analytics_of ops (env_or env (codes "PROVIDER_TOKEN_RATE_USD") rate_default)
                date faults
                (filter
                  (selected params.api_key_id
                    (or_else (or_none (parse_date reader) params.from_date) (now - seconds 2592000))
                    (or_else (or_none (parse_date reader) params.to_date) now))
                  log)
              ≡ page =
            cc found in
          subst IsConsistent same (
            analytics_of-IsConsistent ops
              (env_or env (codes "PROVIDER_TOKEN_RATE_USD") rate_default) date faults _ models_there
              days_there)
    ]
