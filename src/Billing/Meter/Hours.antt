-- ===== src/Billing/Meter/Hours.antt =====
-- The hours that a run of the meter reports on.
use infer_platform.Base.{
  ℕ, ◌+◌, ◌≤◌, ◌<◌, ◌⊎◌, ◌≡◌, refl, ◌==◌, Bool, false, List, [], ◌∷◌, ◌++◌, filter, any, Option,
  none, some, Text, leb_int, pure, Keeps, Keeps-bind, Keeps-if, Keeps-try_then, arith, Bool-cases,
  inl, inr,
}
use infer_platform.Usage.{Sums}
use infer_platform.Billing.{
  BillingCustomer, MeterReport, World, query, Params, StripeReply, StripeReader,
}
use infer_platform.Billing.Untouched.{IsTable, Keeps-query, Keeps-report_meter_event}
use infer_platform.Billing.Accounts.{Services, StripeConfig}
use infer_platform.Billing.Meter.{
  hour, period_end, period_start, same_report, insert_report, usage_of_key, weighted_total,
  save_report, report_row, report_usage, report_unreported, report_customer, report_customers,
  report_configured, report_meter_usage,
}

-- The reports of the hour that starts at `start`.
abbrev pub of_hour : (start : ℕ) → MeterReport → Bool
of_hour start row = row.period_start == start

abbrev pub reports_of : {S : Type 0} → (start : ℕ) → World S → List MeterReport
reports_of start w = filter (of_hour start) w.meter_reports

filter-append_none :
    {A : Type 0} (p : A → Bool) (xs : List A) (x : A)
    → p x ≡ false
    → filter p (xs ++ (x ∷ [])) ≡ filter p xs
filter-append_none p [] x h = rw h refl
filter-append_none p (y ∷ xs) x h = ground (arith, filter-append_none p xs x h)

filter-insert_report :
    (start : ℕ) (row : MeterReport) (rows : List MeterReport)
    → of_hour start row ≡ false
    → filter (of_hour start) (insert_report row rows) ≡ filter (of_hour start) rows
unfolding insert_report
filter-insert_report start row rows h =
    elim (Bool-cases (any (same_report row.key_id row.period_start) rows)) [
      | inl e ↦ rw e refl
      | inr e ↦ rw e (filter-append_none (of_hour start) rows row h)
    ]

-- The hour that a run reports on is the last whole one.
period_start_lem :
    (now start : ℕ)
    → hour ≤ now
    → (now < start + hour) ⊎ (start + hour + hour ≤ now)
    → (period_start now == start) ≡ false
period_start_lem now start late (inl early) = ground (arith, late, early)
period_start_lem now start late (inr passed) = ground (arith, late, passed)

module _ {S Json : Type 0} (send : S → (url : Text) → Params → StripeReply Json × S)
    (reader : StripeReader Json) (start now : ℕ) (other : (period_start now == start) ≡ false) where
  abbrev part : World S → List MeterReport
  part w = reports_of start w

  table : IsTable part
  table = record { skips_failing = λ w f. refl; skips_stripe = λ w s. refl }

  Keeps-save_report :
      (cust : BillingCustomer) (usage : Sums)
      → Keeps part (save_report send reader (report_row send reader cust now usage))
  Keeps-save_report cust usage = Keeps-bind part (query tt) _ (Keeps-query part table tt) (λ t w.
      filter-insert_report start (report_row send reader cust now usage) w.meter_reports other)

  Keeps-report_usage :
      (cfg : StripeConfig) (cust : BillingCustomer) (usage : Sums)
      → Keeps part (report_usage send reader cfg now cust usage)
  unfolding report_usage
  Keeps-report_usage cfg cust usage =
      Keeps-if part (leb_int 1 (weighted_total usage)) _ _
        (Keeps-try_then part _ _ _ (Keeps-report_meter_event send reader part table _ _ _ _ _)
          (Keeps-save_report cust usage) (λ w. refl))
        (λ w. refl)

  Keeps-report_unreported :
      (cfg : StripeConfig) (cust : BillingCustomer)
      → Keeps part (report_unreported send reader cfg now cust)
  unfolding report_unreported
  Keeps-report_unreported cfg cust =
      Keeps-bind part (query tt) _ (Keeps-query part table tt) (λ t w.
        Keeps-report_usage cfg cust
          (usage_of_key cust.key_id (period_start now) (period_end now) w.usage_logs) w)

  Keeps-report_customer :
      (cfg : StripeConfig) (cust : BillingCustomer)
      → Keeps part (report_customer send reader cfg now cust)
  unfolding report_customer
  Keeps-report_customer cfg cust = Keeps-bind part (query tt) _ (Keeps-query part table tt) (λ t w.
      Keeps-if part (any (same_report cust.key_id (period_start now)) w.meter_reports) (pure tt)
        (report_unreported send reader cfg now cust) (λ w2. refl) (Keeps-report_unreported cfg cust)
        w)

  Keeps-report_customers :
      (cfg : StripeConfig) (customers : List BillingCustomer)
      → Keeps part (report_customers send reader cfg now customers)
  unfolding report_customers
  Keeps-report_customers cfg [] = λ w. refl
  Keeps-report_customers cfg (cust ∷ more) =
      Keeps-bind part (report_customer send reader cfg now cust) _ (Keeps-report_customer cfg cust)
        (λ t. Keeps-report_customers cfg more)

  Keeps-report_configured :
      (stripe : Option StripeConfig) → Keeps part (report_configured send reader stripe now)
  Keeps-report_configured none = λ w. refl
  Keeps-report_configured (some cfg) =
      Keeps-bind part (query tt) _ (Keeps-query part table tt)
        (λ t w. Keeps-report_customers cfg w.customers w)

  Keeps-report_meter_usage :
      (services : Services) → Keeps part (report_meter_usage send reader services now)
  unfolding report_meter_usage
  Keeps-report_meter_usage services =
      Keeps-if part services.has_db _ _ (Keeps-report_configured services.stripe) (λ w. refl)

-- A run at least an hour after 1970 began, and not in the hour that follows some hour, changes
-- nothing in the reports of that hour.
pub passed_hours_kept :
    {S Json : Type 0} (send : S → (url : Text) → Params → StripeReply Json × S)
    (reader : StripeReader Json) (services : Services) (now start : ℕ) (w : World S)
    → hour ≤ now
    → (now < start + hour) ⊎ (start + hour + hour ≤ now)
    → reports_of start (report_meter_usage send reader services now w).1 ≡ reports_of start w
passed_hours_kept send reader services now start w late outside =
    Keeps-report_meter_usage send reader start now (period_start_lem now start late outside)
      services w
