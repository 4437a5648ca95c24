-- ===== src/Billing/Meter.antt =====
-- `report_meter_usage` of crates/api-gateway/src/billing_cron.rs: the usage of the last whole hour
-- is sent to Stripe, key by key. Times are nanoseconds.
pub mod Hours
pub mod Steps
pub mod Settled
use infer_platform.Base.{
  ℕ, ◌-◌, ◌/◌, ◌%◌, ◌==◌, ltb, leb, Bool, true, false, ◌&&◌, List, [], ◌∷◌, ◌++◌, map, filter, any,
  Option, none, some, Text, codes, decimal, text_eq, Result, ok, err, ℤ, ◌+ℤ◌, leb_int, to_nat,
  Action, pure, gets, modify, ◌>>=◌, ◌>>◌, try_then, if◌then◌else◌,
}
use infer_platform.Nodes.{seconds}
use infer_platform.Usage.{is_of, UsageLog, Sums, sums_of, total}
use infer_platform.Billing.{
  BillingCustomer, MeterReport, World, query, Params, StripeReply, StripeReader, report_meter_event,
}
use infer_platform.Billing.Accounts.{Services, StripeConfig}

abbrev pub hour : ℕ
hour = seconds 3600

-- The most recent whole hour.
abbrev pub period_end : (now : ℕ) → ℕ
period_end now = now - now % hour

abbrev pub period_start : (now : ℕ) → ℕ
period_start now = period_end now - hour

-- `timestamp()`: whole seconds.
abbrev pub timestamp_of : ℕ → ℕ
timestamp_of t = t / seconds 1

abbrev pub in_period : (key_id : Text) (start end_ : ℕ) → UsageLog → Bool
in_period key_id start end_ row =
    is_of key_id row.key_id && leb start row.timestamp && ltb row.timestamp end_

-- SUM(tokens_in) and SUM(tokens_out), 0 where there are no rows.
unfoldable pub usage_of_key : (key_id : Text) (start end_ : ℕ) → List UsageLog → Sums
unfolding total
usage_of_key key_id start end_ rows =
    total (map sums_of (filter (in_period key_id start end_) rows))

-- `tin + tout * 2`
unfoldable pub weighted_total : Sums → ℤ
unfolding ◌+ℤ◌
weighted_total usage = usage.tokens_in +ℤ (usage.tokens_out +ℤ usage.tokens_out)

abbrev pub same_report : (key_id : Text) (start : ℕ) → MeterReport → Bool
same_report key_id start row = text_eq row.key_id key_id && (row.period_start == start)

-- ON CONFLICT (key_id, period_start) DO NOTHING
unfoldable pub insert_report : MeterReport → List MeterReport → List MeterReport
unfolding text_eq
insert_report row rows =
    if any (same_report row.key_id row.period_start) rows then rows else rows ++ (row ∷ [])

abbrev pub identifier_of : (key_id : Text) (start : ℕ) → Text
identifier_of key_id start =
    codes "meter-" ++ (key_id ++ (codes "-" ++ decimal (timestamp_of start)))

module _ {S Json : Type 0} (send : S → (url : Text) → Params → StripeReply Json × S)
    (reader : StripeReader Json) where
  -- A query that fails ends the run; what Stripe refuses is logged.
  abbrev pub Run : Type 0 → Type 0
  Run A = Action (World S) (Unit {0}) A

  abbrev pub save_report : MeterReport → Run (Unit {0})
  save_report row = do
    query tt
    modify (λ w. record w { meter_reports = insert_report row w.meter_reports })

  abbrev pub report_row : BillingCustomer → (now : ℕ) → Sums → MeterReport
  report_row cust now usage = record {
    key_id = cust.key_id;
    period_start = period_start now;
    period_end = period_end now;
    tokens_in = usage.tokens_in;
    tokens_out = usage.tokens_out;
    stripe_event_id = identifier_of cust.key_id (period_start now);
  }

  unfoldable pub report_usage : StripeConfig → (now : ℕ) → BillingCustomer → Sums → Run (Unit {0})
  unfolding query report_meter_event insert_report weighted_total
  report_usage cfg now cust usage =
      let weighted = weighted_total usage in
      if leb_int 1 weighted
      then try_then
          (report_meter_event send reader cfg.meter_event_name cust.stripe_customer_id
            (to_nat weighted) (timestamp_of (period_start now))
            (identifier_of cust.key_id (period_start now)))
          (save_report (report_row cust now usage)) (pure tt)
      else pure tt

  unfoldable pub report_unreported : StripeConfig → (now : ℕ) → BillingCustomer → Run (Unit {0})
  unfolding query report_usage usage_of_key
  report_unreported cfg now cust = do
    query tt
    rows ← gets (λ w. w.usage_logs)
    report_usage cfg now cust (usage_of_key cust.key_id (period_start now) (period_end now) rows)

  unfoldable pub report_customer : StripeConfig → (now : ℕ) → BillingCustomer → Run (Unit {0})
  unfolding query report_unreported
  report_customer cfg now cust = do
    query tt
    already ← gets (λ w. any (same_report cust.key_id (period_start now)) w.meter_reports)
    if already then pure tt else report_unreported cfg now cust

  unfoldable pub report_customers : StripeConfig → (now : ℕ) → List BillingCustomer → Run (Unit {0})
  unfolding report_customer
  report_customers cfg now [] = pure tt
  report_customers cfg now (cust ∷ more) = do
    report_customer cfg now cust
    report_customers cfg now more

  abbrev pub report_with : StripeConfig → (now : ℕ) → Run (Unit {0})
  report_with cfg now = do
    query tt
    customers ← gets (λ w. w.customers)
    report_customers cfg now customers

  abbrev pub report_configured : Option StripeConfig → (now : ℕ) → Run (Unit {0})
  report_configured none now = pure tt
  report_configured (some cfg) now = report_with cfg now

  unfoldable pub report_meter_usage : Services → (now : ℕ) → Run (Unit {0})
  unfolding query report_customers
  report_meter_usage services now =
      if services.has_db then report_configured services.stripe now else pure tt
