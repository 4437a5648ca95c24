-- ===== src/Billing/Meter/Settled.antt =====
-- Two runs of the meter in the same hour.
use mathlib.Core.Path.{subst}
use infer_platform.Base.{
  ℕ, ◌≡◌, refl, sym, ◌∙◌, List, [], ◌∷◌, All, Text, ok, >>=-eq_ok, Bool-cases, Option-cases, inl,
  inr,
}
use infer_platform.Billing.{BillingCustomer, World, query, Params, StripeReply, StripeReader}
use infer_platform.Billing.Accounts.{Services, StripeConfig}
use infer_platform.Billing.Untouched.{calm_query}
use infer_platform.Billing.Meter.{
  period_end, period_start, same_report, report_customer, report_customers, report_with,
  report_meter_usage,
}
use infer_platform.Billing.Meter.Steps.{
  Settled, reported-insert_report, insert_report_grows, IsAccepting, reported, Settled-customer,
  customer_cases,
}

module _ {S Json : Type 0} (send : S → (url : Text) → Params → StripeReply Json × S)
    (reader : StripeReader Json) where
  module _ (cfg : StripeConfig) (now : ℕ) where
    stays-Settled :
        (cust other : BillingCustomer) (w : World S) (stripe : S)
        → Settled (period_end now) w other
        → Settled (period_end now) (reported send reader cfg now cust w stripe) other
    unfolding Settled
    stays-Settled cust other w stripe (inl done) =
        inl
          (insert_report_grows (same_report other.key_id (period_start now)) _ w.meter_reports done)
    stays-Settled cust other w stripe (inr nothing) = inr nothing

    gets-Settled :
        (cust : BillingCustomer) (w : World S) (stripe : S)
        → Settled (period_end now) (reported send reader cfg now cust w stripe) cust
    unfolding Settled
    gets-Settled cust w stripe = inl (reported-insert_report _ w.meter_reports)

    -- A run over some customers.
    record IsRun (customers : List BillingCustomer) (w : World S) : Type 0 where
      last : World S
      ran : report_customers send reader cfg now customers w ≡ (ok tt, last)
      calm : last.failing ≡ []
      same_customers : last.customers ≡ w.customers
      settled : All (Settled (period_end now) last) customers
      kept :
          (other : BillingCustomer)
          → Settled (period_end now) w other
          → Settled (period_end now) last other

    then_rest :
        (cust : BillingCustomer) (more : List BillingCustomer) (w mid : World S)
        → report_customer send reader cfg now cust w ≡ (ok tt, mid)
        → Settled (period_end now) mid cust
        → mid.customers ≡ w.customers
        → ((other : BillingCustomer)
            → Settled (period_end now) w other
            → Settled (period_end now) mid other)
        → IsRun more mid
        → IsRun (cust ∷ more) w
    unfolding report_customers
    then_rest cust more w mid first settled same keeps run = record {
      last = run.last;
      ran =
          >>=-eq_ok (report_customer send reader cfg now cust)
            (λ t. report_customers send reader cfg now more) w mid tt first
          ∙ run.ran;
      calm = run.calm;
      same_customers = run.same_customers ∙ same;
      settled = (run.kept cust settled, run.settled);
      kept = λ other s. run.kept other (keeps other s);
    }

    IsRun-customers :
        IsAccepting send reader
        → (customers : List BillingCustomer) (w : World S) → w.failing ≡ []
        → IsRun customers w
    unfolding report_customers
    IsRun-customers accepts [] w calm = record {
      last = w;
      ran = refl;
      calm = calm;
      same_customers = refl;
      settled = tt;
      kept = λ other s. s;
    }
    IsRun-customers accepts (cust ∷ more) w calm =
        elim (customer_cases send reader cfg now accepts cust w calm) [
          | inl s ↦
              then_rest cust more w w (Settled-customer send reader cfg now cust w calm s) s refl
                (λ other t. t) (IsRun-customers accepts more w calm)
          | inr (stripe, written) ↦
              then_rest cust more w (reported send reader cfg now cust w stripe) written
                (gets-Settled cust w stripe) refl (λ other t. stays-Settled cust other w stripe t)
                (IsRun-customers accepts more (reported send reader cfg now cust w stripe) calm)
        ]

    Settled-customers :
        (customers : List BillingCustomer) (w : World S)
        → w.failing ≡ []
        → All (Settled (period_end now) w) customers
        → report_customers send reader cfg now customers w ≡ (ok tt, w)
    unfolding report_customers
    Settled-customers [] w calm a = refl
    Settled-customers (cust ∷ more) w calm a =
        >>=-eq_ok (report_customer send reader cfg now cust)
          (λ t. report_customers send reader cfg now more) w w tt
          (Settled-customer send reader cfg now cust w calm a.0)
        ∙ Settled-customers more w calm a.1

    from_query :
        (w : World S)
        → w.failing ≡ []
        → report_with send reader cfg now w ≡ report_customers send reader cfg now w.customers w
    from_query w calm =
        >>=-eq_ok (query {S = S} {E = Unit {0}} tt)
          (λ t w2. report_customers send reader cfg now w2.customers w2) w w tt
          (calm_query tt w calm)

  run_again :
      (cfg : StripeConfig) (now now2 : ℕ) (w : World S)
      → IsAccepting send reader
      → period_end now ≡ period_end now2
      → w.failing ≡ []
      → (last : World S) × (report_with send reader cfg now w ≡ (ok tt, last))
        × (report_with send reader cfg now2 last ≡ (ok tt, last))
  run_again cfg now now2 w accepts same calm =
      let run = IsRun-customers cfg now accepts w.customers w calm in
      (
        run.last,
        from_query cfg now w calm ∙ run.ran,
        from_query cfg now2 run.last run.calm
            ∙ Settled-customers cfg now2 run.last.customers run.last run.calm (
                subst (λ rows. All (Settled (period_end now2) run.last) rows)
                  (sym run.same_customers)
                  (subst (λ e. All (Settled e run.last) w.customers) same run.settled)),
      )

  -- While no query fails and Stripe takes every request, a run of the meter succeeds, and a second
  -- run in the same hour changes nothing and calls Stripe no more.
  pub second_run_idle :
      (services : Services) (now now2 : ℕ) (w : World S)
      → IsAccepting send reader
      → period_end now ≡ period_end now2
      → w.failing ≡ []
      → (last : World S) × (report_meter_usage send reader services now w ≡ (ok tt, last))
        × (report_meter_usage send reader services now2 last ≡ (ok tt, last))
  unfolding report_meter_usage
  second_run_idle services now now2 w accepts same calm = elim (Bool-cases services.has_db) [
    | inr off ↦ (w, rw off refl, rw off refl)
    | inl on ↦ elim (Option-cases services.stripe) [
      | inl off ↦ (w, rw (on, off) refl, rw (on, off) refl)
      | inr (cfg, set) ↦
          let (last, first, second) = run_again cfg now now2 w accepts same calm in
          (last, rw (on, set) first, rw (on, set) second)
    ]
  ]
