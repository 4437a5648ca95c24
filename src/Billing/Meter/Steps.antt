-- ===== src/Billing/Meter/Steps.antt =====
-- What a run of the meter does for one customer when Stripe takes its requests.
use infer_platform.Base.{
  ℕ, ◌-◌, ◌≡◌, refl, ap, ◌∙◌, Bool, true, false, ◌||◌, List, [], ◌∷◌, ◌++◌, any, Text, codes,
  text_eq_refl, ok, leb_int, to_nat, pure, branch_result, >>=-eq_ok, arith, Bool-cases, ◌⊎◌, inl,
  inr,
}
use infer_platform.Usage.{Sums}
use infer_platform.Billing.{
  BillingCustomer, MeterReport, World, query, Params, StripeReply, StripeReader, reply_body,
  post_form, report_meter_event,
}
use infer_platform.Billing.Accounts.{StripeConfig}
use infer_platform.Billing.Untouched.{calm_query}
use infer_platform.Billing.Meter.{
  hour, period_end, period_start, timestamp_of, identifier_of, same_report, insert_report,
  usage_of_key, weighted_total, save_report, report_row, report_usage, report_unreported,
  report_customer,
}

-- Nothing is left to report of the hour that ends at `end_`: it was reported, or nothing was used.
unfoldable pub Settled : {S : Type 0} → (end_ : ℕ) → World S → BillingCustomer → Type 0
Settled end_ w cust =
    (any (same_report cust.key_id (end_ - hour)) w.meter_reports ≡ true)
    ⊎ (leb_int 1 (weighted_total (usage_of_key cust.key_id (end_ - hour) end_ w.usage_logs))
        ≡ false)

any-append :
    {A : Type 0} (p : A → Bool) (xs ys : List A) → any p (xs ++ ys) ≡ (any p xs || any p ys)
any-append p [] ys = refl
any-append p (x ∷ xs) ys = ground (arith, any-append p xs ys)

pub reported-insert_report :
    (row : MeterReport) (rows : List MeterReport)
    → any (same_report row.key_id row.period_start) (insert_report row rows) ≡ true
unfolding insert_report
reported-insert_report row rows =
    elim (Bool-cases (any (same_report row.key_id row.period_start) rows)) [
      | inl e ↦ rw e e
      | inr e ↦ rw e (
          ground (
            arith,
            any-append (same_report row.key_id row.period_start) rows (row ∷ []),
            text_eq_refl row.key_id,
          ))
    ]

pub insert_report_grows :
    (p : MeterReport → Bool) (row : MeterReport) (rows : List MeterReport)
    → any p rows ≡ true
    → any p (insert_report row rows) ≡ true
unfolding insert_report
insert_report_grows p row rows h =
    elim (Bool-cases (any (same_report row.key_id row.period_start) rows)) [
      | inl e ↦ rw e h
      | inr e ↦ rw e (ground (arith, any-append p rows (row ∷ []), h))
    ]

module _ {S Json : Type 0} (send : S → (url : Text) → Params → StripeReply Json × S)
    (reader : StripeReader Json) where
  -- Stripe takes every request.
  unfoldable pub IsAccepting : Type 0
  IsAccepting =
      (s : S) (path url : Text) (params : Params)
      → (body : Json) × (reply_body send reader path (send s url params).0 ≡ ok body)

  post_accepted :
      IsAccepting
      → (path : Text) (params : Params) (w : World S)
      → (body : Json) × (stripe : S) × (post_form send reader path params w
          ≡ (ok body, record w { stripe = stripe }))
  unfolding post_form IsAccepting
  post_accepted accepts path params w =
      let url = codes "https://api.stripe.com/v1" ++ path in
      let (body, taken) = accepts w.stripe path url params in
      let stripe = (send w.stripe url params).1 in
      (body, stripe, ap (λ r. (r, record w { stripe = stripe })) taken)

  event_accepted :
      IsAccepting
      → (event_name customer : Text) (value timestamp : ℕ) (identifier : Text) (w : World S)
      → (stripe : S) × (report_meter_event send reader event_name customer value timestamp
            identifier w
          ≡ (ok tt, record w { stripe = stripe }))
  unfolding report_meter_event
  event_accepted accepts event_name customer value timestamp identifier w =
      let (body, stripe, sent) = post_accepted accepts _ _ w in
      (stripe, >>=-eq_ok (post_form send reader _ _) (λ b. pure tt) w _ body sent)

  module _ (cfg : StripeConfig) (now : ℕ) where
    -- What is written when a customer's usage is reported.
    abbrev pub reported : BillingCustomer → World S → S → World S
    reported cust w stripe = record w {
      stripe = stripe;
      meter_reports =
          insert_report
            (report_row send reader cust now
              (usage_of_key cust.key_id (period_start now) (period_end now) w.usage_logs))
            w.meter_reports;
    }

    none_used :
        (cust : BillingCustomer) (usage : Sums) (w : World S)
        → leb_int 1 (weighted_total usage) ≡ false
        → report_usage send reader cfg now cust usage w ≡ (ok tt, w)
    unfolding report_usage
    none_used cust usage w e = rw e refl

    some_used :
        IsAccepting
        → (cust : BillingCustomer) (usage : Sums) (w : World S) → w.failing ≡ []
        → leb_int 1 (weighted_total usage) ≡ true
        → (stripe : S) × (report_usage send reader cfg now cust usage w ≡ (
          ok tt,
          record w {
            stripe = stripe;
            meter_reports = insert_report (report_row send reader cust now usage) w.meter_reports;
          },
        ))
    unfolding report_usage
    some_used accepts cust usage w calm e =
        let (stripe, sent) =
          event_accepted accepts cfg.meter_event_name cust.stripe_customer_id
            (to_nat (weighted_total usage)) (timestamp_of (period_start now))
            (identifier_of cust.key_id (period_start now)) w in
        let mid : World S = record w { stripe = stripe } in
        (
          stripe,
          rw e (
                ap
                  (λ r.
                    branch_result r
                      (save_report send reader (report_row send reader cust now usage)) (pure tt))
                  sent)
              ∙ >>=-eq_ok (query {S = S} {E = Unit {0}} tt)
                  (λ t w2. (
                    ok tt,
                    record w2 {
                      meter_reports =
                          insert_report (report_row send reader cust now usage) w2.meter_reports;
                    },
                  ))
                  mid mid tt (calm_query tt mid calm),
        )

    unreported :
        (cust : BillingCustomer) (w : World S)
        → w.failing ≡ []
        → any (same_report cust.key_id (period_start now)) w.meter_reports ≡ false
        → report_customer send reader cfg now cust w
          ≡ report_usage send reader cfg now cust
              (usage_of_key cust.key_id (period_start now) (period_end now) w.usage_logs)
              w
    unfolding report_customer report_unreported
    unreported cust w calm e =
        >>=-eq_ok (query {S = S} {E = Unit {0}} tt) _ w w tt (calm_query tt w calm)
        ∙ rw e (>>=-eq_ok (query {S = S} {E = Unit {0}} tt) _ w w tt (calm_query tt w calm))

    already_reported :
        (cust : BillingCustomer) (w : World S)
        → w.failing ≡ []
        → any (same_report cust.key_id (period_start now)) w.meter_reports ≡ true
        → report_customer send reader cfg now cust w ≡ (ok tt, w)
    unfolding report_customer
    already_reported cust w calm e = rw (calm_query {E = Unit {0}} tt w calm, e) refl

    pub Settled-customer :
        (cust : BillingCustomer) (w : World S)
        → w.failing ≡ []
        → Settled (period_end now) w cust
        → report_customer send reader cfg now cust w ≡ (ok tt, w)
    unfolding Settled
    Settled-customer cust w calm (inl e) = already_reported cust w calm e
    Settled-customer cust w calm (inr e) =
        elim (Bool-cases (any (same_report cust.key_id (period_start now)) w.meter_reports)) [
          | inl done ↦ already_reported cust w calm done
          | inr todo ↦ unreported cust w calm todo ∙ none_used cust _ w e
        ]

    -- A customer is settled already, or is reported on.
    pub customer_cases :
        IsAccepting
        → (cust : BillingCustomer) (w : World S) → w.failing ≡ []
        → Settled (period_end now) w cust
          ⊎ ((stripe : S) × (report_customer send reader cfg now cust w
                ≡ (ok tt, reported cust w stripe)))
    unfolding Settled
    customer_cases accepts cust w calm =
        elim (Bool-cases (any (same_report cust.key_id (period_start now)) w.meter_reports)) [
          | inl done ↦ inl (inl done)
          | inr todo ↦
              elim (Bool-cases (
                leb_int 1 (
                  weighted_total
                    (usage_of_key cust.key_id (period_start now) (period_end now) w.usage_logs)))) [
                      | inr nothing ↦ inl (inr nothing)
                      | inl something ↦
                          let (stripe, written) = some_used accepts cust _ w calm something in
                          inr (stripe, unreported cust w calm todo ∙ written)
                    ]
        ]
