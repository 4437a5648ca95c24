-- ===== src/Billing/Accounts/Untouched.antt =====
-- A subscription leaves the customers as they are.
use infer_platform.Base.{
  refl, List, Option, none, some, Text, codes, ok, Keeps, Keeps-bind, Keeps-map_err,
}
use infer_platform.Billing.{
  BillingCustomer, World, Params, StripeReply, StripeReader, create_subscription,
}
use infer_platform.Billing.Accounts.{subscribe, or_stripe_error}
use infer_platform.Billing.Untouched.{IsTable, Keeps-create_subscription}

module _ {S : Type 0} where
  abbrev pub customers_of : World S → List BillingCustomer
  customers_of w = w.customers

  pub customers_of-IsTable : IsTable customers_of
  customers_of-IsTable = record { skips_failing = λ w f. refl; skips_stripe = λ w s. refl }

module _ {S Json : Type 0} (send : S → (url : Text) → Params → StripeReply Json × S)
    (reader : StripeReader Json) where
  pub Keeps-subscribe :
      (customer_id : Text) (price_id : Option Text)
      → Keeps customers_of (subscribe send reader customer_id price_id)
  Keeps-subscribe customer_id none = λ w. refl
  Keeps-subscribe customer_id (some price_id) =
      Keeps-bind customers_of
        (or_stripe_error send reader (codes "failed to create subscription")
          (create_subscription send reader customer_id price_id))
        (λ sub_id w. (ok (some sub_id), w))
        (Keeps-map_err customers_of _ _ (
          Keeps-create_subscription send reader customers_of customers_of-IsTable customer_id
            price_id))
        (λ sub_id w. refl)
