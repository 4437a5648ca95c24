-- ===== src/Billing.antt =====
-- The tables of billing and the Stripe client of crates/api-gateway/src/billing.rs. The network to
-- Stripe is the parameter `send`, on a state `S` of Stripe's own; `StripeReader` is how serde_json
-- reads the members of a reply that are used. The result of each database query is taken off the
-- list `failing`: true for one that fails, and none fails when the list has run out.
pub mod Untouched
pub mod Accounts
pub mod Webhook
pub mod Meter
pub mod Payouts
mod Examples
use infer_platform.Base.{
  ℕ, ◌≡◌, Bool, true, false, List, [], ◌∷◌, ◌++◌, Option, none, some, Text, codes, decimal, Result,
  ok, err, ℤ, Action, pure, raise, gets, or_raise, modify, ◌>>=◌, ◌>>◌, if◌then◌else◌,
}
use infer_platform.Keys.{ApiKey}
use infer_platform.Usage.{UsageLog}
use infer_platform.Coordinator.Execution.{is_success}

pub record BillingCustomer : Type 0 where
  pub id : Text
  pub key_id : Text
  pub stripe_customer_id : Text
  pub stripe_payment_method_id : Option Text
  pub stripe_subscription_id : Option Text
  pub created_at : ℕ
  pub updated_at : ℕ

pub record ProviderAccount : Type 0 where
  pub id : Text
  pub node_id : Text
  pub stripe_account_id : Text
  pub onboarding_complete : Bool
  pub created_at : ℕ
  pub updated_at : ℕ

pub record MeterReport : Type 0 where
  pub key_id : Text
  pub period_start : ℕ
  pub period_end : ℕ
  pub tokens_in : ℤ
  pub tokens_out : ℤ
  pub stripe_event_id : Text

-- The tables, and Stripe.
pub record World (S : Type 0) : Type 0 where
  pub failing : List Bool
  pub api_keys : List ApiKey
  pub node_ids : List Text
  pub usage_logs : List UsageLog
  pub customers : List BillingCustomer
  pub accounts : List ProviderAccount
  pub meter_reports : List MeterReport
  pub stripe : S

abbrev query_result : {S E : Type 0} → E → World S → List Bool → Result E (Unit {0}) × World S
query_result e w [] = (ok tt, w)
query_result e w (fails ∷ rest) = (if fails then err e else ok tt, record w { failing = rest })

-- A query that ends in the error `e` when it fails.
unfoldable pub query : {S E : Type 0} → E → Action (World S) E (Unit {0})
query e w = query_result e w w.failing

-- The errors of the client; the texts of anyhow are named.
pub data StripeError : Type 0 where
  not_sent unparsed : (path : Text) → StripeError
  refused : (path : Text) → (status : ℕ) → (message : Text) → StripeError
  missing : (what : Text) → StripeError

pub data StripeReply (Json : Type 0) : Type 0 where
  unsent : StripeReply Json
  answered : (status : ℕ) → (body : Option Json) → StripeReply Json

pub record StripeReader (Json : Type 0) : Type 0 where
  pub id : Json → Option Text
  pub url : Json → Option Text
  pub error_message : Json → Option Text

abbrev pub Params : Type 0
Params = List (Text × Text)

abbrev pub message_of : Option Text → Text
message_of none = codes "unknown stripe error"
message_of (some text) = text

module _ {S Json : Type 0} (send : S → (url : Text) → Params → StripeReply Json × S)
    (reader : StripeReader Json) where
  abbrev pub Stripe : Type 0 → Type 0
  Stripe A = Action (World S) StripeError A

  abbrev pub reply_body : (path : Text) → StripeReply Json → Result StripeError Json
  reply_body path unsent = err (not_sent path)
  reply_body path (answered status none) = err (unparsed path)
  reply_body path (answered status (some body)) =
      if is_success status
      then ok body
      else err (refused path status (message_of (reader.error_message body)))

  abbrev pub received :
      (path : Text) → World S → StripeReply Json × S → Result StripeError Json × World S
  received path w (reply, stripe) = (reply_body path reply, record w { stripe = stripe })

  unfoldable pub post_form : (path : Text) → Params → Stripe Json
  post_form path params w =
      received path w (send w.stripe (codes "https://api.stripe.com/v1" ++ path) params)

  unfoldable pub create_customer : (owner_label : Text) → Stripe Text
  unfolding post_form
  create_customer owner_label = do
    body ← post_form (codes "/customers") ((codes "metadata[owner]", owner_label) ∷ [])
    or_raise (reader.id body) (missing (codes "Stripe customer missing id"))

  unfoldable pub attach_payment_method : (customer_id payment_method_id : Text) → Stripe (Unit {0})
  unfolding post_form
  attach_payment_method customer_id payment_method_id = do
    post_form (codes "/payment_methods/" ++ (payment_method_id ++ codes "/attach"))
        ((codes "customer", customer_id) ∷ [])
    post_form (codes "/customers/" ++ customer_id)
        ((codes "invoice_settings[default_payment_method]", payment_method_id) ∷ [])
    pure tt

  unfoldable pub create_subscription : (customer_id price_id : Text) → Stripe Text
  unfolding post_form
  create_subscription customer_id price_id = do
    body ←
        post_form (codes "/subscriptions")
          ((codes "customer", customer_id) ∷ (codes "items[0][price]", price_id) ∷ [])
    or_raise (reader.id body) (missing (codes "Stripe subscription missing id"))

  unfoldable pub report_meter_event :
      (event_name stripe_customer_id : Text) (value timestamp : ℕ) (identifier : Text)
      → Stripe (Unit {0})
  unfolding post_form
  report_meter_event event_name stripe_customer_id value timestamp identifier = do
    post_form (codes "/billing/meter_events") (
        (codes "event_name", event_name)
        ∷ (codes "stripe_customer_id", stripe_customer_id)
        ∷ (codes "payload[value]", decimal value)
        ∷ (codes "timestamp", decimal timestamp)
        ∷ (codes "identifier", identifier)
        ∷ [])
    pure tt

  abbrev pub email_param : Option Text → Params
  email_param none = []
  email_param (some email) = (codes "email", email) ∷ []

  unfoldable pub create_connect_account : (email : Option Text) → Stripe Text
  unfolding post_form
  create_connect_account email = do
    body ← post_form (codes "/accounts") (
        (codes "type", codes "express")
        ∷ (codes "capabilities[transfers][requested]", codes "true")
        ∷ email_param email)
    or_raise (reader.id body) (missing (codes "Stripe account missing id"))

  unfoldable pub create_account_link : (account_id return_url refresh_url : Text) → Stripe Text
  unfolding post_form
  create_account_link account_id return_url refresh_url = do
    body ← post_form (codes "/account_links") (
        (codes "account", account_id)
        ∷ (codes "type", codes "account_onboarding")
        ∷ (codes "return_url", return_url)
        ∷ (codes "refresh_url", refresh_url)
        ∷ [])
    or_raise (reader.url body) (missing (codes "Stripe account_link missing url"))

  unfoldable pub create_transfer :
      (amount_cents : ℕ) (currency destination description : Text) → Stripe Text
  unfolding post_form
  create_transfer amount_cents currency destination description = do
    body ← post_form (codes "/transfers") (
        (codes "amount", decimal amount_cents)
        ∷ (codes "currency", currency)
        ∷ (codes "destination", destination)
        ∷ (codes "description", description)
        ∷ [])
    or_raise (reader.id body) (missing (codes "Stripe transfer missing id"))
