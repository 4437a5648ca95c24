-- ===== src/Billing/Accounts.antt =====
-- `setup` and `connect` of crates/api-gateway/src/routes/billing.rs. An insert fails when a UNIQUE
-- column is taken or the row it refers to is not there, as migrations/003_billing.sql of the crate declares.
pub mod Untouched
pub mod Repeats
use infer_platform.Base.{
  ℕ, ◌≡◌, Bool, true, false, not, ◌||◌, ◌&&◌, List, [], ◌∷◌, ◌++◌, Option, none, some, Text, codes,
  text_eq, any, find, Result, ok, err, Action, pure, raise, gets, or_raise, modify, ◌>>=◌, ◌>>◌,
  map_err, if◌then◌else◌,
}
use infer_platform.Keys.{ApiKey}
use infer_platform.Billing.{
  BillingCustomer, ProviderAccount, World, query, Params, StripeReply, StripeReader, StripeError,
  create_customer, attach_payment_method, create_subscription, create_connect_account,
  create_account_link,
}

-- The client is the parameter `send`, and the two rates are Payouts.Rates.
pub record StripeConfig : Type 0 where
  pub webhook_secret : Text
  pub meter_event_name : Text
  pub price_id : Option Text

-- Whether DATABASE_URL and STRIPE_SECRET_KEY are configured.
pub record Services : Type 0 where
  pub has_db : Bool
  pub stripe : Option StripeConfig

-- 503, 500, 502, 409, and the refusals of the webhook with 400 and 401.
pub data ApiError : Type 0 where
  needs_database needs_stripe : ApiError
  internal_error : (message : Text) → ApiError
  stripe_error : (message : Text) → ApiError
  onboarding_complete : ApiError
  missing_signature invalid_signature invalid_payload : ApiError
  verification_failed : ApiError

abbrev pub database_error : ApiError
database_error = internal_error (codes "database error")

abbrev pub require_db : {S : Type 0} → Services → Action (World S) ApiError (Unit {0})
require_db services w = (if services.has_db then ok tt else err needs_database, w)

abbrev pub require_stripe : {S : Type 0} → Services → Action (World S) ApiError StripeConfig
require_stripe services = or_raise services.stripe needs_stripe

-- 200 for what was there, 201 for what is new.
pub data Status : Type 0 where
  found created : Status

pub record SetupResponse : Type 0 where
  pub customer_id : Text
  pub subscription_id : Option Text

abbrev pub has_key : Text → BillingCustomer → Bool
has_key key_id row = text_eq row.key_id key_id

abbrev pub key_has_id : Text → ApiKey → Bool
key_has_id id row = text_eq row.id id

abbrev pub owner_or : Text → Option ApiKey → Text
owner_or key_id none = key_id
owner_or key_id (some row) = row.owner

abbrev pub customer_clashes : BillingCustomer → BillingCustomer → Bool
customer_clashes new old =
    text_eq old.id new.id
    || text_eq old.key_id new.key_id
    || text_eq old.stripe_customer_id new.stripe_customer_id

unfoldable pub insert_customer :
    {S : Type 0} → BillingCustomer → Action (World S) ApiError (Unit {0})
insert_customer row w =
    if any (customer_clashes row) w.customers || not (any (key_has_id row.key_id) w.api_keys)
    then (err database_error, w)
    else (ok tt, record w { customers = w.customers ++ (row ∷ []) })

pub record ConnectRequest : Type 0 where
  pub node_id : Text
  pub return_url : Text
  pub refresh_url : Text
  pub email : Option Text

pub record ConnectResponse : Type 0 where
  pub account_id : Text
  pub onboarding_url : Text

abbrev pub of_node : Text → ProviderAccount → Bool
of_node node_id row = text_eq row.node_id node_id

abbrev account_clashes : ProviderAccount → ProviderAccount → Bool
account_clashes new old =
    text_eq old.id new.id || text_eq old.stripe_account_id new.stripe_account_id

unfoldable pub insert_account :
    {S : Type 0} → ProviderAccount → Action (World S) ApiError (Unit {0})
insert_account row w =
    if any (account_clashes row) w.accounts || not (any (text_eq row.node_id) w.node_ids)
    then (err database_error, w)
    else (ok tt, record w { accounts = w.accounts ++ (row ∷ []) })

module _ {S Json : Type 0} (send : S → (url : Text) → Params → StripeReply Json × S)
    (reader : StripeReader Json) where
  abbrev pub Handler : Type 0 → Type 0
  Handler A = Action (World S) ApiError A

  -- `map_err(|e| stripe_error(message))`
  abbrev pub or_stripe_error : {A : Type 0} → Text → Action (World S) StripeError A → Handler A
  or_stripe_error message = map_err (λ e. stripe_error message)

  abbrev pub subscribe : Text → Option Text → Handler (Option Text)
  subscribe customer_id none = pure none
  subscribe customer_id (some price_id) = do
    sub_id ←
        or_stripe_error (codes "failed to create subscription")
          (create_subscription send reader customer_id price_id)
    pure (some sub_id)

  abbrev pub customer_row :
      (key_id payment_method_id new_id : Text) (now : ℕ) (customer_id : Text)
      → Option Text
      → BillingCustomer
  customer_row key_id payment_method_id new_id now customer_id subscription_id = record {
    id = new_id;
    key_id = key_id;
    stripe_customer_id = customer_id;
    stripe_payment_method_id = some payment_method_id;
    stripe_subscription_id = subscription_id;
    created_at = now;
    updated_at = now;
  }

  unfoldable pub insert_and_answer : BillingCustomer → Handler (Status × SetupResponse)
  unfolding insert_customer
  insert_and_answer row = do
    insert_customer row
    pure (
      created,
      record { customer_id = row.stripe_customer_id; subscription_id = row.stripe_subscription_id },
    )

  unfoldable pub save_customer : BillingCustomer → Handler (Status × SetupResponse)
  unfolding query insert_and_answer
  save_customer row = do query database_error; insert_and_answer row

  unfoldable pub attach_and_save :
      StripeConfig
      → (key_id payment_method_id new_id : Text) (now : ℕ) (customer_id : Text)
      → Handler (Status × SetupResponse)
  unfolding attach_payment_method create_subscription save_customer
  attach_and_save cfg key_id payment_method_id new_id now customer_id = do
    or_stripe_error (codes "failed to attach payment method")
        (attach_payment_method send reader customer_id payment_method_id)
    subscription_id ← subscribe customer_id cfg.price_id
    save_customer (customer_row key_id payment_method_id new_id now customer_id subscription_id)

  unfoldable pub new_customer :
      StripeConfig
      → (key_id payment_method_id new_id : Text) (now : ℕ) → Handler (Status × SetupResponse)
  unfolding query create_customer attach_and_save
  new_customer cfg key_id payment_method_id new_id now = do
    query database_error
    keys ← gets (λ w. w.api_keys)
    customer_id ←
        or_stripe_error (codes "failed to create Stripe customer")
          (create_customer send reader (owner_or key_id (find (key_has_id key_id) keys)))
    attach_and_save cfg key_id payment_method_id new_id now customer_id

  abbrev pub setup_found :
      StripeConfig
      → (key_id payment_method_id new_id : Text) (now : ℕ) → Option BillingCustomer
      → Handler (Status × SetupResponse)
  setup_found cfg key_id payment_method_id new_id now none =
      new_customer cfg key_id payment_method_id new_id now
  setup_found cfg key_id payment_method_id new_id now (some existing) = pure (
    found,
    record {
      customer_id = existing.stripe_customer_id;
      subscription_id = existing.stripe_subscription_id;
    },
  )

  unfoldable pub setup_with :
      (key_id payment_method_id new_id : Text) (now : ℕ)
      → StripeConfig
      → Handler (Status × SetupResponse)
  unfolding query new_customer
  setup_with key_id payment_method_id new_id now cfg = do
    query database_error
    customers ← gets (λ w. w.customers)
    setup_found cfg key_id payment_method_id new_id now (find (has_key key_id) customers)

  unfoldable pub setup :
      Services
      → (key_id payment_method_id new_id : Text) (now : ℕ) → Handler (Status × SetupResponse)
  unfolding setup_with
  setup services key_id payment_method_id new_id now = do
    require_db services
    cfg ← require_stripe services
    setup_with key_id payment_method_id new_id now cfg

  unfoldable pub new_account :
      ConnectRequest → (new_id : Text) (now : ℕ) → Handler (Status × ConnectResponse)
  unfolding query create_connect_account create_account_link insert_account
  new_account req new_id now = do
    account_id ←
        or_stripe_error (codes "failed to create Connect account")
          (create_connect_account send reader req.email)
    onboarding_url ←
        or_stripe_error (codes "failed to create account link")
          (create_account_link send reader account_id req.return_url req.refresh_url)
    query database_error
    insert_account (record {
      id = new_id;
      node_id = req.node_id;
      stripe_account_id = account_id;
      onboarding_complete = false;
      created_at = now;
      updated_at = now;
    })
    pure (created, record { account_id = account_id; onboarding_url = onboarding_url })

  abbrev pub reissue : ConnectRequest → ProviderAccount → Handler (Status × ConnectResponse)
  reissue req existing = do
    url ←
        or_stripe_error (codes "failed to create account link") (
          create_account_link send reader existing.stripe_account_id req.return_url req.refresh_url)
    pure (found, record { account_id = existing.stripe_account_id; onboarding_url = url })

  abbrev pub connect_found :
      ConnectRequest
      → (new_id : Text) (now : ℕ) → Option ProviderAccount
      → Handler (Status × ConnectResponse)
  connect_found req new_id now none = new_account req new_id now
  connect_found req new_id now (some existing) =
      if existing.onboarding_complete then raise onboarding_complete else reissue req existing

  unfoldable pub connect :
      Services → ConnectRequest → (new_id : Text) (now : ℕ) → Handler (Status × ConnectResponse)
  unfolding query new_account create_account_link
  connect services req new_id now = do
    require_db services
    require_stripe services
    query database_error
    accounts ← gets (λ w. w.accounts)
    connect_found req new_id now (find (of_node req.node_id) accounts)
