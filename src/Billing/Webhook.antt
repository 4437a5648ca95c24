-- ===== src/Billing/Webhook.antt =====
-- `validate_webhook_signature` of crates/api-gateway/src/billing.rs, and `stripe_webhook` with its two handlers in
-- routes/billing.rs. `mac` is the hexadecimal HMAC-SHA256 of a message under a secret, none when
-- the secret is not a key; `EventReader` is how serde_json parses the body and reads its members.
pub mod Signed
use infer_platform.Base.{
  ℕ, ◌==◌, Bool, true, false, ◌&&◌, List, [], ◌∷◌, ◌++◌, map, any, is_empty, Option, none, some,
  Text, codes, text_eq, strip_prefix, Result, ok, err, Action, pure, raise, or_raise, modify, ◌>>=◌,
  ◌>>◌, ignore_err, if◌then◌else◌,
}
use infer_platform.Billing.{BillingCustomer, ProviderAccount, World, query}
use infer_platform.Billing.Accounts.{
  Services, StripeConfig, ApiError, missing_signature, invalid_signature, invalid_payload,
  verification_failed, require_stripe,
}

abbrev cons_first : ℕ → List Text → List Text
cons_first x [] = (x ∷ []) ∷ []
cons_first x (part ∷ parts) = (x ∷ part) ∷ parts

-- `str::split` at a character.
unfoldable pub split : ℕ → Text → List Text
split c [] = [] ∷ []
split c (x ∷ s) = let parts = split c s in if x == c then [] ∷ parts else cons_first x parts

abbrev pub comma : ℕ
comma = 44

-- The parts read so far: the last `t=`, and every `v1=`.
pub record SignatureHeader : Type 0 where
  pub timestamp : Option Text
  pub signatures : List Text

abbrev read_v1 : Option Text → SignatureHeader → SignatureHeader
read_v1 none h = h
read_v1 (some v) h = record h { signatures = h.signatures ++ (v ∷ []) }

abbrev read_t : (part : Text) → Option Text → SignatureHeader → SignatureHeader
read_t part none h = read_v1 (strip_prefix part (codes "v1=")) h
read_t part (some t) h = record h { timestamp = some t }

unfoldable pub read_part : Text → SignatureHeader → SignatureHeader
unfolding strip_prefix
read_part part h = read_t part (strip_prefix part (codes "t=")) h

unfoldable pub read_parts : SignatureHeader → List Text → SignatureHeader
unfolding read_part
read_parts h [] = h
read_parts h (part ∷ parts) = read_parts (read_part part h) parts

abbrev pub no_parts : SignatureHeader
no_parts = record { timestamp = none; signatures = [] }

pub data SignatureError : Type 0 where
  missing_timestamp no_signatures invalid_key : SignatureError

-- What the signature is of.
abbrev pub signed_text : (ts payload : Text) → Text
signed_text ts payload = ts ++ (codes "." ++ payload)

abbrev matches_any : List Text → Option Text → Result SignatureError Bool
matches_any signatures none = err invalid_key
matches_any signatures (some expected) = ok (any (λ s. text_eq s expected) signatures)

abbrev check_parts :
    (mac : (secret message : Text) → Option Text) (payload secret : Text)
    → Option Text
    → List Text
    → Result SignatureError Bool
check_parts mac payload secret none signatures = err missing_timestamp
check_parts mac payload secret (some ts) [] = err no_signatures
check_parts mac payload secret (some ts) (s ∷ more) =
    matches_any (s ∷ more) (mac secret (signed_text ts payload))

unfoldable pub validate_webhook_signature :
    (mac : (secret message : Text) → Option Text) (payload sig_header secret : Text)
    → Result SignatureError Bool
unfolding split read_parts
validate_webhook_signature mac payload sig_header secret =
    let h = read_parts no_parts (split comma sig_header) in
    check_parts mac payload secret h.timestamp h.signatures

pub record EventReader (Json : Type 0) : Type 0 where
  pub parse : List ℕ → Option Json
  pub event_type : Json → Option Text
  pub object_id : Json → Option Text
  pub customer : Json → Option Text
  pub charges_enabled : Json → Option Bool
  pub payouts_enabled : Json → Option Bool

abbrev or_false : Option Bool → Bool
or_false none = false
or_false (some b) = b

abbrev or_unknown : Option Text → Text
or_unknown none = codes "unknown"
or_unknown (some t) = t

-- The UPDATE statements.
abbrev pub set_onboarding :
    (account_id : Text) (complete : Bool) (now : ℕ) → ProviderAccount → ProviderAccount
set_onboarding account_id complete now row =
    if text_eq row.stripe_account_id account_id
    then record row { onboarding_complete = complete; updated_at = now }
    else row

abbrev pub touch_customer : (customer_id : Text) (now : ℕ) → BillingCustomer → BillingCustomer
touch_customer customer_id now row =
    if text_eq row.stripe_customer_id customer_id then record row { updated_at = now } else row

abbrev pub Handler : Type 0 → Type 0
Handler S = Action (World S) ApiError (Unit {0})

module _ {S Json : Type 0} (reader : EventReader Json) where
  abbrev update_accounts : (complete : Bool) (now : ℕ) → Option Text → Handler S
  update_accounts complete now none = pure tt
  update_accounts complete now (some account_id) = ignore_err {E = Unit {0}} (
      query tt
      >> modify
          (λ w. record w { accounts = map (set_onboarding account_id complete now) w.accounts }))

  unfoldable pub handle_account_updated : Services → (now : ℕ) → Json → Handler S
  unfolding query
  handle_account_updated services now event =
      if services.has_db
      then update_accounts
          (or_false (reader.charges_enabled event) && or_false (reader.payouts_enabled event)) now
          (reader.object_id event)
      else pure tt

  abbrev touch_customers : (now : ℕ) → Option Text → Handler S
  touch_customers now none = pure tt
  touch_customers now (some customer_id) = ignore_err {E = Unit {0}} (
      query tt
      >> modify (λ w. record w { customers = map (touch_customer customer_id now) w.customers }))

  unfoldable pub handle_payment_failed : Services → (now : ℕ) → Json → Handler S
  unfolding query
  handle_payment_failed services now event =
      if services.has_db then touch_customers now (reader.customer event) else pure tt

  abbrev handle : Services → (now : ℕ) → Json → Handler S
  handle services now event =
      let event_type = or_unknown (reader.event_type event) in
      if text_eq event_type (codes "account.updated")
      then handle_account_updated services now event
      else if text_eq event_type (codes "invoice.payment_failed")
      then handle_payment_failed services now event
      else pure tt

  unfoldable pub handle_event : Services → (now : ℕ) (body : Text) → Handler S
  unfolding text_eq handle_account_updated handle_payment_failed
  handle_event services now body = do
    event ← or_raise (reader.parse body) invalid_payload
    handle services now event

module _ {S : Type 0} (mac : (secret message : Text) → Option Text) where
  abbrev pub verified : Result SignatureError Bool → Handler S
  verified (err e) = raise invalid_signature
  verified (ok false) = raise verification_failed
  verified (ok true) = pure tt

  abbrev pub check_header : (secret body : Text) → Option Text → Handler S
  check_header secret body none = raise missing_signature
  check_header secret body (some sig) = verified (validate_webhook_signature mac body sig secret)

  unfoldable pub check_signature : (secret body : Text) → (header : Option Text) → Handler S
  unfolding validate_webhook_signature
  check_signature secret body header =
      if is_empty secret then pure tt else check_header secret body header

module _ {S Json : Type 0} (mac : (secret message : Text) → Option Text)
    (reader : EventReader Json) where
  unfoldable pub stripe_webhook :
      Services → (now : ℕ) (header : Option Text) (body : Text) → Handler S
  unfolding check_signature handle_event
  stripe_webhook services now header body = do
    cfg ← require_stripe services
    check_signature mac cfg.webhook_secret body header
    handle_event reader services now body
