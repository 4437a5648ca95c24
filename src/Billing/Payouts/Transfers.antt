-- ===== src/Billing/Payouts/Transfers.antt =====
-- The transfers of a payout run.
use infer_platform.Base.{
  FloatOps, ℕ, ◌==◌, List, [], ◌∷◌, map, filter, length, Text, codes, decimal, if◌then◌else◌,
}
use infer_platform.Billing.{ProviderAccount, World, Params, StripeReply}
use infer_platform.Billing.Payouts.{
  Rates, Calendar, is_payable, window_usage, is_zero, description_of, per_provider_cents,
}

-- One request for the transfer of an amount to an account.
abbrev pub transfer_request : (cents : ℕ) (description : Text) → ProviderAccount → Text × Params
transfer_request cents description account = (
  codes "https://api.stripe.com/v1/transfers",
  (codes "amount", decimal cents)
      ∷ (codes "currency", codes "usd")
      ∷ (codes "destination", account.stripe_account_id)
      ∷ (codes "description", description)
      ∷ [],
)

module _ {S Json : Type 0} (send : S → (url : Text) → Params → StripeReply Json × S) where
  -- Stripe after some requests, whatever it answered.
  unfoldable pub send_all : List (Text × Params) → S → S
  send_all [] stripe = stripe
  send_all ((url, params) ∷ more) stripe = send_all more (send stripe url params).1

  unfoldable pub sent : World S → List (Text × Params) → World S
  unfolding send_all
  sent w requests = record w { stripe = send_all requests w.stripe }

module _ {F : Type 0} (ops : FloatOps F) (calendar : Calendar) where
  -- What is due: to each payable account the same share of the day's usage.
  unfoldable pub transfers_due : {S : Type 0} → Rates F → (now : ℕ) → World S → List (Text × Params)
  unfolding window_usage per_provider_cents
  transfers_due rates now w =
      let accounts = filter (is_payable w.node_ids) w.accounts in
      let usage = window_usage now w.usage_logs in
      let cents = per_provider_cents ops rates usage (length accounts) in
      if is_zero usage
      then []
      else if cents == 0
      then []
      else map (transfer_request cents (description_of calendar now)) accounts
