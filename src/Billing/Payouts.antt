-- ===== src/Billing/Payouts.antt =====
-- `process_payouts` of crates/api-gateway/src/billing_cron.rs, and the loop of `spawn` that runs it once
-- a day. The arithmetic of f64 is the parameter `FloatOps`, chrono's calendar is `Calendar`; a
-- literal such as 1000.0 is the conversion of the integer. Times are nanoseconds.
pub mod Transfers
pub mod Days
use infer_platform.Base.{
  FloatOps, ℕ, ◌-◌, ◌==◌, leb, ltb, Bool, true, false, not, ◌&&◌, List, [], ◌∷◌, ◌++◌, map, filter,
  any, is_empty, length, Option, none, some, Text, codes, text_eq, Result, ok, err, ℤ, pos, ◌+ℤ◌,
  Action, pure, gets, ◌>>=◌, ◌>>◌, ignore_err, if◌then◌else◌,
}
use infer_platform.Nodes.{seconds}
use infer_platform.Usage.{UsageLog, Sums, sums_of, total}
use infer_platform.Billing.{
  ProviderAccount, World, query, Params, StripeReply, StripeReader, create_transfer,
}
use infer_platform.Billing.Accounts.{Services}
use infer_platform.Billing.Meter.{weighted_total}

pub record Rates (F : Type 0) : Type 0 where
  pub token_rate_usd_per_1k : F
  pub commission_rate : F

pub record Calendar : Type 0 where
  pub hour : ℕ → ℕ
  pub ordinal : ℕ → ℕ
  pub date : ℕ → Text

abbrev pub day : ℕ
day = seconds 86400

-- The accounts of the query: onboarded, and of a node that is there.
abbrev pub is_payable : List Text → ProviderAccount → Bool
is_payable node_ids row = any (text_eq row.node_id) node_ids && row.onboarding_complete

abbrev pub in_window : (now : ℕ) → UsageLog → Bool
in_window now row = leb (now - day) row.timestamp && ltb row.timestamp now

unfoldable pub window_usage : (now : ℕ) → List UsageLog → ℤ
unfolding total weighted_total
window_usage now rows = weighted_total (total (map sums_of (filter (in_window now) rows)))

abbrev pub is_zero : ℤ → Bool
is_zero (pos n) = n == 0
is_zero z = false

abbrev pub description_of : Calendar → (now : ℕ) → Text
description_of calendar now =
    codes "Infer provider earnings " ++ (calendar.date (now - day) ++ codes " UTC")

module _ {F : Type 0} (ops : FloatOps F) where
  unfoldable pub per_provider_cents : Rates F → (total_weighted : ℤ) (providers : ℕ) → ℕ
  per_provider_cents rates total_weighted providers =
      let gross_usd =
        ops.div (ops.mul (ops.of_int total_weighted) rates.token_rate_usd_per_1k)
          (ops.of_int (pos 1000)) in
      let provider_pool_usd =
        ops.mul gross_usd (ops.sub (ops.of_int (pos 1)) rates.commission_rate) in
      let per_provider_usd = ops.div provider_pool_usd (ops.of_int (pos providers)) in
      ops.as_u64 (ops.floor (ops.mul per_provider_usd (ops.of_int (pos 100))))

abbrev pub same_day : ℕ → Option ℕ → Bool
same_day today none = false
same_day today (some d) = today == d

abbrev pub mark :
    {S : Type 0} (today : ℕ) (last_payout_day : Option ℕ)
    → Result (Unit {0}) (Unit {0}) × World S
    → Option ℕ × World S
mark today last_payout_day (ok t, w) = (some today, w)
mark today last_payout_day (err e, w) = (last_payout_day, w)

module _ {S Json F : Type 0} (send : S → (url : Text) → Params → StripeReply Json × S)
    (reader : StripeReader Json) (ops : FloatOps F) (calendar : Calendar) where
  -- A query that fails ends the run; what Stripe refuses is logged.
  abbrev pub Run : Type 0
  Run = Action (World S) (Unit {0}) (Unit {0})

  unfoldable pub pay : (cents : ℕ) (description : Text) → List ProviderAccount → Run
  unfolding create_transfer
  pay cents description [] = pure tt
  pay cents description (provider ∷ more) = do
    ignore_err
        (create_transfer send reader cents (codes "usd") provider.stripe_account_id description)
    pay cents description more

  abbrev pub pay_some : (cents : ℕ) (description : Text) → List ProviderAccount → Run
  pay_some cents description providers =
      if cents == 0 then pure tt else pay cents description providers

  unfoldable pub pay_usage : Rates F → (now : ℕ) → List ProviderAccount → ℤ → Run
  unfolding pay per_provider_cents
  pay_usage rates now providers total_weighted =
      if is_zero total_weighted
      then pure tt
      else pay_some (per_provider_cents ops rates total_weighted (length providers))
          (description_of calendar now) providers

  unfoldable pub pay_providers : Rates F → (now : ℕ) → List ProviderAccount → Run
  unfolding query pay_usage window_usage
  pay_providers rates now providers = if is_empty providers then pure tt else (do
    query tt
    rows ← gets (λ w. w.usage_logs)
    pay_usage rates now providers (window_usage now rows))

  abbrev pub payouts_with : Rates F → (now : ℕ) → Run
  payouts_with rates now = do
    query tt
    providers ← gets (λ w. filter (is_payable w.node_ids) w.accounts)
    pay_providers rates now providers

  abbrev pub payouts_configured : Option (Rates F) → (now : ℕ) → Run
  payouts_configured none now = pure tt
  payouts_configured (some rates) now = payouts_with rates now

  -- `rates` are there when STRIPE_SECRET_KEY is.
  unfoldable pub process_payouts : (has_db : Bool) (rates : Option (Rates F)) (now : ℕ) → Run
  unfolding query pay_providers
  process_payouts has_db rates now = if has_db then payouts_configured rates now else pure tt

  -- One round of the nightly loop.
  unfoldable pub payout_tick :
      (has_db : Bool) (rates : Option (Rates F)) (now : ℕ) → Option ℕ × World S → Option ℕ × World S
  unfolding process_payouts
  payout_tick has_db rates now (last_payout_day, w) =
      let today = calendar.ordinal now in
      if (calendar.hour now == 2) && not (same_day today last_payout_day)
      then mark today last_payout_day (process_payouts has_db rates now w)
      else (last_payout_day, w)
