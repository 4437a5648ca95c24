-- ===== src/Billing/Examples.antt =====
-- Billing for one key, one node, and a Stripe that counts its requests.
use infer_platform.Base.{
  FloatOps, ℕ, suc, ◌+◌, ◌-◌, ◌*◌, ◌/◌, ◌%◌, ◌≡◌, refl, true, false, [], ◌∷◌, Option, none, some,
  Text, codes, text_eq, strip_prefix, decimal, ok, err, pos, ◌+ℤ◌, arith, ◌⊎◌, inr, to_nat,
}
use infer_platform.Keys.{ApiKey}
use infer_platform.Usage.{UsageLog, total, add_sums}
use infer_platform.Billing.{
  World, query, Params, StripeReply, answered, StripeReader, post_form, create_customer,
  attach_payment_method, create_subscription, create_transfer, ProviderAccount,
}
use infer_platform.Billing.Accounts.{
  Services, StripeConfig, ApiError, found, created, SetupResponse, insert_customer,
  insert_and_answer, save_customer, attach_and_save, new_customer, setup_with, setup,
}
use infer_platform.Billing.Accounts.Repeats.{setup_repeats}
use infer_platform.Billing.Webhook.{
  EventReader, split, read_part, read_parts, validate_webhook_signature, check_signature,
  handle_event, stripe_webhook,
}
use infer_platform.Billing.Webhook.Signed.{IsTrusted, webhook-IsTrusted}
use infer_platform.Billing.Meter.{hour, report_meter_usage, weighted_total}
use infer_platform.Billing.Meter.Hours.{reports_of, passed_hours_kept}
use infer_platform.Billing.Meter.Steps.{IsAccepting}
use infer_platform.Billing.Meter.Settled.{second_run_idle}
use infer_platform.Billing.Payouts.{
  Rates, Calendar, day, process_payouts, per_provider_cents, window_usage, pay, pay_usage,
  pay_providers, payout_tick,
}
use infer_platform.Billing.Payouts.Days.{run_ticks, paid_day_over}

bill : Unit {0}
unfolding setup setup_with new_customer attach_and_save save_customer insert_and_answer
    insert_customer query post_form create_customer attach_payment_method create_subscription
    text_eq strip_prefix stripe_webhook check_signature validate_webhook_signature split read_part
    read_parts handle_event
bill = tt

abbrev key : ApiKey
key = record {
  id = codes "k";
  key_hash = codes "h";
  owner = codes "o";
  rate_limit_rpm = pos 60;
  daily_spend_cap_cents = none;
  created_at = 0;
  revoked_at = none;
}

abbrev usage : UsageLog
usage = record {
  key_id = some (codes "k");
  model = codes "m";
  tokens_in = pos 3;
  tokens_out = pos 4;
  timestamp = hour + 1;
}

abbrev account : ProviderAccount
account = record {
  id = codes "a";
  node_id = codes "n";
  stripe_account_id = codes "acct";
  onboarding_complete = true;
  created_at = 0;
  updated_at = 0;
}

-- Stripe is the number of requests so far, and answers each with an id.
abbrev world : World ℕ
world = record {
  failing = [];
  api_keys = key ∷ [];
  node_ids = codes "n" ∷ [];
  usage_logs = usage ∷ [];
  customers = [];
  accounts = account ∷ [];
  meter_reports = [];
  stripe = 0;
}

abbrev send : ℕ → (url : Text) → Params → StripeReply ℕ × ℕ
send stripe url params = (answered 200 (some stripe), suc stripe)

abbrev reader : StripeReader ℕ
reader = record { id = λ n. some (n ∷ []); url = λ n. some (codes "u"); error_message = λ n. none }

abbrev config : StripeConfig
config = record {
  webhook_secret = codes "s";
  meter_event_name = codes "tokens";
  price_id = some (codes "p");
}

abbrev services : Services
services = record { has_db = true; stripe = some config }

-- A customer, two requests for the payment method, and a subscription.
abbrev answer : SetupResponse
answer = record { customer_id = 0 ∷ []; subscription_id = some (3 ∷ []) }

abbrev set_up : World ℕ
set_up = record world {
  customers =
      record {
        id = codes "c";
        key_id = codes "k";
        stripe_customer_id = 0 ∷ [];
        stripe_payment_method_id = some (codes "pm");
        stripe_subscription_id = some (3 ∷ []);
        created_at = 5;
        updated_at = 5;
      }
      ∷ [];
  stripe = 4;
}

first_setup :
    setup send reader services (codes "k") (codes "pm") (codes "c") 5 world
    ≡ (ok (created, answer), set_up)
unfolding bill
first_setup = refl

setup_repeats_example :
    setup send reader services (codes "k") (codes "pm2") (codes "c2") 6 set_up
    ≡ (ok (found, answer), set_up)
setup_repeats_example =
    setup_repeats send reader services (codes "k") (codes "pm") (codes "pm2") (codes "c")
      (codes "c2") 5 6 created answer world set_up first_setup refl

-- The MAC of a message is the message, and no event is read.
abbrev mac : (secret message : Text) → Option Text
mac secret message = some message

abbrev events : EventReader ℕ
events = record {
  parse = λ body. some 0;
  event_type = λ e. some (codes "account.updated");
  object_id = λ e. some (codes "acct");
  customer = λ e. none;
  charges_enabled = λ e. some true;
  payouts_enabled = λ e. some false;
}

webhook-IsTrusted_example :
    IsTrusted mac (codes "s") (codes "b") (some (codes "t=1,v1=1.b"))
    ⊎ ((e : ApiError) × (stripe_webhook mac events services 7
            (some (codes "t=1,v1=1.b"))
            (codes "b")
            world
          ≡ (err e, world)))
webhook-IsTrusted_example =
    webhook-IsTrusted mac events services config 7 (some (codes "t=1,v1=1.b")) (codes "b") world
      refl refl

-- The delivery is taken, and the account is no longer complete.
delivered : stripe_webhook mac events services 7 (some (codes "t=1,v1=1.b")) (codes "b") world ≡ (
  ok tt,
  record world { accounts = record account { onboarding_complete = false; updated_at = 7 } ∷ [] },
)
unfolding bill
delivered = refl

passed_hours_kept_example :
    reports_of hour (report_meter_usage send reader services (hour + hour + hour) set_up).1
    ≡ reports_of hour set_up
passed_hours_kept_example =
    passed_hours_kept send reader services (hour + hour + hour) hour set_up (omega arith)
      (inr (omega arith))

accepting : IsAccepting send reader
unfolding IsAccepting
accepting s path url params = (s, refl)

second_run_idle_example :
    (last : World ℕ) × (report_meter_usage send reader services (hour + hour + 5) set_up
      ≡ (ok tt, last))
    × (report_meter_usage send reader services (hour + hour + 9) last ≡ (ok tt, last))
second_run_idle_example =
    second_run_idle send reader services (hour + hour + 5) (hour + hour + 9) set_up accepting
      (omega arith) refl

-- Whole numbers for amounts, and no calendar but the day.
abbrev ops : FloatOps ℕ
ops = record {
  of_int = λ z. to_nat z;
  mul = λ a b. a * b;
  sub = λ a b. a - b;
  add = λ a b. a + b;
  round = λ a. a;
  zero = 0;
  div = λ a b. a / b;
  floor = λ a. a;
  as_u64 = λ a. a;
}

abbrev calendar : Calendar
calendar = record { hour = λ t. (t / hour) % 24; ordinal = λ t. t / day; date = λ t. [] }

abbrev rates : Rates ℕ
rates = record { token_rate_usd_per_1k = 1000; commission_rate = 0 }

pay_day : Unit {0}
unfolding process_payouts pay_providers pay_usage pay query create_transfer post_form window_usage
    per_provider_cents total add_sums weighted_total ◌+ℤ◌ decimal text_eq payout_tick
pay_day = tt

-- One transfer, at two o'clock.
abbrev two : ℕ
two = hour + hour

paid :
    process_payouts send reader ops calendar true (some rates) two world
    ≡ (ok tt, record world { stripe = 1 })
unfolding pay_day
paid = refl

paid_day_over_example :
    run_ticks send reader ops calendar true (some rates) (two ∷ (two + 300) ∷ []) (none, world)
    ≡ (some 0, record world { stripe = 1 })
paid_day_over_example =
    paid_day_over send reader ops calendar true (some rates) two ((two + 300) ∷ []) none world
      (record world { stripe = 1 }) refl refl paid (refl, tt)
