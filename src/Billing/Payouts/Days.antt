-- ===== src/Billing/Payouts/Days.antt =====
-- The nightly loop over the rounds of a day.
use infer_platform.Base.{
  FloatOps, ℕ, ◌==◌, ◌≡◌, refl, ap, ◌∙◌, Bool, true, false, List, [], ◌∷◌, All, Option, some, Text,
  ok, arith, Bool-cases, inl, inr,
}
use infer_platform.Billing.{World, Params, StripeReply, StripeReader}
use infer_platform.Billing.Payouts.{Rates, Calendar, process_payouts, same_day, payout_tick}

module _ {S Json F : Type 0} (send : S → (url : Text) → Params → StripeReply Json × S)
    (reader : StripeReader Json) (ops : FloatOps F) (calendar : Calendar) (has_db : Bool)
    (rates : Option (Rates F)) where
  -- The rounds at some times, one after the other.
  unfoldable pub run_ticks : List ℕ → Option ℕ × World S → Option ℕ × World S
  unfolding payout_tick
  run_ticks [] state = state
  run_ticks (now ∷ later) state =
      run_ticks later (payout_tick send reader ops calendar has_db rates now state)

  paid_tick :
      (now today : ℕ) (w : World S)
      → calendar.ordinal now ≡ today
      → payout_tick send reader ops calendar has_db rates now (some today, w) ≡ (some today, w)
  unfolding payout_tick
  paid_tick now today w same =
      let now_today : (calendar.ordinal now == today) ≡ true = ground (arith, same) in
      elim (Bool-cases (calendar.hour now == 2)) [
        | inl at_two ↦ rw (at_two, now_today) refl
        | inr other ↦ rw other refl
      ]

  paid_ticks :
      (later : List ℕ) (today : ℕ) (w : World S)
      → All (λ t. calendar.ordinal t ≡ today) later
      → run_ticks later (some today, w) ≡ (some today, w)
  unfolding run_ticks
  paid_ticks [] today w a = refl
  paid_ticks (now ∷ later) today w a =
      ap (run_ticks later) (paid_tick now today w a.0) ∙ paid_ticks later today w a.1

  -- Once the payouts of a day have run without an error, whatever Stripe answered to the transfers,
  -- the later rounds of that day change nothing and pay nobody.
  pub paid_day_over :
      (now : ℕ) (later : List ℕ) (last_payout_day : Option ℕ) (w paid : World S)
      → calendar.hour now ≡ 2
      → same_day (calendar.ordinal now) last_payout_day ≡ false
      → process_payouts send reader ops calendar has_db rates now w ≡ (ok tt, paid)
      → All (λ t. calendar.ordinal t ≡ calendar.ordinal now) later
      → run_ticks (now ∷ later) (last_payout_day, w) ≡ (some (calendar.ordinal now), paid)
  unfolding run_ticks payout_tick
  paid_day_over now later last_payout_day w paid at_two new_day ran same =
      ap (run_ticks later) first ∙ paid_ticks later (calendar.ordinal now) paid same
    where
      first :
          payout_tick send reader ops calendar has_db rates now (last_payout_day, w)
          ≡ (some (calendar.ordinal now), paid)
      first = rw (at_two, new_day, ran) refl
