-- ===== src/Billing/Untouched.antt =====
-- The calls to Stripe and the queries leave the tables as they are.
use infer_platform.Base.{
  ℕ, ◌≡◌, refl, ap, Bool, List, [], ◌∷◌, ◌++◌, Option, none, some, Text, codes, length, ok, Action,
  arith, or_raise, ◌>>=◌, Keeps, Keeps-bind,
}
use infer_platform.Billing.{
  World, query, query_result, Params, StripeReply, StripeReader, StripeError, missing, post_form,
  create_customer, attach_payment_method, create_subscription, report_meter_event,
}

-- A part of the world apart from Stripe and the failures to come.
pub record IsTable {S X : Type 0} (part : World S → X) : Type 0 where
  pub skips_failing :
      (w : World S) (failing : List Bool) → part (record w { failing = failing }) ≡ part w
  pub skips_stripe : (w : World S) (stripe : S) → part (record w { stripe = stripe }) ≡ part w

module _ {S X : Type 0} (part : World S → X) (table : IsTable part) where
  query_parts :
      {E : Type 0} (e : E) (w : World S) (results : List Bool)
      → part (query_result e w results).1 ≡ part w
  query_parts e w [] = refl
  query_parts e w (fails ∷ rest) = table.skips_failing w rest

  pub Keeps-query : {E : Type 0} (e : E) → Keeps part (query {S = S} e)
  unfolding query
  Keeps-query e w = query_parts e w w.failing

  pub Keeps-or_raise :
      {A E : Type 0} (o : Option A) (e : E) → Keeps part (or_raise {S = World S} o e)
  Keeps-or_raise none e w = refl
  Keeps-or_raise (some a) e w = refl

module _ {S Json X : Type 0} (send : S → (url : Text) → Params → StripeReply Json × S)
    (reader : StripeReader Json) (part : World S → X) (table : IsTable part) where
  pub Keeps-post_form :
      (path : Text) (params : Params) → Keeps part (post_form send reader path params)
  unfolding post_form
  Keeps-post_form path params w =
      table.skips_stripe w (send w.stripe (codes "https://api.stripe.com/v1" ++ path) params).1

  Keeps-post_then :
      {A : Type 0} (path : Text) (params : Params) (f : Json → Action (World S) StripeError A)
      → ((body : Json) → Keeps part (f body))
      → Keeps part (post_form send reader path params >>= f)
  Keeps-post_then path params f hf =
      Keeps-bind part (post_form send reader path params) f (Keeps-post_form path params) hf

  pub Keeps-create_customer : (owner : Text) → Keeps part (create_customer send reader owner)
  unfolding create_customer
  Keeps-create_customer owner = Keeps-post_then _ _ _ (λ body.
      Keeps-or_raise part table (reader.id body) (missing (codes "Stripe customer missing id")))

  pub Keeps-create_subscription :
      (customer_id price_id : Text)
      → Keeps part (create_subscription send reader customer_id price_id)
  unfolding create_subscription
  Keeps-create_subscription customer_id price_id = Keeps-post_then _ _ _ (λ body.
      Keeps-or_raise part table (reader.id body) (missing (codes "Stripe subscription missing id")))

  pub Keeps-attach_payment_method :
      (customer_id method : Text)
      → Keeps part (attach_payment_method send reader customer_id method)
  unfolding attach_payment_method
  Keeps-attach_payment_method customer_id method =
      Keeps-post_then _ _ _ (λ body. Keeps-post_then _ _ _ (λ body2 w. refl))

  pub Keeps-report_meter_event :
      (event_name customer_id : Text) (value timestamp : ℕ) (identifier : Text)
      → Keeps part
          (report_meter_event send reader event_name customer_id value timestamp identifier)
  unfolding report_meter_event
  Keeps-report_meter_event event_name customer_id value timestamp identifier =
      Keeps-post_then _ _ _ (λ body w. refl)

-- A query that does not fail.
pub calm_query : {S E : Type 0} (e : E) (w : World S) → w.failing ≡ [] → query e w ≡ (ok tt, w)
unfolding query
calm_query e w calm = passes w.failing calm
  where
    passes : (results : List Bool) → results ≡ [] → query_result e w results ≡ (ok tt, w)
    passes [] h = refl
    passes (r ∷ results) h = absurd (ground (arith, ap length h))
