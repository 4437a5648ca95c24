-- ===== src/Billing/Accounts/Repeats.antt =====
-- Setting billing up a second time.
use mathlib.Core.Path.{subst}
use infer_platform.Base.{
  ℕ, ◌≡◌, refl, sym, ap, ◌∙◌, true, not, ◌||◌, List, [], ◌∷◌, ◌++◌, Option, none, some, Text, codes,
  text_eq_refl, any, find, Result, ok, Action, ◌>>=◌, >>=_ok, >>=-eq_ok, Keeps, Keeps-map_err,
  arith, Bool-cases, Option-cases, inl, inr,
}
use infer_platform.Billing.{
  BillingCustomer, World, query, Params, StripeReply, StripeReader, create_customer,
  attach_payment_method,
}
use infer_platform.Billing.Accounts.{
  ApiError, Services, StripeConfig, Status, found, SetupResponse, has_key, insert_customer,
  insert_and_answer, save_customer, customer_row, customer_clashes, key_has_id, owner_or,
  attach_and_save, new_customer, setup_with, setup, setup_found, subscribe, or_stripe_error,
  database_error,
}
use infer_platform.Billing.Accounts.Untouched.{customers_of, customers_of-IsTable, Keeps-subscribe}
use infer_platform.Billing.Untouched.{
  calm_query, Keeps-query, Keeps-create_customer, Keeps-attach_payment_method,
}

module _ {S Json : Type 0} (send : S → (url : Text) → Params → StripeReply Json × S)
    (reader : StripeReader Json) where
  -- The key has a customer, and the answer is about it.
  pub record IsSetUp (key_id : Text) (answer : SetupResponse) (w : World S) : Type 0 where
    pub row : BillingCustomer
    pub kept : find (has_key key_id) w.customers ≡ some row
    pub same_customer : row.stripe_customer_id ≡ answer.customer_id
    pub same_subscription : row.stripe_subscription_id ≡ answer.subscription_id

  find-append_last :
      (key_id : Text) (rows : List BillingCustomer) (row : BillingCustomer)
      → find (has_key key_id) rows ≡ none
      → has_key key_id row ≡ true
      → find (has_key key_id) (rows ++ (row ∷ [])) ≡ some row
  find-append_last key_id [] row absent h = rw h refl
  find-append_last key_id (r ∷ rows) row absent h = elim (Bool-cases (has_key key_id r)) [
    | inl hit ↦ absurd (let clash : some r ≡ none = rw hit at absent in ground (arith, clash))
    | inr miss ↦ rw miss (find-append_last key_id rows row (rw miss at absent) h)
  ]

  inserted-IsSetUp :
      (row : BillingCustomer) (status : Status) (answer : SetupResponse) (w last : World S)
      → find (has_key row.key_id) w.customers ≡ none
      → insert_and_answer send reader row w ≡ (ok (status, answer), last)
      → IsSetUp row.key_id answer last
  unfolding insert_and_answer insert_customer
  inserted-IsSetUp row status answer w last fresh e =
      elim (Bool-cases
        (any (customer_clashes row) w.customers || not (any (key_has_id row.key_id) w.api_keys))) [
          | inl refused ↦ absurd (
              let left = rw refused at e in
              ground
                (arith, ap (λ (p : Result ApiError (Status × SetupResponse) × World S). p.0) left))
          | inr taken ↦
              let left = rw taken at e in
              record {
                row = row;
                kept =
                    subst (λ (v : World S). find (has_key row.key_id) v.customers ≡ some row)
                      (ap (λ (p : Result ApiError (Status × SetupResponse) × World S). p.1) left)
                      (find-append_last row.key_id w.customers row fresh (text_eq_refl row.key_id));
                same_customer = cc left;
                same_subscription = cc left;
              }
        ]

  still_fresh :
      {E A : Type 0} (m : Action (World S) E A)
      → Keeps customers_of m
      → (key_id : Text) (w mid : World S) (r : Result E A) → m w ≡ (r, mid)
      → find (has_key key_id) w.customers ≡ none
      → find (has_key key_id) mid.customers ≡ none
  still_fresh m keeps key_id w mid r e fresh =
      subst (λ rows. find (has_key key_id) rows ≡ none)
        (sym (keeps w) ∙ ap (λ p. customers_of p.1) e) fresh

  save_customer-IsSetUp :
      (row : BillingCustomer) (status : Status) (answer : SetupResponse) (w last : World S)
      → find (has_key row.key_id) w.customers ≡ none
      → save_customer send reader row w ≡ (ok (status, answer), last)
      → IsSetUp row.key_id answer last
  unfolding save_customer
  save_customer-IsSetUp row status answer w last fresh e =
      let (t, mid, queried, rest) =
        >>=_ok (query database_error) (λ (t : Unit {0}). insert_and_answer send reader row) w last
          (status, answer) e in
      inserted-IsSetUp row status answer mid last
        (still_fresh (query database_error)
          (Keeps-query customers_of customers_of-IsTable database_error) row.key_id w mid (ok t)
          queried fresh)
        rest

  attach_and_save-IsSetUp :
      (cfg : StripeConfig) (key_id method new_id : Text) (now : ℕ) (customer_id : Text)
      (status : Status) (answer : SetupResponse) (w last : World S)
      → find (has_key key_id) w.customers ≡ none
      → attach_and_save send reader cfg key_id method new_id now customer_id w
        ≡ (ok (status, answer), last)
      → IsSetUp key_id answer last
  unfolding attach_and_save
  attach_and_save-IsSetUp cfg key_id method new_id now customer_id status answer w last fresh e =
      let attach =
        or_stripe_error send reader (codes "failed to attach payment method")
          (attach_payment_method send reader customer_id method) in
      let save = λ (sub : Option Text).
        save_customer send reader
          (customer_row send reader key_id method new_id now customer_id sub) in
      let (t, mid, attached, rest) =
        >>=_ok attach (λ (t : Unit {0}). subscribe send reader customer_id cfg.price_id >>= save) w
          last (status, answer) e in
      let (sub, mid2, subscribed, rest2) =
        >>=_ok (subscribe send reader customer_id cfg.price_id) save mid last (status, answer)
          rest in
      let fresh2 =
        still_fresh attach
          (Keeps-map_err customers_of _ _ (
            Keeps-attach_payment_method send reader customers_of customers_of-IsTable customer_id
              method))
          key_id w mid (ok t) attached fresh in
      save_customer-IsSetUp (customer_row send reader key_id method new_id now customer_id sub)
        status answer mid2 last
        (still_fresh (subscribe send reader customer_id cfg.price_id)
          (Keeps-subscribe send reader customer_id cfg.price_id) key_id mid mid2 (ok sub) subscribed
          fresh2)
        rest2

  new_customer-IsSetUp :
      (cfg : StripeConfig) (key_id method new_id : Text) (now : ℕ) (status : Status)
      (answer : SetupResponse) (w last : World S)
      → find (has_key key_id) w.customers ≡ none
      → new_customer send reader cfg key_id method new_id now w ≡ (ok (status, answer), last)
      → IsSetUp key_id answer last
  unfolding new_customer
  new_customer-IsSetUp cfg key_id method new_id now status answer w last fresh e =
      let make = λ (w2 : World S).
        or_stripe_error send reader (codes "failed to create Stripe customer")
          (create_customer send reader (owner_or key_id (find (key_has_id key_id) w2.api_keys))) in
      let save = attach_and_save send reader cfg key_id method new_id now in
      let (t, mid, queried, rest) =
        >>=_ok (query database_error) (λ (t : Unit {0}) (w2 : World S). (make w2 >>= save) w2) w
          last (status, answer) e in
      let (customer_id, mid2, made, rest2) =
        >>=_ok (make mid) save mid last (status, answer) rest in
      let fresh2 =
        still_fresh (query database_error)
          (Keeps-query customers_of customers_of-IsTable database_error) key_id w mid (ok t) queried
          fresh in
      attach_and_save-IsSetUp cfg key_id method new_id now customer_id status answer mid2 last
        (still_fresh (make mid)
          (Keeps-map_err customers_of _ _
            (Keeps-create_customer send reader customers_of customers_of-IsTable _))
          key_id mid mid2 (ok customer_id) made fresh2)
        rest2

  setup_found-IsSetUp :
      (cfg : StripeConfig) (key_id method new_id : Text) (now : ℕ)
      (existing : Option BillingCustomer) (status : Status) (answer : SetupResponse)
      (w last : World S)
      → find (has_key key_id) w.customers ≡ existing
      → setup_found send reader cfg key_id method new_id now existing w
        ≡ (ok (status, answer), last)
      → IsSetUp key_id answer last
  setup_found-IsSetUp cfg key_id method new_id now none status answer w last h e =
      new_customer-IsSetUp cfg key_id method new_id now status answer w last h e
  setup_found-IsSetUp cfg key_id method new_id now (some row) status answer w last h e = record {
    row = row;
    kept =
        subst (λ (v : World S). find (has_key key_id) v.customers ≡ some row)
          (ap (λ (p : Result ApiError (Status × SetupResponse) × World S). p.1) e) h;
    same_customer = cc e;
    same_subscription = cc e;
  }

  setup_with-IsSetUp :
      (cfg : StripeConfig) (key_id method new_id : Text) (now : ℕ) (status : Status)
      (answer : SetupResponse) (w last : World S)
      → setup_with send reader key_id method new_id now cfg w ≡ (ok (status, answer), last)
      → IsSetUp key_id answer last
  unfolding setup_with
  setup_with-IsSetUp cfg key_id method new_id now status answer w last e =
      let (t, mid, queried, rest) =
        >>=_ok (query database_error)
          (λ (t : Unit {0}) (w2 : World S).
            setup_found send reader cfg key_id method new_id now
              (find (has_key key_id) w2.customers) w2)
          w last (status, answer) e in
      setup_found-IsSetUp cfg key_id method new_id now (find (has_key key_id) mid.customers) status
        answer mid last refl rest

  setup_with-found :
      (cfg : StripeConfig) (key_id method new_id : Text) (now : ℕ) (answer : SetupResponse)
      (w : World S)
      → IsSetUp key_id answer w
      → w.failing ≡ []
      → setup_with send reader key_id method new_id now cfg w ≡ (ok (found, answer), w)
  unfolding setup_with
  setup_with-found cfg key_id method new_id now answer w known none_fails =
      >>=-eq_ok (query database_error)
        (λ (t : Unit {0}) (w2 : World S).
          setup_found send reader cfg key_id method new_id now (find (has_key key_id) w2.customers)
            w2)
        w w tt (calm_query database_error w none_fails)
      ∙ ap (λ o. setup_found send reader cfg key_id method new_id now o w) known.kept
      ∙ (λ i. (
        ok (
          found,
          record {
            customer_id = known.same_customer i;
            subscription_id = known.same_subscription i;
          },
        ),
        w,
      ))

  -- After billing was set up for a key, setting it up again, when no query fails, gives the same
  -- customer and subscription, calls Stripe no more and changes nothing.
  pub setup_repeats :
      (services : Services) (key_id method method2 new_id new_id2 : Text) (now now2 : ℕ)
      (status : Status) (answer : SetupResponse) (w last : World S)
      → setup send reader services key_id method new_id now w ≡ (ok (status, answer), last)
      → last.failing ≡ []
      → setup send reader services key_id method2 new_id2 now2 last ≡ (ok (found, answer), last)
  unfolding setup
  setup_repeats services key_id method method2 new_id new_id2 now now2 status answer w last e
        none_fails =
      elim (Bool-cases services.has_db) [
        | inr off ↦ absurd (
            let left = rw off at e in
            ground
              (arith, ap (λ (p : Result ApiError (Status × SetupResponse) × World S). p.0) left))
        | inl on ↦ elim (Option-cases services.stripe) [
          | inl off ↦ absurd (
              let left = rw (on, off) at e in
              ground
                (arith, ap (λ (p : Result ApiError (Status × SetupResponse) × World S). p.0) left))
          | inr (cfg, has) ↦
              rw (on, has)
                (setup_with-found cfg key_id method2 new_id2 now2 answer last
                  (setup_with-IsSetUp cfg key_id method new_id now status answer w last
                    (rw (on, has) at e))
                  none_fails)
        ]
      ]
