-- ===== src/Billing/Webhook/Signed.antt =====
-- What the webhook believes: a body that Stripe signed.
use infer_platform.Base.{
  ℕ, ◌≡◌, refl, Bool, true, false, List, [], ◌∷◌, ◌++◌, any, is_empty, All, All-append, Member,
  All-members, Option, none, some, Text, codes, text_eq, text_eq→eq, strip_prefix,
  strip_prefix-eq_some, Result, ok, err, ◌>>◌, arith, Bool-cases, Option-cases, ◌⊎◌, inl, inr,
}
use mathlib.Core.Path.{subst}
use infer_platform.Billing.{World}
use infer_platform.Billing.Accounts.{
  Services, StripeConfig, ApiError, missing_signature, invalid_signature, verification_failed,
}
use infer_platform.Billing.Webhook.{
  split, comma, SignatureHeader, read_part, read_parts, no_parts, signed_text,
  validate_webhook_signature, EventReader, SignatureError, check_signature, handle_event,
  stripe_webhook, Handler, check_parts, read_t, read_v1,
}

-- What `any` finds has what all have.
any-All {κ} :
    (Q : Text → Type κ) (expected : Text) (xs : List Text)
    → All Q xs
    → any (λ s. text_eq s expected) xs ≡ true
    → Q expected
any-All Q expected [] a e = cc
any-All Q expected (x ∷ xs) a e = elim (Bool-cases (text_eq x expected)) [
  | inl same ↦ subst Q (text_eq→eq x expected same) a.0
  | inr other ↦ any-All Q expected xs a.1 (rw other at e)
]

module _ (P : Text → Type 0) where
  -- Everything read came from a part that has `P`.
  record AreFrom (h : SignatureHeader) : Type 0 where
    stamped : (ts : Text) → h.timestamp ≡ some ts → P (codes "t=" ++ ts)
    signed : All (λ v. P (codes "v1=" ++ v)) h.signatures

  read_v1-AreFrom :
      (part : Text) (v : Option Text) (h : SignatureHeader)
      → strip_prefix part (codes "v1=") ≡ v
      → P part
      → AreFrom h
      → AreFrom (read_v1 v h)
  read_v1-AreFrom part none h e p from = from
  read_v1-AreFrom part (some v) h e p from = record {
    stamped = from.stamped;
    signed =
        All-append (λ s. P (codes "v1=" ++ s)) h.signatures (v ∷ []) from.signed
          (subst P (strip_prefix-eq_some part (codes "v1=") v e) p, tt);
  }

  read_t-AreFrom :
      (part : Text) (t : Option Text) (h : SignatureHeader)
      → strip_prefix part (codes "t=") ≡ t
      → P part
      → AreFrom h
      → AreFrom (read_t part t h)
  read_t-AreFrom part none h e p from =
      read_v1-AreFrom part (strip_prefix part (codes "v1=")) h refl p from
  read_t-AreFrom part (some t) h e p from = record {
    stamped = λ ts same.
        let now : t ≡ ts = cc same in
        subst (λ u. P (codes "t=" ++ u)) now
          (subst P (strip_prefix-eq_some part (codes "t=") t e) p);
    signed = from.signed;
  }

  read_parts-AreFrom :
      (h : SignatureHeader) (parts : List Text)
      → All P parts
      → AreFrom h
      → AreFrom (read_parts h parts)
  unfolding read_parts read_part
  read_parts-AreFrom h [] a from = from
  read_parts-AreFrom h (part ∷ parts) a from =
      read_parts-AreFrom (read_part part h) parts a.1
        (read_t-AreFrom part (strip_prefix part (codes "t=")) h refl a.0 from)

-- One comma-separated part of the header stamps the time, and another signs it with the body.
pub record IsSigned (mac : (secret message : Text) → Option Text) (secret body sig : Text)
    : Type 0 where
  pub ts : Text
  pub expected : Text
  pub stamped : Member (codes "t=" ++ ts) (split comma sig)
  pub signed : Member (codes "v1=" ++ expected) (split comma sig)
  pub is_mac : mac secret (signed_text ts body) ≡ some expected

module _ (mac : (secret message : Text) → Option Text) (secret body sig : Text) where
  IsMember : Text → Type 0
  IsMember part = Member part (split comma sig)

  check_parts-IsSigned :
      (ts : Option Text) (signatures : List Text)
      → ((t : Text) → ts ≡ some t → Member (codes "t=" ++ t) (split comma sig))
      → All (λ v. Member (codes "v1=" ++ v) (split comma sig)) signatures
      → check_parts mac body secret ts signatures ≡ ok true
      → IsSigned mac secret body sig
  check_parts-IsSigned none signatures stamps signs e = absurd (ground (arith, e))
  check_parts-IsSigned (some ts) [] stamps signs e = absurd (ground (arith, e))
  check_parts-IsSigned (some ts) (s ∷ more) stamps signs e =
      elim (Option-cases (mac secret (signed_text ts body))) [
        | inl bad ↦ absurd (let left = rw bad at e in ground (arith, left))
        | inr (expected, good) ↦
            let found = rw good at e in
            record {
              ts = ts;
              expected = expected;
              stamped = stamps ts refl;
              signed =
                  any-All (λ v. Member (codes "v1=" ++ v) (split comma sig)) expected (s ∷ more)
                    signs (cc found);
              is_mac = good;
            }
      ]

  valid-IsSigned :
      validate_webhook_signature mac body sig secret ≡ ok true → IsSigned mac secret body sig
  unfolding validate_webhook_signature
  valid-IsSigned e =
      let from =
        read_parts-AreFrom (λ part. Member part (split comma sig)) no_parts (split comma sig)
          (All-members (split comma sig))
          (record { stamped = λ ts same. absurd (ground (arith, same)); signed = tt }) in
      check_parts-IsSigned (read_parts no_parts (split comma sig)).timestamp
        (read_parts no_parts (split comma sig)).signatures from.stamped from.signed e

-- The header is there, and signs the body.
pub data IsTrusted (mac : (secret message : Text) → Option Text) (secret body : Text)
    : Option Text → Type 0 where
  by_header : (sig : Text) → IsSigned mac secret body sig → IsTrusted mac secret body (some sig)

-- The rest of the handler runs behind a signature, or not at all.
guarded :
    {S : Type 0} (mac : (secret message : Text) → Option Text) (secret body : Text)
    (header : Option Text) (rest : Handler S) (w : World S)
    → is_empty secret ≡ false
    → IsTrusted mac secret body header
      ⊎ ((e : ApiError) × ((check_signature mac secret body header >> rest) w ≡ (err e, w)))
unfolding check_signature
guarded mac secret body none rest w set = inr (missing_signature, rw set refl)
guarded mac secret body (some sig) rest w set =
    by_result (validate_webhook_signature mac body sig secret) refl
  where
    by_result :
        (r : Result SignatureError Bool)
        → validate_webhook_signature mac body sig secret ≡ r
        → IsTrusted mac secret body (some sig)
          ⊎ ((e : ApiError) × ((check_signature mac secret body (some sig) >> rest) w ≡ (err e, w)))
    by_result (err e) h = inr (invalid_signature, rw (set, h) refl)
    by_result (ok false) h = inr (verification_failed, rw (set, h) refl)
    by_result (ok true) h = inl (by_header sig (valid-IsSigned mac secret body sig h))

-- With a webhook secret configured, a delivery is signed: one part of its header is a time stamp
-- and another the MAC of that stamp, a dot and the body; or it is refused and changes nothing.
pub webhook-IsTrusted :
    {S Json : Type 0} (mac : (secret message : Text) → Option Text) (reader : EventReader Json)
    (services : Services) (cfg : StripeConfig) (now : ℕ) (header : Option Text) (body : Text)
    (w : World S)
    → services.stripe ≡ some cfg
    → is_empty cfg.webhook_secret ≡ false
    → IsTrusted mac cfg.webhook_secret body header
      ⊎ ((e : ApiError) × (stripe_webhook mac reader services now header body w ≡ (err e, w)))
unfolding stripe_webhook
webhook-IsTrusted mac reader services cfg now header body w configured set =
    rw configured
      (guarded mac cfg.webhook_secret body header (handle_event reader services now body) w set)
