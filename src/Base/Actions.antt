-- ===== src/Base/Actions.antt =====
-- Handlers that read and write a state and may stop with an error: what was written stays written.
use mathlib.Core.Path.{◌≡◌, refl, sym, ap, ◌∙◌}
use native.Mathlib.Omega.{arith}
use infer_platform.Base.Results.{Result, ok, err}
use infer_platform.Base.Tests.{if◌then◌else◌}
use mathlib.Core.Bool.{Bool, true, false}
use mathlib.Core.Option.{Option, none, some}

abbrev pub Action : Type 0 → Type 0 → Type 0 → Type 0
Action S E A = S → Result E A × S

module _ {S E A : Type 0} where
  abbrev pub pure : A → Action S E A
  pure a s = (ok a, s)

  abbrev pub raise : E → Action S E A
  raise e s = (err e, s)

  abbrev pub gets : (S → A) → Action S E A
  gets f s = (ok (f s), s)

  abbrev pub or_raise : Option A → E → Action S E A
  or_raise none e = raise e
  or_raise (some a) e = pure a

abbrev pub modify : {S E : Type 0} → (S → S) → Action S E (Unit {0})
modify f s = (ok tt, f s)

abbrev pub bind_result : {S E A B : Type 0} → Result E A × S → (A → Action S E B) → Result E B × S
bind_result (ok a, s) f = f a s
bind_result (err e, s) f = (err e, s)

infixl 5 ◌>>=◌ ◌>>◌
abbrev pub ◌>>=◌ : {S E A B : Type 0} → Action S E A → (A → Action S E B) → Action S E B
◌>>=◌ m f s = bind_result (m s) f

abbrev pub ◌>>◌ : {S E A B : Type 0} → Action S E A → Action S E B → Action S E B
m >> k = m >>= λ _. k

abbrev pub map_result_err : {E F A S : Type 0} → (E → F) → Result E A × S → Result F A × S
map_result_err f (ok a, s) = (ok a, s)
map_result_err f (err e, s) = (err (f e), s)

-- `map_err`
abbrev pub map_err : {S E F A : Type 0} → (E → F) → Action S E A → Action S F A
map_err f m s = map_result_err f (m s)

-- `if let Err(e) = .. { warn }`: the error is dropped.
abbrev pub drop_result : {E F A S : Type 0} → Result E A × S → Result F (Unit {0}) × S
drop_result (r, s) = (ok tt, s)

abbrev pub ignore_err : {S E F A : Type 0} → Action S E A → Action S F (Unit {0})
ignore_err m s = drop_result (m s)

-- `match` on the result of a step: the error ends nothing.
abbrev pub branch_result :
    {S E F A : Type 0} → Result E A × S → Action S F A → Action S F A → Result F A × S
branch_result (ok a, s) good bad = good s
branch_result (err e, s) good bad = bad s

abbrev pub try_then : {S E F A : Type 0} → Action S E A → Action S F A → Action S F A → Action S F A
try_then m good bad s = branch_result (m s) good bad

-- What a step that succeeds leaves to be done.
pub >>=-eq_ok :
    {S E A B : Type 0} (m : Action S E A) (f : A → Action S E B) (s after : S) (a : A)
    → m s ≡ (ok a, after)
    → (m >>= f) s ≡ f a after
>>=-eq_ok m f s after a e = rw e refl

module _ {S E A B : Type 0} where
  -- A step that succeeds is two that do.
  pub >>=_ok :
      (m : Action S E A) (f : A → Action S E B) (s last : S) (b : B)
      → (m >>= f) s ≡ (ok b, last)
      → (a : A) × (mid : S) × (m s ≡ (ok a, mid)) × (f a mid ≡ (ok b, last))
  >>=_ok m f s last b e = split (m s) refl e
    where
      split :
          (r : Result E A × S)
          → m s ≡ r
          → bind_result r f ≡ (ok b, last)
          → (a : A) × (mid : S) × (m s ≡ (ok a, mid)) × (f a mid ≡ (ok b, last))
      split (ok a, mid) now e2 = (a, mid, now, e2)
      split (err x, mid) now e2 = absurd (ground (arith, ap (λ (p : Result E B × S). p.0) e2))

module _ {S X : Type 0} (part : S → X) where
  -- The step leaves a part of the state as it is.
  abbrev pub Keeps : {E A : Type 0} → Action S E A → Type 0
  Keeps m = (s : S) → part (m s).1 ≡ part s

  pub Keeps-bind :
      {E A B : Type 0} (m : Action S E A) (f : A → Action S E B)
      → Keeps m
      → ((a : A) → Keeps (f a))
      → Keeps (m >>= f)
  Keeps-bind {E} {A} {B} m f hm hf s = from (m s) refl
    where
      from : (r : Result E A × S) → m s ≡ r → part (bind_result r f).1 ≡ part s
      from (ok a, mid) now = hf a mid ∙ sym (ap (λ p. part p.1) now) ∙ hm s
      from (err x, mid) now = sym (ap (λ p. part p.1) now) ∙ hm s

  pub Keeps-map_err :
      {E F A : Type 0} (f : E → F) (m : Action S E A) → Keeps m → Keeps (map_err f m)
  Keeps-map_err {E} {F} {A} f m hm s = from (m s) refl
    where
      from : (r : Result E A × S) → m s ≡ r → part (map_result_err f r).1 ≡ part s
      from (ok a, mid) now = sym (ap (λ p. part p.1) now) ∙ hm s
      from (err x, mid) now = sym (ap (λ p. part p.1) now) ∙ hm s

  pub Keeps-try_then :
      {E F A : Type 0} (m : Action S E A) (good bad : Action S F A)
      → Keeps m
      → Keeps good
      → Keeps bad
      → Keeps (try_then m good bad)
  Keeps-try_then {E} {F} {A} m good bad hm hgood hbad s = from (m s) refl
    where
      from : (r : Result E A × S) → m s ≡ r → part (branch_result r good bad).1 ≡ part s
      from (ok a, mid) now = hgood mid ∙ sym (ap (λ p. part p.1) now) ∙ hm s
      from (err x, mid) now = hbad mid ∙ sym (ap (λ p. part p.1) now) ∙ hm s

  pub Keeps-if :
      {E A : Type 0} (b : Bool) (m k : Action S E A)
      → Keeps m
      → Keeps k
      → Keeps (if b then m else k)
  Keeps-if true m k hm hk = hm
  Keeps-if false m k hm hk = hk
