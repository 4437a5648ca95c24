-- ===== src/Base/Results.antt =====
-- Fallible code: `Result` for `Result<T, E>`, and `Run` for code that may panic.
use mathlib.Core.Path.{◌≡◌, refl}
use mathlib.Core.Logic.{◌⊎◌, inl, inr}

pub data Result {ℓ κ} (E : Type ℓ) (A : Type κ) : Type (ℓ ⊔ κ) where
  ok : A → Result E A
  err : E → Result E A

pub data Run {ℓ} (A : Type ℓ) : Type ℓ where
  returns : A → Run A
  panics : Run A

abbrev pub map_run {ℓ κ} : {A : Type ℓ} {B : Type κ} → (A → B) → Run A → Run B
map_run f (returns a) = returns (f a)
map_run f panics = panics

pub map_run-eq_returns {ℓ κ} :
    {A : Type ℓ} {B : Type κ} (f : A → B) (m : Run A) (a : A)
    → m ≡ returns a
    → map_run f m ≡ returns (f a)
map_run-eq_returns f m a e = rw e refl

pub Run-cases {ℓ κ} :
    {E : Type ℓ} {A : Type κ} (r : Run (Result E A))
    → (r ≡ panics) ⊎ ((a : A) × (r ≡ returns (ok a))) ⊎ ((e : E) × (r ≡ returns (err e)))
Run-cases panics = inl refl
Run-cases (returns (ok a)) = inr (inl (a, refl))
Run-cases (returns (err e)) = inr (inr (e, refl))
