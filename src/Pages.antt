-- ===== src/Pages.antt =====
-- The pages of the web front end: crates/api-gateway/src/routes/consumer.rs (Pages.Consumer), provider.rs
-- (Pages.Provider) and models.rs (Pages.Models). The arithmetic of f64 is the parameter `FloatOps`, and
-- the environment and the reading of numbers and dates are parameters too.
pub mod Consumer
pub mod Provider
pub mod Models
mod Examples
use infer_platform.Base.{ℕ, List, [], ◌∷◌, Option, none, some, Text, codes, ℤ, pos, FloatOps}

-- 503 and 500.
pub data PageError : Type 0 where
  no_database query_failed : PageError

pub record Env (F : Type 0) : Type 0 where
  pub var : (name : Text) → Option Text
  pub parse : Text → Option F

module _ {F : Type 0} (ops : FloatOps F) where
  -- `(v * 10^n).round() / 10^n`
  abbrev pub round_at : ℕ → F → F
  round_at scale v =
      ops.div (ops.round (ops.mul v (ops.of_int (pos scale)))) (ops.of_int (pos scale))

  abbrev pub round4 : F → F
  round4 v = round_at 10000 v

  abbrev pub round2 : F → F
  round2 v = round_at 100 v

  abbrev pub sum_floats : List F → F
  sum_floats values = add_all ops.zero values
    where
      add_all : F → List F → F
      add_all acc [] = acc
      add_all acc (v ∷ more) = add_all (ops.add acc v) more

abbrev parsed_or : {F : Type 0} → (Text → Option F) → F → Option Text → F
parsed_or parse default none = default
parsed_or {F} parse default (some text) = or_default (parse text)
  where
    or_default : Option F → F
    or_default none = default
    or_default (some v) = v

-- `env::var(name).ok().and_then(|v| v.parse().ok()).unwrap_or(default)`
unfoldable pub env_or : {F : Type 0} → Env F → (name : Text) → (default : F) → F
env_or env name default = parsed_or env.parse default (env.var name)

abbrev pub or_none : {A B : Type 0} → (A → Option B) → Option A → Option B
or_none f none = none
or_none f (some a) = f a

abbrev pub or_else : {A : Type 0} → Option A → A → A
or_else none a = a
or_else (some a) b = a
