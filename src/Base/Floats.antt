-- ===== src/Base/Floats.antt =====
-- `f64` as its 64 bits: the partial order that the latency sorts compare by.
use Prim.Native.Nat.{ℕ, ◌+◌, ◌-◌, ◌%◌, ◌^◌, compare, Ordering}
use mathlib.Core.Bool.{Bool, true, false, ◌||◌}
use mathlib.Core.Option.{Option, none, some}
use infer_platform.Base.Integers.{ℤ}
use infer_platform.Base.Tests.{ltb, leb, if◌then◌else◌}

-- The bits below the sign.
unfoldable pub magnitude : ℕ → ℕ
magnitude b = b % 2 ^ 63

-- Above the magnitude of infinity, 0x7FF0000000000000.
unfoldable pub is_nan : ℕ → Bool
unfolding magnitude
is_nan b = ltb 9218868437227405312 (magnitude b)

-- Numbers in order; the two zeros have one place.
unfoldable pub rank : ℕ → ℕ
unfolding magnitude
rank b = if leb (2 ^ 63) b then 2 ^ 63 - magnitude b else 2 ^ 63 + magnitude b

unfoldable pub partial_cmp : ℕ → ℕ → Option Ordering
unfolding is_nan rank
partial_cmp a b = if is_nan a || is_nan b then none else some (compare (rank a) (rank b))

-- `f64::MAX`, 0x7FEFFFFFFFFFFFFF.
abbrev pub f64_max : ℕ
f64_max = 9218868437227405311

-- `Ordering::then_with`
abbrev pub then_with : Ordering → Ordering → Ordering
then_with Ordering.eq o = o
then_with Ordering.lt o = Ordering.lt
then_with Ordering.gt o = Ordering.gt

-- `sort_by` keeps two neighbours unless they compare as `Greater`.
abbrev pub not_greater : Ordering → Bool
not_greater Ordering.gt = false
not_greater _ = true

abbrev pub or_equal : Option Ordering → Ordering
or_equal none = Ordering.eq
or_equal (some o) = o

-- The arithmetic of f64: conversions of i64, the operations, `floor` and `round`, what `sum` begins
-- with, and `as u64`. A literal such as 1000.0 is the conversion of the integer.
pub record FloatOps (F : Type 0) : Type 0 where
  pub of_int : ℤ → F
  pub add : F → F → F
  pub mul : F → F → F
  pub sub : F → F → F
  pub div : F → F → F
  pub floor : F → F
  pub round : F → F
  pub zero : F
  pub as_u64 : F → ℕ
