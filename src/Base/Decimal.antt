-- ===== src/Base/Decimal.antt =====
-- `to_string` of an unsigned integer: decimal digits, most significant first.
use Prim.Native.Nat.{ℕ, zero, suc, ◌+◌, ◌/◌, ◌%◌}
use mathlib.Core.List.{[], ◌∷◌}
use infer_platform.Base.Tests.{ltb, if◌then◌else◌}
use infer_platform.Base.Chars.{Text}

-- The digits of `n` before `later`; `fuel` rounds are enough when `n < fuel`.
unfoldable pub digits_before : (fuel n : ℕ) → Text → Text
digits_before zero n later = later
digits_before (suc fuel) n later =
    let rest = digits_before fuel (n / 10) ((b'0' + n % 10) ∷ later) in
    if ltb n 10 then (b'0' + n) ∷ later else rest

unfoldable pub decimal : ℕ → Text
unfolding digits_before
decimal n = digits_before (suc n) n []
