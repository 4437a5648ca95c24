-- ===== src/Base/Words.antt =====
-- Unsigned machine integers as natural numbers: the wrap-around of release builds written out.
use Prim.Native.Nat.{ℕ, ◌^◌, ◌%◌, ◌<◌}
use mathlib.Core.Path.{◌≡◌}
use native.Mathlib.Omega.{arith}

abbrev pub u16_mod : ℕ
u16_mod = 2 ^ 16

abbrev pub u32_mod : ℕ
u32_mod = 2 ^ 32

abbrev pub u64_mod : ℕ
u64_mod = 2 ^ 64

-- `x as u32`, and what a u32 operation keeps of an exact result.
unfoldable pub wrap32 : ℕ → ℕ
wrap32 n = n % u32_mod

unfoldable pub wrap64 : ℕ → ℕ
wrap64 n = n % u64_mod

pub wrap32-eq_of_lt : (n : ℕ) → n < u32_mod → wrap32 n ≡ n
unfolding wrap32
wrap32-eq_of_lt n h = omega arith

pub wrap64-eq_of_lt : (n : ℕ) → n < u64_mod → wrap64 n ≡ n
unfolding wrap64
wrap64-eq_of_lt n h = omega arith

pub wrap32-lt : (n : ℕ) → wrap32 n < u32_mod
unfolding wrap32
wrap32-lt n = omega arith

pub wrap64-lt : (n : ℕ) → wrap64 n < u64_mod
unfolding wrap64
wrap64-lt n = omega arith
