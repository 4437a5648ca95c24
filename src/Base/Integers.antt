-- ===== src/Base/Integers.antt =====
-- Signed integers over the native numbers, as columns of the database and as i32 and i64.
use Prim.Native.Nat.{ℕ, suc, ◌+◌, ◌-◌, ◌^◌, ◌<◌}
use mathlib.Core.Bool.{Bool, true, false}
use mathlib.Core.Path.{◌≡◌, sym, ap, ◌∙◌}
use native.Mathlib.Omega.{arith}
use infer_platform.Base.Tests.{leb, ltb, if◌then◌else◌}

-- `negsuc n` is -(n + 1).
pub data ℤ : Type 0 where
  pos negsuc : ℕ → ℤ

-- `n <= z` for a count `n`.
abbrev pub leb_int : ℕ → ℤ → Bool
leb_int n (pos m) = leb n m
leb_int n (negsuc m) = false

-- `a <= b`
abbrev pub leq_int : ℤ → ℤ → Bool
leq_int (pos a) (pos b) = leb a b
leq_int (pos a) (negsuc b) = false
leq_int (negsuc a) (pos b) = true
leq_int (negsuc a) (negsuc b) = leb b a

-- `z`, or 0 below it.
abbrev pub to_nat : ℤ → ℕ
to_nat (pos m) = m
to_nat (negsuc m) = 0

abbrev pub neg_part : ℤ → ℕ
neg_part (pos n) = 0
neg_part (negsuc n) = suc n

abbrev pub sub_ℕ : ℕ → ℕ → ℤ
sub_ℕ a b = if leb b a then pos (a - b) else negsuc (b - a - 1)

infixl 65 ◌+ℤ◌
unfoldable pub ◌+ℤ◌ : ℤ → ℤ → ℤ
a +ℤ b = sub_ℕ (to_nat a + to_nat b) (neg_part a + neg_part b)

-- `as i32` of a u32.
unfoldable pub as_i32 : ℕ → ℤ
as_i32 n = if ltb n (2 ^ 31) then pos n else negsuc (2 ^ 32 - 1 - n)

-- What arithmetic needs to know of a sum, and of an equation.
pub +ℤ_parts :
    (a b : ℤ) → to_nat (a +ℤ b) + neg_part a + neg_part b ≡ neg_part (a +ℤ b) + to_nat a + to_nat b
unfolding ◌+ℤ◌
+ℤ_parts a b = ground arith

pub eq_of_parts : (a b : ℤ) → to_nat a + neg_part b ≡ to_nat b + neg_part a → a ≡ b
eq_of_parts a b h = ground arith

pub +ℤ_assoc : (a b c : ℤ) → (a +ℤ b) +ℤ c ≡ a +ℤ (b +ℤ c)
+ℤ_assoc a b c =
    eq_of_parts ((a +ℤ b) +ℤ c) (a +ℤ (b +ℤ c))
      (omega (arith, +ℤ_parts a b, +ℤ_parts (a +ℤ b) c, +ℤ_parts b c, +ℤ_parts a (b +ℤ c)))

pub +ℤ_comm : (a b : ℤ) → a +ℤ b ≡ b +ℤ a
+ℤ_comm a b = eq_of_parts (a +ℤ b) (b +ℤ a) (omega (arith, +ℤ_parts a b, +ℤ_parts b a))

-- Two sums of two terms, regrouped.
pub +ℤ_exchange : (a b c d : ℤ) → (a +ℤ b) +ℤ (c +ℤ d) ≡ (a +ℤ c) +ℤ (b +ℤ d)
+ℤ_exchange a b c d =
    +ℤ_assoc a b (c +ℤ d)
    ∙ ap (λ x. a +ℤ x) (sym (+ℤ_assoc b c d) ∙ ap (λ x. x +ℤ d) (+ℤ_comm b c) ∙ +ℤ_assoc c b d)
    ∙ sym (+ℤ_assoc a c (b +ℤ d))

pub zero_+ℤ : (a : ℤ) → pos 0 +ℤ a ≡ a
zero_+ℤ a = eq_of_parts (pos 0 +ℤ a) a (omega (arith, +ℤ_parts (pos 0) a))

pub as_i32-pos : (n : ℕ) → n < 2 ^ 31 → as_i32 n ≡ pos n
unfolding as_i32
as_i32-pos n h = ground (arith, h)
