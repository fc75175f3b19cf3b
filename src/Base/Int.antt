-- ===== src/Base/Int.antt =====
-- Signed integers over the native numbers, Go's division that truncates towards zero, and the
-- wrap-around of `int64` (Go's `int` on the 64-bit targets).
use dora_metrics_app.Base.Tests.{ltb, leb, if◌then◌else◌}
use Prim.Native.Nat.{ℕ, suc, ◌+◌, ◌-◌, ◌/◌, ◌%◌, ◌≤◌, ◌<◌}
use mathlib.Core.Path.{◌≡◌, sym, subst}
use mathlib.Core.Logic.{◌⊎◌}
use mathlib.Core.Bool.{Bool, true}
use native.Mathlib.Omega.{arith}

-- `negsuc n` is -(n + 1).
pub data ℤ : Type 0 where
  pos : ℕ → ℤ
  negsuc : ℕ → ℤ

abbrev pub pos_part : ℤ → ℕ
pos_part (pos n) = n
pos_part (negsuc n) = 0

abbrev pub neg_part : ℤ → ℕ
neg_part (pos n) = 0
neg_part (negsuc n) = suc n

-- a - b, as an integer.
abbrev pub sub_ℕ : ℕ → ℕ → ℤ
sub_ℕ a b = if leb b a then pos (a - b) else negsuc (b - a - 1)

infixl 65 ◌+ℤ◌ ◌-ℤ◌
infix 50 ◌≤ℤ◌
unfoldable pub ◌+ℤ◌ : ℤ → ℤ → ℤ
a +ℤ b = sub_ℕ (pos_part a + pos_part b) (neg_part a + neg_part b)

unfoldable pub ◌-ℤ◌ : ℤ → ℤ → ℤ
a -ℤ b = sub_ℕ (pos_part a + neg_part b) (neg_part a + pos_part b)

abbrev pub ◌≤ℤ◌ : ℤ → ℤ → Type 0
a ≤ℤ b = pos_part a + neg_part b ≤ pos_part b + neg_part a

abbrev pub ltb_ℤ : ℤ → ℤ → Bool
ltb_ℤ a b = ltb (pos_part a + neg_part b) (pos_part b + neg_part a)

abbrev pub leb_ℤ : ℤ → ℤ → Bool
leb_ℤ a b = leb (pos_part a + neg_part b) (pos_part b + neg_part a)

pub +ℤ_parts :
    (a b : ℤ)
    → pos_part (a +ℤ b) + neg_part a + neg_part b ≡ neg_part (a +ℤ b) + pos_part a + pos_part b
unfolding ◌+ℤ◌
+ℤ_parts a b = ground arith

pub -ℤ_parts :
    (a b : ℤ)
    → pos_part (a -ℤ b) + neg_part a + pos_part b ≡ neg_part (a -ℤ b) + pos_part a + neg_part b
unfolding ◌-ℤ◌
-ℤ_parts a b = ground arith

pub leb_ℤ_total : (a b : ℤ) → (leb_ℤ a b ≡ true) ⊎ (leb_ℤ b a ≡ true)
leb_ℤ_total a b = ground arith

pub leb_ℤ_trans : (a b c : ℤ) → leb_ℤ a b ≡ true → leb_ℤ b c ≡ true → leb_ℤ a c ≡ true
leb_ℤ_trans a b c h k = ground arith

-- `a / k` for a positive constant k.
unfoldable pub quot : ℤ → ℕ → ℤ
quot (pos n) k = pos (n / k)
quot (negsuc n) k = sub_ℕ 0 (suc n / k)

abbrev pub two_63 : ℕ
two_63 = 9_223_372_036_854_775_808

abbrev pub two_64 : ℕ
two_64 = 18_446_744_073_709_551_616

-- The bit pattern of an integer in two's complement, and the integer that it stands for.
abbrev of_bits : ℕ → ℤ
of_bits m = if ltb m two_63 then pos m else sub_ℕ m two_64

unfoldable pub wrap64 : ℤ → ℤ
wrap64 (pos n) = of_bits (n % two_64)
wrap64 (negsuc n) = of_bits (two_64 - 1 - n % two_64)

-- A value of type `int64`.
abbrev pub IsInt64 : ℤ → Type 0
IsInt64 a = (pos_part a < two_63) × (neg_part a ≤ two_63)

pub wrap64_id : (a : ℤ) → IsInt64 a → wrap64 a ≡ a
unfolding wrap64
wrap64_id (pos n) h = ground arith
wrap64_id (negsuc n) h = ground arith

pub wrap64-IsInt64 : (a : ℤ) → IsInt64 (wrap64 a)
unfolding wrap64
wrap64-IsInt64 (pos n) = ground arith
wrap64-IsInt64 (negsuc n) = ground arith

-- The average of two, as Go computes `(a + b) / 2` on 64-bit integers.
unfoldable pub mean : ℤ → ℤ → ℤ
unfolding ◌+ℤ◌ wrap64 quot
mean a b = quot (wrap64 (a +ℤ b)) 2

-- Half the range of `int64`: two such numbers add up without wrapping around.
abbrev pub IsHalf : ℤ → Type 0
IsHalf a = (pos_part a < 4_611_686_018_427_387_904) × (neg_part a ≤ 4_611_686_018_427_387_904)

sum-IsInt64 : (a b : ℤ) → IsHalf a → IsHalf b → IsInt64 (a +ℤ b)
unfolding ◌+ℤ◌
sum-IsInt64 a b h k = ground arith

half_bounds : (a b : ℤ) → a ≤ℤ b → (a ≤ℤ quot (a +ℤ b) 2) × (quot (a +ℤ b) 2 ≤ℤ b)
unfolding ◌+ℤ◌ quot
half_bounds (pos m) (pos n) h = ground arith
half_bounds (pos m) (negsuc n) h = absurd (omega arith)
half_bounds (negsuc m) (pos n) h = ground arith
half_bounds (negsuc m) (negsuc n) h = ground arith

pub mean_bounds : (a b : ℤ) → a ≤ℤ b → IsHalf a → IsHalf b → (a ≤ℤ mean a b) × (mean a b ≤ℤ b)
unfolding mean
mean_bounds a b h ha hb =
    subst (λ x. (a ≤ℤ quot x 2) × (quot x 2 ≤ℤ b))
      (sym (wrap64_id (a +ℤ b) (sum-IsInt64 a b ha hb))) (half_bounds a b h)
