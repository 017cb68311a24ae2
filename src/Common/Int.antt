-- ===== src/Common/Int.antt =====
-- Signed integers over the native numbers, for the counters: `count + by` with `by` 1 or -1.
use udesa_x_posts_api.Common.Tests.{ltb, leb, if◌then◌else◌}
use Prim.Native.Nat.{ℕ, suc, ◌+◌, ◌-◌}
use mathlib.Core.Path.{◌≡◌}
use mathlib.Core.Bool.{Bool}
use native.Mathlib.Omega.{arith}

-- `negsuc n` is -(n + 1).
pub data ℤ : Type 0 where
  pos : ℕ → ℤ
  negsuc : ℕ → ℤ

abbrev pub pos_part : ℤ → ℕ
pos_part (pos n) = n
pos_part (negsuc n) = 0

abbrev pub neg_part : ℤ → ℕ
neg_part (pos n) = 0
neg_part (negsuc n) = suc n

abbrev pub sub_ℕ : ℕ → ℕ → ℤ
sub_ℕ a b = if leb b a then pos (a - b) else negsuc (b - a - 1)

infixl 65 ◌+ℤ◌
unfoldable pub ◌+ℤ◌ : ℤ → ℤ → ℤ
a +ℤ b = sub_ℕ (pos_part a + pos_part b) (neg_part a + neg_part b)

abbrev pub ltb_ℤ : ℤ → ℤ → Bool
ltb_ℤ a b = ltb (pos_part a + neg_part b) (pos_part b + neg_part a)

-- `func.greatest`
unfoldable pub greatest : ℤ → ℤ → ℤ
greatest a b = if ltb_ℤ a b then b else a

pub +ℤ_one : (n : ℕ) → pos n +ℤ pos 1 ≡ pos (suc n)
unfolding ◌+ℤ◌
+ℤ_one n = ground arith

pub +ℤ_minus_one : (n : ℕ) → pos (suc n) +ℤ negsuc 0 ≡ pos n
unfolding ◌+ℤ◌
+ℤ_minus_one n = ground arith

pub greatest-pos : (n : ℕ) → greatest (pos n +ℤ negsuc 0) (pos 0) ≡ pos (n - 1)
unfolding ◌+ℤ◌ greatest
greatest-pos n = ground arith

-- `greatest(0, count + by)` on a counter.
pub greatest-zero_one : (n : ℕ) → greatest (pos 0) (pos n +ℤ pos 1) ≡ pos (suc n)
unfolding ◌+ℤ◌ greatest
greatest-zero_one n = ground arith

pub greatest-zero_minus_one : (n : ℕ) → greatest (pos 0) (pos (suc n) +ℤ negsuc 0) ≡ pos n
unfolding ◌+ℤ◌ greatest
greatest-zero_minus_one n = ground arith

pub greatest-minus_one : (n : ℕ) → greatest (pos (suc n) +ℤ negsuc 0) (pos 0) ≡ pos n
unfolding ◌+ℤ◌ greatest
greatest-minus_one n = ground arith
