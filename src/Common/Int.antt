-- ===== src/Common/Int.antt =====
-- Signed integers over the native numbers, and the 32-bit difference of two of them.
use Prim.Native.Nat.{ℕ, suc, ◌+◌, ◌-◌, ◌%◌, ◌^◌, ◌≤◌, ◌<◌}
use mathlib.Core.Path.{◌≡◌}
use mathlib.Core.Bool.{Bool, true, false}
use native.Mathlib.Omega.{arith}
use knot_service_source.Common.Tests.{ltb, ◌==◌, if◌then◌else◌}

-- `negsuc n` is -(n + 1).
pub data ℤ : Type 0 where
  pos : ℕ → ℤ
  negsuc : ℕ → ℤ

abbrev pub pos_part : ℤ → ℕ
pos_part (pos n) = n
pos_part (negsuc n) = 0

abbrev pub neg_part : ℤ → ℕ
neg_part (pos n) = 0
neg_part (negsuc n) = suc n

infix 50 ◌≤ℤ◌ ◌<ℤ◌
abbrev pub ◌≤ℤ◌ : ℤ → ℤ → Type 0
a ≤ℤ b = pos_part a + neg_part b ≤ pos_part b + neg_part a

abbrev pub ◌<ℤ◌ : ℤ → ℤ → Type 0
a <ℤ b = pos_part a + neg_part b < pos_part b + neg_part a

-- `a < 0`.
abbrev pub is_neg : ℤ → Bool
is_neg (pos n) = false
is_neg (negsuc n) = true

-- `a == 0`.
abbrev pub is_zero : ℤ → Bool
is_zero (pos n) = n == 0
is_zero (negsuc n) = false

-- `a == b`.
abbrev pub eq_ℤ : ℤ → ℤ → Bool
eq_ℤ (pos a) (pos b) = a == b
eq_ℤ (negsuc a) (negsuc b) = a == b
eq_ℤ (pos a) (negsuc b) = false
eq_ℤ (negsuc a) (pos b) = false

-- The value of a 32-bit word that is read as signed.
abbrev pub signed32 : ℕ → ℤ
signed32 w = if ltb w (2 ^ 31) then pos w else negsuc (2 ^ 32 - 1 - w)

-- `a - b` in `int`, with the wrap-around of two's complement.
unfoldable pub sub32 : ℤ → ℤ → ℤ
sub32 a b =
    signed32 ((pos_part a + neg_part b + 2 ^ 32 - (pos_part b + neg_part a) % 2 ^ 32) % 2 ^ 32)

-- The difference of `a` and `b` is an `int`, so that it does not wrap.
abbrev pub FitsDiff : ℤ → ℤ → Type 0
FitsDiff a b =
    (pos_part a + neg_part b < pos_part b + neg_part a + 2 ^ 31)
    × (pos_part b + neg_part a ≤ pos_part a + neg_part b + 2 ^ 31)

pub sub32-is_neg : (a b : ℤ) → FitsDiff a b → is_neg (sub32 a b) ≡ true → a <ℤ b
unfolding sub32
sub32-is_neg a b f h = ground arith

pub sub32_not_neg : (a b : ℤ) → FitsDiff a b → is_neg (sub32 a b) ≡ false → b ≤ℤ a
unfolding sub32
sub32_not_neg a b f h = ground arith

pub sub32-is_zero : (a b : ℤ) → FitsDiff a b → is_zero (sub32 a b) ≡ true → a ≡ b
unfolding sub32
sub32-is_zero a b f h = ground arith

pub sub32_self : (a : ℤ) → sub32 a a ≡ pos 0
unfolding sub32
sub32_self a = ground arith
