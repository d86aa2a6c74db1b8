-- ===== src/Common/Int.antt =====
-- The signed integers of C over the native numbers. (The library's ℤ stands on another ℕ.)
use Prim.Native.Nat.{ℕ, suc, ◌+◌, ◌-◌, ◌*◌, ◌/◌, ◌%◌, ◌^◌}
use mathlib.Core.Bool.{Bool, false}
use s_vpn.Common.Tests.{ltb, leb, ◌==◌, if◌then◌else◌}

-- `negsuc n` is -(n + 1).
pub data ℤ : Type 0 where
  pos : ℕ → ℤ
  negsuc : ℕ → ℤ

abbrev pub pos_part : ℤ → ℕ
pos_part (pos n) = n
pos_part (negsuc n) = 0

abbrev pub neg_part : ℤ → ℕ
neg_part (pos n) = 0
neg_part (negsuc n) = suc n

-- a - b, as an integer.
abbrev pub sub_ℕ : ℕ → ℕ → ℤ
sub_ℕ a b = if leb b a then pos (a - b) else negsuc (b - a - 1)

infixl 65 ◌+ℤ◌ ◌-ℤ◌
infixl 70 ◌*ℤ◌
abbrev pub ◌+ℤ◌ : ℤ → ℤ → ℤ
a +ℤ b = sub_ℕ (pos_part a + pos_part b) (neg_part a + neg_part b)

abbrev pub ◌-ℤ◌ : ℤ → ℤ → ℤ
a -ℤ b = sub_ℕ (pos_part a + neg_part b) (neg_part a + pos_part b)

abbrev pub ◌*ℤ◌ : ℤ → ℤ → ℤ
a *ℤ b =
    sub_ℕ (pos_part a * pos_part b + neg_part a * neg_part b)
      (pos_part a * neg_part b + neg_part a * pos_part b)

abbrev pub ltb_ℤ : ℤ → ℤ → Bool
ltb_ℤ a b = ltb (pos_part a + neg_part b) (pos_part b + neg_part a)

-- `/` and `%` of C cut off towards zero.
abbrev pub quot_ℤ : ℤ → ℤ → ℤ
quot_ℤ (pos a) (pos b) = pos (a / b)
quot_ℤ (pos a) (negsuc b) = sub_ℕ 0 (a / suc b)
quot_ℤ (negsuc a) (pos b) = sub_ℕ 0 (suc a / b)
quot_ℤ (negsuc a) (negsuc b) = pos (suc a / suc b)

abbrev pub rem_ℤ : ℤ → ℕ → ℤ
rem_ℤ (pos a) b = pos (a % b)
rem_ℤ (negsuc a) b = sub_ℕ 0 (suc a % b)

abbrev pub is_zero : ℤ → Bool
is_zero (pos n) = n == 0
is_zero (negsuc n) = false

-- The residue modulo `2 ^ 32`, read as a two's complement number: a cast to `int`.
abbrev pub signed32 : ℕ → ℤ
signed32 r = if ltb r (2 ^ 31) then pos r else negsuc (2 ^ 32 - 1 - r)

abbrev pub to_int32 : ℤ → ℤ
to_int32 (pos n) = signed32 (n % 2 ^ 32)
to_int32 (negsuc n) = signed32 (2 ^ 32 - 1 - n % 2 ^ 32)
