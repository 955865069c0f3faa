-- ===== src/Prelude/Int.antt =====
-- Signed integers over the native numbers, and Go's wrap-around of `int32` and `int64`.
use Prim.Native.Nat.{ℕ, suc, ◌+◌, ◌-◌, ◌*◌, ◌%◌, ◌≤◌}
use mathlib.Core.Path.{◌≡◌}
use mathlib.Core.Bool.{Bool}
use native.Mathlib.Omega.{arith}
use ds_operator.Prelude.Tests.{ltb, leb, if◌then◌else◌}

-- `negsuc n` is -(n + 1).
pub data ℤ : Type 0 where
  pos : ℕ → ℤ
  negsuc : ℕ → ℤ

abbrev pub pos_part : ℤ → ℕ
pos_part (pos n) = n
pos_part (negsuc n) = 0

abbrev pub neg_part : ℤ → ℕ
neg_part (pos n) = 0
neg_part (negsuc n) = suc n

abbrev pub sub_ℕ : ℕ → ℕ → ℤ
sub_ℕ a b = if leb b a then pos (a - b) else negsuc (b - a - 1)

infixl 65 ◌+ℤ◌ ◌-ℤ◌
infixl 70 ◌*ℤ◌
infix 50 ◌≤ℤ◌
unfoldable pub ◌+ℤ◌ : ℤ → ℤ → ℤ
a +ℤ b = sub_ℕ (pos_part a + pos_part b) (neg_part a + neg_part b)

unfoldable pub ◌-ℤ◌ : ℤ → ℤ → ℤ
a -ℤ b = sub_ℕ (pos_part a + neg_part b) (neg_part a + pos_part b)

unfoldable pub ◌*ℤ◌ : ℤ → ℤ → ℤ
a *ℤ b =
    sub_ℕ (pos_part a * pos_part b + neg_part a * neg_part b)
      (pos_part a * neg_part b + neg_part a * pos_part b)

abbrev pub ◌≤ℤ◌ : ℤ → ℤ → Type 0
a ≤ℤ b = pos_part a + neg_part b ≤ pos_part b + neg_part a

abbrev pub ltb_ℤ : ℤ → ℤ → Bool
ltb_ℤ a b = ltb (pos_part a + neg_part b) (pos_part b + neg_part a)

-- The value of `x` as a w-bit two's complement integer; `half` is 2 ^ (w - 1).
abbrev residue : ℕ → ℤ → ℕ
residue m (pos n) = n % m
residue m (negsuc n) = m - 1 - n % m

abbrev signed : ℕ → ℕ → ℤ
signed half r = if ltb r half then pos r else negsuc (2 * half - 1 - r)

unfoldable pub wrap32 : ℤ → ℤ
wrap32 x = signed 0x8000_0000 (residue 0x1_0000_0000 x)

unfoldable pub wrap64 : ℤ → ℤ
wrap64 x = signed 0x8000_0000_0000_0000 (residue 0x1_0000_0000_0000_0000 x)

abbrev pub IsInt32 : ℤ → Type 0
IsInt32 x = (negsuc 0x7fff_ffff ≤ℤ x) × (x ≤ℤ pos 0x7fff_ffff)

abbrev pub IsInt64 : ℤ → Type 0
IsInt64 x = (negsuc 0x7fff_ffff_ffff_ffff ≤ℤ x) × (x ≤ℤ pos 0x7fff_ffff_ffff_ffff)

-- A value in range is left alone.
pub wrap32_lem : (x : ℤ) → IsInt32 x → wrap32 x ≡ x
unfolding wrap32
wrap32_lem (pos n) h = ground arith
wrap32_lem (negsuc n) h = ground arith

pub wrap64_lem : (x : ℤ) → IsInt64 x → wrap64 x ≡ x
unfolding wrap64
wrap64_lem (pos n) h = ground arith
wrap64_lem (negsuc n) h = ground arith

pub wrap32-IsInt32 : (x : ℤ) → IsInt32 (wrap32 x)
unfolding wrap32
wrap32-IsInt32 (pos n) = ground arith
wrap32-IsInt32 (negsuc n) = ground arith
