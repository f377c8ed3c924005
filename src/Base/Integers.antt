-- ===== src/Base/Integers.antt =====
-- math/big: integers over the native numbers, for a *big.Int whose sign the code reads.
use Prim.Native.Nat.{ℕ, zero, suc, ◌+◌, ◌-◌, ◌*◌, ◌^◌, ◌%◌}
use mathlib.Core.Path.{◌≡◌}
use mathlib.Core.Logic.{◌↔◌}
use mathlib.Core.Bool.{Bool, true, false}
use native.Mathlib.Omega.{arith}
use safenet_arbitration_bot.Base.Tests.{ltb, ◌==◌, if◌then◌else◌}

-- `negsuc n` is -1 - n.
pub data ℤ : Type 0 where
  pos negsuc : ℕ → ℤ

-- The number that is a less b.
abbrev minus : ℕ → ℕ → ℤ
minus a b = if ltb a b then negsuc (b - a - 1) else pos (a - b)

abbrev pub opposite : ℕ → ℤ
opposite zero = pos zero
opposite (suc n) = negsuc n

infixl 65 ◌+ℤ◌
infixl 70 ◌*ℤ◌
-- Add.
abbrev pub ◌+ℤ◌ : ℤ → ℤ → ℤ
pos m +ℤ pos n = pos (m + n)
pos m +ℤ negsuc n = minus m (suc n)
negsuc m +ℤ pos n = minus n (suc m)
negsuc m +ℤ negsuc n = negsuc (suc (m + n))

-- Mul.
abbrev pub ◌*ℤ◌ : ℤ → ℤ → ℤ
pos m *ℤ pos n = pos (m * n)
pos m *ℤ negsuc n = opposite (m * suc n)
negsuc m *ℤ pos n = opposite (suc m * n)
negsuc m *ℤ negsuc n = pos (suc m * suc n)

-- `a.Cmp(b) == 0`
infix 50 ◌==ℤ◌
abbrev pub ◌==ℤ◌ : ℤ → ℤ → Bool
pos m ==ℤ pos n = m == n
negsuc m ==ℤ negsuc n = m == n
_ ==ℤ _ = false

pub ==ℤ_iff : (a b : ℤ) → ((a ==ℤ b) ≡ true) ↔ (a ≡ b)
==ℤ_iff (pos m) (pos n) = ground arith
==ℤ_iff (pos m) (negsuc n) = ground arith
==ℤ_iff (negsuc m) (pos n) = ground arith
==ℤ_iff (negsuc m) (negsuc n) = ground arith

-- `a.IsUint64()`
abbrev pub is_uint64 : ℤ → Bool
is_uint64 (pos n) = ltb n (2 ^ 64)
is_uint64 (negsuc n) = false

-- `a.Uint64()`: the low bits of the absolute value.
abbrev pub low_uint64 : ℤ → ℕ
low_uint64 (pos n) = n % 2 ^ 64
low_uint64 (negsuc n) = suc n % 2 ^ 64
