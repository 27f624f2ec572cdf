-- ===== src/Prelude/Int.antt =====
-- Signed integers over the native numbers, and their conversion to a signed type of `w` bits.
use Prim.Native.Nat.{ℕ, ◌-◌, ◌%◌, ◌^◌, ◌<◌}
use mathlib.Core.Path.{◌≡◌}
use native.Mathlib.Omega.{arith}
use libdbi_drivers.Prelude.Tests.{ltb, if◌then◌else◌}

-- `negsuc n` is -(n + 1).
pub data ℤ : Type 0 where
  pos : ℕ → ℤ
  negsuc : ℕ → ℤ

-- The two's complement pattern of `w` bits, and the number that a pattern stands for.
unfoldable pub pattern_of : ℕ → ℤ → ℕ
pattern_of w (pos n) = n % 2 ^ w
pattern_of w (negsuc n) = 2 ^ w - 1 - n % 2 ^ w

unfoldable pub signed : ℕ → ℕ → ℤ
signed w p = if ltb p (2 ^ (w - 1)) then pos p else negsuc (2 ^ w - p - 1)

-- `(T) z` for a signed type of `w` bits, as compilers define it: the low bits are kept.
unfoldable pub cast : ℕ → ℤ → ℤ
unfolding pattern_of signed
cast w z = signed w (pattern_of w z)

-- The values of a signed type of `w` bits.
abbrev pub Fits : ℕ → ℤ → Type 0
Fits w (pos n) = n < 2 ^ (w - 1)
Fits w (negsuc n) = n < 2 ^ (w - 1)

pub cast8 : (z : ℤ) → Fits 8 z → cast 8 z ≡ z
unfolding cast
cast8 (pos n) h = ground arith
cast8 (negsuc n) h = ground arith

pub cast16 : (z : ℤ) → Fits 16 z → cast 16 z ≡ z
unfolding cast
cast16 (pos n) h = ground arith
cast16 (negsuc n) h = ground arith

pub cast32 : (z : ℤ) → Fits 32 z → cast 32 z ≡ z
unfolding cast
cast32 (pos n) h = ground arith
cast32 (negsuc n) h = ground arith

pub cast64 : (z : ℤ) → Fits 64 z → cast 64 z ≡ z
unfolding cast
cast64 (pos n) h = ground arith
cast64 (negsuc n) h = ground arith
