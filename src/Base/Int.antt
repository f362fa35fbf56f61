-- ===== src/Base/Int.antt =====
-- Signed integers over the native numbers, under the library's names.
use Prim.Native.Nat.{ℕ, suc, ◌+◌, ◌-◌, ◌%◌, ◌<◌}
use mathlib.Core.Bool.{Bool, true, false}
use native.Mathlib.Omega.{arith}
use sage_apple.Base.Tests.{leb, if◌then◌else◌}

-- `negsuc n` is -(n + 1).
pub data ℤ : Type 0 where
  pos : ℕ → ℤ
  negsuc : ℕ → ℤ

-- a - b, as an integer.
abbrev pub sub_ℕ : ℕ → ℕ → ℤ
sub_ℕ a b = if leb b a then pos (a - b) else negsuc (b - a - 1)

-- z + n and z - n for a number n
abbrev pub add_ℤ_ℕ : ℤ → ℕ → ℤ
add_ℤ_ℕ (pos m) n = pos (m + n)
add_ℤ_ℕ (negsuc m) n = sub_ℕ n (suc m)

abbrev pub sub_ℤ_ℕ : ℤ → ℕ → ℤ
sub_ℤ_ℕ (pos m) n = sub_ℕ m n
sub_ℤ_ℕ (negsuc m) n = negsuc (m + n)

abbrev pub is_neg : ℤ → Bool
is_neg (pos m) = false
is_neg (negsuc m) = true

-- the value of an `int` modulo 2^8 and 2^16, as the casts take it
abbrev pub to_u8 : ℤ → ℕ
to_u8 (pos m) = m % 256
to_u8 (negsuc m) = 255 - m % 256

abbrev pub to_u16 : ℤ → ℕ
to_u16 (pos m) = m % 65536
to_u16 (negsuc m) = 65535 - m % 65536

pub to_u8-lt : (z : ℤ) → to_u8 z < 256
to_u8-lt (pos m) = omega arith
to_u8-lt (negsuc m) = omega arith
