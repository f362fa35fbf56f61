-- ===== src/Base/Bit.antt =====
-- Single bits of a number, and the masks of one bit and of a word's upper byte.
use Prim.Native.Nat.{ℕ, zero, suc, ◌+◌, ◌*◌, ◌/◌, ◌%◌, ◌^◌, min, max}
use Prim.Native.Nat.{bit_and, bit_or, bit_xor}
use mathlib.Core.Path.{◌≡◌, ap, ◌∙◌}
use native.Mathlib.Nat.{pow-suc}
use native.Mathlib.Omega.{arith}
use sage_apple.Base.Bits.{
  bit_and_step, bit_or_step, bit_xor_step, bit_and_mask, bit_and_0xff, field_double,
}

-- bit `k` of a number
abbrev pub bit : ℕ → ℕ → ℕ
bit zero a = a % 2
bit (suc k) a = bit k (a / 2)

pub bit_xor-half : (a b : ℕ) → bit_xor a b / 2 ≡ bit_xor (a / 2) (b / 2)
bit_xor-half a b = omega (arith, bit_xor_step a b)

pub bit_and-half : (a b : ℕ) → bit_and a b / 2 ≡ bit_and (a / 2) (b / 2)
bit_and-half a b = omega (arith, bit_and_step a b)

pub bit_xor-bit : (k a b : ℕ) → bit k (bit_xor a b) ≡ (bit k a + bit k b) % 2
bit_xor-bit zero a b = omega (arith, bit_xor_step a b)
bit_xor-bit (suc k) a b = rw bit_xor-half (bit_xor-bit k (a / 2) (b / 2))

pub bit_and-bit : (k a b : ℕ) → bit k (bit_and a b) ≡ min (bit k a) (bit k b)
bit_and-bit zero a b = omega (arith, bit_and_step a b)
bit_and-bit (suc k) a b = rw bit_and-half (bit_and-bit k (a / 2) (b / 2))

pub bit_or-half : (a b : ℕ) → bit_or a b / 2 ≡ bit_or (a / 2) (b / 2)
bit_or-half a b = omega (arith, bit_or_step a b)

pub bit_or-bit : (k a b : ℕ) → bit k (bit_or a b) ≡ max (bit k a) (bit k b)
bit_or-bit zero a b = omega (arith, bit_or_step a b)
bit_or-bit (suc k) a b = rw bit_or-half (bit_or-bit k (a / 2) (b / 2))

pub bit_seven : (a : ℕ) → bit 7 a ≡ a / 128 % 2
bit_seven a = omega arith

-- `a & (1 << k)`
pub bit_and-two_pow : (k a : ℕ) → bit_and a (2 ^ k) ≡ bit k a * 2 ^ k
bit_and-two_pow zero a = omega (arith, bit_and_mask 1 a)
bit_and-two_pow (suc k) a = ground (
  arith,
  pow-suc 2 k,
  bit_and_step a (2 ^ suc k),
  ap (λ (t : ℕ). bit_and (a / 2) t) halved,
  bit_and-two_pow k (a / 2),
  field_double (bit k (a / 2)) k,
)
  where
    halved : 2 ^ suc k / 2 ≡ 2 ^ k
    halved = omega (arith, pow-suc 2 k)

pub bit_and_0x80 : (a : ℕ) → bit_and a 0x80 ≡ a / 128 % 2 * 128
bit_and_0x80 a = omega (arith, bit_and-two_pow 7 a, bit_seven a)

bit_and_even : (n a : ℕ) → bit_and a (2 * n) ≡ 2 * bit_and (a / 2) n
bit_and_even n a = ground (arith, bit_and_step a (2 * n), ap (λ (t : ℕ). bit_and (a / 2) t) halved)
  where
    halved : 2 * n / 2 ≡ n
    halved = omega arith

bit_and_16 : (n a : ℕ) → bit_and a (16 * n) ≡ 16 * bit_and (a / 16) n
bit_and_16 n a =
    ap (bit_and a) {y = 2 * (2 * (2 * (2 * n)))} (omega arith)
    ∙ omega (
      arith,
      bit_and_even (2 * (2 * (2 * n))) a,
      bit_and_even (2 * (2 * n)) (a / 2),
      bit_and_even (2 * n) (a / 2 / 2),
      bit_and_even n (a / 2 / 2 / 2),
      ap (λ (t : ℕ). bit_and t n) sixteenth,
    )
  where
    sixteenth : a / 2 / 2 / 2 / 2 ≡ a / 16
    sixteenth = omega arith

-- the upper byte of a word
pub bit_and_0xff00 : (a : ℕ) → bit_and a 0xff00 ≡ a / 256 % 256 * 256
bit_and_0xff00 a =
    omega (arith, bit_and_16 0x0ff0 a, bit_and_16 0xff (a / 16), bit_and_0xff (a / 16 / 16))
