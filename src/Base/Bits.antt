-- ===== src/Base/Bits.antt =====
-- uint8_t, uint16_t and uint32_t as native numbers, and the facts about the bit operations that
-- the tactics, which take such a call for an unknown, do not know.
use Prim.Native.Nat.{ℕ, zero, suc, ◌+◌, ◌-◌, ◌*◌, ◌/◌, ◌%◌, ◌^◌, ◌≤◌, ◌<◌, min, max}
use Prim.Native.Nat.{bit_and, bit_or, bit_xor, digits, bitwise, differ}
use Prim.Native.Nat.{bit_and-bitwise, bit_or-bitwise, bit_xor-bitwise}
use mathlib.Core.Path.{◌≡◌, refl, ap}
use native.Mathlib.Nat.{le_refl, pow-suc, one-le-pow}
use native.Mathlib.Omega.{arith}

abbrev pub u8 : ℕ → ℕ
u8 n = n % 256

abbrev pub u16 : ℕ → ℕ
u16 n = n % 65536

abbrev pub u32 : ℕ → ℕ
u32 n = n % 4294967296

-- How `bitwise`, which the native operations mean, treats the lowest binary digit: the fuel that it
-- runs on is enough, and more gives the same.
module _ (rest : ℕ → ℕ) (op : ℕ → ℕ → ℕ) where
  enough_digits :
      (fuel more a b : ℕ)
      → a ≤ fuel
      → fuel ≤ more
      → digits rest op more a b ≡ digits rest op fuel a b
  enough_digits zero zero a b small larger = refl
  enough_digits (suc fuel) zero a b small larger = absurd (omega arith)
  enough_digits zero (suc more) zero b small larger = refl
  enough_digits (suc fuel) (suc more) zero b small larger = refl
  enough_digits zero (suc more) (suc a) b small larger = absurd (omega arith)
  enough_digits (suc fuel) (suc more) (suc a) b small larger =
      ap (λ (high : ℕ). high * 2 + op (suc a % 2) (b % 2))
        (enough_digits fuel more (suc a / 2) (b / 2) (omega arith) (omega arith))

  lowest_digit :
      (a b : ℕ)
      → bitwise rest op (suc a) b ≡ 2 * bitwise rest op (suc a / 2) (b / 2) + op (suc a % 2) (b % 2)
  lowest_digit a b =
      omega (arith, enough_digits (suc a / 2) a (suc a / 2) (b / 2) (le_refl _) (omega arith))

pub bit_and_step : (a b : ℕ) → bit_and a b ≡ bit_and (a / 2) (b / 2) * 2 + min (a % 2) (b % 2)
bit_and_step zero b = omega (arith, bit_and-bitwise 0 b, bit_and-bitwise 0 (b / 2))
bit_and_step (suc n) b = omega (
  arith,
  lowest_digit (λ y. 0) min n b,
  bit_and-bitwise (suc n) b,
  bit_and-bitwise (suc n / 2) (b / 2),
)

differ_digits : (a b : ℕ) → a < 2 → b < 2 → differ a b ≡ (a + b) % 2
differ_digits zero zero h k = refl
differ_digits zero (suc zero) h k = refl
differ_digits zero (suc (suc b)) h k = absurd (omega arith)
differ_digits (suc zero) zero h k = refl
differ_digits (suc zero) (suc zero) h k = refl
differ_digits (suc zero) (suc (suc b)) h k = absurd (omega arith)
differ_digits (suc (suc a)) b h k = absurd (omega arith)

pub bit_xor_step : (a b : ℕ) → bit_xor a b ≡ bit_xor (a / 2) (b / 2) * 2 + (a + b) % 2
bit_xor_step zero b = simp bit_xor-bitwise (omega arith)
bit_xor_step (suc a) b = simp bit_xor-bitwise (
    omega (
      arith,
      lowest_digit (λ y. y) differ a b,
      differ_digits (suc a % 2) (b % 2) (omega arith) (omega arith),
    ))

pub bit_or_step : (a b : ℕ) → bit_or a b ≡ bit_or (a / 2) (b / 2) * 2 + max (a % 2) (b % 2)
bit_or_step zero b = omega (arith, bit_or-bitwise 0 b, bit_or-bitwise 0 (b / 2))
bit_or_step (suc n) b = omega (
  arith,
  bit_or-bitwise (suc n) b,
  bit_or-bitwise (suc n / 2) (b / 2),
  lowest_digit (λ y. y) max n b,
)

-- A function that keeps the lowest bit and the rest is the identity, and one that drops each bit is 0.
module _ (f : ℕ → ℕ) (step : (a : ℕ) → f a ≡ f (a / 2) * 2 + a % 2) (none : f 0 ≡ 0) where
  same_bits : (bound a : ℕ) → a ≤ bound → f a ≡ a
  same_bits bound zero h = none
  same_bits zero (suc a) h = absurd (omega arith)
  same_bits (suc bound) (suc a) h =
      omega (arith, step (suc a), same_bits bound (suc a / 2) (omega arith))

pub bit_or-zero : (a : ℕ) → bit_or a 0 ≡ a
bit_or-zero a =
    same_bits (λ n. bit_or n 0) (λ n. omega (arith, bit_or_step n 0)) refl a a (le_refl a)

module _ (f : ℕ → ℕ) (step : (a : ℕ) → f a ≡ f (a / 2) * 2) (none : f 0 ≡ 0) where
  no_bits : (bound a : ℕ) → a ≤ bound → f a ≡ 0
  no_bits bound zero h = none
  no_bits zero (suc a) h = absurd (omega arith)
  no_bits (suc bound) (suc a) h =
      omega (arith, step (suc a), no_bits bound (suc a / 2) (omega arith))

pub bit_and-zero : (a : ℕ) → bit_and a 0 ≡ 0
bit_and-zero a =
    no_bits (λ n. bit_and n 0) (λ n. omega (arith, bit_and_step n 0)) refl a a (le_refl a)

power_double : (k : ℕ) → 2 ^ suc k ≡ 2 * 2 ^ k
power_double k = omega (arith, pow-suc 2 k)

pub field_double : (q k : ℕ) → q * 2 ^ suc k ≡ 2 * (q * 2 ^ k)
field_double q k = omega (arith, ap (λ (p : ℕ). q * p) (power_double k))

-- Of two fields, of which the lower has `k` bits, a mask of `k` bits leaves the lower.
lower_field : (k high low : ℕ) → low < 2 ^ k → bit_and (low + high * 2 ^ k) (2 ^ k - 1) ≡ low
lower_field zero high low h = rw bit_and-zero (omega arith)
lower_field (suc k) high low h = ground (
  arith,
  field_double high k,
  power_double k,
  lower_field k high (low / 2) (omega (arith, power_double k)),
  bit_and_step (low + high * 2 ^ suc k) (2 ^ suc k - 1),
)

-- `(q << k) | r` is a sum when `r` fits `k` bits.
pub bit_or_fields : (k q r : ℕ) → r < 2 ^ k → bit_or (q * 2 ^ k) r ≡ q * 2 ^ k + r
bit_or_fields zero q zero small = omega (arith, bit_or-zero (q * 2 ^ 0))
bit_or_fields zero q (suc r) small = absurd (omega arith)
bit_or_fields (suc k) q r small = ground (
  arith,
  bit_or_fields k q (r / 2) (omega (arith, power_double k)),
  field_double q k,
  bit_or_step (q * 2 ^ suc k) r,
)

-- A mask of `k` low bits is the remainder by `2 ^ k`.
pub bit_and_mask : (k a : ℕ) → bit_and a (2 ^ k - 1) ≡ a % 2 ^ k
bit_and_mask k a =
    ground
      (arith, lower_field k (a / 2 ^ k) (a % 2 ^ k) (omega (arith, one-le-pow k 2)), one-le-pow k 2)

pub bit_and_0x03 : (a : ℕ) → bit_and a 0x03 ≡ a % 4
bit_and_0x03 a = bit_and_mask 2 a

pub bit_and_0x0f : (a : ℕ) → bit_and a 0x0f ≡ a % 16
bit_and_0x0f a = bit_and_mask 4 a

pub bit_and_0x7f : (a : ℕ) → bit_and a 0x7f ≡ a % 128
bit_and_0x7f a = bit_and_mask 7 a

pub bit_and_0xff : (a : ℕ) → bit_and a 0xff ≡ a % 256
bit_and_0xff a = bit_and_mask 8 a

pub bit_and_0xffff : (a : ℕ) → bit_and a 0xffff ≡ a % 65536
bit_and_0xffff a = bit_and_mask 16 a

-- `(hi << 8) | lo`
pub bit_or_bytes : (hi lo : ℕ) → lo < 256 → bit_or (hi * 256) lo ≡ hi * 256 + lo
bit_or_bytes hi lo h = bit_or_fields 8 hi lo h

pub bit_or-lt : (k a b : ℕ) → a < 2 ^ k → b < 2 ^ k → bit_or a b < 2 ^ k
bit_or-lt zero zero zero h g = omega arith
bit_or-lt zero zero (suc b) h g = absurd (omega arith)
bit_or-lt zero (suc a) b h g = absurd (omega arith)
bit_or-lt (suc k) a b h g = omega (
  arith,
  pow-suc 2 k,
  bit_or_step a b,
  bit_or-lt k (a / 2) (b / 2) (omega (arith, pow-suc 2 k)) (omega (arith, pow-suc 2 k)),
)

pub bit_xor-lt : (k a b : ℕ) → a < 2 ^ k → b < 2 ^ k → bit_xor a b < 2 ^ k
bit_xor-lt zero zero zero h g = omega arith
bit_xor-lt zero zero (suc b) h g = absurd (omega arith)
bit_xor-lt zero (suc a) b h g = absurd (omega arith)
bit_xor-lt (suc k) a b h g = omega (
  arith,
  pow-suc 2 k,
  bit_xor_step a b,
  bit_xor-lt k (a / 2) (b / 2) (omega (arith, pow-suc 2 k)) (omega (arith, pow-suc 2 k)),
)

zero-bit_and : (c : ℕ) → bit_and 0 c ≡ 0
zero-bit_and c = bit_and-bitwise 0 c

bit_and-le_fuel : (n a b : ℕ) → a ≤ n → bit_and a b ≤ a
bit_and-le_fuel n zero b h = omega (arith, zero-bit_and b)
bit_and-le_fuel zero (suc a) b h = absurd (omega arith)
bit_and-le_fuel (suc n) (suc a) b h =
    omega (arith, bit_and_step (suc a) b, bit_and-le_fuel n (suc a / 2) (b / 2) (omega arith))

pub bit_and-le : (a b : ℕ) → bit_and a b ≤ a
bit_and-le a b = bit_and-le_fuel a a b (le_refl a)
