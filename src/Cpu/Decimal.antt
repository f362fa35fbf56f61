-- ===== src/Cpu/Decimal.antt =====
-- ADC and SBC in decimal mode, on operands whose two nibbles are decimal digits.
use sage_apple.Base.{
  ℕ, ◌+◌, ◌-◌, ◌*◌, ◌/◌, ◌%◌, ◌<◌, ◌≤◌, ◌≡◌, refl, ap, arith, Bool, true, false, not, bit_and,
  bit_or, leb, ltb, if◌then◌else◌, bit_and_0x0f, bit_and_0xff, bit_or_fields, u8,
}
use sage_apple.Cpu.Regs.{Regs, fl_d, fl_c, put_flag, flag, to_ℕ}
use sage_apple.Cpu.Alu.{
  decimal_sum, adc_decimal, adc, low_part, high_part, decimal_diff, sbc_decimal, sbc,
}
use sage_apple.Cpu.Status.{Flags, flags-put_c}
use sage_apple.Cpu.Arithmetic.{carry-lt}

-- a byte of two decimal digits, and the number that they write
abbrev pub IsBcd : ℕ → Type 0
IsBcd x = (x / 16 ≤ 9) × (x % 16 ≤ 9)

abbrev pub decimal_value : ℕ → ℕ
decimal_value x = x / 16 * 10 + x % 16

decimal_sum_lem :
    (a o c : ℕ)
    → IsBcd a
    → IsBcd o
    → c < 2
    → IsBcd (bit_and (decimal_sum a o c) 0xff)
      × (decimal_value (bit_and (decimal_sum a o c) 0xff)
            + 100 * to_ℕ (ltb 0xff (decimal_sum a o c))
          ≡ decimal_value a + decimal_value o + c)
unfolding decimal_sum
decimal_sum_lem a o c ha ho hc = rw (bit_and_0x0f, bit_and_0x0f, bit_and_0xff) (ground arith)

abbrev digit_diff : ℕ → ℕ → ℕ → ℕ
digit_diff a o b = if leb (a + 1) (o + b) then a + 10 - (o + b) else a - (o + b)

-- A digit minus a digit and a borrow, as the code computes it.
low_part_digit :
    (a o b : ℕ) → a ≤ 9 → o ≤ 9 → b < 2 → low_part a o b ≡ (digit_diff a o b, leb (a + 1) (o + b))
unfolding low_part
low_part_digit a o b ha ho hb = ground arith

high_part_digit :
    (a o : ℕ) (owed : Bool)
    → a ≤ 9
    → o ≤ 9
    → high_part a o owed ≡ (digit_diff a o (to_ℕ owed), leb (a + 1) (o + to_ℕ owed))
unfolding high_part
high_part_digit a o true ha ho = ground arith
high_part_digit a o false ha ho = ground arith

-- What a digit's difference is, whether it owes ten or not.
digit_diff_lem :
    (a o b : ℕ)
    → a ≤ 9
    → o ≤ 9
    → b < 2
    → (digit_diff a o b ≤ 9) × (digit_diff a o b + o + b ≡ a + 10 * to_ℕ (leb (a + 1) (o + b)))
digit_diff_lem a o b ha ho hb = ground arith

join_digits : (h l : ℕ) → h ≤ 9 → l ≤ 9 → bit_or (u8 (h * 16)) l ≡ h * 16 + l
join_digits h l hh hl = ground (arith, bit_or_fields 4 h l)

decimal_diff_digits :
    (a o b : ℕ)
    → IsBcd a
    → IsBcd o
    → b < 2
    → let owed = leb (a % 16 + 1) (o % 16 + b) in
      decimal_diff a o b ≡ (
        digit_diff (a / 16) (o / 16) (to_ℕ owed) * 16 + digit_diff (a % 16) (o % 16) b,
        leb (a / 16 + 1) (o / 16 + to_ℕ owed),
      )
unfolding decimal_diff
decimal_diff_digits a o b ha ho hb =
    simp
      (
        bit_and_0x0f,
        nibble a ha,
        nibble o ho,
        low_part_digit (a % 16) (o % 16) b ha.1 ho.1 hb,
        high_part_digit (a / 16) (o / 16) (leb (a % 16 + 1) (o % 16 + b)) ha.0 ho.0,
      )
      (ap (λ (n : ℕ). (n, leb (a / 16 + 1) (o / 16 + to_ℕ (leb (a % 16 + 1) (o % 16 + b)))))
        (join_digits _ _ (digit_diff_lem (a / 16) (o / 16) _ ha.0 ho.0 (carry-lt _)).0
          (digit_diff_lem (a % 16) (o % 16) b ha.1 ho.1 hb).0))
  where
    nibble : (x : ℕ) → IsBcd x → x / 16 % 16 ≡ x / 16
    nibble x h = omega arith

-- The difference is two digits, and borrows a hundred exactly when it says so.
decimal_diff_lem :
    (a o b : ℕ)
    → IsBcd a
    → IsBcd o
    → b < 2
    → IsBcd (decimal_diff a o b).0
      × (decimal_value (decimal_diff a o b).0 + decimal_value o + b
          ≡ decimal_value a + 100 * to_ℕ (decimal_diff a o b).1)
decimal_diff_lem a o b ha ho hb = rw (decimal_diff_digits a o b ha ho hb) (
    omega (
      arith,
      digit_diff_lem (a % 16) (o % 16) b ha.1 ho.1 hb,
      digit_diff_lem (a / 16) (o / 16) (to_ℕ (leb (a % 16 + 1) (o % 16 + b))) ha.0 ho.0
          (carry-lt _),
    ))

carry-put_c : (b : Bool) (p : ℕ) → flag fl_c (put_flag fl_c b p) ≡ b
carry-put_c b p = ap Flags.c (flags-put_c b p)

complement_carry : (b : Bool) → 1 - to_ℕ (not b) ≡ to_ℕ b
complement_carry true = refl
complement_carry false = refl

-- In decimal mode, on operands that are two decimal digits each, ADC leaves two decimal digits in
-- the accumulator, and they and the carry as hundreds are the decimal sum with the carry.
pub adc_decimal_lem :
    (o : ℕ) (r : Regs)
    → IsBcd r.a
    → IsBcd o
    → flag fl_d r.p ≡ true
    → let r' = adc o r in
      IsBcd r'.a
      × (decimal_value r'.a + 100 * to_ℕ (flag fl_c r'.p)
          ≡ decimal_value r.a + decimal_value o + to_ℕ (flag fl_c r.p))
unfolding adc adc_decimal
adc_decimal_lem o r ha ho e =
    rw (e, carry-put_c) (decimal_sum_lem r.a o (to_ℕ (flag fl_c r.p)) ha ho (carry-lt _))

-- In decimal mode, on operands that are two decimal digits each, SBC leaves two decimal digits in
-- the accumulator, which are the decimal difference with the borrow, and a clear carry afterwards
-- means a borrowed hundred.
pub sbc_decimal_lem :
    (o : ℕ) (r : Regs)
    → IsBcd r.a
    → IsBcd o
    → flag fl_d r.p ≡ true
    → let r' = sbc o r in
      IsBcd r'.a
      × (decimal_value r'.a + decimal_value o + (1 - to_ℕ (flag fl_c r.p))
          ≡ decimal_value r.a + 100 * (1 - to_ℕ (flag fl_c r'.p)))
unfolding sbc sbc_decimal
sbc_decimal_lem o r ha ho e =
    rw (e, carry-put_c)
      (difference.0, omega (arith, difference.1, complement_carry (decimal_diff r.a o borrow).1))
  where
    borrow : ℕ
    borrow = 1 - to_ℕ (flag fl_c r.p)

    difference :
        IsBcd (decimal_diff r.a o borrow).0
        × (decimal_value (decimal_diff r.a o borrow).0 + decimal_value o + borrow
            ≡ decimal_value r.a + 100 * to_ℕ (decimal_diff r.a o borrow).1)
    difference = decimal_diff_lem r.a o borrow ha ho (omega arith)
