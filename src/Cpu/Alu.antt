-- ===== src/Cpu/Alu.antt =====
-- avr/sage6502.c:249-306 and 342-352: adc, sbc, compare, and the shift without its store.
use sage_apple.Base.{
  ℕ, ◌+◌, ◌-◌, ◌*◌, ◌/◌, Bool, true, false, not, bit_and, bit_or, bit_xor, u8, u16, ltb, leb, ◌==◌,
  if◌then◌else◌, sub_ℕ, add_ℤ_ℕ, sub_ℤ_ℕ, is_neg, to_u8, ◌∷◌, [], switch,
}
use sage_apple.Cpu.Regs.{Regs, fl_v, fl_d, fl_c, put_flag, flag, to_ℕ, nz}

-- `x & 0x80`, as a test
unfoldable pub top_bit : ℕ → Bool
top_bit x = if bit_and x 0x80 == 0 then false else true

-- the decimal adjustment of a binary sum
unfoldable pub decimal_sum : ℕ → ℕ → ℕ → ℕ
decimal_sum a operand c =
    let sum = u16 (a + operand + c) in
    let low = if ltb 9 (bit_and a 0x0f + bit_and operand 0x0f + c) then u16 (sum + 0x06) else sum in
    if ltb 0x99 low then u16 (low + 0x60) else low

-- `adc` in the two modes, for the carry `c` that it finds
unfoldable pub adc_decimal : ℕ → ℕ → Regs → Regs
unfolding decimal_sum
adc_decimal operand c r =
    let masked = bit_and (u16 (r.a + operand + c)) 0xff in
    let v = top_bit (bit_and (bit_xor r.a masked) (bit_xor operand masked)) in
    let decimal = decimal_sum r.a operand c in
    record r {
      p = put_flag fl_c (ltb 0xff decimal) (nz masked (put_flag fl_v v r.p));
      a = bit_and decimal 0xff;
    }

unfoldable pub adc_binary : ℕ → ℕ → Regs → Regs
adc_binary operand c r =
    let sum = u16 (r.a + operand + c) in
    let masked = bit_and sum 0xff in
    let v = top_bit (bit_and (bit_xor r.a masked) (bit_xor operand masked)) in
    record r { p = nz masked (put_flag fl_v v (put_flag fl_c (ltb 0xff sum) r.p)); a = masked }

unfoldable pub adc : ℕ → Regs → Regs
adc operand r =
    let c = to_ℕ (flag fl_c r.p) in
    if flag fl_d r.p then adc_decimal operand c r else adc_binary operand c r

-- `low` and `high` of the decimal difference, which are `int`s, modulo 2^8, each with whether it was
-- negative before 10 was added.
unfoldable pub low_part : ℕ → ℕ → ℕ → ℕ × Bool
low_part a operand borrow =
    let low = sub_ℤ_ℕ (sub_ℕ a operand) borrow in
    (to_u8 (if is_neg low then add_ℤ_ℕ low 10 else low), is_neg low)

unfoldable pub high_part : ℕ → ℕ → Bool → ℕ × Bool
high_part a operand owed =
    let high = if owed then sub_ℤ_ℕ (sub_ℕ a operand) 1 else sub_ℕ a operand in
    (to_u8 (if is_neg high then add_ℤ_ℕ high 10 else high), is_neg high)

-- The decimal difference, with whether it borrowed. A negative `high` is shifted and or-ed in two's
-- complement.
unfoldable pub decimal_diff : ℕ → ℕ → ℕ → ℕ × Bool
decimal_diff a operand borrow =
    let (low, owed) = low_part (bit_and a 0x0f) (bit_and operand 0x0f) borrow in
    let (high, borrowed) = high_part (bit_and (a / 16) 0x0f) (bit_and (operand / 16) 0x0f) owed in
    (bit_or (u8 (high * 16)) low, borrowed)

-- `sbc` in the two modes, for the carry `c` that it finds
unfoldable pub sbc_decimal : ℕ → ℕ → Regs → Regs
unfolding decimal_diff
sbc_decimal operand c r =
    let borrow = 1 - c in
    let masked = to_u8 (sub_ℤ_ℕ (sub_ℕ r.a operand) borrow) in
    let v = top_bit (bit_and (bit_xor r.a masked) (bit_xor r.a operand)) in
    let (result, borrowed) = decimal_diff r.a operand borrow in
    record r { p = put_flag fl_c (not borrowed) (nz masked (put_flag fl_v v r.p)); a = result }

unfoldable pub sbc_binary : ℕ → ℕ → Regs → Regs
sbc_binary operand c r =
    let complement = bit_xor operand 0xff in
    let sum = u16 (r.a + complement + c) in
    let masked = bit_and sum 0xff in
    let v = top_bit (bit_and (bit_xor r.a masked) (bit_xor complement masked)) in
    record r {
      p = nz masked (put_flag fl_v v (put_flag fl_c (not (ltb sum 0x100)) r.p));
      a = masked;
    }

unfoldable pub sbc : ℕ → Regs → Regs
sbc operand r =
    let c = to_ℕ (flag fl_c r.p) in
    if flag fl_d r.p then sbc_decimal operand c r else sbc_binary operand c r

unfoldable pub compare : ℕ → ℕ → Regs → Regs
compare reg operand r =
    let result = u8 (reg + 256 - operand) in
    record r { p = put_flag fl_c (leb operand reg) (nz result r.p) }

-- The result of `shift` and the carry that it leaves, for the carry that it finds. An id that is no
-- shift leaves the result 0 and the carry as it is.
unfoldable pub shift_result : ℕ → ℕ → Bool → ℕ × Bool
unfolding top_bit
shift_result id operand c =
    switch id
      ((31, (u8 (operand * 2), top_bit operand))
        ∷ (32, (operand / 2, not (bit_and operand 0x01 == 0)))
        ∷ (33, (u8 (bit_or (operand * 2) (to_ℕ c)), top_bit operand))
        ∷ (34, (bit_or (operand / 2) (to_ℕ c * 128), not (bit_and operand 0x01 == 0)))
        ∷ [])
      (0, c)

-- the flags that `shift` leaves
unfoldable pub shift_flags : ℕ → ℕ → ℕ → ℕ
shift_flags id operand p =
    let (result, c) = shift_result id operand (flag fl_c p) in nz result (put_flag fl_c c p)
