-- ===== src/Cpu/Valid.antt =====
-- The registers stay `uint8_t`s and a `uint16_t`: what is proved of the pure operations.
use sage_apple.Base.{
  ℕ, ◌+◌, ◌-◌, ◌*◌, ◌/◌, ◌<◌, Bool, true, false, bit_and, bit_or, arith, bit_or-lt, bit_and-le,
  bit_and_0xff, bit_and_0xffff, to_u8-lt, if_both, switch_all, ℤ, pos, negsuc,
}
use sage_apple.Cpu.Regs.{
  Regs, fl_n, fl_v, fl_c, fl_d, fl_z, set_flag, clear_flag, put_flag, flag, to_ℕ, nz, upd_nz,
  load_a, load_x, load_y,
}
use sage_apple.Cpu.Alu.{
  adc_decimal, adc_binary, sbc_decimal, sbc_binary, adc, sbc, compare, shift_result, shift_flags,
  low_part, decimal_diff,
}
use sage_apple.Cpu.Core.{advance, set_pc, word}
use sage_apple.Cpu.Exec.{bit_test, add_offset}

pub record IsValid (r : Regs) : Type 0 where
  pub a_byte : r.a < 256
  pub x_byte : r.x < 256
  pub y_byte : r.y < 256
  pub sp_byte : r.sp < 256
  pub pc_word : r.pc < 65536
  pub p_byte : r.p < 256

pub set_flag-lt : (f p : ℕ) → f < 256 → p < 256 → set_flag f p < 256
unfolding set_flag
set_flag-lt f p hf hp = bit_or-lt 8 p f hp hf

pub clear_flag-lt : (f p : ℕ) → p < 256 → clear_flag f p < 256
unfolding clear_flag
clear_flag-lt f p h = omega (arith, bit_and-le p (0xff - f))

pub put_flag-lt : (f : ℕ) (b : Bool) (p : ℕ) → f < 256 → p < 256 → put_flag f b p < 256
unfolding put_flag
put_flag-lt f true p hf hp = set_flag-lt f p hf hp
put_flag-lt f false p hf hp = clear_flag-lt f p hp

pub nz-lt : (v p : ℕ) → p < 256 → nz v p < 256
unfolding nz
nz-lt v p h = put_flag-lt fl_z _ _ (omega arith) (put_flag-lt fl_n _ p (omega arith) h)

pub load_a-IsValid : (v : ℕ) (r : Regs) → v < 256 → IsValid r → IsValid (load_a v r)
unfolding load_a
load_a-IsValid v r hv h = ground (arith, nz-lt v r.p)

pub load_x-IsValid : (v : ℕ) (r : Regs) → v < 256 → IsValid r → IsValid (load_x v r)
unfolding load_x
load_x-IsValid v r hv h = ground (arith, nz-lt v r.p)

pub load_y-IsValid : (v : ℕ) (r : Regs) → v < 256 → IsValid r → IsValid (load_y v r)
unfolding load_y
load_y-IsValid v r hv h = ground (arith, nz-lt v r.p)

pub upd_nz-IsValid : (v : ℕ) (r : Regs) → IsValid r → IsValid (upd_nz v r)
unfolding upd_nz
upd_nz-IsValid v r h = ground (arith, nz-lt v r.p)

-- A result built from a status byte and an accumulator.
status_and_a :
    (r : Regs) (p a : ℕ) → p < 256 → a < 256 → IsValid r → IsValid (record r { p = p; a = a })
status_and_a r p a hp ha h = ground arith

pub low_byte-lt : (n : ℕ) → bit_and n 0xff < 256
low_byte-lt n = omega (arith, bit_and_0xff n)

pub decimal_diff-lt : (a operand borrow : ℕ) → (decimal_diff a operand borrow).0 < 256
unfolding decimal_diff low_part
decimal_diff-lt a operand borrow = bit_or-lt 8 _ _ (omega arith) (to_u8-lt _)

pub decimal_flags-lt :
    (c v : Bool) (m p : ℕ) → p < 256 → put_flag fl_c c (nz m (put_flag fl_v v p)) < 256
decimal_flags-lt c v m p h =
    put_flag-lt fl_c c _ (omega arith) (nz-lt m _ (put_flag-lt fl_v v p (omega arith) h))

pub binary_flags-lt :
    (c v : Bool) (m p : ℕ) → p < 256 → nz m (put_flag fl_v v (put_flag fl_c c p)) < 256
binary_flags-lt c v m p h =
    nz-lt m _ (put_flag-lt fl_v v _ (omega arith) (put_flag-lt fl_c c p (omega arith) h))

adc_decimal-IsValid : (operand c : ℕ) (r : Regs) → IsValid r → IsValid (adc_decimal operand c r)
unfolding adc_decimal
adc_decimal-IsValid operand c r h =
    status_and_a r _ _ (decimal_flags-lt _ _ _ r.p h.p_byte) (low_byte-lt _) h

adc_binary-IsValid : (operand c : ℕ) (r : Regs) → IsValid r → IsValid (adc_binary operand c r)
unfolding adc_binary
adc_binary-IsValid operand c r h =
    status_and_a r _ _ (binary_flags-lt _ _ _ r.p h.p_byte) (low_byte-lt _) h

sbc_decimal-IsValid : (operand c : ℕ) (r : Regs) → IsValid r → IsValid (sbc_decimal operand c r)
unfolding sbc_decimal
sbc_decimal-IsValid operand c r h =
    status_and_a r _ _ (decimal_flags-lt _ _ _ r.p h.p_byte) (decimal_diff-lt r.a operand (1 - c)) h

sbc_binary-IsValid : (operand c : ℕ) (r : Regs) → IsValid r → IsValid (sbc_binary operand c r)
unfolding sbc_binary
sbc_binary-IsValid operand c r h =
    status_and_a r _ _ (binary_flags-lt _ _ _ r.p h.p_byte) (low_byte-lt _) h

pub adc-IsValid : (operand : ℕ) (r : Regs) → IsValid r → IsValid (adc operand r)
unfolding adc
adc-IsValid operand r h =
    if_both IsValid (flag fl_d r.p) (adc_decimal-IsValid operand _ r h)
      (adc_binary-IsValid operand _ r h)

pub sbc-IsValid : (operand : ℕ) (r : Regs) → IsValid r → IsValid (sbc operand r)
unfolding sbc
sbc-IsValid operand r h =
    if_both IsValid (flag fl_d r.p) (sbc_decimal-IsValid operand _ r h)
      (sbc_binary-IsValid operand _ r h)

pub compare-IsValid : (reg operand : ℕ) (r : Regs) → IsValid r → IsValid (compare reg operand r)
unfolding compare
compare-IsValid reg operand r h =
    status_and_a r _ r.a (put_flag-lt fl_c _ _ (omega arith) (nz-lt _ r.p h.p_byte)) h.a_byte h

pub shift_flags-lt : (id operand p : ℕ) → p < 256 → shift_flags id operand p < 256
unfolding shift_flags
shift_flags-lt id operand p h = nz-lt _ _ (put_flag-lt fl_c _ p (omega arith) h)

pub bit_test-IsValid : (operand : ℕ) (r : Regs) → IsValid r → IsValid (bit_test operand r)
unfolding bit_test
bit_test-IsValid operand r h =
    status_and_a r _ r.a
      (put_flag-lt fl_v _ _ (omega arith)
        (put_flag-lt fl_n _ _ (omega arith) (put_flag-lt fl_z _ r.p (omega arith) h.p_byte)))
      h.a_byte h

pub word-lt : (hi lo : ℕ) → word hi lo < 65536
unfolding word
word-lt hi lo = omega arith

pub advance-IsValid : (n : ℕ) (r : Regs) → IsValid r → IsValid (advance n r)
unfolding advance
advance-IsValid n r h = ground (arith, bit_and_0xffff (r.pc + n))

pub set_pc-IsValid : (addr : ℕ) (r : Regs) → addr < 65536 → IsValid r → IsValid (set_pc addr r)
unfolding set_pc
set_pc-IsValid addr r ha h = ground arith

pub set_p-IsValid : (p : ℕ) (r : Regs) → p < 256 → IsValid r → IsValid (record r { p = p })
set_p-IsValid p r hp h = ground arith

carry_bit-lt : (c : Bool) → to_ℕ c * 128 < 256
carry_bit-lt true = omega arith
carry_bit-lt false = omega arith

pub shift_result-lt :
    (id operand : ℕ) (c : Bool) → operand < 256 → (shift_result id operand c).0 < 256
unfolding shift_result
shift_result-lt id operand c h =
    switch_all (λ (t : ℕ × Bool). t.0 < 256) id _ (0, c)
      (omega arith, (omega arith, (omega arith, (rotated, tt)))) (omega arith)
  where
    rotated : bit_or (operand / 2) (to_ℕ c * 128) < 256
    rotated = bit_or-lt 8 _ _ (omega arith) (carry_bit-lt c)

pub add_offset-lt : (pc : ℕ) (off : ℤ) → add_offset pc off < 65536
unfolding add_offset
add_offset-lt pc (pos n) = omega arith
add_offset-lt pc (negsuc n) = omega arith
