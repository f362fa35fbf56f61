-- ===== src/Cpu/Arithmetic.antt =====
-- ADC, SBC and CMP in binary mode: the result with its carry is the sum, the difference or the
-- comparison, and each flag says what it should.
use sage_apple.Base.{
  ℕ, ◌+◌, ◌-◌, ◌*◌, ◌%◌, ◌<◌, ◌≡◌, refl, ap, ◌∙◌, arith, Bool, true, false, not, bit_and, bit_xor,
  ◌==◌, leb, ltb, between, if◌then◌else◌, bit_seven, bit_and-bit, bit_xor-bit, bit_and_0x80,
  bit_and_0xff, u8, u16, ==→eq, all_below, all_below_sound,
}
use sage_apple.Cpu.Regs.{Regs, fl_v, fl_d, fl_c, put_flag, flag, to_ℕ, nz}
use sage_apple.Cpu.Alu.{top_bit, adc_binary, adc, sbc_binary, sbc, compare}
use sage_apple.Cpu.Valid.{IsValid}
use sage_apple.Cpu.Status.{Flags, flags, flags-put_v, flags-put_c, flags-nz, top_bit_byte}

-- The number that a byte stands for in two's complement, plus 128.
abbrev pub biased : ℕ → ℕ
biased x = if leb 128 x then x - 128 else x + 128

-- The overflow bit of a sum `m`: the operands agree in sign, and the sum does not.
abbrev sign_lost : ℕ → ℕ → ℕ → Bool
sign_lost a o m =
    if leb 128 a
    then (if leb 128 o then not (leb 128 m) else false)
    else if leb 128 o
    then false
    else leb 128 m

overflow_bit :
    (a o m : ℕ)
    → a < 256
    → o < 256
    → m < 256
    → top_bit (bit_and (bit_xor a m) (bit_xor o m)) ≡ sign_lost a o m
unfolding top_bit
overflow_bit a o m ha ho hm = ground (
  arith,
  bit_and_0x80 (bit_and (bit_xor a m) (bit_xor o m)),
  bit_seven (bit_and (bit_xor a m) (bit_xor o m)),
  bit_and-bit 7 (bit_xor a m) (bit_xor o m),
  bit_xor-bit 7 a m,
  bit_xor-bit 7 o m,
  bit_seven a,
  bit_seven o,
  bit_seven m,
)

abbrev sum : ℕ → ℕ → Regs → ℕ
sum a o r = a + o + to_ℕ (flag fl_c r.p)

-- What a binary addition of `o` leaves.
abbrev pub Added : ℕ → Regs → Regs → Type 0
Added o r r' =
    (r'.a + 256 * to_ℕ (flag fl_c r'.p) ≡ sum r.a o r)
    × (flags r'.p ≡ record (flags r.p) {
      n = leb 128 r'.a;
      v = not (between 128 383 (biased r.a + biased o + to_ℕ (flag fl_c r.p)));
      z = r'.a == 0;
      c = ltb 0xff (sum r.a o r);
    })

pub carry-lt : (b : Bool) → to_ℕ b < 2
carry-lt true = omega arith
carry-lt false = omega arith

pub masked_sum : (n : ℕ) → bit_and (u16 n) 0xff ≡ n % 256
masked_sum n = omega (arith, bit_and_0xff (u16 n))

-- The flags after a binary addition or subtraction.
binary_flags :
    (m p : ℕ) (v c : Bool)
    → m < 256
    → flags (nz m (put_flag fl_v v (put_flag fl_c c p)))
      ≡ record (flags p) { n = leb 128 m; v = v; z = m == 0; c = c }
binary_flags m p v c h = ground (
  arith,
  flags-nz m (put_flag fl_v v (put_flag fl_c c p)),
  flags-put_v v (put_flag fl_c c p),
  flags-put_c c p,
  top_bit_byte m h,
)

binary_carry :
    (m p : ℕ) (v c : Bool) → m < 256 → flag fl_c (nz m (put_flag fl_v v (put_flag fl_c c p))) ≡ c
binary_carry m p v c h = ap Flags.c (binary_flags m p v c h)

-- The sum of two bytes and a carry, by its low byte, its carry and its overflow.
byte_sum :
    (a o c : ℕ)
    → a < 256
    → o < 256
    → c < 2
    → ((a + o + c) % 256 + 256 * to_ℕ (ltb 0xff (u16 (a + o + c))) ≡ a + o + c)
      × (ltb 0xff (u16 (a + o + c)) ≡ ltb 0xff (a + o + c))
      × (top_bit (bit_and (bit_xor a ((a + o + c) % 256)) (bit_xor o ((a + o + c) % 256)))
          ≡ not (between 128 383 (biased a + biased o + c)))
byte_sum a o c ha ho hc = (
  ground arith,
  ground arith,
  overflow_bit a o ((a + o + c) % 256) ha ho (omega arith) ∙ ground arith,
)

pub added :
    (o : ℕ) (r : Regs) → IsValid r → o < 256 → Added o r (adc_binary o (to_ℕ (flag fl_c r.p)) r)
unfolding adc_binary
added o r h ho = rw (masked_sum (sum r.a o r)) (
  ap (λ (b : Bool). sum r.a o r % 256 + 256 * to_ℕ b) (binary_carry _ r.p _ _ (omega arith))
      ∙ bytes.0,
  binary_flags _ r.p _ _ (omega arith) ∙ (λ t. record (flags r.p) {
    n = leb 128 (sum r.a o r % 256);
    v = bytes.2 t;
    z = sum r.a o r % 256 == 0;
    c = bytes.1 t;
  }),
)
  where
    bytes :
        (sum r.a o r % 256 + 256 * to_ℕ (ltb 0xff (u16 (sum r.a o r))) ≡ sum r.a o r)
        × (ltb 0xff (u16 (sum r.a o r)) ≡ ltb 0xff (sum r.a o r))
        × (top_bit (bit_and (bit_xor r.a (sum r.a o r % 256)) (bit_xor o (sum r.a o r % 256)))
            ≡ not (between 128 383 (biased r.a + biased o + to_ℕ (flag fl_c r.p))))
    bytes = byte_sum r.a o (to_ℕ (flag fl_c r.p)) h.a_byte ho (carry-lt _)

pub adc_binary_case :
    (o : ℕ) (r : Regs) → flag fl_d r.p ≡ false → adc o r ≡ adc_binary o (to_ℕ (flag fl_c r.p)) r
unfolding adc
adc_binary_case o r e = rw e

-- With valid registers and the decimal flag clear, ADC of a byte leaves the sum of the
-- accumulator, the operand and the carry in the accumulator and the carry flag; N and Z describe
-- the result, V says that the signed sum does not fit a byte, and D and I stay.
pub adc-Added :
    (o : ℕ) (r : Regs) → IsValid r → o < 256 → flag fl_d r.p ≡ false → Added o r (adc o r)
adc-Added o r h ho e = rw (adc_binary_case o r e) (added o r h ho)

complement_table : all_below 256 (λ o. bit_xor o 0xff == 255 - o) ≡ true
unfolding all_below
complement_table = refl

complement : (o : ℕ) → o < 256 → bit_xor o 0xff ≡ 255 - o
complement o h = ==→eq _ _ (all_below_sound 256 _ o complement_table h)

pub sbc_binary_case :
    (o : ℕ) (r : Regs)
    → o < 256
    → flag fl_d r.p ≡ false
    → sbc o r ≡ adc_binary (255 - o) (to_ℕ (flag fl_c r.p)) r
unfolding sbc sbc_binary adc_binary
sbc_binary_case o r h e = rw (e, complement o h) (ground arith)

biased-complement : (o : ℕ) → o < 256 → biased (255 - o) ≡ 255 - biased o
biased-complement o h = ground arith

borrows : (a o c : ℕ) → o < 256 → c < 2 → ltb 0xff (a + (255 - o) + c) ≡ leb (o + (1 - c)) a
borrows a o c ho hc = ground arith

-- With valid registers and the decimal flag clear, SBC of a byte leaves the difference of the
-- accumulator, the operand and the complemented carry, with 256 borrowed when the carry is clear
-- afterwards; N and Z describe the result, V says that the signed difference does not fit a byte,
-- and D and I stay.
pub sbc_difference :
    (o : ℕ) (r : Regs)
    → IsValid r
    → o < 256
    → flag fl_d r.p ≡ false
    → let r' = sbc o r in
      (r'.a + o + (1 - to_ℕ (flag fl_c r.p)) ≡ r.a + 256 * (1 - to_ℕ (flag fl_c r'.p)))
      × (flags r'.p ≡ record (flags r.p) {
        n = leb 128 r'.a;
        v = not (between 128 383 (biased r.a + (255 - biased o) + to_ℕ (flag fl_c r.p)));
        z = r'.a == 0;
        c = leb (o + (1 - to_ℕ (flag fl_c r.p))) r.a;
      })
sbc_difference o r h ho e = rw (sbc_binary_case o r ho e) (
  omega (arith, sums.0, carry-lt (flag fl_c r.p), carry-lt (flag fl_c r'.p)),
  sums.1 ∙ (λ t. record (flags r.p) {
    n = leb 128 r'.a;
    v = not (between 128 383 (biased r.a + biased-complement o ho t + to_ℕ (flag fl_c r.p)));
    z = r'.a == 0;
    c = borrows r.a o (to_ℕ (flag fl_c r.p)) ho (carry-lt _) t;
  }),
)
  where
    r' : Regs
    r' = adc_binary (255 - o) (to_ℕ (flag fl_c r.p)) r

    sums : Added (255 - o) r r'
    sums = added (255 - o) r h (omega arith)

-- CMP, CPX and CPY of two bytes change no register but the status: the carry says that the
-- register is at least the operand, Z that they are equal, N is bit 7 of the difference, and V, D
-- and I stay.
pub compare_lem :
    (reg o : ℕ) (r : Regs)
    → reg < 256
    → o < 256
    → let r' = compare reg o r in
      (flags r'.p
        ≡ record (flags r.p) { n = leb 128 (u8 (reg + 256 - o)); z = reg == o; c = leb o reg })
      × (record r' { p = r.p } ≡ r)
unfolding compare
compare_lem reg o r hr ho = (
  flags-put_c (leb o reg) (nz (u8 (reg + 256 - o)) r.p)
      ∙ ground (
        arith,
        flags-nz (u8 (reg + 256 - o)) r.p,
        top_bit_byte (u8 (reg + 256 - o)) (omega arith),
      ),
  refl,
)
