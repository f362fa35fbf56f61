-- ===== src/Reference/Memory.antt =====
-- The core's operations on values and on memory cells, against the reference machine's.
use sage_apple.Base.{
  ◌▹◌, agreed_at, ℕ, ◌+◌, ◌-◌, ◌%◌, ◌<◌, ◌≡◌, refl, ap, ◌∙◌, arith, Bool, true, false, bit_and,
  bit_or, bit_xor, bit_and_0xffff, bit_and-le, bit_or-lt, bit_xor-lt, u8, switch, switch_agree_at,
  subst, ◌&&◌, ◌==◌, ◌||◌, if_both,
}
use sage_apple.Bus.{Bus}
use sage_apple.Cpu.Regs.{Regs, fl_c, fl_d, flag, upd_nz, load_a, load_x, load_y}
use sage_apple.Cpu.Alu.{
  adc, sbc, adc_decimal, sbc_decimal, adc_binary, sbc_binary, compare, shift_result,
}
use sage_apple.Cpu.Core.{M, transformers, ◌>>◌, ret, modify, set_pc, bus_write, push16}
use sage_apple.Cpu.Exec.{bit_test, shift, op_imm, op_with_addr, immediate_cases, addressed_cases}
use sage_apple.Cpu.Valid.{IsValid}
use sage_apple.Reference.Stack.{push16_plain}
use sage_apple.Reference.State.{State, view, view_core}
use sage_apple.Reference.Values.{
  add, subtract, put_a, put_x, put_y, compare_with, with_nz, test_bits, shift_status,
}
use sage_apple.Reference.Registers.{
  load_a-put_a, load_x-put_x, load_y-put_y, upd_nz-with_nz, adc-add, sbc-subtract,
  compare-compare_with, bit_test-test_bits, shift_flags-shift_status, shift_result-shifted,
}
use sage_apple.Reference.Execute.{immediates, addressed, store, store_shift, to_pc, pushed_word}

-- ADC and SBC, the operations that the decimal mode changes
abbrev pub is_sum : ℕ → Bool
is_sum id = id == 16 || id == 17

adc-crossed : (o : ℕ) (r : Regs) → (adc o r).fetch_crossed ≡ r.fetch_crossed
unfolding adc adc_decimal adc_binary
adc-crossed o r =
    if_both (λ (q : Regs). q.fetch_crossed ≡ r.fetch_crossed) (flag fl_d r.p) refl refl

sbc-crossed : (o : ℕ) (r : Regs) → (sbc o r).fetch_crossed ≡ r.fetch_crossed
unfolding sbc sbc_decimal sbc_binary
sbc-crossed o r =
    if_both (λ (q : Regs). q.fetch_crossed ≡ r.fetch_crossed) (flag fl_d r.p) refl refl

module _ (bus : Bus) (r : Regs) (s : bus.State) where
  -- `m`, from these registers and this memory, leaves what the state `t` shows, and the note of a
  -- crossed page.
  abbrev pub Does : M bus.State (Unit {0}) → State bus.State → Type 0
  Does m t =
      (view_core (m (record { regs = r; mem = s })).1 ≡ t)
      × ((m (record { regs = r; mem = s })).1.regs.fetch_crossed ≡ r.fetch_crossed)

  module _ (valid : IsValid r) (id o : ℕ) (byte : o < 256)
      (binary : (is_sum id && flag fl_d r.p) ≡ false) where
    -- the flag D is clear for an operation that depends on it
    no_decimal : is_sum id ≡ true → flag fl_d r.p ≡ false
    no_decimal h = ground arith

    adc-Does : (id == 16) ≡ true → Does (modify (adc o)) (add o (view r s))
    unfolding modify
    adc-Does h = (adc-add s o r valid byte (no_decimal (ground arith)), adc-crossed o r)

    sbc-Does : (id == 17) ≡ true → Does (modify (sbc o)) (subtract o (view r s))
    unfolding modify
    sbc-Does h = (sbc-subtract s o r valid byte (no_decimal (ground arith)), sbc-crossed o r)

    a-Does : (v : ℕ) → v < 256 → Does (modify (load_a v)) (put_a v (view r s))
    unfolding modify load_a upd_nz
    a-Does v h = (load_a-put_a s v r h, refl)

    compare-Does :
        (reg : ℕ) → reg < 256 → Does (modify (compare reg o)) (compare_with reg o (view r s))
    unfolding modify compare
    compare-Does reg h = (compare-compare_with s reg o r h byte, refl)

    and_byte : bit_and r.a o < 256
    and_byte = omega (arith, bit_and-le r.a o, valid.a_byte)

    or_byte : bit_or r.a o < 256
    or_byte = bit_or-lt 8 r.a o valid.a_byte byte

    xor_byte : bit_xor r.a o < 256
    xor_byte = bit_xor-lt 8 r.a o valid.a_byte byte

    x-Does : Does (modify (load_x o)) (put_x o (view r s))
    unfolding modify load_x upd_nz
    x-Does = (load_x-put_x s o r byte, refl)

    y-Does : Does (modify (load_y o)) (put_y o (view r s))
    unfolding modify load_y upd_nz
    y-Does = (load_y-put_y s o r byte, refl)

    pub op_imm-immediates :
        Does (op_imm bus id o) (switch id (immediates bus o (view r s)) (view r s))
    unfolding op_imm transformers
    op_imm-immediates =
        switch_agree_at Does id (immediate_cases bus o r) (immediates bus o (view r s)) (ret tt)
          (view r s)
          ((λ h. a-Does o byte)
            ▹ (λ h. x-Does)
            ▹ (λ h. y-Does)
            ▹ adc-Does
            ▹ sbc-Does
            ▹ (λ h. a-Does (bit_and r.a o) and_byte)
            ▹ (λ h. a-Does (bit_or r.a o) or_byte)
            ▹ (λ h. a-Does (bit_xor r.a o) xor_byte)
            ▹ (λ h. compare-Does r.a valid.a_byte)
            ▹ (λ h. compare-Does r.x valid.x_byte)
            ▹ (λ h. compare-Does r.y valid.y_byte)
            ▹ agreed_at)
          (refl, refl)

    module _ (addr : ℕ) where
      inc-Does :
          (v : ℕ)
          → v < 256
          → Does
              (bus_write bus addr v >> modify (upd_nz v))
              (with_nz v (store bus addr v (view r s)))
      unfolding bus_write transformers upd_nz
      inc-Does v h = (upd_nz-with_nz (bus.write addr v s) v r h, refl)

      shift-Does : (n : ℕ) → Does (shift bus n o addr true) (store_shift bus n o addr (view r s))
      unfolding shift bus_write transformers
      shift-Does n = (
        shift_flags-shift_status (bus.write addr (shift_result n o (flag fl_c r.p)).0 s) n o r byte
            ∙ ap
                (λ (t : ℕ × Bool). record (shift_status n o (view r s)) {
                  mem = bus.write addr t.0 s;
                })
                (shift_result-shifted n o (flag fl_c r.p) byte),
        refl,
      )

      jsr-Does :
          Does
            (push16 bus (bit_and (r.pc + 65536 - 1) 0xffff) >> modify (set_pc addr))
            (to_pc bus addr (pushed_word bus ((r.pc + 65535) % 65536) (view r s)))
      unfolding set_pc transformers
      jsr-Does =
          rw (bit_and_0xffff, back, push16_plain bus ((r.pc + 65535) % 65536) r s valid.sp_byte)
            (refl, refl)
        where
          back : (r.pc + 65536 - 1) % 65536 ≡ (r.pc + 65535) % 65536
          back = omega arith

      bit-Does : Does (modify (bit_test o)) (test_bits o (view r s))
      unfolding modify bit_test
      bit-Does = (bit_test-test_bits s o r byte, refl)

      pub op_with_addr-addressed :
          Does (op_with_addr bus id o addr) (switch id (addressed bus o addr (view r s)) (view r s))
      unfolding op_with_addr bus_write set_pc transformers
      op_with_addr-addressed =
          switch_agree_at Does id (addressed_cases bus o addr r) (addressed bus o addr (view r s))
            (ret tt) (view r s)
            ((λ h. a-Does o byte)
              ▹ (λ h. x-Does)
              ▹ (λ h. y-Does)
              ▹ (λ h. (refl, refl))
              ▹ (λ h. (refl, refl))
              ▹ (λ h. (refl, refl))
              ▹ adc-Does
              ▹ sbc-Does
              ▹ (λ h. a-Does (bit_and r.a o) and_byte)
              ▹ (λ h. a-Does (bit_or r.a o) or_byte)
              ▹ (λ h. a-Does (bit_xor r.a o) xor_byte)
              ▹ (λ h. bit-Does)
              ▹ (λ h. compare-Does r.a valid.a_byte)
              ▹ (λ h. compare-Does r.x valid.x_byte)
              ▹ (λ h. compare-Does r.y valid.y_byte)
              ▹ (λ h. inc-Does (u8 (o + 1)) (omega arith))
              ▹ (λ h.
                  subst
                    (λ (v : ℕ).
                      Does (bus_write bus addr v >> modify (upd_nz v))
                        (with_nz ((o + 255) % 256) (store bus addr ((o + 255) % 256) (view r s))))
                    less (inc-Does ((o + 255) % 256) (omega arith)))
              ▹ (λ h. shift-Does 31)
              ▹ (λ h. shift-Does 32)
              ▹ (λ h. shift-Does 33)
              ▹ (λ h. shift-Does 34)
              ▹ (λ h. (refl, refl))
              ▹ (λ h. jsr-Does)
              ▹ agreed_at)
            (refl, refl)
        where
          less : (o + 255) % 256 ≡ u8 (o + 256 - 1)
          less = omega arith
