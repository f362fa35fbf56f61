-- ===== src/Cpu/Tables.antt =====
-- avr/sage6502.c:69-150: the opcode table `OP` and the base cycle table `CY`. The copies for the
-- host and for program memory hold the same entries.
use sage_apple.Base.{ℕ, ◌+◌, ◌*◌, List, [], ◌∷◌}
use sage_apple.Cpu.Regs.{
  m_imm, m_zp, m_zpx, m_zpy, m_abs, m_absx, m_absy, m_indx, m_indy, m_acc, m_ind, m_rel, m_imp,
}

-- `id<<4|mode`
abbrev entry : ℕ → ℕ → ℕ
entry id mode = id * 16 + mode

abbrev pub op_table : List ℕ
op_table =
    entry 46 m_imp
    ∷ entry 19 m_indx
    ∷ entry 0 m_imp
    ∷ entry 0 m_imp
    ∷ entry 0 m_imp
    ∷ entry 19 m_zp
    ∷ entry 31 m_zp
    ∷ entry 0 m_imp
    ∷ entry 13 m_imp
    ∷ entry 19 m_imm
    ∷ entry 31 m_acc
    ∷ entry 0 m_imp
    ∷ entry 0 m_imp
    ∷ entry 19 m_abs
    ∷ entry 31 m_abs
    ∷ entry 0 m_imp
    ∷ entry 40 m_rel
    ∷ entry 19 m_indy
    ∷ entry 0 m_imp
    ∷ entry 0 m_imp
    ∷ entry 0 m_imp
    ∷ entry 19 m_zpx
    ∷ entry 31 m_zpx
    ∷ entry 0 m_imp
    ∷ entry 49 m_imp
    ∷ entry 19 m_absy
    ∷ entry 0 m_imp
    ∷ entry 0 m_imp
    ∷ entry 0 m_imp
    ∷ entry 19 m_absx
    ∷ entry 31 m_absx
    ∷ entry 0 m_imp
    ∷ entry 44 m_abs
    ∷ entry 18 m_indx
    ∷ entry 0 m_imp
    ∷ entry 0 m_imp
    ∷ entry 21 m_zp
    ∷ entry 18 m_zp
    ∷ entry 33 m_zp
    ∷ entry 0 m_imp
    ∷ entry 15 m_imp
    ∷ entry 18 m_imm
    ∷ entry 33 m_acc
    ∷ entry 0 m_imp
    ∷ entry 21 m_abs
    ∷ entry 18 m_abs
    ∷ entry 33 m_abs
    ∷ entry 0 m_imp
    ∷ entry 38 m_rel
    ∷ entry 18 m_indy
    ∷ entry 0 m_imp
    ∷ entry 0 m_imp
    ∷ entry 0 m_imp
    ∷ entry 18 m_zpx
    ∷ entry 33 m_zpx
    ∷ entry 0 m_imp
    ∷ entry 53 m_imp
    ∷ entry 18 m_absy
    ∷ entry 0 m_imp
    ∷ entry 0 m_imp
    ∷ entry 0 m_imp
    ∷ entry 18 m_absx
    ∷ entry 33 m_absx
    ∷ entry 0 m_imp
    ∷ entry 47 m_imp
    ∷ entry 20 m_indx
    ∷ entry 0 m_imp
    ∷ entry 0 m_imp
    ∷ entry 0 m_imp
    ∷ entry 20 m_zp
    ∷ entry 32 m_zp
    ∷ entry 0 m_imp
    ∷ entry 12 m_imp
    ∷ entry 20 m_imm
    ∷ entry 32 m_acc
    ∷ entry 0 m_imp
    ∷ entry 43 m_abs
    ∷ entry 20 m_abs
    ∷ entry 32 m_abs
    ∷ entry 0 m_imp
    ∷ entry 41 m_rel
    ∷ entry 20 m_indy
    ∷ entry 0 m_imp
    ∷ entry 0 m_imp
    ∷ entry 0 m_imp
    ∷ entry 20 m_zpx
    ∷ entry 32 m_zpx
    ∷ entry 0 m_imp
    ∷ entry 51 m_imp
    ∷ entry 20 m_absy
    ∷ entry 0 m_imp
    ∷ entry 0 m_imp
    ∷ entry 0 m_imp
    ∷ entry 20 m_absx
    ∷ entry 32 m_absx
    ∷ entry 0 m_imp
    ∷ entry 45 m_imp
    ∷ entry 16 m_indx
    ∷ entry 0 m_imp
    ∷ entry 0 m_imp
    ∷ entry 0 m_imp
    ∷ entry 16 m_zp
    ∷ entry 34 m_zp
    ∷ entry 0 m_imp
    ∷ entry 14 m_imp
    ∷ entry 16 m_imm
    ∷ entry 34 m_acc
    ∷ entry 0 m_imp
    ∷ entry 43 m_ind
    ∷ entry 16 m_abs
    ∷ entry 34 m_abs
    ∷ entry 0 m_imp
    ∷ entry 42 m_rel
    ∷ entry 16 m_indy
    ∷ entry 0 m_imp
    ∷ entry 0 m_imp
    ∷ entry 0 m_imp
    ∷ entry 16 m_zpx
    ∷ entry 34 m_zpx
    ∷ entry 0 m_imp
    ∷ entry 55 m_imp
    ∷ entry 16 m_absy
    ∷ entry 0 m_imp
    ∷ entry 0 m_imp
    ∷ entry 0 m_imp
    ∷ entry 16 m_absx
    ∷ entry 34 m_absx
    ∷ entry 0 m_imp
    ∷ entry 0 m_imp
    ∷ entry 3 m_indx
    ∷ entry 0 m_imp
    ∷ entry 0 m_imp
    ∷ entry 5 m_zp
    ∷ entry 3 m_zp
    ∷ entry 4 m_zp
    ∷ entry 0 m_imp
    ∷ entry 30 m_imp
    ∷ entry 0 m_imp
    ∷ entry 7 m_imp
    ∷ entry 0 m_imp
    ∷ entry 5 m_abs
    ∷ entry 3 m_abs
    ∷ entry 4 m_abs
    ∷ entry 0 m_imp
    ∷ entry 35 m_rel
    ∷ entry 3 m_indy
    ∷ entry 0 m_imp
    ∷ entry 0 m_imp
    ∷ entry 5 m_zpx
    ∷ entry 3 m_zpx
    ∷ entry 4 m_zpy
    ∷ entry 0 m_imp
    ∷ entry 9 m_imp
    ∷ entry 3 m_absy
    ∷ entry 11 m_imp
    ∷ entry 0 m_imp
    ∷ entry 0 m_imp
    ∷ entry 3 m_absx
    ∷ entry 0 m_imp
    ∷ entry 0 m_imp
    ∷ entry 2 m_imm
    ∷ entry 0 m_indx
    ∷ entry 1 m_imm
    ∷ entry 0 m_imp
    ∷ entry 2 m_zp
    ∷ entry 0 m_zp
    ∷ entry 1 m_zp
    ∷ entry 0 m_imp
    ∷ entry 8 m_imp
    ∷ entry 0 m_imm
    ∷ entry 6 m_imp
    ∷ entry 0 m_imp
    ∷ entry 2 m_abs
    ∷ entry 0 m_abs
    ∷ entry 1 m_abs
    ∷ entry 0 m_imp
    ∷ entry 36 m_rel
    ∷ entry 0 m_indy
    ∷ entry 0 m_imp
    ∷ entry 0 m_imp
    ∷ entry 2 m_zpx
    ∷ entry 0 m_zpx
    ∷ entry 1 m_zpy
    ∷ entry 0 m_imp
    ∷ entry 52 m_imp
    ∷ entry 0 m_absy
    ∷ entry 10 m_imp
    ∷ entry 0 m_imp
    ∷ entry 2 m_absx
    ∷ entry 0 m_absx
    ∷ entry 1 m_absy
    ∷ entry 0 m_imp
    ∷ entry 24 m_imm
    ∷ entry 22 m_indx
    ∷ entry 0 m_imp
    ∷ entry 0 m_imp
    ∷ entry 24 m_zp
    ∷ entry 22 m_zp
    ∷ entry 26 m_zp
    ∷ entry 0 m_imp
    ∷ entry 28 m_imp
    ∷ entry 22 m_imm
    ∷ entry 29 m_imp
    ∷ entry 0 m_imp
    ∷ entry 24 m_abs
    ∷ entry 22 m_abs
    ∷ entry 26 m_abs
    ∷ entry 0 m_imp
    ∷ entry 39 m_rel
    ∷ entry 22 m_indy
    ∷ entry 0 m_imp
    ∷ entry 0 m_imp
    ∷ entry 0 m_imp
    ∷ entry 22 m_zpx
    ∷ entry 26 m_zpx
    ∷ entry 0 m_imp
    ∷ entry 50 m_imp
    ∷ entry 22 m_absy
    ∷ entry 0 m_imp
    ∷ entry 0 m_imp
    ∷ entry 0 m_imp
    ∷ entry 22 m_absx
    ∷ entry 26 m_absx
    ∷ entry 0 m_imp
    ∷ entry 23 m_imm
    ∷ entry 17 m_indx
    ∷ entry 0 m_imp
    ∷ entry 0 m_imp
    ∷ entry 23 m_zp
    ∷ entry 17 m_zp
    ∷ entry 25 m_zp
    ∷ entry 0 m_imp
    ∷ entry 27 m_imp
    ∷ entry 17 m_imm
    ∷ entry 48 m_imp
    ∷ entry 0 m_imp
    ∷ entry 23 m_abs
    ∷ entry 17 m_abs
    ∷ entry 25 m_abs
    ∷ entry 0 m_imp
    ∷ entry 37 m_rel
    ∷ entry 17 m_indy
    ∷ entry 0 m_imp
    ∷ entry 0 m_imp
    ∷ entry 0 m_imp
    ∷ entry 17 m_zpx
    ∷ entry 25 m_zpx
    ∷ entry 0 m_imp
    ∷ entry 54 m_imp
    ∷ entry 17 m_absy
    ∷ entry 0 m_imp
    ∷ entry 0 m_imp
    ∷ entry 0 m_imp
    ∷ entry 17 m_absx
    ∷ entry 25 m_absx
    ∷ entry 0 m_imp
    ∷ []

abbrev pub cy_table : List ℕ
cy_table =
    0x07 ∷ 0x06 ∷ 0x02 ∷ 0x02 ∷ 0x03 ∷ 0x03 ∷ 0x05 ∷ 0x02 ∷ 0x03 ∷ 0x02 ∷ 0x02 ∷ 0x02 ∷ 0x04 ∷ 0x04
    ∷ 0x06 ∷ 0x02 ∷ 0x02 ∷ 0x05 ∷ 0x02 ∷ 0x02 ∷ 0x04 ∷ 0x04 ∷ 0x06 ∷ 0x02 ∷ 0x02 ∷ 0x04 ∷ 0x02
    ∷ 0x02 ∷ 0x04 ∷ 0x04 ∷ 0x07 ∷ 0x02 ∷ 0x06 ∷ 0x06 ∷ 0x02 ∷ 0x02 ∷ 0x03 ∷ 0x03 ∷ 0x05 ∷ 0x02
    ∷ 0x04 ∷ 0x02 ∷ 0x02 ∷ 0x02 ∷ 0x04 ∷ 0x04 ∷ 0x06 ∷ 0x02 ∷ 0x02 ∷ 0x05 ∷ 0x02 ∷ 0x02 ∷ 0x04
    ∷ 0x04 ∷ 0x06 ∷ 0x02 ∷ 0x02 ∷ 0x04 ∷ 0x02 ∷ 0x02 ∷ 0x04 ∷ 0x04 ∷ 0x07 ∷ 0x02 ∷ 0x06 ∷ 0x06
    ∷ 0x02 ∷ 0x02 ∷ 0x03 ∷ 0x03 ∷ 0x05 ∷ 0x02 ∷ 0x03 ∷ 0x02 ∷ 0x02 ∷ 0x02 ∷ 0x04 ∷ 0x04 ∷ 0x06
    ∷ 0x02 ∷ 0x02 ∷ 0x05 ∷ 0x02 ∷ 0x02 ∷ 0x04 ∷ 0x04 ∷ 0x06 ∷ 0x02 ∷ 0x02 ∷ 0x04 ∷ 0x02 ∷ 0x02
    ∷ 0x04 ∷ 0x04 ∷ 0x07 ∷ 0x02 ∷ 0x06 ∷ 0x06 ∷ 0x02 ∷ 0x02 ∷ 0x03 ∷ 0x03 ∷ 0x05 ∷ 0x02 ∷ 0x04
    ∷ 0x02 ∷ 0x02 ∷ 0x02 ∷ 0x04 ∷ 0x04 ∷ 0x06 ∷ 0x02 ∷ 0x02 ∷ 0x05 ∷ 0x02 ∷ 0x02 ∷ 0x04 ∷ 0x04
    ∷ 0x06 ∷ 0x02 ∷ 0x02 ∷ 0x04 ∷ 0x02 ∷ 0x02 ∷ 0x04 ∷ 0x04 ∷ 0x07 ∷ 0x02 ∷ 0x02 ∷ 0x06 ∷ 0x02
    ∷ 0x02 ∷ 0x03 ∷ 0x03 ∷ 0x03 ∷ 0x02 ∷ 0x02 ∷ 0x02 ∷ 0x02 ∷ 0x02 ∷ 0x04 ∷ 0x04 ∷ 0x04 ∷ 0x02
    ∷ 0x02 ∷ 0x06 ∷ 0x02 ∷ 0x02 ∷ 0x04 ∷ 0x04 ∷ 0x04 ∷ 0x02 ∷ 0x02 ∷ 0x05 ∷ 0x02 ∷ 0x02 ∷ 0x04
    ∷ 0x05 ∷ 0x02 ∷ 0x02 ∷ 0x02 ∷ 0x06 ∷ 0x02 ∷ 0x02 ∷ 0x03 ∷ 0x03 ∷ 0x03 ∷ 0x02 ∷ 0x02 ∷ 0x02
    ∷ 0x02 ∷ 0x02 ∷ 0x04 ∷ 0x04 ∷ 0x04 ∷ 0x02 ∷ 0x02 ∷ 0x05 ∷ 0x02 ∷ 0x02 ∷ 0x04 ∷ 0x04 ∷ 0x04
    ∷ 0x02 ∷ 0x02 ∷ 0x04 ∷ 0x02 ∷ 0x02 ∷ 0x04 ∷ 0x04 ∷ 0x04 ∷ 0x02 ∷ 0x02 ∷ 0x06 ∷ 0x02 ∷ 0x02
    ∷ 0x03 ∷ 0x03 ∷ 0x05 ∷ 0x02 ∷ 0x02 ∷ 0x02 ∷ 0x02 ∷ 0x02 ∷ 0x04 ∷ 0x04 ∷ 0x06 ∷ 0x02 ∷ 0x02
    ∷ 0x05 ∷ 0x02 ∷ 0x02 ∷ 0x04 ∷ 0x04 ∷ 0x06 ∷ 0x02 ∷ 0x02 ∷ 0x04 ∷ 0x02 ∷ 0x02 ∷ 0x04 ∷ 0x04
    ∷ 0x07 ∷ 0x02 ∷ 0x02 ∷ 0x06 ∷ 0x02 ∷ 0x02 ∷ 0x03 ∷ 0x03 ∷ 0x05 ∷ 0x02 ∷ 0x02 ∷ 0x02 ∷ 0x02
    ∷ 0x02 ∷ 0x04 ∷ 0x04 ∷ 0x06 ∷ 0x02 ∷ 0x02 ∷ 0x05 ∷ 0x02 ∷ 0x02 ∷ 0x04 ∷ 0x04 ∷ 0x06 ∷ 0x02
    ∷ 0x02 ∷ 0x04 ∷ 0x02 ∷ 0x02 ∷ 0x04 ∷ 0x04 ∷ 0x07 ∷ 0x02 ∷ []
