-- ===== src/Cpu/Exec.antt =====
-- avr/sage6502.c:311-470: the operations of an instruction and `exec_step`, which decodes one.
use sage_apple.Base.{
  ℕ, ◌+◌, ◌-◌, ◌/◌, Bool, true, false, not, ◌||◌, ◌&&◌, bit_and, bit_or, bit_xor, u8, u16, leb,
  ◌==◌, List, [], ◌∷◌, get_or, switch, if◌then◌else◌, ℤ, pos, negsuc,
}
use sage_apple.Bus.{Bus}
use sage_apple.Cpu.Regs.{
  Regs, m_imm, m_acc, m_rel, m_imp, fl_n, fl_v, fl_b, fl_d, fl_i, fl_z, fl_c, set_flag, clear_flag,
  put_flag, flag, upd_nz, load_a, load_x, load_y,
}
use sage_apple.Cpu.Tables.{op_table}
use sage_apple.Cpu.Alu.{top_bit, adc, sbc, compare, shift_result, shift_flags}
use sage_apple.Cpu.Core.{
  M, ◌>>=◌, ◌>>◌, ret, regs, modify, advance, set_pc, sbyte, bus_read, bus_write, push, pull,
  push16, pull16, next_byte, read_word, fetch,
}

-- the BIT instruction
unfoldable pub bit_test : ℕ → Regs → Regs
unfolding top_bit
bit_test operand r =
    let z = bit_and r.a operand == 0 in
    let v = not (bit_and operand 0x40 == 0) in
    record r { p = put_flag fl_v v (put_flag fl_n (top_bit operand) (put_flag fl_z z r.p)) }

-- `(uint8_t)(rPC + off)` for an `int8_t` offset, in sixteen bits
unfoldable pub add_offset : ℕ → ℤ → ℕ
add_offset pc (pos n) = u16 (pc + n)
add_offset pc (negsuc n) = u16 (pc + 65536 - (n + 1))

-- whether the branch `id` is taken, by the status byte
unfoldable pub taken : ℕ → ℕ → Bool
taken id p =
    switch id
      ((35, not (flag fl_c p))
        ∷ (36, flag fl_c p)
        ∷ (37, flag fl_z p)
        ∷ (38, flag fl_n p)
        ∷ (39, not (flag fl_z p))
        ∷ (40, not (flag fl_n p))
        ∷ (41, not (flag fl_v p))
        ∷ (42, flag fl_v p)
        ∷ [])
      false

-- the `id` and the `mode` of an opcode
unfoldable pub op_id : ℕ → ℕ
op_id code = bit_and (get_or op_table code 0 / 16) 0x3f

unfoldable pub op_mode : ℕ → ℕ
op_mode code = bit_and (get_or op_table code 0) 0x0f

-- whether an operation pays for an indexed read that crosses a page
unfoldable pub pays_crossing : ℕ → Bool
pays_crossing id = id == 0 || id == 1 || id == 2 || (leb 16 id && leb id 20) || id == 22

-- which register a pure store stores
unfoldable pub stored : ℕ → Regs → ℕ
stored id r = if id == 3 then r.a else if id == 4 then r.x else r.y

module _ (bus : Bus) where
  open bus use {State}

  -- `memop` is true at each call from `op_with_addr`, and false for the accumulator.
  unfoldable pub shift : ℕ → ℕ → ℕ → Bool → M State (Unit {0})
  shift id operand addr memop = do
    r ← regs
    let result = (shift_result id operand (flag fl_c r.p)).0
    modify (λ r. record r { p = shift_flags id operand r.p })
    if memop then bus_write bus addr result else modify (λ r. record r { a = result })

  -- the cases of `op_with_addr`, with the registers at its start
  abbrev pub addressed_cases : ℕ → ℕ → Regs → List (ℕ × M State (Unit {0}))
  addressed_cases operand addr r =
      (0, modify (load_a operand))
      ∷ (1, modify (load_x operand))
      ∷ (2, modify (load_y operand))
      ∷ (3, bus_write bus addr r.a)
      ∷ (4, bus_write bus addr r.x)
      ∷ (5, bus_write bus addr r.y)
      ∷ (16, modify (adc operand))
      ∷ (17, modify (sbc operand))
      ∷ (18, modify (load_a (bit_and r.a operand)))
      ∷ (19, modify (load_a (bit_or r.a operand)))
      ∷ (20, modify (load_a (bit_xor r.a operand)))
      ∷ (21, modify (bit_test operand))
      ∷ (22, modify (compare r.a operand))
      ∷ (23, modify (compare r.x operand))
      ∷ (24, modify (compare r.y operand))
      ∷ (25, do bus_write bus addr (u8 (operand + 1)); modify (upd_nz (u8 (operand + 1))))
      ∷ (
        26,
        do bus_write bus addr (u8 (operand + 256 - 1)); modify (upd_nz (u8 (operand + 256 - 1))),
      )
      ∷ (31, shift 31 operand addr true)
      ∷ (32, shift 32 operand addr true)
      ∷ (33, shift 33 operand addr true)
      ∷ (34, shift 34 operand addr true)
      ∷ (43, modify (set_pc addr))
      ∷ (44, do push16 bus (bit_and (r.pc + 65536 - 1) 0xffff); modify (set_pc addr))
      ∷ []

  unfoldable pub op_with_addr : ℕ → ℕ → ℕ → M State (Unit {0})
  op_with_addr id operand addr = do r ← regs; switch id (addressed_cases operand addr r) (ret tt)

  -- The result is the number of extra cycles.
  unfoldable pub branch : ℕ → M State ℕ
  branch id = do
    r ← regs
    b ← bus_read bus r.pc
    modify (advance 1)
    r ← regs
    let target = add_offset r.pc (sbyte b)
    if taken id r.p
        then (do
          modify (set_pc target)
          ret (if bit_and target 0xff00 == bit_and r.pc 0xff00 then 1 else 2))
        else ret 0

  -- `rPC = bus_read(vector) | (bus_read(vector + 1) << 8)`
  unfoldable pub jump_vector : ℕ → M State (Unit {0})
  jump_vector vector = do addr ← read_word bus vector (u16 (vector + 1)); modify (set_pc addr)

  unfoldable pub brk : M State (Unit {0})
  brk = do
    modify (λ r. record r { pc = u16 (r.pc + 1) })
    r ← regs
    push16 bus r.pc
    push bus (bit_or (bit_or r.p 0x20) fl_b)
    modify (λ r. record r { p = set_flag fl_i r.p })
    jump_vector 0xfffe

  unfoldable pub rti : M State (Unit {0})
  rti = do
    p ← pull bus
    modify (λ r. record r { p = bit_or p 0x20 })
    pc ← pull16 bus
    modify (set_pc pc)

  unfoldable pub rts : M State (Unit {0})
  rts = do pc ← pull16 bus; modify (set_pc (bit_and (pc + 1) 0xffff))

  -- the cases of `op0_op`, with the registers at its start
  abbrev pub implied_cases : Regs → List (ℕ × M State (Unit {0}))
  implied_cases r =
      (6, modify (load_x r.a))
      ∷ (7, modify (load_a r.x))
      ∷ (8, modify (load_y r.a))
      ∷ (9, modify (load_a r.y))
      ∷ (10, modify (load_x r.sp))
      ∷ (11, modify (λ r. record r { sp = r.x }))
      ∷ (12, push bus r.a)
      ∷ (13, push bus (bit_or (bit_or r.p 0x20) fl_b))
      ∷ (14, do v ← pull bus; modify (load_a v))
      ∷ (15, do v ← pull bus; modify (λ r. record r { p = bit_or v 0x20 }))
      ∷ (27, modify (load_x (u8 (r.x + 1))))
      ∷ (28, modify (load_y (u8 (r.y + 1))))
      ∷ (29, modify (load_x (u8 (r.x + 256 - 1))))
      ∷ (30, modify (load_y (u8 (r.y + 256 - 1))))
      ∷ (45, rts)
      ∷ (46, brk)
      ∷ (47, rti)
      ∷ (49, modify (λ r. record r { p = clear_flag fl_c r.p }))
      ∷ (50, modify (λ r. record r { p = clear_flag fl_d r.p }))
      ∷ (51, modify (λ r. record r { p = clear_flag fl_i r.p }))
      ∷ (52, modify (λ r. record r { p = clear_flag fl_v r.p }))
      ∷ (53, modify (λ r. record r { p = set_flag fl_c r.p }))
      ∷ (54, modify (λ r. record r { p = set_flag fl_d r.p }))
      ∷ (55, modify (λ r. record r { p = set_flag fl_i r.p }))
      ∷ []

  unfoldable pub op0_op : ℕ → M State (Unit {0})
  op0_op id = do r ← regs; switch id (implied_cases r) (ret tt)

  -- the cases of `op_imm`, with the registers at its start
  abbrev pub immediate_cases : ℕ → Regs → List (ℕ × M State (Unit {0}))
  immediate_cases operand r =
      (0, modify (load_a operand))
      ∷ (1, modify (load_x operand))
      ∷ (2, modify (load_y operand))
      ∷ (16, modify (adc operand))
      ∷ (17, modify (sbc operand))
      ∷ (18, modify (load_a (bit_and r.a operand)))
      ∷ (19, modify (load_a (bit_or r.a operand)))
      ∷ (20, modify (load_a (bit_xor r.a operand)))
      ∷ (22, modify (compare r.a operand))
      ∷ (23, modify (compare r.x operand))
      ∷ (24, modify (compare r.y operand))
      ∷ []

  unfoldable pub op_imm : ℕ → ℕ → M State (Unit {0})
  op_imm id operand = do r ← regs; switch id (immediate_cases operand r) (ret tt)

  -- the addressed operations: a pure store does not read its address, any other operation does
  unfoldable pub op_memory : ℕ → ℕ → M State ℕ
  op_memory id mode = do
    addr ← fetch bus mode
    r ← regs
    if id == 3 || id == 4 || id == 5
        then bus_write bus addr (stored id r)
        else (do operand ← bus_read bus addr; op_with_addr id operand addr)
    r ← regs
    ret (if r.fetch_crossed && pays_crossing id then 1 else 0)

  -- The result is the number of extra cycles.
  unfoldable pub exec_step : ℕ → M State ℕ
  exec_step code = do
    modify (advance 1)
    let id = op_id code
    let mode = op_mode code
    r ← regs
    if mode == m_imm
        then (do operand ← next_byte bus; op_imm id operand; ret 0)
        else if mode == m_acc
        then (do shift id r.a 0 false; ret 0)
        else if mode == m_rel
        then branch id
        else if mode == m_imp
        then (do op0_op id; ret 0)
        else op_memory id mode
