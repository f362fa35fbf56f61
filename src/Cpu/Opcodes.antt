-- ===== src/Cpu/Opcodes.antt =====
-- The opcode table and the base cycles against the documented instruction set of the 6502, described
-- by the three fields of an opcode, its row, its column and its group.
use sage_apple.Base.{
  ap₂, ==→eq, and_left, and_right, ℕ, ◌+◌, ◌/◌, ◌%◌, ◌<◌, ◌≡◌, refl, Bool, true, false, not, arith,
  ◌||◌, ◌&&◌, Option, none, some, [], ◌∷◌, get_or, ltb, leb, between, ◌==◌, if◌then◌else◌,
  all_below, all_below_sound,
}
use sage_apple.Cpu.Regs.{
  m_imm, m_zp, m_zpx, m_zpy, m_abs, m_absx, m_absy, m_indx, m_indy, m_acc, m_ind, m_rel, m_imp,
}
use sage_apple.Cpu.Exec.{op_id, op_mode}
use sage_apple.Cpu.Step.{base_cycles}

-- an operation's number and its addressing mode
abbrev pub Instruction : Type 0
Instruction = ℕ × ℕ

-- The operations of the rows: ORA, AND, EOR, ADC, STA, LDA, CMP, SBC, in each of eight modes; the
-- immediate STA is no instruction.
abbrev group_one : ℕ → ℕ → Option Instruction
group_one row column =
    if row == 4 && column == 2
    then none
    else some (
      get_or (19 ∷ 18 ∷ 20 ∷ 16 ∷ 3 ∷ 0 ∷ 22 ∷ 17 ∷ []) row 0,
      get_or (m_indx ∷ m_zp ∷ m_imm ∷ m_abs ∷ m_indy ∷ m_zpx ∷ m_absy ∷ m_absx ∷ []) column 0,
    )

-- ASL, ROL, LSR, ROR, STX, LDX, DEC, INC; STX and LDX are indexed by Y. The third column shifts the
-- accumulator, or is TXA, TAX, DEX and NOP.
abbrev group_two : ℕ → ℕ → Option Instruction
group_two row column =
    let op = get_or (31 ∷ 33 ∷ 32 ∷ 34 ∷ 4 ∷ 1 ∷ 26 ∷ 25 ∷ []) row 0 in
    let by_y = row == 4 || row == 5 in
    get_or
      ((if row == 5 then some (op, m_imm) else none)
        ∷ some (op, m_zp)
        ∷ some (
          get_or (31 ∷ 33 ∷ 32 ∷ 34 ∷ 7 ∷ 6 ∷ 29 ∷ 48 ∷ []) row 0,
          if ltb row 4 then m_acc else m_imp,
        )
        ∷ some (op, m_abs)
        ∷ none
        ∷ some (op, if by_y then m_zpy else m_zpx)
        ∷ (if row == 4 then some (11, m_imp) else if row == 5 then some (10, m_imp) else none)
        ∷ (if row == 4 then none else some (op, if by_y then m_absy else m_absx))
        ∷ [])
      column none

-- BIT, JMP, STY, LDY, CPY, CPX in their modes, BRK, JSR, RTI, RTS, the branches, and the operations
-- on the stack, the index registers and the flags.
abbrev group_zero : ℕ → ℕ → Option Instruction
group_zero row column =
    let op = get_or (0 ∷ 21 ∷ 43 ∷ 43 ∷ 5 ∷ 2 ∷ 24 ∷ 23 ∷ []) row 0 in
    get_or
      (get_or
          (some (46, m_imp)
            ∷ some (44, m_abs)
            ∷ some (47, m_imp)
            ∷ some (45, m_imp)
            ∷ none
            ∷ some (op, m_imm)
            ∷ some (op, m_imm)
            ∷ some (op, m_imm)
            ∷ [])
          row none
        ∷ (if row == 1 || leb 4 row then some (op, m_zp) else none)
        ∷ some (get_or (13 ∷ 15 ∷ 12 ∷ 14 ∷ 30 ∷ 8 ∷ 28 ∷ 27 ∷ []) row 0, m_imp)
        ∷ (if row == 0 then none else some (op, if row == 3 then m_ind else m_abs))
        ∷ some (get_or (40 ∷ 38 ∷ 41 ∷ 42 ∷ 35 ∷ 36 ∷ 39 ∷ 37 ∷ []) row 0, m_rel)
        ∷ (if row == 4 || row == 5 then some (op, m_zpx) else none)
        ∷ some (get_or (49 ∷ 53 ∷ 51 ∷ 55 ∷ 9 ∷ 52 ∷ 50 ∷ 54 ∷ []) row 0, m_imp)
        ∷ (if row == 5 then some (op, m_absx) else none)
        ∷ [])
      column none

-- The documented instruction of an opcode.
abbrev pub documented : ℕ → Option Instruction
documented code =
    let row = code / 32 in
    let column = code / 4 % 8 in
    get_or (group_zero row column ∷ group_one row column ∷ group_two row column ∷ []) (code % 4)
      none

-- What the table holds for an opcode with this instruction: none is a no-op of one byte.
abbrev pub table_entry : Option Instruction → Instruction
table_entry none = (0, m_imp)
table_entry (some i) = i

-- The documented cycles of an instruction that crosses no page and takes no branch.
abbrev memory_cycles : ℕ → ℕ
memory_cycles mode = get_or (2 ∷ 3 ∷ 4 ∷ 4 ∷ 4 ∷ 4 ∷ 4 ∷ 6 ∷ 5 ∷ 2 ∷ 5 ∷ 2 ∷ 2 ∷ []) mode 0

abbrev pub cycles : Instruction → ℕ
cycles (op, mode) =
    if mode == m_imp
    then (if op == 46
        then 7
        else if op == 45 || op == 47
        then 6
        else if op == 14 || op == 15
        then 4
        else if op == 12 || op == 13
        then 3
        else 2)
    else if op == 44
    then 6
    else if op == 43
    then (if mode == m_abs then 3 else 5)
    else if between 3 5 op
    then (if mode == m_absx || mode == m_absy || mode == m_indy
        then memory_cycles mode + 1
        else memory_cycles mode)
    else if (op == 25 || op == 26 || between 31 34 op) && (ltb mode m_acc)
    then (if mode == m_absx then memory_cycles mode + 3 else memory_cycles mode + 2)
    else memory_cycles mode

-- The cycles of the opcodes outside of the set, by their column in the group of BIT and JMP.
abbrev unused_cycles : ℕ → ℕ
unused_cycles code =
    if code % 4 == 0 then get_or (2 ∷ 3 ∷ 2 ∷ 4 ∷ 2 ∷ 4 ∷ 2 ∷ 4 ∷ []) (code / 4 % 8) 0 else 2

-- The table's cycles of an opcode with this instruction: those documented, but 4 for the two jumps,
-- which should take 3 and 5.
abbrev pub table_cycles : ℕ → Option Instruction → ℕ
table_cycles code none = unused_cycles code
table_cycles code (some (op, mode)) = if op == 43 then 4 else cycles (op, mode)

abbrev as_documented : ℕ → Bool
as_documented code =
    op_id code == (table_entry (documented code)).0
    && (op_mode code == (table_entry (documented code)).1
        && base_cycles code == table_cycles code (documented code))

opcode_table : all_below 256 as_documented ≡ true
unfolding all_below op_id op_mode base_cycles
opcode_table = refl

-- The rows of the tables, with the cycles of the code's own.
pub opcode-table_cycles :
    (code : ℕ)
    → code < 256
    → ((op_id code, op_mode code) ≡ table_entry (documented code))
      × (base_cycles code ≡ table_cycles code (documented code))
opcode-table_cycles code h =
    let row = all_below_sound 256 as_documented code opcode_table h in
    (
      ap₂ (λ (op mode : ℕ). (op, mode)) (==→eq _ _ (and_left _ _ row))
          (==→eq _ _ (and_left _ _ (and_right _ _ row))),
      ==→eq _ _ (and_right _ _ (and_right _ _ row)),
    )

-- The documented cycles: an opcode outside of the set is a no-op that takes none, by
-- docs/sage6502.md.
abbrev pub documented_cycles : Option Instruction → ℕ
documented_cycles none = 0
documented_cycles (some i) = cycles i

-- whether an opcode has an instruction that is not a jump
abbrev pub is_no_jump : Option Instruction → Bool
is_no_jump none = false
is_no_jump (some (op, mode)) = if op == 43 then false else true

abbrev cycles_agree : ℕ → Bool
cycles_agree code = base_cycles code == documented_cycles (documented code)

cycle_table :
    all_below 256
      (λ code. if is_no_jump (documented code) then cycles_agree code else not (cycles_agree code))
    ≡ true
unfolding all_below base_cycles
cycle_table = refl

same_truth : (b c : Bool) → (if b then c else not c) ≡ true → c ≡ b
same_truth b c h = ground arith

-- Each of the 256 opcodes has in the tables the operation and the addressing mode that the
-- documented instruction set gives it by its row, column and group, where one outside of the set
-- is a no-op of one byte. The table's base cycles are the documented ones exactly for the opcodes
-- of the set other than the two jumps: they differ for the jumps, and for each opcode outside of
-- the set, which by the documents takes no cycle.
pub opcode-documented :
    (code : ℕ)
    → code < 256
    → ((op_id code, op_mode code) ≡ table_entry (documented code))
      × ((base_cycles code == documented_cycles (documented code)) ≡ is_no_jump (documented code))
opcode-documented code h = (
  (opcode-table_cycles code h).0,
  same_truth (is_no_jump (documented code)) (cycles_agree code)
      (all_below_sound 256 _ code cycle_table h),
)
