-- ===== src/Cpu/Branches.antt =====
-- The eight conditional branches, in a state of the bus that no read changes.
use sage_apple.Base.{
  ℕ, zero, suc, ◌+◌, ◌-◌, ◌*◌, ◌/◌, ◌%◌, ◌<◌, ◌≡◌, refl, ◌∙◌, arith, Bool, true, false, not, ◌&&◌,
  [], ◌∷◌, get_or, ltb, ◌==◌, if◌then◌else◌, bit_and, bit_and_0x80, bit_and_0xff00, bit_and_0xffff,
  switch, all_below, all_below_sound, Bool-cases, inl, inr, ltb→lt,
}
use sage_apple.Bus.{Bus}
use sage_apple.Cpu.Regs.{Regs, m_rel, fl_n, fl_v, fl_c, fl_z, flag}
use sage_apple.Cpu.Core.{Core, transformers, advance, set_pc, sbyte, bus_read}
use sage_apple.Cpu.Exec.{taken, add_offset, branch, exec_step, op_id, op_mode}

-- The flag that the branch of a row tests; an odd row wants it set, an even one clear.
abbrev pub tested : ℕ → ℕ
tested row = get_or (fl_n ∷ fl_v ∷ fl_c ∷ fl_z ∷ []) (row / 2) 0

abbrev pub holds : ℕ → ℕ → Bool
holds row p = if row % 2 == 1 then flag (tested row) p else not (flag (tested row) p)

-- the operation of a row's branch: BPL, BMI, BVC, BVS, BCC, BCS, BNE, BEQ
abbrev row_id : ℕ → ℕ
row_id row = get_or (40 ∷ 38 ∷ 41 ∷ 42 ∷ 35 ∷ 36 ∷ 39 ∷ 37 ∷ []) row 0

taken-row : (row p : ℕ) → row < 8 → taken (row_id row) p ≡ holds row p
unfolding taken switch
taken-row zero p h = refl
taken-row (suc zero) p h = refl
taken-row (suc (suc zero)) p h = refl
taken-row (suc (suc (suc zero))) p h = refl
taken-row (suc (suc (suc (suc zero)))) p h = refl
taken-row (suc (suc (suc (suc (suc zero))))) p h = refl
taken-row (suc (suc (suc (suc (suc (suc zero)))))) p h = refl
taken-row (suc (suc (suc (suc (suc (suc (suc zero))))))) p h = refl
taken-row (suc (suc (suc (suc (suc (suc (suc (suc row)))))))) p h = absurd (omega arith)

-- An address and a byte as a signed offset.
abbrev pub displaced : ℕ → ℕ → ℕ
displaced pc byte = if ltb byte 128 then (pc + byte) % 65536 else (pc + 65536 + byte - 256) % 65536

add_offset-displaced : (pc byte : ℕ) → byte < 256 → add_offset pc (sbyte byte) ≡ displaced pc byte
unfolding add_offset sbyte
add_offset-displaced pc byte h = elim (Bool-cases (ltb byte 128)) [
  | inl small ↦ rw (plus small, small) refl
  | inr large ↦ rw (minus large, large) (omega (arith, ltb→lt byte 128))
]
  where
    plus : ltb byte 128 ≡ true → (bit_and byte 0x80 == 0) ≡ true
    plus small = ground (arith, bit_and_0x80 byte)

    minus : ltb byte 128 ≡ false → (bit_and byte 0x80 == 0) ≡ false
    minus large = ground (arith, bit_and_0x80 byte)

displaced-lt : (pc byte : ℕ) → displaced pc byte < 65536
displaced-lt pc byte = ground arith

same_page :
    (target next : ℕ)
    → target < 65536
    → next < 65536
    → (bit_and target 0xff00 == bit_and next 0xff00) ≡ (target / 256 == next / 256)
same_page target next ht hn = rw (bit_and_0xff00, bit_and_0xff00) (ground arith)

module _ (bus : Bus) (s : bus.State) where
  abbrev at_pc : Regs → ℕ → Core bus.State
  at_pc r pc = record { regs = record r { pc = pc }; mem = s }

  -- Where a branch goes: with the cycles that it adds, from the address behind it.
  abbrev pub landing : Regs → Bool → ℕ → ℕ → ℕ × Core bus.State
  landing r jumps next target =
      if jumps
      then (if target / 256 == next / 256 then 1 else 2, at_pc r target)
      else (0, at_pc r next)

  module _ (peek : ℕ → ℕ) (reads : (addr : ℕ) → bus.read addr s ≡ (peek addr, s))
      (bytes : (addr : ℕ) → peek addr < 256) where
    pub branch_lem :
        (id : ℕ) (r : Regs)
        → r.pc < 65536
        → branch bus id (record { regs = r; mem = s })
          ≡ landing r
              (taken id r.p)
              ((r.pc + 1) % 65536)
              (displaced ((r.pc + 1) % 65536) (peek r.pc))
    unfolding branch bus_read advance set_pc transformers
    branch_lem id r h = elim (Bool-cases (taken id r.p)) [
      | inl jumps ↦
          rw
            (
              jumps,
              reads,
              bit_and_0xffff,
              add_offset-displaced ((r.pc + 1) % 65536) (peek r.pc) (bytes r.pc),
              same_page (displaced ((r.pc + 1) % 65536) (peek r.pc)) ((r.pc + 1) % 65536)
                  (displaced-lt ((r.pc + 1) % 65536) (peek r.pc)) (omega arith),
            )
            refl
      | inr falls ↦ rw (falls, reads, bit_and_0xffff) refl
    ]

    decoded :
        all_below 8 (λ row. op_id (32 * row + 16) == row_id row && op_mode (32 * row + 16) == m_rel)
        ≡ true
    unfolding all_below op_id op_mode
    decoded = refl

    row_lem :
        (row : ℕ)
        → row < 8
        → (op_id (32 * row + 16) ≡ row_id row) × (op_mode (32 * row + 16) ≡ m_rel)
    row_lem row h = ground (arith, all_below_sound 8 _ row decoded h)

    -- In a state of the bus that no read changes, the opcode $10, $30, ... $F0 of a row tests N,
    -- V, C or Z for being clear in an even row and set in an odd one. If the test holds it goes to
    -- the address behind it displaced by its signed operand, and adds one cycle on the same page
    -- and two on another; otherwise it goes on behind its operand.
    pub exec_step-branch :
        (row : ℕ) (r : Regs)
        → row < 8
        → exec_step bus (32 * row + 16) (record { regs = r; mem = s })
          ≡ landing r
              (holds row r.p)
              ((r.pc + 2) % 65536)
              (displaced ((r.pc + 2) % 65536) (peek ((r.pc + 1) % 65536)))
    unfolding exec_step advance transformers
    exec_step-branch row r h =
        rw ((row_lem row h).0, (row_lem row h).1, bit_and_0xffff)
          (branch_lem (row_id row) (record r { pc = (r.pc + 1) % 65536 }) (omega arith)
            ∙ rw (taken-row row r.p h, behind) refl)
      where
        behind : ((r.pc + 1) % 65536 + 1) % 65536 ≡ (r.pc + 2) % 65536
        behind = omega arith
