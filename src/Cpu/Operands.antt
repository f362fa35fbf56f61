-- ===== src/Cpu/Operands.antt =====
-- The documented addressing modes: the operand of each, from a memory as a function of the address.
use sage_apple.Base.{ℕ, ◌+◌, ◌*◌, ◌/◌, ◌%◌, Bool, false, List, [], ◌∷◌, leb, switch}
use sage_apple.Cpu.Regs.{Regs, m_zp, m_zpx, m_zpy, m_abs, m_absx, m_absy, m_indx, m_indy, m_ind}

-- An operand's address, the bytes that it takes behind the opcode, and whether its index crosses a
-- page.
pub record Operand : Type 0 where
  pub address : ℕ
  pub bytes : ℕ
  pub crossed : Bool

-- The address `base` indexed by `index`, behind `bytes` bytes of operand.
abbrev pub by_index : ℕ → ℕ → ℕ → Operand
by_index base index bytes = record {
  address = (base + index) % 65536;
  bytes = bytes;
  crossed = leb 256 (base % 256 + index);
}

abbrev pub plain : ℕ → ℕ → Operand
plain address bytes = record { address = address; bytes = bytes; crossed = false }

module _ (peek : ℕ → ℕ) where
  -- the word at an address, at one in the zero page, and at one whose high byte comes from the same
  -- page
  abbrev pub word_at : ℕ → ℕ
  word_at addr = peek addr + 256 * peek ((addr + 1) % 65536)

  abbrev pub pointer_at : ℕ → ℕ
  pointer_at addr = peek addr + 256 * peek ((addr + 1) % 256)

  abbrev pub same_page_word_at : ℕ → ℕ
  same_page_word_at addr = peek addr + 256 * peek (addr / 256 * 256 + (addr + 1) % 256)

  -- The operands of the modes with the registers `r`, whose program counter is behind the opcode.
  abbrev pub operands : Regs → List (ℕ × Operand)
  operands r =
      (m_zp, plain (peek r.pc) 1)
      ∷ (m_zpx, plain ((peek r.pc + r.x) % 256) 1)
      ∷ (m_zpy, plain ((peek r.pc + r.y) % 256) 1)
      ∷ (m_abs, plain (word_at r.pc) 2)
      ∷ (m_absx, by_index (word_at r.pc) r.x 2)
      ∷ (m_absy, by_index (word_at r.pc) r.y 2)
      ∷ (m_indx, plain (pointer_at ((peek r.pc + r.x) % 256)) 1)
      ∷ (m_indy, by_index (pointer_at (peek r.pc)) r.y 1)
      ∷ (m_ind, plain (same_page_word_at (word_at r.pc)) 2)
      ∷ []

  unfoldable pub operand : ℕ → Regs → Operand
  operand mode r = switch mode (operands r) (plain 0 0)
