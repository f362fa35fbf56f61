-- ===== src/Cpu/Addressing.antt =====
-- `fetch` in a state of the bus that no read changes, against the documented addressing modes.
use sage_apple.Base.{
  ◌▸◌, agreed, ℕ, ◌+◌, ◌*◌, ◌/◌, ◌%◌, ◌<◌, ◌≡◌, refl, ap, ◌∙◌, arith, true, false, List, [], ◌∷◌,
  leb, if◌then◌else◌, bit_and, bit_or, bit_and_0xff, bit_and_0xffff, bit_and_0xff00, bit_or_bytes,
  switch_agree,
}
use sage_apple.Bus.{Bus}
use sage_apple.Cpu.Regs.{Regs, m_zp, m_zpx, m_zpy, m_abs, m_absx, m_absy, m_indx, m_indy, m_ind}
use sage_apple.Cpu.Operands.{
  Operand, plain, by_index, word_at, pointer_at, same_page_word_at, operands, operand,
}
use sage_apple.Cpu.Valid.{IsValid}
use sage_apple.Cpu.Core.{
  Core, M, ◌>>=◌, ret, transformers, advance, word, crosses, bus_read, next_byte, next_word,
  read_word, indexed, fetch,
}

pub word_bytes : (hi lo : ℕ) → hi < 256 → lo < 256 → word hi lo ≡ lo + 256 * hi
unfolding word
word_bytes hi lo hh hl = omega (arith, bit_or_bytes hi lo hl)

crosses_lem :
    (base index : ℕ)
    → base < 65536
    → index < 256
    → crosses base ((base + index) % 65536) ≡ leb 256 (base % 256 + index)
unfolding crosses
crosses_lem base index hb hi = rw (bit_and_0xff00, bit_and_0xff00) (ground arith)

module _ (bus : Bus) (s : bus.State) where
  -- the core behind an operand
  abbrev pub behind : Operand → Regs → Core bus.State
  behind o r = record {
    regs = record r { pc = (r.pc + o.bytes) % 65536; fetch_crossed = o.crossed };
    mem = s;
  }

  -- `m` gives the address of the operand `o`, from a core that is cleared of the last crossing.
  abbrev Gives : Regs → M bus.State ℕ → Operand → Type 0
  Gives r m o =
      m (record { regs = record r { fetch_crossed = false }; mem = s }) ≡ (o.address, behind o r)

  module _ (peek : ℕ → ℕ) (reads : (addr : ℕ) → bus.read addr s ≡ (peek addr, s))
      (bytes : (addr : ℕ) → peek addr < 256) (r : Regs) (valid : IsValid r) where
    abbrev cleared : Core bus.State
    cleared = record { regs = record r { fetch_crossed = false }; mem = s }

    abbrev past : ℕ → Core bus.State
    past n = record { regs = record r { pc = (r.pc + n) % 65536; fetch_crossed = false }; mem = s }

    next_byte_lem : next_byte bus cleared ≡ (peek r.pc, past 1)
    unfolding next_byte bus_read advance transformers
    next_byte_lem = rw (reads, bit_and_0xffff) refl

    next_word_lem : next_word bus cleared ≡ (word_at peek r.pc, past 2)
    unfolding next_word bus_read advance transformers
    next_word_lem =
        rw
          (
            reads,
            reads,
            bit_and_0xffff,
            word_bytes (peek ((r.pc + 1) % 65536)) (peek r.pc) (bytes _) (bytes _),
            bit_and_0xffff,
          )
          refl

    read_word_lem : (lo hi n : ℕ) → read_word bus lo hi (past n) ≡ (peek lo + 256 * peek hi, past n)
    unfolding read_word bus_read transformers
    read_word_lem lo hi n =
        rw (reads, reads, word_bytes (peek hi) (peek lo) (bytes hi) (bytes lo)) refl

    indexed_lem :
        (base index n : ℕ)
        → base < 65536
        → index < 256
        → indexed bus base index (past n)
          ≡ ((base + index) % 65536, behind (by_index base index n) r)
    unfolding indexed transformers
    indexed_lem base index n hb hi =
        rw (bit_and_0xffff, whole, crosses_lem base index hb hi, kept) refl
      where
        whole : (base + index) % 65536 % 65536 ≡ (base + index) % 65536
        whole = omega arith

        kept : (if leb 256 (base % 256 + index) then true else false) ≡ leb 256 (base % 256 + index)
        kept = ground arith

    after_byte : (k : ℕ → M bus.State ℕ) → (next_byte bus >>= k) cleared ≡ k (peek r.pc) (past 1)
    unfolding transformers
    after_byte k = ap (λ (t : ℕ × Core bus.State). k t.0 t.1) next_byte_lem

    after_word :
        (k : ℕ → M bus.State ℕ) → (next_word bus >>= k) cleared ≡ k (word_at peek r.pc) (past 2)
    unfolding transformers
    after_word k = ap (λ (t : ℕ × Core bus.State). k t.0 t.1) next_word_lem

    after_read :
        (lo hi n : ℕ) (k : ℕ → M bus.State ℕ)
        → (read_word bus lo hi >>= k) (past n) ≡ k (peek lo + 256 * peek hi) (past n)
    unfolding transformers
    after_read lo hi n k = ap (λ (t : ℕ × Core bus.State). k t.0 t.1) (read_word_lem lo hi n)

    abbrev zero_page : ℕ → M bus.State ℕ
    zero_page index = do zp ← next_byte bus; ret (bit_and (zp + index) 0xff)

    zero_page_lem : (index : ℕ) → Gives r (zero_page index) (plain ((peek r.pc + index) % 256) 1)
    unfolding transformers
    zero_page_lem index = after_byte (λ zp. ret (bit_and (zp + index) 0xff)) ∙ rw bit_and_0xff refl

    abbrev absolute : ℕ → M bus.State ℕ
    absolute index = do base ← next_word bus; indexed bus base index

    absolute_lem :
        (index : ℕ) → index < 256 → Gives r (absolute index) (by_index (word_at peek r.pc) index 2)
    absolute_lem index h =
        after_word (λ base. indexed bus base index)
        ∙ indexed_lem (word_at peek r.pc) index 2
            (omega (arith, bytes r.pc, bytes ((r.pc + 1) % 65536))) h

    abbrev indexed_indirect : M bus.State ℕ
    indexed_indirect = do
      zp ← next_byte bus
      let ptr = bit_and (zp + r.x) 0xff
      read_word bus ptr (bit_and (ptr + 1) 0xff)

    indexed_indirect_lem :
        Gives r indexed_indirect (plain (pointer_at peek ((peek r.pc + r.x) % 256)) 1)
    indexed_indirect_lem =
        after_byte (λ zp.
          read_word bus (bit_and (zp + r.x) 0xff) (bit_and (bit_and (zp + r.x) 0xff + 1) 0xff))
        ∙ (read_word_lem (bit_and (peek r.pc + r.x) 0xff)
              (bit_and (bit_and (peek r.pc + r.x) 0xff + 1) 0xff) 1
            ∙ rw (bit_and_0xff, bit_and_0xff) refl)

    abbrev indirect_indexed : M bus.State ℕ
    indirect_indexed = do
      zp ← next_byte bus
      base ← read_word bus zp (bit_and (zp + 1) 0xff)
      indexed bus base r.y

    indirect_indexed_lem : Gives r indirect_indexed (by_index (pointer_at peek (peek r.pc)) r.y 1)
    indirect_indexed_lem =
        after_byte (λ zp. read_word bus zp (bit_and (zp + 1) 0xff) >>= λ base. indexed bus base r.y)
        ∙ (after_read (peek r.pc) (bit_and (peek r.pc + 1) 0xff) 1 (λ base. indexed bus base r.y)
            ∙ rw bit_and_0xff (
                indexed_lem (pointer_at peek (peek r.pc)) r.y 1
                  (omega (arith, bytes (peek r.pc), bytes ((peek r.pc + 1) % 256))) valid.y_byte))

    abbrev indirect : M bus.State ℕ
    indirect = do
      ptr ← next_word bus
      read_word bus ptr (bit_or (bit_and ptr 0xff00) (bit_and (ptr + 1) 0xff))

    same_page :
        (ptr : ℕ)
        → ptr < 65536
        → bit_or (bit_and ptr 0xff00) (bit_and (ptr + 1) 0xff) ≡ ptr / 256 * 256 + (ptr + 1) % 256
    same_page ptr h =
        rw
          (
            bit_and_0xff00,
            bit_and_0xff,
            bit_or_bytes (ptr / 256 % 256) ((ptr + 1) % 256) (omega arith),
          )
          (omega arith)

    indirect_lem : Gives r indirect (plain (same_page_word_at peek (word_at peek r.pc)) 2)
    indirect_lem =
        after_word (λ ptr. read_word bus ptr (bit_or (bit_and ptr 0xff00) (bit_and (ptr + 1) 0xff)))
        ∙ (read_word_lem (word_at peek r.pc) _ 2
            ∙ rw
                (same_page (word_at peek r.pc)
                  (omega (arith, bytes r.pc, bytes ((r.pc + 1) % 65536))))
                refl)

    stays : Gives r (ret 0) (plain 0 0)
    unfolding transformers
    stays =
        ap (λ (pc : ℕ). (0, record { regs = record r { pc = pc; fetch_crossed = false }; mem = s }))
          unmoved
      where
        unmoved : r.pc ≡ (r.pc + 0) % 65536
        unmoved = omega (arith, valid.pc_word)

    -- the cases of `fetch`, with the registers that it starts from
    abbrev cases : List (ℕ × M bus.State ℕ)
    cases =
        (m_zp, next_byte bus)
        ∷ (m_zpx, zero_page r.x)
        ∷ (m_zpy, zero_page r.y)
        ∷ (m_abs, next_word bus)
        ∷ (m_absx, absolute r.x)
        ∷ (m_absy, absolute r.y)
        ∷ (m_indx, indexed_indirect)
        ∷ (m_indy, indirect_indexed)
        ∷ (m_ind, indirect)
        ∷ []

    -- In a state of the bus that no read changes, with valid registers and the program counter
    -- behind the opcode, the fetch of an operand gives the address of its mode, from the operand's
    -- bytes, the index registers and the pointer with their wrap-arounds, moves the program
    -- counter past the operand, and notes whether an index crossed a page; a mode without an
    -- address gives 0 and stays.
    pub fetch-operand :
        (mode : ℕ)
        → fetch bus mode (record { regs = r; mem = s })
          ≡ ((operand peek mode r).address, behind (operand peek mode r) r)
    unfolding fetch operand transformers
    fetch-operand mode =
        switch_agree (Gives r) mode cases (operands peek r) (ret 0) (plain 0 0)
          (next_byte_lem
            ▸ zero_page_lem r.x
            ▸ zero_page_lem r.y
            ▸ next_word_lem
            ▸ absolute_lem r.x valid.x_byte
            ▸ absolute_lem r.y valid.y_byte
            ▸ indexed_indirect_lem
            ▸ indirect_indexed_lem
            ▸ indirect_lem
            ▸ agreed)
          stays
