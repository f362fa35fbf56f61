-- ===== src/Cpu/Core.antt =====
-- avr/sage6502.c:155-246: the core's access to memory, the stack helpers, `fetch` and `sbyte`. The
-- core's state is its registers and the state of the bus; a function is a state transformer.
use sage_apple.Base.{
  ℕ, ◌+◌, ◌-◌, ◌*◌, ◌/◌, Bool, true, false, not, bit_and, bit_or, u16, ◌==◌, [], ◌∷◌, switch,
  if◌then◌else◌, ℤ, pos, negsuc,
}
use sage_apple.Bus.{Bus}
use sage_apple.Cpu.Regs.{Regs, m_zp, m_zpx, m_zpy, m_abs, m_absx, m_absy, m_indx, m_indy, m_ind}

pub record Core (S : Type 0) : Type 0 where
  pub regs : Regs
  pub mem : S

abbrev pub M : Type 0 → Type 0 → Type 0
M S A = Core S → A × Core S

infixl 5 ◌>>=◌ ◌>>◌
unfoldable pub ◌>>=◌ : {S A B : Type 0} → M S A → (A → M S B) → M S B
(m >>= f) c = let (a, c') = m c in f a c'

unfoldable pub ◌>>◌ : {S B : Type 0} → M S (Unit {0}) → M S B → M S B
(m >> k) c = k (m c).1

unfoldable pub ret : {S A : Type 0} → A → M S A
ret a c = (a, c)

-- `rX`, and assignments to registers
unfoldable pub regs : {S : Type 0} → M S Regs
regs c = (c.regs, c)

unfoldable pub modify : {S : Type 0} → (Regs → Regs) → M S (Unit {0})
modify f c = (tt, record c { regs = f c.regs })

-- A proof that computes with a transformer names this beside it.
unfoldable pub transformers : Unit {0}
unfolding ◌>>=◌ ◌>>◌ ret regs modify switch
transformers = tt

-- `rPC = (rPC + n) & 0xFFFF`
unfoldable pub advance : ℕ → Regs → Regs
advance n r = record r { pc = bit_and (r.pc + n) 0xffff }

unfoldable pub set_pc : ℕ → Regs → Regs
set_pc addr r = record r { pc = addr }

-- `(uint16_t)((hi << 8) | lo)`
unfoldable pub word : ℕ → ℕ → ℕ
word hi lo = u16 (bit_or (hi * 256) lo)

-- whether two addresses lie on different pages
unfoldable pub crosses : ℕ → ℕ → Bool
crosses base eff = not (bit_and base 0xff00 == bit_and eff 0xff00)

unfoldable pub sbyte : ℕ → ℤ
sbyte b = if bit_and b 0x80 == 0 then pos b else negsuc (255 - b)

module _ (bus : Bus) where
  open bus use {State}

  unfoldable pub bus_read : ℕ → M State ℕ
  bus_read addr c = let (v, s) = bus.read addr c.mem in (v, record c { mem = s })

  unfoldable pub bus_write : ℕ → ℕ → M State (Unit {0})
  bus_write addr v c = (tt, record c { mem = bus.write addr v c.mem })

  unfoldable pub push : ℕ → M State (Unit {0})
  push v = do
    r ← regs
    bus_write (bit_or 0x0100 r.sp) v
    modify (λ r. record r { sp = bit_and (r.sp + 256 - 1) 0xff })

  unfoldable pub pull : M State ℕ
  pull = do
    modify (λ r. record r { sp = bit_and (r.sp + 1) 0xff })
    r ← regs
    bus_read (bit_or 0x0100 r.sp)

  unfoldable pub push16 : ℕ → M State (Unit {0})
  push16 v = do push (v / 256); push (bit_and v 0xff)

  unfoldable pub pull16 : M State ℕ
  pull16 = do lo ← pull; hi ← pull; ret (word hi lo)

  -- the operand byte and the operand word at `rPC`, which moves past them
  unfoldable pub next_byte : M State ℕ
  next_byte = do r ← regs; b ← bus_read r.pc; modify (advance 1); ret b

  unfoldable pub next_word : M State ℕ
  next_word = do
    r ← regs
    lo ← bus_read r.pc
    hi ← bus_read (bit_and (r.pc + 1) 0xffff)
    modify (advance 2)
    ret (word hi lo)

  -- the word at two addresses, low byte first
  unfoldable pub read_word : ℕ → ℕ → M State ℕ
  read_word lo_addr hi_addr = do lo ← bus_read lo_addr; hi ← bus_read hi_addr; ret (word hi lo)

  -- `eff = (base + index) & 0xFFFF`, with the page test
  unfoldable pub indexed : ℕ → ℕ → M State ℕ
  indexed base index = do
    let eff = u16 (bit_and (base + index) 0xffff)
    modify (λ r. record r { fetch_crossed = if crosses base eff then true else r.fetch_crossed })
    ret eff

  unfoldable pub fetch : ℕ → M State ℕ
  fetch mode = do
    modify (λ r. record r { fetch_crossed = false })
    r ← regs
    switch mode
        ((m_zp, next_byte)
          ∷ (m_zpx, do zp ← next_byte; ret (bit_and (zp + r.x) 0xff))
          ∷ (m_zpy, do zp ← next_byte; ret (bit_and (zp + r.y) 0xff))
          ∷ (m_abs, next_word)
          ∷ (m_absx, do base ← next_word; indexed base r.x)
          ∷ (m_absy, do base ← next_word; indexed base r.y)
          ∷ (
            m_indx,
            do
              zp ← next_byte
              let ptr = bit_and (zp + r.x) 0xff
              read_word ptr (bit_and (ptr + 1) 0xff),
          )
          ∷ (
            m_indy,
            do zp ← next_byte; base ← read_word zp (bit_and (zp + 1) 0xff); indexed base r.y,
          )
          ∷ (
            m_ind,
            do
              ptr ← next_word
              read_word ptr (bit_or (bit_and ptr 0xff00) (bit_and (ptr + 1) 0xff)),
          )
          ∷ [])
        (ret 0)
