-- ===== src/Cpu/Safety/Pieces.antt =====
-- The small steps of the instructions keep the core valid: loads, the status byte, jumps, shifts.
use sage_apple.Base.{
  ℕ, ◌<◌, arith, Bool, bit_and, bit_or, bit_xor, bit_and-le, bit_or-lt, bit_xor-lt, bit_and_0xffff,
}
use sage_apple.Bus.{Bus, BusLaws}
use sage_apple.Cpu.Regs.{Regs, fl_b, fl_i, set_flag, load_a, load_x, load_y, upd_nz}
use sage_apple.Cpu.Core.{◌>>◌, modify, set_pc, bus_write}
use sage_apple.Cpu.Exec.{shift, stored}
use sage_apple.Cpu.Valid.{
  IsValid, set_flag-lt, load_a-IsValid, load_x-IsValid, load_y-IsValid, upd_nz-IsValid,
  shift_flags-lt, shift_result-lt, set_pc-IsValid, set_p-IsValid,
}
use sage_apple.Cpu.Ensures.{
  Ensures, Done, Ensures-bind, Ensures-seq, Ensures-regs, Ensures-modify, Ensures-if,
}
use sage_apple.Cpu.Safety.Access.{write-Ensures}

pub and_byte : (r : Regs) (operand : ℕ) → IsValid r → bit_and r.a operand < 256
and_byte r operand h = omega (arith, bit_and-le r.a operand)

pub or_byte : (r : Regs) (operand : ℕ) → IsValid r → operand < 256 → bit_or r.a operand < 256
or_byte r operand h b = bit_or-lt 8 r.a operand h.a_byte b

pub xor_byte : (r : Regs) (operand : ℕ) → IsValid r → operand < 256 → bit_xor r.a operand < 256
xor_byte r operand h b = bit_xor-lt 8 r.a operand h.a_byte b

pub or_small : (p : ℕ) → p < 256 → bit_or p 0x20 < 256
or_small p h = bit_or-lt 8 p 0x20 h (omega arith)

pub status_byte : (p : ℕ) → p < 256 → bit_or (bit_or p 0x20) fl_b < 256
status_byte p h = bit_or-lt 8 _ fl_b (or_small p h) (omega arith)

pub word_mask : (n : ℕ) → bit_and n 0xffff < 65536
word_mask n = omega (arith, bit_and_0xffff n)

pub sp_byte : (r : Regs) (v : ℕ) → v < 256 → IsValid r → IsValid (record r { sp = v })
sp_byte r v b h = ground arith

pub a_byte : (r : Regs) (v : ℕ) → v < 256 → IsValid r → IsValid (record r { a = v })
a_byte r v b h = ground arith

pub pc_word : (r : Regs) (v : ℕ) → v < 65536 → IsValid r → IsValid (record r { pc = v })
pc_word r v b h = ground arith

pub stored-lt : (id : ℕ) (r : Regs) → IsValid r → stored id r < 256
unfolding stored
stored-lt id r h = ground arith

module _ {bus : Bus} (laws : BusLaws bus) where
  pub load_a-Ensures : (v : ℕ) → v < 256 → Ensures laws (Done laws) (modify (load_a v))
  load_a-Ensures v b = Ensures-modify laws (λ r. load_a-IsValid v r b)

  pub load_x-Ensures : (v : ℕ) → v < 256 → Ensures laws (Done laws) (modify (load_x v))
  load_x-Ensures v b = Ensures-modify laws (λ r. load_x-IsValid v r b)

  pub load_y-Ensures : (v : ℕ) → v < 256 → Ensures laws (Done laws) (modify (load_y v))
  load_y-Ensures v b = Ensures-modify laws (λ r. load_y-IsValid v r b)

  pub status : {p : ℕ} → p < 256 → Ensures laws (Done laws) (modify (λ r. record r { p = p }))
  status {p} b = Ensures-modify laws (λ r. set_p-IsValid p r b)

  pub jump : {addr : ℕ} → addr < 65536 → Ensures laws (Done laws) (modify (set_pc addr))
  jump {addr} w = Ensures-modify laws (λ r. set_pc-IsValid addr r w)

  pub set_i : Ensures laws (Done laws) (modify (λ r. record r { p = set_flag fl_i r.p }))
  set_i =
      Ensures-modify laws (λ r h. set_p-IsValid _ r (set_flag-lt fl_i r.p (omega arith) h.p_byte) h)

  pub write_nz-Ensures :
      (addr v : ℕ) → v < 256 → Ensures laws (Done laws) (bus_write bus addr v >> modify (upd_nz v))
  write_nz-Ensures addr v b =
      Ensures-seq laws (write-Ensures laws addr v b) (Ensures-modify laws (upd_nz-IsValid v))

  pub shift-Ensures :
      (id operand addr : ℕ) (memop : Bool)
      → operand < 256
      → Ensures laws (Done laws) (shift bus id operand addr memop)
  unfolding shift
  shift-Ensures id operand addr memop b = Ensures-bind laws (Ensures-regs laws) λ r h.
      Ensures-seq laws
        (Ensures-modify laws (λ r h. set_p-IsValid _ r (shift_flags-lt id operand r.p h.p_byte) h))
        (Ensures-if laws memop (write-Ensures laws addr _ (shift_result-lt id operand _ b))
          (Ensures-modify laws (λ r. a_byte r _ (shift_result-lt id operand _ b))))
