-- ===== src/Reference/State.antt =====
-- The reference machine's registers, flags and memory, and the byte that stands for the flags.
use sage_apple.Base.{ℕ, ◌+◌, ◌*◌, ◌/◌, ◌%◌, ◌==◌}
use sage_apple.Cpu.Regs.{Regs, to_ℕ}
use sage_apple.Cpu.Status.{Flags, flags}
use sage_apple.Cpu.Core.{Core}

pub record State (S : Type 0) : Type 0 where
  pub a : ℕ
  pub x : ℕ
  pub y : ℕ
  pub sp : ℕ
  pub pc : ℕ
  pub status : Flags
  pub mem : S

-- What the core's registers, with a memory, stand for: bits 4 and 5 of the status byte are no flags.
abbrev pub view : {S : Type 0} → Regs → S → State S
view r s = record { a = r.a; x = r.x; y = r.y; sp = r.sp; pc = r.pc; status = flags r.p; mem = s }

abbrev pub view_core : {S : Type 0} → Core S → State S
view_core c = view c.regs c.mem

-- The byte that is pushed for the flags, with bit 5 set and bit 4 for a BRK or PHP.
abbrev pub status_byte : ℕ → Flags → ℕ
status_byte b f =
    128 * to_ℕ f.n
    + 64 * to_ℕ f.v
    + 32
    + 16 * b
    + 8 * to_ℕ f.d
    + 4 * to_ℕ f.i
    + 2 * to_ℕ f.z
    + to_ℕ f.c

-- The flags that a pulled byte sets.
abbrev pub flags_of : ℕ → Flags
flags_of v = record {
  n = v / 128 % 2 == 1;
  v = v / 64 % 2 == 1;
  d = v / 8 % 2 == 1;
  i = v / 4 % 2 == 1;
  z = v / 2 % 2 == 1;
  c = v % 2 == 1;
}
