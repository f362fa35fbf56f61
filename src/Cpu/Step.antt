-- ===== src/Cpu/Step.antt =====
-- avr/sage6502.c:473-514: interrupts, reset, and one step of the machine.
use sage_apple.Base.{ℕ, ◌+◌, Bool, true, false, not, ◌&&◌, bit_or, u32, get_or, if◌then◌else◌}
use sage_apple.Bus.{Bus}
use sage_apple.Cpu.Regs.{fl_b, fl_i, set_flag, clear_flag, flag}
use sage_apple.Cpu.Tables.{cy_table}
use sage_apple.Cpu.Core.{
  Core, M, ◌>>=◌, ◌>>◌, regs, modify, set_pc, bus_read, push, push16, read_word,
}
use sage_apple.Cpu.Exec.{exec_step, jump_vector}

-- All of the core's state. `cycount` is a `uint32_t`; the other three only ever are 0 or 1.
pub record Machine (S : Type 0) : Type 0 where
  pub core : Core S
  pub halted : Bool
  pub cycount : ℕ
  pub irq_pending : Bool
  pub nmi_pending : Bool

unfoldable pub base_cycles : ℕ → ℕ
base_cycles code = get_or cy_table code 0

unfoldable pub cpu_interrupt : {S : Type 0} → Machine S → Machine S
cpu_interrupt m = record m { irq_pending = true }

unfoldable pub cpu_nmi : {S : Type 0} → Machine S → Machine S
cpu_nmi m = record m { nmi_pending = true }

module _ (bus : Bus) where
  open bus use {State}

  -- what `serve_interrupt` does to the registers and the memory
  unfoldable pub enter_interrupt : ℕ → M State (Unit {0})
  enter_interrupt vector = do
    r ← regs
    push16 bus r.pc
    push bus (clear_flag fl_b (bit_or r.p 0x20))
    modify (λ r. record r { p = set_flag fl_i r.p })
    jump_vector bus vector

  unfoldable pub serve_interrupt : ℕ → Machine State → Machine State
  serve_interrupt vector m = record m {
    core = (enter_interrupt vector m.core).1;
    cycount = u32 (m.cycount + 7);
  }

  -- the registers that `cpu_reset` sets; `fetch_crossed` is left
  unfoldable pub reset_core : M State (Unit {0})
  reset_core = do
    modify (λ r. record r { sp = 0xfd })
    addr ← read_word bus 0xfffc 0xfffd
    modify (set_pc addr)
    modify (λ r. record r { p = fl_i; a = 0; x = 0; y = 0 })

  unfoldable pub cpu_reset : Machine State → Machine State
  cpu_reset m = record {
    core = (reset_core m.core).1;
    halted = false;
    cycount = 0;
    irq_pending = false;
    nmi_pending = false;
  }

  -- the instruction at `rPC`, with its cycles
  unfoldable pub run_instruction : Machine State → Machine State
  run_instruction m =
      let (code, c) = bus_read bus m.core.regs.pc m.core in
      let (extra, c') = exec_step bus code c in
      record m { core = c'; cycount = u32 (m.cycount + (base_cycles code + extra)) }

  -- an NMI goes before an IRQ, which the I flag masks
  unfoldable pub service : Machine State → Machine State
  service m =
      if m.nmi_pending
      then serve_interrupt 0xfffa (record m { nmi_pending = false })
      else if m.irq_pending && not (flag fl_i m.core.regs.p)
      then serve_interrupt 0xfffe (record m { irq_pending = false })
      else m

  unfoldable pub cpu_step : Machine State → Machine State
  cpu_step m = if m.halted then m else service (run_instruction m)

-- the accessors
unfoldable pub cpu_halted : {S : Type 0} → Machine S → Bool
cpu_halted m = m.halted

unfoldable pub cpu_pc : {S : Type 0} → Machine S → ℕ
cpu_pc m = m.core.regs.pc

unfoldable pub cpu_a : {S : Type 0} → Machine S → ℕ
cpu_a m = m.core.regs.a

unfoldable pub cpu_x : {S : Type 0} → Machine S → ℕ
cpu_x m = m.core.regs.x

unfoldable pub cpu_y : {S : Type 0} → Machine S → ℕ
cpu_y m = m.core.regs.y

unfoldable pub cpu_sp : {S : Type 0} → Machine S → ℕ
cpu_sp m = m.core.regs.sp

unfoldable pub cpu_p : {S : Type 0} → Machine S → ℕ
cpu_p m = m.core.regs.p

unfoldable pub cpu_cycle_count : {S : Type 0} → Machine S → ℕ
cpu_cycle_count m = m.cycount
