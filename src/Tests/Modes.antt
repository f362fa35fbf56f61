-- ===== src/Tests/Modes.antt =====
-- The addressing modes and the branches on the monitor board with nothing on its serial line.
use sage_apple.Base.{
  ℕ, ◌<◌, ◌≡◌, refl, ap₂, arith, [], replicate, All-replicate, if_both, between, ◌==◌, false,
}
use sage_apple.Uart.Line.{Line, line_uart, line_laws, line_sound}
use sage_apple.Monitor.{Board, bus_read, monitor_bus}
use sage_apple.Monitor.Laws.{monitor_laws, monitor_sound}
use sage_apple.Rom.Monitor.{monrom}
use sage_apple.Rom.Bytes.{monrom-lt}
use sage_apple.Bus.{BusLaws}
use sage_apple.Cpu.Regs.{Regs, m_absx}
use sage_apple.Cpu.Core.{fetch}
use sage_apple.Cpu.Exec.{exec_step}
use sage_apple.Cpu.Valid.{IsValid}
use sage_apple.Cpu.Operands.{operand}
use sage_apple.Cpu.Addressing.{behind, fetch-operand}
use sage_apple.Cpu.Branches.{holds, displaced, landing, exec_step-branch}

abbrev quiet : Board Line
quiet = record { ram = replicate 1024 0; port = record { waiting = []; sent = [] } }

quiet_laws : BusLaws (monitor_bus line_uart monrom)
quiet_laws = monitor_laws line_laws monrom monrom-lt

abbrev peek : ℕ → ℕ
peek addr = (bus_read line_uart monrom addr quiet).0

reads : (addr : ℕ) → bus_read line_uart monrom addr quiet ≡ (peek addr, quiet)
unfolding bus_read
reads addr = ap₂ (λ (v : ℕ) (b : Board Line). (v, b)) refl unchanged
  where
    unchanged : (bus_read line_uart monrom addr quiet).1 ≡ quiet
    unchanged =
        if_both (λ (t : ℕ × Board Line). t.1 ≡ quiet) _ refl
          (if_both (λ (t : ℕ × Board Line). t.1 ≡ quiet) (between 0x2000 0x2001 addr)
            (if_both (λ (t : ℕ × Board Line). t.1 ≡ quiet) (addr == 0x2000) refl refl)
            (if_both (λ (t : ℕ × Board Line). t.1 ≡ quiet) _ refl refl))

quiet_bytes : (addr : ℕ) → peek addr < 256
quiet_bytes addr = (monitor_laws line_laws monrom monrom-lt).read-lt addr quiet (
    monitor_sound line_laws monrom monrom-lt quiet (record {
      ram_bytes = All-replicate (λ n. n < 256) 1024 0 (omega arith);
      port_sound = line_sound quiet.port tt;
    }))

-- in the monitor's code
abbrev rom_regs : Regs
rom_regs = record {
  a = 0;
  x = 0x90;
  y = 0;
  sp = 0xfd;
  pc = 0xe001;
  p = 0x24;
  fetch_crossed = false;
}

rom_regs-IsValid : IsValid rom_regs
rom_regs-IsValid = ground arith

fetch-operand_example :
    fetch (monitor_bus line_uart monrom) m_absx (record { regs = rom_regs; mem = quiet }) ≡ (
      (operand peek m_absx rom_regs).address,
      behind (monitor_bus line_uart monrom) quiet (operand peek m_absx rom_regs) rom_regs,
    )
fetch-operand_example =
    fetch-operand (monitor_bus line_uart monrom) quiet peek reads quiet_bytes rom_regs
      rom_regs-IsValid m_absx

-- BNE
exec_step-branch_example :
    exec_step (monitor_bus line_uart monrom) 0xd0 (record { regs = rom_regs; mem = quiet })
    ≡ landing
        (monitor_bus line_uart monrom)
        quiet
        rom_regs
        (holds 6 0x24)
        0xe003
        (displaced 0xe003 (peek 0xe002))
exec_step-branch_example =
    exec_step-branch (monitor_bus line_uart monrom) quiet peek reads quiet_bytes 6 rom_regs
      (omega arith)
