-- ===== src/Tests/Machines.antt =====
-- The core against the reference machine, on the monitor board with nothing on its serial line.
use sage_apple.Base.{
  ◌<◌, ◌≡◌, refl, arith, [], true, false, not, ◌&&◌, ◌||◌, ◌+◌, u32, if◌then◌else◌, replicate,
  All-replicate,
}
use sage_apple.Bus.{PlainLaws}
use sage_apple.Uart.Line.{Line, line_uart, line_laws, line_sound}
use sage_apple.Monitor.{Board, bus_read, bus_write, monitor_bus}
use sage_apple.Monitor.Laws.{monitor_sound}
use sage_apple.Monitor.Plain.{quiet_laws, quiet_plain, line_idle, line_empty}
use sage_apple.Rom.Monitor.{monrom}
use sage_apple.Rom.Bytes.{monrom-lt}
use sage_apple.Cpu.Regs.{Regs, fl_i, flag}
use sage_apple.Cpu.Exec.{exec_step}
use sage_apple.Cpu.Step.{Machine, run_instruction, cpu_step}
use sage_apple.Cpu.Valid.{IsValid}
use sage_apple.Host.{run_steps}
use sage_apple.Reference.State.{view, view_core}
use sage_apple.Reference.Stack.{core}
use sage_apple.Reference.Dispatch.{shown}
use sage_apple.Reference.Execute.{operate}
use sage_apple.Reference.Step.{computer, step, is_decimal, is_binary, execute, run}
use sage_apple.Reference.Interrupts.{served, cpu_step-served}
use sage_apple.Reference.Machine.{IsPlainMachine, exec_step-execute, run_steps-run}

abbrev board_laws : PlainLaws (monitor_bus line_uart monrom)
board_laws = quiet_laws line_laws line_idle monrom monrom-lt

abbrev silent : Board Line
silent = record { ram = replicate 1024 0; port = record { waiting = []; sent = [] } }

silent_plain : board_laws.IsPlain silent
silent_plain = quiet_plain line_laws line_idle monrom monrom-lt silent (
  monitor_sound line_laws monrom monrom-lt silent (record {
    ram_bytes = All-replicate (λ n. n < 256) 1024 0 (omega arith);
    port_sound = line_sound silent.port tt;
  }),
  line_empty silent.port refl,
)

-- at the monitor's entry, with an IRQ that is not masked
abbrev entry_regs : Regs
entry_regs = record {
  a = 0x12;
  x = 0x90;
  y = 0;
  sp = 0xfd;
  pc = 0xe000;
  p = 0x20;
  fetch_crossed = false;
}

entry_regs-IsValid : IsValid entry_regs
entry_regs-IsValid = ground arith

abbrev entry_machine : Machine (Board Line)
entry_machine = record {
  core = core (monitor_bus line_uart monrom) entry_regs silent;
  halted = false;
  cycount = 0;
  irq_pending = true;
  nmi_pending = false;
}

entry_machine_plain : IsPlainMachine board_laws entry_machine
entry_machine_plain = record {
  core_sound = record { valid = entry_regs-IsValid; sound = silent_plain };
  cycount_word = omega arith;
}

no_decimal : is_decimal (monitor_bus line_uart monrom) 0x9d (view entry_regs silent) ≡ false
unfolding flag
no_decimal = refl

-- STA with an absolute address, indexed by X
exec_step-execute_example :
    shown (
      exec_step
        (monitor_bus line_uart monrom)
        0x9d
        (core (monitor_bus line_uart monrom) entry_regs silent))
    ≡ execute (monitor_bus line_uart monrom) 0x9d (view entry_regs silent)
exec_step-execute_example =
    exec_step-execute board_laws entry_regs silent 0x9d entry_regs-IsValid silent_plain
      (omega arith) no_decimal

binary_start : is_binary (monitor_bus line_uart monrom) 6 (computer entry_machine) ≡ true
unfolding is_binary step operate monrom flag bus_read bus_write
binary_start = refl

-- six instructions of the monitor, the first before the IRQ
run_steps-run_example :
    computer (run_steps (monitor_bus line_uart monrom) 6 entry_machine)
    ≡ run (monitor_bus line_uart monrom) 6 (computer entry_machine)
run_steps-run_example =
    run_steps-run board_laws 6 entry_machine entry_machine_plain refl binary_start

-- The IRQ is served behind the first instruction.
cpu_step-served_example :
    (view_core (cpu_step (monitor_bus line_uart monrom) entry_machine).core
      ≡ served
          (monitor_bus line_uart monrom)
          false
          (true
            && not (
                flag fl_i
                  (run_instruction (monitor_bus line_uart monrom) entry_machine).core.regs.p))
          (view_core (run_instruction (monitor_bus line_uart monrom) entry_machine).core))
    × ((cpu_step (monitor_bus line_uart monrom) entry_machine).cycount ≡ (
        if false
          || (true
              && not (
                  flag fl_i
                    (run_instruction (monitor_bus line_uart monrom) entry_machine).core.regs.p))
        then u32 ((run_instruction (monitor_bus line_uart monrom) entry_machine).cycount + 7)
        else (run_instruction (monitor_bus line_uart monrom) entry_machine).cycount))
    × ((cpu_step (monitor_bus line_uart monrom) entry_machine).nmi_pending ≡ false)
    × ((cpu_step (monitor_bus line_uart monrom) entry_machine).irq_pending ≡ (
        true
        && (false
            || flag fl_i
                (run_instruction (monitor_bus line_uart monrom) entry_machine).core.regs.p)))
cpu_step-served_example = cpu_step-served board_laws entry_machine entry_machine_plain refl
