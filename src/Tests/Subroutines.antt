-- ===== src/Tests/Subroutines.antt =====
-- The stack on the monitor board: a call, an interrupt, and the way back from each.
use sage_apple.Base.{ℕ, ◌≡◌, refl, arith, bit_or, length-replicate}
use sage_apple.Uart.Line.{Line, line_uart}
use sage_apple.Monitor.{Board, monitor_bus}
use sage_apple.Monitor.Laws.{monitor_ram_laws, monitor_ram}
use sage_apple.Cpu.Core.{Core, push16}
use sage_apple.Cpu.Exec.{op_with_addr, rts, rti}
use sage_apple.Cpu.Step.{enter_interrupt}
use sage_apple.Cpu.Stack.{jsr-rts}
use sage_apple.Cpu.Interrupts.{enter_interrupt-rti, saved_status}
use sage_apple.Tests.Processor.{test_rom, test_board, test_core}

-- the core after a push, a call and the entry of an interrupt handler, all from $E003
abbrev after_push : Core (Board Line)
after_push = (push16 (monitor_bus line_uart test_rom) 0x1234 test_core).1

abbrev after_jsr : Core (Board Line)
after_jsr = (op_with_addr (monitor_bus line_uart test_rom) 44 0 0xe010 test_core).1

abbrev after_entry : Core (Board Line)
after_entry = (enter_interrupt (monitor_bus line_uart test_rom) 0xfffe test_core).1

full_ram : (monitor_ram_laws line_uart test_rom).HasRam test_board
full_ram = monitor_ram line_uart test_rom test_board (length-replicate {A = ℕ} 1024 0)

jsr-rts_example :
    (after_jsr.regs.pc ≡ 0xe010)
    × ((rts (monitor_bus line_uart test_rom) after_jsr).1
        ≡ record after_jsr { regs = record after_jsr.regs { sp = 0xfd; pc = 0xe000 } })
jsr-rts_example =
    jsr-rts (monitor_ram_laws line_uart test_rom) 0 0xe010 test_core after_jsr (omega arith)
      (omega arith) full_ram refl (λ n h. refl)

enter_interrupt-rti_example :
    (rti (monitor_bus line_uart test_rom) after_entry).1 ≡ record after_entry {
      regs = record after_entry.regs {
        sp = 0xfd;
        pc = 0xe000;
        p = bit_or (saved_status 0x01) 0x20;
      };
    }
enter_interrupt-rti_example =
    enter_interrupt-rti (monitor_ram_laws line_uart test_rom) 0xfffe test_core after_entry
      (omega arith) (omega arith) full_ram refl (λ n h. refl)
