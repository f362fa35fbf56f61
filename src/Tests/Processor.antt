-- ===== src/Tests/Processor.antt =====
-- The core on the monitor board, with a small ROM.
use sage_apple.Base.{
  ℕ, ◌+◌, ◌-◌, ◌*◌, ◌<◌, ◌≤◌, ◌≡◌, refl, arith, true, false, not, [], ◌∷◌, replicate, All-replicate,
  All-get_or, get_or, u32, leb, between, ◌==◌,
}
use sage_apple.Uart.Line.{Line, line_uart, line_laws, line_sound}
use sage_apple.Monitor.{Board, monitor_bus}
use sage_apple.Monitor.Laws.{monitor_laws, monitor_sound}
use sage_apple.Cpu.Regs.{Regs, fl_c, fl_d, flag, to_ℕ}
use sage_apple.Cpu.Core.{Core}
use sage_apple.Cpu.Alu.{adc, sbc}
use sage_apple.Cpu.Step.{Machine, cpu_step}
use sage_apple.Cpu.Valid.{IsValid}
use sage_apple.Cpu.Status.{flags}
use sage_apple.Cpu.Arithmetic.{adc-Added, Added, sbc_difference, biased}
use sage_apple.Cpu.Decimal.{IsBcd, decimal_value, adc_decimal_lem, sbc_decimal_lem}
use sage_apple.Cpu.Safety.Machine.{IsSoundMachine, cpu_step-IsSoundMachine}
use sage_apple.Cpu.Interrupts.{cpu_step_cycles}

-- JSR $E010, and NOPs behind it
abbrev pub test_rom : ℕ → ℕ
test_rom n = get_or (0x20 ∷ 0x10 ∷ 0xe0 ∷ []) n 0xea

pub test_rom-lt : (n : ℕ) → test_rom n < 256
test_rom-lt n =
    All-get_or (λ b. b < 256) (0x20 ∷ 0x10 ∷ 0xe0 ∷ []) n 0xea
      (omega arith, (omega arith, (omega arith, tt))) (omega arith)

abbrev pub test_regs : Regs
test_regs = record {
  a = 0x50;
  x = 1;
  y = 2;
  sp = 0xfd;
  pc = 0xe000;
  p = 0x01;
  fetch_crossed = false;
}

abbrev pub decimal_regs : Regs
decimal_regs = record test_regs { p = 0x09 }

pub test_regs-IsValid : IsValid test_regs
test_regs-IsValid = ground arith

abbrev pub test_board : Board Line
test_board = record { ram = replicate 1024 0; port = record { waiting = 0x41 ∷ []; sent = [] } }

abbrev pub test_core : Core (Board Line)
test_core = record { regs = test_regs; mem = test_board }

-- an IRQ waits
abbrev test_machine : Machine (Board Line)
test_machine = record {
  core = test_core;
  halted = false;
  cycount = 10;
  irq_pending = true;
  nmi_pending = false;
}

test_machine-IsSoundMachine :
    IsSoundMachine (monitor_laws line_laws test_rom test_rom-lt) test_machine
test_machine-IsSoundMachine = record {
  core_sound = record {
    valid = test_regs-IsValid;
    sound = monitor_sound line_laws test_rom test_rom-lt test_board (record {
      ram_bytes = All-replicate (λ n. n < 256) 1024 0 (omega arith);
      port_sound = line_sound test_board.port (omega arith, tt);
    });
  };
  cycount_word = omega arith;
}

cpu_step-IsSoundMachine_example :
    IsSoundMachine
      (monitor_laws line_laws test_rom test_rom-lt)
      (cpu_step (monitor_bus line_uart test_rom) test_machine)
cpu_step-IsSoundMachine_example =
    cpu_step-IsSoundMachine (monitor_laws line_laws test_rom test_rom-lt) test_machine
      test_machine-IsSoundMachine

cpu_step_cycles_example :
    (n : ℕ) × (2 ≤ n)
    × (n ≤ 16)
    × ((cpu_step (monitor_bus line_uart test_rom) test_machine).cycount ≡ u32 (10 + n))
cpu_step_cycles_example =
    cpu_step_cycles (monitor_laws line_laws test_rom test_rom-lt) test_machine
      test_machine-IsSoundMachine refl

binary_mode : flag fl_d test_regs.p ≡ false
unfolding flag
binary_mode = refl

decimal_mode : flag fl_d decimal_regs.p ≡ true
unfolding flag
decimal_mode = refl

adc-Added_example : Added 0x70 test_regs (adc 0x70 test_regs)
adc-Added_example = adc-Added 0x70 test_regs test_regs-IsValid (omega arith) binary_mode

sbc_difference_example :
    ((sbc 0x70 test_regs).a + 0x70 + (1 - to_ℕ (flag fl_c 0x01))
      ≡ 0x50 + 256 * (1 - to_ℕ (flag fl_c (sbc 0x70 test_regs).p)))
    × (flags (sbc 0x70 test_regs).p ≡ record (flags 0x01) {
      n = leb 128 (sbc 0x70 test_regs).a;
      v = not (between 128 383 (biased 0x50 + (255 - biased 0x70) + to_ℕ (flag fl_c 0x01)));
      z = (sbc 0x70 test_regs).a == 0;
      c = leb (0x70 + (1 - to_ℕ (flag fl_c 0x01))) 0x50;
    })
sbc_difference_example = sbc_difference 0x70 test_regs test_regs-IsValid (omega arith) binary_mode

digits_0x50 : IsBcd 0x50
digits_0x50 = (omega arith, omega arith)

digits_0x73 : IsBcd 0x73
digits_0x73 = (omega arith, omega arith)

adc_decimal_lem_example :
    IsBcd (adc 0x73 decimal_regs).a
    × (decimal_value (adc 0x73 decimal_regs).a + 100 * to_ℕ (flag fl_c (adc 0x73 decimal_regs).p)
        ≡ 50 + 73 + to_ℕ (flag fl_c 0x09))
adc_decimal_lem_example = adc_decimal_lem 0x73 decimal_regs digits_0x50 digits_0x73 decimal_mode

sbc_decimal_lem_example :
    IsBcd (sbc 0x73 decimal_regs).a
    × (decimal_value (sbc 0x73 decimal_regs).a + 73 + (1 - to_ℕ (flag fl_c 0x09))
        ≡ 50 + 100 * (1 - to_ℕ (flag fl_c (sbc 0x73 decimal_regs).p)))
sbc_decimal_lem_example = sbc_decimal_lem 0x73 decimal_regs digits_0x50 digits_0x73 decimal_mode
