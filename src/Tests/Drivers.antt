-- ===== src/Tests/Drivers.antt =====
-- Several LEDs, and the sessions of the host drivers, on small states.
use sage_apple.Base.{
  ℕ, ◌<◌, ◌+◌, ◌%◌, ◌≡◌, refl, arith, false, not, ◌&&◌, List, [], ◌∷◌, Option, none, some,
  replicate, length, bit_and, u8, leb, between, ◌==◌, if◌then◌else◌, All-replicate,
}
use sage_apple.Uart.Line.{line_uart}
use sage_apple.Uart.Ring.{Ring, rxcap, hu_feed}
use sage_apple.Uart.Wrap.{waiting, waiting-hu_feed}
use sage_apple.Led.State.{Led, off, mode_pattern, ph_idle}
use sage_apple.Led.Driver.{led_fault}
use sage_apple.Led.Limits.{beats}
use sage_apple.Led.Multi.{lit_at}
use sage_apple.Led.Marks.{IsReady, beats_after, led_fault-lit}
use sage_apple.Apple.State.{Card}
use sage_apple.Apple.Card.{language_card_offset}
use sage_apple.Apple.Overrun.{language_card_offset_overrun}
use sage_apple.Monitor.{Board, monitor_bus}
use sage_apple.Monitor.Laws.{monitor_sound}
use sage_apple.Rom.Monitor.{monrom}
use sage_apple.Rom.Bytes.{monrom-lt}
use sage_apple.Rom.Hex.{called}
use sage_apple.Cpu.Step.{Machine, cpu_reset}
use sage_apple.Cpu.Safety.Machine.{IsSoundMachine}
use sage_apple.Host.{run_steps}
use sage_apple.Host.Steps.{steps, run_steps-steps}
use sage_apple.Host.Session.{host_main, bus}
use sage_apple.Host.Runs.{full_runs, typed_session}
use sage_apple.Host.Endurance.{hu_laws, hu_sound, laws, host_main-IsSoundMachine}

abbrev four_leds : Led
four_leds = record {
  led_n = 4;
  led_state = replicate 4 off;
  fault_latched = 0;
  fault_now = 0;
  reset_cause = 0;
  monitor_seen = false;
  seq = record {
    mode = mode_pattern;
    phase = ph_idle;
    pulse = 0;
    beats = 2;
    left = 0;
    gap = 0;
    repeat = 0;
  };
  flash_phase = 0;
  portb = 0x20;
  ddrb = 0x20;
  portd = 0x1c;
  ddrd = 0x1c;
  wdtcsr = 0x44;
}

four_leds-IsReady : IsReady four_leds
four_leds-IsReady = record {
  several = omega arith;
  enough = omega arith;
  full = omega arith;
  bytes = (omega arith, omega arith);
  unlatched = refl;
  phase_byte = omega arith;
}

led_fault-lit_example :
    lit_at 2 (beats_after 3 (led_fault 2 four_leds)) ≡ (2 == 2 && not (bit_and (u8 (0 + 3)) 1 == 0))
led_fault-lit_example =
    led_fault-lit 2 3 2 four_leds four_leds-IsReady (omega arith) (omega arith) (omega arith)

abbrev test_card : Card
test_card = record {
  bank = 1;
  read_ram = 1;
  write_ram = 1;
  prewrite = 0;
  card_ram = replicate 512 0;
}

language_card_offset_overrun_example :
    (leb 512 (language_card_offset 0xe100 test_card)
      && not (language_card_offset 0xe100 test_card == 0xffff))
    ≡ between 0xe100 0xe1ff 0xe100
language_card_offset_overrun_example =
    language_card_offset_overrun 0xe100 test_card (omega arith) (omega arith)

abbrev empty_queue : Ring
empty_queue = record { buf = replicate 512 0; head = 5; tail = 5; sent = [] }

-- A string as long as the buffer is lost.
waiting-hu_feed_example :
    waiting (hu_feed (replicate {A = ℕ} 512 b'x') empty_queue)
    ≡ (waiting empty_queue + length (replicate {A = ℕ} 512 b'x')) % rxcap
waiting-hu_feed_example =
    waiting-hu_feed (replicate {A = ℕ} 512 b'x') empty_queue (omega arith) (omega arith)

run_steps-steps_example :
    (run_steps (monitor_bus line_uart monrom) 3 (called 0 0 0 [] 0xe097 b'7') ≡ (
      if (called 0 0 0 [] 0xe097 b'7').halted
      then called 0 0 0 [] 0xe097 b'7'
      else steps (monitor_bus line_uart monrom) 3 (called 0 0 0 [] 0xe097 b'7')))
    × ((run_steps (monitor_bus line_uart monrom) 3 (called 0 0 0 [] 0xe097 b'7')).halted
        ≡ (called 0 0 0 [] 0xe097 b'7').halted)
run_steps-steps_example =
    run_steps-steps (monitor_bus line_uart monrom) 3 (called 0 0 0 [] 0xe097 b'7')

abbrev host_machine : Machine (Board Ring)
host_machine = record {
  core = record {
    regs = record { a = 0; x = 0; y = 0; sp = 0; pc = 0; p = 0; fetch_crossed = false };
    mem = record { ram = replicate 1024 0; port = empty_queue };
  };
  halted = false;
  cycount = 0;
  irq_pending = false;
  nmi_pending = false;
}

host_machine-IsSoundMachine : IsSoundMachine (laws monrom monrom-lt) host_machine
host_machine-IsSoundMachine = record {
  core_sound = record {
    valid = ground arith;
    sound = monitor_sound hu_laws monrom monrom-lt host_machine.core.mem (record {
      ram_bytes = All-replicate (λ n. n < 256) 1024 0 (omega arith);
      port_sound = hu_sound empty_queue (All-replicate (λ n. n < 256) 512 0 (omega arith));
    });
  };
  cycount_word = omega arith;
}

-- two lines, HELP and an empty one
abbrev two_lines : List (List ℕ)
two_lines = (b'H' ∷ b'E' ∷ b'L' ∷ b'P' ∷ 0x0a ∷ []) ∷ (0x0a ∷ []) ∷ []

-- no file can be opened
abbrev no_file : List ℕ → Option (List (List ℕ))
no_file name = none

host_main-IsSoundMachine_example :
    IsSoundMachine
      (laws monrom monrom-lt)
      (host_main monrom no_file two_lines (some (b'-' ∷ [])) host_machine).1
    × ((host_main monrom no_file two_lines (some (b'-' ∷ [])) host_machine).1
        ≡ full_runs monrom
            (typed_session no_file two_lines (some (b'-' ∷ [])))
            (steps (bus monrom) 60000 (cpu_reset (bus monrom) host_machine)))
    × ((host_main monrom no_file two_lines (some (b'-' ∷ [])) host_machine).1.halted ≡ false)
host_main-IsSoundMachine_example =
    host_main-IsSoundMachine monrom monrom-lt no_file two_lines (some (b'-' ∷ [])) host_machine
      host_machine-IsSoundMachine
