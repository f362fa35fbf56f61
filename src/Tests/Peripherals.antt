-- ===== src/Tests/Peripherals.antt =====
-- The LED driver, the Apple bus and the main loop on small states.
use sage_apple.Base.{
  true, if◌then◌else◌, ◌==◌, ◌+◌, ◌*◌, ◌≡◌, ◌≢◌, refl, arith, false, [], ◌∷◌, ◌++◌, replicate,
}
use sage_apple.Uart.Line.{Line, line_uart}
use sage_apple.Led.State.{Led, off, mode_pattern, ph_idle}
use sage_apple.Led.Faults.{led_faults, first_fault_wins}
use sage_apple.Apple.Banks.{bus_read-bus_write_card}
use sage_apple.Apple.Switches.{flag-video_switch, write_all, write_all-video_event_count}
use sage_apple.Apple.Video.{video_switch, is_video_write}
use sage_apple.Cpu.Regs.{flag}
use sage_apple.Led.Driver.{stub_bits, reset_fault, led_stage_done, led_fault}
use sage_apple.Led.Trace.{group, groups, group_beats}
use sage_apple.Led.Patterns.{pin_trace, led_stage_done_pattern, led_fault_pattern}
use sage_apple.Apple.State.{bus_reset, Board, Keys}
use sage_apple.Boot.{Firmware, Setup, beat, pass, boot, events}
use sage_apple.Boot.Progress.{boot-fault_latched, boot-seq, events-fault_latched}
use sage_apple.Led.Sequencer.{arm}
use sage_apple.Apple.Map.{apple_bus, bus_read, bus_write}
use sage_apple.Apple.Keys.{read_keys, read_keys-typed, typed}
use sage_apple.Apple.Delivery.{
  at_strobe, at_data, keys_taken, keys_left, keeps_latch, accesses, accesses-keys_left,
}

abbrev one_led : Led
one_led = record {
  led_n = 1;
  led_state = replicate 4 off;
  fault_latched = 0;
  fault_now = 0;
  reset_cause = 0;
  monitor_seen = false;
  seq = record {
    mode = mode_pattern;
    phase = ph_idle;
    pulse = 0;
    beats = 2;
    left = 0;
    gap = 0;
    repeat = 0;
  };
  flash_phase = 0;
  portb = 0x20;
  ddrb = 0x20;
  portd = 0;
  ddrd = 0;
  wdtcsr = 0x44;
}

led_stage_done_pattern_example :
    pin_trace (group_beats 2 3 + 4) (led_stage_done 3 one_led) ≡ group 2 3 ++ replicate 4 false
led_stage_done_pattern_example = led_stage_done_pattern 3 4 one_led refl (omega arith)

led_fault_pattern_example :
    (pin_trace (5 * group_beats 6 1) (led_fault 2 one_led) ≡ groups 5 6 1)
    × ((led_fault 2 one_led).fault_latched ≡ 2)
led_fault_pattern_example = led_fault_pattern 1 5 one_led refl (omega arith) refl

abbrev idle_keys : Keys
idle_keys = record { keyboard_latch = 0; keyboard_strobe = 0; keyboard_latch_valid = 0 }

-- a board after reset, with two bytes on the line
abbrev test_apple : Board Line
test_apple = record {
  ram = replicate 1024 0;
  keys = idle_keys;
  speaker_on = 0;
  video = record {
    video_switches = replicate 8 0;
    video_values = replicate 8 0;
    video_state = 1;
    video_event_count = 0;
    video_last_address = 0;
    video_last_value = 0;
  };
  card = record { bank = 2; read_ram = 0; write_ram = 1; prewrite = 0; card_ram = replicate 512 0 };
  port = record { waiting = b'a' ∷ b'1' ∷ []; sent = [] };
}

read_keys-typed_example : read_keys (λ n. 0xea) 2 test_apple ≡ typed (b'a' ∷ b'1' ∷ [])
read_keys-typed_example =
    read_keys-typed (λ n. 0xea) test_apple (b'a' ∷ b'1' ∷ [])
      (record { no_strobe = refl; no_latch = refl }) refl

-- A program that reads $C000 too early, and $C010 twice.
accesses-keys_left_example :
    (keys_taken false
          (accesses
            (λ n. 0xea)
            (at_data ∷ at_strobe ∷ at_strobe ∷ at_data ∷ at_data ∷ at_strobe ∷ [])
            test_apple).0
        ++ keys_left
            (accesses
              (λ n. 0xea)
              (at_data ∷ at_strobe ∷ at_strobe ∷ at_data ∷ at_data ∷ at_strobe ∷ [])
              test_apple).1
      ≡ keys_left test_apple)
    × (keeps_latch
          (accesses
            (λ n. 0xea)
            (at_data ∷ at_strobe ∷ at_strobe ∷ at_data ∷ at_data ∷ at_strobe ∷ [])
            test_apple).1
        ≡ true)
accesses-keys_left_example =
    accesses-keys_left (λ n. 0xea)
      (at_data ∷ at_strobe ∷ at_strobe ∷ at_data ∷ at_data ∷ at_strobe ∷ []) test_apple refl

-- a fault after two codes that are none
first_fault_wins_example : (led_faults (0 ∷ 9 ∷ 3 ∷ 4 ∷ []) one_led).fault_latched ≡ 3
first_fault_wins_example = first_fault_wins (0 ∷ 9 ∷ 3 ∷ 4 ∷ []) one_led refl

abbrev open_card : Board Line
open_card = record test_apple { card = record test_apple.card { read_ram = 1; write_ram = 1 } }

reads : open_card.card.read_ram ≢ 0
reads = omega arith

writes : open_card.card.write_ram ≢ 0
writes = omega arith

bus_read-bus_write_card_example :
    bus_read line_uart (λ n. 0xea) 0xe0ff (bus_write line_uart (λ n. 0xea) 0xe0ff 7 open_card)
    ≡ (7, bus_write line_uart (λ n. 0xea) 0xe0ff 7 open_card)
bus_read-bus_write_card_example =
    bus_read-bus_write_card line_uart (λ n. 0xea) 0xe0ff 7 open_card refl reads writes refl

flag-video_switch_example :
    flag 1 (video_switch 0xc055 0x09) ≡ (if 0 == 2 then true else flag 1 0x09)
flag-video_switch_example = flag-video_switch 2 0 true 0x09 (omega arith) (omega arith)

write_all-video_event_count_example :
    (write_all line_uart
      (λ n. 0xea)
      ((0x0400, 1) ∷ (0x5fff, 2) ∷ [])
      test_apple).video.video_event_count
    ≡ 2
unfolding is_video_write
write_all-video_event_count_example =
    write_all-video_event_count line_uart (λ n. 0xea) ((0x0400, 1) ∷ (0x5fff, 2) ∷ []) test_apple
      (refl, (refl, tt)) (omega arith)

-- the bits of the ATmega328P, and the values for 9600 baud at 16 MHz
abbrev uno : Setup
uno = record {
  u2x0 = 1;
  rxen0 = 4;
  txen0 = 3;
  ucsz01 = 2;
  ucsz00 = 1;
  ubrrh_value = 0;
  ubrrl_value = 103;
  use_2x = false;
  reset_bits = record { borf = 2; wdrf = 3; extrf = 1 };
}

abbrev test_firmware : Firmware (Board Line)
test_firmware = record {
  machine = record {
    core = record {
      regs = record { a = 0; x = 0; y = 0; sp = 0; pc = 0; p = 0; fetch_crossed = false };
      mem = test_apple;
    };
    halted = false;
    cycount = 0;
    irq_pending = false;
    nmi_pending = false;
  };
  led = record one_led { fault_latched = 2 };
  usart = record { ubrr0h = 0; ubrr0l = 0; ucsr0a = 0x20; ucsr0b = 0; ucsr0c = 0x06 };
}

boot-fault_latched_example :
    (boot (apple_bus line_uart (λ n. 0xea)) bus_reset uno 1 0x0a test_firmware).led.fault_latched
    ≡ 2
boot-fault_latched_example =
    boot-fault_latched (apple_bus line_uart (λ n. 0xea)) bus_reset uno 1 0x0a test_firmware

boot-seq_example :
    (boot (apple_bus line_uart (λ n. 0xea)) bus_reset uno 1 0x08 test_firmware).led.seq ≡ arm 2 3 0
boot-seq_example = boot-seq (apple_bus line_uart (λ n. 0xea)) bus_reset uno 0x08 test_firmware

latched : test_firmware.led.fault_latched ≢ 0
latched = omega arith

events-fault_latched_example :
    (events
      (apple_bus line_uart (λ n. 0xea))
      bus_reset
      (pass 0x80 0x10 ∷ beat ∷ [])
      test_firmware).led.fault_latched
    ≡ 2
events-fault_latched_example =
    events-fault_latched (apple_bus line_uart (λ n. 0xea)) bus_reset (pass 0x80 0x10 ∷ beat ∷ [])
      test_firmware latched

-- Bit 0 of MCUSR is the brownout by avr/avrtest/avr/io.h and no fault by the chip's numbers.
power_on_bit : (reset_fault stub_bits 1 ≡ 1) × (reset_fault uno.reset_bits 1 ≡ 0)
unfolding reset_fault
power_on_bit = (refl, refl)
