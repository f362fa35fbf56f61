-- ===== src/Boot.antt =====
-- avr/main.c: the boot sequence and the main loop. The registers MCUSR and UCSR0A are arguments,
-- the latter with one value for the loop's own read and one for those of `led_poll`; what
-- `uart_init` takes from avr/io.h and util/setbaud.h is a record. `cli` and `sei` have no model.
pub mod Progress
pub mod Stepping
pub mod Serial
use sage_apple.Base.{
  ℕ, Bool, not, ◌&&◌, List, [], ◌∷◌, bit_and, bit_or, u8, ◌^◌, ◌==◌, if◌then◌else◌,
}
use sage_apple.Bus.{Bus}
use sage_apple.Cpu.Step.{Machine, cpu_reset, cpu_step}
use sage_apple.Led.State.{
  Led, ResetBits, led_stage_power, led_stage_uart, led_stage_cpu, led_stage_monitor,
}
use sage_apple.Led.Driver.{
  led_init, led_stage_enter, led_stage_done, led_stage_is_done, led_idle, led_poll, wdt_vect,
}

-- the bit RXC0 of UCSR0A, by avr/avrtest/avr/io.h
abbrev pub rxc0 : ℕ
rxc0 = 0x80

-- the registers of the serial port that `uart_init` writes
pub record Usart : Type 0 where
  pub ubrr0h : ℕ
  pub ubrr0l : ℕ
  pub ucsr0a : ℕ
  pub ucsr0b : ℕ
  pub ucsr0c : ℕ

-- the numbers of the bits by avr/io.h, and the baud rate's values by util/setbaud.h
pub record Setup : Type 0 where
  pub u2x0 : ℕ
  pub rxen0 : ℕ
  pub txen0 : ℕ
  pub ucsz01 : ℕ
  pub ucsz00 : ℕ
  pub ubrrh_value : ℕ
  pub ubrrl_value : ℕ
  pub use_2x : Bool
  pub reset_bits : ResetBits

unfoldable pub uart_init : Setup → Usart → Usart
uart_init setup u = record {
  ubrr0h = u8 setup.ubrrh_value;
  ubrr0l = u8 setup.ubrrl_value;
  ucsr0a = if setup.use_2x then u8 (bit_or u.ucsr0a (2 ^ setup.u2x0)) else u.ucsr0a;
  ucsr0b = u8 (bit_or (2 ^ setup.rxen0) (2 ^ setup.txen0));
  ucsr0c = u8 (bit_or (2 ^ setup.ucsz01) (2 ^ setup.ucsz00));
}

pub record Firmware (S : Type 0) : Type 0 where
  pub machine : Machine S
  pub led : Led
  pub usart : Usart

-- the beat interrupt, and a turn of the main loop with the values of UCSR0A that it reads
pub data Event : Type 0 where
  beat : Event
  pass : (ucsr0a polled : ℕ) → Event

-- `led_stage_enter` and `led_stage_done` behind each other
unfoldable pub pass_stage : ℕ → Led → Led
pass_stage stage l = led_stage_done stage (led_stage_enter stage l)

module _ (bus : Bus) (bus_reset : bus.State → bus.State) where
  open bus use {State}

  -- `main` up to its loop, for a build with LED_COUNT `count`
  unfoldable pub boot : Setup → ℕ → ℕ → Firmware State → Firmware State
  unfolding pass_stage uart_init
  boot setup count mcusr s =
      let core = s.machine.core in
      record {
        machine =
            cpu_reset bus (record s.machine { core = record core { mem = bus_reset core.mem } });
        led = pass_stage led_stage_cpu (
            pass_stage led_stage_uart
              (pass_stage led_stage_power (led_init setup.reset_bits count mcusr s.led)));
        usart = uart_init setup s.usart;
      }

  -- one turn of the loop: the values of UCSR0A at its own test and in `led_poll`
  unfoldable pub turn : ℕ → ℕ → Firmware State → Firmware State
  turn ucsr0a polled s = record s {
    machine = cpu_step bus s.machine;
    led = led_poll polled (
        if not (led_stage_is_done led_stage_monitor s.led) && not (bit_and ucsr0a rxc0 == 0)
        then led_idle (led_stage_done led_stage_monitor s.led)
        else s.led);
  }

  -- These events in order. A beat interrupt stands between two turns, where the hardware may also
  -- take it inside of one.
  unfoldable pub events : List Event → Firmware State → Firmware State
  events [] s = s
  events (beat ∷ es) s = events es (record s { led = wdt_vect s.led })
  events (pass ucsr0a polled ∷ es) s = events es (turn ucsr0a polled s)
