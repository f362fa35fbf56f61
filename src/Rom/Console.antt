-- ===== src/Rom/Console.antt =====
-- The console of the Apple profile: the ROM of avr/rom_apple2.c, run by the core on the bus.
use sage_apple.Base.{
  ℕ, ◌%◌, ◌<◌, ◌≡◌, refl, Bool, true, false, ◌||◌, List, [], ◌∷◌, ◌++◌, ltb, ◌==◌, if◌then◌else◌,
  replicate, all_below, all_below_sound, Bool-cases, inl, inr, subst, eq_bytes, eq_bytes→eq, ◌+◌,
  ◌-◌, arith,
}
use sage_apple.Bus.{Bus}
use sage_apple.Uart.Line.{Line, line_uart}
use sage_apple.Rom.Apple.{apple2rom}
use sage_apple.Apple.State.{Board, bus_reset}
use sage_apple.Apple.Map.{apple_bus}
use sage_apple.Apple.Keys.{apple_code}
use sage_apple.Host.{run_steps}
use sage_apple.Host.Main.{signature}
use sage_apple.Cpu.Running.{running}
use sage_apple.Apple.Running.{serving}
use sage_apple.Cpu.Step.{Machine, cpu_reset}

-- The machine when the power comes on, with this serial port.
abbrev pub powered : {P : Type 0} → P → Machine (Board P)
powered port = record {
  core = record {
    regs = record { a = 0; x = 0; y = 0; sp = 0; pc = 0; p = 0; fetch_crossed = false };
    mem = record {
      ram = replicate 1024 0;
      keys = record { keyboard_latch = 0; keyboard_strobe = 0; keyboard_latch_valid = 0 };
      speaker_on = 0;
      video = record {
        video_switches = replicate 8 0;
        video_values = replicate 8 0;
        video_state = 0;
        video_event_count = 0;
        video_last_address = 0;
        video_last_value = 0;
      };
      card = record {
        bank = 0;
        read_ram = 0;
        write_ram = 0;
        prewrite = 0;
        card_ram = replicate 512 0;
      };
      port = port;
    };
  };
  halted = false;
  cycount = 0;
  irq_pending = false;
  nmi_pending = false;
}

abbrev pub power_on : List ℕ → Machine (Board Line)
power_on bytes = powered (record { waiting = bytes; sent = [] })

abbrev console_bus : Bus
console_bus = apple_bus line_uart apple2rom

-- Reset, and then `count` steps.
unfoldable pub session : ℕ → List ℕ → Machine (Board Line)
session count bytes =
    let m = power_on bytes in
    run_steps console_bus count
      (cpu_reset console_bus (record m { core = record m.core { mem = bus_reset m.core.mem } }))

-- What the console answers to a byte.
abbrev pub reply : ℕ → List ℕ
reply byte =
    let key = apple_code byte % 128 in
    if key == 0x0d || key == 0x0a
    then 0x0d ∷ 0x0a ∷ []
    else if key == 0x08 || key == 0x7f
    then 0x08 ∷ 0x20 ∷ 0x08 ∷ []
    else if ltb key 0x20
    then []
    else key ∷ []

-- Whether the session of `start + byte` is the signature and the reply.
answers : ℕ → ℕ → Bool
answers start byte =
    eq_bytes (session 75 ((start + byte) ∷ [])).core.mem.port.sent
      (signature ++ reply (start + byte))

low_table : all_below 128 (answers 0) ≡ true
unfolding all_below answers session run_steps apple2rom running serving
low_table = refl

high_table : all_below 128 (answers 128) ≡ true
unfolding all_below answers session run_steps apple2rom running serving
high_table = refl

answered :
    (start byte : ℕ)
    → answers start byte ≡ true
    → (session 75 ((start + byte) ∷ [])).core.mem.port.sent ≡ signature ++ reply (start + byte)
unfolding answers
answered start byte h = eq_bytes→eq _ _ h

-- The Apple ROM, run by the core on its bus from power-on, with any byte on the serial line, has
-- after 75 steps sent its signature and the reply to that byte: the character in capitals, a line
-- end for a return or a line feed, an erasing sequence for a backspace or delete, and nothing for
-- any other control character.
pub session-reply :
    (byte : ℕ) → byte < 256 → (session 75 (byte ∷ [])).core.mem.port.sent ≡ signature ++ reply byte
session-reply byte h = elim (Bool-cases (ltb byte 128)) [
  | inl low ↦
      subst Replies (omega arith)
        (answered 0 byte (all_below_sound 128 _ byte low_table (ground arith)))
  | inr high ↦
      subst Replies (ground arith)
        (answered 128 (byte - 128) (all_below_sound 128 _ (byte - 128) high_table (ground arith)))
]
  where
    Replies : ℕ → Type 0
    Replies b = (session 75 (b ∷ [])).core.mem.port.sent ≡ signature ++ reply b
