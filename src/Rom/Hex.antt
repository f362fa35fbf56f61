-- ===== src/Rom/Hex.antt =====
-- Two subroutines of the monitor's ROM, run by the core on the monitor board: the printer of a byte
-- at $E07B and the reader of a hexadecimal digit at $E097.
use sage_apple.Base.{
  ℕ, zero, suc, ◌+◌, ◌-◌, ◌/◌, ◌%◌, ◌<◌, ◌≡◌, refl, Bool, true, false, List, [], ◌∷◌, ltb, between,
  ◌==◌, ◌||◌, if◌then◌else◌, replicate, set, all_below, all_below_sound, eq_bytes, eq_bytes→eq,
}
use sage_apple.Bus.{Bus}
use sage_apple.Uart.Line.{Line, line_uart}
use sage_apple.Rom.Monitor.{monrom}
use sage_apple.Monitor.{Board, bus_read, bus_write, monitor_bus}
use sage_apple.Cpu.Regs.{fl_c, flag, to_ℕ}
use sage_apple.Cpu.Running.{running}
use sage_apple.Cpu.Step.{Machine, cpu_step}

abbrev pub board : Bus
board = monitor_bus line_uart monrom

-- where the call comes from
abbrev pub return_address : ℕ
return_address = 0x1234

-- A machine that has called `entry` with `value` in the accumulator: the stack pointer is $FB, the
-- memory holds zeros but for the return address less 1 on the stack, I is the only flag set, and
-- nothing was sent.
abbrev pub called : ℕ → ℕ → ℕ → List ℕ → ℕ → ℕ → Machine (Board Line)
called x y cycles waiting entry value = record {
  core = record {
    regs = record {
      a = value;
      x = x;
      y = y;
      sp = 0xfb;
      pc = entry;
      p = 0x24;
      fetch_crossed = false;
    };
    mem = record {
      ram = set (set (replicate 1024 0) 0x1fc 0x33) 0x1fd 0x12;
      port = record { waiting = waiting; sent = [] };
    };
  };
  halted = false;
  cycount = cycles;
  irq_pending = false;
  nmi_pending = false;
}

-- Steps until the subroutine has returned, at most `fuel`.
unfoldable pub run_call : ℕ → Machine (Board Line) → Machine (Board Line)
run_call zero m = m
run_call (suc fuel) m =
    let rest = run_call fuel (cpu_step board m) in
    if m.core.regs.pc == return_address then m else rest

-- the digit that a character stands for, and the character of a digit
abbrev pub is_hex : ℕ → Bool
is_hex c = between b'0' b'9' c || between b'A' b'F' c || between b'a' b'f' c

abbrev pub hex_value : ℕ → ℕ
hex_value c = if ltb c b'A' then c - b'0' else if ltb c b'a' then c - b'A' + 10 else c - b'a' + 10

abbrev pub hex_digit : ℕ → ℕ
hex_digit d = if ltb d 10 then b'0' + d else b'A' + (d - 10)

module _ (x y cycles : ℕ) (waiting : List ℕ) where
  -- Where the reader ends, its carry, and the accumulator if the carry is set.
  unfoldable pub read_digit : ℕ → List ℕ
  read_digit c =
      let r = (run_call 20 (called x y cycles waiting 0xe097 c)).core.regs in
      r.pc ∷ to_ℕ (flag fl_c r.p) ∷ (if flag fl_c r.p then r.a else 0) ∷ []

  -- Where the printer ends, and what it sent.
  unfoldable pub print_byte : ℕ → List ℕ
  print_byte v =
      let m = run_call 40 (called x y cycles waiting 0xe07b v) in
      m.core.regs.pc ∷ m.core.mem.port.sent

  read_table :
      all_below 256 (λ c.
        eq_bytes
          (read_digit c)
          (return_address ∷ to_ℕ (is_hex c) ∷ (if is_hex c then hex_value c else 0) ∷ []))
      ≡ true
  unfolding all_below read_digit run_call monrom bus_read bus_write running
  read_table = refl

  print_table :
      all_below 256 (λ v.
        eq_bytes (print_byte v) (return_address ∷ hex_digit (v / 16) ∷ hex_digit (v % 16) ∷ []))
      ≡ true
  unfolding all_below print_byte run_call monrom bus_read bus_write running
  print_table = refl

  -- The monitor ROM's two subroutines, called with any byte in A, any X and Y, any cycles counted
  -- and any bytes waiting on the line, and in all else from one state (the stack pointer $FB, the
  -- memory zeros but for the return address $1234 less 1 on the stack, I the only flag set,
  -- nothing sent, no interrupt pending), return to $1234: the reader at $E097 sets the carry
  -- exactly for the characters 0-9, A-F and a-f and then has their value in A, and the printer at
  -- $E07B has sent the byte's two hexadecimal digits, in capitals, and nothing else.
  pub hex_subroutines :
      (v : ℕ)
      → v < 256
      → (read_digit v
          ≡ return_address ∷ to_ℕ (is_hex v) ∷ (if is_hex v then hex_value v else 0) ∷ [])
        × (print_byte v ≡ return_address ∷ hex_digit (v / 16) ∷ hex_digit (v % 16) ∷ [])
  hex_subroutines v h = (
    eq_bytes→eq _ _ (all_below_sound 256 _ v read_table h),
    eq_bytes→eq _ _ (all_below_sound 256 _ v print_table h),
  )
