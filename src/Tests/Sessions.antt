-- ===== src/Tests/Sessions.antt =====
-- The host's FIFO and the sessions of avr/host_main.c, on two lines of commands.
use sage_apple.Base.{
  ℕ, ◌+◌, ◌<◌, ◌≡◌, refl, arith, List, [], ◌∷◌, ◌++◌, Option, none, some, map, replicate, length,
  length-replicate, false, u8,
}
use mathlib.Core.Quot
use sage_apple.Uart.Line.{Line, receive}
use sage_apple.Uart.Contents.{Contents, line, read, read-receive}
use sage_apple.Uart.Ring.{Ring, rxcap, hu_feed}
use sage_apple.Uart.Circular.{held}
use sage_apple.Uart.Replay.{IsFifo, fifo_line, hu_feed-append}
use sage_apple.Cpu.Step.{Machine}
use sage_apple.Monitor.{Board}
use sage_apple.Monitor.Simulation.{related_boards}
use sage_apple.Host.Session.{host_main, source, trim}
use sage_apple.Host.Terminal.{
  fifo_simulation, standing, terminal, fed_length, MatchesWith, host_main-terminal,
}
use sage_apple.Rom.Monitor.{monrom}

abbrev no_bytes : Ring
no_bytes = record { buf = replicate 512 0; head = 510; tail = 510; sent = [] }

no_bytes-IsFifo : IsFifo no_bytes
no_bytes-IsFifo = record {
  full_size = length-replicate {A = ℕ} 512 0;
  head_inside = omega arith;
  tail_inside = omega arith;
}

room : length (fifo_line no_bytes).waiting + 3 < rxcap
unfolding held
room = omega arith

-- three bytes around the end of the buffer
hu_feed-append_example :
    IsFifo (hu_feed (b'O' ∷ b'K' ∷ 0x0d ∷ []) no_bytes)
    × (fifo_line (hu_feed (b'O' ∷ b'K' ∷ 0x0d ∷ []) no_bytes) ≡ record {
      waiting = (fifo_line no_bytes).waiting ++ map u8 (b'O' ∷ b'K' ∷ 0x0d ∷ []);
      sent = [];
    })
hu_feed-append_example = hu_feed-append (b'O' ∷ b'K' ∷ 0x0d ∷ []) no_bytes no_bytes-IsFifo room

-- HELP and an empty line
abbrev commands : List (List ℕ)
commands = (b'H' ∷ b'E' ∷ b'L' ∷ b'P' ∷ 0x0a ∷ []) ∷ (0x0a ∷ []) ∷ []

abbrev off : {P : Type 0} → P → Machine (Board P)
off port = record {
  core = record {
    regs = record { a = 0; x = 0; y = 0; sp = 0; pc = 0; p = 0; fetch_crossed = false };
    mem = record { ram = replicate 1024 0; port = port };
  };
  halted = false;
  cycount = 0;
  irq_pending = false;
  nmi_pending = false;
}

abbrev silence : Line
silence = record { waiting = []; sent = [] }

empty_line : Path {0} Line (fifo_line no_bytes) silence
unfolding held
empty_line = refl

machines_match : MatchesWith monrom (fed_length commands) (off no_bytes) (off silence)
unfolding trim
machines_match = record {
  core_alike = record {
    same_regs = refl;
    related =
        related_boards (fifo_simulation (fed_length commands)) monrom (off no_bytes).core.mem
          (off silence).core.mem
          (
            refl,
            standing (fed_length commands) no_bytes silence
                (no_bytes-IsFifo, (empty_line, omega arith)),
          );
  };
  same_halted = refl;
  same_cycount = refl;
  same_irq = refl;
  same_nmi = refl;
}

-- no file can be opened
abbrev nothing_opens : List ℕ → Option (List (List ℕ))
nothing_opens name = none

found : source nothing_opens commands (b'-' ∷ []) ≡ some commands
unfolding source
found = refl

host_main-terminal_example :
    MatchesWith monrom 0
      (host_main monrom nothing_opens commands (some (b'-' ∷ [])) (off no_bytes)).1
      (terminal monrom commands (off silence))
host_main-terminal_example =
    host_main-terminal monrom nothing_opens commands (b'-' ∷ []) commands (off no_bytes)
      (off silence) found machines_match

-- the same two bytes in two places of the buffer
abbrev two_bytes : ℕ → ℕ → Ring
two_bytes head tail = record { buf = replicate 512 b'x'; head = head; tail = tail; sent = [] }

full_buffer : length (replicate {A = ℕ} 512 b'x') ≡ 512
full_buffer = length-replicate {A = ℕ} 512 b'x'

abbrev inner : Contents
inner = Quot.mk (
  two_bytes 5 7,
  record { full_size = full_buffer; head_inside = omega arith; tail_inside = omega arith },
)

abbrev wrapped : Contents
wrapped = Quot.mk (
  two_bytes 511 1,
  record { full_size = full_buffer; head_inside = omega arith; tail_inside = omega arith },
)

one_line : line inner ≡ line wrapped
unfolding line held
one_line = refl

read-receive_example :
    (inner ≡ wrapped)
    × Path {0} (ℕ × Line) ((read inner).0, line (read inner).1) (receive (line wrapped))
read-receive_example = read-receive inner wrapped one_line
