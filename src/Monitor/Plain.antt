-- ===== src/Monitor/Plain.antt =====
-- avr/bus.c with nothing that waits on its serial line: the board is plain memory, which a read
-- leaves as it is, whatever address it reads.
use sage_apple.Base.{ℕ, ◌<◌, ◌≡◌, refl, ap, List, [], ◌∷◌, ltb, between, ◌==◌, if_both}
use sage_apple.Bus.{PlainLaws}
use sage_apple.Uart.{Uart, UartLaws}
use sage_apple.Uart.Line.{Line, take_first, line_uart}
use sage_apple.Monitor.{Board, bus_read, bus_write, monitor_bus}
use sage_apple.Monitor.Laws.{monitor_laws}

-- A serial port that can be idle: receiving then changes nothing, and sending leaves it idle.
pub record IdleLaws (uart : Uart) : Type 1 where
  pub IsIdle : uart.Port → Type 0
  pub rx_pure : (p : uart.Port) → IsIdle p → (uart.rx p).1 ≡ p
  pub tx-IsIdle : (v : ℕ) (p : uart.Port) → IsIdle p → IsIdle (uart.tx v p)

module _ {uart : Uart} (port_laws : UartLaws uart) (idle : IdleLaws uart) (rom : ℕ → ℕ)
    (rom_bytes : (n : ℕ) → rom n < 256) where
  abbrev pub IsQuiet : Board uart.Port → Type 0
  IsQuiet b = (monitor_laws port_laws rom rom_bytes).IsSound b × idle.IsIdle b.port

  read_unchanged :
      (addr : ℕ) (b : Board uart.Port) → idle.IsIdle b.port → (bus_read uart rom addr b).1 ≡ b
  unfolding bus_read
  read_unchanged addr b h = if_both Unchanged _ refl (
      if_both Unchanged (between 0x2000 0x2001 addr)
        (if_both Unchanged (addr == 0x2000) refl
          (ap (λ (p : uart.Port). record b { port = p }) (idle.rx_pure b.port h)))
        (if_both Unchanged _ refl refl))
    where
      Unchanged : ℕ × Board uart.Port → Type 0
      Unchanged t = t.1 ≡ b

  write-IsIdle :
      (addr v : ℕ) (b : Board uart.Port)
      → idle.IsIdle b.port
      → idle.IsIdle (bus_write uart rom addr v b).port
  unfolding bus_write
  write-IsIdle addr v b h = if_both Idle (ltb addr 0x400) h (
      if_both Idle (addr == 0x2001) (idle.tx-IsIdle v b.port h)
        (if_both Idle (addr == 0x3000) (idle.tx-IsIdle v b.port h) h))
    where
      Idle : Board uart.Port → Type 0
      Idle c = idle.IsIdle c.port

  pub quiet_laws : PlainLaws (monitor_bus uart rom)
  quiet_laws = record {
    IsPlain = IsQuiet;
    read_pure = λ addr b h. read_unchanged addr b h.1;
    peek-lt = λ addr b h. (monitor_laws port_laws rom rom_bytes).read-lt addr b h.0;
    write-IsPlain = λ addr v b hv h. (
      (monitor_laws port_laws rom rom_bytes).write-IsSound addr v b hv h.0,
      write-IsIdle addr v b h.1,
    );
  }

  pub quiet_plain : (b : Board uart.Port) → IsQuiet b → quiet_laws.IsPlain b
  unfolding quiet_laws
  quiet_plain b h = h

-- The line with no byte waiting.
receive_empty :
    (bs sent : List ℕ) → bs ≡ [] → (take_first bs sent).1 ≡ record { waiting = bs; sent = sent }
receive_empty [] sent h = refl
receive_empty (b ∷ bs) sent h = cc

pub line_idle : IdleLaws line_uart
line_idle = record {
  IsIdle = λ l. l.waiting ≡ [];
  rx_pure = λ l h. receive_empty l.waiting l.sent h;
  tx-IsIdle = λ v l h. h;
}

pub line_empty : (l : Line) → l.waiting ≡ [] → line_idle.IsIdle l
unfolding line_idle
line_empty l h = h
