-- ===== src/Host/Checks.antt =====
-- avr/apple2_host_main.c: the checks of the keyboard, the video switches and the language card, as
-- blocks of accesses and tests. A block also counts its failures; `reads`, `shows` and `latches` are
-- the parts of a condition, and `◌and◌` is C's `&&`, which leaves out the second part when the first
-- one fails.
use sage_apple.Base.{ℕ, ◌+◌, Bool, false, ◌==◌, if◌then◌else◌}
use sage_apple.Uart.Ring.{Ring, host_uart_feed}
use sage_apple.Apple.State.{Board, bus_reset}
use sage_apple.Apple.Video.{bus_video_state, bus_video_value}
use sage_apple.Apple.Map.{bus_read, bus_write}
use sage_apple.Host.{ring_uart, check}

pub record Run : Type 0 where
  pub board : Board Ring
  pub failures : ℕ

abbrev pub Checks : Type 0 → Type 0
Checks A = Run → A × Run

infixl 5 ◌>>=◌ ◌>>◌
unfoldable pub ◌>>=◌ : {A B : Type 0} → Checks A → (A → Checks B) → Checks B
(m >>= f) r = f (m r).0 (m r).1

unfoldable pub ◌>>◌ : {B : Type 0} → Checks (Unit {0}) → Checks B → Checks B
(m >> k) r = k (m r).1

infixr 6 ◌and◌
unfoldable pub ◌and◌ : Checks Bool → Checks Bool → Checks Bool
(p and q) r = let rest = q (p r).1 in if (p r).0 then rest else (false, (p r).1)

unfoldable pub reset : Checks (Unit {0})
reset r = (tt, record r { board = bus_reset r.board })

unfoldable pub feed : ℕ → Checks (Unit {0})
feed value r =
    (tt, record r { board = record r.board { port = host_uart_feed value r.board.port } })

-- `failures += check(condition, ...)`
unfoldable pub expect : Checks Bool → Checks (Unit {0})
unfolding check
expect p r = (tt, record (p r).1 { failures = (p r).1.failures + check (p r).0 })

-- `bus_video_state() == v` and `bus_video_value(index) == v`
unfoldable pub shows : ℕ → Checks Bool
unfolding bus_video_state
shows v r = (bus_video_state r.board.video == v, r)

unfoldable pub latches : ℕ → ℕ → Checks Bool
latches index v r = (bus_video_value index r.board.video == v, r)

module _ (rom : ℕ → ℕ) where
  unfoldable pub read : ℕ → Checks ℕ
  read address r =
      let (v, board) = bus_read ring_uart rom address r.board in (v, record r { board = board })

  unfoldable pub write : ℕ → ℕ → Checks (Unit {0})
  write address v r = (tt, record r { board = bus_write ring_uart rom address v r.board })

  -- `bus_read(address) == v`
  unfoldable pub reads : ℕ → ℕ → Checks Bool
  unfolding read
  reads address v r =
      let (w, board) = bus_read ring_uart rom address r.board in
      (w == v, record r { board = board })

  unfoldable pub run_keyboard_checks : Checks (Unit {0})
  run_keyboard_checks = do
    reset
    expect (reads 0xc010 0x00)
    feed b'a'
    expect (reads 0xc010 0x80)
    expect (reads 0xc000 0x41)
    expect (reads 0xc000 0x41)
    expect (reads 0xc010 0x00)
    feed b'B'
    expect (reads 0xc010 0x80)
    expect (reads 0xc000 0x42)
    write 0xc010 0x00
    expect (reads 0xc000 0x42)
    expect (reads 0xc010 0x00)
    feed b'0'
    feed 0x20
    feed 0x0d
    expect (reads 0xc010 0x80 and reads 0xc000 0x30)
    expect (reads 0xc010 0x80 and reads 0xc000 0x20)
    expect (reads 0xc010 0x80 and reads 0xc000 0x0d)
    expect (reads 0xc010 0x00)
    feed b'Q'
    expect (reads 0xc081 0xd1)

  unfoldable pub run_video_checks : Checks (Unit {0})
  run_video_checks = do
    reset
    expect (shows 0x01)
    write 0xc050 0x10
    expect (reads 0xc050 0x80 and shows 0x00)
    write 0xc051 0x11
    expect (reads 0xc051 0x80 and shows 0x01)
    write 0xc052 0x12
    expect (reads 0xc052 0x80 and shows 0x01)
    write 0xc053 0x13
    expect (reads 0xc053 0x80 and shows 0x03)
    write 0xc054 0x14
    expect (reads 0xc054 0x80 and shows 0x03)
    write 0xc055 0x15
    expect (reads 0xc055 0x80 and shows 0x07)
    write 0xc056 0x16
    expect (reads 0xc056 0x80 and shows 0x07)
    write 0xc057 0x17
    expect (reads 0xc057 0x80 and shows 0x0f)
    expect (shows 0x0f and latches 0 0x10 and latches 7 0x17)
    reset
    expect (shows 0x01)
    expect (reads 0xc057 0x00 and shows 0x09)

  unfoldable pub run_banking_checks : Checks (Unit {0})
  run_banking_checks = do
    reset
    rom_d000 ← read 0xd000
    write 0xd000 0x3c
    expect (reads 0xd000 rom_d000)
    _ ← read 0xc300
    write 0xd000 0xa1
    expect (reads 0xd000 0x00)
    _ ← read 0xc302
    expect (reads 0xd000 rom_d000)
    write 0xd000 0xb2
    _ ← read 0xc300
    expect (reads 0xd000 0xb2)
    _ ← read 0xc303
    write 0xd000 0x55
    expect (reads 0xd000 rom_d000)
    _ ← read 0xc308
    expect (reads 0xd000 0x3c)
    _ ← read 0xc300
    expect (reads 0xd000 0xb2)
    _ ← read 0xc301
    _ ← read 0xc301
    write 0xe000 0xd4
    _ ← read 0xc300
    expect (reads 0xe000 0xd4)
