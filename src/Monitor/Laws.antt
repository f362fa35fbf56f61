-- ===== src/Monitor/Laws.antt =====
-- avr/bus.c keeps the promises that the CPU core relies on: every read gives a byte, and below
-- $0400 there is plain memory.
use sage_apple.Base.{
  ℕ, ◌-◌, ◌<◌, ◌≡◌, ◌∙◌, refl, arith, Bool, true, length, length-set, get_or, set, bit_or,
  bit_or-lt, ltb, between, ◌==◌, if◌then◌else◌, if_both, All, All-set, All-get_or, get_or-set_self,
  get_or-set_ne,
}
use sage_apple.Bus.{BusLaws, RamLaws}
use sage_apple.Uart.{Uart, UartLaws}
use sage_apple.Monitor.{Board, bus_read, bus_write, monitor_bus}

-- The status byte of the UART, built from its two bits.
status-lt : (b : Bool) → bit_or (if b then 0x01 else 0x00) 0x02 < 256
status-lt b =
    bit_or-lt 8 _ 0x02 (if_both (λ n. n < 256) b (omega arith) (omega arith)) (omega arith)

zero_byte : 0 < 256
zero_byte = omega arith

below_0x0400 : (addr : ℕ) → addr < 0x0400 → ltb addr 0x0400 ≡ true
below_0x0400 addr h = ground arith

module _ {uart : Uart} (port_laws : UartLaws uart) where
  -- The memory holds bytes and the port is sound.
  pub record HoldsBytes (b : Board uart.Port) : Type 0 where
    pub ram_bytes : All (λ n. n < 256) b.ram
    pub port_sound : port_laws.IsSound b.port

  module _ (rom : ℕ → ℕ) (rom_bytes : (n : ℕ) → rom n < 256) where
    -- what a sound read gives
    abbrev IsByteRead : ℕ × Board uart.Port → Type 0
    IsByteRead t = (t.0 < 256) × HoldsBytes t.1

    read_sound :
        (addr : ℕ) (b : Board uart.Port) → HoldsBytes b → IsByteRead (bus_read uart rom addr b)
    unfolding bus_read
    read_sound addr b h =
        if_both IsByteRead _ (All-get_or _ b.ram addr 0 h.ram_bytes (omega arith), h)
          (if_both IsByteRead (between 0x2000 0x2001 addr)
            (if_both IsByteRead (addr == 0x2000) (status-lt (uart.rx_ready b.port), h)
              (
                port_laws.rx-lt b.port h.port_sound,
                record {
                  ram_bytes = h.ram_bytes;
                  port_sound = port_laws.rx-IsSound b.port h.port_sound;
                },
              ))
            (if_both IsByteRead _ (rom_bytes (addr - 0xe000), h) (zero_byte, h)))

    write_sound :
        (addr v : ℕ) (b : Board uart.Port)
        → v < 256
        → HoldsBytes b
        → HoldsBytes (bus_write uart rom addr v b)
    unfolding bus_write
    write_sound addr v b hv h =
        if_both HoldsBytes _
          (record { ram_bytes = All-set _ b.ram addr v h.ram_bytes hv; port_sound = h.port_sound })
          (if_both HoldsBytes _ sent (if_both HoldsBytes _ sent h))
      where
        sent : HoldsBytes (record b { port = uart.tx v b.port })
        sent = record {
          ram_bytes = h.ram_bytes;
          port_sound = port_laws.tx-IsSound v b.port hv h.port_sound;
        }

    pub monitor_laws : BusLaws (monitor_bus uart rom)
    monitor_laws = record {
      IsSound = HoldsBytes;
      read-lt = λ addr b h. (read_sound addr b h).0;
      read-IsSound = λ addr b h. (read_sound addr b h).1;
      write-IsSound = write_sound;
    }

    pub monitor_sound : (b : Board uart.Port) → HoldsBytes b → monitor_laws.IsSound b
    unfolding monitor_laws
    monitor_sound b h = h

    -- A change of the port that keeps it sound keeps the board sound.
    pub with_port :
        (f : uart.Port → uart.Port)
        → ((p : uart.Port) → port_laws.IsSound p → port_laws.IsSound (f p))
        → (b : Board uart.Port) → monitor_laws.IsSound b
        → monitor_laws.IsSound (record b { port = f b.port })
    unfolding monitor_laws
    with_port f keeps b h = record {
      ram_bytes = h.ram_bytes;
      port_sound = keeps b.port h.port_sound;
    }

module _ (uart : Uart) (rom : ℕ → ℕ) where
  abbrev pub HasFullRam : Board uart.Port → Type 0
  HasFullRam b = length b.ram ≡ 1024

  -- A read below $0400.
  pub read_low :
      (addr : ℕ) (b : Board uart.Port)
      → addr < 0x0400
      → bus_read uart rom addr b ≡ (get_or b.ram addr 0, b)
  unfolding bus_read
  read_low addr b h = rw (below_0x0400 addr h) refl

  write_low :
      (addr v : ℕ) (b : Board uart.Port)
      → addr < 0x0400
      → bus_write uart rom addr v b ≡ record b { ram = set b.ram addr v }
  unfolding bus_write
  write_low addr v b h = rw (below_0x0400 addr h) refl

  write-HasFullRam :
      (addr v : ℕ) (b : Board uart.Port) → HasFullRam b → HasFullRam (bus_write uart rom addr v b)
  unfolding bus_write
  write-HasFullRam addr v b h =
      if_both HasFullRam (ltb addr 0x400) {x = record b { ram = set b.ram addr v }}
        (length-set b.ram addr v ∙ h)
        (if_both HasFullRam (addr == 0x2001) {x = sent} h
          (if_both HasFullRam (addr == 0x3000) {x = sent} {y = b} h h))
    where
      sent : Board uart.Port
      sent = record b { port = uart.tx v b.port }

  read-ram : (addr : ℕ) (b : Board uart.Port) → (bus_read uart rom addr b).1.ram ≡ b.ram
  unfolding bus_read
  read-ram addr b = if_both Keeps _ refl (
      if_both Keeps (between 0x2000 0x2001 addr) (if_both Keeps (addr == 0x2000) refl refl)
        (if_both Keeps _ refl refl))
    where
      Keeps : ℕ × Board uart.Port → Type 0
      Keeps t = t.1.ram ≡ b.ram

  pub monitor_ram_laws : RamLaws (monitor_bus uart rom)
  monitor_ram_laws = record {
    HasRam = HasFullRam;
    write-HasRam = write-HasFullRam;
    read_pure = λ addr b h. rw (read_low addr b h) refl;
    read-write_self = λ addr v b h hr.
        rw (write_low addr v b hr, read_low addr _ hr)
          (get_or-set_self b.ram addr v 0 (omega arith));
    read-write_ne = λ addr other v b ha ho ne.
        rw (write_low addr v b ha, read_low other _ ho, read_low other b ho)
          (get_or-set_ne b.ram addr other v 0 ne);
    read_keeps =
        λ addr other b ho. rw (read_low other _ ho, read_low other b ho, read-ram addr b) refl;
  }

  pub monitor_ram : (b : Board uart.Port) → HasFullRam b → monitor_ram_laws.HasRam b
  unfolding monitor_ram_laws
  monitor_ram b h = h
