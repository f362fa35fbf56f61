-- ===== src/Monitor.antt =====
-- avr/bus.c: the memory map of the monitor board, 1 KiB of RAM, the UART at $2000-$2001 and the
-- 8 KiB ROM at $E000. The ROM's bytes, generated in avr/rom.inc and avr/rom_host.c, are a parameter.
pub mod Laws
pub mod Plain
pub mod Simulation
use sage_apple.Base.{
  ℕ, ◌+◌, ◌-◌, Bool, true, List, get_or, set, bit_or, ltb, leb, between, ◌==◌, if◌then◌else◌,
}
use sage_apple.Bus.{Bus}
use sage_apple.Uart.{Uart}

pub record Board (P : Type 0) : Type 0 where
  pub ram : List ℕ
  pub port : P

module _ (uart : Uart) (monrom : ℕ → ℕ) where
  open uart use {Port, rx_ready, rx, tx}

  -- `uart_tx_ready` always is 1.
  unfoldable pub bus_read : ℕ → Board Port → ℕ × Board Port
  bus_read addr b =
      if ltb addr 0x0400
      then (get_or b.ram addr 0, b)
      else if between 0x2000 0x2001 addr
      then (if addr == 0x2000
          then (bit_or (if rx_ready b.port then 0x01 else 0x00) 0x02, b)
          else (let (c, port) = rx b.port in (c, record b { port = port })))
      else if leb 0xe000 addr
      then (monrom (addr - 0xe000), b)
      else (0x00, b)

  unfoldable pub bus_write : ℕ → ℕ → Board Port → Board Port
  bus_write addr v b =
      if ltb addr 0x400
      then record b { ram = set b.ram addr v }
      else if addr == 0x2001
      then record b { port = tx v b.port }
      else if addr == 0x3000
      then record b { port = tx v b.port }
      else b

  abbrev pub monitor_bus : Bus
  monitor_bus = record { State = Board Port; read = bus_read; write = bus_write }
