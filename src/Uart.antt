-- ===== src/Uart.antt =====
-- The serial port behind the buses. On the board it is the hardware's; on the host it is a byte
-- FIFO, of which avr/apple2_host_main.c and avr/host_uart.c have one each.
pub mod Ring
pub mod Line
pub mod Circular
pub mod Fifo
pub mod Replay
pub mod Contents
pub mod Wrap
use sage_apple.Base.{ℕ, ◌<◌, Bool}

-- `uart_rx_ready`, `uart_rx` and `uart_tx` of avr/bus.c and avr/bus_apple2.c
pub record Uart : Type 1 where
  pub Port : Type 0
  pub rx_ready : Port → Bool
  pub rx : Port → ℕ × Port
  pub tx : ℕ → Port → Port

-- What the buses need of the port to be sound: the bytes that come from it are bytes.
pub record UartLaws (uart : Uart) : Type 1 where
  pub IsSound : uart.Port → Type 0
  pub rx-lt : (p : uart.Port) → IsSound p → (uart.rx p).0 < 256
  pub rx-IsSound : (p : uart.Port) → IsSound p → IsSound (uart.rx p).1
  pub tx-IsSound : (v : ℕ) (p : uart.Port) → v < 256 → IsSound p → IsSound (uart.tx v p)
