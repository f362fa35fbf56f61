-- ===== src/Host.antt =====
-- avr/apple2_host_main.c: the host harness of the Apple profile. Its static variables `rx_fifo` to
-- `tx_length` are the port of the board (Ring), and what it prints is not modelled.
pub mod Checks
pub mod Main
pub mod Passes
pub mod Steps
pub mod Session
pub mod Runs
pub mod Endurance
pub mod Terminal
use sage_apple.Base.{ℕ, zero, suc, Bool, if◌then◌else◌}
use sage_apple.Bus.{Bus}
use sage_apple.Uart.{Uart}
use sage_apple.Uart.Ring.{Ring, host_uart_rx_ready, host_uart_rx, host_uart_tx}
use sage_apple.Cpu.Step.{Machine, cpu_step, cpu_halted}

abbrev pub ring_uart : Uart
ring_uart = record {
  Port = Ring;
  rx_ready = host_uart_rx_ready;
  rx = host_uart_rx;
  tx = host_uart_tx;
}

-- The loop of `run_steps`, with `count` rounds left.
unfoldable pub run_steps : (bus : Bus) → ℕ → Machine bus.State → Machine bus.State
unfolding cpu_halted
run_steps bus zero m = m
run_steps bus (suc count) m =
    let rest = run_steps bus count (cpu_step bus m) in if cpu_halted m then m else rest

-- The result of `check`; its line of output is left out.
unfoldable pub check : Bool → ℕ
check condition = if condition then 0 else 1
