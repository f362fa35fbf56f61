-- ===== src/Reference.antt =====
-- A reference machine, which the core of avr/sage6502.c is compared with: the documented 6502 with
-- its flags as truth values, its arithmetic as sums and remainders, and memory that reads leave.
pub mod State
pub mod Values
pub mod Registers
pub mod Execute
pub mod Stack
pub mod Status
pub mod Handler
pub mod Implied
pub mod Memory
pub mod Dispatch
pub mod Step
pub mod Machine
pub mod Interrupts
