-- ===== src/Cpu.antt =====
-- The 6502 core, avr/sage6502.c.
pub mod Regs
pub mod Tables
pub mod Alu
pub mod Core
pub mod Exec
pub mod Step
pub mod Valid
pub mod Ensures
pub mod Safety
pub mod Simulation
pub mod Status
pub mod Arithmetic
pub mod Decimal
pub mod Stack
pub mod Interrupts
pub mod Running
pub mod Opcodes
pub mod Operands
pub mod Addressing
pub mod Branches
