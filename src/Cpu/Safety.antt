-- ===== src/Cpu/Safety.antt =====
-- Every transformer of avr/sage6502.c keeps the core valid.
pub mod Access
pub mod Pieces
pub mod Operations
pub mod Machine
