-- ===== src/Led.antt =====
-- avr/led.h and avr/led.c: boot stages and faults, shown on one LED or on several.
pub mod State
pub mod Sequencer
pub mod Driver
pub mod Trace
pub mod Patterns
pub mod Faults
pub mod Limits
pub mod Multi
pub mod Marks
pub mod Names
