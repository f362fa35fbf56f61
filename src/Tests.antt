-- ===== src/Tests.antt =====
-- Runs of the models on small inputs, and the theorems applied to them.
mod Processor
mod Subroutines
mod Peripherals
mod Serial
mod Programs
mod Drivers
mod Modes
mod Machines
mod Sessions
