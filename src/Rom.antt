-- ===== src/Rom.antt =====
-- The ROM images that the buses read. The repository's tools generate their files, and each has one
-- copy for the chip's program memory and one for the host.
pub mod Apple
pub mod Monitor
pub mod Bytes
pub mod Console
pub mod Hex
