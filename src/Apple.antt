-- ===== src/Apple.antt =====
-- avr/bus_apple2.c: the memory map of the Apple II profile.
pub mod State
pub mod Keyboard
pub mod Video
pub mod Card
pub mod Map
pub mod Keys
pub mod Delivery
pub mod Switches
pub mod Banks
pub mod Overrun
pub mod Ram
pub mod Laws
pub mod Running
