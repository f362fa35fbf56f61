-- ===== src/Bus.antt =====
-- The memory interface of the CPU core, `bus_read` and `bus_write` of avr/sage6502.c:46-47. Two
-- files implement it, avr/bus.c (module Monitor) and avr/bus_apple2.c (module Apple).
use sage_apple.Base.{ℕ, ◌<◌, ◌≡◌, ◌≢◌}

-- A read may change the state: reading a device consumes a byte or throws a switch.
pub record Bus : Type 1 where
  pub State : Type 0
  pub read : ℕ → State → ℕ × State
  pub write : ℕ → ℕ → State → State

-- What the core's well-formedness needs of a bus: `uint8_t` results in the states that satisfy an
-- invariant of the bus, which reads and writes of bytes keep.
pub record BusLaws (bus : Bus) : Type 1 where
  pub IsSound : bus.State → Type 0
  pub read-lt : (addr : ℕ) (s : bus.State) → IsSound s → (bus.read addr s).0 < 256
  pub read-IsSound : (addr : ℕ) (s : bus.State) → IsSound s → IsSound (bus.read addr s).1
  pub write-IsSound :
      (addr v : ℕ) (s : bus.State) → v < 256 → IsSound s → IsSound (bus.write addr v s)

-- What the stack discipline needs of a bus: below $0400 there is plain memory, which no read
-- changes and which a write there changes in its own cell alone; a read there changes nothing.
pub record RamLaws (bus : Bus) : Type 1 where
  pub HasRam : bus.State → Type 0
  pub write-HasRam : (addr v : ℕ) (s : bus.State) → HasRam s → HasRam (bus.write addr v s)
  pub read_pure : (addr : ℕ) (s : bus.State) → addr < 0x400 → (bus.read addr s).1 ≡ s
  pub read-write_self :
      (addr v : ℕ) (s : bus.State)
      → HasRam s
      → addr < 0x400
      → (bus.read addr (bus.write addr v s)).0 ≡ v
  pub read-write_ne :
      (addr other v : ℕ) (s : bus.State)
      → addr < 0x400
      → other < 0x400
      → addr ≢ other
      → (bus.read other (bus.write addr v s)).0 ≡ (bus.read other s).0
  pub read_keeps :
      (addr other : ℕ) (s : bus.State)
      → other < 0x400
      → (bus.read other (bus.read addr s).1).0 ≡ (bus.read other s).0

-- what a read gives, where it changes nothing
abbrev pub peek : (bus : Bus) → bus.State → ℕ → ℕ
peek bus s addr = (bus.read addr s).0

-- A bus as plain memory: in the states that satisfy an invariant, which writes keep, reads give bytes
-- and change nothing.
pub record PlainLaws (bus : Bus) : Type 1 where
  pub IsPlain : bus.State → Type 0
  pub read_pure : (addr : ℕ) (s : bus.State) → IsPlain s → (bus.read addr s).1 ≡ s
  pub peek-lt : (addr : ℕ) (s : bus.State) → IsPlain s → peek bus s addr < 256
  pub write-IsPlain :
      (addr v : ℕ) (s : bus.State) → v < 256 → IsPlain s → IsPlain (bus.write addr v s)
