-- ===== src/Rom/Bytes.antt =====
-- The ROM images hold bytes, as the buses' laws ask of a ROM.
use sage_apple.Base.{ℕ, ◌-◌, ◌<◌, arith, if_both, All-get_or, ltb, leb, between, ◌==◌}
use sage_apple.Rom.Apple.{apple2rom, console, handlers, vectors}
use sage_apple.Rom.Monitor.{monrom, code_low, code_mid, code_high}

zero_byte : 0 < 256
zero_byte = omega arith

abbrev IsByte : ℕ → Type 0
IsByte n = n < 256

pub apple2rom-lt : (offset : ℕ) → apple2rom offset < 256
unfolding apple2rom
apple2rom-lt offset =
    if_both IsByte (ltb offset 0xf0) (All-get_or IsByte console offset 0 (omega arith) zero_byte) (
      if_both IsByte (between 0x2a62 0x2af8 offset)
        (All-get_or IsByte handlers (offset - 0x2a62) 0 (omega arith) zero_byte)
        (if_both IsByte (leb 0x2ffa offset)
          (All-get_or IsByte vectors (offset - 0x2ffa) 0 (omega arith) zero_byte) zero_byte))

pub monrom-lt : (offset : ℕ) → monrom offset < 256
unfolding monrom
monrom-lt offset =
    if_both IsByte (ltb offset 375) (All-get_or IsByte code_low offset 0 (omega arith) zero_byte) (
      if_both IsByte (ltb offset 750)
        (All-get_or IsByte code_mid (offset - 375) 0 (omega arith) zero_byte)
        (if_both IsByte (ltb offset 1092)
          (All-get_or IsByte code_high (offset - 750) 0 (omega arith) zero_byte)
          (if_both IsByte (offset == 0x1ffd) (omega arith) zero_byte)))
