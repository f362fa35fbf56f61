-- ===== src/Cpu/Safety/Access.antt =====
-- The memory access, the stack helpers and `fetch` keep the core valid.
use sage_apple.Base.{ℕ, ◌+◌, ◌/◌, ◌<◌, arith, Bool, false, bit_and}
use sage_apple.Bus.{Bus, BusLaws}
use sage_apple.Cpu.Regs.{Regs}
use sage_apple.Cpu.Core.{
  ◌>>=◌, ret, word, bus_read, bus_write, push, pull, push16, pull16, next_byte, next_word,
  read_word, indexed, fetch,
}
use sage_apple.Cpu.Valid.{IsValid, low_byte-lt, word-lt, advance-IsValid}
use sage_apple.Cpu.Ensures.{
  Ensures, Done, Ensures-bind, Ensures-seq, Ensures-ret, Ensures-regs, Ensures-modify,
  Ensures-switch, Ensures-weaken,
}

abbrev pub Byte : ℕ → Type 0
Byte v = v < 256

abbrev pub Word : ℕ → Type 0
Word v = v < 65536

set_sp-IsValid : (n : ℕ) (r : Regs) → IsValid r → IsValid (record r { sp = bit_and n 0xff })
set_sp-IsValid n r h = ground (arith, low_byte-lt n)

set_crossed-IsValid : (b : Bool) (r : Regs) → IsValid r → IsValid (record r { fetch_crossed = b })
set_crossed-IsValid b r h = ground arith

module _ {bus : Bus} (laws : BusLaws bus) where
  pub read-Ensures : (addr : ℕ) → Ensures laws Byte (bus_read bus addr)
  unfolding bus_read
  read-Ensures addr = record {
    keeps = λ c h. record { valid = h.valid; sound = laws.read-IsSound addr c.mem h.sound };
    gives = λ c h. laws.read-lt addr c.mem h.sound;
  }

  pub write-Ensures : (addr v : ℕ) → v < 256 → Ensures laws (Done laws) (bus_write bus addr v)
  unfolding bus_write
  write-Ensures addr v b = record {
    keeps = λ c h. record { valid = h.valid; sound = laws.write-IsSound addr v c.mem b h.sound };
    gives = λ c h. tt;
  }

  pub push-Ensures : (v : ℕ) → v < 256 → Ensures laws (Done laws) (push bus v)
  unfolding push
  push-Ensures v b =
      Ensures-bind laws (Ensures-regs laws) λ r h.
        Ensures-seq laws (write-Ensures _ v b) (Ensures-modify laws (λ r. set_sp-IsValid _ r))

  pub pull-Ensures : Ensures laws Byte (pull bus)
  unfolding pull
  pull-Ensures =
      Ensures-seq laws (Ensures-modify laws (λ r. set_sp-IsValid _ r))
        (Ensures-bind laws (Ensures-regs laws) λ r h. read-Ensures _)

  pub push16-Ensures : (v : ℕ) → v < 65536 → Ensures laws (Done laws) (push16 bus v)
  unfolding push16
  push16-Ensures v b =
      Ensures-seq laws (push-Ensures (v / 256) (omega arith)) (push-Ensures _ (low_byte-lt v))

  pub pull16-Ensures : Ensures laws Word (pull16 bus)
  unfolding pull16
  pull16-Ensures =
      Ensures-bind laws pull-Ensures λ lo hl.
        Ensures-bind laws pull-Ensures λ hi hh. Ensures-ret laws (word hi lo) (word-lt hi lo)

  pub next_byte-Ensures : Ensures laws Byte (next_byte bus)
  unfolding next_byte
  next_byte-Ensures = Ensures-bind laws (Ensures-regs laws) λ r h.
      Ensures-bind laws (read-Ensures r.pc)
        λ b hb. Ensures-seq laws (Ensures-modify laws (advance-IsValid 1)) (Ensures-ret laws b hb)

  pub next_word-Ensures : Ensures laws Word (next_word bus)
  unfolding next_word
  next_word-Ensures = Ensures-bind laws (Ensures-regs laws) λ r h.
      Ensures-bind laws (read-Ensures _) λ lo hl. Ensures-bind laws (read-Ensures _) λ hi hh.
        Ensures-seq laws (Ensures-modify laws (advance-IsValid 2))
          (Ensures-ret laws (word hi lo) (word-lt hi lo))

  pub read_word-Ensures : (lo_addr hi_addr : ℕ) → Ensures laws Word (read_word bus lo_addr hi_addr)
  unfolding read_word
  read_word-Ensures lo_addr hi_addr = Ensures-bind laws (read-Ensures lo_addr) λ lo hl.
      Ensures-bind laws (read-Ensures hi_addr)
        λ hi hh. Ensures-ret laws (word hi lo) (word-lt hi lo)

  pub indexed-Ensures : (base index : ℕ) → Ensures laws Word (indexed bus base index)
  unfolding indexed
  indexed-Ensures base index =
      Ensures-seq laws (Ensures-modify laws (λ r. set_crossed-IsValid _ r))
        (Ensures-ret laws _ (omega arith))

  zero_page : (n : ℕ) → bit_and n 0xff < 65536
  zero_page n = omega (arith, low_byte-lt n)

  pub fetch-Ensures : (mode : ℕ) → Ensures laws Word (fetch bus mode)
  unfolding fetch
  fetch-Ensures mode = Ensures-seq laws (Ensures-modify laws (set_crossed-IsValid false)) (
      Ensures-bind laws (Ensures-regs laws) λ r h.
        Ensures-switch laws mode _
          (
            byte_word,
            (
              index_word _,
              (
                index_word _,
                (
                  next_word-Ensures,
                  (
                    (Ensures-bind laws next_word-Ensures λ base hb. indexed-Ensures base r.x),
                    (
                      (Ensures-bind laws next_word-Ensures λ base hb. indexed-Ensures base r.y),
                      (
                        (Ensures-bind laws next_byte-Ensures λ zp hz. read_word-Ensures _ _),
                        (
                          (Ensures-bind laws next_byte-Ensures λ zp hz.
                              Ensures-bind laws (read_word-Ensures zp _)
                                λ base hb. indexed-Ensures base r.y),
                          (
                            (Ensures-bind laws next_word-Ensures λ ptr hp. read_word-Ensures ptr _),
                            tt,
                          ),
                        ),
                      ),
                    ),
                  ),
                ),
              ),
            ),
          )
          (Ensures-ret laws 0 (omega arith)))
    where
      byte_word : Ensures laws Word (next_byte bus)
      byte_word = Ensures-weaken laws (λ v h. omega arith) next_byte-Ensures

      index_word : (i : ℕ) → Ensures laws Word (next_byte bus >>= λ zp. ret (bit_and (zp + i) 0xff))
      index_word i = Ensures-bind laws next_byte-Ensures λ zp hz. Ensures-ret laws _ (zero_page _)
