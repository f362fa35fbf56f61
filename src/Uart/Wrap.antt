-- ===== src/Uart/Wrap.antt =====
-- avr/host_uart.c:18-25: what a long string does to the FIFO.
use sage_apple.Base.{
  ℕ, ◌+◌, ◌-◌, ◌%◌, ◌<◌, ◌≡◌, refl, ◌∙◌, arith, List, [], ◌∷◌, length, set, u8, u16,
}
use sage_apple.Uart.Ring.{Ring, rxcap, hu_feed}

-- how many bytes wait in the FIFO
abbrev pub waiting : Ring → ℕ
waiting r = (r.tail + rxcap - r.head) % rxcap

fed :
    (s : List ℕ) (r : Ring)
    → r.tail < rxcap
    → ((hu_feed s r).tail ≡ (r.tail + length s) % rxcap) × ((hu_feed s r).head ≡ r.head)
unfolding hu_feed
fed [] r h = (omega arith, refl)
fed (c ∷ s) r h =
    let later =
      fed s (record r { buf = set r.buf r.tail (u8 c); tail = u16 ((r.tail + 1) % rxcap) })
        (omega arith) in
    (later.0 ∙ omega arith, later.1)

-- With the indices of the FIFO of 512 bytes inside its buffer, a string fed to it leaves as many
-- bytes waiting as waited before and the string has, modulo 512, so that a string of 512 bytes fed
-- to an empty FIFO is lost.
pub waiting-hu_feed :
    (s : List ℕ) (r : Ring)
    → r.head < rxcap
    → r.tail < rxcap
    → waiting (hu_feed s r) ≡ (waiting r + length s) % rxcap
waiting-hu_feed s r hh ht = omega (arith, fed s r ht)
