-- ===== src/Uart/Replay.antt =====
-- The FIFO of avr/host_uart.c is the abstract line, as long as no string overruns its 512 bytes.
use sage_apple.Base.{
  ℕ, ◌+◌, ◌%◌, ◌<◌, ◌≡◌, ◌≢◌, refl, ap, ◌∙◌, sym, arith, true, false, List, [], ◌∷◌, ◌++◌, length,
  length-set, length-append, map, append-nil, append_assoc, set, ◌==◌, u8, u16, Bool-cases, inl,
  inr, ==→eq,
}
use sage_apple.Uart.Line.{Line, receive, ready}
use sage_apple.Uart.Circular.{next, distance, held, length-held, held-set, held_nothing, held_first}
use sage_apple.Uart.Ring.{Ring, rxcap, hu_feed, hu_rx_ready, hu_rx}

pub record IsFifo (r : Ring) : Type 0 where
  pub full_size : length r.buf ≡ rxcap
  pub head_inside : r.head < rxcap
  pub tail_inside : r.tail < rxcap

abbrev pub fifo_line : Ring → Line
fifo_line r = record { waiting = held rxcap r.head r.tail r.buf; sent = r.sent }

next_index : (i : ℕ) → i < rxcap → u16 ((i + 1) % rxcap) ≡ next rxcap i
next_index i h = ground arith

-- the state behind one character of `hu_feed`
abbrev fed : ℕ → Ring → Ring
fed c r = record r { buf = set r.buf r.tail (u8 c); tail = u16 ((r.tail + 1) % rxcap) }

fed-IsFifo : (c : ℕ) (r : Ring) → IsFifo r → IsFifo (fed c r)
fed-IsFifo c r s = record {
  full_size = length-set r.buf r.tail (u8 c) ∙ s.full_size;
  head_inside = s.head_inside;
  tail_inside = omega arith;
}

fed-waiting :
    (c : ℕ) (r : Ring)
    → IsFifo r
    → length (fifo_line r).waiting + 1 < rxcap
    → (fifo_line (fed c r)).waiting ≡ (fifo_line r).waiting ++ u8 c ∷ []
fed-waiting c r s room =
    ap (λ (t : ℕ). held rxcap r.head t (set r.buf r.tail (u8 c))) (next_index r.tail s.tail_inside)
    ∙ held-set rxcap r.head r.tail (u8 c) r.buf s.head_inside s.tail_inside
        (omega (arith, s.full_size, s.tail_inside)) apart
  where
    few : distance rxcap r.head r.tail + 1 < rxcap
    few = omega (arith, room, length-held rxcap r.head r.tail r.buf)

    apart : next rxcap r.tail ≢ r.head
    apart = ground (arith, few, s.head_inside, s.tail_inside)

-- A string fed to the FIFO, with its indices inside its buffer, is appended to its line, each
-- character cast to a byte, if fewer than 512 bytes then wait; the indices stay inside.
pub hu_feed-append :
    (s : List ℕ) (r : Ring)
    → IsFifo r
    → length (fifo_line r).waiting + length s < rxcap
    → IsFifo (hu_feed s r)
      × (fifo_line (hu_feed s r)
          ≡ record { waiting = (fifo_line r).waiting ++ map u8 s; sent = r.sent })
unfolding hu_feed
hu_feed-append [] r sound room = (
  sound,
  ap (λ (bs : List ℕ). record { waiting = bs; sent = r.sent })
      (sym (append-nil (fifo_line r).waiting)),
)
hu_feed-append (c ∷ s) r sound room =
    let rest = hu_feed-append s (fed c r) (fed-IsFifo c r sound) still in
    (
      rest.0,
      rest.1
          ∙ ap (λ (bs : List ℕ). record { waiting = bs; sent = r.sent })
              (ap (λ (bs : List ℕ). bs ++ map u8 s) one
                ∙ append_assoc (fifo_line r).waiting (u8 c ∷ []) (map u8 s)),
    )
  where
    one : (fifo_line (fed c r)).waiting ≡ (fifo_line r).waiting ++ u8 c ∷ []
    one = fed-waiting c r sound (omega (arith, room))

    still : length (fifo_line (fed c r)).waiting + length s < rxcap
    still = omega (arith, room, ap length one, length-append (fifo_line r).waiting (u8 c ∷ []))

-- Reading the FIFO, with its indices inside its buffer, gives what its line gives, the oldest byte
-- or 0, and leaves the line's rest; it is ready when the line is, and the indices stay inside.
pub hu_rx-receive :
    (r : Ring)
    → IsFifo r
    → (hu_rx_ready r ≡ ready (fifo_line r))
      × ((((hu_rx r).0, fifo_line (hu_rx r).1) ≡ receive (fifo_line r)) × IsFifo (hu_rx r).1)
unfolding hu_rx hu_rx_ready
hu_rx-receive r s = elim (Bool-cases (r.head == r.tail)) [
  | inl h ↦ rw (h, flipped h, nothing h) (refl, (refl, s))
  | inr h ↦
      rw
        (
          h,
          unequal h,
          next_index r.head s.head_inside,
          held_first rxcap r.head r.tail r.buf s.head_inside s.tail_inside (apart h),
        )
        (
          refl,
          (
            refl,
            record {
              full_size = s.full_size;
              head_inside = ground (arith, s.head_inside);
              tail_inside = s.tail_inside;
            },
          ),
        )
]
  where
    flipped : (r.head == r.tail) ≡ true → (r.tail == r.head) ≡ true
    flipped h = ground arith

    unequal : (r.head == r.tail) ≡ false → (r.tail == r.head) ≡ false
    unequal h = ground arith

    nothing : (r.head == r.tail) ≡ true → held rxcap r.head r.tail r.buf ≡ []
    nothing h =
        ap (λ (t : ℕ). held rxcap r.head t r.buf) (sym (==→eq r.head r.tail h))
        ∙ held_nothing rxcap r.head r.buf

    apart : (r.head == r.tail) ≡ false → r.head ≢ r.tail
    apart h = ground arith
