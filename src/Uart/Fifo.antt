-- ===== src/Uart/Fifo.antt =====
-- The FIFO of avr/apple2_host_main.c is the abstract line, up to its capacity.
use sage_apple.Base.{
  ℕ, ◌+◌, ◌%◌, ◌<◌, ◌≡◌, ◌≢◌, refl, ap, ◌∙◌, sym, arith, true, false, List, [], ◌∷◌, ◌++◌, length,
  length-set, ltb, ◌==◌, u8, if◌then◌else◌, if_both, Bool-cases, inl, inr, ==→eq,
}
use sage_apple.Uart.Line.{Line, receive, ready}
use sage_apple.Uart.Circular.{next, distance, held, length-held, held-set, held_nothing, held_first}
use sage_apple.Uart.Ring.{Ring, host_rx_capacity, host_uart_rx_ready, host_uart_rx, host_uart_feed}

pub record IsRing (r : Ring) : Type 0 where
  pub full_size : length r.buf ≡ host_rx_capacity
  pub head_inside : r.head < host_rx_capacity
  pub tail_inside : r.tail < host_rx_capacity

-- The line that a FIFO stands for.
abbrev pub line_of : Ring → Line
line_of r = record { waiting = held host_rx_capacity r.head r.tail r.buf; sent = r.sent }

-- the index that the code computes
next_index :
    (i : ℕ) → i < host_rx_capacity → u8 ((i + 1) % host_rx_capacity) ≡ next host_rx_capacity i
next_index i h = ground arith

-- A byte fed to the host's FIFO, with its indices inside its buffer, is appended to its line when
-- fewer than 63 bytes wait, and is dropped otherwise.
pub line_of-host_uart_feed :
    (v : ℕ) (r : Ring)
    → IsRing r
    → line_of (host_uart_feed v r) ≡ (
        if ltb (length (line_of r).waiting) 63
        then record { waiting = (line_of r).waiting ++ v ∷ []; sent = r.sent }
        else line_of r)
unfolding host_uart_feed
line_of-host_uart_feed v r s = elim (Bool-cases (next host_rx_capacity r.tail == r.head)) [
  | inl h ↦
      rw
        (
          next_index r.tail s.tail_inside,
          h,
          length-held host_rx_capacity r.head r.tail r.buf,
          full h,
        )
        refl
  | inr h ↦
      rw
        (
          next_index r.tail s.tail_inside,
          h,
          length-held host_rx_capacity r.head r.tail r.buf,
          room h,
        )
        (ap (λ (bs : List ℕ). record { waiting = bs; sent = r.sent })
          (held-set host_rx_capacity r.head r.tail v r.buf s.head_inside s.tail_inside
            (omega (arith, s.full_size, s.tail_inside)) (apart h)))
]
  where
    full :
        (next host_rx_capacity r.tail == r.head) ≡ true
        → ltb (distance host_rx_capacity r.head r.tail) 63 ≡ false
    full h = ground arith

    room :
        (next host_rx_capacity r.tail == r.head) ≡ false
        → ltb (distance host_rx_capacity r.head r.tail) 63 ≡ true
    room h = ground arith

    apart : (next host_rx_capacity r.tail == r.head) ≡ false → next host_rx_capacity r.tail ≢ r.head
    apart h = ground arith

-- Reading the host's FIFO, with its indices inside its buffer, gives what the abstract line that
-- it stands for gives, the oldest byte or 0, and leaves the line's rest; it is ready when the line
-- is.
pub host_uart_rx-receive :
    (r : Ring)
    → IsRing r
    → (host_uart_rx_ready r ≡ ready (line_of r))
      × (((host_uart_rx r).0, line_of (host_uart_rx r).1) ≡ receive (line_of r))
unfolding host_uart_rx host_uart_rx_ready
host_uart_rx-receive r s = elim (Bool-cases (r.head == r.tail)) [
  | inl h ↦ rw (h, nothing h) (refl, refl)
  | inr h ↦
      rw
        (
          h,
          next_index r.head s.head_inside,
          held_first host_rx_capacity r.head r.tail r.buf s.head_inside s.tail_inside (apart h),
        )
        (refl, refl)
]
  where
    nothing : (r.head == r.tail) ≡ true → held host_rx_capacity r.head r.tail r.buf ≡ []
    nothing h =
        ap (λ (t : ℕ). held host_rx_capacity r.head t r.buf) (sym (==→eq r.head r.tail h))
        ∙ held_nothing host_rx_capacity r.head r.buf

    apart : (r.head == r.tail) ≡ false → r.head ≢ r.tail
    apart h = ground arith

-- Feeding and reading the host's FIFO keep its indices inside its buffer of 64 bytes.
pub host_uart-IsRing :
    (v : ℕ) (r : Ring) → IsRing r → IsRing (host_uart_feed v r) × IsRing (host_uart_rx r).1
unfolding host_uart_feed host_uart_rx
host_uart-IsRing v r s = (
  if_both IsRing (u8 ((r.tail + 1) % 64) == r.head) s (record {
    full_size = length-set r.buf r.tail v ∙ s.full_size;
    head_inside = s.head_inside;
    tail_inside = omega arith;
  }),
  if_both (λ (t : ℕ × Ring). IsRing t.1) (r.head == r.tail) s
      (record { full_size = s.full_size; head_inside = omega arith; tail_inside = s.tail_inside }),
)
