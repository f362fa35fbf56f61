-- ===== src/Uart/Ring.antt =====
-- The host FIFOs: avr/apple2_host_main.c:15-50 (64 bytes, a full FIFO drops the byte) and
-- avr/host_uart.c:11-35 (512 bytes, no test for a full FIFO).
use sage_apple.Base.{
  ℕ, ◌+◌, ◌%◌, Bool, not, List, [], ◌∷◌, ◌++◌, length, get_or, set, ltb, u8, u16, ◌==◌,
  if◌then◌else◌,
}

-- `rx_fifo`, `rx_head`, `rx_tail`, and `tx_bytes` up to `tx_length`
pub record Ring : Type 0 where
  pub buf : List ℕ
  pub head : ℕ
  pub tail : ℕ
  pub sent : List ℕ

abbrev pub host_rx_capacity : ℕ
host_rx_capacity = 64

abbrev pub host_tx_capacity : ℕ
host_tx_capacity = 256

unfoldable pub host_uart_rx_ready : Ring → Bool
host_uart_rx_ready r = not (r.head == r.tail)

unfoldable pub host_uart_rx : Ring → ℕ × Ring
host_uart_rx r =
    if r.head == r.tail
    then (0, r)
    else (get_or r.buf r.head 0, record r { head = u8 ((r.head + 1) % host_rx_capacity) })

unfoldable pub host_uart_tx : ℕ → Ring → Ring
host_uart_tx value r =
    if ltb (length r.sent) host_tx_capacity then record r { sent = r.sent ++ value ∷ [] } else r

unfoldable pub host_uart_feed : ℕ → Ring → Ring
host_uart_feed value r =
    let next = u8 ((r.tail + 1) % host_rx_capacity) in
    if next == r.head then r else record r { buf = set r.buf r.tail value; tail = next }

abbrev pub rxcap : ℕ
rxcap = 512

-- `hu_feed` over the bytes of its string
unfoldable pub hu_feed : List ℕ → Ring → Ring
hu_feed [] r = r
hu_feed (c ∷ s) r =
    hu_feed s (record r { buf = set r.buf r.tail (u8 c); tail = u16 ((r.tail + 1) % rxcap) })

unfoldable pub hu_rx_ready : Ring → Bool
hu_rx_ready r = not (r.tail == r.head)

unfoldable pub hu_rx : Ring → ℕ × Ring
hu_rx r =
    if r.head == r.tail
    then (0, r)
    else (get_or r.buf r.head 0, record r { head = u16 ((r.head + 1) % rxcap) })

-- `hu_tx`, with an output set
unfoldable pub hu_tx : ℕ → Ring → Ring
hu_tx c r = record r { sent = r.sent ++ c ∷ [] }
