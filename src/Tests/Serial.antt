-- ===== src/Tests/Serial.antt =====
-- The host's FIFO on a small state that runs around the end of its buffer.
use sage_apple.Base.{
  ℕ, ◌≡◌, ◌++◌, arith, [], ◌∷◌, replicate, length, length-replicate, ltb, if◌then◌else◌,
}
use sage_apple.Uart.Line.{receive, ready}
use sage_apple.Uart.Ring.{Ring, host_uart_feed, host_uart_rx, host_uart_rx_ready}
use sage_apple.Uart.Fifo.{IsRing, line_of, line_of-host_uart_feed, host_uart_rx-receive}

abbrev test_ring : Ring
test_ring = record { buf = replicate 64 5; head = 62; tail = 1; sent = [] }

test_ring-IsRing : IsRing test_ring
test_ring-IsRing = record {
  full_size = length-replicate {A = ℕ} 64 5;
  head_inside = omega arith;
  tail_inside = omega arith;
}

line_of-host_uart_feed_example : line_of (host_uart_feed 7 test_ring) ≡ (
    if ltb (length (line_of test_ring).waiting) 63
    then record { waiting = (line_of test_ring).waiting ++ 7 ∷ []; sent = [] }
    else line_of test_ring)
line_of-host_uart_feed_example = line_of-host_uart_feed 7 test_ring test_ring-IsRing

host_uart_rx-receive_example :
    (host_uart_rx_ready test_ring ≡ ready (line_of test_ring))
    × (((host_uart_rx test_ring).0, line_of (host_uart_rx test_ring).1)
        ≡ receive (line_of test_ring))
host_uart_rx-receive_example = host_uart_rx-receive test_ring test_ring-IsRing
