-- ===== src/Led/Names.antt =====
-- avr/led.c:327-337: the names of the faults, as their bytes.
use sage_apple.Base.{ℕ, List, [], ◌∷◌, switch}
use sage_apple.Led.State.{
  led_fault_none, led_fault_brownout, led_fault_watchdog, led_fault_external,
  led_fault_uart_overrun, led_fault_uart_framing,
}

abbrev unknown : List ℕ
unknown = b'u' ∷ b'n' ∷ b'k' ∷ b'n' ∷ b'o' ∷ b'w' ∷ b'n' ∷ []

unfoldable pub led_fault_name : ℕ → List ℕ
unfolding switch
led_fault_name fault =
    switch fault
      ((led_fault_none, b'n' ∷ b'o' ∷ b'n' ∷ b'e' ∷ [])
        ∷ (led_fault_brownout, b'b' ∷ b'r' ∷ b'o' ∷ b'w' ∷ b'n' ∷ b'o' ∷ b'u' ∷ b't' ∷ [])
        ∷ (led_fault_watchdog, b'w' ∷ b'a' ∷ b't' ∷ b'c' ∷ b'h' ∷ b'd' ∷ b'o' ∷ b'g' ∷ [])
        ∷ (
          led_fault_external,
          b'e' ∷ b'x' ∷ b't' ∷ b'e' ∷ b'r' ∷ b'n' ∷ b'a' ∷ b'l' ∷ b'-' ∷ b'r' ∷ b'e' ∷ b's' ∷ b'e'
              ∷ b't' ∷ [],
        )
        ∷ (
          led_fault_uart_overrun,
          b'u' ∷ b'a' ∷ b'r' ∷ b't' ∷ b'-' ∷ b'o' ∷ b'v' ∷ b'e' ∷ b'r' ∷ b'r' ∷ b'u' ∷ b'n' ∷ [],
        )
        ∷ (
          led_fault_uart_framing,
          b'u' ∷ b'a' ∷ b'r' ∷ b't' ∷ b'-' ∷ b'f' ∷ b'r' ∷ b'a' ∷ b'm' ∷ b'i' ∷ b'n' ∷ b'g' ∷ [],
        )
        ∷ [])
      unknown
