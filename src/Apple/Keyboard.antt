-- ===== src/Apple/Keyboard.antt =====
-- avr/bus_apple2.c:68-111 and 240-249: the keyboard, which is fed from the UART.
use sage_apple.Base.{ℕ, ◌+◌, ◌-◌, not, bit_and, bit_or, u8, between, ◌==◌, ◌&&◌, if◌then◌else◌}
use sage_apple.Uart.{Uart}
use sage_apple.Apple.State.{Keys}

-- `value - 0x20` for a small letter
unfoldable pub to_upper : ℕ → ℕ
to_upper value = if between b'a' b'z' value then u8 (value - 0x20) else value

unfoldable pub apple_key_from_uart : ℕ → ℕ
unfolding to_upper
apple_key_from_uart byte =
    let value = to_upper byte in
    if between b'A' b'Z' value
    then u8 (bit_or 0xc0 (value - b'A' + 1))
    else if between b'0' b'9' value
    then u8 (bit_or 0xb0 (value - b'0'))
    else if value == 0x20
    then 0xa0
    else if value == 0x0d
    then 0x8d
    else if value == 0x0a
    then 0x8d
    else u8 (bit_or value 0x80)

module _ (uart : Uart) where
  open uart use {Port, rx_ready, rx}

  unfoldable pub keyboard_poll_uart : Keys × Port → Keys × Port
  keyboard_poll_uart (k, port) =
      if k.keyboard_strobe == 0 && k.keyboard_latch_valid == 0 && rx_ready port
      then (let (byte, port') = rx port in
          (
            record {
              keyboard_latch = apple_key_from_uart byte;
              keyboard_strobe = 1;
              keyboard_latch_valid = 1;
            },
            port',
          ))
      else (k, port)

  -- the branch that both tests of the strobe take
  unfoldable pub acknowledge : Keys → ℕ × Keys
  acknowledge k =
      if k.keyboard_strobe == 0
      then (0x00, k)
      else (0x80, record k { keyboard_strobe = 0; keyboard_latch = bit_and k.keyboard_latch 0x7f })

  unfoldable pub keyboard_read_strobe : Keys × Port → ℕ × Keys × Port
  unfolding acknowledge keyboard_poll_uart
  keyboard_read_strobe (k, port) =
      if not (k.keyboard_strobe == 0)
      then (let (v, k') = acknowledge k in (v, k', port))
      else if not (k.keyboard_latch_valid == 0)
      then (0x00, k, port)
      else (let (k', port') = keyboard_poll_uart (k, port) in
          let (v, k'') = acknowledge k' in (v, k'', port'))

-- the read of $C000 in `bus_read`
unfoldable pub keyboard_read_data : Keys → ℕ × Keys
keyboard_read_data k =
    if k.keyboard_strobe == 0 && not (k.keyboard_latch_valid == 0)
    then (bit_and k.keyboard_latch 0x7f, record k { keyboard_latch_valid = 0 })
    else (k.keyboard_latch, k)
