-- ===== src/Host/Passes.antt =====
-- The checks of avr/apple2_host_main.c, from any board.
use sage_apple.Base.{ℕ, true, ◌==◌, arith, ◌≡◌, refl, List, replicate, switch}
use sage_apple.Apple.State.{Board, bus_reset}
use sage_apple.Apple.Map.{bus_read, bus_write}
use sage_apple.Apple.Keyboard.{keyboard_read_strobe, keyboard_read_data, apple_key_from_uart}
use sage_apple.Apple.Card.{
  language_card_ram_size, language_card_read, language_card_write, language_card_switch,
}
use sage_apple.Apple.Video.{
  is_video_write, video_read, video_write, bus_video_state, bus_video_value,
}
use sage_apple.Uart.Ring.{Ring, host_uart_feed, host_uart_rx, host_uart_rx_ready}
use sage_apple.Host.Checks.{
  Checks, Run, ◌>>=◌, ◌>>◌, ◌and◌, reset, feed, expect, shows, latches, read, write, reads,
  run_keyboard_checks, run_video_checks, run_banking_checks,
}

==_self : (n : ℕ) → (n == n) ≡ true
==_self n = ground arith

-- the FIFO before anything was fed to it
abbrev pub empty_fifo : List ℕ → Ring
empty_fifo sent = record { buf = replicate 64 0; head = 0; tail = 0; sent = sent }

-- a group of checks from no failure
abbrev pub after : Checks (Unit {0}) → Board Ring → Run
after c b = (c (record { board = b; failures = 0 })).1

run_video_checks_pass :
    (rom : ℕ → ℕ) (b : Board Ring) → (after (run_video_checks rom) b).failures ≡ 0
unfolding run_video_checks ◌>>=◌ ◌>>◌ ◌and◌ reset expect shows latches reads write bus_reset
    bus_read bus_write video_read video_write bus_video_state bus_video_value switch is_video_write
run_video_checks_pass rom b = refl

run_keyboard_checks_pass :
    (rom : ℕ → ℕ) (b : Board Ring) (sent : List ℕ)
    → (after (run_keyboard_checks rom) (record b { port = empty_fifo sent })).failures ≡ 0
unfolding run_keyboard_checks ◌>>=◌ ◌>>◌ ◌and◌ reset feed expect reads write bus_reset bus_read
    bus_write is_video_write keyboard_read_strobe keyboard_read_data apple_key_from_uart
    host_uart_feed host_uart_rx host_uart_rx_ready
run_keyboard_checks_pass rom b sent = refl

run_banking_checks_pass :
    (rom : ℕ → ℕ) (b : Board Ring)
    → b.card.card_ram ≡ replicate language_card_ram_size 0
    → (after (run_banking_checks rom) b).failures ≡ 0
unfolding run_banking_checks ◌>>=◌ ◌>>◌ ◌and◌ reset expect reads read write bus_reset bus_read
    bus_write is_video_write language_card_read language_card_write language_card_switch
run_banking_checks_pass rom b zeros = rw (zeros, ==_self (rom 0)) refl

-- Whatever the ROM holds, the harness's video checks count no failure on any board, its keyboard
-- checks none on a board whose FIFO is as at the start, and its language card checks none on a
-- board whose card holds zeros.
pub checks_pass :
    (rom : ℕ → ℕ) (b : Board Ring) (sent : List ℕ)
    → b.card.card_ram ≡ replicate language_card_ram_size 0
    → ((after (run_keyboard_checks rom) (record b { port = empty_fifo sent })).failures ≡ 0)
      × ((after (run_banking_checks rom) b).failures ≡ 0)
      × ((after (run_video_checks rom) b).failures ≡ 0)
checks_pass rom b sent zeros = (
  run_keyboard_checks_pass rom b sent,
  run_banking_checks_pass rom b zeros,
  run_video_checks_pass rom b,
)
