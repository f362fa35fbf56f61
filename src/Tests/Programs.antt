-- ===== src/Tests/Programs.antt =====
-- The ROMs' programs on single bytes, the rows of the opcode tables, and the host harness as a whole.
use sage_apple.Base.{◌/◌, ◌%◌, ◌≡◌, refl, arith, [], ◌∷◌, ◌++◌, if◌then◌else◌, ◌==◌}
use sage_apple.Uart.Ring.{Ring, host_uart_feed, host_uart_rx, host_uart_rx_ready, host_uart_tx}
use sage_apple.Cpu.Regs.{to_ℕ}
use sage_apple.Cpu.Exec.{op_id, op_mode}
use sage_apple.Cpu.Step.{Machine, base_cycles}
use sage_apple.Cpu.Running.{running}
use sage_apple.Cpu.Opcodes.{
  documented, table_entry, documented_cycles, is_no_jump, opcode-documented,
}
use sage_apple.Apple.State.{Board}
use sage_apple.Apple.Video.{bus_video_state, bus_video_value}
use sage_apple.Apple.Running.{serving}
use sage_apple.Rom.Apple.{apple2rom}
use sage_apple.Rom.Console.{powered, session, reply, session-reply}
use sage_apple.Rom.Hex.{
  return_address, read_digit, print_byte, is_hex, hex_value, hex_digit, hex_subroutines,
}
use sage_apple.Host.{run_steps}
use sage_apple.Host.Checks.{
  run_keyboard_checks, run_video_checks, run_banking_checks, ◌>>=◌, ◌>>◌, ◌and◌, reset, feed,
  expect, shows, latches, read, write, reads,
}
use sage_apple.Host.Main.{signature, main_status, run_checks}
use sage_apple.Host.Passes.{after, empty_fifo, checks_pass}

session-reply_example : (session 75 (b'a' ∷ [])).core.mem.port.sent ≡ signature ++ reply b'a'
session-reply_example = session-reply b'a' (omega arith)

-- The letter comes back as a capital.
echo : reply b'a' ≡ b'A' ∷ []
echo = refl

hex_subroutines_example :
    (read_digit 7 9 100 (b'x' ∷ []) b'b'
      ≡ return_address ∷ to_ℕ (is_hex b'b') ∷ (if is_hex b'b' then hex_value b'b' else 0) ∷ [])
    × (print_byte 7 9 100 (b'x' ∷ []) b'b'
        ≡ return_address ∷ hex_digit (b'b' / 16) ∷ hex_digit (b'b' % 16) ∷ [])
hex_subroutines_example = hex_subroutines 7 9 100 (b'x' ∷ []) b'b' (omega arith)

opcode-documented_example :
    ((op_id 0x6d, op_mode 0x6d) ≡ table_entry (documented 0x6d))
    × ((base_cycles 0x6d == documented_cycles (documented 0x6d)) ≡ is_no_jump (documented 0x6d))
opcode-documented_example = opcode-documented 0x6d (omega arith)

-- the harness at power-on
abbrev host_machine : Machine (Board Ring)
host_machine = powered (empty_fifo [])

abbrev host_board : Board Ring
host_board = host_machine.core.mem

checks_pass_example :
    ((after (run_keyboard_checks (λ n. 0xea)) host_board).failures ≡ 0)
    × ((after (run_banking_checks (λ n. 0xea)) host_board).failures ≡ 0)
    × ((after (run_video_checks (λ n. 0xea)) host_board).failures ≡ 0)
checks_pass_example = checks_pass (λ n. 0xea) host_board [] refl

-- The harness passes with the repository's ROM.
harness_passes : main_status apple2rom host_machine ≡ 0
unfolding main_status run_checks run_steps apple2rom running serving run_keyboard_checks
    run_video_checks run_banking_checks ◌>>=◌ ◌>>◌ ◌and◌ reset feed expect shows latches read write
    reads host_uart_feed host_uart_rx host_uart_rx_ready host_uart_tx bus_video_state
    bus_video_value
harness_passes = refl
